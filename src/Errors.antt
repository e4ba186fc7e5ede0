-- ===== src/Errors.antt =====
-- Go's `error` values as the program builds them: sentinels, user errors, and the wrappers of
-- fmt.Errorf, errors.Join, RecoveredError (internal/safe/safe.go) and MaxAttemptsError
-- (retry/error.go). A nil error is `none`.
use go_stopper.Prelude.{ℕ, Bool, true, false, ◌||◌, List, [], ◌∷◌, Option, none, some}

pub data Sentinel : Type 0 where
  stopped grace_period_expired no_stopper canceled deadline_exceeded : Sentinel

-- `joined` is errors.joinError, which holds a list of non-nil errors.
mutual
  pub data Error : Type 0 where
    sentinel : Sentinel → Error
    user_error : ℕ → Error
    panic_text : ℕ → Error
    recovered : Error → Error
    max_attempts : Error → Error
    named : List ℕ → Error → Error
    indexed : ℕ → Error → Error
    joined : Errors → Error

  pub data Errors : Type 0 where
    nil : Errors
    cons : Error → Errors → Errors

-- The non-nil elements, which errors.Join and AddErrors keep.
abbrev pub non_nil : List (Option Error) → List Error
non_nil [] = []
non_nil (none ∷ es) = non_nil es
non_nil (some e ∷ es) = e ∷ non_nil es

abbrev pub to_errors : List Error → Errors
to_errors [] = nil
to_errors (e ∷ es) = cons e (to_errors es)

abbrev pub join_kept : List Error → Option Error
join_kept [] = none
join_kept (e ∷ es) = some (joined (to_errors (e ∷ es)))

-- errors.Join: nil when every argument is nil.
abbrev pub join : List (Option Error) → Option Error
join es = join_kept (non_nil es)

abbrev pub same_sentinel : Sentinel → Sentinel → Bool
same_sentinel stopped stopped = true
same_sentinel grace_period_expired grace_period_expired = true
same_sentinel no_stopper no_stopper = true
same_sentinel canceled canceled = true
same_sentinel deadline_exceeded deadline_exceeded = true
same_sentinel _ _ = false

-- errors.Is against a sentinel: every wrapper of the program has an Unwrap method.
unfoldable mutual
  pub is_error : Error → Sentinel → Bool
  is_error (sentinel k) t = same_sentinel k t
  is_error (user_error n) t = false
  is_error (panic_text n) t = false
  is_error (recovered e) t = is_error e t
  is_error (max_attempts e) t = is_error e t
  is_error (named n e) t = is_error e t
  is_error (indexed n e) t = is_error e t
  is_error (joined es) t = any_is es t

  pub any_is : Errors → Sentinel → Bool
  any_is nil t = false
  any_is (cons e es) t = is_error e t || any_is es t

-- errors.Is, whose first argument may be nil.
abbrev pub is_error? : Option Error → Sentinel → Bool
unfolding is_error
is_error? none t = false
is_error? (some e) t = is_error e t
