-- ===== src/Context/Wait.antt =====
-- What Wait reports (stopper.go), and the error of the stopping context (stopping_ctx.go).
use go_stopper.Prelude.{
  ◌≡◌, refl, inl, inr, Bool, true, false, ◌||◌, ◌&&◌, List, [], ◌∷◌, ◌++◌, Option, none, some,
  arith, map, if◌then◌else◌, Bool-cases, ap, ◌∙◌, sym, append-nil, ◌↔◌,
}
use go_stopper.Errors.{
  Error, Sentinel, sentinel, stopped, grace_period_expired, canceled, join, join_kept, non_nil,
  to_errors, is_error, any_is, is_error?, same_sentinel,
}
use go_stopper.Context.{Waited, context_done, argument_done, wait_ctx, stopping_err}

-- Whether errors.Is finds a sentinel in one of the errors.
abbrev pub any_error : List Error → Sentinel → Bool
any_error [] t = false
any_error (e ∷ es) t = is_error e t || any_error es t

any_is-to_errors : (es : List Error) (t : Sentinel) → any_is (to_errors es) t ≡ any_error es t
unfolding is_error
any_is-to_errors [] t = refl
any_is-to_errors (e ∷ es) t = ap (λ b. is_error e t || b) (any_is-to_errors es t)

is_error-join_kept : (es : List Error) (t : Sentinel) → is_error? (join_kept es) t ≡ any_error es t
unfolding is_error
is_error-join_kept [] t = refl
is_error-join_kept (e ∷ es) t = any_is-to_errors (e ∷ es) t

non_nil-some :
    (es : List Error) (os : List (Option Error)) → non_nil (map some es ++ os) ≡ es ++ non_nil os
non_nil-some [] os = refl
non_nil-some (e ∷ es) os = ap (λ l. e ∷ l) (non_nil-some es os)

any_error-append :
    (es fs : List Error) (t : Sentinel)
    → any_error (es ++ fs) t ≡ (any_error es t || any_error fs t)
any_error-append [] fs t = refl
any_error-append (e ∷ es) fs t = ground (arith, any_error-append es fs t)

-- The errors that WaitCtx joins for a select case.
abbrev late_errors : Waited → Sentinel → Bool
late_errors (context_done cause) t =
    is_error? cause grace_period_expired && same_sentinel grace_period_expired t
late_errors (argument_done ctx_err) t = is_error? ctx_err t

any_error-non_nil :
    (o : Option Error) (os : List (Option Error)) (t : Sentinel)
    → any_error (non_nil (o ∷ os)) t ≡ (is_error? o t || any_error (non_nil os) t)
unfolding is_error
any_error-non_nil none os t = refl
any_error-non_nil (some e) os t = refl

is_error-join_all :
    (errs : List Error) (os : List (Option Error)) (t : Sentinel)
    → is_error? (join (map some errs ++ os)) t ≡ (any_error errs t || any_error (non_nil os) t)
is_error-join_all errs os t =
    is_error-join_kept (non_nil (map some errs ++ os)) t
    ∙ ap (λ l. any_error l t) (non_nil-some errs os)
    ∙ any_error-append errs (non_nil os) t

is_error-sentinel : (k t : Sentinel) → is_error (sentinel k) t ≡ same_sentinel k t
unfolding is_error
is_error-sentinel k t = refl

or_false : (b : Bool) → (b || false) ≡ b
or_false true = refl
or_false false = refl

is_error-done :
    (errs : List Error) (cause : Option Error) (t : Sentinel)
    → is_error? (wait_ctx errs (context_done cause)) t
      ≡ (any_error errs t || late_errors (context_done cause) t)
unfolding wait_ctx
is_error-done errs cause t =
    let plain =
      ap (λ l. is_error? (join l) t) (sym (append-nil (map some errs)))
      ∙ is_error-join_all errs [] t in
    let pair =
      is_error-join_kept
        (non_nil (join (map some errs) ∷ some (sentinel grace_period_expired) ∷ [])) t
      ∙ any_error-non_nil (join (map some errs)) (some (sentinel grace_period_expired) ∷ []) t in
    let late = is_error-sentinel grace_period_expired t in
    elim (Bool-cases (is_error? cause grace_period_expired)) [
      | inl expired ↦ rw expired (ground (arith, plain, pair, late))
      | inr other ↦ rw other (ground (arith, plain))
    ]

-- errors.Is finds a sentinel in the result of WaitCtx exactly if it finds it in an error of the
-- State, or in the error of the argument where that ended the wait, or if the sentinel is
-- ErrGracePeriodExpired and the context was canceled for it.
wait_finds :
    (errs : List Error) (w : Waited) (t : Sentinel)
    → is_error? (wait_ctx errs w) t ≡ (any_error errs t || late_errors w t)
unfolding wait_ctx
wait_finds errs (context_done cause) t = is_error-done errs cause t
wait_finds errs (argument_done ctx_err) t =
    is_error-join_all errs (ctx_err ∷ []) t
    ∙ ap (λ b. any_error errs t || b)
        (any_error-non_nil ctx_err [] t ∙ or_false (is_error? ctx_err t))

-- Wait reports nil exactly if the State has no errors and the grace period did not expire.
wait_nil_iff :
    (errs : List Error) (cause : Option Error)
    → (wait_ctx errs (context_done cause) ≡ none)
      ↔ ((errs ≡ []) × (is_error? cause grace_period_expired ≡ false))
unfolding wait_ctx
wait_nil_iff [] cause = ((λ h. ground arith), (λ h. ground arith))
wait_nil_iff (e ∷ es) cause = ((λ h. ground arith), (λ h. ground arith))

-- The error of the stopping context of a stopping State is both context.Canceled and ErrStopped,
-- and no other sentinel; otherwise it is the error of the context.
stopping_err_finds :
    (stopping : Bool) (ctx_err : Option Error) (t : Sentinel)
    → is_error? (stopping_err stopping ctx_err) t ≡ (
        if stopping
        then same_sentinel canceled t || same_sentinel stopped t
        else is_error? ctx_err t)
unfolding stopping_err is_error
stopping_err_finds true ctx_err t = ground arith
stopping_err_finds false ctx_err t = refl
