-- ===== src/State/Errs.antt =====
-- The error list of a State: AddErrors and callDeferred of internal/state/state.go.
use mathlib.Core.List.{reverse-cons, map-append}
use go_stopper.Prelude.{
  ◌≡◌, refl, sym, ◌∙◌, ap, false, List, [], ◌∷◌, ◌++◌, reverse, Option, none, some, arith,
  append-nil, append_assoc, map, Option-cases, inl, inr,
}
use go_stopper.Errors.{Error, non_nil}
use go_stopper.Safe.{Outcome, call_e}
use go_stopper.State.{State, Callback, contains_error, add_errors, call_deferred, record_outcome}

no_errors : (es : List (Option Error)) → contains_error es ≡ false → non_nil es ≡ []
no_errors [] h = refl
no_errors (none ∷ es) h = no_errors es h
no_errors (some e ∷ es) h = cc

-- AddErrors appends the non-nil errors in their order, and changes nothing else.
pub add_errors_appends :
    (es : List (Option Error)) (s : State)
    → add_errors es s ≡ record s { errs = s.errs ++ non_nil es }
unfolding add_errors
add_errors_appends es s = ground (arith, no_errors es, append-nil s.errs)

non_nil-append : (xs ys : List (Option Error)) → non_nil (xs ++ ys) ≡ non_nil xs ++ non_nil ys
non_nil-append [] ys = refl
non_nil-append (none ∷ xs) ys = non_nil-append xs ys
non_nil-append (some e ∷ xs) ys = ap (λ l. e ∷ l) (non_nil-append xs ys)

record_outcome_appends :
    (o : Outcome (Option Error)) (s : State)
    → record_outcome o s ≡ record s { errs = s.errs ++ non_nil (call_e o ∷ []) }
unfolding record_outcome
record_outcome_appends o s = elim (Option-cases (call_e o)) [
  | inl e ↦ rw (e, record_outcome, append-nil) refl
  | inr (err, e) ↦ rw (e, record_outcome) (add_errors_appends (some err ∷ []) s)
]

abbrev pub failures : (Callback → Outcome (Option Error)) → List Callback → List Error
failures runs fns = non_nil (map (λ fn. call_e (runs fn)) fns)

failures-reverse :
    (runs : Callback → Outcome (Option Error)) (fn : Callback) (fns : List Callback)
    → failures runs (reverse (fn ∷ fns))
      ≡ failures runs (reverse fns) ++ non_nil (call_e (runs fn) ∷ [])
failures-reverse runs fn fns =
    ap (failures runs) (reverse-cons fn fns)
    ∙ ap non_nil (map-append (λ f. call_e (runs f)) (reverse fns) (fn ∷ []))
    ∙ non_nil-append (map (λ f. call_e (runs f)) (reverse fns)) (call_e (runs fn) ∷ [])

-- callDeferred calls the functions from the last to the first and appends the errors, recovered
-- panics included, in the order of the calls; it changes nothing else.
pub call_deferred_lem :
    (runs : Callback → Outcome (Option Error)) (fns : List Callback) (s : State)
    → call_deferred runs fns s
      ≡ record s { errs = s.errs ++ non_nil (map (λ fn. call_e (runs fn)) (reverse fns)) }
unfolding call_deferred
call_deferred_lem runs [] s = rw append-nil refl
call_deferred_lem runs (fn ∷ fns) s =
    record_outcome_appends (runs fn) (call_deferred runs fns s)
    ∙ ap (λ (t : State). record t { errs = t.errs ++ non_nil (call_e (runs fn) ∷ []) })
        (call_deferred_lem runs fns s)
    ∙ ap (λ l. record s { errs = l })
        (append_assoc s.errs (failures runs (reverse fns)) (non_nil (call_e (runs fn) ∷ []))
          ∙ ap (λ l. s.errs ++ l) (sym (failures-reverse runs fn fns)))
