-- ===== src/Safe/Recovery.antt =====
-- What the panic handlers of internal/safe/safe.go keep of an error and of a panic.
use go_stopper.Prelude.{◌≡◌, refl, ◌↔◌, Option, none, some, Bool-cases, inl, inr}
use go_stopper.Errors.{Error, Sentinel, is_error, is_error?}
use go_stopper.Safe.{Outcome, returns, panics, error_value, call, call_e, call_re}

-- CallE reports nil exactly when the function returned nil without a panic.
call_e-eq-none_iff : (o : Outcome (Option Error)) → (call_e o ≡ none) ↔ (o ≡ returns none)
unfolding call_e
call_e-eq-none_iff (returns none) = ((λ _. refl), (λ _. refl))
call_e-eq-none_iff (returns (some e)) = ((λ h. cc), (λ h. cc))
call_e-eq-none_iff (panics r) = ((λ h. cc), (λ h. cc))

-- Whatever error value a function panics with, errors.Is finds in the errors that Call, CallE and
-- CallRE return exactly the sentinels that it finds in the panic's error; CallRE then returns the
-- zero value; and Unwrap gives Call's recovered error back.
recovery_keeps_sentinels :
    {R : Type 0} (zero_value : R) (e : Error) (t : Sentinel)
    → (is_error? (call (panics (error_value e))) t ≡ is_error e t)
      × (is_error? (call_e (panics (error_value e))) t ≡ is_error e t)
      × (is_error? (call_re zero_value (panics (error_value e))).1 t ≡ is_error e t)
      × ((call_re zero_value (panics (error_value e))).0 ≡ zero_value)
unfolding call call_e call_re is_error
recovery_keeps_sentinels zero_value e t = elim (Bool-cases (is_error e t)) [
  | inl h ↦ rw h (refl, refl, refl, refl)
  | inr h ↦ rw h (refl, refl, refl, refl)
]
