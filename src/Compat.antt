-- ===== src/Compat.antt =====
-- compat/: the API of version 1 over the Context of version 2, whose methods are a record of
-- operations. Invokers go by numbers, since a Context holds functions over Contexts; `invoke` is what
-- each of them does: code, which sets up and returns the new task, or panics. `S` is the type of the other contexts of the standard library.
pub mod Chain
pub mod Recorder
pub mod Signatures
mod Examples
use go_stopper.Prelude.{
  ℕ, Bool, true, false, List, [], ◌∷◌, ◌++◌, Option, none, some, if◌then◌else◌,
}
use go_stopper.Prelude.Int.{ℤ, pos, eqb_ℤ}
use go_stopper.Errors.{Error}
use go_stopper.Safe.{returns, panics, error_value}
use go_stopper.Invocation.{Code, ends, then_run}

pub record Context (X : Type 0) : Type 0 where
  pub inner : X
  pub invokers : List ℕ
  pub is_background : Bool

abbrev pub Func : Type 0 → Type 0 → Type 0
Func W X = Context X → Code W (Option Error)

-- A context.Context: one of this package, or any other.
pub data AnyContext (S X : Type 0) : Type 0 where
  compat : Context X → AnyContext S X
  other : S → AnyContext S X

-- What compat/ calls of version 2. Times are nanoseconds.
pub record V2 (W S X : Type 0) : Type 0 where
  pub v2_new : X
  pub v2_from : AnyContext S X → Option X
  pub v2_call : X → (X → Code W (Option Error)) → Code W (Option Error)
  pub v2_go : X → (X → Code W (Option Error)) → Code W (Option Error)
  pub v2_defer : X → (X → Code W (Option Error)) → Code W Bool
  pub v2_stop : X → ℤ → Code W (Unit {0})
  pub v2_stop_on_idle : X → Code W (Unit {0})
  pub v2_wait : X → Code W (Option Error)
  pub v2_with_delegate : X → AnyContext S X → X
  pub v2_with_context : AnyContext S X → Code W X
  pub v2_stopping_context : X → AnyContext S X

-- math.MaxInt64.
abbrev pub max_duration : ℤ
max_duration = pos 9223372036854775807

abbrev pub wrap : {X : Type 0} → X → Context X
wrap x = record { inner = x; invokers = []; is_background = false }

module _ {W S X : Type 0} (v : V2 W S X) (invoke : ℕ → Func W X → Code W (Func W X)) where
  -- Background.
  abbrev pub background : Context X
  background = record { inner = v.v2_new; invokers = []; is_background = true }

  -- applyInvokers: the last invoker sets up first.
  unfoldable pub apply_invokers : List ℕ → Func W X → Code W (Func W X)
  apply_invokers [] fn w = ends (returns fn) w
  apply_invokers (i ∷ is) fn w = then_run (apply_invokers is fn w) (invoke i)

  unfoldable pub call : Context X → Func W X → Code W (Option Error)
  unfolding apply_invokers
  call c fn w =
      then_run (apply_invokers c.invokers fn w)
        λ task w1. v.v2_call c.inner (λ ctx. task (wrap ctx)) w1

  unfoldable pub go : Context X → Func W X → Code W Bool
  unfolding apply_invokers
  go c fn w = then_run (apply_invokers c.invokers fn w) λ task w1.
      then_run (v.v2_go c.inner (λ ctx. task (wrap ctx)) w1)
        λ err w2. ends (returns (elim err [ none ↦ true | some e ↦ false ])) w2

  -- Defer; `refusal` is the error that it panics with on a background context.
  unfoldable pub defer_fn : Error → Context X → Code W (Unit {0}) → Code W (Unit {0})
  defer_fn refusal c fn w =
      if c.is_background
      then ends (panics (error_value refusal)) w
      else then_run
          (v.v2_defer c.inner (λ ctx w1. then_run (fn w1) λ u w2. ends (returns none) w2) w)
          (λ kept w'. ends (returns tt) w')

  unfoldable pub from : AnyContext S X → Context X
  from (compat c) = c
  from (other s) = elim (v.v2_from (other s)) [ none ↦ background | some found ↦ wrap found ]

  unfoldable pub stop : Context X → ℤ → Code W (Unit {0})
  stop c grace_period w =
      if c.is_background
      then ends (returns tt) w
      else v.v2_stop c.inner (if eqb_ℤ grace_period (pos 0) then max_duration else grace_period) w

  unfoldable pub stop_on_idle : Context X → Code W (Unit {0})
  stop_on_idle c w = if c.is_background then ends (returns tt) w else v.v2_stop_on_idle c.inner w

  unfoldable pub wait : Context X → Code W (Option Error)
  wait c w = if c.is_background then ends (returns none) w else v.v2_wait c.inner w

  -- With.
  unfoldable pub with_delegate : Context X → AnyContext S X → Context X
  with_delegate c ctx = record {
    inner = v.v2_with_delegate c.inner ctx;
    invokers = [];
    is_background = c.is_background;
  }

  unfoldable pub with_context : AnyContext S X → Code W (Context X)
  unfolding from
  with_context ctx w = then_run (v.v2_with_context ctx w) λ inner w'.
      ends
        (returns (record { inner = inner; invokers = (from ctx).invokers; is_background = false }))
        w'

  unfoldable pub with_invoker : AnyContext S X → ℕ → Code W (Context X)
  unfolding from
  with_invoker ctx inv w = then_run (v.v2_with_context ctx w) λ inner w'.
      ends
        (returns (record {
          inner = inner;
          invokers = (from ctx).invokers ++ inv ∷ [];
          is_background = false;
        }))
        w'

  -- Harden and HardenFrom.
  unfoldable pub harden : Context X → AnyContext S X
  harden c = v.v2_stopping_context c.inner

  unfoldable pub harden_from : AnyContext S X → AnyContext S X
  harden_from ctx = elim (v.v2_from ctx) [ none ↦ ctx | some found ↦ v.v2_stopping_context found ]
