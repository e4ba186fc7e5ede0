-- ===== src/State/Lifecycle.antt =====
-- What a stopper promises (the package documentation and internal/state/state.go), without timers,
-- hooks and parents: it accepts tasks, drains, and is closed once, after which it stays closed.
use go_stopper.Prelude.{
  ℕ, ◌≡◌, ◌≢◌, Bool, true, false, List, [], ◌∷◌, ◌++◌, if◌then◌else◌, is_some, reverse,
}
use go_stopper.Prelude.Int.{ℤ, pos, ◌+ℤ◌, ltb_ℤ, eqb_ℤ}
use go_stopper.Errors.{Sentinel, stopped, grace_period_expired}
use go_stopper.State.{State, Callback, user, cancel_with, run_hooks, release_parent}

pub data Phase : Type 0 where
  accepting draining closed : Phase

pub record View : Type 0 where
  pub tasks : ℤ
  pub phase : Phase
  pub pending : List Callback

abbrev pub phase_of : Bool → Bool → Phase
phase_of true true = draining
phase_of true false = accepting
phase_of false _ = closed

abbrev pub view : State → View
view s = record {
  tasks = s.count;
  phase = phase_of (is_some s.cancel) s.stopping;
  pending = s.deferred;
}

-- One promise, with the functions that are called. A close calls what is pending and then, since
-- the list is called from its end, the cancel function.
pub data Move (v w : View) (called : List Callback) : Type 0 where
  keeps : w ≡ v → called ≡ [] → Move v w called
  counts :
      (delta : ℤ)
      → (ltb_ℤ (pos 0) delta ≡ true → v.phase ≡ accepting)
      → w ≡ record v { tasks = v.tasks +ℤ delta }
      → called ≡ []
      → Move v w called
  registers :
      (fn : ℕ)
      → w ≡ record v { pending = v.pending ++ user fn ∷ [] }
      → called ≡ []
      → Move v w called
  calls_now : (fn : ℕ) → v.phase ≡ closed → w ≡ v → called ≡ user fn ∷ [] → Move v w called
  drains :
      v.phase ≡ accepting
      → eqb_ℤ v.tasks (pos 0) ≡ false
      → w ≡ record v { phase = draining }
      → called ≡ []
      → Move v w called
  closes :
      (k : ℕ) (cause : Sentinel)
      → v.phase ≢ closed
      → cause ≡ (if eqb_ℤ v.tasks (pos 0) then stopped else grace_period_expired)
      → w ≡ record v { phase = closed; pending = [] }
      → called ≡ cancel_with k cause ∷ v.pending
      → Move v w called

-- What a critical section may come to: one promise, or a count and then a close.
pub data Moves (v w : View) (called : List Callback) : Type 0 where
  one : Move v w called → Moves v w called
  two : (u : View) → Move v u [] → Move u w called → Moves v w called

-- The functions of a section without those that the promise knows nothing of.
abbrev pub own : List Callback → List Callback
own [] = []
own (run_hooks hs ∷ cbs) = cbs
own (release_parent d ∷ cbs) = cbs
own (cb ∷ cbs) = cb ∷ cbs

-- A life of a stopper, with all functions that it calls in the order of the calls.
pub data Life : View → View → List Callback → Type 0 where
  ends_here : {v : View} → Life v v []
  goes_on :
      {v u w : View} {called later : List Callback}
      → Moves v u called
      → Life u w later
      → Life v w (reverse called ++ later)
