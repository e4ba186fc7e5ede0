-- ===== src/Forest/Sections.antt =====
-- What the critical sections of internal/state/state.go do to the count of their state.
use go_stopper.Prelude.{ℕ, suc, ◌≡◌, true, false, arith, Bool-cases, inl, inr, ◌⊎◌}
use go_stopper.Prelude.Int.{ℤ, pos, negsuc, ◌+ℤ◌}
use go_stopper.State.{State, Hook, result}
use go_stopper.State.Trace.{Op, applies, stops, adds_hook, cancels_hook, exec}
use go_stopper.Forest.{Request, defer, stop_within, stop_idle, add_error, expire, op_of}

-- A critical section that is not one of Apply leaves the count alone.
abbrev pub KeepsCount : Op → Type 0
KeepsCount op = (now : ℤ) (s : State) → (exec now op s).after.count ≡ s.count

pub request-KeepsCount : (r : Request) → KeepsCount (op_of r)
unfolding exec
request-KeepsCount (defer fn) now s = ground arith
request-KeepsCount (stop_within g) now s = ground arith
request-KeepsCount (stop_idle g) now s = ground arith
request-KeepsCount (add_error es) now s = ground arith
request-KeepsCount expire now s = ground arith

pub stops-KeepsCount : (g : ℤ) → KeepsCount (stops g)
unfolding exec
stops-KeepsCount g now s = ground arith

pub adds_hook-KeepsCount : (h : Hook) → KeepsCount (adds_hook h)
unfolding exec
adds_hook-KeepsCount h now s = ground arith

pub cancels_hook-KeepsCount : (c : ℕ) → KeepsCount (cancels_hook c)
unfolding exec
cancels_hook-KeepsCount c now s = ground arith

-- How a critical section of Apply(1) ends.
pub section_up :
    (now : ℤ) (s : State) (c : ℕ)
    → s.count ≡ pos c
    → (((exec now (applies (pos 1)) s).verdict ≡ result true)
        × ((exec now (applies (pos 1)) s).after.count ≡ pos (suc c)))
      ⊎ (((exec now (applies (pos 1)) s).verdict ≡ result false)
          × ((exec now (applies (pos 1)) s).after.count ≡ pos c))
unfolding exec ◌+ℤ◌
section_up now s c h = elim (Bool-cases s.stopping) [
  | inl e ↦ inr (ground arith, ground arith)
  | inr e ↦ inl (ground arith, ground arith)
]

-- A critical section of Apply(-1) on a positive count does not panic.
pub section_down :
    (now : ℤ) (s : State) (c : ℕ)
    → s.count ≡ pos (suc c)
    → ((exec now (applies (negsuc 0)) s).verdict ≡ result true)
      × ((exec now (applies (negsuc 0)) s).after.count ≡ pos c)
unfolding exec ◌+ℤ◌
section_down now s c h = (ground arith, ground arith)
