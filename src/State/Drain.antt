-- ===== src/State/Drain.antt =====
-- How a stopping State of internal/state/state.go comes to its end: new work is refused, the last
-- release or the grace timer cancels, and repeated stops only bring the deadline nearer.
use mathlib.Core.List.{Memᴰ}
use go_stopper.Prelude.{
  ℕ, zero, suc, ◌≡◌, subst, refl, sym, ◌∙◌, ◌⊎◌, inl, inr, true, false, Bool, List, [], ◌∷◌, ◌++◌,
  map, none, Option-cases, some, arith, Bool-cases,
}
use go_stopper.Prelude.Int.{ℤ, pos, negsuc, ◌+ℤ◌, ◌≤ℤ◌, ltb_ℤ, leb_ℤ, eqb_ℤ}
use go_stopper.Errors.{stopped, grace_period_expired}
use go_stopper.State.{State, cancel_with, new}
use go_stopper.State.Trace.{
  Op, applies, defers, stops, stops_on_idle, adds_errors, adds_hook, cancels_hook, expires, exec,
  History, IsPossible, run, arm, due,
}
use go_stopper.State.Invariant.{
  IsWellFormed, new-IsWellFormed, run-IsWellFormed, exec_stays_stopping,
}
use go_stopper.State.Order.{unhooked}

apply_refuses :
    (now delta : ℤ) (s : State)
    → s.stopping ≡ true
    → ((exec now (applies delta) s).after.count ≡ s.count)
      ⊎ (((exec now (applies delta) s).after.count ≡ s.count +ℤ delta)
          × (ltb_ℤ (pos 0) delta ≡ false))
unfolding exec
apply_refuses now delta s h = ground arith

add_nonpositive : (a b : ℤ) → ltb_ℤ (pos 0) b ≡ false → (a +ℤ b) ≤ℤ a
unfolding ◌+ℤ◌
add_nonpositive a b h = ground arith

exec_refuses :
    (now : ℤ) (op : Op) (s : State) → s.stopping ≡ true → (exec now op s).after.count ≤ℤ s.count
unfolding exec
exec_refuses now (applies delta) s h = elim (apply_refuses now delta s h) [
  | inl e ↦ rw e (omega arith)
  | inr (e, d) ↦ rw e (add_nonpositive s.count delta d)
]
exec_refuses now (defers fn) s h = ground arith
exec_refuses now (stops g) s h = ground arith
exec_refuses now (stops_on_idle g) s h = ground arith
exec_refuses now (adds_errors es) s h = ground arith
exec_refuses now (adds_hook k) s h = ground arith
exec_refuses now (cancels_hook c) s h = ground arith
exec_refuses now expires s h = ground arith

-- From the first stop on, no history makes the state run again or raises its task count.
pub stopping_is_final :
    (s : State) (ops : History)
    → s.stopping ≡ true
    → ((run s ops).stopping ≡ true) × ((run s ops).count ≤ℤ s.count)
unfolding run
stopping_is_final s [] h = (h, omega arith)
stopping_is_final s ((now, op) ∷ ops) h =
    let h' = exec_stays_stopping now op s h in
    let (stays, le) = stopping_is_final (exec now op s).after ops h' in
    (stays, omega (arith, le, exec_refuses now op s h))

abbrev pub release : Op
release = applies (negsuc 0)

abbrev pub releases : ℤ → ℕ → History
releases now zero = []
releases now (suc n) = (now, release) ∷ releases now n

release_step :
    (now : ℤ) (n : ℕ) (s : State)
    → s.count ≡ pos (suc (suc n))
    → (exec now release s).after ≡ record s { count = pos (suc n) }
unfolding exec ◌+ℤ◌
release_step now n s h = ground arith

release_last :
    (now : ℤ) (s : State) (k : ℕ)
    → s.count ≡ pos 1
    → s.stopping ≡ true
    → s.cancel ≡ some k
    → unhooked (exec now release s).deferred ≡ cancel_with k stopped ∷ s.deferred
unfolding exec ◌+ℤ◌
release_last now s k h t c = ground arith

abbrev Drains : ℕ → ℤ → State → ℕ → State → Type 0
Drains n now s k t =
    ((run t (releases now n)).cancel ≡ some k)
    × (unhooked (exec now release (run t (releases now n))).deferred
        ≡ cancel_with k stopped ∷ s.deferred)

-- A stopping state with n + 1 tasks, not yet canceled, stays so for n releases, and the release
-- after them hands out the cancel function with ErrStopped and all the deferred functions.
pub drain_completes :
    (n : ℕ) (now : ℤ) (s : State) (k : ℕ)
    → s.count ≡ pos (suc n)
    → s.stopping ≡ true
    → s.cancel ≡ some k
    → ((run s (releases now n)).cancel ≡ some k)
      × (unhooked (exec now release (run s (releases now n))).deferred
          ≡ cancel_with k stopped ∷ s.deferred)
unfolding run
drain_completes zero now s k h t c = (c, release_last now s k h t c)
drain_completes (suc n) now s k h t c =
    subst (Drains n now s k) (sym (release_step now n s h))
      (drain_completes n now (record s { count = pos (suc n) }) k refl t c)

-- The timer of a state has been started: it is among those that may fire.
abbrev IsStarted : State → List ℤ → Type 0
IsStarted s timers =
    (d now : ℤ) → s.grace_timer ≡ some d → leb_ℤ d now ≡ true → due now timers ≡ true

arm-IsStarted : (s : State) (timers : List ℤ) → IsStarted s (arm s timers)
arm-IsStarted s timers d now h l = ground arith

-- The firing of the timer of a state that a possible history has led to can come next.
expiry-IsPossible :
    (s : State) (timers : List ℤ) (ops : History) (d now : ℤ)
    → IsStarted s timers
    → IsPossible s timers ops
    → (run s ops).grace_timer ≡ some d
    → leb_ℤ d now ≡ true
    → IsPossible s timers (ops ++ (now, expires) ∷ [])
unfolding run
expiry-IsPossible s timers [] d now v p h l = (v d now h l, tt)
expiry-IsPossible s timers ((at, op) ∷ ops) d now v (f, p) h l =
    let s' = (exec at op s).after in
    (f, expiry-IsPossible s' (arm s' timers) ops d now (arm-IsStarted s' timers) p h l)

expire_cancels :
    (now : ℤ) (s : State) (j : ℕ)
    → s.cancel ≡ some j
    → ((exec now expires s).deferred ≡ cancel_with j grace_period_expired ∷ s.deferred)
      × ((exec now expires s).after.cancel ≡ none)
      × ((exec now expires s).after.deferred ≡ [])
unfolding exec
expire_cancels now s j h = ground arith

leb-later : (d : ℤ) (late : ℕ) → leb_ℤ d (d +ℤ pos late) ≡ true
unfolding ◌+ℤ◌
leb-later d late = ground arith

-- A state that a possible history of a new state has led to, and that is stopping and not yet
-- canceled, has a grace timer. At its deadline or any time later its firing can come next, whatever
-- tasks are left: it hands out the cancel function, with ErrGracePeriodExpired, and all the deferred
-- functions.
pub grace_timer_cancels :
    (k : ℕ) (has_parent : Bool) (ops : History) (j late : ℕ)
    → IsPossible (new k has_parent) [] ops
    → (run (new k has_parent) ops).stopping ≡ true
    → (run (new k has_parent) ops).cancel ≡ some j
    → let s = run (new k has_parent) ops in
      (d : ℤ) × (s.grace_timer ≡ some d)
      × IsPossible (new k has_parent) [] (ops ++ (d +ℤ pos late, expires) ∷ [])
      × ((exec (d +ℤ pos late) expires s).deferred
          ≡ cancel_with j grace_period_expired ∷ s.deferred)
      × ((exec (d +ℤ pos late) expires s).after.cancel ≡ none)
      × ((exec (d +ℤ pos late) expires s).after.deferred ≡ [])
unfolding new
grace_timer_cancels k has_parent ops j late p t c =
    let s0 = new k has_parent in
    let v = run-IsWellFormed s0 [] ops (new-IsWellFormed k has_parent) (λ _. refl) p in
    elim (Option-cases (run s0 ops).grace_timer) [
      | inl e ↦ absurd (ground (arith, v.draining_timed t, c, e))
      | inr (d, e) ↦
          let (calls_, canceled, emptied) = expire_cancels (d +ℤ pos late) (run s0 ops) j c in
          let possible =
            expiry-IsPossible s0 [] ops d (d +ℤ pos late) (λ d' now h. cc) p e (leb-later d late) in
          (d, e, possible, calls_, canceled, emptied)
    ]

-- Calls of Stop, each at a time and with a grace period.
abbrev pub calls : List (ℤ × ℤ) → History
calls [] = []
calls ((now, grace) ∷ rs) = (now, stops grace) ∷ calls rs

abbrev pub deadline : ℤ × ℤ → ℤ
deadline r = r.0 +ℤ r.1

abbrev pub All {ℓ} : {A : Type ℓ} → (A → Type 0) → List A → Type 0
All P [] = Unit
All P (x ∷ xs) = P x × All P xs

stop_arms :
    (now grace : ℤ) (s : State)
    → s.stop_at ≡ none
    → eqb_ℤ s.count (pos 0) ≡ false
    → leb_ℤ grace (pos 0) ≡ false
    → ((exec now (stops grace) s).after.stop_at ≡ some (now +ℤ grace))
      × ((exec now (stops grace) s).after.count ≡ s.count)
unfolding exec
stop_arms now grace s n c g = ground arith

stop_shortens :
    (now grace a : ℤ) (s : State)
    → s.stop_at ≡ some a
    → eqb_ℤ s.count (pos 0) ≡ false
    → leb_ℤ grace (pos 0) ≡ false
    → (b : ℤ) × ((exec now (stops grace) s).after.stop_at ≡ some b)
      × ((exec now (stops grace) s).after.count ≡ s.count)
      × (b ≤ℤ a)
      × (b ≤ℤ (now +ℤ grace))
      × ((b ≡ a) ⊎ (b ≡ now +ℤ grace))
unfolding exec
stop_shortens now grace a s n c g = elim (Bool-cases (leb_ℤ a (now +ℤ grace))) [
  | inl le ↦ (a, ground arith, ground arith, ground arith, ground arith, inl refl)
  | inr gt ↦ (now +ℤ grace, ground arith, ground arith, ground arith, ground arith, inr refl)
]

pick :
    (a b d r : ℤ) (ds : List ℤ)
    → (b ≡ a) ⊎ (b ≡ r)
    → (d ≡ b) ⊎ Memᴰ d ds
    → (d ≡ a) ⊎ Memᴰ d (r ∷ ds)
pick a b d r ds (inl p) (inl q) = inl (q ∙ p)
pick a b d r ds (inr p) (inl q) = inr (Memᴰ.head (q ∙ p))
pick a b d r ds p (inr m) = inr (Memᴰ.tail m)

-- What a list of calls of Stop makes of a deadline: one that is no later than any asked for, and
-- that was asked for.
abbrev IsEarliest : ℤ → ℤ → List (ℤ × ℤ) → Type 0
IsEarliest a d rs = (d ≤ℤ a) × All (λ r. d ≤ℤ deadline r) rs × ((d ≡ a) ⊎ Memᴰ d (map deadline rs))

abbrev pub AllPositive : List (ℤ × ℤ) → Type 0
AllPositive = All (λ r. leb_ℤ r.1 (pos 0) ≡ false)

stops_shorten :
    (rs : List (ℤ × ℤ)) (a : ℤ) (s : State)
    → s.stop_at ≡ some a
    → eqb_ℤ s.count (pos 0) ≡ false
    → AllPositive rs
    → (d : ℤ) × ((run s (calls rs)).stop_at ≡ some d) × IsEarliest a d rs
unfolding run
stops_shorten [] a s e c p = (a, e, (omega arith, tt, inl refl))
stops_shorten ((now, grace) ∷ rs) a s e c (p, ps) =
    let (b, eb, ec, below_a, below_r, is_b) = stop_shortens now grace a s e c p in
    let (d, ed, (below_b, all, is_d)) =
      stops_shorten rs b (exec now (stops grace) s).after eb (rw ec c) ps in
    (
      d,
      ed,
      (omega arith, (omega arith, all), pick a b d (now +ℤ grace) (map deadline rs) is_b is_d),
    )

mem_of_cases : (d r : ℤ) (ds : List ℤ) → (d ≡ r) ⊎ Memᴰ d ds → Memᴰ d (r ∷ ds)
mem_of_cases d r ds (inl p) = Memᴰ.head p
mem_of_cases d r ds (inr m) = Memᴰ.tail m

calls-IsPossible :
    (rs : List (ℤ × ℤ)) (s : State) (timers : List ℤ) → IsPossible s timers (calls rs)
calls-IsPossible [] s timers = tt
calls-IsPossible ((now, grace) ∷ rs) s timers = (tt, calls-IsPossible rs _ _)

-- Calls of Stop with positive grace periods, on a state with tasks that was not told to stop,
-- leave a grace timer for the earliest of the deadlines that they ask for.
pub stops_deadline :
    (now grace : ℤ) (rs : List (ℤ × ℤ)) (s : State)
    → IsWellFormed s
    → s.stopping ≡ false
    → eqb_ℤ s.count (pos 0) ≡ false
    → AllPositive ((now, grace) ∷ rs)
    → (d : ℤ) × ((run s (calls ((now, grace) ∷ rs))).grace_timer ≡ some d)
      × All (λ r. d ≤ℤ deadline r) ((now, grace) ∷ rs)
      × Memᴰ d (map deadline ((now, grace) ∷ rs))
unfolding run
stops_deadline now grace rs s v t c p =
    let untimed : s.stop_at ≡ none = ground arith in
    let (a, c') = stop_arms now grace s untimed c p.0 in
    let (d, ed, (below, all, is_d)) =
      stops_shorten rs (now +ℤ grace) (exec now (stops grace) s).after a (rw c' c) p.1 in
    let w =
      run-IsWellFormed s [] (calls ((now, grace) ∷ rs)) v (λ _. refl)
        (calls-IsPossible ((now, grace) ∷ rs) s []) in
    (d, w.timer_agrees ∙ ed, (below, all), mem_of_cases d (now +ℤ grace) (map deadline rs) is_d)
