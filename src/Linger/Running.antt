-- ===== src/Linger/Running.antt =====
-- What a Recorder holds after any starts and ends of tasks (linger/linger.go).
use go_stopper.Prelude.{
  ℕ, suc, ◌+◌, ◌≤◌, ◌<◌, ◌%◌, ◌^◌, ◌≡◌, refl, sym, subst, ◌∙◌, ap, Bool, false, ◌||◌, List, [], ◌∷◌,
  ◌++◌, map, arith, ◌==◌, if◌then◌else◌, Bool-cases, inl, inr, append_assoc, append-nil, ==_iff,
}
use go_stopper.Linger.{Stack, Recorder, new_recorder, put, delete, note_start, note_end, callers}

-- Tasks start, under the next id, and end, in any interleaving.
pub data Event : Type 0 where
  starts : Stack → Event
  finishes : ℕ → Event

unfoldable pub observe : Recorder → List Event → Recorder
unfolding note_start note_end
observe r [] = r
observe r (starts pc ∷ es) = observe (note_start pc r) es
observe r (finishes id ∷ es) = observe (note_end id r) es

-- Whether a task ends in the events.
abbrev pub finished : ℕ → List Event → Bool
finished k [] = false
finished k (starts pc ∷ es) = finished k es
finished k (finishes id ∷ es) = (k == id) || finished k es

abbrev pub starting : List Event → ℕ
starting [] = 0
starting (starts pc ∷ es) = suc (starting es)
starting (finishes id ∷ es) = starting es

-- The entries that no event ends.
abbrev pub unfinished : List (ℕ × Stack) → List Event → List (ℕ × Stack)
unfinished [] es = []
unfinished ((k, v) ∷ ds) es = if finished k es then unfinished ds es else (k, v) ∷ unfinished ds es

-- The tasks that start in the events, numbered after `n`, and do not end after their start.
abbrev pub running : ℕ → List Event → List (ℕ × Stack)
running n [] = []
running n (starts pc ∷ es) =
    if finished (suc n) es then running (suc n) es else (suc n, pc) ∷ running (suc n) es
running n (finishes id ∷ es) = running n es

-- Distinct ids, none above the counter.
abbrev pub Below : ℕ → List (ℕ × Stack) → Type 0
Below n [] = Unit
Below n ((k, v) ∷ ds) = (k ≤ n) × Below n ds

abbrev pub Apart : ℕ → List (ℕ × Stack) → Type 0
Apart k [] = Unit
Apart k ((j, v) ∷ ds) = ((j == k) ≡ false) × Apart k ds

abbrev pub AllApart : List (ℕ × Stack) → Type 0
AllApart [] = Unit
AllApart ((k, v) ∷ ds) = Apart k ds × AllApart ds

put_fresh :
    (n : ℕ) (pc : Stack) (ds : List (ℕ × Stack))
    → Below n ds
    → put (suc n) pc ds ≡ ds ++ (suc n, pc) ∷ []
put_fresh n pc [] b = refl
put_fresh n pc ((k, v) ∷ ds) (le, b) = ground (arith, le, put_fresh n pc ds b)

Below-put :
    (n : ℕ) (pc : Stack) (ds : List (ℕ × Stack))
    → Below n ds
    → Below (suc n) (ds ++ (suc n, pc) ∷ [])
Below-put n pc [] b = (omega arith, tt)
Below-put n pc ((k, v) ∷ ds) (le, b) = (omega (arith, le), Below-put n pc ds b)

unfinished-append :
    (ds ds' : List (ℕ × Stack)) (es : List Event)
    → unfinished (ds ++ ds') es ≡ unfinished ds es ++ unfinished ds' es
unfinished-append [] ds' es = refl
unfinished-append ((k, v) ∷ ds) ds' es = ground (arith, unfinished-append ds ds' es)

unfinished-nil : (ds : List (ℕ × Stack)) → unfinished ds [] ≡ ds
unfinished-nil [] = refl
unfinished-nil ((k, v) ∷ ds) = ap (λ es. (k, v) ∷ es) (unfinished-nil ds)

pub unfinished_start :
    (pc : Stack) (ds : List (ℕ × Stack)) (es : List Event)
    → unfinished ds (starts pc ∷ es) ≡ unfinished ds es
unfinished_start pc [] es = refl
unfinished_start pc ((k, v) ∷ ds) es = rw (unfinished_start pc ds es) refl

unfinished-Apart :
    (id : ℕ) (ds : List (ℕ × Stack)) (es : List Event)
    → Apart id ds
    → unfinished ds (finishes id ∷ es) ≡ unfinished ds es
unfinished-Apart id [] es a = refl
unfinished-Apart id ((k, v) ∷ ds) es (a, apart) = rw (a, unfinished-Apart id ds es apart) refl

unfinished-delete :
    (id : ℕ) (ds : List (ℕ × Stack)) (es : List Event)
    → AllApart ds
    → unfinished ds (finishes id ∷ es) ≡ unfinished (delete id ds) es
unfinished-delete id [] es a = refl
unfinished-delete id ((k, v) ∷ ds) es (a, apart) = elim (Bool-cases (k == id)) [
  | inl e ↦ rw e (unfinished-Apart id ds es (subst (λ x. Apart x ds) ((==_iff k id).0 e) a))
  | inr e ↦ rw (e, unfinished-delete id ds es apart) refl
]

Below-delete : (n id : ℕ) (ds : List (ℕ × Stack)) → Below n ds → Below n (delete id ds)
Below-delete n id [] b = b
Below-delete n id ((k, v) ∷ ds) (le, b) = elim (Bool-cases (k == id)) [
  | inl e ↦ rw e b
  | inr e ↦ rw e (le, Below-delete n id ds b)
]

Apart-delete : (j id : ℕ) (ds : List (ℕ × Stack)) → Apart j ds → Apart j (delete id ds)
Apart-delete j id [] a = a
Apart-delete j id ((k, v) ∷ ds) (ne, a) = elim (Bool-cases (k == id)) [
  | inl e ↦ rw e a
  | inr e ↦ rw e (ne, Apart-delete j id ds a)
]

AllApart-delete : (id : ℕ) (ds : List (ℕ × Stack)) → AllApart ds → AllApart (delete id ds)
AllApart-delete id [] a = a
AllApart-delete id ((k, v) ∷ ds) (a, apart) = elim (Bool-cases (k == id)) [
  | inl e ↦ rw e apart
  | inr e ↦ rw e (Apart-delete k id ds a, AllApart-delete id ds apart)
]

Apart-put :
    (n k : ℕ) (pc : Stack) (ds : List (ℕ × Stack))
    → k ≤ n
    → Apart k ds
    → Apart k (ds ++ (suc n, pc) ∷ [])
Apart-put n k pc [] le a = (ground (arith, le), tt)
Apart-put n k pc ((j, v) ∷ ds) le (ne, a) = (ne, Apart-put n k pc ds le a)

AllApart-put :
    (n : ℕ) (pc : Stack) (ds : List (ℕ × Stack))
    → Below n ds
    → AllApart ds
    → AllApart (ds ++ (suc n, pc) ∷ [])
AllApart-put n pc [] b a = (tt, tt)
AllApart-put n pc ((k, v) ∷ ds) (le, b) (a, apart) =
    (Apart-put n k pc ds le a, AllApart-put n pc ds b apart)

pub next_small : (c : ℕ) → suc c < 2 ^ 64 → (c + 1) % 2 ^ 64 ≡ suc c
next_small c h = omega (arith, h)

pub note_start_fresh :
    (c d : ℕ) (pc : Stack) (ds : List (ℕ × Stack))
    → Below c ds
    → suc c < 2 ^ 64
    → note_start pc (record { counter = c; data_map = ds; depth = d })
      ≡ record { counter = suc c; data_map = ds ++ (suc c, pc) ∷ []; depth = d }
unfolding note_start
note_start_fresh c d pc ds b h = rw (next_small c h, put_fresh c pc ds b) refl

running_starts :
    (n : ℕ) (pc : Stack) (es : List Event)
    → unfinished ((suc n, pc) ∷ []) es ++ running (suc n) es ≡ running n (starts pc ∷ es)
running_starts n pc es = elim (Bool-cases (finished (suc n) es)) [
  | inl e ↦ rw e refl
  | inr e ↦ rw e refl
]

pub observe_entries :
    (c d : ℕ) (ds : List (ℕ × Stack)) (es : List Event)
    → Below c ds
    → AllApart ds
    → c + starting es < 2 ^ 64
    → (observe (record { counter = c; data_map = ds; depth = d }) es).data_map
      ≡ unfinished ds es ++ running c es
unfolding observe note_start note_end
observe_entries c d ds [] b a h = sym (rw (unfinished-nil ds, append-nil ds) refl)
observe_entries c d ds (starts pc ∷ es) b a h =
    ap (λ r. (observe r es).data_map) (note_start_fresh c d pc ds b (omega (arith, h)))
    ∙ observe_entries (suc c) d (ds ++ (suc c, pc) ∷ []) es (Below-put c pc ds b)
        (AllApart-put c pc ds b a) (omega (arith, h))
    ∙ ap (λ l. l ++ running (suc c) es) (unfinished-append ds ((suc c, pc) ∷ []) es)
    ∙ append_assoc (unfinished ds es) (unfinished ((suc c, pc) ∷ []) es) (running (suc c) es)
    ∙ ap (λ l. unfinished ds es ++ l) (running_starts c pc es)
    ∙ ap (λ l. l ++ running c (starts pc ∷ es)) (sym (unfinished_start pc ds es))
observe_entries c d ds (finishes id ∷ es) b a h =
    observe_entries c d (delete id ds) es (Below-delete c id ds b) (AllApart-delete id ds a) h
    ∙ ap (λ l. l ++ running c es) (sym (unfinished-delete id ds es a))

-- After any interleaving of fewer than 2 ^ 64 starts with ends, Callers of a new Recorder gives the
-- stacks of the tasks that have started and not ended.
pub callers_running :
    (depth : ℕ) (es : List Event)
    → starting es < 2 ^ 64
    → callers (observe (new_recorder depth) es) ≡ map (λ (id, pc). pc) (running 0 es)
unfolding callers
callers_running depth es h =
    ap (map (λ (id, pc). pc)) (observe_entries 0 depth [] es tt tt (omega (arith, h)))
