-- ===== src/Tasks/Order.antt =====
-- sortTasks is an order (task_info.go).
use go_stopper.Prelude.{
  ◌≡◌, refl, sym, ap, subst, [], ◌∷◌, Option, none, some, arith, if◌then◌else◌, ◌==◌,
}
use mathlib.Core.Path.{fun_ext}
use go_stopper.Options.{Name}
use go_stopper.Errors.{Error}
use go_stopper.Tasks.{
  Cmp, less, equal, greater, compare_ℕ, compare_time, unless_equal, compare_name, TaskInfo,
  task_state, failure, sort_tasks,
}

abbrev pub flip : Cmp → Cmp
flip less = greater
flip equal = equal
flip greater = less

abbrev pub NotGreater : Cmp → Type 0
NotGreater greater = ⊥
NotGreater _ = Unit

-- What slices.SortFunc asks of a comparison: the two ways round agree, and comparisons chain.
pub record IsOrder {A : Type 0} (cmp : A → A → Cmp) : Type 0 where
  pub flips : (a b : A) → cmp a b ≡ flip (cmp b a)
  pub chains :
      (a b c : A)
      → NotGreater (cmp a b)
      → NotGreater (cmp b c)
      → cmp a c ≡ unless_equal (cmp a b) (cmp b c)

flip-unless_equal : (x y : Cmp) → flip (unless_equal x y) ≡ unless_equal (flip x) (flip y)
flip-unless_equal less y = refl
flip-unless_equal equal y = refl
flip-unless_equal greater y = refl

left_equal : (g : Cmp) → NotGreater g → less ≡ unless_equal g less
left_equal less n = refl
left_equal equal n = refl
left_equal greater n = elim n [ ]

-- The first comparison decides, and the second one where it is even.
chain_both :
    (f g f' g' f'' g'' : Cmp)
    → (NotGreater f → NotGreater f' → f'' ≡ unless_equal f f')
    → (NotGreater g → NotGreater g' → g'' ≡ unless_equal g g')
    → NotGreater (unless_equal f g)
    → NotGreater (unless_equal f' g')
    → unless_equal f'' g'' ≡ unless_equal (unless_equal f g) (unless_equal f' g')
chain_both less g less g' f'' g'' h k n m = rw (h tt tt) refl
chain_both less g equal g' f'' g'' h k n m = rw (h tt tt) refl
chain_both less g greater g' f'' g'' h k n m = elim m [ ]
chain_both equal g less g' f'' g'' h k n m = rw (h tt tt) (left_equal g n)
chain_both equal g equal g' f'' g'' h k n m = rw (h tt tt, k n m) refl
chain_both equal g greater g' f'' g'' h k n m = elim m [ ]
chain_both greater g f' g' f'' g'' h k n m = elim n [ ]

both-IsOrder :
    {A : Type 0} {f g : A → A → Cmp}
    → IsOrder f
    → IsOrder g
    → IsOrder (λ a b. unless_equal (f a b) (g a b))
both-IsOrder {f} {g} p q = record {
  flips = λ a b. rw (p.flips a b, q.flips a b) (sym (flip-unless_equal (f b a) (g b a)));
  chains = λ a b c.
      chain_both (f a b) (g a b) (f b c) (g b c) (f a c) (g a c) (p.chains a b c) (q.chains a b c);
}

-- A comparison of what a function gives.
through-IsOrder :
    {A B : Type 0} {cmp : B → B → Cmp} (h : A → B) → IsOrder cmp → IsOrder (λ a b. cmp (h a) (h b))
through-IsOrder h p = record {
  flips = λ a b. p.flips (h a) (h b);
  chains = λ a b c. p.chains (h a) (h b) (h c);
}

compare_ℕ-IsOrder : IsOrder compare_ℕ
compare_ℕ-IsOrder = record { flips = λ a b. ground arith; chains = λ a b c n m. ground arith }

compare_time-IsOrder : IsOrder compare_time
compare_time-IsOrder = record { flips = λ a b. ground arith; chains = λ a b c n m. ground arith }

compare_name-flips : (a b : Name) → compare_name a b ≡ flip (compare_name b a)
compare_name-flips [] [] = refl
compare_name-flips [] (b ∷ bs) = refl
compare_name-flips (a ∷ as_) [] = refl
compare_name-flips (a ∷ as_) (b ∷ bs) =
    rw (compare_ℕ-IsOrder.flips a b, compare_name-flips as_ bs)
      (sym (flip-unless_equal (compare_ℕ b a) (compare_name bs as_)))

compare_name-chains :
    (a b c : Name)
    → NotGreater (compare_name a b)
    → NotGreater (compare_name b c)
    → compare_name a c ≡ unless_equal (compare_name a b) (compare_name b c)
compare_name-chains [] [] c n m = refl
compare_name-chains [] (b ∷ bs) [] n m = elim m [ ]
compare_name-chains [] (b ∷ bs) (c ∷ cs) n m = refl
compare_name-chains (a ∷ as_) [] c n m = elim n [ ]
compare_name-chains (a ∷ as_) (b ∷ bs) [] n m = elim m [ ]
compare_name-chains (a ∷ as_) (b ∷ bs) (c ∷ cs) n m =
    chain_both (compare_ℕ a b) (compare_name as_ bs) (compare_ℕ b c) (compare_name bs cs)
      (compare_ℕ a c) (compare_name as_ cs) (compare_ℕ-IsOrder.chains a b c)
      (compare_name-chains as_ bs cs) n m

compare_name-IsOrder : IsOrder compare_name
compare_name-IsOrder = record { flips = compare_name-flips; chains = compare_name-chains }

module _ (message : Error → Name) where
  -- The comparison without the test of the state: only a failed task has a text.
  abbrev by_key : TaskInfo → TaskInfo → Cmp
  by_key a b = unless_equal (compare_name a.group_name b.group_name) (
      unless_equal (compare_name a.task_name b.task_name) (
        unless_equal (compare_time a.started b.started) (
          unless_equal (compare_ℕ (task_state a) (task_state b))
            (compare_name (failure message a) (failure message b)))))

  last_key :
      (a b : Option (Option Error)) (i j : TaskInfo)
      → i.error ≡ a
      → j.error ≡ b
      → unless_equal (compare_ℕ (task_state i) (task_state j)) (
          if task_state i == 2 then compare_name (failure message i) (failure message j) else equal)
        ≡ unless_equal
            (compare_ℕ (task_state i) (task_state j))
            (compare_name (failure message i) (failure message j))
  unfolding task_state
  last_key none none i j p q = rw (p, q) refl
  last_key none (some none) i j p q = rw (p, q) refl
  last_key none (some (some e)) i j p q = rw (p, q) refl
  last_key (some none) none i j p q = rw (p, q) refl
  last_key (some none) (some none) i j p q = rw (p, q) refl
  last_key (some none) (some (some e)) i j p q = rw (p, q) refl
  last_key (some (some e)) none i j p q = rw (p, q) refl
  last_key (some (some e)) (some none) i j p q = rw (p, q) refl
  last_key (some (some e)) (some (some e')) i j p q = rw (p, q) refl

  sort_tasks-by_key : (a b : TaskInfo) → sort_tasks message a b ≡ by_key a b
  unfolding sort_tasks
  sort_tasks-by_key a b =
      ap
        (λ c. unless_equal (compare_name a.group_name b.group_name) (
          unless_equal (compare_name a.task_name b.task_name)
            (unless_equal (compare_time a.started b.started) c)))
        (last_key a.error b.error a b refl refl)

  by_key-IsOrder : IsOrder by_key
  by_key-IsOrder =
      both-IsOrder (through-IsOrder (λ (i : TaskInfo). i.group_name) compare_name-IsOrder) (
        both-IsOrder (through-IsOrder (λ (i : TaskInfo). i.task_name) compare_name-IsOrder) (
          both-IsOrder (through-IsOrder (λ (i : TaskInfo). i.started) compare_time-IsOrder) (
            both-IsOrder (through-IsOrder task_state compare_ℕ-IsOrder)
              (through-IsOrder (failure message) compare_name-IsOrder))))

  -- sortTasks is a comparison that slices.SortFunc can sort by: the two ways round agree, and what
  -- is not greater chains, strictly if one of the two comparisons is strict.
  pub sort_tasks-IsOrder : IsOrder (sort_tasks message)
  sort_tasks-IsOrder =
      subst IsOrder (sym (fun_ext λ a. fun_ext λ b. sort_tasks-by_key a b)) by_key-IsOrder
