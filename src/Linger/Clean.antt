-- ===== src/Linger/Clean.antt =====
-- CheckClean and the middleware of a Recorder (linger/).
use go_stopper.Prelude.{
  ℕ, suc, ◌<◌, ◌^◌, ◌≡◌, ◌↔◌, ◌≢◌, false, ◌+◌, ◌∙◌, sym, refl, ap, List, [], ◌∷◌, ◌++◌, map, Option,
  none, arith,
}
use go_stopper.Errors.{Error}
use go_stopper.Safe.{Outcome, returns}
use go_stopper.Invocation.{Func, ends, then_run, chain, invoker_drop, set_up}
use go_stopper.Linger.{
  Stack, Recorder, new_recorder, delete, next_id, note_start, note_end, callers_offset,
  recorder_invoker, recorder_middleware, callers, check_clean, report_callers,
}
use go_stopper.Linger.Running.{
  Event, starts, observe, observe_entries, AllApart, unfinished, unfinished_start, finished,
  running, starting, callers_running, Below, note_start_fresh, next_small,
}

report_callers-eq-nil_iff :
    {F : Type 0} (frames : Stack → F × List F) (ds : List (ℕ × Stack))
    → report_callers frames (map (λ (id, pc). pc) ds) ≡ [] ↔ ds ≡ []
unfolding report_callers
report_callers-eq-nil_iff frames [] = (λ e. refl, λ e. refl)
report_callers-eq-nil_iff frames (d ∷ ds) = (λ e. cc, λ e. cc)

-- After any interleaving of fewer than 2 ^ 64 starts with ends, CheckClean on a new Recorder writes
-- nothing to the test log exactly if every task that has started has ended.
check_clean_silent_iff :
    {F : Type 0} (frames : Stack → F × List F) (depth : ℕ) (es : List Event)
    → starting es < 2 ^ 64
    → check_clean frames (observe (new_recorder depth) es) ≡ [] ↔ running 0 es ≡ []
unfolding check_clean
check_clean_silent_iff frames depth es h =
    rw (callers_running depth es h) (report_callers-eq-nil_iff frames (running 0 es))

append_cons_nonempty : (xs ys : List (ℕ × Stack)) (x : ℕ × Stack) → xs ++ x ∷ ys ≢ []
append_cons_nonempty [] ys x e = cc
append_cons_nonempty (y ∷ xs) ys x e = cc

delete_last :
    (n : ℕ) (pc : Stack) (ds : List (ℕ × Stack))
    → Below n ds
    → delete (suc n) (ds ++ (suc n, pc) ∷ []) ≡ ds
delete_last n pc [] b = ground arith
delete_last n pc ((k, v) ∷ ds) (le, b) = ground (arith, le, delete_last n pc ds b)

delete_started :
    (pc : Stack) (r : Recorder)
    → Below r.counter r.data_map
    → suc r.counter < 2 ^ 64
    → delete (next_id r) (note_start pc r).data_map ≡ r.data_map
delete_started pc r b h =
    rw
      (
        next_small r.counter h,
        ap (λ x. x.data_map) (note_start_fresh r.counter r.depth pc r.data_map b h),
      )
      (delete_last r.counter pc r.data_map b)

-- An entry that has been stored and that no later event deletes.
module _ (pc : Stack) (r : Recorder) (es : List Event) (b : Below r.counter r.data_map)
    (a : AllApart r.data_map) (h : suc r.counter + starting es < 2 ^ 64)
    (live : finished (suc r.counter) es ≡ false) where
  pub started_stays :
      (observe (note_start pc r) es).data_map
      ≡ unfinished r.data_map es ++ (suc r.counter, pc) ∷ running (suc r.counter) es
  unfolding observe
  started_stays =
      observe_entries r.counter r.depth r.data_map (starts pc ∷ es) b a (omega (arith, h))
      ∙ rw (unfinished_start pc r.data_map es, live) refl

  pub started_unclean :
      {F : Type 0} (frames : Stack → F × List F)
      → check_clean frames (observe (note_start pc r) es) ≢ []
  unfolding check_clean callers
  started_unclean frames e = append_cons_nonempty (unfinished r.data_map es) _ _ (
      sym started_stays
      ∙ (report_callers-eq-nil_iff frames (observe (note_start pc r) es).data_map).0 e)

module _ {V X : Type 0} where
  -- On a Recorder with no id above its counter, which is not about to wrap around, a task that ends,
  -- by a result or a panic, with the entries as it found them, leaves them under the Recorder's
  -- middleware as they were before the setup. Its outcome is kept.
  pub recorded_task_balanced :
      (sample : ℕ → ℕ → Stack) (fn : Func (Recorder × V) X) (outer : X) (r : Recorder) (v : V)
      (o : Outcome (Option Error)) (r' : Recorder) (v' : V)
      → Below r.counter r.data_map
      → suc r.counter < 2 ^ 64
      → fn outer (note_start (sample callers_offset r.depth) r, v) ≡ ends o (r', v')
      → r'.data_map ≡ (note_start (sample callers_offset r.depth) r).data_map
      → then_run (recorder_middleware sample outer (r, v)) (λ (ctx, invoker) w. invoker ctx fn w)
        ≡ ends o (record r' { data_map = r.data_map }, v')
  unfolding recorder_middleware recorder_invoker note_end
  recorded_task_balanced sample fn outer r v o r' v' b h run kept =
      rw (run, kept, delete_started (sample callers_offset r.depth) r b h) refl

  -- On a Recorder with distinct ids, none above its counter, a task behind a middleware that drops it
  -- ends with nil and is not run. Its entry is in the Recorder after any later starts and ends of
  -- other tasks, of which there are too few for the counter to wrap around, so that CheckClean never
  -- again writes nothing to the test log.
  pub short_circuit_lingers :
      {F : Type 0} (frames : Stack → F × List F) (sample : ℕ → ℕ → Stack)
      (fn : Func (Recorder × V) X) (outer : X) (r : Recorder) (v : V) (es : List Event)
      → Below r.counter r.data_map
      → AllApart r.data_map
      → suc r.counter + starting es < 2 ^ 64
      → finished (suc r.counter) es ≡ false
      → (r' : Recorder) × (then_run
            (set_up
              ((λ ctx w. ends (returns (ctx, invoker_drop)) w) ∷ recorder_middleware sample ∷ [])
              outer
              (r, v))
            (λ (ctx, invokers) w. chain invokers ctx fn w)
          ≡ ends (returns none) (r', v))
        × ((observe r' es).data_map
            ≡ unfinished r.data_map es
              ++ (suc r.counter, sample callers_offset r.depth) ∷ running (suc r.counter) es)
        × (check_clean frames (observe r' es) ≢ [])
  unfolding recorder_middleware set_up chain invoker_drop
  short_circuit_lingers frames sample fn outer r v es b a h live =
      let pc = sample callers_offset r.depth in
      (
        note_start pc r,
        refl,
        started_stays pc r es b a h live,
        started_unclean pc r es b a h live frames,
      )
