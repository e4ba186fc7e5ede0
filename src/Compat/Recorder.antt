-- ===== src/Compat/Recorder.antt =====
-- The Recorder of version 1 (compat/linger/linger.go). Its fields, NewRecorder, Callers and CheckClean
-- are those of version 2, in Linger; Invoke takes the place of the middleware. The counter is an
-- atomic.Uintptr, taken to have 64 bits.
use go_stopper.Prelude.{ℕ, suc, ◌+◌, ◌<◌, ◌^◌, ◌≡◌, ◌≢◌, refl, ◌∙◌, false, List, [], Option, some}
use go_stopper.Errors.{Error}
use go_stopper.Safe.{returns}
use go_stopper.Invocation.{Code, ends, then_run}
use go_stopper.Linger.{
  Recorder, Stack, callers_offset, next_id, note_start, recorder_invoker, recorder_middleware,
  check_clean,
}
use go_stopper.Linger.Running.{Event, observe, starting, finished, Below, AllApart}
use go_stopper.Linger.Clean.{started_unclean}
use go_stopper.Compat.{Context, Func, AnyContext, V2, apply_invokers, call, from, with_invoker}
use go_stopper.Compat.Chain.{with_invoker-call}

module _ {V X : Type 0} where
  -- Invoke; `sample` is runtime.Callers. The function that it returns deletes the entry.
  unfoldable pub recorder_invoke :
      (ℕ → ℕ → Stack) → Func (Recorder × V) X → Code (Recorder × V) (Func (Recorder × V) X)
  unfolding note_start recorder_invoker
  recorder_invoke sample fn (r, v) =
      ends (returns (λ ctx. recorder_invoker (next_id r) ctx fn))
        (note_start (sample callers_offset r.depth) r, v)

  -- A task that is run through Invoke does to the recorder what it does under the middleware of
  -- version 2, in the setup and in the invoker.
  recorder_invoke-as_middleware :
      (sample : ℕ → ℕ → Stack) (fn : Func (Recorder × V) X) (ctx : Context X) (w : Recorder × V)
      → then_run (recorder_invoke sample fn w) (λ f. f ctx)
        ≡ then_run (recorder_middleware sample ctx w) (λ (ctx', invoker). invoker ctx' fn)
  unfolding recorder_invoke recorder_middleware
  recorder_invoke-as_middleware sample fn ctx (r, v) = refl

  -- A Call on the child that WithInvoker makes with the Recorder, under a parent without invokers,
  -- that version 2 refuses with an error: the task is not run, but its entry stays in the Recorder,
  -- so that CheckClean reports it after any later starts and ends of other tasks.
  refused_call_lingers :
      {S F : Type 0} (frames : Stack → F × List F) (v2 : V2 (Recorder × V) S X)
      (invoke : ℕ → Func (Recorder × V) X → Code (Recorder × V) (Func (Recorder × V) X))
      (sample : ℕ → ℕ → Stack) (ctx : AnyContext S X) (inv : ℕ) (fn : Func (Recorder × V) X)
      (inner : X) (err : Error) (r : Recorder) (v : V) (es : List Event)
      → ((f : Func (Recorder × V) X) (w : Recorder × V)
          → invoke inv f w ≡ recorder_invoke sample f w)
      → (from v2 invoke ctx).invokers ≡ []
      → v2.v2_with_context ctx (r, v) ≡ ends (returns inner) (r, v)
      → ((f : X → Code (Recorder × V) (Option Error)) (w : Recorder × V)
          → v2.v2_call inner f w ≡ ends (returns (some err)) w)
      → Below r.counter r.data_map
      → AllApart r.data_map
      → suc r.counter + starting es < 2 ^ 64
      → finished (suc r.counter) es ≡ false
      → (r' : Recorder) × (then_run
            (with_invoker v2 invoke ctx inv (r, v))
            (λ c. call v2 invoke c fn)
          ≡ ends (returns (some err)) (r', v))
        × (check_clean frames (observe r' es) ≢ [])
  unfolding recorder_invoke apply_invokers
  refused_call_lingers frames v2 invoke sample ctx inv fn inner err r v es records alone created
        refuses b a h live =
      let pc = sample callers_offset r.depth in
      (
        note_start pc r,
        with_invoker-call v2 invoke ctx inv fn inner (r, v) (r, v) created
            ∙ rw (records, alone, refuses) refl,
        started_unclean pc r es b a h live frames,
      )
