-- ===== src/Lib.antt =====
-- Verification of go-stopper: structured, observable concurrency for Go.
--
-- A stopper Context (stopper.go) is a handle on a State (internal/state/state.go), which counts the
-- running tasks, carries a two-phase shutdown and runs deferred functions at its end. Tasks run
-- under middleware (options.go), such as the retries of retry/ and the limits of limit/, and under
-- the panic handlers of internal/safe/safe.go.
--
-- Prelude: shared names, Boolean tests, lists, and the signed integers of Go's int and
--   time.Duration, which are unbounded here: counts and nanoseconds are far from 2^63.
--   Prelude/Moves has lists of which one member moves at a time.
-- Errors: error values, errors.Join and errors.Is. User errors and panic values are numbers.
-- Safe (internal/safe/safe.go): Call, CallE and CallRE over the outcome of a function. Stack
--   traces are left out. Safe/Recovery has what they keep of an error.
-- State (internal/state/state.go): each method body that runs under the mutex is one function on
--   the record State, which gives the new state and the callbacks that the method runs after the
--   unlock: apply_locked, add_deferred, soft_stop_locked, hard_stop_locked, settle,
--   update_grace_timer_locked, stop_on_idle, add_stop_hook, cancel_stop_hook, grace_timer_fires,
--   add_errors, call_deferred. State/Trace puts them into histories, one operation at a time in the
--   order of the mutex; a history IsPossible if a grace timer fires only after it was started and
--   is due. An `applies` operation is an Apply whose parent has accepted. State/Invariant,
--   Conservation, Order, Drain and Errs have the proofs. State/Lifecycle has the abstract stopper,
--   which accepts tasks, drains and closes, and State/Refinement the proof that State is one.
-- Tree (internal/state/state.go): Apply along a path of states up to the root, with its fast check,
--   the call of the parent, the critical section and the unwinding. Each level has the history of
--   what other goroutines do to it between the two. The recursion takes fuel: more than the length
--   of the path is enough. An unwinding is taken to meet the states as the call of the parent left
--   them, and what the callbacks return is not added to the states. Tree/Counts, Apply and Release
--   have the proofs.
-- Forest (stopper.go, internal/state/state.go): all contexts of a program, as Nodes that go by
--   numbers, and its goroutines, each a list of the actions that it has left; any goroutine may move
--   next. Apply goes up a path of contexts (rises: the fast checks), counts from the root down
--   (enters: the critical sections), runs the task (works) and gives the counts back from the root
--   down (leaves). Callbacks run as callDeferred runs them: the cancel function is the cleanup of
--   newContext, the stop hooks stop the children. newContext sets hooks and context.AfterFunc; the
--   registration with AfterFunc and the Store of its function are one action. The context package
--   is two steps: a context is canceled, and then the function of AfterFunc stops its state once.
--   The fast check of Apply(-1), which never refuses, is left out, and what users' functions do to
--   contexts is another goroutine. Paths have no fuel: a move of a goroutine is one level of one.
--   Forest/Sections, Holders and Balance have the proofs on counts, Later, Lines, Endings, Sound and
--   Cancels those on the end of contexts, Hooks, Ties and Spread those on the spread of
--   stops, Quiet that on families whose tasks are over.
-- Options (options.go): the settings of tasks and contexts, Clone, Merge, Sanitize, applyTaskOpts
--   and the configuration and task group of newContext. Handlers and middleware are of any type;
--   the place that runtime.Caller finds is a parameter. Options/Resolution and Inherit have the
--   proofs.
-- Invocation (stopper.go, options.go): taskInvoker, Call and Go. Code runs on an abstract world
--   and ends by a result or a panic, or blocks for ever. Invocation/Chain has the proofs.
--   Invocation/Live puts Call on the State of a root context: apply_live is Apply, callbacks
--   included, whose outcomes are a parameter. Invocation/Live/Drain has the proofs.
-- Retry (retry/): the loop of Middleware, Loop and Backoff. The loop takes fuel: more rounds than
--   the limit of attempts are enough. Float32 products and the jitter are parameters, and the case
--   that each select takes is given. Retry/Counting, Delays and Middleware have the proofs.
-- Limit (limit/limit.go): the concurrency limit, over the number of slots in use, and the rate
--   limit, over a limiter that is a parameter. Limit/Slots has the proofs. Limit/Crowd has any
--   number of tasks under one concurrency limit, as a step relation in which any of them may move
--   next and a stop may come at any time; it covers middleware without short circuits and retries
--   outside the limit. Limit/Crowd/Bound and Progress have the proofs.
-- Context (stopper.go, options.go, stopping_ctx.go): Stop with its options, WaitCtx, the error
--   handlers and the error of the stopping context. Context/Stop and Wait have the proofs.
-- Linger (linger/): the Recorder, its middleware and CheckClean. The atomic counter wraps at 2^64;
--   the stacks and frames of the runtime are parameters. Linger/Running and Clean have the proofs.
-- Seq (seq/map.go, seq/each.go): Map, MapUnordered and ForEach as step relations over the list of
--   their workers, the channels, the mutex and the consumer; any of these may move next, and a hard
--   stop may come at any time. Seq/Worker and Tally have what the three share, Seq/Ordered has Map,
--   Seq/Unordered MapUnordered, Seq/Each ForEach; the pairwise versions are these at pairs. The
--   items are a finite list, the function gives one outcome for each index and item, and of the
--   nested context only the close of the results, the cancellation and the stop on idle are seen.
--   Runs have no fuel.
-- Lineage (stopper.go, stopping_ctx.go, task_info.go): the method Value on all kinds of contexts,
--   From, IsStopping, TaskGroupFrom and TaskInfoFrom, WithDelegate, and what newContext leaves with
--   a parent until its clean-up. Lineage/Values and Cleanup have the proofs.
-- Tasks (task_info.go): task states, sortTasks and the lines of TaskTree, whose fuel is the number
--   of groups of the tree. Sorting is a parameter that keeps all elements. Tasks/Order and Tree
--   have the proofs.
-- Adapt (adapt.go, signal.go): Fn, Call, Defer, Go, GoN and StopOnReceive over the methods of the
--   interface Context, which are a record of operations. Adapt/Many has the proofs.
-- Compat (compat/): the API of version 1 over the methods of version 2, which are a record of
--   operations; invokers go by numbers, each of which is code that sets up and returns the new
--   task. Compat/Chain has the proofs. Compat/Signatures has Fn of version 1 and Compat/Recorder
--   its Recorder, which shares the model of Linger.
--
-- Not modelled: the JSON and String methods; runtime/trace and stack traces, which have no effect on
-- the results below.
pub mod Prelude
pub mod Errors
pub mod Safe
pub mod State
pub mod Options
pub mod Retry
pub mod Invocation
pub mod Limit
pub mod Context
pub mod Tree
pub mod Forest
pub mod Linger
pub mod Seq
pub mod Tasks
pub mod Lineage
pub mod Adapt
pub mod Compat
