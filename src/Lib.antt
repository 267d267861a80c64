-- ===== src/Lib.antt =====
-- rust-dag-executor: a library that stages keyed sources and tasks, compiles them into a graph of
-- dense node identifiers, and computes requested outputs with the tasks they need, each task once.
--
-- The program's parts and the files that model them:
--   * src/error.rs, the error values: Error.
--   * src/graph.rs, the compiled graph and the configuration: Graph. Its children say what a graph
--     means with no schedule in it: Graph/Semantics has the needed nodes, the value of a node and
--     its failure, Graph/Values the lemmas on these, and Graph/WellFormed what the executor relies
--     on. That record is the interface of the two halves: the builder's theorems fill it, and the
--     executor's theorems take it.
--   * src/builder.rs, `DagBuilder`: Builder, with the staging methods in Builder/Staging, the loops
--     of `build` in Builder/Resolve and its result in Builder/Build. Builder/Values has the value of a
--     staged key, with no identifiers in it, which `build` keeps, and Builder/Named a program that stages
--     one named node after another. Builder/Calls, with Calls/Staged and Calls/First, has any sequence
--     of calls. A `&mut self` method takes the builder and returns it with the method's result. `Built`
--     is the builders that the methods can reach.
--   * src/exec/observe.rs, `ExecObserver`: Exec/Observe, a record of callbacks that pass a state.
--   * src/exec/common.rs: Exec/Common, with `mark_needed` in Common/Marking and Common/Needed,
--     `build_kahn_metadata` in Common/Counters and `collect_outputs` in Common/Collect.
--   * what src/exec/sequential.rs and src/exec/parallel.rs share, the queue of ready nodes with the
--     counters: Exec/Scheduling. The invariant is in Scheduling/Waiting, and counts the nodes that
--     a worker holds, of which the sequential scheduler has none. Scheduling/Seeding, Arguments,
--     Moving, Remaining and Finish have the lemmas on each stage of a run.
--   * src/exec/sequential.rs: Exec/Sequential, with the loop in Sequential/Rounds, `execute` and
--     `run` in Sequential/Correct, and what a caller relies on in Sequential/Requests.
--   * src/exec/parallel.rs: Exec/Pool has the workers, with what a pool holds in Pool/Load and its
--     invariant in Pool/Jobs, and Exec/Parallel the scheduler. The machine's invariant is in
--     Parallel/Machine, the scheduler's own actions in Parallel/Steps, what passes between it and the
--     workers in Parallel/Exchange and Parallel/Receive, the bound on tasks in flight in
--     Parallel/Capacity, runs under a schedule in Parallel/Correct, and what a caller relies on in
--     Parallel/Requests and Parallel/Agreement. Why a call returns is in Pool/Effort and in
--     Parallel/Measure, Fewer, Decline and Fair: every action of somebody who is not idle lowers a
--     measure. Parallel/Last, Returns and Answers have what follows for a caller. Parallel/Closing
--     is the drop of a pool, which Closing/Joined shows to return. Pool/Turns and Parallel/RoundRobin
--     are about the worker that gets a task.
--   * src/trace.rs: Trace, with the observer's invariant in Trace/Recorded, Written and Ran, `finalize` in
--     Trace/Report and a traced run of the sequential executor in Trace/Traced. Trace/Tidy, Listing and
--     Threads are about any scheduler, and a traced run of the parallel executor. The interface to the
--     schedulers is Sequential/Observed and Parallel/Observed, with Sequential/Valued and
--     Parallel/Watched: what an observer has to keep so that it holds after a run.
--   * src/exec.rs, `Executor`: Exec/Executor. Exec/Programs goes from the calls of a builder to the outputs
--     of an executor.
--   * tests/common/mod.rs and tests/sequential.rs: the graphs and the checks of them are repeated
--     in Tests/Samples and Tests/Runs, and runs like those of tests/parallel.rs in
--     Tests/ParallelRuns; Tests/Witnesses applies the theorems at such inputs.
--   * examples/common/mod.rs and examples/rollup.rs: Examples/Common and Examples/Rollup, with the
--     proofs that are encoded in Rollup/Proofs, any bytes in Rollup/Verdicts, Merkle trees in
--     Rollup/Trees and batches of chunks in Rollup/Batches. Tests/FairRuns and Tests/ExampleRuns
--     apply the theorems on fair schedules, traces and examples.
--   * the graphs of the examples. Examples/Text has the numbers that keys and receipts print, and
--     Examples/Graphs the closures; Graphs/Leaves and Graphs/Levels are about the loops that stage the
--     transactions and the levels of a tree. examples/rollup.rs: Rollup/Graph, where Names has its nodes,
--     Chunks, Staged and Top the loops, Proof and Finish the proof task, and Whole and Runs what follows.
--     What its `main` asserts and computes of its sizes is in Rollup/Setup, over any sizes, of which
--     the program's 16, 4 and 5 are one case, with Setup/Accepted.
--     examples/merkle.rs: Merkle, and the graph of examples/pipeline.rs: Pipeline. Tests/GraphRuns applies
--     the theorems at the examples' sizes.
-- Prelude has the lists, counts, maps and results that these share. Prelude/Outcome has what a call
-- of the executor can come to: a value, an error value, a panic, or the end of the fuel of a loop.
-- `Ensures P Q` of an outcome is total: it is a value with P or an error with Q, and false of a
-- panic and of fuel that ran out.
--
-- Choices of the model. `usize` is the natural numbers: an index or a count is at most the number of
-- nodes and edges, which are in memory. An index out of bounds and a decrement of 0 are panics. The
-- hash of a key plays no part, so a key type comes with its decidable equality; a `HashMap` is an
-- association list, of which the program reads single keys only. `Arc` is the value it shares. A
-- task is a pure function of its arguments that returns. A vector used as a stack has its top at
-- the head of the list.
--
-- Concurrency. A schedule is a list of actors, the scheduler or a worker, each of which makes one
-- atomic action: the scheduler evaluates a test, takes a node, tries one worker's queue or receives; a
-- worker takes a task or sends a result. Whoever cannot act waits. A schedule that ends before the
-- call returns is out of fuel. Workers leave their loops only when the pool is dropped, at the end of
-- the call, so no channel is found disconnected before. The drop is no part of the modelled calls of
-- the executor; it is modelled by itself, for any pool that a call may leave. `Allows P Q` of an outcome
-- is `Ensures P Q` but for a call that is still running. A round of a schedule is fair if the scheduler
-- and every worker acts in it, and `enough_rounds` is how many fair rounds make every call return.
--
-- Time. A `Duration` is a number of nanoseconds with no bound; the clock is a parameter, the answer at
-- each reading, and the theorems ask that it does not go back. The observer's state is the outcome of
-- its methods so far, since they panic out of bounds; a traced run that answers ends there too. Of a run
-- that fails the observer's state is dropped, and a panic of the observer with it.
--
-- Fuel. The loop of `mark_needed` has as much as there are outputs and dependencies in all, since a
-- node pushes its dependencies once. The loop of the sequential scheduler has as much as there are
-- nodes, since every round finishes another node. The loop over the levels of a Merkle tree has as much
-- as there are leaves, since every round halves the level.
--
-- Words. The program is modelled as in a build that checks for overflow and runs debug assertions, which
-- panic where they fail, but for the one of `dispatch_task_try` that there is a worker, since a call with
-- 0 workers is refused before; a byte is a natural number, and the arithmetic of the toy hash keeps the
-- wrap-around of 64 bits.
--
-- Examples. A closure that panics has no counterpart among the tasks of the model: it is the error
-- "panic", which no closure returns where the theorems apply, since a task is called with one argument
-- for each dependency. `String::from_utf8_lossy` is a parameter.
--
-- Not modelled: the counters of the examples' closures, the environment that they read and what they
-- print, and the benchmarks.
pub mod Prelude
pub mod Error
pub mod Graph
pub mod Builder
pub mod Exec
pub mod Trace
pub mod Examples
pub mod Tests
