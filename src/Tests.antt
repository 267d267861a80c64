-- ===== src/Tests.antt =====
-- Small graphs, runs of them, and the properties at concrete inputs.
pub mod Samples
pub mod Runs
pub mod ParallelRuns
pub mod Witnesses
pub mod FairRuns
pub mod ExampleRuns
pub mod GraphRuns
