-- ===== src/Exec.antt =====
-- exec.rs and exec/: the executor over a compiled graph.
pub mod Observe
pub mod Common
pub mod Scheduling
pub mod Sequential
pub mod Pool
pub mod Parallel
pub mod Executor
pub mod Programs
