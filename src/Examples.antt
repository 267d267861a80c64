-- ===== src/Examples.antt =====
-- examples/: the parts of the example programs that compute.
pub mod Text
pub mod Common
pub mod Graphs
pub mod Rollup
pub mod Merkle
pub mod Pipeline
