-- ===== src/Planning.antt =====
-- The checks of a campaign plan before it is run, src/run/campaign-validation.ts.
pub mod Graph
pub mod Cycle
pub mod Validate
pub mod Sinks
pub mod Create
mod Tests
pub mod Topo
