-- ===== src/Agent.antt =====
-- internal/agent: sessions of agents, kept in memory and written to a store in the background,
-- with the detection of loops and of ghost agents. Costs are the floats of a parameter `f`. The
-- lock makes each operation one step; every instant at which it reads the clock is an argument.
pub mod Session
pub mod Detector
pub mod Tracker
mod Examples
