-- ===== src/Consensus.antt =====
-- src/consensus: the task that owns the DAG, its API, and the pollsters that ask the peers.
pub mod Pollster
pub mod Poll
pub mod Task
pub mod Runs
pub mod Safety
pub mod Steady
pub mod Choosing
pub mod Ending
pub mod Starting
pub mod Validators
pub mod Api
mod Suite
