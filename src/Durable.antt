-- ===== src/Durable.antt =====
-- src/agent_learning_loop/durable_schemas.py, journal.py, checkpoint.py and event_replay.py: the events
-- of a durable run, the journal that keeps them, and the validation of what a run left behind.
pub mod Events
pub mod Journal
pub mod Contracts
pub mod Chain
pub mod Written
pub mod Reread
pub mod Pinned
pub mod Trajectory
pub mod Validation
pub mod Replay
pub mod Walk
pub mod Ending
pub mod Legal
mod Tests
