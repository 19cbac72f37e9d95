-- ===== src/Runtime.antt =====
-- src/agent_learning_loop/runtime.py: the Runtime with injected faults, bounded retry and
-- idempotency. `Store` and `Session` hold its state, `Attempts` the retry loop, `Run` the task loop.
pub mod Store
pub mod Session
pub mod Exits
pub mod Attempts
pub mod Retry
pub mod Bounds
pub mod Idempotence
pub mod Frame
pub mod Round
pub mod Act
pub mod Run
pub mod Trace
pub mod Outcomes
pub mod Stages
pub mod Terminal
pub mod Finish
pub mod Whole
pub mod Task
pub mod Finished
pub mod Escape
mod Tests
