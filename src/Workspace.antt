-- ===== src/Workspace.antt =====
-- src/agent_learning_loop/verifier.py: the verification of a Workspace task.
pub mod Verifier
pub mod Accepted
mod Tests
