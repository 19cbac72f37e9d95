-- ===== src/Incident.antt =====
-- src/agent_learning_loop/incident_schemas.py, incident_environment.py and incident_verifier.py: the
-- simulated incident, its approvals, its idempotent operations, and its audit with the checks of it.
pub mod Names
pub mod Contracts
pub mod Environment
pub mod Observe
pub mod Approvals
pub mod HighImpact
pub mod Execute
pub mod Arguments
pub mod Audit
pub mod Sound
pub mod Committed
pub mod Kept
pub mod Mutated
pub mod Runs
pub mod Steps
pub mod Noted
pub mod Stepped
pub mod Closed
pub mod Grows
pub mod Replay
pub mod Counted
pub mod Replies
pub mod Grounded
pub mod Approved
pub mod Answers
pub mod Verifier
pub mod Groups
pub mod Audited
mod Tests
