-- ===== src/DataOps.antt =====
-- src/agent_learning_loop/dataops_schemas.py and dataops_environment.py: the transactional
-- environment of DataOps tasks over one SQLite database.
pub mod Names
pub mod Contracts
pub mod Arguments
pub mod Store
pub mod Environment
pub mod Reads
pub mod Writes
pub mod Execute
pub mod Did
pub mod Noted
pub mod Stepped
pub mod Ran
pub mod Trails
pub mod Accounted
pub mod Restored
pub mod Final
pub mod Remembered
pub mod Retried
mod Memory
mod Tests
