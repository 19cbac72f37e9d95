-- ===== src/Schemas.antt =====
-- src/agent_learning_loop/schemas.py and runtime_schemas.py: the strict contracts that the Runtime
-- exchanges. Fields with one permitted value (`schema_version` and the like) are left out.
mod Tools
mod States
mod Errors
mod Config
pub use Tools.*
pub use States.*
pub use Errors.*
unfoldable pub use Config.{accepts_config, for_mode}
pub use Config.{
  accepts_fingerprint, RuntimeMode, naive, retry_only, safeguarded, mode_text, RuntimeConfig,
}
