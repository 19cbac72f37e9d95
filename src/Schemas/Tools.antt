-- ===== src/Schemas/Tools.antt =====
-- schemas.py: tasks, actions, tool results, observations, snapshots and verifier results.
use agent_learning_loop.Base.{
  ℕ, String, Bool, List, Option, Dict, JsonValue, Eq, ◌≡◌, ◌↔◌, arith, nat_beq, true,
}

pub data ToolName : Type 0 where
  list_files read_text write_text : ToolName

abbrev tool_tag : ToolName → ℕ
tool_tag list_files = 0
tool_tag read_text = 1
tool_tag write_text = 2

abbrev pub tool_beq : ToolName → ToolName → Bool
tool_beq a b = nat_beq (tool_tag a) (tool_tag b)

pub tool_beq_iff : (a b : ToolName) → (tool_beq a b ≡ true) ↔ (a ≡ b)
tool_beq_iff a b = ground arith

instance abbrev pub tool_eq : Eq ToolName
tool_eq = record { same = tool_beq; same_iff = tool_beq_iff }

-- The value of the `StrEnum`-like literal.
abbrev pub tool_text : ToolName → String
tool_text list_files = "list_files"
tool_text read_text = "read_text"
tool_text write_text = "write_text"

pub record Task : Type 0 where
  pub task_id : String
  pub instruction : String
  pub allowed_tools : List ToolName
  pub fixture_id : String
  pub provenance : String

pub record WorkspaceExpectedState : Type 0 where
  pub required_files : Dict String
  pub unchanged_files : List String
  pub allowed_mutations : List String
  pub forbidden_paths : List String

pub record WorkspaceTaskFixture : Type 0 where
  pub task : Task
  pub setup_files : Dict String
  pub expected : WorkspaceExpectedState

pub record Action : Type 0 where
  pub tool_name : ToolName
  pub arguments : Dict JsonValue

pub data ToolStatus : Type 0 where
  ok error : ToolStatus

pub record ToolResult : Type 0 where
  pub status : ToolStatus
  pub payload : Dict JsonValue

pub record Observation : Type 0 where
  pub task_id : String
  pub step_index : ℕ
  pub visible_paths : List String
  pub last_tool_result : Option ToolResult

pub record WorkspaceSnapshot : Type 0 where
  pub files : Dict String

pub record VerifierCheck : Type 0 where
  pub name : String
  pub passed : Bool
  pub detail : String

-- `score` is 1.0 or 0.0, kept as the number of units.
pub record VerifierResult : Type 0 where
  pub passed : Bool
  pub score : ℕ
  pub checks : List VerifierCheck
