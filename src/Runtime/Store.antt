-- ===== src/Runtime/Store.antt =====
-- runtime.py: `InMemoryIdempotencyStore`, the request identities, and `_FailureTracker`.
use agent_learning_loop.Base.{
  ℕ, ◌+◌, String, Bool, true, false, ◌&&◌, Option, none, some, [], ◌∷◌, Dict, lookup, insert, ◌==◌,
  ◌!=◌, nat_eq, string_eq, JsonValue, str, obj, fields, Stdlib, canonical_sha256, if◌then◌else◌,
  ◌≡◌, arith, lookup-insert, eq_iff,
}
use Prim.Native.String.{◌++◌}
use agent_learning_loop.Schemas.{ToolName, tool_text, tool_eq, Action, ToolResult}
use agent_learning_loop.Schedules.{FailureSchedule, InjectionPhase, phase_eq}

-- `action.model_dump(mode="json")`
abbrev pub action_json : Action → JsonValue
action_json a = obj (
    fields (
      ("schema_version", str "1")
      ∷ ("tool_name", str (tool_text a.tool_name))
      ∷ ("arguments", obj (fields a.arguments))
      ∷ []))

unfoldable pub request_fingerprint : Stdlib → Action → String
request_fingerprint lib action = canonical_sha256 lib (action_json action)

unfoldable pub idempotency_key : Stdlib → String → ℕ → String → String
idempotency_key lib task_id step_index fingerprint =
    lib.sha256_hex (task_id ++ ":" ++ lib.decimal step_index ++ ":" ++ fingerprint)

pub record ToolInvocation : Type 0 where
  pub action : Action
  pub idempotency_key : Option String
  pub request_fingerprint : String

pub record IdempotencyLookup : Type 0 where
  pub result : Option ToolResult
  pub conflict : Bool

-- `_entries`: key to (request fingerprint, result)
pub record InMemoryIdempotencyStore : Type 0 where
  pub entries : Dict (String × ToolResult)

abbrev save_under :
    Option String
    → ToolInvocation
    → ToolResult
    → InMemoryIdempotencyStore
    → Option InMemoryIdempotencyStore
save_under none i result store = none
save_under (some key) i result store =
    some (record { entries = insert key (i.request_fingerprint, result) store.entries })

-- `save`; `none` where it raises `ValueError`
unfoldable pub save :
    ToolInvocation → ToolResult → InMemoryIdempotencyStore → Option InMemoryIdempotencyStore
save i result store = save_under i.idempotency_key i result store

abbrev lookup_entry : Option (String × ToolResult) → ToolInvocation → IdempotencyLookup
lookup_entry none i = record { result = none; conflict = false }
lookup_entry (some (saved, result)) i =
    if saved != i.request_fingerprint
    then record { result = none; conflict = true }
    else record { result = some result; conflict = false }

abbrev lookup_under : Option String → ToolInvocation → InMemoryIdempotencyStore → IdempotencyLookup
lookup_under none i store = record { result = none; conflict = false }
lookup_under (some key) i store = lookup_entry (lookup key store.entries) i

-- `lookup`
unfoldable pub find_saved : ToolInvocation → InMemoryIdempotencyStore → IdempotencyLookup
find_saved i store = lookup_under i.idempotency_key i store

-- `_FailureTracker`
pub record FailureTracker : Type 0 where
  pub schedule : FailureSchedule
  pub occurrences : Dict ℕ
  pub injection_count : ℕ

abbrev count_or_zero : Option ℕ → ℕ
count_or_zero none = 0
count_or_zero (some n) = n

-- `begin_attempt`
unfoldable pub begin_attempt : ToolName → FailureTracker → ℕ × FailureTracker
begin_attempt tool t =
    let occurrence = count_or_zero (lookup (tool_text tool) t.occurrences) + 1 in
    (occurrence, record t { occurrences = insert (tool_text tool) occurrence t.occurrences })

-- `claim_injection`
unfoldable pub claim_injection :
    ToolName → ℕ → InjectionPhase → FailureTracker → Bool × FailureTracker
claim_injection tool occurrence phase t =
    let rule = t.schedule.rule in
    let matches =
      rule.target_tool == tool && rule.occurrence == occurrence && rule.injection_phase == phase in
    (matches, if matches then record t { injection_count = t.injection_count + 1 } else t)

lookup_under-save_under :
    (key : Option String) (i : ToolInvocation) (result : ToolResult)
    (store store' : InMemoryIdempotencyStore)
    → save_under key i result store ≡ some store'
    → lookup_under key i store' ≡ record { result = some result; conflict = false }
lookup_under-save_under none i result store store' h = cc
lookup_under-save_under (some key) i result store store' h = ground (
  arith,
  lookup-insert key key (i.request_fingerprint, result) store.entries,
  eq_iff key key,
  eq_iff i.request_fingerprint i.request_fingerprint,
)

-- A result that was saved under an invocation's key is found again by the same invocation, with no
-- conflict.
pub find_saved-save :
    (i : ToolInvocation) (result : ToolResult) (store store' : InMemoryIdempotencyStore)
    → save i result store ≡ some store'
    → find_saved i store' ≡ record { result = some result; conflict = false }
unfolding save find_saved
find_saved-save i result store store' h =
    lookup_under-save_under i.idempotency_key i result store store' h
