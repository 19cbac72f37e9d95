-- ===== src/Incident/Arguments.antt =====
-- incident_schemas.py: the validation of actions, approval rules and private fixtures. Models forbid
-- further fields and convert nothing.
use agent_learning_loop.Base.{
  ℕ, String, Bool, true, false, not, ◌&&◌, ◌||◌, Option, none, some, is_some, List, [], ◌∷◌, ◌++◌,
  Dict, lookup, has_key, keys, subset, all, contains, leb, length, ltb, JsonValue, str, bool, obj,
  Fields, end, field, string_eq, bool_eq, option_eq, ◌==◌, ◌!=◌, if◌then◌else◌,
}
use agent_learning_loop.Incident.Names.{IncidentToolName, incident_tool_eq}
use agent_learning_loop.Incident.Contracts.{
  IncidentApprovalRule, IncidentExpectedState, IncidentPrivateFixture, IncidentAction,
}
use agent_learning_loop.Incident.Environment.{as_text}

-- the fields that are there are the fields of the model
abbrev pub has_fields : List String → Dict JsonValue → Bool
has_fields names d = subset (keys d) names && subset names (keys d)

-- `str = Field(min_length=1)`
abbrev pub is_nonempty_text : Option JsonValue → Bool
is_nonempty_text (some (str s)) = s != ""
is_nonempty_text _ = false

abbrev is_bool : Option JsonValue → Bool
is_bool (some (bool _)) = true
is_bool _ = false

abbrev pub is_text_in : List String → Option JsonValue → Bool
is_text_in texts (some (str s)) = contains texts s
is_text_in texts _ = false

abbrev pub entries : Fields → Dict JsonValue
entries end = []
entries (field k v fs) = (k, v) ∷ entries fs

-- `GetServiceStatusArguments` and the other models with one text
abbrev pub accepts_text : String → Dict JsonValue → Bool
accepts_text name d = has_fields (name ∷ []) d && is_nonempty_text (lookup name d)

-- `FeatureFlagApprovalArguments`
abbrev pub accepts_flag_approval : Dict JsonValue → Bool
accepts_flag_approval d =
    has_fields ("key" ∷ "enabled" ∷ []) d
    && is_nonempty_text (lookup "key" d)
    && is_bool (lookup "enabled" d)

abbrev pub is_target : Option String → Option String → Bool
is_target target value = is_some target && value == target

-- `RequestApprovalArguments.validate_bound_action`
abbrev pub accepts_bound : Option String → Option String → Option JsonValue → Bool
accepts_bound (some tool) target (some (obj fs)) =
    if tool == "set_feature_flag"
    then accepts_flag_approval (entries fs)
      && is_target target (as_text (lookup "key" (entries fs)))
    else accepts_text "service" (entries fs)
      && is_target target (as_text (lookup "service" (entries fs)))
accepts_bound _ _ _ = false

-- `RequestApprovalArguments`
abbrev pub accepts_approval : Dict JsonValue → Bool
accepts_approval d =
    has_fields ("tool_name" ∷ "target" ∷ "arguments" ∷ []) d
    && is_text_in ("set_feature_flag" ∷ "restart_simulated_service" ∷ []) (lookup "tool_name" d)
    && is_nonempty_text (lookup "target" d)
    && accepts_bound (as_text (lookup "tool_name" d)) (as_text (lookup "target" d))
        (lookup "arguments" d)

-- `SetFeatureFlagArguments`
abbrev accepts_flag : Dict JsonValue → Bool
accepts_flag d =
    has_fields ("key" ∷ "enabled" ∷ "approval_id" ∷ "operation_id" ∷ []) d
    && is_nonempty_text (lookup "key" d)
    && is_bool (lookup "enabled" d)
    && is_nonempty_text (lookup "approval_id" d)
    && is_nonempty_text (lookup "operation_id" d)

-- `RestartSimulatedServiceArguments`
abbrev accepts_restart : Dict JsonValue → Bool
accepts_restart d =
    has_fields ("service" ∷ "approval_id" ∷ "operation_id" ∷ []) d
    && is_nonempty_text (lookup "service" d)
    && is_nonempty_text (lookup "approval_id" d)
    && is_nonempty_text (lookup "operation_id" d)

-- `EscalateIncidentArguments`
abbrev accepts_escalation : Dict JsonValue → Bool
accepts_escalation d =
    has_fields ("reason_category" ∷ []) d
    && is_text_in ("approval_denied" ∷ "ambiguous_evidence" ∷ "insufficient_evidence" ∷ [])
        (lookup "reason_category" d)

-- `TOOL_ARGUMENT_MODELS`
abbrev pub accepts_arguments : IncidentToolName → Dict JsonValue → Bool
accepts_arguments IncidentToolName.get_service_status d = accepts_text "service" d
accepts_arguments IncidentToolName.read_service_logs d = accepts_text "service" d
accepts_arguments IncidentToolName.inspect_service_config d = accepts_text "key" d
accepts_arguments IncidentToolName.request_approval d = accepts_approval d
accepts_arguments IncidentToolName.set_feature_flag d = accepts_flag d
accepts_arguments IncidentToolName.restart_simulated_service d = accepts_restart d
accepts_arguments IncidentToolName.acknowledge_incident d = has_fields [] d
accepts_arguments IncidentToolName.escalate_incident d = accepts_escalation d

-- `IncidentAction.require_tool_specific_arguments`
unfoldable pub accepts_action : IncidentAction → Bool
unfolding lookup
accepts_action action = accepts_arguments action.tool_name action.arguments

-- the fields of `IncidentApprovalRule` and its validator
unfoldable pub accepts_rule : IncidentApprovalRule → Bool
accepts_rule rule =
    rule.approval_id != ""
    && rule.target != ""
    && (rule.tool_name == IncidentToolName.set_feature_flag && is_some rule.enabled
        || rule.tool_name == IncidentToolName.restart_simulated_service
          && not (is_some rule.enabled))

module _ {A : Type 0} where
  -- `len(xs) == len(set(xs))`, for an equality test
  abbrev pub distinct : (A → A → Bool) → List A → Bool
  distinct same [] = true
  distinct same (x ∷ xs) = all (λ y. not (same x y)) xs && distinct same xs

abbrev same_approval : IncidentApprovalRule → IncidentApprovalRule → Bool
same_approval a b = a.tool_name == b.tool_name && a.target == b.target && a.enabled == b.enabled

abbrev target_exists : IncidentPrivateFixture → IncidentApprovalRule → Bool
target_exists p rule =
    not (
      rule.tool_name == IncidentToolName.restart_simulated_service
      && not (has_key rule.target p.services))
    && not (
        rule.tool_name == IncidentToolName.set_feature_flag
        && not (has_key rule.target p.feature_flags))

abbrev same_keys : List String → List String → Bool
same_keys xs ys = subset xs ys && subset ys xs

abbrev within_limit : Option ℕ → ℕ → Bool
within_limit none count = true
within_limit (some limit) count = leb count limit

abbrev within : Dict ℕ → String × ℕ → Bool
within limits (name, count) = within_limit (lookup name limits) count

-- `IncidentExpectedState.require_nonnegative_consistent_counts`; counts are natural numbers here
unfoldable pub accepts_expected : IncidentExpectedState → Bool
unfolding lookup
accepts_expected x =
    ltb 0 (length x.service_states)
    && all (within x.max_restart_counts) x.exact_restart_counts
    && all (within x.max_feature_flag_mutations) x.exact_feature_flag_mutations

-- `IncidentPrivateFixture.require_consistent_private_identity`
unfoldable pub accepts_private : IncidentPrivateFixture → Bool
unfolding lookup accepts_rule accepts_expected
accepts_private p =
    let x = p.expected in
    ltb 0 (length p.services)
    && all accepts_rule p.approvals
    && accepts_expected x
    && distinct (λ a b. a.approval_id == b.approval_id) p.approvals
    && distinct same_approval p.approvals
    && all (target_exists p) p.approvals
    && subset (keys x.service_states ++ x.protected_services ++ keys x.max_restart_counts)
        (keys p.services)
    && subset
        (keys x.feature_flags ++ x.protected_feature_flags ++ keys x.max_feature_flag_mutations)
        (keys p.feature_flags)
    && same_keys (keys x.exact_restart_counts) (keys p.services)
    && same_keys (keys x.exact_feature_flag_mutations) (keys p.feature_flags)
