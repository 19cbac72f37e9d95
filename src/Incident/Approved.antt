-- ===== src/Incident/Approved.antt =====
-- incident_environment.py: a feature flag is set to a value only if a rule approves that value.
use agent_learning_loop.Base.{
  String, Bool, true, false, not, ◌&&◌, ◌!=◌, Option, none, some, List, [], ◌∷◌, Dict, lookup,
  filterb, any, contains, eq_iff, string_eq, option_eq, bool_eq, ◌==◌, JsonValue, bool, str,
  if◌then◌else◌, obj, fields, Stdlib, canonical_sha256, ◌≡◌, refl, sym, ap, ◌∙◌, arith, if_intro,
}
use agent_learning_loop.Incident.Names.{IncidentToolName, incident_tool_eq, incident_tool_beq_iff}
use agent_learning_loop.Incident.Contracts.{
  IncidentApprovalRule, optional_bool, canonical_action, action_object, IncidentAction,
  IncidentTaskFixture,
}
use agent_learning_loop.Incident.Environment.{
  IncidentEnvironment, Answer, Grant, Operation, start, add_record, reject_with, target_of,
}
use agent_learning_loop.Incident.Approvals.{is_closed}
use agent_learning_loop.Incident.HighImpact.{
  Request, names_request, approval_fingerprint, operation_fingerprint, permits, run_new,
  run_request, with_identifiers, high_impact,
}
use agent_learning_loop.Incident.Execute.{
  perform_flag, flag_request, set_feature_flag, dispatch, execute, execute_all,
}
use agent_learning_loop.Incident.Steps.{IsGrounded}
use agent_learning_loop.Incident.Grounded.{AllGrounded, runs-AllGrounded, start-AllGrounded}
use agent_learning_loop.Incident.Grows.{execute_all-Grows}

-- No collision between actions that differ in `enabled`: the digest of an action determines it.
abbrev pub TellsApart : Stdlib → Type 0
TellsApart lib =
    (tool tool' target target' : String) (d d' : Dict JsonValue) (b : Bool)
    → canonical_sha256 lib (obj (fields (action_object tool target (obj (fields d)))))
      ≡ canonical_sha256 lib (obj (fields (action_object tool' target' (obj (fields d')))))
    → lookup "enabled" d ≡ some (bool b)
    → lookup "enabled" d' ≡ some (bool b)

enabled_kept : (k : String) (v : JsonValue) → (k == "enabled") ≡ true → names_request (k, v) ≡ false
enabled_kept k v h = rw ((eq_iff k "enabled").0 h) refl

-- The two identifiers are left out of the digest, `enabled` is not.
lookup-request :
    (d : Dict JsonValue)
    → lookup "enabled" (filterb (λ entry. not (names_request entry)) d) ≡ lookup "enabled" d
unfolding lookup
lookup-request [] = refl
lookup-request ((k, v) ∷ d) = ground (arith, lookup-request d, enabled_kept k v)

-- The rule approves setting this flag to this value.
abbrev pub approves_value : String → Bool → IncidentApprovalRule → Bool
approves_value target enabled rule =
    rule.approves
    && rule.tool_name == IncidentToolName.set_feature_flag
    && rule.target == target
    && rule.enabled == some enabled

optional_bool-injective :
    (o : Option Bool) (b : Bool) → some (optional_bool o) ≡ some (bool b) → (o == some b) ≡ true
optional_bool-injective none b h = absurd (cc h)
optional_bool-injective (some false) b h = cc h
optional_bool-injective (some true) b h = cc h

rule_enabled :
    (rule : IncidentApprovalRule) (b : Bool)
    → rule.tool_name ≡ IncidentToolName.set_feature_flag
    → (lookup "enabled" (
          if rule.tool_name == IncidentToolName.set_feature_flag
          then ("key", str rule.target) ∷ ("enabled", optional_bool rule.enabled) ∷ []
          else ("service", str rule.target) ∷ [])
        ≡ some (bool b))
    → (rule.enabled == some b) ≡ true
unfolding lookup
rule_enabled rule b t h = optional_bool-injective rule.enabled b (ground (arith, h, t))

module _ (lib : Stdlib) (apart : TellsApart lib) where
  -- A grant that permits setting a flag is of a rule that approves the value.
  permits-approves :
      (r : Request) (e : IncidentEnvironment) (g : Grant) (enabled : Bool)
      → r.action.tool_name ≡ IncidentToolName.set_feature_flag
      → lookup "enabled" r.action.arguments ≡ some (bool enabled)
      → IsGrounded lib e.fixture.private.approvals g
      → permits lib r e (some g) ≡ true
      → approves_value r.target enabled g.rule ≡ true
  unfolding approval_fingerprint canonical_action
  permits-approves r e g enabled t v grounded permit =
      let tool : (g.rule.tool_name == r.action.tool_name) ≡ true = ground (arith, permit) in
      let target : (g.rule.target == r.target) ≡ true = ground (arith, permit) in
      let digest : g.fingerprint ≡ approval_fingerprint lib r =
        ground (arith, permit, eq_iff g.fingerprint (approval_fingerprint lib r)) in
      let flag : g.rule.tool_name ≡ IncidentToolName.set_feature_flag =
        ground (arith, tool, t, incident_tool_beq_iff g.rule.tool_name r.action.tool_name) in
      let value = rule_enabled g.rule enabled flag (
        apart _ _ _ _ _ _ enabled (sym digest ∙ sym grounded.fingerprint)
          (lookup-request r.action.arguments ∙ v)) in
      ground (arith, grounded.approves, flag, target, value)

  module _ (e : IncidentEnvironment) (grounded : AllGrounded lib e) (action : IncidentAction)
      (enabled : Bool) (t : action.tool_name ≡ IncidentToolName.set_feature_flag)
      (v : lookup "enabled" action.arguments ≡ some (bool enabled)) where
    abbrev FlagsStay : Answer → Type 0
    FlagsStay x = x.1.feature_flags ≡ e.feature_flags

    abbrev Unapproved : String → Type 0
    Unapproved target = any (approves_value target enabled) e.fixture.private.approvals ≡ false

    refused_flag :
        (target approval operation : String) (grant : Option Grant)
        → Unapproved target
        → lookup approval e.grants ≡ grant
        → permits lib
            (record {
              action = action;
              target = target;
              approval_id = approval;
              operation_id = operation;
            })
            e
            grant
          ≡ false
    refused_flag target approval operation none u found = refl
    refused_flag target approval operation (some g) u found = refuted _ λ permit. cc (
      u,
      (grounded approval g found).among (approves_value target enabled)
          (permits-approves _ e g enabled t v (grounded approval g found) permit),
    )
      where
        refuted : (b : Bool) → ((b ≡ true) → ⊥) → b ≡ false
        refuted true h = absurd (h refl)
        refuted false h = refl

    run_request-FlagsStay :
        (target approval operation : String) (previous : Option Operation)
        (mutation : IncidentEnvironment → Answer)
        → Unapproved target
        → FlagsStay (
            run_request lib
              (record {
                action = action;
                target = target;
                approval_id = approval;
                operation_id = operation;
              })
              previous
              mutation
              e)
    unfolding run_new reject_with add_record
    run_request-FlagsStay target approval operation none mutation u =
        rw (refused_flag target approval operation (lookup approval e.grants) u refl)
          (if_intro FlagsStay (is_closed e.incident_status) _ _ (λ _. refl) (λ _. refl))
    run_request-FlagsStay target approval operation (some previous) mutation u =
        if_intro FlagsStay
          (previous.fingerprint
            != operation_fingerprint lib (record {
              action = action;
              target = target;
              approval_id = approval;
              operation_id = operation;
            }))
          _ _ (λ _. refl) (λ _. refl)

    with_identifiers-FlagsStay :
        (target : String) (approval operation : Option String)
        (mutation : IncidentEnvironment → Answer)
        → Unapproved target
        → FlagsStay (with_identifiers lib action target approval operation mutation e)
    unfolding reject_with add_record
    with_identifiers-FlagsStay target none operation mutation u = refl
    with_identifiers-FlagsStay target (some approval) none mutation u = refl
    with_identifiers-FlagsStay target (some approval) (some operation) mutation u =
        run_request-FlagsStay target approval operation (lookup operation e.operations) mutation u

    flag_request-FlagsStay :
        (target : String) (known : Bool) (value : Option JsonValue)
        → Unapproved target
        → value ≡ some (bool enabled)
        → FlagsStay (flag_request lib action target known value e)
    unfolding high_impact reject_with add_record
    flag_request-FlagsStay target true (some (bool b)) u same =
        with_identifiers-FlagsStay target _ _ (perform_flag target b) u
    flag_request-FlagsStay target _ _ u same = refl

    dispatch-FlagsStay :
        (redact : String → String) (tool : IncidentToolName)
        → tool ≡ IncidentToolName.set_feature_flag
        → Unapproved (target_of action)
        → FlagsStay (dispatch lib redact tool action e)
    unfolding set_feature_flag
    dispatch-FlagsStay redact IncidentToolName.set_feature_flag same u =
        flag_request-FlagsStay (target_of action) _ _ u v
    dispatch-FlagsStay redact _ same u = absurd (cc same)

    execute-FlagsStay :
        (redact : String → String)
        → Unapproved (target_of action)
        → FlagsStay (execute lib redact action e)
    unfolding execute reject_with add_record
    execute-FlagsStay redact u =
        if_intro FlagsStay (contains e.fixture.task.allowed_tools action.tool_name) _ _
          (λ _. dispatch-FlagsStay redact action.tool_name t u) (λ _. refl)

-- Where no rule of the fixture approves setting a flag to a value, `set_feature_flag` with that value
-- leaves all flags as they are, whatever actions came before it, and whatever approval id and
-- operation id it names. The digest is assumed to tell apart actions that differ in `enabled`.
pub unapproved_flag_stays :
    (lib : Stdlib) (redact : String → String) (before : List IncidentAction)
    (fixture : IncidentTaskFixture) (run_id : String) (action : IncidentAction) (enabled : Bool)
    → TellsApart lib
    → action.tool_name ≡ IncidentToolName.set_feature_flag
    → lookup "enabled" action.arguments ≡ some (bool enabled)
    → any (approves_value (target_of action) enabled) fixture.private.approvals ≡ false
    → (execute lib redact action
        (execute_all lib redact before (start fixture run_id))).1.feature_flags
      ≡ (execute_all lib redact before (start fixture run_id)).feature_flags
unfolding start
unapproved_flag_stays lib redact before fixture run_id action enabled apart t v u =
    let e = execute_all lib redact before (start fixture run_id) in
    execute-FlagsStay lib apart e
      (runs-AllGrounded lib redact before _ (start-AllGrounded lib fixture run_id)) action enabled t
      v redact
      (ap
          (λ (f : IncidentTaskFixture).
            any (approves_value (target_of action) enabled) f.private.approvals)
          (execute_all-Grows lib redact before (start fixture run_id)).fixture_kept
        ∙ u)
