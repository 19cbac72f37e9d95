-- ===== src/Incident/Steps.antt =====
-- incident_environment.py: what one call of `execute` may do to the environment, as a step relation.
use agent_learning_loop.Base.{
  ℕ, ◌+◌, String, Bool, true, false, none, some, lookup, insert, has_key, Stdlib, canonical_sha256,
  List, any, ◌≡◌,
}
use agent_learning_loop.Incident.Names.{ServiceState, IncidentStatus}
use agent_learning_loop.Incident.Contracts.{
  IncidentApprovalRule, canonical_action, IncidentToolResult,
}
use agent_learning_loop.Incident.Environment.{IncidentEnvironment, Grant, Entry, add_record}
use agent_learning_loop.Incident.Approvals.{is_closed}
use agent_learning_loop.Incident.HighImpact.{Request, commit}
use agent_learning_loop.Incident.Execute.{mitigate, heal, before_dot, all_healthy}

-- What the two mutations do; one whose counter is missing raises `KeyError` half-way.
pub data Effect (e : IncidentEnvironment) : IncidentEnvironment → Type 0 where
  restarted :
      (target : String) (n : ℕ)
      → has_key target e.services ≡ true
      → lookup target e.restart_counts ≡ some n
      → Effect e (record e {
        services = insert target ServiceState.healthy e.services;
        restart_counts = insert target (n + 1) e.restart_counts;
        incident_status = mitigate e.incident_status;
      })
  half_restarted :
      (target : String)
      → has_key target e.services ≡ true
      → lookup target e.restart_counts ≡ none
      → Effect e (record e { services = insert target ServiceState.healthy e.services })
  flagged :
      (target : String) (enabled : Bool) (n : ℕ)
      → has_key target e.feature_flags ≡ true
      → lookup target e.feature_flag_mutations ≡ some n
      → Effect e (record e {
        feature_flags = insert target enabled e.feature_flags;
        feature_flag_mutations = insert target (n + 1) e.feature_flag_mutations;
        services = heal (before_dot target) e.services;
        incident_status = mitigate e.incident_status;
      })
  half_flagged :
      (target : String) (enabled : Bool)
      → has_key target e.feature_flags ≡ true
      → lookup target e.feature_flag_mutations ≡ none
      → Effect e (record e { feature_flags = insert target enabled e.feature_flags })

-- A grant of a rule that approves, for the digest of the rule's action.
pub record IsGrounded (lib : Stdlib) (rules : List IncidentApprovalRule) (g : Grant) : Type 0 where
  -- the rule is among the rules: a test that it passes is passed there
  pub among : (p : IncidentApprovalRule → Bool) → p g.rule ≡ true → any p rules ≡ true
  pub approves : g.rule.approves ≡ true
  pub fingerprint : canonical_sha256 lib (canonical_action g.rule) ≡ g.fingerprint

pub data Step (lib : Stdlib) (e : IncidentEnvironment) : IncidentEnvironment → Type 0 where
  unchanged : Step lib e e
  noted : (entry : Entry) → Step lib e (add_record entry e)
  granted :
      (entry : Entry) (id : String) (g : Grant)
      → IsGrounded lib e.fixture.private.approvals g
      → Step lib e
          (record (add_record entry e) { grants = insert id g (add_record entry e).grants })
  raised :
      {e' : IncidentEnvironment} → is_closed e.incident_status ≡ false → Effect e e' → Step lib e e'
  committed :
      {e' : IncidentEnvironment} (r : Request) (result : IncidentToolResult)
      → is_closed e.incident_status ≡ false
      → lookup r.operation_id e.operations ≡ none
      → Effect e e'
      → Step lib e (commit lib r result e')
  acknowledged :
      (entry : Entry)
      → is_closed e.incident_status ≡ false
      → all_healthy e.services ≡ true
      → Step lib e (add_record entry (record e { incident_status = IncidentStatus.acknowledged }))
  escalated :
      (entry : Entry)
      → is_closed e.incident_status ≡ false
      → Step lib e (add_record entry (record e { incident_status = IncidentStatus.escalated }))
