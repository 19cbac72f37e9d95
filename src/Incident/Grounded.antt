-- ===== src/Incident/Grounded.antt =====
-- incident_environment.py: each grant is of an approving rule of the fixture.
use agent_learning_loop.Base.{
  String, some, List, [], ◌∷◌, Dict, lookup, insert, lookup-insert, string_eq, option_eq, bool_eq,
  Stdlib, ◌≡◌, arith,
}
use agent_learning_loop.Incident.Names.{incident_tool_eq}
use agent_learning_loop.Incident.Contracts.{
  IncidentApprovalRule, IncidentAction, IncidentTaskFixture,
}
use agent_learning_loop.Incident.Environment.{IncidentEnvironment, Grant, start, add_record}
use agent_learning_loop.Incident.Execute.{execute_all}
use agent_learning_loop.Incident.Steps.{Effect, IsGrounded, Step}
use agent_learning_loop.Incident.Stepped.{execute-Steps}

-- Each grant is of a rule of the fixture.
abbrev pub AllGrounded : Stdlib → IncidentEnvironment → Type 0
AllGrounded lib e =
    (id : String) (g : Grant)
    → lookup id e.grants ≡ some g
    → IsGrounded lib e.fixture.private.approvals g

effect-AllGrounded :
    {lib : Stdlib} {e e' : IncidentEnvironment}
    → Effect e e'
    → AllGrounded lib e
    → AllGrounded lib e'
effect-AllGrounded (Effect.restarted target n known found) h = h
effect-AllGrounded (Effect.half_restarted target known found) h = h
effect-AllGrounded (Effect.flagged target enabled n known found) h = h
effect-AllGrounded (Effect.half_flagged target enabled known found) h = h

either_grant :
    (lib : Stdlib) (rules : List IncidentApprovalRule) (k id : String) (new g : Grant)
    (d : Dict Grant)
    → IsGrounded lib rules new
    → ((x : Grant) → lookup id d ≡ some x → IsGrounded lib rules x)
    → lookup id (insert k new d) ≡ some g
    → IsGrounded lib rules g
either_grant lib rules k id new g d n old found = ground (arith, lookup-insert k id new d, old g)

step-AllGrounded :
    {lib : Stdlib} {e e' : IncidentEnvironment}
    → Step lib e e'
    → AllGrounded lib e
    → AllGrounded lib e'
unfolding add_record
step-AllGrounded Step.unchanged h = h
step-AllGrounded (Step.noted entry) h = h
step-AllGrounded {lib = lib} {e = e} (Step.granted entry id g grounded) h =
    λ k x found. either_grant lib e.fixture.private.approvals id k g x e.grants grounded (h k) found
step-AllGrounded (Step.raised live effect) h = effect-AllGrounded effect h
step-AllGrounded (Step.committed r result live fresh effect) h = effect-AllGrounded effect h
step-AllGrounded (Step.acknowledged entry live healthy) h = h
step-AllGrounded (Step.escalated entry live) h = h

pub runs-AllGrounded :
    (lib : Stdlib) (redact : String → String) (actions : List IncidentAction)
    (e : IncidentEnvironment)
    → AllGrounded lib e
    → AllGrounded lib (execute_all lib redact actions e)
unfolding execute_all
runs-AllGrounded lib redact [] e h = h
runs-AllGrounded lib redact (action ∷ actions) e h =
    runs-AllGrounded lib redact actions _ (step-AllGrounded (execute-Steps lib e redact action) h)

pub start-AllGrounded :
    (lib : Stdlib) (fixture : IncidentTaskFixture) (run_id : String)
    → AllGrounded lib (start fixture run_id)
unfolding start lookup
start-AllGrounded lib fixture run_id id g found = cc found
