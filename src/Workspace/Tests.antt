-- ===== src/Workspace/Tests.antt =====
-- Tests of the Workspace verifier (verifier.py), and its theorem at a concrete input.
use agent_learning_loop.Base.{true, false, [], ◌∷◌, lookup, ◌≡◌, refl}
use agent_learning_loop.Schemas.{WorkspaceExpectedState, WorkspaceSnapshot}
use agent_learning_loop.Workspace.Verifier.{state_checks, verify}
use agent_learning_loop.Workspace.Accepted.{IsAccepted, verify-IsAccepted}

abbrev before : WorkspaceSnapshot
before = record { files = ("app.conf", "port=0") ∷ ("notes.md", "keep") ∷ [] }

abbrev after : WorkspaceSnapshot
after = record { files = ("app.conf", "port=80") ∷ ("notes.md", "keep") ∷ [] }

abbrev expected : WorkspaceExpectedState
expected = record {
  required_files = ("app.conf", "port=80") ∷ [];
  unchanged_files = "notes.md" ∷ [];
  allowed_mutations = "app.conf" ∷ [];
  forbidden_paths = "debug.log" ∷ [];
}

passes : (verify before after expected).passed ≡ true
unfolding verify state_checks lookup
passes = refl

-- A file that was not asked for fails the verification.
extra_file :
    (verify before (record { files = ("debug.log", "") ∷ after.files }) expected).passed ≡ false
unfolding verify state_checks lookup
extra_file = refl

verify-IsAccepted_example : IsAccepted before after expected
verify-IsAccepted_example = verify-IsAccepted before after expected passes
