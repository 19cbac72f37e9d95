-- ===== src/Workspace/Verifier.antt =====
-- verifier.py: the checks of the final files of a Workspace task.
use agent_learning_loop.Base.{
  String, Bool, true, not, ◌&&◌, some, List, [], ◌∷◌, ◌++◌, Dict, lookup, has_key, keys, all,
  filterb, subset, string_eq, option_eq, ◌==◌, ◌!=◌, if◌then◌else◌,
}
use agent_learning_loop.Schemas.{
  VerifierCheck, VerifierResult, WorkspaceExpectedState, WorkspaceSnapshot,
}

-- `all(final.files.get(path) == content for path, content in required.items())`
abbrev pub has_required : Dict String → Dict String → Bool
has_required final [] = true
has_required final ((path, content) ∷ required) =
    lookup path final == some content && has_required final required

abbrev pub is_unchanged : Dict String → Dict String → String → Bool
is_unchanged initial final path = has_key path initial && lookup path final == lookup path initial

abbrev pub is_changed : Dict String → Dict String → String → Bool
is_changed initial final path = lookup path initial != lookup path final

-- `changed_paths`; a path that both have is there twice
abbrev pub changed_paths : Dict String → Dict String → List String
changed_paths initial final = filterb (is_changed initial final) (keys initial ++ keys final)

abbrev check : String → Bool → String → String → VerifierCheck
check name passed good bad = record {
  name = name;
  passed = passed;
  detail = if passed then good else bad;
}

-- the four checks of `WorkspaceStateVerifier.verify`
unfoldable pub state_checks :
    WorkspaceSnapshot → WorkspaceSnapshot → WorkspaceExpectedState → List VerifierCheck
unfolding lookup
state_checks initial final expected =
    check "required_state" (has_required final.files expected.required_files)
      "required file states matched" "required file state differed"
    ∷ check "unchanged_state"
        (all (is_unchanged initial.files final.files) expected.unchanged_files)
        "protected files stayed unchanged" "a protected file changed"
    ∷ check "forbidden_side_effects"
        (all (λ path. not (has_key path final.files)) expected.forbidden_paths)
        "forbidden paths stayed absent" "a forbidden path appeared"
    ∷ check "mutation_scope"
        (subset (changed_paths initial.files final.files) expected.allowed_mutations)
        "all mutations stayed in scope" "an out-of-scope mutation occurred"
    ∷ []

-- `WorkspaceStateVerifier.verify`
unfoldable pub verify :
    WorkspaceSnapshot → WorkspaceSnapshot → WorkspaceExpectedState → VerifierResult
verify initial final expected =
    let checks = state_checks initial final expected in
    let passed = all (λ (c : VerifierCheck). c.passed) checks in
    record { passed = passed; score = if passed then 1 else 0; checks = checks }
