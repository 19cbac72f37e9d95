-- ===== src/Workspace/Accepted.antt =====
-- verifier.py: what a passed verdict says of the files of a Workspace.
use agent_learning_loop.Base.{
  String, Bool, true, false, not, ◌||◌, Option, none, some, List, [], ◌∷◌, ◌++◌, Dict, lookup,
  has_key, keys, all, filterb, subset, contains, all-get_elem?, string_eq, option_eq, eq_iff, ◌==◌,
  ◌≡◌, refl, sym, ap, arith, Bool-cases, inl, inr,
}
use agent_learning_loop.Schemas.{VerifierCheck, WorkspaceExpectedState, WorkspaceSnapshot}
use agent_learning_loop.Workspace.Verifier.{
  has_required, is_unchanged, is_changed, changed_paths, state_checks, verify,
}

abbrev passes : VerifierCheck → Bool
passes c = c.passed

-- The state of every path, by the files before and after and what was expected.
pub record IsAccepted (initial final : WorkspaceSnapshot) (expected : WorkspaceExpectedState)
    : Type 0 where
  -- a required file has the content that is required
  pub required :
      (path content : String)
      → lookup path expected.required_files ≡ some content
      → lookup path final.files ≡ some content
  -- a protected file was there, and is as it was
  pub unchanged :
      (path : String)
      → contains expected.unchanged_files path ≡ true
      → (has_key path initial.files ≡ true) × (lookup path final.files ≡ lookup path initial.files)
  -- a forbidden path has no file
  pub absent :
      (path : String)
      → contains expected.forbidden_paths path ≡ true
      → lookup path final.files ≡ none
  -- a path that no permission names is as it was, with or without a file
  pub scoped :
      (path : String)
      → contains expected.allowed_mutations path ≡ false
      → lookup path final.files ≡ lookup path initial.files

same_options : (a b : Option String) → (a == b) ≡ true → a ≡ b
same_options none none h = refl
same_options none (some y) h = cc
same_options (some x) none h = cc
same_options (some x) (some y) h = ap some ((eq_iff x y).0 h)

required_found :
    (final required : Dict String) (path content : String)
    → has_required final required ≡ true
    → lookup path required ≡ some content
    → lookup path final ≡ some content
unfolding lookup
required_found final [] path content h found = cc
required_found final ((k, v) ∷ required) path content h found = ground (
  arith,
  eq_iff k path,
  required_found final required path content,
  same_options (lookup k final) (some v),
)

all-contains :
    (p : String → Bool) (xs : List String) (x : String)
    → all p xs ≡ true
    → contains xs x ≡ true
    → p x ≡ true
all-contains p [] x h m = cc
all-contains p (y ∷ ys) x h m = ground (arith, eq_iff y x, all-contains p ys x)

contains-keys :
    (path : String) (d : Dict String) → has_key path d ≡ true → contains (keys d) path ≡ true
unfolding lookup
contains-keys path [] h = cc
contains-keys path ((k, v) ∷ d) h = ground (arith, contains-keys path d)

contains-append :
    (xs ys : List String) (x : String) → contains (xs ++ ys) x ≡ (contains xs x || contains ys x)
contains-append [] ys x = refl
contains-append (y ∷ xs) ys x = ground (arith, contains-append xs ys x)

contains-filterb :
    (p : String → Bool) (xs : List String) (x : String)
    → contains xs x ≡ true
    → p x ≡ true
    → contains (filterb p xs) x ≡ true
contains-filterb p [] x m h = m
contains-filterb p (y ∷ ys) x m h = ground (arith, eq_iff y x, contains-filterb p ys x)

no_file : (path : String) (d : Dict String) → not (has_key path d) ≡ true → lookup path d ≡ none
no_file path d h = ground arith

-- A path that changed is among the changed paths.
changed_found :
    (initial final : Dict String) (path : String)
    → is_changed initial final path ≡ true
    → contains (changed_paths initial final) path ≡ true
changed_found initial final path h =
    contains-filterb (is_changed initial final) (keys initial ++ keys final) path
      (ground (
        arith,
        contains-append (keys initial) (keys final) path,
        contains-keys path initial,
        contains-keys path final,
      ))
      h

scoped_path :
    (initial final : Dict String) (allowed : List String) (path : String)
    → subset (changed_paths initial final) allowed ≡ true
    → contains allowed path ≡ false
    → lookup path final ≡ lookup path initial
scoped_path initial final allowed path h n = elim (Bool-cases (is_changed initial final path)) [
  | inl differs ↦ cc (
    all-contains (contains allowed) (changed_paths initial final) path h
        (changed_found initial final path differs),
    n,
  )
  | inr same ↦ sym (same_options (lookup path initial) (lookup path final) (ground (arith, same)))
]

unchanged_path :
    (initial final : Dict String) (path : String)
    → is_unchanged initial final path ≡ true
    → (has_key path initial ≡ true) × (lookup path final ≡ lookup path initial)
unchanged_path initial final path h =
    (ground (arith, h), same_options (lookup path final) (lookup path initial) (ground (arith, h)))

-- A passed verdict says of every path: a required file has its required content, a protected file was
-- there and is as it was, a forbidden path has no file, and a path that no permission names is as it
-- was.
pub verify-IsAccepted :
    (initial final : WorkspaceSnapshot) (expected : WorkspaceExpectedState)
    → (verify initial final expected).passed ≡ true
    → IsAccepted initial final expected
unfolding verify state_checks
verify-IsAccepted initial final expected h =
    let checks = state_checks initial final expected in
    record {
      required = λ path content.
          required_found final.files expected.required_files path content
            (all-get_elem? passes checks 0 _ h refl);
      unchanged = λ path m. unchanged_path initial.files final.files path (
          all-contains (is_unchanged initial.files final.files) expected.unchanged_files path
            (all-get_elem? passes checks 1 _ h refl) m);
      absent = λ path m. no_file path final.files (
          all-contains (λ p. not (has_key p final.files)) expected.forbidden_paths path
            (all-get_elem? passes checks 2 _ h refl) m);
      scoped = λ path.
          scoped_path initial.files final.files expected.allowed_mutations path
            (all-get_elem? passes checks 3 _ h refl);
    }
