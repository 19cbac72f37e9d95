-- ===== src/Durable/Chain.antt =====
-- journal.py: chained records, and what the validation of a journal says of them.
use agent_learning_loop.Base.{
  ℕ, suc, ◌+◌, String, true, false, Option, none, some, List, [], ◌∷◌, nat_eq, ◌==◌, string_eq,
  eq_iff, Stdlib, Bool-cases, Option-cases, ◌≡◌, ◌⊎◌, inl, inr, refl, arith,
}
use agent_learning_loop.Durable.Events.{
  DurableEventKind, event_kind_eq, event_kind_beq_iff, DurableEvent,
}
use agent_learning_loop.Durable.Journal.{
  event_hash_payload, record_hash, check_record, Validated, invalid, valid, JournalFile, unreadable,
  undecodable, decoded, kept_or, read_lines, read_and_validate_journal, splitlines,
}

-- A record goes on from the one before it.
pub data Continues : Option DurableEvent → DurableEvent → Type 0 where
  first : {e : DurableEvent} → e.previous_record_hash ≡ "" → e.segment ≡ 0 → Continues none e
  after :
      {previous e : DurableEvent}
      → e.run_id ≡ previous.run_id
      → e.task_id ≡ previous.task_id
      → e.previous_record_hash ≡ previous.record_hash
      → (e.segment ≡ previous.segment)
        ⊎ ((e.segment ≡ previous.segment + 1) × (e.event_kind ≡ DurableEventKind.run_resumed))
      → Continues (some previous) e

-- A record at its place: numbered, linked to the one before, and with the hash of its content.
pub record Links (lib : Stdlib) (previous : Option DurableEvent) (index : ℕ) (e : DurableEvent)
    : Type 0 where
  pub numbered : e.sequence ≡ index
  pub continues : Continues previous e
  pub hashed : e.record_hash ≡ record_hash lib (event_hash_payload e)

unfoldable pub IsChained : Stdlib → Option DurableEvent → ℕ → List DurableEvent → Type 0
IsChained lib previous index [] = Unit
IsChained lib previous index (e ∷ es) =
    Links lib previous index e × IsChained lib (some e) (suc index) es

check-Continues :
    (lib : Stdlib) (previous : Option DurableEvent) (index : ℕ) (e : DurableEvent)
    → check_record lib previous index e ≡ none
    → Continues previous e
unfolding check_record
check-Continues lib none index e h =
    first (ground (arith, eq_iff e.previous_record_hash "")) (ground arith)
check-Continues lib (some p) index e h =
    after (ground (arith, eq_iff e.run_id p.run_id)) (ground (arith, eq_iff e.task_id p.task_id))
      (ground (arith, eq_iff e.previous_record_hash p.record_hash))
      (ground (arith, event_kind_beq_iff e.event_kind DurableEventKind.run_resumed))

check-Links :
    (lib : Stdlib) (previous : Option DurableEvent) (index : ℕ) (e : DurableEvent)
    → check_record lib previous index e ≡ none
    → Links lib previous index e
unfolding check_record
check-Links lib previous index e h = record {
  numbered = ground arith;
  continues = check-Continues lib previous index e h;
  hashed = ground (arith, eq_iff e.record_hash (record_hash lib (event_hash_payload e)));
}

pub Links-check :
    (lib : Stdlib) (previous : Option DurableEvent) (index : ℕ) (e : DurableEvent)
    → Continues previous e
    → e.sequence ≡ index
    → e.record_hash ≡ record_hash lib (event_hash_payload e)
    → check_record lib previous index e ≡ none
unfolding check_record
Links-check lib none index e (first h s) n r = ground (
  arith,
  eq_iff e.previous_record_hash "",
  eq_iff e.record_hash (record_hash lib (event_hash_payload e)),
)
Links-check lib (some p) index e (after run task h s) n r = ground (
  arith,
  eq_iff e.run_id p.run_id,
  eq_iff e.task_id p.task_id,
  eq_iff e.previous_record_hash p.record_hash,
  event_kind_beq_iff e.event_kind DurableEventKind.run_resumed,
  eq_iff e.record_hash (record_hash lib (event_hash_payload e)),
)

-- What is kept of a validated rest.
kept :
    (e : DurableEvent) (checked : Option String) (rest : Validated) (rs : List DurableEvent)
    → kept_or checked e rest ≡ valid rs
    → (es : List DurableEvent) × (checked ≡ none) × (rest ≡ valid es) × (rs ≡ e ∷ es)
kept e none (invalid message) rs h = cc
kept e none (valid es) rs h = (es, refl, refl, cc)
kept e (some message) rest rs h = cc

module _ (lib : Stdlib) (loads : String → Option DurableEvent) where
  -- One line of a valid journal: it loads, it passes the checks, and the rest is valid after it.
  read_line :
      (previous : Option DurableEvent) (index : ℕ) (line : String) (lines : List String)
      (rs : List DurableEvent)
      → read_lines lib loads previous index (line ∷ lines) ≡ valid rs
      → (e : DurableEvent) × (es : List DurableEvent) × (check_record lib previous index e ≡ none)
        × (read_lines lib loads (some e) (suc index) lines ≡ valid es)
        × (rs ≡ e ∷ es)
  unfolding read_lines
  read_line previous index line lines rs h = elim (Bool-cases (line == "")) [
    | inl blank ↦ absurd (ground (arith, blank, h))
    | inr full ↦ elim (Option-cases (loads line)) [
      | inl failed ↦ absurd (ground (arith, failed, h))
      | inr (e, found) ↦
          let (es, checked, valid_rest, same) =
            kept e (check_record lib previous index e)
              (read_lines lib loads (some e) (suc index) lines) rs
              (ground (arith, full, found, h)) in
          (e, es, checked, valid_rest, same)
    ]
  ]

  read_lines-IsChained :
      (previous : Option DurableEvent) (index : ℕ) (lines : List String) (rs : List DurableEvent)
      → read_lines lib loads previous index lines ≡ valid rs
      → IsChained lib previous index rs
  unfolding read_lines IsChained
  read_lines-IsChained previous index [] [] h = tt
  read_lines-IsChained previous index [] (r ∷ rs) h = cc
  read_lines-IsChained previous index (line ∷ lines) rs h =
      let (e, es, checked, valid_rest, same) = read_line previous index line lines rs h in
      rw same (
        check-Links lib previous index e checked,
        read_lines-IsChained (some e) (suc index) lines es valid_rest,
      )

  -- The records of a journal that validates: each has its number, the run and task of the one before
  -- it, its hash as the previous one, and the hash of its own content; a segment goes on, or the next
  -- begins with `run_resumed`; the first has no previous hash and segment 0.
  pub read_and_validate_journal-IsChained :
      (file : JournalFile) (rs : List DurableEvent)
      → read_and_validate_journal lib loads file ≡ valid rs
      → IsChained lib none 0 rs
  unfolding read_and_validate_journal
  read_and_validate_journal-IsChained unreadable rs h = cc
  read_and_validate_journal-IsChained (undecodable true) rs h = cc
  read_and_validate_journal-IsChained (undecodable false) rs h = cc
  read_and_validate_journal-IsChained (decoded text) rs h =
      read_lines-IsChained none 0 (splitlines false text) rs (ground (arith, h))
