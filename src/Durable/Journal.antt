-- ===== src/Durable/Journal.antt =====
-- journal.py: the append-only journal with its chain of record hashes, and its validation.
use Prim.Native.Char.{code}
use Prim.Native.String.{String, ◌++◌ as join}
use agent_learning_loop.Base.{
  ℕ, suc, ◌+◌, Bool, true, false, not, ◌&&◌, ◌||◌, Option, none, some, List, [], ◌∷◌, ◌++◌, length,
  nat_beq, nat_eq, contains, ◌==◌, ◌!=◌, string_eq, JsonValue, str, int, pos, obj, fields, Dict,
  Stdlib, canonical_json_bytes, canonical_sha256, if◌then◌else◌,
}
use agent_learning_loop.Durable.Events.{
  DurableEventKind, event_kind_eq, event_kind_text, DurableEventPayload, payload_json, DurableEvent,
  accepts_event,
}

-- the dictionary of `append` without the hash, and `event_hash_payload`
abbrev pub event_hash_payload : DurableEvent → Dict JsonValue
event_hash_payload e =
    ("schema_version", str "3")
    ∷ ("run_id", str e.run_id)
    ∷ ("task_id", str e.task_id)
    ∷ ("sequence", int (pos e.sequence))
    ∷ ("step_index", int (pos e.step_index))
    ∷ ("attempt", int (pos e.attempt))
    ∷ ("segment", int (pos e.segment))
    ∷ ("event_kind", str (event_kind_text e.event_kind))
    ∷ ("payload", payload_json e.payload)
    ∷ ("previous_record_hash", str e.previous_record_hash)
    ∷ []

-- `record_hash`
unfoldable pub record_hash : Stdlib → Dict JsonValue → String
unfolding canonical_sha256
record_hash lib event_without_hash = canonical_sha256 lib (obj (fields event_without_hash))

-- `event.model_dump(mode="json")`
abbrev pub event_json : DurableEvent → JsonValue
event_json e = obj (fields (event_hash_payload e ++ ("record_hash", str e.record_hash) ∷ []))

-- the text of one record, without its line break
unfoldable pub record_text : Stdlib → DurableEvent → String
unfolding canonical_json_bytes
record_text lib e = canonical_json_bytes lib (event_json e)

-- `AppendOnlyJournal`, with the text of its file in place of the path and the stream
pub record AppendOnlyJournal : Type 0 where
  pub content : String
  pub run_id : String
  pub task_id : String
  pub segment : ℕ
  pub record_count : ℕ
  pub final_hash : String

-- `create`, where the file does not exist
unfoldable pub create : String → String → AppendOnlyJournal
create run_id task_id = record {
  content = "";
  run_id = run_id;
  task_id = task_id;
  segment = 0;
  record_count = 0;
  final_hash = "";
}

abbrev pub last_record : List DurableEvent → Option DurableEvent
last_record [] = none
last_record (r ∷ []) = some r
last_record (r ∷ s ∷ rs) = last_record (s ∷ rs)

abbrev pub hash_of : Option DurableEvent → String
hash_of none = ""
hash_of (some e) = e.record_hash

-- `resume`, on a file with a text; `none` is the error for an empty journal
unfoldable pub resume : String → List DurableEvent → ℕ → Option AppendOnlyJournal
resume content [] segment = none
resume content (r ∷ rs) segment = some (record {
  content = content;
  run_id = r.run_id;
  task_id = r.task_id;
  segment = segment;
  record_count = length (r ∷ rs);
  final_hash = hash_of (last_record (r ∷ rs));
})

-- what a call of `append` asks for
pub record Appended : Type 0 where
  pub event_kind : DurableEventKind
  pub step_index : ℕ
  pub attempt : ℕ
  pub payload : DurableEventPayload

-- the event that `append` builds before it is hashed
abbrev pub unhashed : AppendOnlyJournal → Appended → DurableEvent
unhashed j a = record {
  run_id = j.run_id;
  task_id = j.task_id;
  sequence = j.record_count;
  step_index = a.step_index;
  attempt = a.attempt;
  segment = j.segment;
  event_kind = a.event_kind;
  payload = a.payload;
  previous_record_hash = j.final_hash;
  record_hash = "";
}

unfoldable pub next_event : Stdlib → AppendOnlyJournal → Appended → DurableEvent
unfolding record_hash
next_event lib j a = record (unhashed j a) {
  record_hash = record_hash lib (event_hash_payload (unhashed j a));
}

-- the journal after an event is written
abbrev pub with_event : Stdlib → AppendOnlyJournal → DurableEvent → AppendOnlyJournal
with_event lib j e = record j {
  content = join j.content (join (record_text lib e) "\n");
  record_count = j.record_count + 1;
  final_hash = e.record_hash;
}

-- `append`; `none` is the `ValidationError` of an event that the contract refuses
unfoldable pub append :
    Stdlib → AppendOnlyJournal → Appended → Option (DurableEvent × AppendOnlyJournal)
unfolding next_event accepts_event record_text
append lib j a =
    let e = next_event lib j a in if accepts_event e then some (e, with_event lib j e) else none

abbrev pub is_lf : ℕ → Bool
is_lf c = nat_beq c 10

abbrev pub is_cr : ℕ → Bool
is_cr c = nat_beq c 13

-- the line boundaries of `str.splitlines`
abbrev pub is_break : ℕ → Bool
is_break c = contains (10 ∷ 11 ∷ 12 ∷ 13 ∷ 28 ∷ 29 ∷ 30 ∷ 133 ∷ 8232 ∷ 8233 ∷ []) c

abbrev pub extend : String → List String → List String
extend c [] = c ∷ []
extend c (l ∷ ls) = join c l ∷ ls

-- `text.splitlines()`, after a carriage return or not: CR LF is one boundary
unfoldable pub splitlines : Bool → String → List String
splitlines after_cr String.[] = []
splitlines after_cr (String.◌∷◌ c s) =
    let rest = splitlines (is_cr (code c)) s in
    if after_cr && is_lf (code c)
    then rest
    else if is_break (code c)
    then "" ∷ rest
    else extend (String.◌∷◌ c String.[]) rest

abbrev pub ends_in_newline : String → Bool
ends_in_newline String.[] = false
ends_in_newline (String.◌∷◌ c String.[]) = is_lf (code c)
ends_in_newline (String.◌∷◌ c (String.◌∷◌ d s)) = ends_in_newline (String.◌∷◌ d s)

-- A `JournalValidationError` with its message, or the records.
pub data Validated : Type 0 where
  invalid : String → Validated
  valid : List DurableEvent → Validated

-- What stands at a path: nothing that can be read, bytes that are not UTF-8 (which end in a line feed
-- or not), or a text.
pub data JournalFile : Type 0 where
  unreadable : JournalFile
  undecodable : Bool → JournalFile
  decoded : String → JournalFile

abbrev check_first : DurableEvent → Option String
check_first e =
    if e.previous_record_hash != "" || e.segment != 0
    then some "journal first record has an invalid prefix"
    else none

abbrev check_next : DurableEvent → DurableEvent → Option String
check_next previous e =
    if e.run_id != previous.run_id || e.task_id != previous.task_id
    then some "journal run/task identity changed"
    else if e.previous_record_hash != previous.record_hash
    then some "journal hash chain is broken"
    else if not (contains (previous.segment ∷ (previous.segment + 1) ∷ []) e.segment)
    then some "journal segment is not continuous"
    else if e.segment != previous.segment && e.event_kind != DurableEventKind.run_resumed
    then some "a new segment must begin with run_resumed"
    else none

abbrev check_prefix : Option DurableEvent → DurableEvent → Option String
check_prefix none e = check_first e
check_prefix (some previous) e = check_next previous e

abbrev or_else : Option String → Option String → Option String
or_else none other = other
or_else (some message) other = some message

-- the first error of a record, by the record before it and the number of its line
unfoldable pub check_record : Stdlib → Option DurableEvent → ℕ → DurableEvent → Option String
unfolding record_hash
check_record lib previous index e =
    if e.sequence != index
    then some "journal sequence is not continuous"
    else or_else (check_prefix previous e) (
        if e.record_hash != record_hash lib (event_hash_payload e)
        then some "journal record hash does not match its content"
        else none)

abbrev pub keep : DurableEvent → Validated → Validated
keep e (invalid message) = invalid message
keep e (valid records) = valid (e ∷ records)

abbrev pub kept_or : Option String → DurableEvent → Validated → Validated
kept_or none e rest = keep e rest
kept_or (some message) e rest = invalid message

-- `loads` is `json.loads` followed by `DurableEvent.model_validate`
module _ (lib : Stdlib) (loads : String → Option DurableEvent) where
  unfoldable pub read_lines : Option DurableEvent → ℕ → List String → Validated
  unfolding check_record
  read_lines previous index [] = valid []
  read_lines previous index (line ∷ lines) =
      if line == "" then invalid "journal cannot contain blank records" else elim (loads line) [
        | none ↦ invalid "journal record failed strict v3 validation"
        | some e ↦
            kept_or (check_record lib previous index e) e (read_lines (some e) (suc index) lines)
      ]

  -- `read_and_validate_journal`
  unfoldable pub read_and_validate_journal : JournalFile → Validated
  unfolding splitlines
  read_and_validate_journal unreadable = invalid "journal could not be read"
  read_and_validate_journal (undecodable true) = invalid "journal is not strict UTF-8"
  read_and_validate_journal (undecodable false) =
      invalid "journal must end after a complete JSONL record"
  read_and_validate_journal (decoded text) =
      if ends_in_newline text
      then read_lines none 0 (splitlines false text)
      else invalid "journal must end after a complete JSONL record"
