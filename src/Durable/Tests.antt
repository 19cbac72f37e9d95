-- ===== src/Durable/Tests.antt =====
-- Tests of the durable journal (journal.py, event_replay.py), and its theorems at a concrete run.
use Prim.Native.String.{◌++◌ as join}
use agent_learning_loop.Base.{
  ℕ, zero, suc, String, true, false, Option, none, some, List, [], ◌∷◌, find?, contains, pos, ◌==◌,
  string_eq, JsonValue, null, int, obj, Fields, field, end, Stdlib, ◌≡◌, refl, if◌then◌else◌,
}
use agent_learning_loop.Schemas.{RuntimeState, state_eq, RuntimeConfig, safeguarded, state_text}
use agent_learning_loop.Durable.Events.{DurableEventKind, DurableEventPayload, DurableEvent}
use agent_learning_loop.Durable.Journal.{
  AppendOnlyJournal, Appended, create, record_text, decoded, valid, invalid,
  read_and_validate_journal, read_lines,
}
use agent_learning_loop.Durable.Contracts.{
  off, DurableResult, Dump, verifier_summary_digest, durable_result_summary_digest,
}
use agent_learning_loop.Durable.Chain.{IsChained, read_and_validate_journal-IsChained}
use agent_learning_loop.Durable.Written.{append_all}
use agent_learning_loop.Durable.Reread.{AllReadable, read-append_all, is_unbroken}
use agent_learning_loop.Durable.Pinned.{IsCollisionFree, final_hash_pins}
use agent_learning_loop.Durable.Trajectory.{
  valid_completed, TrajectoryValidationResult, passed, absent, loaded, RunDirectory, and_then,
  refuse_if,
}
use agent_learning_loop.Durable.Replay.{validate_trajectory, validate_records}
use agent_learning_loop.Durable.Ending.{IsTrajectory}
use agent_learning_loop.Durable.Walk.{targets}
use agent_learning_loop.Durable.Legal.{
  validate_trajectory-IsTrajectory, validated_passes_every_stage,
}

abbrev tally : ℕ → String
tally zero = "record"
tally (suc n) = join "|" (tally n)

abbrev number_text : JsonValue → String
number_text (int (pos n)) = tally n
number_text _ = "record"

-- A text that tells the sequence number of a record and nothing else.
abbrev fields_text : Fields → String
fields_text end = "text"
fields_text (field k v rest) =
    let more = fields_text rest in if k == "sequence" then number_text v else more

abbrev numbered_text : JsonValue → String
numbered_text (obj d) = fields_text d
numbered_text _ = "text"

abbrev digest : String
digest = "aaaaaaaaaaaaaaaaaaaaaaaaaaaaaaaaaaaaaaaaaaaaaaaaaaaaaaaaaaaaaaaa"

abbrev lib : Stdlib
lib = record { dumps = numbered_text; sha256_hex = λ _. digest; decimal = λ _. "0" }

abbrev dump : Dump
dump = record {
  config = λ _. null;
  verifier = λ _. null;
  summary = λ _. null;
  checkpoint = λ _. null;
}

abbrev no_payload : DurableEventPayload
no_payload = record {
  mode = none;
  checkpointing = none;
  fixture_id = none;
  fixture_fingerprint = none;
  config_fingerprint = none;
  failure_schedule_id = none;
  failure_schedule_fingerprint = none;
  interruption_schedule_id = none;
  interruption_schedule_fingerprint = none;
  seed = none;
  from_state = none;
  to_state = none;
  tool_name = none;
  occurrence = none;
  status = none;
  failure_kind = none;
  error_category = none;
  retryable = none;
  failed_attempt = none;
  next_attempt = none;
  backoff_seconds = none;
  checkpoint_id = none;
  checkpoint_step = none;
  checkpoint_record_count = none;
  checkpoint_final_hash = none;
  boundary = none;
  resume_target = none;
  verifier_passed = none;
  verifier_summary_digest = none;
  result_summary_digest = none;
  terminal_state = none;
  reason_code = none;
}

abbrev call : DurableEventKind → DurableEventPayload → Appended
call kind p = record { event_kind = kind; step_index = 0; attempt = 0; payload = p }

abbrev change : RuntimeState → RuntimeState → Appended
change a b =
    call DurableEventKind.runtime_state_changed
      (record no_payload { from_state = some (state_text a); to_state = some (state_text b) })

abbrev start_call : Appended
start_call = call DurableEventKind.run_started (record no_payload {
  mode = some "safeguarded";
  checkpointing = some "off";
  fixture_id = some "fixture";
  fixture_fingerprint = some digest;
  config_fingerprint = some digest;
  failure_schedule_id = some "none";
  failure_schedule_fingerprint = some digest;
  seed = some (pos 7);
})

-- A run that verifies at once and succeeds.
abbrev more_calls : List Appended
more_calls =
    change RuntimeState.created RuntimeState.resetting
    ∷ change RuntimeState.resetting RuntimeState.ready
    ∷ change RuntimeState.ready RuntimeState.deciding
    ∷ change RuntimeState.deciding RuntimeState.verifying
    ∷ call DurableEventKind.verification_finished
        (record no_payload { verifier_passed = some true; verifier_summary_digest = some digest })
    ∷ change RuntimeState.verifying RuntimeState.succeeded
    ∷ call DurableEventKind.run_finished (record no_payload {
      verifier_passed = some true;
      verifier_summary_digest = some digest;
      result_summary_digest = some digest;
      terminal_state = some (state_text RuntimeState.succeeded);
    })
    ∷ []

abbrev made_of :
    Option (List DurableEvent × AppendOnlyJournal) → List DurableEvent × AppendOnlyJournal
made_of none = ([], create "" "")
made_of (some m) = m

unfoldable made : Option (List DurableEvent × AppendOnlyJournal)
unfolding append_all create
made = append_all lib (create "run-1" "task") (start_call ∷ more_calls)

unfoldable records : List DurableEvent
unfolding made
records = (made_of made).0

unfoldable journal : AppendOnlyJournal
unfolding made
journal = (made_of made).1

abbrev loads_from : List DurableEvent → String → Option DurableEvent
unfolding record_text
loads_from es line = find? (λ e. record_text lib e == line) es

abbrev loads : String → Option DurableEvent
unfolding records
loads line = loads_from records line

made-records :
    append_all lib (create "run-1" "task") (start_call ∷ more_calls) ≡ some (records, journal)
unfolding made records journal append_all create
made-records = refl

-- the journal of the first two records
unfoldable begun : Option (List DurableEvent × AppendOnlyJournal)
unfolding append_all create
begun =
    append_all lib (create "run-1" "task")
      (start_call ∷ change RuntimeState.created RuntimeState.resetting ∷ [])

unfoldable first_records : List DurableEvent
unfolding begun
first_records = (made_of begun).0

unfoldable first_journal : AppendOnlyJournal
unfolding begun
first_journal = (made_of begun).1

begun-AllReadable : AllReadable lib loads first_records
unfolding AllReadable first_records loads record_text is_unbroken
begun-AllReadable = (
  record { loaded = refl; full = refl; unbroken = refl },
  (record { loaded = refl; full = refl; unbroken = refl }, tt),
)

begun-append_all :
    append_all lib
      (create "run-1" "task")
      (start_call ∷ change RuntimeState.created RuntimeState.resetting ∷ [])
    ≡ some (first_records, first_journal)
unfolding begun first_records first_journal append_all create
begun-append_all = refl

read-append_all_example :
    read_and_validate_journal lib loads (decoded first_journal.content) ≡ valid first_records
read-append_all_example =
    read-append_all lib loads "run-1" "task" start_call
      (change RuntimeState.created RuntimeState.resetting ∷ []) first_records first_journal
      begun-append_all begun-AllReadable

first_read : read_and_validate_journal lib loads (decoded "record\n|record\n") ≡ valid first_records
unfolding read_and_validate_journal loads first_records read_lines
first_read = refl

-- the same records, with other line boundaries
first_read_crlf :
    read_and_validate_journal lib loads (decoded "record\r\n|record\n") ≡ valid first_records
unfolding read_and_validate_journal loads first_records read_lines
first_read_crlf = refl

-- A record that was changed after it was written does not keep its place in the chain.
moved_record :
    read_and_validate_journal lib loads (decoded "|record\nrecord\n")
    ≡ invalid "journal sequence is not continuous"
unfolding read_and_validate_journal loads read_lines
moved_record = refl

read_and_validate_journal-IsChained_example : IsChained lib none 0 first_records
read_and_validate_journal-IsChained_example =
    read_and_validate_journal-IsChained lib loads (decoded "record\n|record\n") first_records
      first_read

records-IsCollisionFree : IsCollisionFree first_records first_records
unfolding IsCollisionFree first_records
records-IsCollisionFree = (λ _. refl, (λ _. refl, tt))

final_hash_pins_example : first_records ≡ first_records
final_hash_pins_example =
    final_hash_pins lib loads (decoded "record\n|record\n") (decoded "record\r\n|record\n")
      first_records first_records first_read first_read_crlf refl refl records-IsCollisionFree

abbrev config : RuntimeConfig
config = record {
  mode = safeguarded;
  max_steps = 8;
  max_tool_calls = 8;
  timeout_seconds = 30;
  retry_enabled = true;
  max_attempts = 2;
  retry_backoff_seconds = 1 ∷ [];
  idempotency_enabled = true;
  schedule_id = "none";
  schedule_fingerprint = some digest;
  seed = pos 7;
}

abbrev result : DurableResult
result = record {
  run_id = "run-1";
  task_id = "task";
  terminal_state = RuntimeState.succeeded;
  identity = record {
    task_id = "task";
    fixture_id = "fixture";
    fixture_fingerprint = digest;
    config_fingerprint = digest;
    failure_schedule_id = "none";
    failure_schedule_fingerprint = digest;
    interruption_schedule_id = none;
    interruption_schedule_fingerprint = none;
    checkpointing = off;
    seed = pos 7;
  };
  runtime_config = config;
  verifier = record { passed = true; score = 1; checks = [] };
  usage = record {
    steps = 0;
    tool_calls = 0;
    physical_executions = 0;
    physical_write_executions = 0;
    side_effect_executions = 0;
    duplicate_side_effects = 0;
    retries = 0;
    idempotency_hits = 0;
    backoff_seconds = 0;
    elapsed_seconds = 0;
  };
  resumed = false;
  segment_count = 1;
  checkpoint_id = none;
  checkpoint_step = none;
  journal_record_count = 8;
  journal_final_hash = digest;
}

abbrev directory : RunDirectory
unfolding journal
directory = record {
  events = decoded journal.content;
  checkpoint = absent;
  result = loaded result;
  workspace = none;
}

abbrev verdict : TrajectoryValidationResult
verdict = record {
  status = valid_completed;
  run_id = "run-1";
  task_id = "task";
  record_count = 8;
  final_hash = digest;
  segment_count = 1;
  terminal_state = some RuntimeState.succeeded;
  verifier_passed = some true;
  checkpoint_id = none;
}

directory_validates : validate_trajectory lib loads dump directory ≡ passed verdict
unfolding validate_trajectory validate_records and_then refuse_if loads records journal record_text
    read_lines verifier_summary_digest durable_result_summary_digest
directory_validates = refl

validate_trajectory-IsTrajectory_example : IsTrajectory lib loads directory.events verdict
validate_trajectory-IsTrajectory_example =
    validate_trajectory-IsTrajectory lib loads dump directory verdict directory_validates

directory_reads : read_and_validate_journal lib loads directory.events ≡ valid records
unfolding read_and_validate_journal loads records journal record_text read_lines
directory_reads = refl

validated_passes_every_stage_example :
    (contains (targets records) RuntimeState.resetting ≡ true)
    × (contains (targets records) RuntimeState.ready ≡ true)
    × (contains (targets records) RuntimeState.deciding ≡ true)
    × (contains (targets records) RuntimeState.verifying ≡ true)
validated_passes_every_stage_example =
    validated_passes_every_stage lib loads dump directory verdict records directory_validates refl
      directory_reads
