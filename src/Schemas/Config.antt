-- ===== src/Schemas/Config.antt =====
-- runtime_schemas.py: `RuntimeConfig`, its validator and `for_mode`. Times are ticks, so that the
-- validator's test for negative delays has nothing to refuse.
use Prim.Native.Char.{code}
use agent_learning_loop.Base.{
  zero, suc, ◌||◌, ◌!=◌, string_eq, ℕ, ◌-◌, ℤ, String, Bool, true, false, not, ◌&&◌, List, [], ◌∷◌,
  Option, none, some, ◌==◌, nat_eq, bool_eq, ltb, leb, length, if◌then◌else◌,
}

pub data RuntimeMode : Type 0 where
  naive retry_only safeguarded : RuntimeMode

-- `RuntimeMode.value`
abbrev pub mode_text : RuntimeMode → String
mode_text naive = "naive"
mode_text retry_only = "retry_only"
mode_text safeguarded = "safeguarded"

pub record RuntimeConfig : Type 0 where
  pub mode : RuntimeMode
  pub max_steps : ℕ
  pub max_tool_calls : ℕ
  pub timeout_seconds : ℕ
  pub retry_enabled : Bool
  pub max_attempts : ℕ
  pub retry_backoff_seconds : List ℕ
  pub idempotency_enabled : Bool
  pub schedule_id : String
  pub schedule_fingerprint : Option String
  pub seed : ℤ

-- (retry_enabled, idempotency_enabled, max_attempts), as `switches_match_mode` expects them
abbrev expected_switches : RuntimeMode → Bool × Bool × ℕ
expected_switches naive = (false, false, 1)
expected_switches retry_only = (true, false, 2)
expected_switches safeguarded = (true, true, 2)

abbrev switches_agree : RuntimeConfig → Bool × Bool × ℕ → Bool
switches_agree c (retry, idempotency, attempts) =
    c.retry_enabled == retry && c.idempotency_enabled == idempotency && c.max_attempts == attempts

abbrev is_hex_digit : ℕ → Bool
is_hex_digit c = (leb b'0' c && leb c b'9') || (leb b'a' c && leb c b'f')

abbrev is_hex : ℕ → String → Bool
is_hex zero String.[] = true
is_hex (suc n) (String.◌∷◌ c s) = is_hex_digit (code c) && is_hex n s
is_hex _ _ = false

-- the pattern `^[0-9a-f]{64}$` of an optional fingerprint
abbrev pub accepts_fingerprint : Option String → Bool
accepts_fingerprint none = true
accepts_fingerprint (some s) = is_hex 64 s

-- the `Field` bounds and `switches_match_mode`
unfoldable pub accepts_config : RuntimeConfig → Bool
accepts_config c =
    leb 1 c.max_steps
    && leb 1 c.max_tool_calls
    && ltb 0 c.timeout_seconds
    && leb 1 c.max_attempts
    && c.schedule_id != ""
    && accepts_fingerprint c.schedule_fingerprint
    && switches_agree c (expected_switches c.mode)
    && not (c.retry_enabled && ltb (length c.retry_backoff_seconds) (c.max_attempts - 1))
    && not (not c.retry_enabled && ltb 0 (length c.retry_backoff_seconds))

abbrev retries_in : RuntimeMode → Bool
retries_in naive = false
retries_in _ = true

abbrev idempotent_in : RuntimeMode → Bool
idempotent_in safeguarded = true
idempotent_in _ = false

-- `list(retry_backoff_seconds or [0.0])`: an empty plan is falsy
abbrev plan_or_default : Option (List ℕ) → List ℕ
plan_or_default none = 0 ∷ []
plan_or_default (some []) = 0 ∷ []
plan_or_default (some (d ∷ ds)) = d ∷ ds

-- `RuntimeConfig.for_mode`, before validation
unfoldable pub for_mode :
    RuntimeMode → String → ℤ → Option String → ℕ → ℕ → ℕ → Option (List ℕ) → RuntimeConfig
for_mode mode schedule_id seed fingerprint max_steps max_tool_calls timeout plan =
    let retry_enabled = retries_in mode in
    record {
      mode = mode;
      max_steps = max_steps;
      max_tool_calls = max_tool_calls;
      timeout_seconds = timeout;
      retry_enabled = retry_enabled;
      max_attempts = if retry_enabled then 2 else 1;
      retry_backoff_seconds = if retry_enabled then plan_or_default plan else [];
      idempotency_enabled = idempotent_in mode;
      schedule_id = schedule_id;
      schedule_fingerprint = fingerprint;
      seed = seed;
    }
