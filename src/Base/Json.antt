-- ===== src/Base/Json.antt =====
-- JSON values, and the canonical digests of agent_learning_loop/canonical.py.
use Prim.Native.Nat.{ℕ}
use Prim.Native.String.{String}
use mathlib.Core.Bool.{Bool}
use mathlib.Core.List.{List, [], ◌∷◌}
use agent_learning_loop.Base.Integers.{ℤ}
use agent_learning_loop.Base.Mapping.{Dict}

-- A float is a whole number of ticks of one fixed scale.
mutual
  pub data JsonValue : Type 0 where
    null : JsonValue
    bool : Bool → JsonValue
    int : ℤ → JsonValue
    float : ℤ → JsonValue
    str : String → JsonValue
    arr : Items → JsonValue
    obj : Fields → JsonValue

  pub data Items : Type 0 where
    nil : Items
    cons : JsonValue → Items → Items

  pub data Fields : Type 0 where
    end : Fields
    field : String → JsonValue → Fields → Fields

abbrev pub fields : Dict JsonValue → Fields
fields [] = end
fields ((k, v) ∷ d) = field k v (fields d)

abbrev pub items : List JsonValue → Items
items [] = nil
items (x ∷ xs) = cons x (items xs)

-- The standard library: `json.dumps` with the options of `canonical_json_bytes`, `hashlib.sha256`
-- followed by `hexdigest`, and `str` of a non-negative integer.
pub record Stdlib : Type 0 where
  pub dumps : JsonValue → String
  pub sha256_hex : String → String
  pub decimal : ℕ → String

-- `canonical_json_bytes`
unfoldable pub canonical_json_bytes : Stdlib → JsonValue → String
canonical_json_bytes lib payload = lib.dumps payload

-- `canonical_sha256`
unfoldable pub canonical_sha256 : Stdlib → JsonValue → String
unfolding canonical_json_bytes
canonical_sha256 lib payload = lib.sha256_hex (canonical_json_bytes lib payload)
