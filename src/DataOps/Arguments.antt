-- ===== src/DataOps/Arguments.antt =====
-- dataops_schemas.py: the arguments of the tools, and their validation.
use agent_learning_loop.Base.{
  ℕ, String, Bool, true, false, not, ◌&&◌, Option, none, some, List, [], ◌∷◌, Dict, lookup, keys,
  subset, all, leb, JsonValue, int, str, arr, obj, Fields, end, field, Items, nil, cons, pos, ◌!=◌,
  ◌==◌, string_eq, if◌then◌else◌,
}
use agent_learning_loop.DataOps.Names.{
  DataOpsToolName, RollbackReason, ambiguous_match, constraint_conflict, stale_precondition,
  validation_failed,
}
use agent_learning_loop.DataOps.Contracts.{Row}

pub record QueryRowsArguments : Type 0 where
  pub table : String
  pub columns : List String
  pub where_row : Row
  pub limit : ℕ

pub record UpdateRowsArguments : Type 0 where
  pub transaction_id : String
  pub operation_id : String
  pub table : String
  pub where_row : Row
  pub values : Row
  pub expected_match_count : ℕ

pub record InsertRowArguments : Type 0 where
  pub transaction_id : String
  pub operation_id : String
  pub table : String
  pub row : Row

-- The arguments of each tool that has them validated.
pub data Arguments : Type 0 where
  describe : String → Arguments
  query : QueryRowsArguments → Arguments
  begins : String → Arguments
  update : UpdateRowsArguments → Arguments
  insertion : InsertRowArguments → Arguments
  validate : String → Arguments
  commit : String → Arguments
  rollback : String → RollbackReason → Arguments

-- `str = Field(min_length=1)`
abbrev text_of : Option JsonValue → Option String
text_of (some (str s)) = if s != "" then some s else none
text_of _ = none

abbrev unfields : Fields → Row
unfields end = []
unfields (field k v rest) = (k, v) ∷ unfields rest

-- `dict[str, JsonValue]`
abbrev row_of : Option JsonValue → Option Row
row_of (some (obj d)) = some (unfields d)
row_of _ = none

abbrev positive : ℕ → Option ℕ
positive n = if leb 1 n then some n else none

-- `int = Field(gt=0)`
abbrev count_of : Option JsonValue → Option ℕ
count_of (some (int (pos n))) = positive n
count_of _ = none

abbrev add_text : JsonValue → Option (List String) → Option (List String)
add_text (str s) (some ss) = some (s ∷ ss)
add_text _ _ = none

abbrev all_texts : Items → Option (List String)
all_texts nil = some []
all_texts (cons x xs) = add_text x (all_texts xs)

abbrev some_texts : Option (List String) → Option (List String)
some_texts (some (s ∷ ss)) = some (s ∷ ss)
some_texts _ = none

-- `list[str] = Field(min_length=1)`
abbrev texts_of : Option JsonValue → Option (List String)
texts_of (some (arr xs)) = some_texts (all_texts xs)
texts_of _ = none

abbrev parse_reason : Option String → Option RollbackReason
parse_reason none = none
parse_reason (some s) =
    if s == "ambiguous_match"
    then some ambiguous_match
    else if s == "constraint_conflict"
    then some constraint_conflict
    else if s == "stale_precondition"
    then some stale_precondition
    else if s == "validation_failed"
    then some validation_failed
    else none

-- `not isinstance(value, (dict, list))`
abbrev is_primitive : JsonValue → Bool
is_primitive (arr _) = false
is_primitive (obj _) = false
is_primitive _ = true

infixl 5 ◌>>=◌
abbrev ◌>>=◌ : {A B : Type 0} → Option A → (A → Option B) → Option B
none >>= f = none
some a >>= f = f a

abbrev values_of : Row → List JsonValue
values_of [] = []
values_of ((_, v) ∷ d) = v ∷ values_of d

-- `unsafe` is the search of `_SQL_LIKE` and of `_ABSOLUTE_PATH` in a text
module _ (unsafe : String → Bool) where
  abbrev is_safe : JsonValue → Bool
  is_safe (str s) = not (unsafe s)
  is_safe _ = true

  -- `_require_primitive_mapping` and `_require_safe_strings`
  abbrev accepts_row : Row → Bool
  accepts_row d = all is_primitive (values_of d) && all is_safe (values_of d)

  abbrev checked_row : Option Row → Option Row
  checked_row none = none
  checked_row (some d) = if accepts_row d then some d else none

  -- with `min_length=1`
  abbrev full_row : Option Row → Option Row
  full_row none = none
  full_row (some []) = none
  full_row (some (x ∷ d)) = checked_row (some (x ∷ d))

  abbrev parse_query : Dict JsonValue → Option Arguments
  unfolding lookup
  parse_query d = do
    table ← text_of (lookup "table" d)
    columns ← texts_of (lookup "columns" d)
    where_row ← checked_row (row_of (lookup "where" d))
    limit ← count_of (lookup "limit" d)
    if leb limit 100
        then some (
            query
              (record { table = table; columns = columns; where_row = where_row; limit = limit }))
        else none

  abbrev parse_update : Dict JsonValue → Option Arguments
  unfolding lookup
  parse_update d = do
    transaction_id ← text_of (lookup "transaction_id" d)
    operation_id ← text_of (lookup "operation_id" d)
    table ← text_of (lookup "table" d)
    where_row ← full_row (row_of (lookup "where" d))
    values ← full_row (row_of (lookup "values" d))
    count ← count_of (lookup "expected_match_count" d)
    some (
        update (record {
          transaction_id = transaction_id;
          operation_id = operation_id;
          table = table;
          where_row = where_row;
          values = values;
          expected_match_count = count;
        }))

  abbrev parse_insert : Dict JsonValue → Option Arguments
  unfolding lookup
  parse_insert d = do
    transaction_id ← text_of (lookup "transaction_id" d)
    operation_id ← text_of (lookup "operation_id" d)
    table ← text_of (lookup "table" d)
    row ← full_row (row_of (lookup "row" d))
    some (
        insertion (record {
          transaction_id = transaction_id;
          operation_id = operation_id;
          table = table;
          row = row;
        }))

  abbrev parse_rollback : Dict JsonValue → Option Arguments
  unfolding lookup
  parse_rollback d = do
    transaction_id ← text_of (lookup "transaction_id" d)
    reason ← parse_reason (text_of (lookup "reason_category" d))
    some (rollback transaction_id reason)

  abbrev parse_named : (String → Arguments) → String → Dict JsonValue → Option Arguments
  unfolding lookup
  parse_named make name d = do value ← text_of (lookup name d); some (make value)

  -- no field that the model does not have
  abbrev only : List String → Dict JsonValue → Option Arguments → Option Arguments
  only names d parsed = if subset (keys d) names then parsed else none

  -- `TOOL_ARGUMENT_MODELS[tool_name].model_validate(arguments)`
  unfoldable pub parse : DataOpsToolName → Dict JsonValue → Option Arguments
  unfolding parse_named parse_query parse_update parse_insert parse_rollback
  parse DataOpsToolName.describe_table d = only ("table" ∷ []) d (parse_named describe "table" d)
  parse DataOpsToolName.query_rows d =
      only ("table" ∷ "columns" ∷ "where" ∷ "limit" ∷ []) d (parse_query d)
  parse DataOpsToolName.begin_transaction d =
      only ("transaction_id" ∷ []) d (parse_named begins "transaction_id" d)
  parse DataOpsToolName.update_rows d =
      only
        ("transaction_id" ∷ "operation_id" ∷ "table" ∷ "where" ∷ "values" ∷ "expected_match_count"
          ∷ [])
        d (parse_update d)
  parse DataOpsToolName.insert_row d =
      only ("transaction_id" ∷ "operation_id" ∷ "table" ∷ "row" ∷ []) d (parse_insert d)
  parse DataOpsToolName.validate_constraints d =
      only ("transaction_id" ∷ []) d (parse_named validate "transaction_id" d)
  parse DataOpsToolName.commit_transaction d =
      only ("transaction_id" ∷ []) d (parse_named commit "transaction_id" d)
  parse DataOpsToolName.rollback_transaction d =
      only ("transaction_id" ∷ "reason_category" ∷ []) d (parse_rollback d)
