-- ===== src/DataOps/Memory.antt =====
-- A database in memory, for the tests of dataops_environment.py.
use agent_learning_loop.Base.{
  ℕ, String, Bool, true, false, Option, none, some, List, [], ◌∷◌, ◌++◌, lookup, insert, all,
  filterb, map, length, JsonValue, null, int, str, pos, string_eq, nat_beq, ◌==◌, if◌then◌else◌,
  ◌≡◌, refl, sym, ap, ◌∙◌,
}
use agent_learning_loop.DataOps.Names.{dataops_tool_eq}
use agent_learning_loop.DataOps.Contracts.{Row, DataOpsTableFixture}
use agent_learning_loop.DataOps.Store.{
  Sql, Statement, changed, integrity_error, InTransaction, begun, updated, inserted, RollsBack,
}
use agent_learning_loop.DataOps.Environment.{Tables}

-- the tables as they are, and as they were at BEGIN
pub record Memory : Type 0 where
  pub current : Tables
  pub saved : Tables

abbrev pub rows_in : String → Tables → List Row
unfolding lookup
rows_in table tables = or_empty (lookup table tables)
  where
    or_empty : Option (List Row) → List Row
    or_empty none = []
    or_empty (some rows) = rows

abbrev pub same_value : JsonValue → JsonValue → Bool
same_value (int (pos m)) (int (pos n)) = nat_beq m n
same_value (str s) (str t) = s == t
same_value null null = true
same_value _ _ = false

abbrev pub value_in : String → Row → JsonValue
unfolding lookup
value_in name row = or_null (lookup name row)
  where
    or_null : Option JsonValue → JsonValue
    or_null none = null
    or_null (some v) = v

abbrev matches : Row → Row → Bool
matches where_row row =
    all (λ (x : String × JsonValue). same_value (value_in x.0 row) x.1) where_row

abbrev pub set_all : Row → Row → Row
unfolding insert
set_all [] row = row
set_all ((k, v) ∷ d) row = set_all d (insert k v row)

unfoldable pub with_rows : String → List Row → Memory → Memory
unfolding insert
with_rows table rows d = record d { current = insert table rows d.current }

abbrev add_if : List Row → String → Row → Memory → Statement Memory
add_if [] table row d = changed 1 (with_rows table (rows_in table d.current ++ row ∷ []) d)
add_if (_ ∷ _) table row d = integrity_error

-- a row whose "id" is taken is refused
abbrev add_row : String → Row → Memory → Statement Memory
add_row table row d =
    add_if (filterb (matches (("id", value_in "id" row) ∷ [])) (rows_in table d.current)) table row
      d

abbrev initial_of : List DataOpsTableFixture → Tables
initial_of [] = []
initial_of (t ∷ ts) = (t.name, t.rows) ∷ initial_of ts

abbrev pub memory : Sql
memory = record {
  Db = Memory;
  create_database = λ ts. record { current = initial_of ts; saved = [] };
  select_all = λ table _ d. rows_in table d.current;
  select =
      λ table columns where_row _ _ d. some (filterb (matches where_row) (rows_in table d.current));
  select_keys = λ table key where_row d.
      some (map (value_in key) (filterb (matches where_row) (rows_in table d.current)));
  update = λ table values where_row d.
      changed (length (filterb (matches where_row) (rows_in table d.current))) (
        with_rows table
          (map (λ row. if matches where_row row then set_all values row else row)
            (rows_in table d.current))
          d);
  insert_row = add_row;
  begins = λ d. record { current = d.current; saved = d.current };
  commits = λ d. d;
  rolls_back = λ d. record { current = d.saved; saved = d.saved };
  has_foreign_key_errors = λ _. false;
  is_intact = λ _. true;
}

abbrev saved_by : Statement Memory → Tables
saved_by (changed _ d) = d.saved
saved_by _ = []

add_if_keeps :
    (taken : List Row) (table : String) (row : Row) (n : ℕ) (d d' : Memory)
    → add_if taken table row d ≡ changed n d'
    → d'.saved ≡ d.saved
unfolding with_rows
add_if_keeps [] table row n d d' h = ap saved_by (sym h)
add_if_keeps (x ∷ taken) table row n d d' h = cc h

saved_kept : (d0 d : Memory) → InTransaction memory d0 d → d.saved ≡ d0.current
unfolding with_rows
saved_kept d0 d begun = refl
saved_kept d0 d (updated i made) = ap saved_by (sym made) ∙ saved_kept d0 _ i
saved_kept d0 d (inserted i made) = add_if_keeps _ _ _ _ _ d made ∙ saved_kept d0 _ i

pub memory-RollsBack : RollsBack memory
memory-RollsBack d0 d table key i = ap (rows_in table) (saved_kept d0 d i)
