-- ===== src/DataOps/Store.antt =====
-- dataops_environment.py: what the environment asks of the SQLite connection, and the order of names.
use Prim.Native.Char.{code}
use Prim.Native.String.{String}
use agent_learning_loop.Base.{
  ℕ, Bool, true, false, Option, List, [], ◌∷◌, JsonValue, nat_beq, ltb, if◌then◌else◌, ◌≡◌,
}
use agent_learning_loop.DataOps.Contracts.{Row, DataOpsTableFixture}

-- What a statement that writes does: it changes rows, or raises and leaves the database as it was.
pub data Statement (D : Type 0) : Type 0 where
  changed : ℕ → D → Statement D
  integrity_error : Statement D
  sqlite_error : Statement D

-- SQLite, by the statements that the environment executes. The names that stand in a statement are
-- those of a validated fixture, which `_quoted` accepts. A failing disk is left out.
pub record Sql : Type 1 where
  pub Db : Type 0
  -- CREATE TABLE and INSERT for each table of the fixture
  pub create_database : List DataOpsTableFixture → Db
  -- SELECT * FROM the table ORDER BY the column
  pub select_all : String → String → Db → List Row
  -- SELECT the columns FROM the table WHERE ... ORDER BY the column LIMIT the count
  pub select : String → List String → Row → String → ℕ → Db → Option (List Row)
  -- SELECT the column FROM the table WHERE ... ORDER BY the column
  pub select_keys : String → String → Row → Db → Option (List JsonValue)
  -- UPDATE the table SET ... WHERE ...
  pub update : String → Row → Row → Db → Statement Db
  -- INSERT INTO the table
  pub insert_row : String → Row → Db → Statement Db
  pub begins : Db → Db
  pub commits : Db → Db
  pub rolls_back : Db → Db
  -- whether PRAGMA foreign_key_check gives rows
  pub has_foreign_key_errors : Db → Bool
  -- whether PRAGMA integrity_check gives "ok"
  pub is_intact : Db → Bool

-- The databases that stand in a transaction: after BEGIN, and after any statement that writes.
pub data InTransaction (sql : Sql) (d0 : sql.Db) : sql.Db → Type 0 where
  begun : InTransaction sql d0 (sql.begins d0)
  updated :
      {d d' : sql.Db} {table : String} {values where_row : Row} {n : ℕ}
      → InTransaction sql d0 d
      → sql.update table values where_row d ≡ changed n d'
      → InTransaction sql d0 d'
  inserted :
      {d d' : sql.Db} {table : String} {row : Row} {n : ℕ}
      → InTransaction sql d0 d
      → sql.insert_row table row d ≡ changed n d'
      → InTransaction sql d0 d'

-- ROLLBACK undoes what was written since BEGIN: every table reads as before.
abbrev pub RollsBack : Sql → Type 0
RollsBack sql =
    (d0 d : sql.Db) (table key : String)
    → InTransaction sql d0 d
    → sql.select_all table key (sql.rolls_back d) ≡ sql.select_all table key d0

-- `<=` of two texts: by their code points
abbrev text_leb : String → String → Bool
text_leb String.[] t = true
text_leb (String.◌∷◌ c s) String.[] = false
text_leb (String.◌∷◌ c s) (String.◌∷◌ d t) =
    let rest = text_leb s t in if nat_beq (code c) (code d) then rest else ltb (code c) (code d)

abbrev insert_by : {A : Type 0} → (A → String) → A → List A → List A
insert_by key x [] = x ∷ []
insert_by key x (y ∷ ys) =
    let rest = insert_by key x ys in if text_leb (key x) (key y) then x ∷ y ∷ ys else y ∷ rest

-- `sorted(xs, key=key)`
abbrev pub sort_by : {A : Type 0} → (A → String) → List A → List A
sort_by key [] = []
sort_by key (x ∷ xs) = insert_by key x (sort_by key xs)
