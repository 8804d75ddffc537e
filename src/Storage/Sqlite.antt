-- ===== src/Storage/Sqlite.antt =====
-- storage/src/sqlite_engine.rs and the statements of storage/src/sqlite_engine/*.sql. The table is
-- a list of rows. Every call of rusqlite and of the pool that returns a result may fail:
-- `outcomes` says how the calls end that are still to come.
pub mod Laws
pub mod Unique
pub mod Tables
pub mod Calls
pub mod Methods
pub mod Contract
use knast.Base.{
  ℕ, ◌+◌, Text, codes, text_eq, Option, none, some, Bool, true, false, ◌&&◌, List, [], ◌∷◌, ◌++◌,
  map, any, filter, find, not, if◌then◌else◌,
}
use knast.Base.Exec.{Exec, Result, ok, err, Error, message, pure, lift, raise, ◌>>=◌, ◌>>◌}
use knast.Storage.{StorageEngine}

pub record Row : Type 0 where
  pub id : ℕ
  pub tree : Text
  pub key : Text
  pub value : Option Text

pub record Table : Type 0 where
  pub rows : List Row
  pub next_id : ℕ

-- The outcomes of the calls in turn; behind the last one, every call succeeds.
pub record Connection : Type 0 where
  pub table : Table
  pub outcomes : List (Option Error)

-- `tree = :tree AND key = :key`
unfoldable pub at_cell : Text → Text → Row → Bool
at_cell tree key row = (text_eq tree row.tree) && (text_eq key row.key)

-- `value IS :value`, which compares NULL to NULL as equal.
unfoldable pub is : Option Text → Option Text → Bool
is none none = true
is (some x) (some y) = text_eq x y
is _ _ = false

-- A violation of UNIQUE (tree, key).
unfoldable pub conflict : Text → Text → List Row → Bool
unfolding at_cell
conflict tree key = any (at_cell tree key)

append_row : Text → Text → Option Text → Table → Table
append_row tree key value c = record c {
  rows = c.rows ++ record { id = c.next_id; tree = tree; key = key; value = value } ∷ [];
  next_id = c.next_id + 1;
}

pub set_value : Option Text → Row → Row
set_value value row = record row { value = value }

-- UPDATE storage SET value = :value WHERE ..
unfoldable pub update_where : (Row → Bool) → Option Text → List Row → List Row
unfolding set_value
update_where p value [] = []
update_where p value (row ∷ rows) =
    (if p row then set_value value row else row) ∷ update_where p value rows

-- migration.sql on a new file
abbrev pub migration : Connection
migration = record { table = record { rows = []; next_id = 1 }; outcomes = [] }

-- put.sql
pub put_sql : Text → Text → Text → Table → Table
unfolding conflict append_row update_where at_cell
put_sql tree key value c =
    if conflict tree key c.rows
    then record c { rows = update_where (at_cell tree key) (some value) c.rows }
    else append_row tree key (some value) c

-- get.sql: the value of the first row, if there is a row
pub get_sql : Text → Text → List Row → Option (Option Text)
unfolding at_cell
get_sql tree key [] = none
get_sql tree key (row ∷ rows) =
    if at_cell tree key row then some row.value else get_sql tree key rows

-- exists.sql
pub exists_sql : Text → Text → List Row → Bool
unfolding conflict
exists_sql tree key rows = conflict tree key rows

-- remove.sql
pub remove_sql : Text → Text → Table → Table
unfolding at_cell
remove_sql tree key c = record c { rows = filter (λ row. not (at_cell tree key row)) c.rows }

-- try_insert.sql
pub try_insert_sql : Text → Text → Option Text → Table → Table
unfolding conflict append_row
try_insert_sql tree key old_value c =
    if conflict tree key c.rows then c else append_row tree key old_value c

-- the rows that cas.sql updates
unfoldable pub swappable : Text → Text → Option Text → Row → Bool
unfolding at_cell is
swappable tree key old_value row = at_cell tree key row && is row.value old_value

-- cas.sql: the new table and the ids that RETURNING lists
pub cas_sql : Text → Text → Option Text → Option Text → Table → Table × List ℕ
unfolding swappable update_where
cas_sql tree key old_value new_value c = (
  record c { rows = update_where (swappable tree key old_value) new_value c.rows },
  map (λ (row : Row). row.id) (filter (swappable tree key old_value) c.rows),
)

-- A call that returns a result, and with an error ends the method by `?`.
pub call : Exec Connection (Unit {0})
call c = elim c.outcomes [
  | [] ↦ (ok tt, c)
  | outcome ∷ outcomes ↦
      ((elim outcome [ none ↦ ok tt | some e ↦ err e ]), record c { outcomes = outcomes })
]

-- What a statement does to the table, and what it returns.
pub statement : {A : Type 0} → (Table → A × Table) → Exec Connection A
statement f c = let (a, table) = f c.table in (ok a, record c { table = table })

-- `row.get(0)?` at the type Vec<u8>, which refuses NULL, under `results.next().transpose()`
read_row : Option (Option Text) → Result (Option Text)
read_row none = ok none
read_row (some none) = err (message (codes "Invalid column type Null at index: 0, name: value"))
read_row (some (some bytes)) = ok (some bytes)

-- `self.get`, `prepare_cached`, `query_map` and `next`
pub get : Text → Text → Exec Connection (Option Text)
unfolding call statement read_row get_sql
get collection key = do
  call
  call
  call
  call
  row ← statement (λ t. (get_sql collection key t.rows, t))
  lift (read_row row)

-- `self.get`, `prepare_cached` and `execute`, which with an error has done nothing
pub put : Text → Text → Text → Exec Connection (Unit {0})
unfolding call statement put_sql
put collection key value = do
  call
  call
  call
  statement (λ t. (tt, put_sql collection key value t))

pub conflict_error : Error
conflict_error = message (codes "Compare and swap conflict")

-- `rows.next()?.is_none()`
expect_row : List ℕ → Exec Connection (Unit {0})
unfolding conflict_error
expect_row [] = raise conflict_error
expect_row (id ∷ ids) = pure tt

-- In the transaction: `prepare_cached` and `execute`, `prepare_cached`, `query` and `next`, and
-- `commit`.
swap_body : Text → Text → Option Text → Option Text → Exec Connection (Unit {0})
unfolding call statement expect_row try_insert_sql cas_sql
swap_body collection key old_value new_value = do
  call
  call
  statement (λ t. (tt, try_insert_sql collection key old_value t))
  call
  call
  call
  ids ←
      statement
        (λ t. let (table, ids) = cas_sql collection key old_value new_value t in (ids, table))
  expect_row ids
  call

-- A transaction that is dropped before its commit leaves the table as it was.
rolled_back : Table → Result (Unit {0}) × Connection → Result (Unit {0}) × Connection
rolled_back table (ok tt, c) = (ok tt, c)
rolled_back table (err e, c) = (err e, record c { table = table })

transaction : Text → Text → Option Text → Option Text → Exec Connection (Unit {0})
unfolding swap_body rolled_back
transaction collection key old_value new_value c =
    rolled_back c.table (swap_body collection key old_value new_value c)

-- `self.get` and `transaction`
pub compare_and_swap : Text → Text → Option Text → Option Text → Exec Connection (Unit {0})
unfolding call transaction
compare_and_swap collection key old_value new_value = do
  call
  call
  transaction collection key old_value new_value

pub remove : Text → Text → Exec Connection (Unit {0})
unfolding call statement remove_sql
remove collection key = do call; call; call; statement (λ t. (tt, remove_sql collection key t))

pub exists : Text → Text → Exec Connection Bool
unfolding call statement exists_sql
exists collection key = do
  call
  call
  call
  call
  statement (λ t. (exists_sql collection key t.rows, t))

pub flush : Exec Connection ℕ
flush = pure 0

abbrev pub engine : StorageEngine
engine = record {
  Db = Connection;
  get = get;
  put = put;
  compare_and_swap = compare_and_swap;
  remove = remove;
  exists = exists;
  flush = flush;
}
