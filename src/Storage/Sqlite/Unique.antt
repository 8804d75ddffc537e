-- ===== src/Storage/Sqlite/Unique.antt =====
-- storage/src/sqlite_engine/migration.sql declares UNIQUE (tree, key): the statements keep it.
use knast.Base.{
  Text, text_eq_iff, Option, some, Bool, true, false, ◌||◌, List, [], ◌∷◌, ◌++◌, filter,
  if◌then◌else◌, ◌≡◌, refl, arith,
}
use knast.Storage.Sqlite.{
  Row, Table, at_cell, conflict, append_row, set_value, update_where, put_sql, remove_sql,
  try_insert_sql, cas_sql,
}
use knast.Storage.Sqlite.Laws.{IsUnique}

conflict-update :
    (t k : Text) (p : Row → Bool) (x : Option Text) (rows : List Row)
    → conflict t k (update_where p x rows) ≡ conflict t k rows
unfolding conflict update_where set_value
conflict-update t k p x [] = refl
conflict-update t k p x (r ∷ rs) = ground (arith, conflict-update t k p x rs)

update-IsUnique :
    (p : Row → Bool) (x : Option Text) (rows : List Row)
    → IsUnique rows
    → IsUnique (update_where p x rows)
unfolding update_where set_value
update-IsUnique p x [] u = tt
update-IsUnique p x (r ∷ rs) u =
    ground (arith, conflict-update r.tree r.key p x rs, update-IsUnique p x rs u.1)

conflict-append :
    (t k : Text) (rows : List Row) (r : Row)
    → conflict t k (rows ++ r ∷ []) ≡ (conflict t k rows || at_cell t k r)
unfolding conflict
conflict-append t k [] r = ground arith
conflict-append t k (x ∷ rs) r = ground (arith, conflict-append t k rs r)

at_cell_swap : (x r : Row) → at_cell x.tree x.key r ≡ at_cell r.tree r.key x
unfolding at_cell
at_cell_swap x r = ground (
  arith,
  text_eq_iff x.tree r.tree,
  text_eq_iff x.key r.key,
  text_eq_iff r.tree x.tree,
  text_eq_iff r.key x.key,
)

conflict-cons :
    (t k : Text) (x : Row) (rs : List Row)
    → conflict t k (x ∷ rs) ≡ (if at_cell t k x then true else conflict t k rs)
unfolding conflict
conflict-cons t k x rs = refl

append-IsUnique :
    (rows : List Row) (r : Row)
    → conflict r.tree r.key rows ≡ false
    → IsUnique rows
    → IsUnique (rows ++ r ∷ [])
append-IsUnique [] r h u = (unfold conflict in refl, tt)
append-IsUnique (x ∷ rs) r h u = ground (
  arith,
  conflict-cons r.tree r.key x rs,
  conflict-append x.tree x.key rs r,
  at_cell_swap x r,
  append-IsUnique rs r,
  u,
)

conflict-filter :
    (t k : Text) (p : Row → Bool) (rows : List Row)
    → conflict t k rows ≡ false
    → conflict t k (filter p rows) ≡ false
unfolding conflict
conflict-filter t k p [] h = refl
conflict-filter t k p (r ∷ rs) h = ground (arith, conflict-filter t k p rs)

filter-IsUnique : (p : Row → Bool) (rows : List Row) → IsUnique rows → IsUnique (filter p rows)
filter-IsUnique p [] u = tt
filter-IsUnique p (r ∷ rs) u =
    ground (arith, conflict-filter r.tree r.key p rs, filter-IsUnique p rs u.1)

append_row-IsUnique :
    (t k : Text) (x : Option Text) (c : Table)
    → conflict t k c.rows ≡ false
    → IsUnique c.rows
    → IsUnique (append_row t k x c).rows
unfolding append_row
append_row-IsUnique t k x c h u =
    append-IsUnique c.rows (record { id = c.next_id; tree = t; key = k; value = x }) h u

pub put_sql-IsUnique :
    (t k x : Text) (c : Table) → IsUnique c.rows → IsUnique (put_sql t k x c).rows
unfolding put_sql
put_sql-IsUnique t k x c u =
    ground
      (arith, update-IsUnique (at_cell t k) (some x) c.rows u, append_row-IsUnique t k (some x) c)

pub try_insert_sql-IsUnique :
    (t k : Text) (x : Option Text) (c : Table)
    → IsUnique c.rows
    → IsUnique (try_insert_sql t k x c).rows
unfolding try_insert_sql
try_insert_sql-IsUnique t k x c u = ground (arith, append_row-IsUnique t k x c)

pub cas_sql-IsUnique :
    (t k : Text) (old new : Option Text) (c : Table)
    → IsUnique c.rows
    → IsUnique (cas_sql t k old new c).0.rows
unfolding cas_sql
cas_sql-IsUnique t k old new c u = update-IsUnique _ new c.rows u

pub remove_sql-IsUnique :
    (t k : Text) (c : Table) → IsUnique c.rows → IsUnique (remove_sql t k c).rows
unfolding remove_sql
remove_sql-IsUnique t k c u = filter-IsUnique _ c.rows u
