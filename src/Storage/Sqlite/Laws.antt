-- ===== src/Storage/Sqlite/Laws.antt =====
-- What each statement of storage/src/sqlite_engine/*.sql does to the cells of the table.
use knast.Base.{
  ℕ, Text, text_eq, text_eq_iff, text_eq_refl, Option, none, some, Bool, true, false, ◌&&◌, List,
  [], ◌∷◌, ◌++◌, filter, not, if◌then◌else◌, ◌≡◌, refl, arith,
}
use knast.Storage.Sqlite.{
  Row, Table, at_cell, is, conflict, append_row, set_value, update_where, put_sql, get_sql,
  remove_sql, try_insert_sql, swappable,
}

-- The cell (t, k) is the cell (t', k').
unfoldable pub same : Text → Text → Text → Text → Bool
same t k t' k' = text_eq t t' && text_eq k k'

pub same_refl : (t k : Text) → same t k t k ≡ true
unfolding same
same_refl t k = ground (arith, text_eq_refl t, text_eq_refl k)

at_cell-same :
    (t k t' k' : Text) (r : Row) → at_cell t k r ≡ true → at_cell t' k' r ≡ same t k t' k'
unfolding at_cell same
at_cell-same t k t' k' r h = ground (
  arith,
  text_eq_iff t r.tree,
  text_eq_iff k r.key,
  text_eq_iff t t',
  text_eq_iff k k',
  text_eq_iff t' r.tree,
  text_eq_iff k' r.key,
)

at_cell_other :
    (t k t' k' : Text) (r : Row)
    → at_cell t k r ≡ false
    → at_cell t' k' r ≡ true
    → same t k t' k' ≡ false
unfolding at_cell same
at_cell_other t k t' k' r h g = ground (
  arith,
  text_eq_iff t r.tree,
  text_eq_iff k r.key,
  text_eq_iff t t',
  text_eq_iff k k',
  text_eq_iff t' r.tree,
  text_eq_iff k' r.key,
)

abbrev pub is_some : Option (Option Text) → Bool
is_some none = false
is_some (some x) = true

-- A row is there exactly when the cell has a value or NULL.
pub conflict-get : (t k : Text) (rows : List Row) → conflict t k rows ≡ is_some (get_sql t k rows)
unfolding conflict get_sql
conflict-get t k [] = refl
conflict-get t k (r ∷ rs) = ground (arith, conflict-get t k rs)

get-append :
    (t k : Text) (rows : List Row) (r : Row)
    → get_sql t k (rows ++ r ∷ []) ≡ (elim (get_sql t k rows) [
      | some x ↦ some x
      | none ↦ if at_cell t k r then some r.value else none
    ])
unfolding get_sql
get-append t k [] r = ground arith
get-append t k (x ∷ rs) r = ground (arith, get-append t k rs r)

at_cell-set_value :
    (t k : Text) (x : Option Text) (r : Row) → at_cell t k (set_value x r) ≡ at_cell t k r
unfolding at_cell set_value
at_cell-set_value t k x r = refl

value-set_value : (x : Option Text) (r : Row) → (set_value x r).value ≡ x
unfolding set_value
value-set_value x r = refl

get-update :
    (t k t' k' : Text) (x : Option Text) (rows : List Row)
    → get_sql t' k' (update_where (at_cell t k) x rows)
      ≡ (if same t k t' k' && conflict t k rows then some x else get_sql t' k' rows)
unfolding get_sql update_where conflict
get-update t k t' k' x [] = ground arith
get-update t k t' k' x (r ∷ rs) = ground (
  arith,
  at_cell-same t k t' k' r,
  at_cell_other t k t' k' r,
  at_cell-set_value t' k' x r,
  value-set_value x r,
  get-update t k t' k' x rs,
)

get_same :
    (t k t' k' : Text) (rows : List Row)
    → same t k t' k' ≡ true
    → get_sql t k rows ≡ get_sql t' k' rows
unfolding same
get_same t k t' k' rows h = ground (arith, text_eq_iff t t', text_eq_iff k k')

at_cell_new :
    (t k t' k' : Text) (x : Option Text) (i : ℕ)
    → at_cell t' k' (record { id = i; tree = t; key = k; value = x }) ≡ same t k t' k'
unfolding at_cell same
at_cell_new t k t' k' x i =
    ground (arith, text_eq_iff t t', text_eq_iff k k', text_eq_iff t' t, text_eq_iff k' k)

-- put.sql sets its cell and leaves the others.
pub get-put_sql :
    (t k x t' k' : Text) (c : Table)
    → get_sql t' k' (put_sql t k x c).rows
      ≡ (if same t k t' k' then some (some x) else get_sql t' k' c.rows)
unfolding put_sql append_row
get-put_sql t k x t' k' c = ground (
  arith,
  get-update t k t' k' (some x) c.rows,
  get-append t' k' c.rows (record { id = c.next_id; tree = t; key = k; value = some x }),
  at_cell_new t k t' k' (some x) c.next_id,
  conflict-get t k c.rows,
  get_same t k t' k' c.rows,
)

-- remove.sql empties its cell and leaves the others.
get-filter :
    (t k t' k' : Text) (rows : List Row)
    → get_sql t' k' (filter (λ row. not (at_cell t k row)) rows)
      ≡ (if same t k t' k' then none else get_sql t' k' rows)
unfolding get_sql
get-filter t k t' k' [] = ground arith
get-filter t k t' k' (r ∷ rs) =
    ground (arith, at_cell-same t k t' k' r, at_cell_other t k t' k' r, get-filter t k t' k' rs)

pub get-remove_sql :
    (t k t' k' : Text) (c : Table)
    → get_sql t' k' (remove_sql t k c).rows
      ≡ (if same t k t' k' then none else get_sql t' k' c.rows)
unfolding remove_sql
get-remove_sql t k t' k' c = get-filter t k t' k' c.rows

-- try_insert.sql fills its cell only if there is no row for it.
pub get-try_insert_sql :
    (t k : Text) (old : Option Text) (t' k' : Text) (c : Table)
    → get_sql t' k' (try_insert_sql t k old c).rows ≡ (
        if same t k t' k' && not (is_some (get_sql t k c.rows))
        then some old
        else get_sql t' k' c.rows)
unfolding try_insert_sql append_row
get-try_insert_sql t k old t' k' c = ground (
  arith,
  get-append t' k' c.rows (record { id = c.next_id; tree = t; key = k; value = old }),
  at_cell_new t k t' k' old c.next_id,
  conflict-get t k c.rows,
  get_same t k t' k' c.rows,
)

-- UNIQUE (tree, key)
abbrev pub IsUnique : List Row → Type 0
IsUnique [] = Unit {0}
IsUnique (r ∷ rs) = (conflict r.tree r.key rs ≡ false) × IsUnique rs

conflict_at :
    (t k : Text) (r : Row) (rs : List Row)
    → at_cell t k r ≡ true
    → conflict t k rs ≡ conflict r.tree r.key rs
unfolding at_cell
conflict_at t k r rs h = ground (arith, text_eq_iff t r.tree, text_eq_iff k r.key)

update-swappable_none :
    (t k : Text) (old new : Option Text) (rows : List Row)
    → conflict t k rows ≡ false
    → update_where (swappable t k old) new rows ≡ rows
unfolding update_where conflict swappable
update-swappable_none t k old new [] h = refl
update-swappable_none t k old new (r ∷ rs) h = ground (arith, update-swappable_none t k old new rs)

filter-swappable_none :
    (t k : Text) (old : Option Text) (rows : List Row)
    → conflict t k rows ≡ false
    → filter (swappable t k old) rows ≡ []
unfolding conflict swappable
filter-swappable_none t k old [] h = refl
filter-swappable_none t k old (r ∷ rs) h = ground (arith, filter-swappable_none t k old rs)

-- The cell is there and its value is the old one.
unfoldable pub expects : Option Text → Option (Option Text) → Bool
expects old none = false
expects old (some x) = is x old

pub update-swappable :
    (t k : Text) (old new : Option Text) (t' k' : Text) (rows : List Row)
    → IsUnique rows
    → get_sql t' k' (update_where (swappable t k old) new rows)
      ≡ (if same t k t' k' && expects old (get_sql t k rows) then some new else get_sql t' k' rows)
unfolding update_where get_sql swappable expects
update-swappable t k old new t' k' [] u = ground arith
update-swappable t k old new t' k' (r ∷ rs) u = ground (
  arith,
  at_cell-same t k t' k' r,
  at_cell_other t k t' k' r,
  at_cell-set_value t' k' new r,
  value-set_value new r,
  conflict_at t k r rs,
  update-swappable_none t k old new rs,
  update-swappable t k old new t' k' rs u.1,
)

abbrev pub is_nil {ℓ} : {A : Type ℓ} → List A → Bool
is_nil [] = true
is_nil (x ∷ xs) = false

pub filter-swappable :
    (t k : Text) (old : Option Text) (rows : List Row)
    → IsUnique rows
    → is_nil (filter (swappable t k old) rows) ≡ not (expects old (get_sql t k rows))
unfolding get_sql swappable expects
filter-swappable t k old [] u = refl
filter-swappable t k old (r ∷ rs) u =
    ground (
      arith,
      conflict_at t k r rs,
      filter-swappable_none t k old rs,
      filter-swappable t k old rs u.1,
    )
