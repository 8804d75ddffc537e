-- ===== src/Storage/Sqlite/Tables.antt =====
-- storage/src/sqlite_engine/*.sql: which map a table shows, before and after a statement.
use knast.Base.{
  ℕ, Text, text_eq_iff, text_eq_refl, Option, map, filter, ◌∙◌, inl, inr, none, some, Bool, true,
  ◌&&◌, List, [], ◌∷◌, not, if◌then◌else◌, ◌≡◌, ◌⊎◌, refl, arith,
}
use knast.Storage.Contract.{View, update}
use knast.Storage.Sqlite.{
  Row, Table, Connection, migration, is, swappable, get_sql, put_sql, remove_sql, try_insert_sql,
  cas_sql,
}
use knast.Storage.Sqlite.Laws.{
  IsUnique, is_nil, same, same_refl, expects, get-put_sql, get-remove_sql, get-try_insert_sql,
  update-swappable, filter-swappable,
}
use knast.Storage.Sqlite.Unique.{
  put_sql-IsUnique, try_insert_sql-IsUnique, cas_sql-IsUnique, remove_sql-IsUnique,
}

pub is_refl : (o : Option Text) → is o o ≡ true
unfolding is
is_refl none = refl
is_refl (some x) = text_eq_refl x

-- A cell of the map as the statements read it: a row with a value that is not NULL.
abbrev pub cell : Option Text → Option (Option Text)
cell none = none
cell (some x) = some (some x)

pub record Shows (v : View) (c : Table) : Type 0 where
  pub unique : IsUnique c.rows
  pub shows : (t k : Text) → get_sql t k c.rows ≡ cell (v t k)

abbrev pub Sees : View → Connection → Type 0
Sees v c = Shows v c.table

-- A new file shows nothing.
pub migration-Sees : Sees (λ _ _. none) migration
unfolding get_sql
migration-Sees = record { unique = tt; shows = λ t k. refl }

pub put_sql-Shows :
    (v : View) (t k x : Text) (c : Table)
    → Shows v c
    → Shows (update v t k (some x)) (put_sql t k x c)
unfolding update same
put_sql-Shows v t k x c h = record {
  unique = put_sql-IsUnique t k x c h.unique;
  shows = λ t' k'. ground (arith, get-put_sql t k x t' k' c, h.shows t' k');
}

pub remove_sql-Shows :
    (v : View) (t k : Text) (c : Table) → Shows v c → Shows (update v t k none) (remove_sql t k c)
unfolding update same
remove_sql-Shows v t k c h = record {
  unique = remove_sql-IsUnique t k c h.unique;
  shows = λ t' k'. ground (arith, get-remove_sql t k t' k' c, h.shows t' k');
}

-- The table after try_insert.sql and cas.sql.
abbrev pub swapped : Text → Text → Option Text → Option Text → Table → Table
swapped t k old new c = (cas_sql t k old new (try_insert_sql t k old c)).0

-- What the two statements leave in a cell, and whether RETURNING lists a row.
pub swapped_cell :
    (t k : Text) (old new : Option Text) (t' k' : Text) (c : Table)
    → IsUnique c.rows
    → get_sql t' k' (swapped t k old new c).rows ≡ (
        if same t k t' k' && expects old (get_sql t k (try_insert_sql t k old c).rows)
        then some new
        else get_sql t' k' (try_insert_sql t k old c).rows)
unfolding cas_sql
swapped_cell t k old new t' k' c u =
    update-swappable t k old new t' k' (try_insert_sql t k old c).rows
      (try_insert_sql-IsUnique t k old c u)

pub swapped-Shows :
    (v : View) (t k : Text) (old : Option Text) (x : Text) (c : Table)
    → Shows v c
    → expects old (get_sql t k (try_insert_sql t k old c).rows) ≡ true
    → Shows (update v t k (some x)) (swapped t k old (some x) c)
unfolding update same
swapped-Shows v t k old x c h e = record {
  unique = cas_sql-IsUnique t k old (some x) _ (try_insert_sql-IsUnique t k old c h.unique);
  shows = λ t' k'. ground (
    arith,
    e,
    swapped_cell t k old (some x) t' k' c h.unique,
    get-try_insert_sql t k old t' k' c,
    get-try_insert_sql t k old t k c,
    h.shows t k,
    h.shows t' k',
  );
}

is_nil-map : (rows : List Row) → is_nil (map (λ (r : Row). r.id) rows) ≡ is_nil rows
is_nil-map [] = refl
is_nil-map (r ∷ rs) = refl

abbrev pub returning : Text → Text → Option Text → Option Text → Table → List ℕ
returning t k old new c = (cas_sql t k old new (try_insert_sql t k old c)).1

-- RETURNING lists no row exactly if the cell does not hold the old value.
pub is_nil-returning :
    (t k : Text) (old new : Option Text) (c : Table)
    → IsUnique c.rows
    → is_nil (returning t k old new c)
      ≡ not (expects old (get_sql t k (try_insert_sql t k old c).rows))
unfolding cas_sql
is_nil-returning t k old new c u =
    is_nil-map (filter (swappable t k old) (try_insert_sql t k old c).rows)
    ∙ filter-swappable t k old (try_insert_sql t k old c).rows (try_insert_sql-IsUnique t k old c u)

-- A cell that takes the swap: it is empty, or it holds the old value.
unfoldable pub accepts : Option Text → Option Text → Bool
unfolding is
accepts old none = true
accepts old (some x) = is (some x) old

pub expects-try_insert :
    (v : View) (t k : Text) (old : Option Text) (c : Table)
    → Shows v c
    → expects old (get_sql t k (try_insert_sql t k old c).rows) ≡ accepts old (v t k)
unfolding expects accepts
expects-try_insert v t k old c h =
    ground (arith, get-try_insert_sql t k old t k c, same_refl t k, is_refl old, h.shows t k)

pub accepts_cases : (o old : Option Text) → accepts old o ≡ true → (o ≡ old) ⊎ (o ≡ none)
unfolding accepts
accepts_cases none old h = inr refl
accepts_cases (some x) none h = ground arith
accepts_cases (some x) (some y) h = inl (ground (arith, text_eq_iff x y))
