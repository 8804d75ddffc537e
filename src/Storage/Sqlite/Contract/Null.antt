-- ===== src/Storage/Sqlite/Contract/Null.antt =====
-- storage/src/sqlite_engine.rs: a swap to no value keeps the row and stores NULL in it.
use knast.Base.{Text, Option, none, some, true, [], ◌≡◌, refl, inl, inr, ◌∙◌, arith, ap}
use knast.Base.Exec.{Exec, Error, ◌>>=◌, Triple, Triple-bind, Triple-weaken}
use knast.Storage.Contract.{View}
use knast.Storage.Sqlite.{Table, Connection, compare_and_swap, get, exists, get_sql}
use knast.Storage.Sqlite.Laws.{same_refl}
use knast.Storage.Sqlite.Tables.{Shows, Sees, accepts, swapped, swapped_cell, expects-try_insert}
use knast.Storage.Sqlite.Calls.{On}
use knast.Storage.Sqlite.Methods.{swap_to, null_error, null_get, null_exists}
use knast.Storage.Sqlite.Contract.Answers.{Up, silent_Reports}

null_cell :
    (v : View) (t k : Text) (old : Option Text) (c : Table)
    → Shows v c
    → accepts old (v t k) ≡ true
    → get_sql t k (swapped t k old none c).rows ≡ some none
null_cell v t k old c h a = ground (
  arith,
  swapped_cell t k old none t k c h.unique,
  same_refl t k,
  expects-try_insert v t k old c h,
  a,
)

-- The row that a swap to no value leaves.
nulled :
    {A : Type 0} {S : A → Type 0} {E : Error → Type 0} (v : View) (t k : Text) (old : Option Text)
    (m : Exec Connection A)
    → Triple (On (λ os. os ≡ []) (λ T. get_sql t k T.rows ≡ some none)) m (λ a _. S a) (λ x _. E x)
    → accepts old (v t k) ≡ true
    → Triple
        (λ c. Sees v c × Up c)
        (compare_and_swap t k old none >>= λ _. m)
        (λ a _. S a)
        (λ x _. E x)
nulled {S = S} {E = E} v t k old m after a = record {
  at = λ c (h, up).
      (Triple-bind {E = λ x _. E x} _ _
          (Triple-weaken (swap_to silent_Reports v t k old none c.table h) (λ _ p. p)
            (λ _ d p. (
              ap (λ (T : Table). get_sql t k T.rows) p.1.0 ∙ null_cell v t k old c.table h a,
              p.1.1,
            ))
            (λ _ _ p. (elim p.1 [ inl r ↦ absurd (ground (arith, r.1, a)) | inr r ↦ absurd r ])))
          λ _. after).at
        c (refl, up);
}

-- While no call fails, an SQLite swap to no value that the cell takes succeeds; then reading the
-- cell fails, and the cell is reported to exist.
swap_to_null :
    (v : View) (t k : Text) (old : Option Text)
    → accepts old (v t k) ≡ true
    → Triple
        (λ c. Sees v c × Up c)
        (compare_and_swap t k old none >>= λ _. get t k)
        (λ _ _. ⊥)
        (λ x _. x ≡ null_error)
      × Triple
          (λ c. Sees v c × Up c)
          (compare_and_swap t k old none >>= λ _. exists t k)
          (λ b _. b ≡ true)
          (λ _ _. ⊥)
swap_to_null v t k old a = (
  nulled v t k old (get t k)
      (Triple-weaken (null_get silent_Reports t k) (λ _ p. p) (λ _ _ p. p)
        (λ _ _ p. (elim p [ inl r ↦ r | inr r ↦ absurd r ])))
      a,
  nulled v t k old (exists t k) (null_exists silent_Reports t k) a,
)
