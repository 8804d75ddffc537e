-- ===== src/Storage/Sqlite/Contract.antt =====
-- The engine of storage/src/sqlite_engine.rs keeps the contract of the trait, whichever of its
-- calls fail.
pub mod Answers
pub mod Null
use knast.Base.{
  Text, Option, none, some, Bool, true, false, List, ◌≡◌, ◌⊎◌, inl, inr, refl, ap, sym, subst, ◌∙◌,
}
use knast.Base.Exec.{Error, Triple, Triple-pure, Triple-weaken, Outcome, ok, err, Result}
use knast.Storage.Contract.{View, update, is_some, Contract}
use knast.Storage.Sqlite.{
  Table, Connection, conflict_error, flush, get, put, compare_and_swap, remove, exists, engine,
}
use knast.Storage.Sqlite.Tables.{
  Shows, Sees, accepts, accepts_cases, swapped, swapped-Shows, expects-try_insert,
}
use knast.Storage.Sqlite.Calls.{Reports, On, In, Within, Within-Reports, any_Reports}
use knast.Storage.Sqlite.Methods
use knast.Storage.Sqlite.Methods.{Refused, swap_to}

module _ {G : List (Option Error) → Type 0} {X : Error → Type 0} (R : Reports G X) where
  -- A swap from a table that shows a map.
  pub swap_Shows :
      (v : View) (t k : Text) (old : Option Text) (x : Text)
      → Triple
          (On G (Shows v))
          (compare_and_swap t k old (some x))
          (λ _ c. (accepts old (v t k) ≡ true) × On G (Shows (update v t k (some x))) c)
          (λ y c. Sees v c × Refused R v t k old y)
  swap_Shows v t k old x = record {
    at = λ c (h, g).
        (Triple-weaken (swap_to R v t k old (some x) c.table h) (λ _ p. p)
            (λ _ d p. (
              p.0,
              (
                subst (Shows (update v t k (some x))) (sym p.1.0) (
                    swapped-Shows v t k old x c.table h
                      (expects-try_insert v t k old c.table h ∙ p.0)),
                p.1.1,
              ),
            ))
            (λ _ d p. (subst (Shows v) (sym p.0) h, p.1))).at
          c (refl, g);
  }

pub get_Triple :
    (v : View) (t k : Text)
    → Triple (Sees v) (get t k) (λ o s. (o ≡ v t k) × Sees v s) (λ _. Sees v)
get_Triple v t k =
    Triple-weaken (Methods.get_Triple any_Reports v t k) (λ _ p. (p, tt)) (λ _ _ p. (p.0, p.1.0))
      (λ _ _ p. p.0)

pub put_Triple :
    (v : View) (t k x : Text)
    → Triple (Sees v) (put t k x) (λ _. Sees (update v t k (some x))) (λ _. Sees v)
put_Triple v t k x =
    Triple-weaken (Methods.put_Triple any_Reports v t k x) (λ _ p. (p, tt)) (λ _ _ p. p.0)
      (λ _ _ p. p.0)

pub remove_Triple :
    (v : View) (t k : Text)
    → Triple (Sees v) (remove t k) (λ _. Sees (update v t k none)) (λ _. Sees v)
remove_Triple v t k =
    Triple-weaken (Methods.remove_Triple any_Reports v t k) (λ _ p. (p, tt)) (λ _ _ p. p.0)
      (λ _ _ p. p.0)

pub exists_Triple :
    (v : View) (t k : Text)
    → Triple (Sees v) (exists t k) (λ b s. (b ≡ is_some (v t k)) × Sees v s) (λ _. Sees v)
exists_Triple v t k =
    Triple-weaken (Methods.exists_Triple any_Reports v t k) (λ _ p. (p, tt)) (λ _ _ p. (p.0, p.1.0))
      (λ _ _ p. p.0)

pub flush_Triple : (v : View) → Triple (Sees v) flush (λ _. Sees v) (λ _. Sees v)
unfolding flush
flush_Triple v = Triple-pure 0 (λ _ s. s)

pub swap_Triple :
    (v : View) (t k : Text) (old : Option Text) (x : Text)
    → Triple
        (Sees v)
        (compare_and_swap t k old (some x))
        (λ _ c. ((v t k ≡ old) ⊎ (v t k ≡ none)) × Sees (update v t k (some x)) c)
        (λ _. Sees v)
swap_Triple v t k old x =
    Triple-weaken (swap_Shows any_Reports v t k old x) (λ _ p. (p, tt))
      (λ _ _ p. (accepts_cases (v t k) old p.0, p.1.0)) (λ _ _ p. p.0)

-- The engine keeps the contract.
abbrev pub contract : Contract engine
contract = record {
  Sees = Sees;
  get_Triple = get_Triple;
  put_Triple = put_Triple;
  swap_Triple = swap_Triple;
  remove_Triple = remove_Triple;
  exists_Triple = exists_Triple;
  flush_Triple = flush_Triple;
}

-- The SQLite compare_and_swap succeeds only if the cell is empty or holds the old value, and
-- then the cell holds the new one; if it fails, the table shows what it showed, and either the
-- error is the conflict and the cell was neither empty nor held the old value, or the error is
-- that of a call of rusqlite or of the pool.
pub compare_and_swap_exact :
    (v : View) (t k : Text) (old : Option Text) (x : Text) (c : Connection)
    → Sees v c
    → Outcome
        (λ _ d. (accepts old (v t k) ≡ true) × Sees (update v t k (some x)) d)
        (λ y d.
          Sees v d × (((y ≡ conflict_error) × (accepts old (v t k) ≡ false)) ⊎ In y c.outcomes))
        (compare_and_swap t k old (some x) c)
compare_and_swap_exact v t k old x c h =
    (Triple-weaken (swap_Shows (Within-Reports c.outcomes) v t k old x) (λ _ p. p)
        (λ _ _ p. (p.0, p.1.0)) (λ _ _ p. p)).at
      c (h, λ y i. i)
