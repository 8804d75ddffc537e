-- ===== src/Tests/Storage.antt =====
-- The engines of storage on an SQLite file and on a map in memory in the place of sled.
use knast.Base.{
  Text, codes, text_eq, text_eq_iff, Option, none, some, Bool, true, false, ◌≡◌, refl, [], ◌∷◌, ◌⊎◌,
  inl, inr, if◌then◌else◌, arith, Bool-cases, ap, sym, subst,
}
use knast.Base.Exec.{Exec, Error, message, Result, ok, err, Triple, ◌>>◌, Outcome}
use knast.Storage
use knast.Storage.Contract.{View, update, is_some}
use knast.Storage.Typed.{put-get}
use knast.Storage.Sqlite
use knast.Storage.Sqlite.{Connection, engine, migration, conflict_error}
use knast.Storage.Sqlite.Contract.{contract, compare_and_swap_exact}
use knast.Storage.Sqlite.Tables.{Sees, accepts, migration-Sees}
use knast.Storage.Sqlite.Calls.{In}
use knast.Storage.Sled.{Sled, SledLaws}
use knast.Libknast.Processes.{new_status, container_processes}
use knast.Tests.World.{empty_view}
use knast.Tests.Formats.{status_codec, status_laws}

-- The swap of an empty cell from an old value, on a file whose commit fails.
abbrev full : Error
full = message (codes "database or disk is full")

abbrev failing : Connection
failing = record migration {
  outcomes = none ∷ none ∷ none ∷ none ∷ none ∷ none ∷ none ∷ some full ∷ [];
}

compare_and_swap_example :
    Outcome
      (λ _ d.
        (accepts (some (codes "old")) (empty_view (codes "t") (codes "k")) ≡ true)
        × Sees (update empty_view (codes "t") (codes "k") (some (codes "new"))) d)
      (λ y d.
        Sees empty_view d
        × (((y ≡ conflict_error)
              × (accepts (some (codes "old")) (empty_view (codes "t") (codes "k")) ≡ false))
            ⊎ In y failing.outcomes))
      (Sqlite.compare_and_swap
        (codes "t")
        (codes "k")
        (some (codes "old"))
        (some (codes "new"))
        failing)
compare_and_swap_example =
    compare_and_swap_exact empty_view (codes "t") (codes "k") (some (codes "old")) (codes "new")
      failing migration-Sees

put_get_example :
    Triple
      (Sees empty_view)
      (Storage.put engine status_codec container_processes (codes "web/") new_status
        >> Storage.get engine status_codec container_processes (codes "web/"))
      (λ r _. r ≡ some new_status)
      (λ _ _. Unit)
put_get_example =
    put-get engine contract status_codec status_laws empty_view container_processes (codes "web/")
      new_status

-- A tree is its name, and the database the map itself.
same : Option Text → Option Text → Bool
same none none = true
same (some x) (some y) = text_eq x y
same _ _ = false

swap : Text → Text → Option Text → Option Text → Exec View (Result (Unit {0}))
unfolding same
swap tree k old new v =
    if same (v tree k) old
    then (ok (ok tt), update v tree k new)
    else (ok (err (message (codes "conflict"))), v)

abbrev memory : Sled
memory = record {
  Db = View;
  Tree = Text;
  open_tree = λ t v. (ok t, v);
  tree_get = λ tree k v. (ok (v tree k), v);
  tree_insert = λ tree k x v. (ok (v tree k), update v tree k (some x));
  tree_compare_and_swap = swap;
  tree_remove = λ tree k v. (ok (v tree k), update v tree k none);
  tree_contains_key = λ tree k v. (ok (is_some (v tree k)), v);
  flush_async = λ v. (ok 0, v);
}

abbrev Shows : View → View → Type 0
Shows v w = v ≡ w

same_lem : (a b : Option Text) → same a b ≡ true → a ≡ b
unfolding same
same_lem none none p = refl
same_lem none (some y) p = absurd (ground arith)
same_lem (some x) none p = absurd (ground arith)
same_lem (some x) (some y) p = ap some ((text_eq_iff x y).0 p)

abbrev Swapped : View → Text → Text → Option Text → Option Text → Result (Unit {0}) → View → Type 0
Swapped v tree k old new r w =
    ((r ≡ ok tt) × (v tree k ≡ old) × Shows (update v tree k new) w)
    ⊎ ((e : Error) × (r ≡ err e) × Shows v w)

swap_lem :
    (v : View) (tree k : Text) (old new : Option Text)
    → Outcome (Swapped v tree k old new) (λ _. Shows v) (swap tree k old new v)
unfolding swap
swap_lem v tree k old new = elim (Bool-cases (same (v tree k) old)) [
  | inl p ↦ rw p (inl (refl, same_lem (v tree k) old p, refl))
  | inr p ↦ rw p (inr (message (codes "conflict"), refl, refl))
]

abbrev memory_laws : SledLaws memory
memory_laws = record {
  name = λ tree. tree;
  Sees = Shows;
  open_Triple = λ v t. record { at = λ w p. (refl, p) };
  get_Triple = λ v tree k. record { at = λ w p. (ap (λ u. u tree k) (sym p), p) };
  insert_Triple = λ v tree k x. record { at = λ w p. ap (λ u. update u tree k (some x)) p };
  swap_Triple = λ v tree k old new. record {
    at = λ w p.
        subst (λ u. Outcome (Swapped v tree k old new) (λ _. Shows v) (swap tree k old new u)) p
          (swap_lem v tree k old new);
  };
  remove_Triple = λ v tree k. record { at = λ w p. ap (λ u. update u tree k none) p };
  contains_Triple = λ v tree k. record { at = λ w p. (ap (λ u. is_some (u tree k)) (sym p), p) };
  flush_Triple = λ v. record { at = λ w p. p };
}

takes_null : accepts none (empty_view (codes "t") (codes "k")) ≡ true
unfolding accepts
takes_null = refl
