-- ===== src/Storage/Sled.antt =====
-- storage/src/sled_engine.rs. The crate sled is a parameter: its calls, and what its
-- documentation promises of them.
use knast.Base.{ℕ, Text, Option, none, some, Bool, ◌≡◌, ◌⊎◌, inl, inr, subst}
use knast.Base.Exec.{
  Exec, Result, ok, err, Error, Triple, Triple-bind, Triple-pure, Triple-weaken, Outcome, pure,
  lift, ◌>>=◌, ◌>>◌,
}
use knast.Storage.{StorageEngine}
use knast.Storage.Contract.{View, update, is_some, Contract}

-- The calls of sled. The inner result of `compare_and_swap` is its conflict.
pub record Sled : Type 1 where
  pub Db : Type 0
  pub Tree : Type 0
  pub open_tree : Text → Exec Db Tree
  pub tree_get : Tree → Text → Exec Db (Option Text)
  pub tree_insert : Tree → Text → Text → Exec Db (Option Text)
  pub tree_compare_and_swap : Tree → Text → Option Text → Option Text → Exec Db (Result (Unit {0}))
  pub tree_remove : Tree → Text → Exec Db (Option Text)
  pub tree_contains_key : Tree → Text → Exec Db Bool
  pub flush_async : Exec Db ℕ

-- What sled documents: a tree is found by its name, its methods read and write one key, and
-- `compare_and_swap` succeeds only if the key has the old value.
pub record SledLaws (d : Sled) : Type 1 where
  pub name : d.Tree → Text
  pub Sees : View → d.Db → Type 0
  pub open_Triple :
      (v : View) (t : Text)
      → Triple (Sees v) (d.open_tree t) (λ tree s. (name tree ≡ t) × Sees v s) (λ _. Sees v)
  pub get_Triple :
      (v : View) (tree : d.Tree) (k : Text)
      → Triple (Sees v) (d.tree_get tree k) (λ o s. (o ≡ v (name tree) k) × Sees v s) (λ _. Sees v)
  pub insert_Triple :
      (v : View) (tree : d.Tree) (k x : Text)
      → Triple
          (Sees v)
          (d.tree_insert tree k x)
          (λ _. Sees (update v (name tree) k (some x)))
          (λ _. Sees v)
  pub swap_Triple :
      (v : View) (tree : d.Tree) (k : Text) (old new : Option Text)
      → Triple
          (Sees v)
          (d.tree_compare_and_swap tree k old new)
          (λ r s.
            ((r ≡ ok tt) × (v (name tree) k ≡ old) × Sees (update v (name tree) k new) s)
            ⊎ ((e : Error) × (r ≡ err e) × Sees v s))
          (λ _. Sees v)
  pub remove_Triple :
      (v : View) (tree : d.Tree) (k : Text)
      → Triple
          (Sees v)
          (d.tree_remove tree k)
          (λ _. Sees (update v (name tree) k none))
          (λ _. Sees v)
  pub contains_Triple :
      (v : View) (tree : d.Tree) (k : Text)
      → Triple
          (Sees v)
          (d.tree_contains_key tree k)
          (λ b s. (b ≡ is_some (v (name tree) k)) × Sees v s)
          (λ _. Sees v)
  pub flush_Triple : (v : View) → Triple (Sees v) d.flush_async (λ _. Sees v) (λ _. Sees v)

module _ (d : Sled) where
  pub get : Text → Text → Exec d.Db (Option Text)
  get collection key = do tree ← d.open_tree collection; d.tree_get tree key

  pub put : Text → Text → Text → Exec d.Db (Unit {0})
  put collection key value = do tree ← d.open_tree collection; d.tree_insert tree key value; pure tt

  pub compare_and_swap : Text → Text → Option Text → Option Text → Exec d.Db (Unit {0})
  compare_and_swap collection key old_value new_value = do
    tree ← d.open_tree collection
    swapped ← d.tree_compare_and_swap tree key old_value new_value
    lift swapped

  pub remove : Text → Text → Exec d.Db (Unit {0})
  remove collection key = do tree ← d.open_tree collection; d.tree_remove tree key; pure tt

  pub exists : Text → Text → Exec d.Db Bool
  exists collection key = do tree ← d.open_tree collection; d.tree_contains_key tree key

  pub flush : Exec d.Db ℕ
  flush = d.flush_async

  abbrev pub engine : StorageEngine
  engine = record {
    Db = d.Db;
    get = get;
    put = put;
    compare_and_swap = compare_and_swap;
    remove = remove;
    exists = exists;
    flush = flush;
  }

module _ (d : Sled) (l : SledLaws d) where
  open l use {Sees, name}

  abbrev Opened : View → Text → d.Tree → d.Db → Type 0
  Opened v t tree s = (name tree ≡ t) × Sees v s

  -- What a method of the tree does, a method of the engine does to the named collection.
  at_name :
      {A : Type 0} {v : View} {t : Text} (m : d.Tree → Exec d.Db A) (Q : Text → A → d.Db → Type 0)
      → ((tree : d.Tree) → Triple (Sees v) (m tree) (Q (name tree)) (λ _. Sees v))
      → Triple (Sees v) (d.open_tree t >>= m) (Q t) (λ _. Sees v)
  at_name {v = v} {t = t} m Q h = Triple-bind _ m (l.open_Triple v t) λ tree. record {
    at = λ s p. subst (λ n. Outcome (Q n) (λ _. Sees v) (m tree s)) p.0 ((h tree).at s p.1);
  }

  pub get_contract :
      (v : View) (t k : Text)
      → Triple (Sees v) (get d t k) (λ o s. (o ≡ v t k) × Sees v s) (λ _. Sees v)
  unfolding get
  get_contract v t k = at_name _ (λ n o s. (o ≡ v n k) × Sees v s) λ tree. l.get_Triple v tree k

  pub exists_contract :
      (v : View) (t k : Text)
      → Triple (Sees v) (exists d t k) (λ b s. (b ≡ is_some (v t k)) × Sees v s) (λ _. Sees v)
  unfolding exists
  exists_contract v t k =
      at_name _ (λ n b s. (b ≡ is_some (v n k)) × Sees v s) λ tree. l.contains_Triple v tree k

  pub put_contract :
      (v : View) (t k x : Text)
      → Triple (Sees v) (put d t k x) (λ _. Sees (update v t k (some x))) (λ _. Sees v)
  unfolding put
  put_contract v t k x =
      at_name _ (λ n _. Sees (update v n k (some x)))
        λ tree. Triple-bind _ _ (l.insert_Triple v tree k x) λ _. Triple-pure tt (λ s h. h)

  pub remove_contract :
      (v : View) (t k : Text)
      → Triple (Sees v) (remove d t k) (λ _. Sees (update v t k none)) (λ _. Sees v)
  unfolding remove
  remove_contract v t k =
      at_name _ (λ n _. Sees (update v n k none))
        λ tree. Triple-bind _ _ (l.remove_Triple v tree k) λ _. Triple-pure tt (λ s h. h)

  -- Both branches of the inner result.
  swap_result :
      (v : View) (t k : Text) (old new : Option Text) (r : Result (Unit {0}))
      → Triple
          (λ s.
            ((r ≡ ok tt) × (v t k ≡ old) × Sees (update v t k new) s)
            ⊎ ((e : Error) × (r ≡ err e) × Sees v s))
          (lift r)
          (λ _ s. (v t k ≡ old) × Sees (update v t k new) s)
          (λ _. Sees v)
  unfolding lift
  swap_result v t k old new (ok _) = record {
    at = λ s h. elim h [ inl a ↦ (a.1, a.2) | inr b ↦ cc b.1 ];
  }
  swap_result v t k old new (err e) = record { at = λ s h. elim h [ inl a ↦ cc a.0 | inr b ↦ b.2 ] }

  pub swap_contract :
      (v : View) (t k : Text) (old : Option Text) (x : Text)
      → Triple
          (Sees v)
          (compare_and_swap d t k old (some x))
          (λ _ s. ((v t k ≡ old) ⊎ (v t k ≡ none)) × Sees (update v t k (some x)) s)
          (λ _. Sees v)
  unfolding compare_and_swap
  swap_contract v t k old x =
      at_name _ (λ n _ s. ((v n k ≡ old) ⊎ (v n k ≡ none)) × Sees (update v n k (some x)) s)
        λ tree. Triple-bind _ _ (l.swap_Triple v tree k old (some x)) λ r.
          Triple-weaken (swap_result v (name tree) k old (some x) r) (λ s h. h)
            (λ _ s h. (inl h.0, h.1)) (λ _ s h. h)

  pub flush_contract : (v : View) → Triple (Sees v) (flush d) (λ _. Sees v) (λ _. Sees v)
  unfolding flush
  flush_contract v = l.flush_Triple v

  -- The engine keeps the contract of the trait.
  abbrev pub contract : Contract (engine d)
  contract = record {
    Sees = Sees;
    get_Triple = get_contract;
    put_Triple = put_contract;
    swap_Triple = swap_contract;
    remove_Triple = remove_contract;
    exists_Triple = exists_contract;
    flush_Triple = flush_contract;
  }
