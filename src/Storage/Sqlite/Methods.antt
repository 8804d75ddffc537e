-- ===== src/Storage/Sqlite/Methods.antt =====
-- storage/src/sqlite_engine.rs: what every method does to a table that shows a map, whichever of its
-- calls fail.
use knast.Base.{
  ℕ, Text, codes, Option, none, some, true, false, List, [], ◌∷◌, ◌≡◌, ◌⊎◌, inl, inr, refl, arith,
  not, ap, ◌∙◌, sym,
}
use knast.Base.Exec.{
  Exec, Error, message, ok, err, Result, Outcome, Triple, Triple-bind, Triple-pure, Triple-raise,
  Triple-weaken, Triple-lift, lift, ok-injective, ◌>>=◌,
}
use knast.Storage.Contract.{View, update, is_some}
use knast.Storage.Sqlite.{
  Table, Connection, call, conflict_error, expect_row, swap_body, rolled_back, transaction, get,
  put, compare_and_swap, remove, exists, read_row, get_sql, exists_sql, try_insert_sql, cas_sql,
}
use knast.Storage.Sqlite.Laws.{is_nil, conflict-get}
use knast.Storage.Sqlite.Calls.{Reports, On, Off, call_Triple, then_Triple, statement_Triple}
use knast.Storage.Sqlite.Tables.{
  Shows, cell, accepts, swapped, returning, put_sql-Shows, remove_sql-Shows, is_nil-returning,
  expects-try_insert,
}

-- What reading NULL reports.
abbrev pub null_error : Error
null_error = message (codes "Invalid column type Null at index: 0, name: value")

module _ {G : List (Option Error) → Type 0} {X : Error → Type 0} (R : Reports G X) where
  queried_Triple :
      {A : Type 0} {S : A → Connection → Type 0} (Q : Table → Type 0) (m : Exec Connection A)
      → Triple (On G Q) m S (Off X Q)
      → Triple (On G Q) (call >>= λ _. call >>= λ _. call >>= λ _. call >>= λ _. m) S (Off X Q)
  queried_Triple Q m t =
      then_Triple R Q _ (λ _ _ p. p)
        (then_Triple R Q _ (λ _ _ p. p)
          (then_Triple R Q _ (λ _ _ p. p) (then_Triple R Q _ (λ _ _ p. p) t)))

  executed_Triple :
      {A : Type 0} {S : A → Connection → Type 0} (Q : Table → Type 0) (m : Exec Connection A)
      → Triple (On G Q) m S (Off X Q)
      → Triple (On G Q) (call >>= λ _. call >>= λ _. call >>= λ _. m) S (Off X Q)
  executed_Triple Q m t =
      then_Triple R Q _ (λ _ _ p. p)
        (then_Triple R Q _ (λ _ _ p. p) (then_Triple R Q _ (λ _ _ p. p) t))

  read_Triple :
      (v : View) (row : Option (Option Text)) (o : Option Text)
      → row ≡ cell o
      → Triple
          (On G (Shows v))
          (lift (read_row row))
          (λ r c. (r ≡ o) × On G (Shows v) c)
          (Off X (Shows v))
  unfolding read_row
  read_Triple v row none p = rw p (
      Triple-lift _ (λ a q s t. (sym (ok-injective none a q), t))
        (λ x q _ _. absurd (ground arith)))
  read_Triple v row (some y) p = rw p (
      Triple-lift _ (λ a q s t. (sym (ok-injective (some y) a q), t))
        (λ x q _ _. absurd (ground arith)))

  pub get_Triple :
      (v : View) (t k : Text)
      → Triple (On G (Shows v)) (get t k) (λ o c. (o ≡ v t k) × On G (Shows v) c) (Off X (Shows v))
  unfolding get
  get_Triple v t k = queried_Triple (Shows v) _ (
      Triple-bind _ _
        (statement_Triple R (Shows v) (λ row T. (row ≡ cell (v t k)) × Shows v T) _
          (λ T h. (h.shows t k, h)))
        λ row. record { at = λ c p. (read_Triple v row (v t k) p.0.0).at c (p.0.1, p.1) })

  pub put_Triple :
      (v : View) (t k x : Text)
      → Triple
          (On G (Shows v))
          (put t k x)
          (λ _. On G (Shows (update v t k (some x))))
          (Off X (Shows v))
  unfolding put
  put_Triple v t k x =
      executed_Triple (Shows v) _ (statement_Triple R (Shows v) _ _ (put_sql-Shows v t k x))

  pub remove_Triple :
      (v : View) (t k : Text)
      → Triple
          (On G (Shows v))
          (remove t k)
          (λ _. On G (Shows (update v t k none)))
          (Off X (Shows v))
  unfolding remove
  remove_Triple v t k =
      executed_Triple (Shows v) _ (statement_Triple R (Shows v) _ _ (remove_sql-Shows v t k))

  pub exists_Triple :
      (v : View) (t k : Text)
      → Triple
          (On G (Shows v))
          (exists t k)
          (λ b c. (b ≡ is_some (v t k)) × On G (Shows v) c)
          (Off X (Shows v))
  unfolding exists exists_sql
  exists_Triple v t k = queried_Triple (Shows v) _ (
      Triple-weaken
        (statement_Triple R (Shows v) (λ b T. (b ≡ is_some (v t k)) × Shows v T) _
          (λ T h. (ground (arith, conflict-get t k T.rows, h.shows t k), h)))
        (λ _ p. p) (λ _ _ p. (p.0.0, (p.0.1, p.1))) (λ _ _ p. p))

  -- An error of a swap: a conflict, where the cell does not take it, or one that is reported.
  abbrev pub Refused : View → Text → Text → Option Text → Error → Type 0
  Refused v t k old x = ((x ≡ conflict_error) × (accepts old (v t k) ≡ false)) ⊎ X x

  rows_Triple :
      (v : View) (t k : Text) (old : Option Text) (Q : Table → Type 0) (ids : List ℕ)
      → is_nil ids ≡ not (accepts old (v t k))
      → Triple
          (On G Q)
          (expect_row ids >>= λ _. call)
          (λ _ c. (accepts old (v t k) ≡ true) × On G Q c)
          (λ x _. Refused v t k old x)
  unfolding expect_row
  rows_Triple v t k old Q [] p =
      Triple-bind {R = λ _ _. ⊥} _ _
        (Triple-raise conflict_error (λ _ _. inl (refl, ground (arith, p))))
        λ _. record { at = λ _ x. absurd x }
  rows_Triple v t k old Q (id ∷ ids) p =
      Triple-bind {R = λ _. On G Q} _ _ (Triple-pure tt (λ _ q. q)) λ _.
        Triple-weaken (call_Triple R Q) (λ _ q. q) (λ _ _ q. (ground (arith, p), q))
          (λ _ _ q. inr q.1)

  body_Triple :
      (v : View) (t k : Text) (old new : Option Text) (T : Table)
      → Shows v T
      → Triple
          (On G (λ U. U ≡ T))
          (swap_body t k old new)
          (λ _ c. (accepts old (v t k) ≡ true) × On G (λ U. U ≡ swapped t k old new T) c)
          (λ x _. Refused v t k old x)
  unfolding swap_body
  body_Triple v t k old new T h =
      then_Triple R _ _ (λ _ _ p. inr p.1)
        (then_Triple R _ _ (λ _ _ p. inr p.1)
          (Triple-bind _ _
            (statement_Triple R _ (λ _ U. U ≡ try_insert_sql t k old T) _
              (λ U p. ap (try_insert_sql t k old) p))
            λ _.
              then_Triple R _ _ (λ _ _ p. inr p.1)
                (then_Triple R _ _ (λ _ _ p. inr p.1)
                  (then_Triple R _ _ (λ _ _ p. inr p.1)
                    (Triple-bind _ _
                      (statement_Triple R _
                        (λ ids U. (ids ≡ returning t k old new T) × (U ≡ swapped t k old new T)) _
                        (λ U p. (
                          ap (λ V. (cas_sql t k old new V).1) p,
                          ap (λ V. (cas_sql t k old new V).0) p,
                        )))
                      λ ids. record {
                        at = λ c p.
                            (rows_Triple v t k old _ ids (sees_returning ids p.0.0)).at c
                              (p.0.1, p.1);
                      })))))
    where
      sees_returning :
          (ids : List ℕ) → ids ≡ returning t k old new T → is_nil ids ≡ not (accepts old (v t k))
      sees_returning ids p =
          ap is_nil p
          ∙ is_nil-returning t k old new T h.unique
          ∙ ap not (expects-try_insert v t k old T h)

  -- The transaction ends in its commit, or leaves the table as it was.
  transaction_Triple :
      (v : View) (t k : Text) (old new : Option Text) (T : Table)
      → Shows v T
      → Triple
          (On G (λ U. U ≡ T))
          (transaction t k old new)
          (λ _ c. (accepts old (v t k) ≡ true) × On G (λ U. U ≡ swapped t k old new T) c)
          (λ x c. (c.table ≡ T) × Refused v t k old x)
  unfolding transaction
  transaction_Triple v t k old new T h = record {
    at = λ c p. back c.table p.0 (swap_body t k old new c) ((body_Triple v t k old new T h).at c p);
  }
    where
      back :
          (U : Table)
          → U ≡ T
          → (r : Result (Unit {0}) × Connection)
          → Outcome
              (λ _ c. (accepts old (v t k) ≡ true) × On G (λ U. U ≡ swapped t k old new T) c)
              (λ x _. Refused v t k old x)
              r
          → Outcome
              (λ _ c. (accepts old (v t k) ≡ true) × On G (λ U. U ≡ swapped t k old new T) c)
              (λ x c. (c.table ≡ T) × Refused v t k old x)
              (rolled_back U r)
      back U p (ok tt, c) o = o
      back U p (err x, c) o = (p, o)

  pub swap_to :
      (v : View) (t k : Text) (old new : Option Text) (T : Table)
      → Shows v T
      → Triple
          (On G (λ U. U ≡ T))
          (compare_and_swap t k old new)
          (λ _ c. (accepts old (v t k) ≡ true) × On G (λ U. U ≡ swapped t k old new T) c)
          (λ x c. (c.table ≡ T) × Refused v t k old x)
  unfolding compare_and_swap
  swap_to v t k old new T h =
      then_Triple R _ _ (λ _ _ p. (p.0, inr p.1))
        (then_Triple R _ _ (λ _ _ p. (p.0, inr p.1)) (transaction_Triple v t k old new T h))

  -- A row with NULL cannot be read.
  pub null_get :
      (t k : Text)
      → Triple
          (On G (λ T. get_sql t k T.rows ≡ some none))
          (get t k)
          (λ _ _. ⊥)
          (λ x _. (x ≡ null_error) ⊎ X x)
  unfolding get read_row
  null_get t k =
      then_Triple R _ _ (λ _ _ p. inr p.1)
        (then_Triple R _ _ (λ _ _ p. inr p.1)
          (then_Triple R _ _ (λ _ _ p. inr p.1)
            (then_Triple R _ _ (λ _ _ p. inr p.1)
              (Triple-bind _ _ (statement_Triple R _ (λ row _. row ≡ some none) _ (λ T h. h))
                λ row. record { at = λ c p. (refused row p.0).at c tt }))))
    where
      refused :
          (row : Option (Option Text))
          → row ≡ some none
          → Triple
              (λ (_ : Connection). Unit)
              (lift (read_row row))
              (λ _ _. ⊥)
              (λ x _. (x ≡ null_error) ⊎ X x)
      refused row p =
          rw p (Triple-lift _ (λ a q _ _. absurd (ground arith)) (λ x q _ _. inl (ground arith)))

  -- It is there.
  pub null_exists :
      (t k : Text)
      → Triple
          (On G (λ T. get_sql t k T.rows ≡ some none))
          (exists t k)
          (λ b _. b ≡ true)
          (λ x _. X x)
  unfolding exists exists_sql
  null_exists t k =
      then_Triple R _ _ (λ _ _ p. p.1)
        (then_Triple R _ _ (λ _ _ p. p.1)
          (then_Triple R _ _ (λ _ _ p. p.1)
            (then_Triple R _ _ (λ _ _ p. p.1)
              (Triple-weaken
                (statement_Triple R _ (λ b _. b ≡ true) _
                  (λ T h. ground (arith, conflict-get t k T.rows, h)))
                (λ _ p. p) (λ _ _ p. p.0) (λ _ _ p. p)))))
