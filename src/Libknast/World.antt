-- ===== src/Libknast/World.antt =====
-- What the operations of libknast/src change: the database of the storage and the system.
use knast.Base.{◌≡◌}
use knast.Base.Exec.{Exec, Error, Triple, Outcome, Result, ok, err}
use knast.Storage.{StorageEngine}
use knast.Host.{Host}

pub record World (e : StorageEngine) (H : Host) : Type 0 where
  pub db : e.Db
  pub os : H.Os

module _ {e : StorageEngine} {H : Host} {A : Type 0} where
  unfoldable pub on_db : Exec e.Db A → Exec (World e H) A
  on_db m w = let (r, db) = m w.db in (r, record w { db = db })

  unfoldable pub on_os : Exec H.Os A → Exec (World e H) A
  on_os m w = let (r, os) = m w.os in (r, record w { os = os })

  db_Outcome :
      (Q : A → e.Db → Type 0) (E : Error → e.Db → Type 0) (r : Result A × e.Db) (w : World e H)
      → Outcome Q E r
      → Outcome (λ a w. Q a w.db) (λ x w. E x w.db) (r.0, record w { db = r.1 })
  db_Outcome Q E (ok a, d) w o = o
  db_Outcome Q E (err x, d) w o = o

  -- An action on the database does to it what it does alone.
  pub db_Triple :
      {P : e.Db → Type 0} {Q : A → e.Db → Type 0} {E : Error → e.Db → Type 0} (m : Exec e.Db A)
      → Triple P m Q E
      → Triple (λ (w : World e H). P w.db) (on_db m) (λ a w. Q a w.db) (λ x w. E x w.db)
  unfolding on_db
  db_Triple {Q = Q} {E = E} m t = record { at = λ w p. db_Outcome Q E (m w.db) w (t.at w.db p) }

  os_Outcome :
      (P : e.Db → Type 0) (r : Result A × H.Os) (w : World e H)
      → P w.db
      → Outcome (λ _ (w : World e H). P w.db) (λ _ w. P w.db) (r.0, record w { os = r.1 })
  os_Outcome P (ok a, s) w p = p
  os_Outcome P (err x, s) w p = p

  -- An action on the system leaves the database.
  pub os_Triple :
      (P : e.Db → Type 0) (m : Exec H.Os A)
      → Triple (λ (w : World e H). P w.db) (on_os m) (λ _ w. P w.db) (λ _ w. P w.db)
  unfolding on_os
  os_Triple P m = record { at = λ w p. os_Outcome P (m w.os) w p }

  framed_Outcome :
      (Q : A → e.Db → Type 0) (E : Error → e.Db → Type 0) (o : H.Os) (r : Result A × e.Db)
      (w : World e H)
      → Outcome Q E r
      → w.os ≡ o
      → Outcome
          (λ a w. Q a w.db × (w.os ≡ o))
          (λ x w. E x w.db × (w.os ≡ o))
          (r.0, record w { db = r.1 })
  framed_Outcome Q E o (ok a, d) w h p = (h, p)
  framed_Outcome Q E o (err x, d) w h p = (h, p)

  -- It leaves the system as it is.
  pub framed_Triple :
      {P : e.Db → Type 0} {Q : A → e.Db → Type 0} {E : Error → e.Db → Type 0} (o : H.Os)
      (m : Exec e.Db A)
      → Triple P m Q E
      → Triple
          (λ (w : World e H). P w.db × (w.os ≡ o))
          (on_db m)
          (λ a w. Q a w.db × (w.os ≡ o))
          (λ x w. E x w.db × (w.os ≡ o))
  unfolding on_db
  framed_Triple {Q = Q} {E = E} o m t = record {
    at = λ w p. framed_Outcome Q E o (m w.db) w (t.at w.db p.0) p.1;
  }

  valued_Outcome :
      (P : e.Db → Type 0) (R : A → Type 0) (r : Result A × H.Os) (w : World e H)
      → P w.db
      → Outcome (λ a _. R a) (λ _ _. Unit) r
      → Outcome (λ a (w : World e H). R a × P w.db) (λ _ w. P w.db) (r.0, record w { os = r.1 })
  valued_Outcome P R (ok a, s) w p h = (h, p)
  valued_Outcome P R (err x, s) w p h = p

  -- What is known of the value of an action on the system stays known.
  pub valued_Triple :
      (P : e.Db → Type 0) (R : A → Type 0) (m : Exec H.Os A)
      → Triple (λ _. Unit) m (λ a _. R a) (λ _ _. Unit)
      → Triple (λ (w : World e H). P w.db) (on_os m) (λ a w. R a × P w.db) (λ _ w. P w.db)
  unfolding on_os
  valued_Triple P R m t = record { at = λ w p. valued_Outcome P R (m w.os) w p (t.at w.os tt) }

  beside_Outcome :
      (P : e.Db → Type 0) (Q : A → H.Os → Type 0) (r : Result A × H.Os) (w : World e H)
      → P w.db
      → Outcome Q (λ _ _. Unit) r
      → Outcome
          (λ a (w : World e H). Q a w.os × P w.db)
          (λ _ w. P w.db)
          (r.0, record w { os = r.1 })
  beside_Outcome P Q (ok a, s) w p h = (h, p)
  beside_Outcome P Q (err x, s) w p h = p

  -- So does what is known of the system behind it.
  pub beside_Triple :
      (P : e.Db → Type 0) (Q : A → H.Os → Type 0) (m : Exec H.Os A)
      → Triple (λ _. Unit) m Q (λ _ _. Unit)
      → Triple (λ (w : World e H). P w.db) (on_os m) (λ a w. Q a w.os × P w.db) (λ _ w. P w.db)
  unfolding on_os
  beside_Triple P Q m t = record { at = λ w p. beside_Outcome P Q (m w.os) w p (t.at w.os tt) }
