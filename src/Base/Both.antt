-- ===== src/Base/Both.antt =====
-- Two states side by side, each changed by actions of its own.
use mathlib.Core.Path.{◌≡◌, refl}
use knast.Base.Exec.{Exec, Error, Triple, Outcome, Result, ok, err}

pub record Both (D N : Type 0) : Type 0 where
  pub db : D
  pub net : N

module _ {D N A : Type 0} where
  unfoldable pub on_db : Exec D A → Exec (Both D N) A
  on_db m w = let (r, db) = m w.db in (r, record w { db = db })

  unfoldable pub on_net : Exec N A → Exec (Both D N) A
  on_net m w = let (r, net) = m w.net in (r, record w { net = net })

  db_Outcome :
      (Q : A → D → Type 0) (E : Error → D → Type 0) (r : Result A × D) (w : Both D N)
      → Outcome Q E r
      → Outcome (λ a w. Q a w.db) (λ x w. E x w.db) (r.0, record w { db = r.1 })
  db_Outcome Q E (ok a, d) w o = o
  db_Outcome Q E (err x, d) w o = o

  -- An action on the first state does to it what it does alone.
  pub db_Triple :
      {P : D → Type 0} {Q : A → D → Type 0} {E : Error → D → Type 0} (m : Exec D A)
      → Triple P m Q E
      → Triple (λ (w : Both D N). P w.db) (on_db m) (λ a w. Q a w.db) (λ x w. E x w.db)
  unfolding on_db
  db_Triple {Q = Q} {E = E} m t = record { at = λ w p. db_Outcome Q E (m w.db) w (t.at w.db p) }

  net_Outcome :
      (P : D → Type 0) (R : A → Type 0) (r : Result A × N) (w : Both D N)
      → P w.db
      → Outcome (λ a _. R a) (λ _ _. Unit) r
      → Outcome (λ a (w : Both D N). R a × P w.db) (λ _ w. P w.db) (r.0, record w { net = r.1 })
  net_Outcome P R (ok a, s) w p h = (h, p)
  net_Outcome P R (err x, s) w p h = p

  -- An action on the second leaves the first, and what is known of its value stays known.
  pub net_Triple :
      (P : D → Type 0) (R : A → Type 0) (m : Exec N A)
      → Triple (λ _. Unit) m (λ a _. R a) (λ _ _. Unit)
      → Triple (λ (w : Both D N). P w.db) (on_net m) (λ a w. R a × P w.db) (λ _ w. P w.db)
  unfolding on_net
  net_Triple P R m t = record { at = λ w p. net_Outcome P R (m w.net) w p (t.at w.net tt) }

  framed_Outcome :
      (Q : A → D → Type 0) (E : Error → D → Type 0) (o : N) (r : Result A × D) (w : Both D N)
      → Outcome Q E r
      → w.net ≡ o
      → Outcome
          (λ a w. Q a w.db × (w.net ≡ o))
          (λ x w. E x w.db × (w.net ≡ o))
          (r.0, record w { db = r.1 })
  framed_Outcome Q E o (ok a, d) w h p = (h, p)
  framed_Outcome Q E o (err x, d) w h p = (h, p)

  -- It leaves the second as it is.
  pub framed_Triple :
      {P : D → Type 0} {Q : A → D → Type 0} {E : Error → D → Type 0} (o : N) (m : Exec D A)
      → Triple P m Q E
      → Triple
          (λ (w : Both D N). P w.db × (w.net ≡ o))
          (on_db m)
          (λ a w. Q a w.db × (w.net ≡ o))
          (λ x w. E x w.db × (w.net ≡ o))
  unfolding on_db
  framed_Triple {Q = Q} {E = E} o m t = record {
    at = λ w p. framed_Outcome Q E o (m w.db) w (t.at w.db p.0) p.1;
  }

  state_Outcome :
      (Q : A → N → Type 0) (E : Error → N → Type 0) (r : Result A × N) (w : Both D N)
      → Outcome Q E r
      → Outcome (λ a w. Q a w.net) (λ x w. E x w.net) (r.0, record w { net = r.1 })
  state_Outcome Q E (ok a, d) w o = o
  state_Outcome Q E (err x, d) w o = o

  -- An action on the second state does to it what it does alone.
  pub state_Triple :
      {P : N → Type 0} {Q : A → N → Type 0} {E : Error → N → Type 0} (m : Exec N A)
      → Triple P m Q E
      → Triple (λ (w : Both D N). P w.net) (on_net m) (λ a w. Q a w.net) (λ x w. E x w.net)
  unfolding on_net
  state_Triple {Q = Q} {E = E} m t = record {
    at = λ w p. state_Outcome Q E (m w.net) w (t.at w.net p);
  }

  beside_Outcome :
      (P : D → Type 0) (Q : A → N → Type 0) (E : Error → N → Type 0) (r : Result A × N)
      (w : Both D N)
      → P w.db
      → Outcome Q E r
      → Outcome
          (λ a w. P w.db × Q a w.net)
          (λ x w. P w.db × E x w.net)
          (r.0, record w { net = r.1 })
  beside_Outcome P Q E (ok a, s) w p o = (p, o)
  beside_Outcome P Q E (err x, s) w p o = (p, o)

  -- It leaves what is known of the first.
  pub beside_Triple :
      {R : N → Type 0} {Q : A → N → Type 0} {E : Error → N → Type 0} (P : D → Type 0) (m : Exec N A)
      → Triple R m Q E
      → Triple
          (λ (w : Both D N). P w.db × R w.net)
          (on_net m)
          (λ a w. P w.db × Q a w.net)
          (λ x w. P w.db × E x w.net)
  unfolding on_net
  beside_Triple {Q = Q} {E = E} P m t = record {
    at = λ w p. beside_Outcome P Q E (m w.net) w p.0 (t.at w.net p.1);
  }

-- An action that knows the first and the last of three states.
unfoldable pub on_outer : {D N F A : Type 0} → Exec (Both D F) A → Exec (Both (Both D N) F) A
on_outer m w =
    let (r, u) = m (record { db = w.db.db; net = w.net }) in
    (r, record { db = record { db = u.db; net = w.db.net }; net = u.net })

module _ {D N F A : Type 0} (P : D → Type 0) where
  outer_Outcome :
      (m : Exec (Both D F) A) (u : Both D F) (r : Result A × Both D F) (w : Both (Both D N) F)
      → m u ≡ r
      → P u.db
      → Outcome (λ _ u. P u.db) (λ _ u. P u.db) r
      → Outcome
          (λ a (w : Both (Both D N) F).
            P w.db.db
            × ((u : Both D F) × P u.db × (m u ≡ (ok a, record { db = w.db.db; net = w.net }))))
          (λ _ w. P w.db.db)
          (r.0, record { db = record { db = r.1.db; net = w.db.net }; net = r.1.net })
  outer_Outcome m u (ok a, u') w q p o = (o, (u, p, q))
  outer_Outcome m u (err x, u') w q p o = o

  -- It keeps what it keeps of the first; the result and the first and last state are those of a
  -- run of its own.
  pub outer_Triple :
      (m : Exec (Both D F) A)
      → Triple (λ u. P u.db) m (λ _ u. P u.db) (λ _ u. P u.db)
      → Triple
          (λ (w : Both (Both D N) F). P w.db.db)
          (on_outer m)
          (λ a w.
            P w.db.db
            × ((u : Both D F) × P u.db × (m u ≡ (ok a, record { db = w.db.db; net = w.net }))))
          (λ _ w. P w.db.db)
  unfolding on_outer
  outer_Triple m t = record {
    at = λ w p.
        outer_Outcome m (record { db = w.db.db; net = w.net })
          (m (record { db = w.db.db; net = w.net })) w refl p
          (t.at (record { db = w.db.db; net = w.net }) p);
  }
