-- ===== src/Storage/Sqlite/Calls.antt =====
-- storage/src/sqlite_engine.rs: what the steps of a method do to the table, and which errors they
-- have.
use knast.Base.{Option, none, some, List, [], ◌∷◌, ◌≡◌, refl, ◌⊎◌, inl, inr}
use knast.Base.Exec.{Exec, Error, Triple, Outcome, Triple-bind, Triple-weaken, ◌>>=◌}
use knast.Storage.Sqlite.{Table, Connection, call, statement}

-- What is known of the outcomes that are left, and of an error that is reported.
pub record Reports (G : List (Option Error) → Type 0) (X : Error → Type 0) : Type 0 where
  pub left : (o : Option Error) (os : List (Option Error)) → G (o ∷ os) → G os
  pub reported : (x : Error) (os : List (Option Error)) → G (some x ∷ os) → X x

-- An error is one of the outcomes.
abbrev pub In : Error → List (Option Error) → Type 0
In x [] = ⊥
In x (o ∷ os) = (o ≡ some x) ⊎ In x os

-- The outcomes left are some of these.
abbrev pub Within : List (Option Error) → List (Option Error) → Type 0
Within all os = (x : Error) → In x os → In x all

pub Within-Reports : (all : List (Option Error)) → Reports (Within all) (λ x. In x all)
Within-Reports all = record {
  left = λ o os g x i. g x (inr i);
  reported = λ x os g. g x (inl refl);
}

pub any_Reports : Reports (λ _. Unit {0}) (λ _. Unit {0})
any_Reports = record { left = λ _ _ _. tt; reported = λ _ _ _. tt }

-- Of the table, besides.
abbrev pub On : (List (Option Error) → Type 0) → (Table → Type 0) → Connection → Type 0
On G Q c = Q c.table × G c.outcomes

-- Of the table and the error behind a failure.
abbrev pub Off : (Error → Type 0) → (Table → Type 0) → Error → Connection → Type 0
Off X Q x c = Q c.table × X x

module _ {G : List (Option Error) → Type 0} {X : Error → Type 0} (R : Reports G X) where
  call-Outcome :
      (Q : Table → Type 0) (t : Table) (os : List (Option Error))
      → Q t
      → G os
      → Outcome (λ _. On G Q) (Off X Q) (call (record { table = t; outcomes = os }))
  unfolding call
  call-Outcome Q t [] q g = (q, g)
  call-Outcome Q t (none ∷ os) q g = (q, R.left none os g)
  call-Outcome Q t (some x ∷ os) q g = (q, R.reported x os g)

  pub call_Triple : (Q : Table → Type 0) → Triple (On G Q) call (λ _. On G Q) (Off X Q)
  call_Triple Q = record { at = λ c p. call-Outcome Q c.table c.outcomes p.0 p.1 }

  pub statement_Triple :
      {A : Type 0} {E : Error → Connection → Type 0} (Q : Table → Type 0) (Q' : A → Table → Type 0)
      (f : Table → A × Table)
      → ((t : Table) → Q t → Q' (f t).0 (f t).1)
      → Triple (On G Q) (statement f) (λ a. On G (Q' a)) E
  unfolding statement
  statement_Triple Q Q' f h = record { at = λ c p. (h c.table p.0, p.1) }

  -- A call before an action.
  pub then_Triple :
      {A : Type 0} {S : A → Connection → Type 0} {E : Error → Connection → Type 0}
      (Q : Table → Type 0) (m : Exec Connection A)
      → ((x : Error) (c : Connection) → Off X Q x c → E x c)
      → Triple (On G Q) m S E
      → Triple (On G Q) (call >>= λ _. m) S E
  then_Triple Q m f t =
      Triple-bind _ _ (Triple-weaken (call_Triple Q) (λ _ p. p) (λ _ _ p. p) f) λ _. t
