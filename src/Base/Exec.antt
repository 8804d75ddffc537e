-- ===== src/Base/Exec.antt =====
-- Fallible code that changes a state: `anyhow::Error`, Rust's `Result`, and actions. An action
-- that fails keeps what it wrote before, so the state stands beside the error too.
use mathlib.Core.Path.{◌≡◌, refl}
use mathlib.Core.Option.{Option, none, some}
use mathlib.Core.Logic.{◌⊎◌, inl, inr}
use Prim.Native.Nat.{ℕ}
use native.Mathlib.Omega.{arith}
use knast.Base.Bytes.{Text}

-- An error is a text that the program writes, or one that an external call reports.
pub data Error : Type 0 where
  message : Text → Error
  foreign : ℕ → Error
  -- A retry that was cut off: no error of the program, but the end of the model's fuel.
  exhausted : Error
  -- A panic, such as `unwrap` of nothing: the caller does not go on.
  panic : Error

pub data Result {ℓ} (A : Type ℓ) : Type ℓ where
  ok : A → Result A
  err : Error → Result A

-- `option.ok_or_else(|| anyhow!(..))`
abbrev pub ok_or {ℓ} : {A : Type ℓ} → Error → Option A → Result A
ok_or e none = err e
ok_or e (some a) = ok a

pub ok-injective {ℓ} : {A : Type ℓ} (a b : A) → Result.ok a ≡ ok b → a ≡ b
ok-injective a b p = ground arith

pub ok_or-ok {ℓ} : {A : Type ℓ} (x : Error) (o : Option A) (a : A) → ok_or x o ≡ ok a → o ≡ some a
ok_or-ok x none a p = absurd (ground arith)
ok_or-ok x (some b) a p = ground arith

pub Result-cases {ℓ} :
    {A : Type ℓ} (r : Result A) → ((a : A) × (r ≡ ok a)) ⊎ ((e : Error) × (r ≡ err e))
Result-cases (ok a) = inl (a, refl)
Result-cases (err e) = inr (e, refl)

abbrev pub Exec {ℓ} : Type ℓ → Type ℓ → Type ℓ
Exec S A = S → Result A × S

module _ {ℓ} {S A : Type ℓ} where
  unfoldable pub pure : A → Exec S A
  pure a s = (ok a, s)

  unfoldable pub raise : Error → Exec S A
  raise e s = (err e, s)

  unfoldable pub lift : Result A → Exec S A
  lift r s = (r, s)

module _ {ℓ} {S A : Type ℓ} where
  -- The result as a value, as a caller sees it that does not return on an error.
  unfoldable pub attempt : Exec S A → Exec S (Result A)
  attempt m s = let (r, s') = m s in (ok r, s')

module _ {ℓ} {S A B : Type ℓ} where
  abbrev pub continue : (A → Exec S B) → Result A × S → Result B × S
  continue f (ok a, s) = f a s
  continue f (err e, s) = (err e, s)

  infixl 5 ◌>>=◌ ◌>>◌
  unfoldable pub ◌>>=◌ : Exec S A → (A → Exec S B) → Exec S B
  unfolding pure raise lift
  ◌>>=◌ m f s = continue f (m s)

  abbrev pub ◌>>◌ : Exec S A → Exec S B → Exec S B
  m >> n = m >>= λ _. n

  -- The handler of an error, `if let Err(_) = m { h }`, and of a value.
  abbrev pub handle : (A → Exec S B) → (Error → Exec S B) → Result A × S → Result B × S
  handle f h (ok a, s) = f a s
  handle f h (err e, s) = h e s

  unfoldable pub match_result : Exec S A → (A → Exec S B) → (Error → Exec S B) → Exec S B
  match_result m f h s = handle f h (m s)

-- What holds of an outcome: `Q` of the value and the state, `E` of the error and the state.
abbrev pub Outcome {ℓ} :
    {S A : Type ℓ} → (A → S → Type ℓ) → (Error → S → Type ℓ) → Result A × S → Type ℓ
Outcome Q E (ok a, s) = Q a s
Outcome Q E (err e, s) = E e s

-- From every state with `P` the action ends in `Q`, or fails in `E`.
pub record Triple {ℓ} {S A : Type ℓ} (P : S → Type ℓ) (m : Exec S A) (Q : A → S → Type ℓ)
    (E : Error → S → Type ℓ) : Type ℓ where
  pub at : (s : S) → P s → Outcome Q E (m s)

module _ {ℓ} {S A : Type ℓ} {P : S → Type ℓ} {Q : A → S → Type ℓ} {E : Error → S → Type ℓ} where
  pub Triple-pure : (a : A) → ((s : S) → P s → Q a s) → Triple P (pure a) Q E
  unfolding pure
  Triple-pure a h = record { at = h }

  pub Triple-raise : (e : Error) → ((s : S) → P s → E e s) → Triple P (raise e) Q E
  unfolding raise
  Triple-raise e h = record { at = h }

  -- A fact in the precondition that is not about the state is a hypothesis.
  pub Triple-assume :
      {H : Type ℓ} {m : Exec S A} → (H → Triple P m Q E) → Triple (λ s. H × P s) m Q E
  Triple-assume h = record { at = λ s p. (h p.0).at s p.1 }

  pub Triple-lift :
      (r : Result A)
      → ((a : A) → r ≡ ok a → (s : S) → P s → Q a s)
      → ((e : Error) → r ≡ err e → (s : S) → P s → E e s)
      → Triple P (lift r) Q E
  unfolding lift
  Triple-lift (ok a) f g = record { at = λ s p. f a refl s p }
  Triple-lift (err e) f g = record { at = λ s p. g e refl s p }

module _ {ℓ} {S A : Type ℓ} where
  Outcome-weaken :
      {Q R : A → S → Type ℓ} {E F : Error → S → Type ℓ} (r : Result A × S)
      → Outcome Q E r
      → ((a : A) (s : S) → Q a s → R a s)
      → ((e : Error) (s : S) → E e s → F e s)
      → Outcome R F r
  Outcome-weaken (ok a, s) o f g = f a s o
  Outcome-weaken (err e, s) o f g = g e s o

  pub Triple-weaken :
      {P P' : S → Type ℓ} {Q R : A → S → Type ℓ} {E F : Error → S → Type ℓ} {m : Exec S A}
      → Triple P m Q E
      → ((s : S) → P' s → P s)
      → ((a : A) (s : S) → Q a s → R a s)
      → ((e : Error) (s : S) → E e s → F e s)
      → Triple P' m R F
  Triple-weaken {m = m} t p f g = record { at = λ s h. Outcome-weaken (m s) (t.at s (p s h)) f g }

module _ {ℓ} {S A B : Type ℓ} where
  handle-Outcome :
      {R : A → S → Type ℓ} {F : Error → S → Type ℓ} {Q : B → S → Type ℓ} {E : Error → S → Type ℓ}
      (f : A → Exec S B) (h : Error → Exec S B) (r : Result A × S)
      → Outcome R F r
      → ((a : A) → Triple (R a) (f a) Q E)
      → ((e : Error) → Triple (F e) (h e) Q E)
      → Outcome Q E (handle f h r)
  handle-Outcome f h (ok a, s) o tf th = (tf a).at s o
  handle-Outcome f h (err e, s) o tf th = (th e).at s o

  continue-Outcome :
      {R : A → S → Type ℓ} {Q : B → S → Type ℓ} {E : Error → S → Type ℓ} (f : A → Exec S B)
      (r : Result A × S)
      → Outcome R E r
      → ((a : A) → Triple (R a) (f a) Q E)
      → Outcome Q E (continue f r)
  continue-Outcome f (ok a, s) o tf = (tf a).at s o
  continue-Outcome f (err e, s) o tf = o

  pub Triple-bind :
      {P : S → Type ℓ} {R : A → S → Type ℓ} {Q : B → S → Type ℓ} {E : Error → S → Type ℓ}
      (m : Exec S A) (f : A → Exec S B)
      → Triple P m R E
      → ((a : A) → Triple (R a) (f a) Q E)
      → Triple P (m >>= f) Q E
  unfolding ◌>>=◌
  Triple-bind m f t tf = record { at = λ s p. continue-Outcome f (m s) (t.at s p) tf }

  -- The rest may use that the lifted result is a value.
  pub Triple-bind-lift :
      {P : S → Type ℓ} {Q : B → S → Type ℓ} {E : Error → S → Type ℓ} (r : Result A)
      (f : A → Exec S B)
      → ((a : A) → r ≡ ok a → Triple P (f a) Q E)
      → ((e : Error) → r ≡ err e → (s : S) → P s → E e s)
      → Triple P (lift r >>= f) Q E
  unfolding ◌>>=◌
  Triple-bind-lift (ok a) f h g = h a refl
  Triple-bind-lift (err e) f h g = record { at = λ s p. g e refl s p }

  pub Triple-match :
      {P : S → Type ℓ} {R : A → S → Type ℓ} {F : Error → S → Type ℓ} {Q : B → S → Type ℓ}
      {E : Error → S → Type ℓ} (m : Exec S A) (f : A → Exec S B) (h : Error → Exec S B)
      → Triple P m R F
      → ((a : A) → Triple (R a) (f a) Q E)
      → ((e : Error) → Triple (F e) (h e) Q E)
      → Triple P (match_result m f h) Q E
  unfolding match_result
  Triple-match m f h t tf th = record { at = λ s p. handle-Outcome f h (m s) (t.at s p) tf th }

module _ {ℓ} {S A : Type ℓ} where
  attempt_Outcome :
      {Q : A → S → Type ℓ} {E : Error → S → Type ℓ} (R : Result A → S → Type ℓ)
      (F : Error → S → Type ℓ) (r : Result A × S)
      → Outcome Q E r
      → ((a : A) (s : S) → Q a s → R (ok a) s)
      → ((e : Error) (s : S) → E e s → R (err e) s)
      → Outcome R F (ok r.0, r.1)
  attempt_Outcome R F (ok a, s) o f g = f a s o
  attempt_Outcome R F (err e, s) o f g = g e s o

  pub Triple-attempt :
      {P : S → Type ℓ} {Q : A → S → Type ℓ} {E : Error → S → Type ℓ} {R : Result A → S → Type ℓ}
      {F : Error → S → Type ℓ} (m : Exec S A)
      → Triple P m Q E
      → ((a : A) (s : S) → Q a s → R (ok a) s)
      → ((e : Error) (s : S) → E e s → R (err e) s)
      → Triple P (attempt m) R F
  unfolding attempt
  Triple-attempt {R = R} {F = F} m t f g = record {
    at = λ s p. attempt_Outcome R F (m s) (t.at s p) f g;
  }

  -- An action on an optional value.
  pub Triple-option :
      {B : Type ℓ} {P : S → Type ℓ} {Q : A → S → Type ℓ} {E : Error → S → Type ℓ} (o : Option B)
      (m : Exec S A) (f : B → Exec S A)
      → Triple P m Q E
      → ((b : B) → Triple P (f b) Q E)
      → Triple P (elim o [ none ↦ m | some b ↦ f b ]) Q E
  Triple-option none m f tm tf = tm
  Triple-option (some b) m f tm tf = tf b

  true_Outcome : (r : Result A × S) → Outcome (λ _ _. Unit) (λ _ _. Unit) r
  true_Outcome (ok a, s) = tt
  true_Outcome (err e, s) = tt

  -- Of every action, at least nothing.
  pub Triple-true : (m : Exec S A) → Triple (λ _. Unit) m (λ _ _. Unit) (λ _ _. Unit)
  Triple-true m = record { at = λ s _. true_Outcome (m s) }
