-- ===== src/Base/Honest.antt =====
-- Actions that fail only by errors of the program: never by the end of the model's fuel.
use mathlib.Core.Logic.{◌≢◌}
use knast.Base.Exec.{
  Exec, exhausted, Result, err, pure, lift, Triple, Triple-lift, Triple-bind, ◌>>=◌, Triple-pure,
}

abbrev pub Honest : {S A : Type 0} → Exec S A → Type 0
Honest m = Triple (λ _. Unit) m (λ _ _. Unit) (λ x _. x ≢ exhausted)

module _ {S A : Type 0} where
  pub Honest-lift : (r : Result A) → r ≢ err exhausted → Honest {S = S} (lift r)
  Honest-lift r p = Triple-lift r (λ _ _ _ _. tt) (λ x q _ _ e. p (cc (q, e)))

  pub Honest-pure : (a : A) → Honest {S = S} (pure a)
  Honest-pure a = Triple-pure a (λ _ _. tt)

module _ {S A B : Type 0} where
  pub Honest-bind :
      (m : Exec S A) (f : A → Exec S B) → Honest m → ((a : A) → Honest (f a)) → Honest (m >>= f)
  Honest-bind m f t tf = Triple-bind m f t tf
