-- ===== src/Storage/Contract.antt =====
-- What storage/src/lib.rs promises of an engine: a map from a collection and a key to bytes.
use knast.Base.{
  Text, text_eq, text_eq_refl, Option, none, some, Bool, true, false, ◌&&◌, ◌≡◌, ◌⊎◌, arith,
  if◌then◌else◌, fun_ext,
}
use knast.Base.Exec.{Triple}
use knast.Storage.{StorageEngine}

abbrev pub View : Type 0
View = Text → Text → Option Text

unfoldable pub update : View → Text → Text → Option Text → View
update v t k x t' k' = if (text_eq t t') && (text_eq k k') then x else v t' k'

pub update_self : (v : View) (t k : Text) (x : Option Text) → update v t k x t k ≡ x
unfolding update
update_self v t k x = ground (arith, text_eq_refl t, text_eq_refl k)

pub update_ne_tree :
    (v : View) (t k : Text) (x : Option Text) (t' k' : Text)
    → (text_eq t t') ≡ false
    → update v t k x t' k' ≡ v t' k'
unfolding update
update_ne_tree v t k x t' k' h = ground arith

pub update_ne_key :
    (v : View) (t k : Text) (x : Option Text) (t' k' : Text)
    → (text_eq k k') ≡ false
    → update v t k x t' k' ≡ v t' k'
unfolding update
update_ne_key v t k x t' k' h = ground arith

-- A later write of a cell hides an earlier one.
pub update-update :
    (v : View) (t k : Text) (x y : Option Text) → update (update v t k x) t k y ≡ update v t k y
unfolding update
update-update v t k x y = fun_ext (λ t'. fun_ext (λ k'. ground arith))

abbrev pub is_some {ℓ} : {A : Type ℓ} → Option A → Bool
is_some none = false
is_some (some a) = true

-- `Sees v db`: the database shows the map `v`. An action that fails changes nothing. A swap is
-- only promised where it writes a value, and where the cell was empty it need not compare.
pub record Contract (e : StorageEngine) : Type 1 where
  pub Sees : View → e.Db → Type 0
  pub get_Triple :
      (v : View) (t k : Text)
      → Triple (Sees v) (e.get t k) (λ o s. (o ≡ v t k) × Sees v s) (λ _. Sees v)
  pub put_Triple :
      (v : View) (t k x : Text)
      → Triple (Sees v) (e.put t k x) (λ _. Sees (update v t k (some x))) (λ _. Sees v)
  pub swap_Triple :
      (v : View) (t k : Text) (old : Option Text) (new : Text)
      → Triple
          (Sees v)
          (e.compare_and_swap t k old (some new))
          (λ _ s. ((v t k ≡ old) ⊎ (v t k ≡ none)) × Sees (update v t k (some new)) s)
          (λ _. Sees v)
  pub remove_Triple :
      (v : View) (t k : Text)
      → Triple (Sees v) (e.remove t k) (λ _. Sees (update v t k none)) (λ _. Sees v)
  pub exists_Triple :
      (v : View) (t k : Text)
      → Triple (Sees v) (e.exists t k) (λ b s. (b ≡ is_some (v t k)) × Sees v s) (λ _. Sees v)
  pub flush_Triple : (v : View) → Triple (Sees v) e.flush (λ _. Sees v) (λ _. Sees v)
