-- ===== src/Storage/Sqlite/Contract/Answers.antt =====
-- storage/src/sqlite_engine.rs: the engine answers while no call fails.
use knast.Base.{
  Text, Option, none, some, true, List, [], ◌∷◌, ◌≡◌, refl, ◌⊎◌, inl, inr, arith, subst,
}
use knast.Base.Exec.{Error, Triple, Triple-weaken}
use knast.Storage.Contract.{View, update}
use knast.Storage.Reliable.{Reliable}
use knast.Storage.Sqlite.{Connection, engine, compare_and_swap, get, is}
use knast.Storage.Sqlite.Tables.{Sees, accepts, is_refl}
use knast.Storage.Sqlite.Calls.{Reports}
use knast.Storage.Sqlite.Methods
use knast.Storage.Sqlite.Contract.{contract, swap_Shows}

abbrev pub Up : Connection → Type 0
Up c = c.outcomes ≡ []

cons-nil : (o : Option Error) (os : List (Option Error)) → o ∷ os ≡ [] → ⊥
cons-nil o os p = absurd (ground arith)

pub silent_Reports : Reports (λ os. os ≡ []) (λ _. ⊥)
silent_Reports = record {
  left = λ o os p. absurd (cons-nil o os p);
  reported = λ x os p. cons-nil (some x) os p;
}

accepts_allowed : (o old : Option Text) → (o ≡ old) ⊎ (o ≡ none) → accepts old o ≡ true
unfolding accepts
accepts_allowed none old h = refl
accepts_allowed (some x) old (inl p) = subst (λ o. is (some x) o ≡ true) p (is_refl (some x))
accepts_allowed (some x) old (inr p) = absurd (ground arith)

get-Up :
    (v : View) (t k : Text)
    → Triple (λ s. Sees v s × Up s) (get t k) (λ o s. (o ≡ v t k) × (Sees v s × Up s)) (λ _ _. ⊥)
get-Up v t k =
    Triple-weaken (Methods.get_Triple silent_Reports v t k) (λ _ p. p) (λ _ _ p. p) (λ _ _ p. p.1)

swap-Up :
    (v : View) (t k : Text) (old : Option Text) (new : Text)
    → (v t k ≡ old) ⊎ (v t k ≡ none)
    → Triple
        (λ s. Sees v s × Up s)
        (compare_and_swap t k old (some new))
        (λ _ s. Sees (update v t k (some new)) s × Up s)
        (λ _ _. ⊥)
swap-Up v t k old new p =
    Triple-weaken (swap_Shows silent_Reports v t k old new) (λ _ q. q) (λ _ _ q. q.1)
      (λ _ _ q. (elim q.1 [
        | inl r ↦ absurd (ground (arith, r.1, accepts_allowed (v t k) old p))
        | inr r ↦ r
      ]))

-- It answers.
pub reliable : Reliable engine contract Up
reliable = record { get_answers = get-Up; swap_answers = swap-Up }
