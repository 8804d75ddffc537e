-- ===== src/Netzwerk/Pf/Rules.antt =====
-- netzwerk/src/pf.rs: the names in the NAT rule and in its table.
use knast.Base.{
  ℕ, ◌<◌, Text, codes, some, [], ◌∷◌, ◌++◌, false, ◌≡◌, refl, arith, contains, length,
  length-append, ap, sym, ◌∙◌,
}
use knast.Base.Exec.{
  ok-injective, Triple-assume, Result, ok, lift, Triple, Triple-bind, Triple-pure, Triple-lift,
}
use knast.Host.{Host}
use knast.Netzwerk.Interface.{c_string, copy, zeroed, of_copy}
use knast.Netzwerk.Interface.Name.{copy_fits, c_string-copy, c_string-zeroed, length-zeroed}
use knast.Netzwerk.PfRequests.{PfiocRule, PfrTable}
use knast.Netzwerk.Pf.{anchor, table_name, new_rule, translating}

-- A copy of a C string in an array that is long enough.
copied_string :
    (size : ℕ) (n : Text)
    → contains 0 n ≡ false
    → length n < size
    → (b : Text) × (of_copy (copy (zeroed size) (n ++ 0 ∷ [])) ≡ ok b) × (c_string b ≡ some n)
unfolding of_copy
copied_string size n z h =
    let p : copy (zeroed size) (n ++ 0 ∷ []) ≡ some _ =
      copy_fits (zeroed size) (n ++ 0 ∷ [])
        (omega (arith, h, length-append n (0 ∷ []), length-zeroed size)) in
    (_, ap of_copy p, c_string-copy (zeroed size) n _ z (omega (arith, h, length-zeroed size)) p)

-- A copy of a text without its zero byte.
copied_text :
    (size : ℕ) (n : Text)
    → contains 0 n ≡ false
    → length n < size
    → (b : Text) × (of_copy (copy (zeroed size) n) ≡ ok b) × (c_string b ≡ some n)
unfolding of_copy
copied_text size n z h =
    let p : copy (zeroed size) n ≡ some _ =
      copy_fits (zeroed size) n (omega (arith, h, length-zeroed size)) in
    (_, ap of_copy p, c_string-zeroed size n _ z h p)

-- An array that is read as a name.
abbrev Holds : Text → Result Text → Type 0
Holds n r = (b : Text) × (r ≡ ok b) × (c_string b ≡ some n)

pub filled_Triple :
    {S : Type 0} {P : S → Type 0} (n : Text) (r : Result Text)
    → Holds n r
    → Triple P (lift r) (λ b s. (c_string b ≡ some n) × P s) (λ _ _. ⊥)
filled_Triple n r (b, p, q) =
    Triple-lift r (λ a h s k. (ap c_string (ok-injective a b (sym h ∙ p)) ∙ q, k))
      (λ x h _ _. absurd (ground (arith, h, p)))

-- The names of a rule and a table that belong together.
pub record Matches (interface : Text) (rule : PfiocRule) (table : PfrTable) : Type 0 where
  pub on_interface : c_string rule.ifname ≡ some interface
  pub of_table : c_string rule.src_tblname ≡ some (codes "jails")
  pub in_anchor : c_string rule.anchor ≡ some (codes "knast_anker")
  pub table_named : c_string table.pfrt_name ≡ some (codes "jails")
  pub table_in_anchor : c_string table.pfrt_anchor ≡ some (codes "knast_anker")

-- The names that a rule has.
abbrev pub Named : Text → PfiocRule → Type 0
Named interface r =
    (c_string r.ifname ≡ some interface)
    × (c_string r.src_tblname ≡ some (codes "jails"))
    × (c_string r.anchor ≡ some (codes "knast_anker"))

abbrev Table : PfrTable → Type 0
Table t =
    (c_string t.pfrt_name ≡ some (codes "jails"))
    × (c_string t.pfrt_anchor ≡ some (codes "knast_anker"))

module _ (H : Host) (anchor_fits : 11 < H.pf_constants.anchor_size)
    (table_fits : 5 < H.pf_constants.table_name_size) where
  pub anchor_copy :
      Holds (codes "knast_anker") (of_copy (copy (zeroed H.pf_constants.anchor_size) anchor))
  unfolding contains
  anchor_copy = copied_string _ (codes "knast_anker") refl anchor_fits

  table_copy :
      Holds (codes "jails") (of_copy (copy (zeroed H.pf_constants.table_name_size) table_name))
  unfolding contains
  table_copy = copied_string _ (codes "jails") refl table_fits

  pub translating_Triple :
      {P : H.Os → Type 0} (interface : Text) (ticket pool_ticket : ℕ)
      → contains 0 interface ≡ false
      → length interface < H.pf_constants.ifname_size
      → Triple P
          (translating H interface (new_rule H ticket pool_ticket))
          (λ r s. (Named interface r × (r.ticket ≡ ticket)) × P s)
          (λ _ _. ⊥)
  unfolding translating new_rule
  translating_Triple interface ticket pool_ticket z h =
      Triple-bind _ _ (filled_Triple _ _ anchor_copy) λ a. Triple-assume λ p.
        Triple-bind _ _ (filled_Triple interface _ (copied_text _ interface z h)) λ i.
          Triple-assume λ q.
            Triple-bind _ _ (filled_Triple _ _ table_copy)
              λ t. Triple-assume λ r. Triple-pure _ (λ _ k. (((q, r, p), refl), k))
