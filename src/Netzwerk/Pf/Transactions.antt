-- ===== src/Netzwerk/Pf/Transactions.antt =====
-- netzwerk/src/pf.rs: which rulesets are committed when the setup of the NAT rule ends.
use knast.Base.{
  ℕ, ◌<◌, Text, codes, Option, none, some, List, [], ◌∷◌, ◌++◌, ◌≡◌, refl, ◌⊎◌, inl, inr, arith,
  contains, false, length,
}
use knast.Base.Exec.{
  Exec, Error, message, foreign, exhausted, panic, ok, Triple, Triple-bind, Triple-pure,
  Triple-raise, Triple-match, Triple-weaken, Triple-bind-lift, Triple-assume, ok-injective, ◌>>◌,
}
use knast.Host.{Host}
use knast.Netzwerk.Interface.{c_string, copy, zeroed}
use knast.Netzwerk.Interface.Name.{c_string-copy, c_string-zeroed, of_copy-ok, length-zeroed}
use knast.Netzwerk.PfRequests.{PfiocTrans, PfiocPooladdr, PfiocRule}
use knast.Netzwerk.Pf.{
  anchor, anchor_buffer, fill, transaction_struct, transaction, rolled_back, add_address, add_rule,
  calling, translating, new, new_rule,
}
use knast.Netzwerk.Pf.Rules.{filled_Triple, anchor_copy, Named, translating_Triple}

-- The committed rulesets: the anchor of each and its rules, the last one first.
abbrev pub Rulesets : Type 0
Rulesets = List (Text × List PfiocRule)

-- What pf(4) documents of transactions: one is opened for the ruleset of an anchor; a rule with
-- its ticket is appended to the ruleset that it has so far; a commit puts these rules in force,
-- and no other request changes what is in force. A request that fails changes nothing, except
-- that it may end the transaction.
pub record PfLaws (H : Host) : Type 1 where
  pub Committed : Rulesets → H.Os → Type 0
  -- A transaction with a ticket, for an anchor, that has some rules.
  pub Pending : Rulesets → ℕ → Text → List PfiocRule → H.Os → Type 0
  pub Pending-Committed :
      (cs : Rulesets) (t : ℕ) (a : Text) (rs : List PfiocRule) (s : H.Os)
      → Pending cs t a rs s
      → Committed cs s
  pub open_Triple :
      (cs : Rulesets) → Triple (Committed cs) H.pf_open (λ _. Committed cs) (λ _. Committed cs)
  pub begin_Triple :
      (cs : Rulesets) (r : PfiocTrans) (a : Text)
      → c_string r.anchor ≡ some a
      → Triple (Committed cs) (H.pf_begin r) (λ t. Pending cs t a []) (λ _. Committed cs)
  pub begin_addresses_Triple :
      (cs : Rulesets) (t : ℕ) (a : Text)
      → Triple (Pending cs t a []) H.pf_begin_addresses (λ _. Pending cs t a []) (λ _. Committed cs)
  pub add_address_Triple :
      (cs : Rulesets) (t : ℕ) (a : Text) (r : PfiocPooladdr)
      → Triple
          (Pending cs t a [])
          (H.pf_add_address r)
          (λ _. Pending cs t a [])
          (λ _. Pending cs t a [])
  pub add_rule_Triple :
      (cs : Rulesets) (t : ℕ) (a : Text) (rs : List PfiocRule) (r : PfiocRule)
      → r.ticket ≡ t
      → c_string r.anchor ≡ some a
      → Triple
          (Pending cs t a rs)
          (H.pf_add_rule r)
          (λ _. Pending cs t a (rs ++ r ∷ []))
          (λ _. Pending cs t a rs)
  pub commit_Triple :
      (cs : Rulesets) (a : Text) (rs : List PfiocRule) (r : PfiocTrans)
      → c_string r.anchor ≡ some a
      → Triple
          (Pending cs r.ticket a rs)
          (H.pf_commit r)
          (λ _. Committed ((a, rs) ∷ cs))
          (λ _. Committed cs)
  pub rollback_Triple :
      (cs : Rulesets) (a : Text) (rs : List PfiocRule) (r : PfiocTrans)
      → Triple (Pending cs r.ticket a rs) (H.pf_rollback r) (λ _. Committed cs) (λ _. Committed cs)

-- The main ruleset has the empty name.
main_named : (b : Text) → anchor_buffer none ≡ ok b → c_string b ≡ some []
unfolding anchor_buffer copy contains
main_named b p =
    c_string-zeroed 1024 [] b refl (omega arith) (rw (ok-injective (zeroed 1024) b p) refl)

anchor_named :
    (b : Text) → anchor_buffer (some anchor) ≡ ok b → c_string b ≡ some (codes "knast_anker")
unfolding anchor_buffer contains
anchor_named b p =
    c_string-copy (zeroed 1024) (codes "knast_anker") b refl (omega (arith, length-zeroed 1024))
      (of_copy-ok _ b p)

empty_named : (size : ℕ) → 0 < size → c_string (zeroed size) ≡ some []
unfolding copy contains
empty_named size h = c_string-zeroed size [] (zeroed size) refl h refl

-- A rule of the main ruleset that calls the anchor.
abbrev pub Calls : PfiocRule → Type 0
Calls r = (c_string r.anchor ≡ some []) × (c_string r.anchor_call ≡ some (codes "knast_anker"))

module _ (H : Host) (L : PfLaws H) where
  open L use {Committed, Pending}

  rolled_back_Triple :
      (cs : Rulesets) (a : Text) {Q : Unit {0} → H.Os → Type 0} (r : PfiocTrans) (e : Error)
      → Triple (Pending cs r.ticket a []) (rolled_back H r e) Q (λ _. Committed cs)
  unfolding rolled_back
  rolled_back_Triple cs a r panic = Triple-raise panic (L.Pending-Committed cs r.ticket a [])
  rolled_back_Triple cs a r (message m) =
      Triple-bind _ _ (L.rollback_Triple cs a [] r) λ _. Triple-raise (message m) (λ _ p. p)
  rolled_back_Triple cs a r (foreign m) =
      Triple-bind _ _ (L.rollback_Triple cs a [] r) λ _. Triple-raise (foreign m) (λ _ p. p)
  rolled_back_Triple cs a r exhausted =
      Triple-bind _ _ (L.rollback_Triple cs a [] r) λ _. Triple-raise exhausted (λ _ p. p)

  -- One rule of a kind is pending.
  abbrev Adds : Rulesets → ℕ → Text → (PfiocRule → Type 0) → H.Os → Type 0
  Adds cs t a Good s = (r : PfiocRule) × Good r × Pending cs t a (r ∷ []) s

  -- One rule of a kind is committed for an anchor.
  abbrev pub Commits : Rulesets → Text → (PfiocRule → Type 0) → H.Os → Type 0
  Commits cs a Good s = (r : PfiocRule) × Good r × Committed ((a, r ∷ []) ∷ cs) s

  commit_one :
      (cs : Rulesets) (a : Text) (Good : PfiocRule → Type 0) (r : PfiocTrans)
      → c_string r.anchor ≡ some a
      → Triple
          (Adds cs r.ticket a Good)
          (H.pf_commit r)
          (λ _. Commits cs a Good)
          (λ _. Committed cs)
  commit_one cs a Good r n = record {
    at = λ s (rule, good, p).
        (Triple-weaken (L.commit_Triple cs a (rule ∷ []) r n) (λ _ p. p) (λ _ _ q. (rule, good, q))
            (λ _ _ q. q)).at
          s p;
  }

  -- A transaction that succeeds commits the rule of its body, and one that fails, in its body or
  -- outside it, commits nothing.
  transaction_Triple :
      (cs : Rulesets) (o : Option Text) (a : Text) (Good : PfiocRule → Type 0)
      (body : ℕ → ℕ → Exec H.Os (Unit {0}))
      → ((b : Text) → anchor_buffer o ≡ ok b → c_string b ≡ some a)
      → ((ticket pool_ticket : ℕ)
          → Triple
              (Pending cs ticket a [])
              (body ticket pool_ticket)
              (λ _. Adds cs ticket a Good)
              (λ _. Pending cs ticket a []))
      → Triple (Committed cs) (transaction H o body) (λ _. Commits cs a Good) (λ _. Committed cs)
  unfolding transaction transaction_struct
  transaction_Triple cs o a Good body named h =
      Triple-bind _ _
        (Triple-bind-lift {Q = λ r s. (c_string r.anchor ≡ some a) × Committed cs s} _ _
          (λ b p. Triple-pure _ (λ _ t. (named b p, t))) (λ _ _ _ t. t))
        λ r. Triple-assume λ n. Triple-bind _ _ (L.begin_Triple cs r a n) λ ticket.
          Triple-bind _ _ (L.begin_addresses_Triple cs ticket a) λ pool_ticket.
            Triple-match _ _ _ (h ticket pool_ticket)
              (λ _. commit_one cs a Good (record r { ticket = ticket }) n)
              (λ e. rolled_back_Triple cs a (record r { ticket = ticket }) e)

  add_rule_Triple :
      (cs : Rulesets) (a : Text) (Good : PfiocRule → Type 0) (ticket pool_ticket : ℕ)
      (overrides : PfiocRule → Exec H.Os PfiocRule)
      → ((r : PfiocRule) → Good r → c_string r.anchor ≡ some a)
      → Triple
          (Pending cs ticket a [])
          (overrides (new_rule H ticket pool_ticket))
          (λ r s. (Good r × (r.ticket ≡ ticket)) × Pending cs ticket a [] s)
          (λ _ _. ⊥)
      → Triple
          (Pending cs ticket a [])
          (add_rule H ticket pool_ticket overrides)
          (λ _. Adds cs ticket a Good)
          (λ _. Pending cs ticket a [])
  unfolding add_rule
  add_rule_Triple cs a Good ticket pool_ticket overrides in_anchor t =
      Triple-bind _ _ (Triple-weaken t (λ _ p. p) (λ _ _ p. p) (λ _ _ p. absurd p)) λ r.
        Triple-assume λ (good, of_ticket).
          Triple-weaken (L.add_rule_Triple cs ticket a [] r of_ticket (in_anchor r good)) (λ _ p. p)
            (λ _ _ p. (r, good, p)) (λ _ _ p. p)

  add_address_Triple :
      (cs : Rulesets) (ticket pool_ticket : ℕ) (a interface : Text)
      → Triple
          (Pending cs ticket a [])
          (add_address H pool_ticket interface)
          (λ _. Pending cs ticket a [])
          (λ _. Pending cs ticket a [])
  unfolding add_address fill
  add_address_Triple cs ticket pool_ticket a interface =
      Triple-bind-lift _ _ (λ _ _. L.add_address_Triple cs ticket a _) (λ _ _ _ t. t)

  module _ (anchor_fits : 11 < H.pf_constants.anchor_size)
      (table_fits : 5 < H.pf_constants.table_name_size) where
    calling_Triple :
        {P : H.Os → Type 0} (ticket pool_ticket : ℕ)
        → Triple P
            (calling H (new_rule H ticket pool_ticket))
            (λ r s. (Calls r × (r.ticket ≡ ticket)) × P s)
            (λ _ _. ⊥)
    unfolding calling new_rule
    calling_Triple ticket pool_ticket =
        Triple-bind _ _ (filled_Triple _ _ (anchor_copy H anchor_fits table_fits)) λ c.
          Triple-assume
            λ p. Triple-pure _ (λ _ k. (((empty_named _ (omega (arith, anchor_fits)), p), refl), k))

    pub new_Triple :
        (cs : Rulesets) (interface : Text)
        → contains 0 interface ≡ false
        → length interface < H.pf_constants.ifname_size
        → Triple
            (Committed cs)
            (new H interface)
            (λ _ s.
              (call : PfiocRule) × Calls call
              × Commits (([], call ∷ []) ∷ cs) (codes "knast_anker") (Named interface) s)
            (λ _ s. Committed cs s ⊎ Commits cs [] Calls s)
    unfolding new
    new_Triple cs interface z fits =
        Triple-bind _ _ (Triple-weaken (L.open_Triple cs) (λ _ p. p) (λ _ _ p. p) (λ _ _ p. inl p))
          λ _.
            Triple-bind _ _
              (Triple-weaken
                (transaction_Triple cs none [] Calls _ main_named (λ ticket pool_ticket.
                  add_rule_Triple cs [] Calls ticket pool_ticket (calling H) (λ _ good. good.0)
                    (calling_Triple ticket pool_ticket)))
                (λ _ p. p) (λ _ _ p. p) (λ _ _ p. inl p))
              λ _. record {
                at = λ s (call, calls, p).
                    (Triple-weaken (translated (([], call ∷ []) ∷ cs)) (λ _ p. p)
                        (λ _ _ p. (call, calls, p)) (λ _ _ p. inr (call, calls, p))).at
                      s p;
              }
      where
        translated :
            (ds : Rulesets)
            → Triple
                (Committed ds)
                (transaction H (some anchor) (λ ticket pool_ticket. do
                  add_address H pool_ticket interface
                  add_rule H ticket pool_ticket (translating H interface)))
                (λ _. Commits ds (codes "knast_anker") (Named interface))
                (λ _. Committed ds)
        translated ds =
            transaction_Triple ds (some anchor) (codes "knast_anker") (Named interface) _
              anchor_named
              (λ ticket pool_ticket.
                Triple-bind _ _ (add_address_Triple ds ticket pool_ticket _ interface) λ _.
                  add_rule_Triple ds _ (Named interface) ticket pool_ticket
                    (translating H interface) (λ _ (i, t, a). a)
                    (translating_Triple H anchor_fits table_fits interface ticket pool_ticket z
                      fits))
