-- ===== src/Tests/Network.antt =====
-- The networks of containers on an SQLite file and a host whose calls succeed.
use knast.Base.{
  ℕ, ◌-◌, Text, codes, text_eq, none, some, false, List, ◌∷◌, ◌≡◌, ◌≢◌, refl, ◌⊎◌, contains, arith,
}
use knast.Base.Exec.{ok, ◌>>=◌, Triple}
use knast.Storage.Sqlite.{engine}
use knast.Storage.Sqlite.Contract.{contract}
use knast.Storage.Sqlite.Tables.{Sees}
use knast.Netzwerk.Range.{range, broadcast}
use knast.Netzwerk.Range.Laws.{addresses, size}
use knast.Netzwerk.Interface
use knast.Netzwerk.Interface.Name.{name-get_name}
use knast.Libknast.Network.{get_address, free_address, setup}
use knast.Libknast.AddressPool.{take_address, default_range, Addresses}
use knast.Libknast.Network.Frame.{Framed, setup-Framed}
use knast.Libknast.Network.Allocation.{
  pool, Pool, pool-Ordered, get_address_Triple, get_free_address,
}
use knast.Libknast.AddressPool.Order.{broadcast_first}
use knast.Storage.Contract.{update}
use knast.Storage.Sqlite.Contract.Answers.{Up, reliable}
use knast.Libknast.AddressPool.{network_state, default_network}
use knast.Libknast.Network.Pool.Fuel.{get_address_total}
use knast.Netzwerk.Pf
use knast.Netzwerk.Pf.Transactions.{Rulesets, PfLaws}
use knast.Netzwerk.PfRequests.{PfiocRule}
use knast.Tests.World.{ipv4, ipv4_laws, Rules, pf_host, host, empty_view}
use knast.Tests.Formats.{heap_codec, heap_laws, cache_codec, cache_laws}

setup_example :
    Framed engine contract host heap_codec heap_laws cache_codec cache_laws empty_view
      (setup engine host heap_codec cache_codec 3 (codes "web") 7 (some (codes "em0")))
setup_example =
    setup-Framed engine contract host heap_codec heap_laws cache_codec cache_laws empty_view 3
      (codes "web") 7 (some (codes "em0"))

get_address_example :
    Triple
      (Sees empty_view)
      (get_address engine host heap_codec cache_codec 3)
      (λ a s.
        (rest : List ℕ) × (pool host none ≡ a ∷ rest)
        × Pool engine contract host heap_codec heap_laws cache_codec empty_view rest s)
      (λ _ s.
        Sees empty_view s
        ⊎ Pool engine contract host heap_codec heap_laws cache_codec empty_view (pool host none) s)
get_address_example =
    get_address_Triple engine contract host heap_codec heap_laws cache_codec 3 empty_view none tt
      (pool-Ordered host ipv4_laws)

get_free_address_example :
    Triple
      (Sees empty_view)
      (get_address engine host heap_codec cache_codec 3 >>= λ a.
        free_address engine host heap_codec cache_codec 3 a)
      (λ _. Pool engine contract host heap_codec heap_laws cache_codec empty_view (pool host none))
      (λ _ _. Unit)
get_free_address_example =
    get_free_address engine contract host heap_codec heap_laws cache_codec 3 empty_view none tt
      (pool-Ordered host ipv4_laws)

default_not_last : broadcast ipv4 default_range ≢ 4294967295
unfolding broadcast
default_not_last p = ground arith

broadcast_first_example :
    take_address (range ipv4 default_range)
    ≡ ok (broadcast ipv4 default_range, addresses default_range.base (size default_range - 1))
broadcast_first_example = broadcast_first ipv4 ipv4_laws default_range default_not_last

abbrev web_addresses : Addresses
web_addresses = record { interface = codes "epair0a"; host = 2887319550; container = 2887319549 }

other_key : text_eq (codes "web") (codes "db") ≡ false
unfolding text_eq
other_key = refl

no_zero_bridge : contains 0 (codes "bridge") ≡ false
unfolding contains
no_zero_bridge = refl

no_zero_knast : contains 0 (codes "knast0") ≡ false
unfolding contains
no_zero_knast = refl

name_example :
    Triple
      (λ _. Unit)
      (Interface.new host (codes "bridge") >>= λ i.
        Interface.name host i (codes "knast0") >>= λ j. Interface.get_name host j)
      (λ r _. r ≡ codes "knast0")
      (λ _ _. Unit)
name_example =
    name-get_name host (codes "bridge") (codes "knast0") no_zero_bridge (omega arith) no_zero_knast
      (omega arith)

abbrev rest_of_default : List ℕ
rest_of_default = addresses default_range.base (size default_range - 1)

default_taken : take_address (pool host none) ≡ ok (broadcast ipv4 default_range, rest_of_default)
default_taken = broadcast_first ipv4 ipv4_laws default_range default_not_last

get_address_total_example :
    Triple
      (λ s. Sees empty_view s × Up s)
      (get_address engine host heap_codec cache_codec 2)
      (λ r s.
        (r ≡ broadcast ipv4 default_range)
        × (Sees (update empty_view network_state default_network (some rest_of_default)) s × Up s))
      (λ _ _. ⊥)
get_address_total_example =
    get_address_total engine contract Up reliable host heap_codec heap_laws cache_codec 0 empty_view
      none (broadcast ipv4 default_range) rest_of_default (pool host none) rest_of_default tt
      default_taken refl refl

abbrev IsCommitted : Rulesets → Rules → Type 0
IsCommitted cs s = s.committed ≡ cs

abbrev IsPending : Rulesets → ℕ → Text → List PfiocRule → Rules → Type 0
IsPending cs t a rs s = (s.committed ≡ cs) × (s.pending ≡ rs)

pf_laws : PfLaws pf_host
pf_laws = record {
  Committed = IsCommitted;
  Pending = IsPending;
  Pending-Committed = λ cs t a rs s p. p.0;
  open_Triple = λ cs. record { at = λ s p. p };
  begin_Triple = λ cs r a n. record { at = λ s p. (p, refl) };
  begin_addresses_Triple = λ cs t a. record { at = λ s p. p };
  add_address_Triple = λ cs t a r. record { at = λ s p. p };
  add_rule_Triple = λ cs t a rs r h n. record { at = λ s (p, q). (p, rw q refl) };
  commit_Triple = λ cs a rs r n. record { at = λ s (p, q). rw (n, p, q) refl };
  rollback_Triple = λ cs a rs r. record { at = λ s p. p.0 };
}
