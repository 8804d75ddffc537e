-- ===== src/Netzwerk/Pf.antt =====
-- netzwerk/src/pf.rs: the NAT rule of the host, set up in two transactions, and the table of the
-- networks that it translates.
pub mod Transactions
pub mod Rules
use knast.Base.{ℕ, ◌+◌, ◌*◌, ◌/◌, ◌%◌, Text, codes, Option, none, some, List, [], ◌∷◌, ◌++◌}
use knast.Base.Exec.{
  Exec, Error, message, foreign, exhausted, panic, Result, ok, err, pure, raise, lift, ◌>>=◌, ◌>>◌,
  match_result,
}
use knast.Base.Int.{ℤ, negsuc}
use knast.Host.{Host}
use knast.Netzwerk.Range.{Network}
use knast.Netzwerk.Interface.{copy, zeroed, of_copy}
use knast.Netzwerk.PfRequests.{PfiocTrans, PfiocPooladdr, PfiocRule, PfrTable, PfrAddr}

-- The constants with their zero bytes.
abbrev pub anchor : Text
anchor = codes "knast_anker" ++ 0 ∷ []

abbrev pub table_name : Text
table_name = codes "jails" ++ 0 ∷ []

abbrev pub pf_nat_port_range : ℕ × ℕ
pf_nat_port_range = (50001, 65535)

-- `u32::from_be`, on a machine whose first byte is the lowest.
unfoldable pub from_be : ℕ → ℕ
from_be n = n % 256 * 16777216 + n / 256 % 256 * 65536 + n / 65536 % 256 * 256 + n / 16777216 % 256

-- The buffer of `transaction_struct`.
unfoldable pub anchor_buffer : Option Text → Result Text
anchor_buffer none = ok (zeroed 1024)
anchor_buffer (some anchor_name) = of_copy (copy (zeroed 1024) anchor_name)

module _ (H : Host) where
  open H use {Os}

  -- `array[0..bytes.len()].copy_from_slice(bytes)` in a zeroed array.
  unfoldable pub fill : ℕ → Text → Exec Os Text
  fill size bytes = lift (of_copy (copy (zeroed size) bytes))

  pub transaction_struct : Option Text → Exec Os PfiocTrans
  transaction_struct anchor_name = do
    anchor ← lift (anchor_buffer anchor_name)
    pure (record { rs_num = H.pf_constants.pf_ruleset_nat; anchor = anchor; ticket = 0 })

  -- The arm of an error: a panic of the body runs through.
  rolled_back : PfiocTrans → Error → Exec Os (Unit {0})
  rolled_back request panic = raise panic
  rolled_back request e = do H.pf_rollback request; raise e

  -- The body has the tickets of the transaction and of the address pool. An error of the body
  -- rolls back; an error of the rollback takes its place.
  pub transaction : Option Text → (ℕ → ℕ → Exec Os (Unit {0})) → Exec Os (Unit {0})
  unfolding rolled_back
  transaction anchor_name body = do
    request ← transaction_struct anchor_name
    ticket ← H.pf_begin request
    pool_ticket ← H.pf_begin_addresses
    match_result (body ticket pool_ticket) (λ _. H.pf_commit (record request { ticket = ticket }))
        (λ e. rolled_back (record request { ticket = ticket }) e)

  pub add_address : ℕ → Text → Exec Os (Unit {0})
  add_address pool_ticket interface = do
    ifname ← fill H.pf_constants.ifname_size interface
    H.pf_add_address (record {
      ticket = pool_ticket;
      af = H.pf_constants.af_inet;
      addr_type = H.pf_constants.pf_addr_dyniftl;
      iflags = H.pf_constants.pfi_aflag_noalias;
      ifname = ifname;
      mask = 4294967295;
    })

  -- The rule that the overrides start from.
  pub new_rule : ℕ → ℕ → PfiocRule
  new_rule ticket pool_ticket = record {
    ticket = ticket;
    pool_ticket = pool_ticket;
    action = H.pf_constants.pf_nat;
    rtableid = negsuc 0;
    anchor = zeroed H.pf_constants.anchor_size;
    anchor_call = zeroed H.pf_constants.anchor_size;
    ifname = zeroed H.pf_constants.ifname_size;
    src_type = 0;
    src_tblname = zeroed H.pf_constants.table_name_size;
    af = 0;
    proxy_port = (0, 0);
  }

  pub add_rule : ℕ → ℕ → (PfiocRule → Exec Os PfiocRule) → Exec Os (Unit {0})
  unfolding new_rule
  add_rule ticket pool_ticket overrides = do
    result ← overrides (new_rule ticket pool_ticket)
    H.pf_add_rule result

  -- The overrides of the two rules.
  pub calling : PfiocRule → Exec Os PfiocRule
  calling result = do
    anchor_call ← lift (of_copy (copy result.anchor_call anchor))
    pure (record result { anchor_call = anchor_call })

  pub translating : Text → PfiocRule → Exec Os PfiocRule
  translating interface result = do
    anchor ← lift (of_copy (copy result.anchor anchor))
    ifname ← lift (of_copy (copy result.ifname interface))
    tblname ← lift (of_copy (copy result.src_tblname table_name))
    pure (record result {
      anchor = anchor;
      ifname = ifname;
      src_type = 3;
      af = H.pf_constants.af_inet;
      proxy_port = pf_nat_port_range;
      src_tblname = tblname;
    })

  -- Pf::new opens the device and initializes the NAT rule.
  pub new : Text → Exec Os (Unit {0})
  new interface = do
    H.pf_open
    transaction none (λ ticket pool_ticket. add_rule ticket pool_ticket calling)
    transaction (some anchor) (λ ticket pool_ticket. do
      add_address pool_ticket interface
      add_rule ticket pool_ticket (translating interface))

  pub table_struct : Exec Os PfrTable
  table_struct = do
    pfrt_anchor ← fill H.pf_constants.anchor_size anchor
    pfrt_name ← fill H.pf_constants.table_name_size table_name
    pure (record { pfrt_anchor = pfrt_anchor; pfrt_name = pfrt_name; pfrt_flags = 0 })

  pub create_table : Exec Os (Unit {0})
  create_table = do
    table ← table_struct
    H.pf_add_table (record table { pfrt_flags = H.pf_constants.pfr_tflag_persist })

  pub add_address_to_table : Network → Exec Os (Unit {0})
  add_address_to_table address = do
    table ← table_struct
    H.pf_add_table_address table (record {
      pfra_af = H.pf_constants.af_inet;
      pfra_net = address.prefix;
      s_addr = from_be address.base;
    })

  -- Nat::add
  pub add : Network → Exec Os (Unit {0})
  add subnet = do create_table; add_address_to_table subnet
