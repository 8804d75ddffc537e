-- ===== src/Netzwerk/PfRequests.antt =====
-- netzwerk/src/pf.rs: the structures of the requests to pf(4), with the fields that are set; the
-- others are zero. Their layouts and the constants are generated from the system's headers.
use knast.Base.{ℕ, Text}
use knast.Base.Int.{ℤ}

-- Constants of the headers, and the sizes of the arrays in the structures.
pub record PfConstants : Type 0 where
  pub pf_nat : ℕ
  pub pf_ruleset_nat : ℕ
  pub pf_addr_dyniftl : ℕ
  pub pfi_aflag_noalias : ℕ
  pub pfr_tflag_persist : ℕ
  pub af_inet : ℕ
  -- `pfioc_rule.anchor` and `pfr_table.pfrt_anchor`
  pub anchor_size : ℕ
  -- `pf_rule.ifname` and `pf_addr_wrap.v.ifname`
  pub ifname_size : ℕ
  -- `pfr_table.pfrt_name` and `pf_addr_wrap.v.tblname`
  pub table_name_size : ℕ

-- One element of a transaction.
pub record PfiocTrans : Type 0 where
  pub rs_num : ℕ
  pub anchor : Text
  pub ticket : ℕ

pub record PfiocPooladdr : Type 0 where
  pub ticket : ℕ
  pub af : ℕ
  pub addr_type : ℕ
  pub iflags : ℕ
  pub ifname : Text
  pub mask : ℕ

pub record PfiocRule : Type 0 where
  pub ticket : ℕ
  pub pool_ticket : ℕ
  pub action : ℕ
  pub rtableid : ℤ
  pub anchor : Text
  pub anchor_call : Text
  pub ifname : Text
  pub src_type : ℕ
  pub src_tblname : Text
  pub af : ℕ
  pub proxy_port : ℕ × ℕ

pub record PfrTable : Type 0 where
  pub pfrt_anchor : Text
  pub pfrt_name : Text
  pub pfrt_flags : ℕ

pub record PfrAddr : Type 0 where
  pub pfra_af : ℕ
  pub pfra_net : ℕ
  pub s_addr : ℕ
