-- ===== src/Host.antt =====
-- What the program does not implement: the system calls of FreeBSD, the crate jail, and reading a
-- configuration file. Every call is an action on the state of the system, and may fail.
use knast.Base.{ℕ, Text, Option, List}
use knast.Base.Exec.{Exec}
use knast.Base.Int.{ℤ}
use knast.Baustelle.RuntimeConfig.{RuntimeConfig}
use knast.Libknast.Filesystem.{Kernel}
use knast.Netzwerk.PfRequests.{PfConstants, PfiocTrans, PfiocPooladdr, PfiocRule, PfrTable, PfrAddr}
use knast.Netzwerk.RouteMessages.{RtMsg}
use knast.Netzwerk.Range.{IpNetwork}

-- waitpid(2): a normal exit with its code, or anything else.
pub data WaitStatus : Type 0 where
  exited : ℤ → WaitStatus
  other : WaitStatus

-- std::process::Command: what its builder's methods set. A stream is a descriptor.
pub record Command : Type 0 where
  pub program : Text
  pub args : List Text
  -- The variables, sorted by their names.
  pub envs : List (Text × Text)
  pub current_dir : Option Text
  pub uid : Option ℕ
  pub gid : Option ℕ
  pub stdin : Option ℕ
  pub stdout : Option ℕ
  pub stderr : Option ℕ

pub record Host : Type 1 where
  -- The crate ipnetwork.
  pub ip : IpNetwork
  pub kernel : Kernel
  pub open kernel use {Os}
  -- A file that holds a runtime configuration.
  pub read_config : Text → Exec Os RuntimeConfig
  -- The crate jail: `start` with vnet, allow.raw_sockets and enforce_statfs set to 1.
  pub Jail : Type 0
  pub jid : Jail → ℤ
  pub start_jail : Text → Text → Exec Os Jail
  pub from_name : Text → Exec Os Jail
  pub defer_cleanup : Jail → Exec Os (Unit {0})
  -- Processes. `attach` and `kill` run in a forked child.
  pub fork : Exec Os (Unit {0})
  pub wait_child : Exec Os WaitStatus
  -- Reading and parsing what the child wrote.
  pub read_child : Exec Os (Unit {0})
  pub attach : Jail → Exec Os (Unit {0})
  pub kill : ℤ → ℤ → Exec Os (Unit {0})
  pub spawn : Jail → Command → Exec Os ℕ
  pub waitpid : ℤ → Exec Os WaitStatus
  pub now : Exec Os ℕ
  -- The requests on an interface; SIOCIFCREATE fills in the name that was given to it.
  pub socket : Exec Os (Unit {0})
  pub if_create : Text → Exec Os Text
  pub if_rename : Text → Text → Exec Os (Unit {0})
  pub if_vnet : Text → ℤ → Exec Os (Unit {0})
  pub if_address : Text → ℕ → ℕ → ℕ → Exec Os (Unit {0})
  -- SIOCGIFCAP, whose answer is not looked at.
  pub if_capabilities : Text → Exec Os (Unit {0})
  pub if_destroy : Text → Exec Os (Unit {0})
  pub bridge_request : Text → ℕ → Text → Exec Os (Unit {0})
  -- The routing socket, and a write to it.
  pub route_socket : Exec Os (Unit {0})
  pub route_write : RtMsg → Exec Os (Unit {0})
  -- pf(4): opening the device, and the requests on it.
  pub pf_open : Exec Os (Unit {0})
  pub pf_constants : PfConstants
  -- What the kernel writes back is the result: DIOCXBEGIN and DIOCBEGINADDRS give a ticket.
  pub pf_begin : PfiocTrans → Exec Os ℕ
  pub pf_begin_addresses : Exec Os ℕ
  pub pf_add_address : PfiocPooladdr → Exec Os (Unit {0})
  pub pf_add_rule : PfiocRule → Exec Os (Unit {0})
  pub pf_commit : PfiocTrans → Exec Os (Unit {0})
  pub pf_rollback : PfiocTrans → Exec Os (Unit {0})
  -- A table, and an address for a table.
  pub pf_add_table : PfrTable → Exec Os (Unit {0})
  pub pf_add_table_address : PfrTable → PfrAddr → Exec Os (Unit {0})
