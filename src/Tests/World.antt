-- ===== src/Tests/World.antt =====
-- A host, a database and formats of values, for the applications of the theorems.
use knast.Netzwerk.Range.{IpNetwork}
use knast.Netzwerk.Range.Laws.{IpLaws, ascending, size}
use knast.Base.{◌+◌, ◌-◌, ◌^◌, refl}
use knast.Netzwerk.Interface.{c_string}
use knast.Netzwerk.PfRequests.{PfiocRule}
use knast.Base.{ℕ, suc, Text, codes, Option, none, some, List, [], ◌∷◌, ◌++◌}
use knast.Base.Exec.{Exec, ok}
use knast.Base.Int.{pos}
use knast.Storage.Contract.{View}
use knast.Storage.Sqlite.{Connection, migration}
use knast.Storage.Sqlite
use knast.Baustelle.RuntimeConfig.{RuntimeConfig}
use knast.Host.{Host, exited}
use knast.Libknast.World.{World}

-- A call that succeeds, and what it does to the state of the system.
abbrev pub call : {Os A : Type 0} → (Os → Os) → A → Exec Os A
call step a s = (ok a, step s)

abbrev pub rooted : Text → RuntimeConfig
rooted path = record {
  oci_version = [];
  root = some (record { path = path; readonly = none });
  mounts = none;
  process = none;
  hooks = none;
  annotations = none;
}

abbrev pub bundle : RuntimeConfig
bundle = rooted (codes "rootfs")

-- The networks as ipnetwork documents them.
abbrev pub ipv4 : IpNetwork
ipv4 = record {
  network_iter = λ n. ascending n.base (size n);
  network_broadcast = λ n. n.base + (size n - 1);
  network_mask = λ n. 2 ^ 32 - size n;
}

pub ipv4_laws : IpLaws ipv4
ipv4_laws = record { iterates = λ n. refl; broadcasts = λ n. refl }

abbrev pub read_name : Option Text → Text
read_name none = []
read_name (some name) = name

abbrev pub host_of :
    (Os : Type 0) → (Os → Os) → (Os → Os) → (PfiocRule → Os → Os) → (Text → Os → Os) → Host
host_of Os step begin add_rule commit = record {
  ip = ipv4;
  kernel = record {
    Os = Os;
    nmount = λ _. call step tt;
    unmount = λ _. call step tt;
    devfs_apply = λ _ _. call step tt;
  };
  read_config = λ _. call step bundle;
  Jail = ℕ;
  jid = λ jail. pos jail;
  start_jail = λ _ _. call step 7;
  from_name = λ _. call step 7;
  defer_cleanup = λ _. call step tt;
  fork = call step tt;
  wait_child = call step (exited (pos 0));
  read_child = call step tt;
  attach = λ _. call step tt;
  kill = λ _ _. call step tt;
  spawn = λ _ _. call step 42;
  waitpid = λ _. call step (exited (pos 3));
  now = call step 1000;
  socket = call step tt;
  if_create = λ name. call step name;
  if_rename = λ _ _. call step tt;
  if_vnet = λ _ _. call step tt;
  if_address = λ _ _ _ _. call step tt;
  if_capabilities = λ _. call step tt;
  if_destroy = λ _. call step tt;
  bridge_request = λ _ _ _. call step tt;
  route_socket = call step tt;
  route_write = λ _. call step tt;
  pf_open = call step tt;
  pf_constants = record {
    pf_nat = 4;
    pf_ruleset_nat = 2;
    pf_addr_dyniftl = 2;
    pfi_aflag_noalias = 8;
    pfr_tflag_persist = 1;
    af_inet = 2;
    anchor_size = 1024;
    ifname_size = 16;
    table_name_size = 32;
  };
  pf_begin = λ _. call begin 1;
  pf_begin_addresses = call step 2;
  pf_add_address = λ _. call step tt;
  pf_add_rule = λ r. call (add_rule r) tt;
  pf_commit = λ r s. (ok tt, commit (read_name (c_string r.anchor)) s);
  pf_rollback = λ _. call step tt;
  pf_add_table = λ _. call step tt;
  pf_add_table_address = λ _ _. call step tt;
}

-- The state is the number of calls that were made.
abbrev pub host : Host
host = host_of ℕ (λ n. suc n) (λ n. suc n) (λ _ n. suc n) (λ _ n. suc n)

-- The rulesets that are committed, and the rules of the open transaction.
pub record Rules : Type 0 where
  pub committed : List (Text × List PfiocRule)
  pub pending : List PfiocRule

abbrev pub pf_host : Host
pf_host =
    host_of Rules (λ s. s) (λ s. record s { pending = [] })
      (λ r s. record s { pending = s.pending ++ r ∷ [] })
      (λ a s. record { committed = (a, s.pending) ∷ s.committed; pending = [] })

-- An empty file.
abbrev pub empty_view : View
empty_view t k = none

abbrev pub disk : World Sqlite.engine host
disk = record { db = migration; os = 0 }
