-- ===== src/Tests/Operations.antt =====
-- The operations of libknast on an SQLite file and a host whose calls succeed.
use knast.Base.{
  ℕ, Bool, Text, text_eq, codes, none, some, false, [], ◌∷◌, ◌≡◌, refl, ◌⊎◌, ◌<◌, arith,
}
use knast.Base.Exec.{
  Exec, Error, exhausted, panic, pure, ◌>>=◌, Triple, Triple-pure, Triple-bind, Triple-weaken,
}
use knast.Base.Int.{pos}
use knast.Storage.Contract.{View, update, update_self, update_ne_tree}
use knast.ContainerdShim.Extensions.{container_pty_state}
use knast.Libknast.Operations.Closures.{Outside, Writes}
use knast.Storage.Typed.{Stored, Writes-Stored}
use knast.Storage.Sqlite.{engine}
use knast.Storage.Sqlite.Contract.{contract}
use knast.Storage.Sqlite.Tables.{Sees}
use knast.Baustelle.RuntimeConfig.{Process}
use knast.Host.{Command, WaitStatus, exited}
use knast.Libknast.World.{World, on_db, db_Triple}
use knast.Libknast.Processes.{
  OciStatus, running, process_id, container_processes, main_process, new_status, status_eq,
}
use knast.Libknast.Processes.Updates.{cell, Holds}
use knast.Libknast.Operations.{do_exec, create, delete, state, do_kill, do_wait, get_state}
use knast.Libknast.Processes.{set_exited, exit_code}
use knast.Libknast.Operations.Execution.{do_exec_Triple, do_exec_again, Started, Ended}
use knast.Libknast.Operations.Creation.{create_Triple, delete_Triple, created_state, Locked, Around}
use knast.Libknast.Operations.Signals.{do_kill_Triple}
use knast.Libknast.Operations.Lifecycle.{do_kill_refused, do_wait_Triple, get_state_Triple}
use knast.Baustelle.RuntimeConfig.{RuntimeConfig}
use knast.Tests.World.{bundle, host, empty_view}
use knast.Tests.Formats.{
  config_codec, config_laws, status_codec, status_laws, heap_codec, heap_laws, encode_status,
  cache_codec, cache_laws,
}

abbrev pub web : Text
web = codes "web"

abbrev shell : Process
shell = record {
  terminal = none;
  console_size = none;
  cwd = codes "/root";
  env = some (codes "TERM=xterm" ∷ []);
  args = some (codes "/bin/sh" ∷ []);
  rlimits = none;
  user = record { uid = 0; gid = 0; umask = none; additional_gids = none };
  hostname = none;
}

-- A closure that saves a pseudo terminal, as that of the shim does.
abbrev saving : Command → Exec (World engine host) Command
saving command = on_db (engine.put container_pty_state web (codes "3")) >>= λ _. pure command

abbrev pty_tables : Text → Bool
pty_tables t = text_eq container_pty_state t

saving-Writes : Writes engine contract host status_codec status_laws web pty_tables saving
saving-Writes v command =
    Triple-bind _ _
      (Triple-weaken (db_Triple _ (contract.put_Triple v container_pty_state web (codes "3")))
        (λ _ p. p)
        (λ _ _ p.
          (_, (λ t k h. update_ne_tree v container_pty_state web (some (codes "3")) t k h), p))
        (λ _ _ p. (v, (λ _ _ _. refl), p)))
      λ _. Triple-pure command (λ _ p. p)

abbrev Db : View → World engine host → Type 0
Db v w = Sees v w.db

-- A file with a record of the container's main process.
abbrev pub recorded : OciStatus → View
recorded p =
    update empty_view container_processes (process_id web main_process) (some (encode_status p))

pub recorded-Stored :
    (p : OciStatus) → Stored status_codec (some p) (cell web (recorded p) main_process)
recorded-Stored p =
    Writes-Stored engine contract status_codec status_laws empty_view container_processes
      (process_id web main_process) p (encode_status p) refl

-- The database after an operation that changes nothing.
abbrev DbAfter : OciStatus → Error → World engine host → Type 0
DbAfter p _ w = Sees (recorded p) w.db

created-not-running : status_eq new_status.status running ≡ false
unfolding status_eq
created-not-running = refl

found_seven : Triple (λ _. Unit) (host.from_name web) (λ (jail : ℕ) _. jail ≡ 7) (λ _ _. Unit)
found_seven = record { at = λ _ _. refl }

spawns_42 :
    (jail : ℕ) (command : Command)
    → Triple (λ _. Unit) (host.spawn jail command) (λ id _. id ≡ 42) (λ _ _. Unit)
spawns_42 jail command = record { at = λ _ _. refl }

pub exits_3 :
    Triple (λ _. Unit) (host.waitpid (pos 42)) (λ status _. status ≡ exited (pos 3)) (λ _ _. Unit)
exits_3 = record { at = λ _ _. refl }

abbrev Runs : View → World engine host → Type 0
Runs u w =
    Started engine contract host config_codec config_laws status_codec status_laws heap_codec
      cache_codec web shell (λ jail. jail ≡ 7) (λ _ id. id ≡ 42) found_seven
      (λ jail command _ _ _ _. spawns_42 jail command) u main_process w

abbrev Fails : View → World engine host → Type 0
Fails u w =
    Ended engine contract host config_codec config_laws status_codec status_laws heap_codec
      cache_codec web u main_process w

other_table : pty_tables container_processes ≡ false
unfolding text_eq
other_table = refl

do_exec_example :
    Triple
      (Db empty_view)
      (do_exec engine host config_codec status_codec heap_codec cache_codec web main_process shell
        saving)
      (λ _ w.
        (cell web empty_view main_process ≡ none)
        × ((u : View) × Outside pty_tables empty_view u × Runs u w))
      (λ _ w.
        Sees empty_view w.db
        ⊎ ((cell web empty_view main_process ≡ none)
            × ((u : View) × Outside pty_tables empty_view u × Fails u w)))
do_exec_example =
    do_exec_Triple engine contract host config_codec config_laws status_codec status_laws heap_codec
      cache_codec web shell (λ jail. jail ≡ 7) (λ _ id. id ≡ 42) found_seven
      (λ jail command _ _ _ _. spawns_42 jail command) pty_tables other_table empty_view
      main_process saving saving-Writes

do_exec_again_example :
    Triple
      (Db (recorded new_status))
      (do_exec engine host config_codec status_codec heap_codec cache_codec web main_process shell
        saving)
      (λ _ _. ⊥)
      (DbAfter new_status)
do_exec_again_example =
    do_exec_again engine contract host config_codec config_laws status_codec status_laws heap_codec
      cache_codec web (recorded new_status) main_process (encode_status new_status) shell saving
      (update_self empty_view container_processes (process_id web main_process)
        (some (encode_status new_status)))

abbrev IsBundle : RuntimeConfig → Type 0
IsBundle source = source ≡ bundle

reads-IsBundle :
    Triple
      (λ _. Unit)
      (host.read_config (codes "/bundle"))
      (λ source _. IsBundle source)
      (λ _ _. Unit)
reads-IsBundle = record { at = λ _ _. refl }

abbrev LockedBundle : World engine host → Type 0
LockedBundle =
    Locked engine contract host config_codec config_laws status_codec status_laws heap_codec
      heap_laws cache_codec cache_laws web empty_view (codes "/bundle") IsBundle

create_example :
    Triple
      (Db empty_view)
      (create engine host config_codec status_codec heap_codec cache_codec web 3
        (codes "/bundle")
        none)
      (λ _. LockedBundle)
      (λ _ w. Sees empty_view w.db ⊎ LockedBundle w)
create_example =
    create_Triple engine contract host config_codec config_laws status_codec status_laws heap_codec
      heap_laws cache_codec cache_laws web empty_view 3 (codes "/bundle") none IsBundle
      reads-IsBundle

delete_example :
    Triple
      (Db (recorded new_status))
      (delete engine host config_codec status_codec heap_codec cache_codec web 3)
      (λ _.
        Around engine contract host config_codec config_laws status_codec status_laws heap_codec
          heap_laws cache_codec cache_laws web
          (recorded new_status))
      (λ x w.
        ((x ≡ panic) ⊎ (x ≡ exhausted))
        × Around engine contract host config_codec config_laws status_codec status_laws heap_codec
            heap_laws cache_codec cache_laws web
            (recorded new_status)
            w)
delete_example =
    delete_Triple engine contract host config_codec config_laws status_codec status_laws heap_codec
      heap_laws cache_codec cache_laws web (recorded new_status) 3

created_state_example :
    Triple
      (Db empty_view)
      (create engine host config_codec status_codec heap_codec cache_codec web 3
          (codes "/bundle")
          none
        >>= λ _. state engine host config_codec status_codec heap_codec cache_codec web)
      (λ _ _. ⊥)
      (λ _ _. Unit)
created_state_example =
    created_state engine contract host config_codec config_laws status_codec status_laws heap_codec
      heap_laws cache_codec cache_laws web empty_view 3 (codes "/bundle") none refl

-- The call finds the host in its first state.
do_kill_example :
    Triple
      (λ (w : World engine host). Sees (recorded new_status) w.db × (w.os ≡ 0))
      (do_kill engine host config_codec status_codec heap_codec cache_codec web main_process
        (pos 15))
      (λ _ _. ⊥)
      (λ _ w. Sees (recorded new_status) w.db × (w.os ≡ 0))
do_kill_example =
    do_kill_refused engine contract host config_codec status_codec status_laws heap_codec
      cache_codec web (recorded new_status) 0 main_process new_status (pos 15)
      (recorded-Stored new_status) created-not-running

abbrev pub running_status : OciStatus
running_status = record {
  oci_version = [];
  status = running;
  pid = pos 42;
  jid = pos 7;
  exit_status = none;
  exited_at = 0;
}

-- The state of the host counts its calls.
abbrev CallsMade : ℕ → Type 0
CallsMade n = 0 < n

do_kill_running_example :
    Triple
      (λ (w : World engine host). Sees (recorded running_status) w.db)
      (do_kill engine host config_codec status_codec heap_codec cache_codec web main_process
        (pos 15))
      (λ _ w.
        (running_status.status ≡ running) × (CallsMade w.os × Sees (recorded running_status) w.db))
      (λ _ w. Sees (recorded running_status) w.db)
do_kill_running_example =
    do_kill_Triple engine contract host config_codec status_codec status_laws heap_codec cache_codec
      web (recorded running_status) main_process running_status (pos 15) (λ jail. jail ≡ 7)
      (λ _. CallsMade) CallsMade (recorded-Stored running_status) found_seven
      (λ jail _. record { at = λ s _. omega arith }) (λ jail _. record { at = λ s _. omega arith })
      (record { at = λ s _. omega arith }) (record { at = λ s _. omega arith })

do_wait_example :
    Triple
      (Db (recorded running_status))
      (do_wait engine host config_codec status_codec heap_codec cache_codec web main_process)
      (λ _ w.
        (status : WaitStatus) × (time : ℕ) × (status ≡ exited (pos 3))
        × Holds engine contract host status_codec status_laws web
            (recorded running_status)
            main_process
            (set_exited (exit_code status) time running_status)
            w)
      (DbAfter running_status)
do_wait_example =
    do_wait_Triple engine contract host config_codec status_codec status_laws heap_codec cache_codec
      web (recorded running_status) main_process running_status (λ status. status ≡ exited (pos 3))
      (recorded-Stored running_status) exits_3

get_state_example :
    Triple
      (Db (recorded running_status))
      (get_state engine host config_codec status_codec heap_codec cache_codec web main_process)
      (λ r w. (r ≡ running_status) × Sees (recorded running_status) w.db)
      (DbAfter running_status)
get_state_example =
    get_state_Triple engine contract host config_codec status_codec status_laws heap_codec
      cache_codec web (recorded running_status) main_process running_status
      (recorded-Stored running_status)
