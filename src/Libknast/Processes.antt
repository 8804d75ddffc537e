-- ===== src/Libknast/Processes.antt =====
-- libknast/src/operations.rs: the records of a container's processes, in the storage.
pub mod Ids
pub mod Updates
use knast.Base.{ℕ, Text, codes, Option, none, some, Bool, true, false, ◌++◌}
use knast.Base.Exec.{Exec, Error, message, Result, ok, err, pure, lift, ok_or, ◌>>=◌, ◌>>◌}
use knast.Base.Int.{ℤ, pos, i32_of_u32}
use knast.Storage
use knast.Storage.{StorageEngine, Codec}
use knast.Host.{Host, WaitStatus, exited, other}
use knast.Libknast.World.{World, on_db, on_os}

pub data ProcessStatus : Type 0 where
  created : ProcessStatus
  starting : ProcessStatus
  running : ProcessStatus
  stopped : ProcessStatus

-- The derived `PartialEq`
unfoldable pub status_eq : ProcessStatus → ProcessStatus → Bool
status_eq created created = true
status_eq starting starting = true
status_eq running running = true
status_eq stopped stopped = true
status_eq _ _ = false

-- `as_ref`
abbrev pub status_name : ProcessStatus → Text
status_name created = codes "created"
status_name starting = codes "starting"
status_name running = codes "running"
status_name stopped = codes "stopped"

-- A SystemTime is a number of units since the epoch.
pub record OciStatus : Type 0 where
  pub oci_version : Text
  pub status : ProcessStatus
  pub pid : ℤ
  pub jid : ℤ
  pub exit_status : Option ℤ
  pub exited_at : ℕ

abbrev pub container_processes : Text
container_processes = codes "CONTAINER_PROCESSES"

abbrev pub oci_version : Text
oci_version = codes "1.0.2-dev-freebsd"

abbrev pub main_process : Text
main_process = codes ""

abbrev pub new_status : OciStatus
new_status = record {
  oci_version = oci_version;
  status = created;
  pid = pos 0;
  jid = pos 0;
  exit_status = none;
  exited_at = 0;
}

unfoldable pub process_id : Text → Text → Text
process_id key exec_id = key ++ (codes "/" ++ exec_id)

no_process : Text → Error
no_process exec_id = message (codes "Process '" ++ exec_id ++ codes "' doesn't exist!")

-- What the closures of `update_process` do.
abbrev pub set_status : ProcessStatus → OciStatus → OciStatus
set_status status p = record p { status = status }

abbrev pub set_running : ℕ → ℤ → OciStatus → OciStatus
set_running id jid p = record p { status = running; pid = i32_of_u32 id; jid = jid }

abbrev pub set_exited : Option ℤ → ℕ → OciStatus → OciStatus
set_exited code time p = record p {
  pid = pos 0;
  status = stopped;
  exit_status = code;
  exited_at = time;
}

-- `WaitStatus::Exited(_, code) => Some(code), _ => None`
abbrev pub exit_code : WaitStatus → Option ℤ
exit_code (exited code) = some code
exit_code other = none

-- The status that `get_state` shows, by whether the jail was found.
unfoldable pub shown_status : {A : Type 0} → Result A → ProcessStatus → ProcessStatus
shown_status (ok jail) running = running
shown_status (err x) running = running
shown_status _ status = status

module _ (e : StorageEngine) (H : Host) (status_codec : Codec OciStatus) (key : Text) where
  pub get_process : Text → Exec (World e H) OciStatus
  unfolding no_process
  get_process exec_id = do
    found ← on_db (Storage.get e status_codec container_processes (process_id key exec_id))
    lift (ok_or (no_process exec_id) found)

  -- The closure may read the clock.
  pub update_process : Text → (OciStatus → Exec H.Os OciStatus) → Exec (World e H) (Unit {0})
  update_process exec_id f = do
    process ← get_process exec_id
    new_process ← on_os (f process)
    on_db (
        Storage.compare_and_swap e status_codec container_processes (process_id key exec_id)
          (some process) (some new_process))
    pure tt

  pub new_process : Text → Exec (World e H) (Unit {0})
  new_process exec_id = do
    on_db (
        Storage.compare_and_swap e status_codec container_processes (process_id key exec_id) none
          (some new_status))
    pure tt

  pub delete_process : Text → Exec (World e H) (Unit {0})
  delete_process exec_id = on_db (Storage.remove e container_processes (process_id key exec_id))
