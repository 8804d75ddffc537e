-- ===== src/Libknast/Operations.antt =====
-- libknast/src/operations.rs, `OciOperations`: the life of a container and its processes.
pub mod Closures
pub mod Execution
pub mod Lifecycle
pub mod Creation
pub mod Signals
use knast.Base.{
  ℕ, zero, suc, Text, codes, Option, none, some, Bool, true, false, List, [], ◌∷◌, ◌++◌,
  if◌then◌else◌, ltb, text_eq, map, ◌==◌,
}
use knast.Base.Exec.{
  exhausted, panic, Exec, Error, message, Result, ok, err, pure, lift, raise, ok_or, attempt,
  match_result, ◌>>=◌, ◌>>◌,
}
use knast.Base.Int.{ℤ, pos, i32_of_u32}
use knast.Base.Paths.{split, join}
use knast.Storage
use knast.Storage.{StorageEngine, Codec}
use knast.Baustelle.RuntimeConfig.{RuntimeConfig, Root, Mount, Process, User, or_empty}
use knast.Host.{Host, WaitStatus, exited, other, Command}
use knast.Libknast.World.{World, on_db, on_os}
use knast.Libknast.Filesystem
use knast.Libknast.Filesystem.{Mountable, prefixed_destination}
use knast.Libknast.Network
use knast.Libknast.Network.{run_in_fork}
use knast.Libknast.AddressPool.{ContainerAddressStorage}
use knast.Base.Heap.{Heap}
use knast.Libknast.Processes.{
  ProcessStatus, created, starting, running, stopped, status_eq, status_name, OciStatus,
  get_process, update_process, new_process, delete_process, main_process, set_status, set_running,
  set_exited, exit_code, shown_status,
}
use knast.Libknast.Bundle.{
  bare, command_line, container_config, env_pair, env_pairs, envs, insert_mount, locked, mountable,
  prepared, reverse_mounts, root_path, sort_mounts, text_le,
}

root_not_set : Error
root_not_set = message (codes "Runtime config: root field must be set")

process_not_set : Error
process_not_set = message (codes "Runtime config: process field must be set")

no_container : Text → Error
no_container key = message (codes "Container '" ++ key ++ codes "' doesn't exist!")

container_exists : Text → Error
container_exists key = message (codes "Container '" ++ key ++ codes "' already exists!")

cannot : Text → ProcessStatus → Text → Error
cannot verb status noun =
    message (codes "Cannot " ++ verb ++ codes " " ++ status_name status ++ noun)

module _ (e : StorageEngine) (H : Host) (config_codec : Codec RuntimeConfig)
    (status_codec : Codec OciStatus) (heap_codec : Codec Heap)
    (cache_codec : Codec ContainerAddressStorage) (key : Text) where
  pub config : Exec (World e H) RuntimeConfig
  unfolding no_container
  config = do
    found ← on_db (Storage.get e config_codec container_config key)
    lift (ok_or (no_container key) found)

  pub rootfs : Exec (World e H) Text
  unfolding root_not_set
  rootfs = do config ← config; lift (ok_or root_not_set (root_path config))

  pub mounts : Exec (World e H) (List Mount)
  mounts = do config ← config; pure (sort_mounts (or_empty config.mounts))

  pub retrieve_jail : Exec (World e H) H.Jail
  retrieve_jail =
      match_result (on_os (H.from_name key)) (λ jail. pure jail)
        (λ _. raise (message (codes "Container is not running")))

  mount_all : Text → List Mount → Exec (World e H) (Unit {0})
  mount_all dir [] = pure tt
  mount_all dir (m ∷ ms) = do on_os (Filesystem.mount H.kernel (mountable m) dir); mount_all dir ms

  unmount_all : Text → List Mount → Exec (World e H) (Unit {0})
  unmount_all dir [] = pure tt
  unmount_all dir (m ∷ ms) = do
    on_os (Filesystem.unmount H.kernel (mountable m) dir)
    unmount_all dir ms

  -- `create` from the stored configuration on.
  set_up : ℕ → Option Text → Exec (World e H) (Unit {0})
  unfolding mount_all
  set_up fuel nat_interface = do
    dir ← rootfs
    mounts ← mounts
    mount_all dir mounts
    jail ← on_os (H.start_jail dir key)
    Network.setup e H heap_codec cache_codec fuel key jail nat_interface

  -- `create` behind its first test. The fuel is that of the storage's retries.
  create_new : ℕ → Text → Option Text → Exec (World e H) (Unit {0})
  unfolding root_not_set set_up
  create_new fuel path nat_interface = do
    config ← on_os (H.read_config path)
    root ← lift (ok_or root_not_set (root_path config))
    on_db (Storage.put e config_codec container_config key (locked path root config))
    set_up fuel nat_interface

  pub create : ℕ → Text → Option Text → Exec (World e H) (Unit {0})
  unfolding create_new container_exists
  create fuel path nat_interface =
      match_result (get_process e H status_codec key main_process)
        (λ _. raise (container_exists key)) (λ _. create_new fuel path nat_interface)

  -- `cleanup` unmounts what is mounted last first.
  cleanup : ℕ → Exec (World e H) (Unit {0})
  unfolding unmount_all
  cleanup fuel = do
    dir ← rootfs
    mounts ← mounts
    unmount_all dir (reverse_mounts mounts)
    Network.teardown e H heap_codec cache_codec fuel key

  -- An error is logged and dropped; a panic and the end of the fuel are no errors of it.
  pub logged : Error → Exec (World e H) (Unit {0})
  logged panic = raise panic
  logged exhausted = raise exhausted
  logged _ = pure tt

  pub do_delete : ℕ → Exec (World e H) (Unit {0})
  unfolding cleanup logged
  do_delete fuel = match_result (cleanup fuel) (λ _. pure tt) logged

  pub delete : ℕ → Exec (World e H) (Unit {0})
  delete fuel = match_result retrieve_jail (λ _. pure tt) (λ _. do_delete fuel)

  pub do_kill : Text → ℤ → Exec (World e H) (Unit {0})
  unfolding cannot
  do_kill exec_id signal = do
    state ← get_process e H status_codec key exec_id
    if status_eq state.status running
        then (do
          jail ← retrieve_jail
          on_os
              (run_in_fork e H heap_codec cache_codec (do H.attach jail; H.kill state.pid signal)))
        else raise (cannot (codes "kill") state.status (codes " container."))

  pub kill : ℤ → Exec (World e H) (Unit {0})
  kill signal = do_kill main_process signal

  pub get_state : Text → Exec (World e H) OciStatus
  get_state exec_id = do
    process ← get_process e H status_codec key exec_id
    jail ← attempt retrieve_jail
    pure (set_status (shown_status jail process.status) process)

  pub state : Exec (World e H) OciStatus
  state = get_state main_process

  -- The end of `do_exec`, by the result of `spawn`.
  spawned : Text → H.Jail → Result ℕ → Exec (World e H) (Unit {0})
  spawned exec_id jail (err error) = do
    update_process e H status_codec key exec_id (λ p. pure (set_status stopped p))
    raise error
  spawned exec_id jail (ok id) =
      update_process e H status_codec key exec_id (λ p. pure (set_running id (H.jid jail) p))

  -- `do_exec` from the update to `Starting` on.
  launch :
      Text
      → Text
      → Process
      → Text × List Text
      → (Command → Exec (World e H) Command)
      → Exec (World e H) (Unit {0})
  unfolding spawned
  launch exec_id dir process line f = do
    update_process e H status_codec key exec_id (λ p. pure (set_status starting p))
    jail ← retrieve_jail
    command ← f (bare line.0)
    result ← on_os (attempt (H.spawn jail (prepared dir process line.1 command)))
    on_os (H.defer_cleanup jail)
    spawned exec_id jail result

  start_created :
      Text → Process → (Command → Exec (World e H) Command) → Exec (World e H) (Unit {0})
  unfolding launch
  start_created exec_id process f = do
    dir ← rootfs
    line ← lift (command_line process)
    launch exec_id dir process line f

  -- The closure `f` sets the command's streams.
  pub do_exec : Text → Process → (Command → Exec (World e H) Command) → Exec (World e H) (Unit {0})
  unfolding start_created cannot
  do_exec exec_id process f = do
    new_process e H status_codec key exec_id
    p ← get_process e H status_codec key exec_id
    if status_eq p.status created
        then start_created exec_id process f
        else raise (cannot (codes "start") p.status (codes " process"))

  pub do_start : Text → (Command → Exec (World e H) Command) → Exec (World e H) (Unit {0})
  unfolding process_not_set
  do_start exec_id f = do
    config ← config
    process ← lift (ok_or process_not_set config.process)
    do_exec exec_id process f

  pub start : Exec (World e H) (Unit {0})
  start = do_start main_process (λ command. pure command)

  -- The clock is read when the record is changed.
  pub do_wait : Text → Exec (World e H) (Unit {0})
  do_wait exec_id = do
    process ← get_process e H status_codec key exec_id
    status ← on_os (H.waitpid process.pid)
    update_process e H status_codec key exec_id
        (λ p. do time ← H.now; pure (set_exited (exit_code status) time p))

  pub wait : Exec (World e H) (Unit {0})
  wait = do_wait main_process
