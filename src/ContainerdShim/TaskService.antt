-- ===== src/ContainerdShim/TaskService.antt =====
-- containerd-shim/src/task_service.rs and filesystem.rs: the handlers of the task service. An
-- error is passed on with its text. A handler runs as a whole: start_mutex is not modelled.
pub mod Replies
use knast.Base.{
  ℕ, ◌/◌, ◌%◌, ◌^◌, Text, codes, Option, none, some, Bool, true, false, List, [], ◌∷◌, text_eq, ltb,
  if◌then◌else◌,
}
use knast.Base.Exec.{
  Exec, Error, message, Result, ok, err, pure, raise, lift, ok_or, attempt, ◌>>=◌, ◌>>◌,
}
use knast.Base.Int.{ℤ, pos, negsuc, u32_of_i32}
use knast.Base.Heap.{Heap}
use knast.Base.Paths.{join}
use knast.Storage.{StorageEngine, Codec}
use knast.Baustelle.RuntimeConfig.{RuntimeConfig, Process}
use knast.Host.{Host}
use knast.Libknast.World.{World, on_os}
use knast.Libknast.AddressPool.{ContainerAddressStorage}
use knast.Libknast.Filesystem
use knast.Libknast.Filesystem.{Mountable}
use knast.Libknast.Processes.{OciStatus, ProcessStatus, delete_process}
use knast.Libknast.Operations
use knast.ContainerdShim.Host.{
  Shim, Mount, CreateTaskRequest, ExecProcessRequest, Status, unknown, created, running, stopped,
  Timestamp, StateResponse, DeleteResponse, WaitResponse, ConnectResponse,
}
use knast.ContainerdShim.Extensions
use knast.ContainerdShim.Extensions.{StdioTriple, Pty}

-- impl From<ProcessStatus> for Status
unfoldable pub status_of : ProcessStatus → Status
status_of ProcessStatus.created = created
status_of ProcessStatus.running = running
status_of ProcessStatus.stopped = stopped
status_of _ = unknown

out_of_range : Error
out_of_range = message (codes "out of range integral type conversion attempted")

-- `try_into` from an i32 to a u32
unfoldable pub to_u32 : ℤ → Result ℕ
unfolding out_of_range
to_u32 n = ok_or out_of_range (u32_of_i32 n)

abbrev pub unwrap_or_zero : Option ℤ → ℤ
unwrap_or_zero none = pos 0
unwrap_or_zero (some n) = n

-- `state.exit_status.unwrap_or(0).try_into()`
unfoldable pub exit_status_of : Option ℤ → Result ℕ
exit_status_of code = to_u32 (unwrap_or_zero code)

-- A SystemTime is in nanoseconds; the seconds must fit in an i64.
unfoldable pub system_time_to_timestamp : ℕ → Result Timestamp
unfolding out_of_range
system_time_to_timestamp time =
    if ltb (time / 1000000000) (2 ^ 63)
    then ok (record { seconds = time / 1000000000; nanos = time % 1000000000 })
    else err out_of_range

-- filesystem.rs: impl Mountable for Mount
unfoldable pub mountable : Mount → Mountable
mountable m = record {
  kind = m.field_type;
  source = m.source;
  destination = m.target;
  options = m.options;
  hides_devices = false;
}

no_spec : Error
no_spec = message (codes "Spec is required but wasn't provided")

-- `height as u16`
abbrev pub u16_of_u32 : ℕ → ℕ
u16_of_u32 n = n % 2 ^ 16

module _ (e : StorageEngine) (H : Host) (S : Shim H) (config_codec : Codec RuntimeConfig)
    (status_codec : Codec OciStatus) (heap_codec : Codec Heap)
    (cache_codec : Codec ContainerAddressStorage) (stdio_codec : Codec StdioTriple)
    (pty_codec : Codec Pty) (fuel : ℕ) (nat_interface : Text) where
  pub state : Text → Text → Exec (World e H) StateResponse
  state id exec_id = do
    stdio ←
        Extensions.stdio_triple e H S config_codec status_codec heap_codec cache_codec stdio_codec
          pty_codec id exec_id
    state ← Operations.get_state e H config_codec status_codec heap_codec cache_codec id exec_id
    exit_status ← lift (exit_status_of state.exit_status)
    exited_at ← lift (system_time_to_timestamp state.exited_at)
    pid ← lift (to_u32 state.pid)
    pure (record {
      id = id;
      pid = pid;
      status = status_of state.status;
      stdin = stdio.stdin;
      stdout = stdio.stdout;
      stderr = stdio.stderr;
      terminal = false;
      exit_status = exit_status;
      exited_at = exited_at;
      exec_id = exec_id;
    })

  mount_all : Text → List Mount → Exec (World e H) (Unit {0})
  unfolding mountable
  mount_all rootfs [] = pure tt
  mount_all rootfs (m ∷ ms) = do
    on_os (Filesystem.mount H.kernel (mountable m) rootfs)
    mount_all rootfs ms

  pub create : CreateTaskRequest → Exec (World e H) (Unit {0})
  unfolding mount_all
  create request = do
    Extensions.save_stdio_triple e H S config_codec status_codec heap_codec cache_codec stdio_codec
        pty_codec request.id []
        (record {
          stdin = request.stdin;
          stdout = request.stdout;
          stderr = request.stderr;
          terminal = request.terminal;
        })
    mount_all (join request.bundle (codes "rootfs")) request.rootfs
    Operations.create e H config_codec status_codec heap_codec cache_codec request.id fuel
        request.bundle (some nat_interface)

  -- A process other than the main one was started by `exec`.
  pub start : Text → Text → Exec (World e H) (Unit {0})
  start id exec_id =
      if text_eq exec_id []
      then Extensions.start e H S config_codec status_codec heap_codec cache_codec stdio_codec
          pty_codec id exec_id
      else pure tt

  pub connect : Exec (World e H) ConnectResponse
  connect = pure (record { shim_pid = S.process_id; task_pid = S.process_id })

  pub delete : Text → Text → Exec (World e H) DeleteResponse
  delete id exec_id = do
    state ← Operations.state e H config_codec status_codec heap_codec cache_codec id
    exit_status ← lift (exit_status_of state.exit_status)
    exited_at ← lift (system_time_to_timestamp state.exited_at)
    delete_process e H status_codec id exec_id
    pid ← lift (to_u32 state.pid)
    pure (record { pid = pid; exit_status = exit_status; exited_at = exited_at })

  -- `wait` when the process has ended. The result of the last `delete` is dropped.
  ended : Text → Text → Exec (World e H) WaitResponse
  ended id exec_id = do
    state ← Operations.get_state e H config_codec status_codec heap_codec cache_codec id exec_id
    exit_status ← lift (exit_status_of state.exit_status)
    exited_at ← lift (system_time_to_timestamp state.exited_at)
    attempt (Operations.delete e H config_codec status_codec heap_codec cache_codec id fuel)
    pure (record { exit_status = exit_status; exited_at = exited_at })

  pub wait : Text → Text → Exec (World e H) WaitResponse
  unfolding ended
  wait id exec_id = do
    Operations.do_wait e H config_codec status_codec heap_codec cache_codec id exec_id
    ended id exec_id

  pub shutdown : Exec (World e H) (Unit {0})
  shutdown = pure tt

  parsed_process : Option Text → Result Process
  unfolding no_spec
  parsed_process none = err no_spec
  parsed_process (some spec) = S.parse_process spec

  pub exec : ExecProcessRequest → Exec (World e H) (Unit {0})
  unfolding parsed_process
  exec request = do
    process ← lift (parsed_process request.spec)
    Extensions.save_stdio_triple e H S config_codec status_codec heap_codec cache_codec stdio_codec
        pty_codec request.id request.exec_id
        (record {
          stdin = request.stdin;
          stdout = request.stdout;
          stderr = request.stderr;
          terminal = request.terminal;
        })
    Extensions.exec e H S config_codec status_codec heap_codec cache_codec stdio_codec pty_codec
        request.id request.exec_id process

  pub resize_pty : Text → Text → ℕ → ℕ → Exec (World e H) (Unit {0})
  resize_pty id exec_id height width =
      Extensions.resize_pty e H S config_codec status_codec heap_codec cache_codec stdio_codec
        pty_codec id exec_id (u16_of_u32 height) (u16_of_u32 width)
