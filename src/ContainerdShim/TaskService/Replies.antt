-- ===== src/ContainerdShim/TaskService/Replies.antt =====
-- containerd-shim/src/task_service.rs: what the handlers reply, over any engine that keeps the
-- contract.
use knast.Base.{ℕ, Text, none, some, ◌≡◌, refl, ◌⊎◌, inl, inr}
use knast.Base.Exec.{
  ok, Triple, Triple-bind, Triple-pure, Triple-weaken, Triple-assume, Triple-bind-lift, Triple-true,
}
use knast.Base.Heap.{Heap}
use knast.Storage.{StorageEngine, Codec}
use knast.Storage.Contract.{View, update, Contract}
use knast.Storage.Typed.{CodecLaws, Stored, Writes-Stored}
use knast.Baustelle.RuntimeConfig.{RuntimeConfig}
use knast.Host.{Host, WaitStatus}
use knast.Libknast.World.{World}
use knast.Libknast.AddressPool.{ContainerAddressStorage}
use knast.Libknast.Processes.{
  OciStatus, main_process, container_processes, process_id, set_exited, exit_code,
}
use knast.Libknast.Processes.Updates.{cell, delete_process_Triple}
use knast.Libknast.Operations.Lifecycle.{get_state_Triple, main_state_Triple, do_wait_Triple}
use knast.ContainerdShim.Host.{Shim, StateResponse}
use knast.ContainerdShim.Extensions.{StdioTriple, Pty, container_stdio, stdio_key}
use knast.ContainerdShim.Extensions.Streams.{triple_Triple}
use knast.ContainerdShim.TaskService.{
  status_of, to_u32, exit_status_of, system_time_to_timestamp, state, delete, ended, wait,
}

-- A reply about a process: its record and its streams in the words of containerd.
pub record Describes (id exec_id : Text) (p : OciStatus) (t : StdioTriple) (r : StateResponse)
    : Type 0 where
  pub same_id : r.id ≡ id
  pub same_exec_id : r.exec_id ≡ exec_id
  pub its_pid : to_u32 p.pid ≡ ok r.pid
  pub its_status : r.status ≡ status_of p.status
  pub its_stdin : r.stdin ≡ t.stdin
  pub its_stdout : r.stdout ≡ t.stdout
  pub its_stderr : r.stderr ≡ t.stderr
  pub its_exit : exit_status_of p.exit_status ≡ ok r.exit_status
  pub its_time : system_time_to_timestamp p.exited_at ≡ ok r.exited_at

module _ (e : StorageEngine) (C : Contract e) (H : Host) (S : Shim H)
    (config_codec : Codec RuntimeConfig) (c : Codec OciStatus) (L : CodecLaws c)
    (heap_codec : Codec Heap) (cache_codec : Codec ContainerAddressStorage)
    (stdio_codec : Codec StdioTriple) (T : CodecLaws stdio_codec) (pty_codec : Codec Pty) (fuel : ℕ)
    (nat_interface : Text) where
  open C use {Sees}

  -- If the state of a process with a record and streams is replied, the reply has its ids, the
  -- recorded process id, exit code and time, the recorded status in the words of containerd and
  -- the streams that were saved; the storage is as it was, also behind an error.
  pub state_Triple :
      (v : View) (id exec_id : Text) (p : OciStatus) (t : StdioTriple)
      → Stored c (some p) (cell id v exec_id)
      → Stored stdio_codec (some t) (v container_stdio (stdio_key id exec_id))
      → Triple
          (λ (w : World e H). Sees v w.db)
          (state e H S config_codec c heap_codec cache_codec stdio_codec pty_codec fuel
            nat_interface id exec_id)
          (λ r w. Describes id exec_id p t r × Sees v w.db)
          (λ _ w. Sees v w.db)
  unfolding state
  state_Triple v id exec_id p t h g =
      Triple-bind _ _
        (triple_Triple e C H S config_codec c heap_codec cache_codec stdio_codec T pty_codec v id
          exec_id t g)
        λ t'. Triple-assume λ tq. rw tq (
          Triple-bind _ _
            (get_state_Triple e C H config_codec c L heap_codec cache_codec id v exec_id p h)
            λ p'. Triple-assume λ pq. rw pq (
              Triple-bind-lift _ _
                (λ code code_is.
                  Triple-bind-lift _ _
                    (λ time time_is.
                      Triple-bind-lift _ _
                        (λ pid pid_is. Triple-pure _ (λ w s. (
                          record {
                            same_id = refl;
                            same_exec_id = refl;
                            its_pid = pid_is;
                            its_status = refl;
                            its_stdin = refl;
                            its_stdout = refl;
                            its_stderr = refl;
                            its_exit = code_is;
                            its_time = time_is;
                          },
                          s,
                        )))
                        (λ _ _ _ s. s))
                    (λ _ _ _ s. s))
                (λ _ _ _ s. s)))

  -- A delete removes the record of the process that is named; what it replies of process id,
  -- exit code and time is that of the main process, whichever process is named.
  pub delete_task_Triple :
      (v : View) (id exec_id : Text) (p : OciStatus)
      → Stored c (some p) (cell id v main_process)
      → Triple
          (λ (w : World e H). Sees v w.db)
          (delete e H S config_codec c heap_codec cache_codec stdio_codec pty_codec fuel
            nat_interface id exec_id)
          (λ r w.
            (to_u32 p.pid ≡ ok r.pid)
            × (exit_status_of p.exit_status ≡ ok r.exit_status)
            × (system_time_to_timestamp p.exited_at ≡ ok r.exited_at)
            × Sees (update v container_processes (process_id id exec_id) none) w.db)
          (λ _ w.
            Sees v w.db ⊎ Sees (update v container_processes (process_id id exec_id) none) w.db)
  unfolding delete
  delete_task_Triple v id exec_id p h =
      Triple-bind _ _
        (Triple-weaken (main_state_Triple e C H config_codec c L heap_codec cache_codec id v p h)
          (λ _ s. s) (λ _ _ s. s) (λ _ _ s. inl s))
        λ p'. Triple-assume λ pq. rw pq (
          Triple-bind-lift _ _
            (λ code code_is.
              Triple-bind-lift _ _
                (λ time time_is.
                  Triple-bind _ _
                    (Triple-weaken (delete_process_Triple e C H c L id v exec_id) (λ _ s. s)
                      (λ _ _ s. s) (λ _ _ s. inl s))
                    λ _.
                      Triple-bind-lift _ _
                        (λ pid pid_is. Triple-pure _ (λ w s. (pid_is, code_is, time_is, s)))
                        (λ _ _ _ s. inr s))
                (λ _ _ _ s. inl s))
            (λ _ _ _ s. inl s))

  -- Let Exits hold of what waitpid returns for the recorded process id. If waiting for a process
  -- with a record is replied, the exit code of the reply is that of such a status, where any but
  -- a normal exit counts as 0.
  pub wait_Triple :
      (v : View) (id exec_id : Text) (p : OciStatus) (Exits : WaitStatus → Type 0)
      → Stored c (some p) (cell id v exec_id)
      → Triple (λ _. Unit) (H.waitpid p.pid) (λ status _. Exits status) (λ _ _. Unit)
      → Triple
          (λ (w : World e H). Sees v w.db)
          (wait e H S config_codec c heap_codec cache_codec stdio_codec pty_codec fuel nat_interface
            id exec_id)
          (λ r _.
            (status : WaitStatus) × (time : ℕ) × Exits status
            × (exit_status_of (exit_code status) ≡ ok r.exit_status)
            × (system_time_to_timestamp time ≡ ok r.exited_at))
          (λ _ _. Unit)
  unfolding wait ended
  wait_Triple v id exec_id p Exits h waits =
      Triple-bind _ _
        (Triple-weaken
          (do_wait_Triple e C H config_codec c L heap_codec cache_codec id v exec_id p Exits h
            waits)
          (λ _ s. s) (λ _ _ s. s) (λ _ _ _. tt))
        λ _. record { at = λ w q. (replied q.0 q.1 q.2 q.3.bytes q.3.serialized).at w q.3.sees }
    where
      replied :
          (status : WaitStatus) (time : ℕ)
          → Exits status
          → (bytes : Text) → c.serialize (set_exited (exit_code status) time p) ≡ ok bytes
          → Triple
              (λ (w : World e H).
                Sees (update v container_processes (process_id id exec_id) (some bytes)) w.db)
              (ended e H S config_codec c heap_codec cache_codec stdio_codec pty_codec fuel
                nat_interface id exec_id)
              (λ r _.
                (status : WaitStatus) × (time : ℕ) × Exits status
                × (exit_status_of (exit_code status) ≡ ok r.exit_status)
                × (system_time_to_timestamp time ≡ ok r.exited_at))
              (λ _ _. Unit)
      replied status time exits bytes serialized =
          Triple-bind _ _
            (Triple-weaken
              (get_state_Triple e C H config_codec c L heap_codec cache_codec id _ exec_id
                (set_exited (exit_code status) time p)
                (Writes-Stored e C c L v _ _ _ bytes serialized))
              (λ _ s. s) (λ _ _ s. s) (λ _ _ _. tt))
            λ p'. Triple-assume λ pq. rw pq (
              Triple-bind-lift _ _
                (λ code code_is.
                  Triple-bind-lift _ _
                    (λ exited_at time_is.
                      Triple-bind _ _
                        (Triple-weaken {R = λ _ _. Unit} {F = λ _ _. Unit} (Triple-true _)
                          (λ _ _. tt) (λ _ _ _. tt) (λ _ _ _. tt))
                        λ _. Triple-pure _ (λ w _. (status, time, exits, code_is, time_is)))
                    (λ _ _ _ _. tt))
                (λ _ _ _ _. tt))
