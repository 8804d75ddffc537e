-- ===== src/Tests/Shim.antt =====
-- The handlers of the task service on an SQLite file and a host whose calls succeed.
use knast.Base.{
  ℕ, Text, codes, none, some, Bool, true, false, [], ◌∷◌, ◌≡◌, refl, ◌⊎◌, ap, sym, subst, text_eq,
  arith,
}
use knast.Base.Exec.{Result, ok, err, message, Triple, ok-injective}
use knast.Base.Int.{pos}
use knast.Storage.{Codec}
use knast.Storage.Contract.{View, update, update_self, update_ne_tree}
use knast.Storage.Typed.{CodecLaws, Stored}
use knast.Storage.Sqlite.{engine}
use knast.Storage.Sqlite.Contract.{contract}
use knast.Storage.Sqlite.Tables.{Sees}
use knast.Host.{WaitStatus, exited}
use knast.Libknast.World.{World}
use knast.Libknast.Processes.{process_id, container_processes, main_process, exit_code}
use knast.Libknast.Processes.Updates.{cell}
use knast.ContainerdShim.Host.{Shim}
use knast.ContainerdShim.Extensions.{StdioTriple, Pty, container_stdio, stdio_key}
use knast.ContainerdShim.TaskService.{
  state, delete, wait, to_u32, exit_status_of, system_time_to_timestamp,
}
use knast.ContainerdShim.TaskService.Replies.{
  Describes, state_Triple, delete_task_Triple, wait_Triple,
}
use knast.Tests.World.{host, call}
use knast.Tests.Formats.{config_codec, status_codec, status_laws, heap_codec, cache_codec}
use knast.Tests.Operations.{web, recorded, recorded-Stored, exits_3, running_status}

abbrev shim : Shim host
shim = record {
  open_read = λ _. call (λ n. n) 3;
  open_write = λ _. call (λ n. n) 4;
  openpty = call (λ n. n) (pos 5, pos 6);
  copy_to_pty = λ _ _. call (λ n. n) tt;
  copy_from_pty = λ _ _. call (λ n. n) tt;
  pre_exec = λ _ command. command;
  close = λ _. call (λ n. n) tt;
  setsid = call (λ n. n) tt;
  dup2 = λ _ _. call (λ n. n) tt;
  tcsetsid = λ _ _. call (λ n. n) (pos 0);
  tcsetwinsize = λ _ _ _. call (λ n. n) (pos 0);
  process_id = 9;
  parse_url = λ url. ok (url, []);
  spawn_piped = λ _ _. call (λ n. n) 7;
  parse_process = λ _. err (message []);
}

-- A format for streams of which only the input has a name.
abbrev encode_streams : Text → Text → Text → Bool → Result Text
encode_streams stdin [] [] false = ok stdin
encode_streams _ _ _ _ = err (message [])

abbrev input_only : Text → StdioTriple
input_only stdin = record { stdin = stdin; stdout = []; stderr = []; terminal = false }

abbrev stdio_codec : Codec StdioTriple
stdio_codec = record {
  serialize = λ t. encode_streams t.stdin t.stdout t.stderr t.terminal;
  deserialize = λ bytes. ok (input_only bytes);
}

encode_streams_lem :
    (i o r : Text) (b : Bool) (bytes : Text)
    → encode_streams i o r b ≡ ok bytes
    → Result.ok (input_only bytes) ≡ ok (record { stdin = i; stdout = o; stderr = r; terminal = b })
encode_streams_lem i (x ∷ o) r b bytes p = absurd (ground arith)
encode_streams_lem i [] (x ∷ r) b bytes p = absurd (ground arith)
encode_streams_lem i [] [] true bytes p = absurd (ground arith)
encode_streams_lem i [] [] false bytes p =
    ap (λ x. Result.ok (input_only x)) (sym (ok-injective i bytes p))

stdio_laws : CodecLaws stdio_codec
stdio_laws = record {
  deserialize-serialize =
      λ t bytes p. encode_streams_lem t.stdin t.stdout t.stderr t.terminal bytes p;
}

-- No terminal is recorded.
abbrev pty_codec : Codec Pty
pty_codec = record { serialize = λ _. err (message []); deserialize = λ _. err (message []) }

abbrev stdin : Text
stdin = codes "/dev/null"

-- A file with the record of a process that runs, and its streams.
abbrev served : View
served = update (recorded running_status) container_stdio (stdio_key web main_process) (some stdin)

served-record : Stored status_codec (some running_status) (cell web served main_process)
unfolding text_eq
served-record =
    subst (λ x. Stored status_codec (some running_status) x)
      (sym (
        update_ne_tree (recorded running_status) container_stdio (stdio_key web main_process)
          (some stdin) container_processes (process_id web main_process) refl))
      (recorded-Stored running_status)

served-streams :
    Stored stdio_codec
      (some (input_only stdin))
      (served container_stdio (stdio_key web main_process))
served-streams =
    subst (λ x. Stored stdio_codec (some (input_only stdin)) x)
      (sym (
        update_self (recorded running_status) container_stdio (stdio_key web main_process)
          (some stdin)))
      refl

state_example :
    Triple
      (λ (w : World engine host). Sees served w.db)
      (state engine host shim config_codec status_codec heap_codec cache_codec stdio_codec pty_codec
        3
        (codes "em0")
        web
        main_process)
      (λ r w. Describes web main_process running_status (input_only stdin) r × Sees served w.db)
      (λ _ w. Sees served w.db)
state_example =
    state_Triple engine contract host shim config_codec status_codec status_laws heap_codec
      cache_codec stdio_codec stdio_laws pty_codec 3 (codes "em0") served web main_process
      running_status (input_only stdin) served-record served-streams

-- The deletion of a second process of the container.
delete_task_example :
    Triple
      (λ (w : World engine host). Sees (recorded running_status) w.db)
      (delete engine host shim config_codec status_codec heap_codec cache_codec stdio_codec
        pty_codec 3
        (codes "em0")
        web
        (codes "shell"))
      (λ r w.
        (to_u32 (pos 42) ≡ ok r.pid)
        × (exit_status_of none ≡ ok r.exit_status)
        × (system_time_to_timestamp 0 ≡ ok r.exited_at)
        × Sees
            (update
              (recorded running_status)
              container_processes
              (process_id web (codes "shell"))
              none)
            w.db)
      (λ _ w.
        Sees (recorded running_status) w.db
        ⊎ Sees
            (update
              (recorded running_status)
              container_processes
              (process_id web (codes "shell"))
              none)
            w.db)
delete_task_example =
    delete_task_Triple engine contract host shim config_codec status_codec status_laws heap_codec
      cache_codec stdio_codec stdio_laws pty_codec 3 (codes "em0") (recorded running_status) web
      (codes "shell") running_status (recorded-Stored running_status)

wait_task_example :
    Triple
      (λ (w : World engine host). Sees (recorded running_status) w.db)
      (wait engine host shim config_codec status_codec heap_codec cache_codec stdio_codec pty_codec
        3
        (codes "em0")
        web
        main_process)
      (λ r _.
        (status : WaitStatus) × (time : ℕ) × (status ≡ exited (pos 3))
        × (exit_status_of (exit_code status) ≡ ok r.exit_status)
        × (system_time_to_timestamp time ≡ ok r.exited_at))
      (λ _ _. Unit)
wait_task_example =
    wait_Triple engine contract host shim config_codec status_codec status_laws heap_codec
      cache_codec stdio_codec stdio_laws pty_codec 3 (codes "em0") (recorded running_status) web
      main_process running_status (λ status. status ≡ exited (pos 3))
      (recorded-Stored running_status) exits_3
