-- ===== src/ContainerdShim/Extensions.antt =====
-- containerd-shim/src/oci_extensions.rs: the streams of a process and its terminal.
pub mod Streams
use knast.Base.{
  ℕ, Text, codes, Option, none, some, Bool, true, false, not, List, [], ◌∷◌, ◌++◌, text_eq,
  starts_with, if◌then◌else◌,
}
use knast.Base.Exec.{Exec, Error, message, Result, ok, err, pure, raise, lift, ok_or, ◌>>=◌, ◌>>◌}
use knast.Base.Int.{ℤ, pos, negsuc}
use knast.Base.Heap.{Heap}
use knast.Storage
use knast.Storage.{StorageEngine, Codec}
use knast.Baustelle.RuntimeConfig.{RuntimeConfig, Process}
use knast.Host.{Host, Command}
use knast.Libknast.World.{World, on_db, on_os}
use knast.Libknast.AddressPool.{ContainerAddressStorage}
use knast.Libknast.Processes.{OciStatus, process_id}
use knast.Libknast.Operations
use knast.ContainerdShim.Host.{Shim}

abbrev pub container_stdio : Text
container_stdio = codes "CONTAINER_STDIO"

abbrev pub container_pty_state : Text
container_pty_state = codes "CONTAINER_PTY_STATE"

pub record StdioTriple : Type 0 where
  pub stdin : Text
  pub stdout : Text
  pub stderr : Text
  pub terminal : Bool

abbrev pub Pty : Type 0
Pty = ℤ × ℤ

-- `[self.key().as_bytes(), b"/", exec_id.as_bytes()].concat()`
unfoldable pub stdio_key : Text → Text → Text
stdio_key key exec_id = key ++ (codes "/" ++ exec_id)

no_triple : Error
no_triple = message (codes "Container IO triple wasn't found")

no_pty : Error
no_pty = message (codes "Container's PTY wasn't found")

winsize_failed : Error
winsize_failed = message (codes "tcsetwinsize() failed")

-- Less than zero, as C reports an error.
abbrev is_negative : ℤ → Bool
is_negative (pos n) = false
is_negative (negsuc n) = true

-- -1, as C reports an error.
abbrev is_minus_one : ℤ → Bool
is_minus_one (negsuc ℕ.zero) = true
is_minus_one _ = false

module _ {H : Host} (S : Shim H) where
  -- The closure before the execution: the slave side becomes the three streams.
  pub init_io : ℤ → ℤ → Exec H.Os (Unit {0})
  init_io master slave = do
    S.close master
    S.setsid
    S.dup2 slave 0
    S.dup2 slave 1
    S.dup2 slave 2
    code ← S.tcsetsid slave S.process_id
    if is_minus_one code then raise (message (codes "tcsetsid")) else pure tt

  -- The terminal of a process: a pseudo terminal with two threads that copy.
  setup_terminal : Command → StdioTriple → Exec H.Os (Option Pty × Command)
  unfolding init_io
  setup_terminal command triple = do
    stdin ← S.open_read triple.stdin
    stdout ← S.open_write triple.stdout
    pty ← S.openpty
    S.copy_to_pty stdin pty.0
    S.copy_from_pty pty.0 stdout
    pure (some pty, S.pre_exec (init_io pty.0 pty.1) command)

  -- A standard input that is named is opened.
  setup_stdin : Command → Text → Exec H.Os Command
  setup_stdin command stdin =
      if text_eq stdin []
      then pure command
      else S.open_read stdin >>= λ descriptor. pure (record command { stdin = some descriptor })

  -- Output to a program, by a URL.
  setup_logger : Command → Text → Exec H.Os Command
  setup_logger command stdout = do
    url ← lift (S.parse_url stdout)
    descriptor ← S.spawn_piped url.0 url.1
    pure (record command { stdout = some descriptor; stderr = some descriptor })

  setup_files : Command → StdioTriple → Exec H.Os Command
  setup_files command triple = do
    stdout ← S.open_write triple.stdout
    stderr ← S.open_write triple.stderr
    pure (record command { stdout = some stdout; stderr = some stderr })

  setup_streams : Command → StdioTriple → Exec H.Os (Option Pty × Command)
  unfolding setup_stdin setup_logger setup_files
  setup_streams command triple = do
    with_stdin ← setup_stdin command triple.stdin
    with_streams ←
        if starts_with (codes "binary") triple.stdout
        then setup_logger with_stdin triple.stdout
        else setup_files with_stdin triple
    pure (none, with_streams)

  pub setup_io : Command → StdioTriple → Exec H.Os (Option Pty × Command)
  unfolding setup_terminal setup_streams
  setup_io command triple =
      if triple.terminal then setup_terminal command triple else setup_streams command triple

module _ (e : StorageEngine) (H : Host) (S : Shim H) (config_codec : Codec RuntimeConfig)
    (status_codec : Codec OciStatus) (heap_codec : Codec Heap)
    (cache_codec : Codec ContainerAddressStorage) (stdio_codec : Codec StdioTriple)
    (pty_codec : Codec Pty) (key : Text) where
  pub stdio_triple : Text → Exec (World e H) StdioTriple
  unfolding no_triple
  stdio_triple exec_id = do
    found ← on_db (Storage.get e stdio_codec container_stdio (stdio_key key exec_id))
    lift (ok_or no_triple found)

  pub save_stdio_triple : Text → StdioTriple → Exec (World e H) (Unit {0})
  save_stdio_triple exec_id triple = do
    on_db (Storage.put e stdio_codec container_stdio (stdio_key key exec_id) triple)
    pure tt

  pub save_pty_state : Text → Pty → Exec (World e H) (Unit {0})
  save_pty_state exec_id pty = do
    on_db (Storage.put e pty_codec container_pty_state (stdio_key key exec_id) pty)
    pure tt

  pub pty_state : Text → Exec (World e H) Pty
  unfolding no_pty
  pty_state exec_id = do
    found ← on_db (Storage.get e pty_codec container_pty_state (stdio_key key exec_id))
    lift (ok_or no_pty found)

  -- The pseudo terminal of a command is recorded, if it has one.
  record_pty : Text → Option Pty → Exec (World e H) (Unit {0})
  unfolding save_pty_state
  record_pty exec_id none = pure tt
  record_pty exec_id (some pty) = save_pty_state exec_id pty

  -- The closure that `exec` and `start` hand to the operations.
  pub with_io : Text → StdioTriple → Command → Exec (World e H) Command
  unfolding setup_io record_pty
  with_io exec_id triple command = do
    set_up ← on_os (setup_io S command triple)
    record_pty exec_id set_up.0
    pure set_up.1

  -- The slave side is the child's: the shim closes its own.
  close_slave : Text → StdioTriple → Exec (World e H) (Unit {0})
  unfolding pty_state
  close_slave exec_id triple =
      if triple.terminal then pty_state exec_id >>= (λ pty. on_os (S.close pty.1)) else pure tt

  pub exec : Text → Process → Exec (World e H) (Unit {0})
  unfolding stdio_triple with_io close_slave
  exec exec_id process = do
    triple ← stdio_triple exec_id
    Operations.do_exec e H config_codec status_codec heap_codec cache_codec key exec_id process
        (with_io exec_id triple)
    close_slave exec_id triple

  pub start : Text → Exec (World e H) (Unit {0})
  unfolding stdio_triple with_io close_slave
  start exec_id = do
    triple ← stdio_triple exec_id
    Operations.do_start e H config_codec status_codec heap_codec cache_codec key exec_id
        (with_io exec_id triple)
    close_slave exec_id triple

  pub resize_pty : Text → ℕ → ℕ → Exec (World e H) (Unit {0})
  unfolding pty_state winsize_failed
  resize_pty exec_id rows columns = do
    pty ← pty_state exec_id
    code ← on_os (S.tcsetwinsize pty.0 rows columns)
    if is_negative code then raise winsize_failed else pure tt
