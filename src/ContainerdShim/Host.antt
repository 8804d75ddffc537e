-- ===== src/ContainerdShim/Host.antt =====
-- What the shim calls beyond the operations: files, pseudo terminals, threads that copy between
-- them, the crates url and serde_json, and the messages of the task service.
use knast.Base.{ℕ, Text, Option, List, Bool}
use knast.Base.Exec.{Exec, Result}
use knast.Base.Int.{ℤ}
use knast.Baustelle.RuntimeConfig.{Process}
use knast.Host.{Host, Command}

pub record Shim (H : Host) : Type 0 where
  pub open_read : Text → Exec H.Os ℕ
  pub open_write : Text → Exec H.Os ℕ
  -- The master and the slave side.
  pub openpty : Exec H.Os (ℤ × ℤ)
  pub copy_to_pty : ℕ → ℤ → Exec H.Os (Unit {0})
  pub copy_from_pty : ℤ → ℕ → Exec H.Os (Unit {0})
  -- A closure that the child runs before it executes the program.
  pub pre_exec : Exec H.Os (Unit {0}) → Command → Command
  pub close : ℤ → Exec H.Os (Unit {0})
  pub setsid : Exec H.Os (Unit {0})
  pub dup2 : ℤ → ℕ → Exec H.Os (Unit {0})
  pub tcsetsid : ℤ → ℕ → Exec H.Os ℤ
  pub tcsetwinsize : ℤ → ℕ → ℕ → Exec H.Os ℤ
  pub process_id : ℕ
  -- The path of a URL and the pairs of its query.
  pub parse_url : Text → Result (Text × List (Text × Text))
  -- A child with a pipe as its input, whose descriptor is returned.
  pub spawn_piped : Text → List (Text × Text) → Exec H.Os ℕ
  pub parse_process : Text → Result Process

-- protocols/shim.rs and protocols/mount.rs, the fields that the service reads or sets.
pub record Mount : Type 0 where
  pub field_type : Text
  pub source : Text
  pub target : Text
  pub options : List Text

pub record CreateTaskRequest : Type 0 where
  pub id : Text
  pub bundle : Text
  pub rootfs : List Mount
  pub terminal : Bool
  pub stdin : Text
  pub stdout : Text
  pub stderr : Text

pub record ExecProcessRequest : Type 0 where
  pub id : Text
  pub exec_id : Text
  pub terminal : Bool
  pub stdin : Text
  pub stdout : Text
  pub stderr : Text
  pub spec : Option Text

-- The status of a task.
pub data Status : Type 0 where
  unknown created running stopped paused pausing : Status

-- Whole seconds, and the rest in nanoseconds.
pub record Timestamp : Type 0 where
  pub seconds : ℕ
  pub nanos : ℕ

pub record StateResponse : Type 0 where
  pub id : Text
  pub pid : ℕ
  pub status : Status
  pub stdin : Text
  pub stdout : Text
  pub stderr : Text
  pub terminal : Bool
  pub exit_status : ℕ
  pub exited_at : Timestamp
  pub exec_id : Text

pub record DeleteResponse : Type 0 where
  pub pid : ℕ
  pub exit_status : ℕ
  pub exited_at : Timestamp

pub record WaitResponse : Type 0 where
  pub exit_status : ℕ
  pub exited_at : Timestamp

pub record ConnectResponse : Type 0 where
  pub shim_pid : ℕ
  pub task_pid : ℕ
