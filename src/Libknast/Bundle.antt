-- ===== src/Libknast/Bundle.antt =====
-- libknast/src/operations.rs and filesystem.rs, `impl Mountable for Mount`: what the operations read in
-- the configuration of a bundle.
pub mod Environment
pub mod Mounts
use knast.Base.{
  ℕ, zero, suc, Text, codes, Option, none, some, Bool, true, false, List, [], ◌∷◌, ◌++◌,
  if◌then◌else◌, ltb, text_eq, map, ◌==◌,
}
use knast.Base.Exec.{
  Exec, Error, message, Result, ok, err, pure, lift, raise, ok_or, attempt, match_result, ◌>>=◌,
  ◌>>◌,
}
use knast.Base.Int.{ℤ, pos, i32_of_u32}
use knast.Base.Paths.{split, join}
use knast.Storage
use knast.Storage.{StorageEngine, Codec}
use knast.Baustelle.RuntimeConfig.{RuntimeConfig, Root, Mount, Process, User, or_empty}
use knast.Host.{Host, WaitStatus, exited, other, Command}
use knast.Libknast.World.{World, on_db, on_os}
use knast.Libknast.Filesystem
use knast.Libknast.Filesystem.{Mountable, prefixed_destination}
use knast.Libknast.Processes.{
  ProcessStatus, created, starting, running, stopped, status_eq, status_name, OciStatus,
  get_process, update_process, new_process, delete_process, main_process,
}

abbrev pub container_config : Text
container_config = codes "CONTAINER_CONFIG"

-- `Some((params.next()?.into(), params.next()?.into()))`
unfoldable pub env_pair : Text → Option (Text × Text)
env_pair x = elim (split b'=' x) [
  | [] ↦ none
  | name ∷ rest ↦ elim rest [ [] ↦ none | value ∷ _ ↦ some (name, value) ]
]

-- `collect` into an option: one variable that is none makes the whole none.
unfoldable pub env_pairs : List Text → Option (List (Text × Text))
env_pairs [] = some []
env_pairs (x ∷ xs) = elim (env_pair x) [
  | none ↦ none
  | some pair ↦ elim (env_pairs xs) [ none ↦ none | some pairs ↦ some (pair ∷ pairs) ]
]

-- The environment of a process: empty where there is none.
unfoldable pub envs : Option (List Text) → List (Text × Text)
envs none = []
envs (some xs) = or_empty (env_pairs xs)

-- The order of strings, by their bytes.
unfoldable pub text_le : Text → Text → Bool
text_le [] t = true
text_le (x ∷ s) [] = false
text_le (x ∷ s) (y ∷ t) = if ltb x y then true else (if x == y then text_le s t else false)

-- `Command::env`: the builder keeps its variables sorted by their names, a later value in place
-- of an earlier one.
unfoldable pub set_env : Text × Text → List (Text × Text) → List (Text × Text)
set_env (name, value) [] = (name, value) ∷ []
set_env (name, value) ((n, v) ∷ env) =
    let rest = set_env (name, value) env in
    if text_eq name n
    then (name, value) ∷ env
    else if text_le name n
    then (name, value) ∷ (n, v) ∷ env
    else (n, v) ∷ rest

-- `Command::envs`
unfoldable pub set_envs : List (Text × Text) → List (Text × Text) → List (Text × Text)
set_envs [] env = env
set_envs (pair ∷ pairs) env = set_envs pairs (set_env pair env)

-- `sort_by` on the destination, which is stable.
unfoldable pub insert_mount : Mount → List Mount → List Mount
insert_mount m [] = m ∷ []
insert_mount m (n ∷ ms) =
    let rest = insert_mount m ms in
    if text_le m.destination n.destination then m ∷ n ∷ ms else n ∷ rest

unfoldable pub sort_mounts : List Mount → List Mount
sort_mounts [] = []
sort_mounts (m ∷ ms) = insert_mount m (sort_mounts ms)

abbrev pub reverse_mounts : List Mount → List Mount
reverse_mounts [] = []
reverse_mounts (m ∷ ms) = reverse_mounts ms ++ m ∷ []

-- `impl Mountable for Mount`
unfoldable pub mountable : Mount → Mountable
mountable m = record {
  kind = m.kind;
  source = elim m.source [ none ↦ m.kind | some source ↦ source ];
  destination = m.destination;
  options = or_empty m.options;
  hides_devices = text_eq m.kind (codes "devfs");
}

command_required : Error
command_required = message (codes "Runtime config: command is required")

-- The path of the root file system, if it is set.
abbrev pub root_path : RuntimeConfig → Option Text
root_path config = elim config.root [ none ↦ none | some root ↦ some root.path ]

-- The configuration that `create` locks: the root is joined to the
-- path of the bundle.
unfoldable pub locked : Text → Text → RuntimeConfig → RuntimeConfig
locked path root config = record config {
  root = some (record { path = join path root; readonly = none });
}

-- The first argument and the others.
unfoldable pub command_line : Process → Result (Text × List Text)
unfolding command_required
command_line process = elim (or_empty process.args) [
  | [] ↦ err command_required
  | command ∷ args ↦ ok (command, args)
]

-- `Command::new(command)`
abbrev pub bare : Text → Command
bare program = record {
  program = program;
  args = [];
  envs = [];
  current_dir = none;
  uid = none;
  gid = none;
  stdin = none;
  stdout = none;
  stderr = none;
}

-- `.args(args).env_clear().envs(envs).current_dir(cwd).uid(uid).gid(gid)`
unfoldable pub prepared : Text → Process → List Text → Command → Command
prepared rootfs process args command = record command {
  args = command.args ++ args;
  envs = set_envs (envs process.env) [];
  current_dir = some (prefixed_destination rootfs process.cwd);
  uid = some process.user.uid;
  gid = some process.user.gid;
}
