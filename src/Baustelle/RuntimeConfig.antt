-- ===== src/Baustelle/RuntimeConfig.antt =====
-- baustelle/src/runtime_config.rs: the configuration of a bundle, from that of an image.
pub mod Conversion
use knast.Base.{
  ℕ, Text, codes, text_eq, Option, none, some, Bool, true, false, List, [], ◌∷◌, ◌++◌,
  if◌then◌else◌,
}
use knast.Base.Exec.{Error, panic, Result, ok, err}
use knast.Base.Nom.Words.{Combinators}
use knast.Registratur.Domain
use knast.Registratur.Domain.{Config, Container}
use knast.Baustelle.User.{Files, parse}

pub record Root : Type 0 where
  pub path : Text
  pub readonly : Option Bool

pub record Mount : Type 0 where
  pub destination : Text
  pub source : Option Text
  pub options : Option (List Text)
  pub kind : Text

pub record ConsoleSize : Type 0 where
  pub height : ℕ
  pub width : ℕ

pub record Rlimit : Type 0 where
  pub kind : Text
  pub soft : ℕ
  pub hard : ℕ

pub record User : Type 0 where
  pub uid : ℕ
  pub gid : ℕ
  pub umask : Option ℕ
  pub additional_gids : Option (List ℕ)

pub record Process : Type 0 where
  pub terminal : Option Bool
  pub console_size : Option ConsoleSize
  pub cwd : Text
  pub env : Option (List Text)
  pub args : Option (List Text)
  pub rlimits : Option (List Rlimit)
  pub user : User
  pub hostname : Option Text

pub record Hook : Type 0 where
  pub path : Text
  pub args : Option (List Text)
  pub env : Option (List Text)
  pub timeout : Option ℕ

pub record Hooks : Type 0 where
  pub prestart : Option (List Hook)
  pub create_runtime : Option (List Hook)
  pub create_container : Option (List Hook)
  pub start_container : Option (List Hook)
  pub poststart : Option (List Hook)
  pub poststop : Option (List Hook)

-- The annotations, a map in the source, are pairs in the order of their keys.
pub record RuntimeConfig : Type 0 where
  pub oci_version : Text
  pub root : Option Root
  pub mounts : Option (List Mount)
  pub process : Option Process
  pub hooks : Option Hooks
  pub annotations : Option (List (Text × Text))

abbrev pub generate_annotations : List (Text × Text)
generate_annotations =
    (codes "io.container.manager", codes "knast")
    ∷ (codes "org.opencontainers.image.stopSignal", codes "15")
    ∷ []

abbrev pub root_of : Text → Root
root_of rootfs = record { path = rootfs; readonly = some false }

abbrev pub or_empty {ℓ} : {A : Type ℓ} → Option (List A) → List A
or_empty none = []
or_empty (some xs) = xs

-- `_ => (0, 0)`, also for an empty string.
user_ids : Files → Text → Combinators → Option Text → Result (ℕ × ℕ)
user_ids files rootfs n none = ok (0, 0)
user_ids files rootfs n (some user) =
    if text_eq user [] then ok (0, 0) else parse files rootfs n user

user_with : Result (ℕ × ℕ) → Result User
user_with (ok (uid, gid)) =
    ok (record { uid = uid; gid = gid; umask = none; additional_gids = none })
user_with (err e) = err e

-- `User::try_from`
unfoldable pub user_of : Files → Text → Combinators → Option Text → Result User
unfolding user_ids user_with
user_of files rootfs n user = user_with (user_ids files rootfs n user)

process_with : Container → Result User → Result Process
process_with config (err e) = err e
process_with config (ok user) = ok (record {
  terminal = none;
  console_size = none;
  cwd = config.working_dir;
  env = config.env;
  args = some (or_empty config.entrypoint ++ or_empty config.cmd);
  rlimits = none;
  user = user;
  hostname = none;
})

-- `Process::try_from`
unfoldable pub process_of : Files → Text → Combinators → Container → Result Process
unfolding process_with
process_of files rootfs n config = process_with config (user_of files rootfs n config.user)

abbrev dev_mount : Mount
dev_mount = record {
  destination = codes "/dev";
  source = some (codes "devfs");
  options = none;
  kind = codes "devfs";
}

abbrev read_only : Option (List Text)
read_only = some (codes "nosuid" ∷ codes "noexec" ∷ codes "ro" ∷ [])

abbrev pub linux_mounts : List Mount
linux_mounts =
    dev_mount
    ∷ record {
      destination = codes "/sys";
      source = some (codes "linsysfs");
      options = read_only;
      kind = codes "linsysfs";
    }
    ∷ record {
      destination = codes "/proc";
      source = some (codes "linprocfs");
      options = read_only;
      kind = codes "linprocfs";
    }
    ∷ record {
      destination = codes "/dev/fd";
      source = some (codes "fdescfs");
      options = some (codes "linrdlnk" ∷ []);
      kind = codes "fdescfs";
    }
    ∷ []

abbrev pub freebsd_mounts : List Mount
freebsd_mounts =
    dev_mount
    ∷ record {
      destination = codes "/dev/fd";
      source = some (codes "fdescfs4");
      options = none;
      kind = codes "fdescfs";
    }
    ∷ []

unfoldable pub generate_mounts : Text → Result (List Mount)
generate_mounts os =
    if text_eq os (codes "linux")
    then ok linux_mounts
    else if text_eq os (codes "freebsd")
    then ok freebsd_mounts
    else err panic

-- `.map(Process::try_from).transpose()`
optional_process : Files → Text → Combinators → Option Container → Result (Option Process)
optional_process files rootfs n none = ok none
optional_process files rootfs n (some config) = elim (process_of files rootfs n config) [
  | ok process ↦ ok (some process)
  | err e ↦ err e
]

assemble : Text → Result (Option Process) → Result (List Mount) → Result RuntimeConfig
assemble rootfs (err e) mounts = err e
assemble rootfs (ok process) (err e) = err e
assemble rootfs (ok process) (ok mounts) = ok (record {
  oci_version = codes "1.0";
  root = some (root_of rootfs);
  mounts = some mounts;
  process = process;
  hooks = none;
  annotations = some generate_annotations;
})

-- `RuntimeConfig::try_from`
unfoldable pub runtime_config_of : Files → Text → Combinators → Config → Result RuntimeConfig
unfolding optional_process assemble
runtime_config_of files rootfs n config =
    assemble rootfs (optional_process files rootfs n config.config) (generate_mounts config.os)
