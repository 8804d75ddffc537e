-- ===== src/Libknast/Filesystem.antt =====
-- libknast/src/filesystem.rs, filesystem/mount.rs and filesystem/devfs.rs. The system calls are
-- the parameter `Kernel`.
pub mod Destination
pub mod Options
use knast.Base.{
  ℕ, Text, codes, text_eq, Option, none, some, Bool, List, [], ◌∷◌, ◌++◌, map, if◌then◌else◌,
  length, contains,
}
use knast.Base.Exec.{Exec, Error, message, Result, ok, err, pure, lift, ◌>>=◌, ◌>>◌}
use knast.Base.Paths.{Component, root_dir, cur_dir, parent_dir, normal, components, join, split}
use mathlib.Core.List.{flat_map}

-- filesystem/devfs.rs: the fields of `DevfsRule` that `apply` sets; the others stay zero.
pub record DevfsRule : Type 0 where
  pub magic : ℕ
  pub icond : ℕ
  pub pathptrn : Text
  pub iacts : ℕ
  pub bacts : ℕ

abbrev pub magic : ℕ
magic = 0xdb0a087a

abbrev pub dra_bacts : ℕ
dra_bacts = 0x1

abbrev pub drb_hide : ℕ
drb_hide = 0x1

abbrev pub drb_unhide : ℕ
drb_unhide = 0x2

abbrev pub drc_pathptrn : ℕ
drc_pathptrn = 0x2

pub data Operation : Type 0 where
  hide_all : Operation
  unhide : Text → Operation

-- The system calls: nmount(2) on a list of iovecs, unmount(2) with MNT_FORCE, and the
-- DEVFSIO_RAPPLY request on the opened directory.
pub record Kernel : Type 1 where
  pub Os : Type 0
  pub nmount : List Text → Exec Os (Unit {0})
  pub unmount : Text → Exec Os (Unit {0})
  pub devfs_apply : Text → DevfsRule → Exec Os (Unit {0})

-- The rule that `apply` hands to the kernel. A name is copied to the front of a zeroed pattern.
unfoldable pub rule : Operation → DevfsRule
rule hide_all = record {
  magic = magic;
  icond = 0;
  pathptrn = [];
  iacts = dra_bacts;
  bacts = drb_hide;
}
rule (unhide node) = record {
  magic = magic;
  icond = drc_pathptrn;
  pathptrn = node;
  iacts = dra_bacts;
  bacts = drb_unhide;
}

-- `if let Component::Normal(component) = component { result.push(component) }`
push_normal : Text → List Component → Text
push_normal result [] = result
push_normal result (normal name ∷ rest) = push_normal (join result name) rest
push_normal result (root_dir ∷ rest) = push_normal result rest
push_normal result (cur_dir ∷ rest) = push_normal result rest
push_normal result (parent_dir ∷ rest) = push_normal result rest

unfoldable pub prefixed_destination : Text → Text → Text
unfolding push_normal
prefixed_destination rootfs destination = push_normal rootfs (components destination)

-- The zero byte behind a C string.
abbrev pub nul : ℕ
nul = 0

-- `CString::new(bytes)?.into_bytes_with_nul()`, which refuses a zero byte inside.
unfoldable pub as_bytes : Text → Result Text
as_bytes path =
    if contains nul path
    then err (message (codes "nul byte found in provided data"))
    else ok (path ++ nul ∷ [])

-- The key and the value of an option: the two pieces before and after its first `=`.
unfoldable pub option_iovecs : Text → List Text
option_iovecs option = elim (split b'=' option) [
  | [] ↦ (nul ∷ []) ∷ [] ∷ []
  | key ∷ rest ↦ (key ++ nul ∷ []) ∷ (elim rest [ [] ↦ [] | value ∷ _ ↦ value ++ nul ∷ [] ]) ∷ []
]

-- 255 zero bytes for the kernel's message.
pub replicate : ℕ → ℕ → Text
replicate ℕ.zero x = []
replicate (ℕ.suc n) x = x ∷ replicate n x

-- The five named parameters.
unfoldable pub parameters : Text → Text → Text → List Text
parameters kind source destination =
    (codes "fstype" ++ nul ∷ [])
    ∷ kind
    ∷ (codes "fspath" ++ nul ∷ [])
    ∷ destination
    ∷ (codes "from" ++ nul ∷ [])
    ∷ source
    ∷ (codes "errmsg" ++ nul ∷ [])
    ∷ replicate 255 0
    ∷ []

-- The iovecs of mount::mount.
unfoldable pub iovecs : Text → Text → Text → List Text → List Text
iovecs kind source destination options =
    flat_map option_iovecs options ++ parameters kind source destination

-- The trait `Mountable`: what an implementation provides. The implementation for the runtime
-- configuration's `Mount` hides devfs nodes after the mount, that for containerd's does not.
pub record Mountable : Type 0 where
  pub kind : Text
  pub source : Text
  pub destination : Text
  pub options : List Text
  pub hides_devices : Bool

abbrev pub default_devices : List Text
default_devices =
    codes "null"
    ∷ codes "zero"
    ∷ codes "full"
    ∷ codes "random"
    ∷ codes "urandom"
    ∷ codes "tty"
    ∷ codes "console"
    ∷ codes "pts"
    ∷ codes "pts/*"
    ∷ codes "fd"
    ∷ []

module _ (K : Kernel) where
  open K use {Os}

  -- devfs::apply
  pub apply : Text → Operation → Exec Os (Unit {0})
  apply path operation = K.devfs_apply path (rule operation)

  unhide_devices : Text → List Text → Exec Os (Unit {0})
  unhide_devices path [] = pure tt
  unhide_devices path (device ∷ devices) = do
    apply path (unhide device)
    unhide_devices path devices

  pub prepare_devfs : Text → Exec Os (Unit {0})
  prepare_devfs path = do apply path hide_all; unhide_devices path default_devices

  -- mount::mount
  mount_syscall : Text → Text → Text → List Text → Exec Os (Unit {0})
  mount_syscall kind source destination options = do
    kind ← lift (as_bytes kind)
    source ← lift (as_bytes source)
    destination ← lift (as_bytes destination)
    K.nmount (iovecs kind source destination options)

  post_mount_hooks : Mountable → Text → Exec Os (Unit {0})
  post_mount_hooks m rootfs =
      if m.hides_devices then prepare_devfs (prefixed_destination rootfs m.destination) else pure tt

  pub mount : Mountable → Text → Exec Os (Unit {0})
  unfolding mount_syscall post_mount_hooks
  mount m rootfs = do
    mount_syscall m.kind m.source (prefixed_destination rootfs m.destination) m.options
    post_mount_hooks m rootfs

  pub unmount : Mountable → Text → Exec Os (Unit {0})
  unmount m rootfs = do
    destination ← lift (as_bytes (prefixed_destination rootfs m.destination))
    K.unmount destination
