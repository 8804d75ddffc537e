-- ===== src/Baustelle/RuntimeConfig/Conversion.antt =====
-- What baustelle/src/runtime_config.rs makes of the configuration of an image.
use knast.Base.{
  ℕ, Text, codes, text_eq, text_eq_iff, Option, none, some, false, [], ◌++◌, ◌≡◌, ◌⊎◌, refl, arith,
  Bool-cases, inl, inr, ap,
}
use knast.Base.Exec.{Result, ok, err, Result-cases}
use knast.Base.Nom.Words.{Combinators}
use knast.Registratur.Domain.{Config, Container}
use knast.Baustelle.User.{Files, parse}
use knast.Baustelle.RuntimeConfig.{
  RuntimeConfig, Process, User, or_empty, user_ids, user_with, user_of, process_with, process_of,
  linux_mounts, freebsd_mounts, generate_mounts, optional_process, assemble, runtime_config_of,
}

-- The ids of a process: root's where there is no user string, and otherwise what it resolves to.
abbrev pub IdsOf : Files → Text → Combinators → Option Text → User → Type 0
IdsOf files rootfs n o u =
    (((o ≡ none) ⊎ (o ≡ some [])) × (u.uid ≡ 0) × (u.gid ≡ 0))
    ⊎ ((user : Text) × (o ≡ some user) × (parse files rootfs n user ≡ ok (u.uid, u.gid)))

user_with_lem : (r : Result (ℕ × ℕ)) (u : User) → user_with r ≡ ok u → r ≡ ok (u.uid, u.gid)
unfolding user_with
user_with_lem (ok (uid, gid)) u h = ground arith
user_with_lem (err e) u h = cc

user_of-IdsOf :
    (files : Files) (rootfs : Text) (n : Combinators) (o : Option Text) (u : User)
    → user_of files rootfs n o ≡ ok u
    → IdsOf files rootfs n o u
unfolding user_of user_with user_ids
user_of-IdsOf files rootfs n none u h = inl (inl refl, ground arith, ground arith)
user_of-IdsOf files rootfs n (some user) u h = elim (Bool-cases (text_eq user [])) [
  | inl e ↦ inl (inr (ap some ((text_eq_iff user []).0 e)), ground (arith, e), ground (arith, e))
  | inr e ↦ inr (user, refl, user_with_lem (parse files rootfs n user) u (ground (arith, e)))
]

-- The process of a configuration: the entry point with the command behind it.
pub record Runs (files : Files) (rootfs : Text) (n : Combinators) (c : Container) (p : Process)
    : Type 0 where
  pub args : p.args ≡ some (or_empty c.entrypoint ++ or_empty c.cmd)
  pub cwd : p.cwd ≡ c.working_dir
  pub env : p.env ≡ c.env
  pub ids : IdsOf files rootfs n c.user p.user

process_of-Runs :
    (files : Files) (rootfs : Text) (n : Combinators) (c : Container) (p : Process)
    → process_of files rootfs n c ≡ ok p
    → Runs files rootfs n c p
unfolding process_of process_with
process_of-Runs files rootfs n c p h = elim (Result-cases (user_of files rootfs n c.user)) [
  | inl u ↦ record {
    args = ground (arith, u.1);
    cwd = ground (arith, u.1);
    env = ground (arith, u.1);
    ids = user_of-IdsOf files rootfs n c.user p.user (ground (arith, u.1));
  }
  | inr e ↦ absurd (ground (arith, e.1))
]

abbrev pub OptionalRuns : Files → Text → Combinators → Option Container → Option Process → Type 0
OptionalRuns files rootfs n none none = Unit {0}
OptionalRuns files rootfs n (some c) (some p) = Runs files rootfs n c p
OptionalRuns files rootfs n _ _ = ⊥

optional_process_lem :
    (files : Files) (rootfs : Text) (n : Combinators) (o : Option Container) (p : Option Process)
    → optional_process files rootfs n o ≡ ok p
    → OptionalRuns files rootfs n o p
unfolding optional_process
optional_process_lem files rootfs n none none h = tt
optional_process_lem files rootfs n none (some p) h = absurd (ground arith)
optional_process_lem files rootfs n (some c) none h = absurd (ground arith)
optional_process_lem files rootfs n (some c) (some p) h =
    process_of-Runs files rootfs n c p (ground arith)

-- A conversion that succeeds gives a bundle with the rootfs, writable, the mounts of the image
-- system, which is Linux or FreeBSD, and its process.
pub runtime_config_of_lem :
    (files : Files) (rootfs : Text) (n : Combinators) (c : Config) (r : RuntimeConfig)
    → runtime_config_of files rootfs n c ≡ ok r
    → (r.root ≡ some (record { path = rootfs; readonly = some false }))
      × (((c.os ≡ codes "linux") × (r.mounts ≡ some linux_mounts))
          ⊎ ((c.os ≡ codes "freebsd") × (r.mounts ≡ some freebsd_mounts)))
      × OptionalRuns files rootfs n c.config r.process
unfolding runtime_config_of assemble generate_mounts
runtime_config_of_lem files rootfs n c r h =
    elim (Result-cases (optional_process files rootfs n c.config)) [
      | inl p ↦ (
        ground (arith, p.1),
        ground (arith, p.1, text_eq_iff c.os (codes "linux"), text_eq_iff c.os (codes "freebsd")),
        optional_process_lem files rootfs n c.config r.process (ground (arith, p.1)),
      )
      | inr e ↦ absurd (ground (arith, e.1))
    ]
