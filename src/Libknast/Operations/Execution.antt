-- ===== src/Libknast/Operations/Execution.antt =====
-- libknast/src/operations.rs, `do_exec`: the states of a process from its first record on, over any
-- engine that keeps the contract.
use knast.Base.{ℕ, Text, none, some, false, ◌≡◌, refl, ◌⊎◌, inl, inr, arith, List, [], Bool}
use knast.Base.Exec.{
  Exec, Result, ok, err, lift, Triple, Triple-bind, Triple-pure, Triple-lift, Triple-weaken,
  Triple-raise, Triple-assume, Triple-match, Triple-attempt, attempt, ◌>>=◌,
}
use knast.Storage.{StorageEngine, Codec}
use knast.Storage.Contract.{View, Contract}
use knast.Storage.Typed.{CodecLaws, read_Triple}
use knast.Baustelle.RuntimeConfig.{RuntimeConfig, Process}
use knast.Host.{Host, Command}
use knast.Libknast.World.{World, on_os, os_Triple, valued_Triple}
use knast.Libknast.AddressPool.{ContainerAddressStorage}
use knast.Base.Heap.{Heap}
use knast.Libknast.Processes.{
  ProcessStatus, created, starting, running, stopped, status_eq, OciStatus, new_status,
}
use knast.Libknast.Processes.Updates.{
  cell, Holds, rewrite_Triple, keep_Triple, found_Triple, new_process_Triple,
}
use knast.Libknast.Bundle.{bare, envs, prepared, set_envs}
use knast.Libknast.Operations.{
  config, rootfs, retrieve_jail, spawned, launch, start_created, do_exec,
}
use knast.Libknast.Processes.{set_status, set_running, container_processes}
use knast.Libknast.Operations.Closures.{Outside, Writes, closure_Triple}

module _ (e : StorageEngine) (C : Contract e) (H : Host) (config_codec : Codec RuntimeConfig)
    (K : CodecLaws config_codec) (c : Codec OciStatus) (L : CodecLaws c) (heap_codec : Codec Heap)
    (cache_codec : Codec ContainerAddressStorage) (key : Text) where
  open C use {Sees}

  abbrev Has : View → Text → OciStatus → World e H → Type 0
  Has = Holds e C H c L key

  -- What an action that is none of a record's keeps.
  abbrev Keeps : {A : Type 0} → View → Text → OciStatus → Exec (World e H) A → Type 0
  Keeps v exec_id p m = Triple (Has v exec_id p) m (λ _. Has v exec_id p) (λ _. Has v exec_id p)

  lift-Keeps :
      {A : Type 0} (v : View) (exec_id : Text) (p : OciStatus) (r : Result A)
      → Keeps v exec_id p (lift r)
  lift-Keeps v exec_id p r = Triple-lift r (λ _ _ _ h. h) (λ _ _ _ h. h)

  os-Keeps :
      {A : Type 0} (v : View) (exec_id : Text) (p : OciStatus) (m : Exec H.Os A)
      → Keeps v exec_id p (on_os m)
  os-Keeps v exec_id p m = os_Triple _ m

  config-Keeps :
      (v : View) (exec_id : Text) (p : OciStatus)
      → Keeps v exec_id p (config e H config_codec c heap_codec cache_codec key)
  unfolding config
  config-Keeps v exec_id p =
      Triple-bind _ _
        (keep_Triple e C H c L key v exec_id p _ (λ u. read_Triple e C config_codec K u _ _))
        λ found. lift-Keeps v exec_id p _

  rootfs-Keeps :
      (v : View) (exec_id : Text) (p : OciStatus)
      → Keeps v exec_id p (rootfs e H config_codec c heap_codec cache_codec key)
  unfolding rootfs
  rootfs-Keeps v exec_id p =
      Triple-bind _ _ (config-Keeps v exec_id p) λ found. lift-Keeps v exec_id p _

  -- The record of a process that was not started, with some other status.
  abbrev pub Ended : View → Text → World e H → Type 0
  Ended v exec_id w =
      (status : ProcessStatus) × (status_eq status running ≡ false)
      × Has v exec_id (set_status status new_status) w

  at_status :
      {A : Type 0} {Q : A → World e H → Type 0} {m : Exec (World e H) A} (v : View) (exec_id : Text)
      (status : ProcessStatus)
      → status_eq status running ≡ false
      → Triple
          (Has v exec_id (set_status status new_status))
          m
          Q
          (λ _. Has v exec_id (set_status status new_status))
      → Triple (Has v exec_id (set_status status new_status)) m Q (λ _. Ended v exec_id)
  at_status v exec_id status h t = Triple-weaken t (λ _ p. p) (λ _ _ q. q) (λ _ s p. (status, h, p))

  module _ (process : Process) (Found : H.Jail → Type 0) (Child : H.Jail → ℕ → Type 0)
      (found : Triple (λ _. Unit) (H.from_name key) (λ jail _. Found jail) (λ _ _. Unit))
      (spawns : (jail : H.Jail) (command : Command)
        → Found jail
        → command.envs ≡ set_envs (envs process.env) []
        → command.uid ≡ some process.user.uid
        → command.gid ≡ some process.user.gid
        → Triple (λ _. Unit) (H.spawn jail command) (λ id _. Child jail id) (λ _ _. Unit)) where
    -- The record of a process that runs: its id is that of a child in the jail that was found.
    abbrev pub Started : View → Text → World e H → Type 0
    Started v exec_id w =
        (jail : H.Jail) × (id : ℕ) × Found jail
        × Child jail id
        × Has v exec_id (set_running id (H.jid jail) new_status) w

    retrieve_jail_Triple :
        (v : View) (exec_id : Text) (p : OciStatus)
        → Triple
            (Has v exec_id p)
            (retrieve_jail e H config_codec c heap_codec cache_codec key)
            (λ jail w. Found jail × Has v exec_id p w)
            (λ _. Has v exec_id p)
    unfolding retrieve_jail
    retrieve_jail_Triple v exec_id p =
        Triple-match _ _ _ (valued_Triple _ Found _ found) (λ jail. Triple-pure jail (λ _ h. h))
          (λ _. Triple-raise _ (λ _ h. h))

    abbrev IsChild : H.Jail → Result ℕ → Type 0
    IsChild jail (ok id) = Child jail id
    IsChild jail (err x) = Unit

    spawn_Triple :
        (v : View) (exec_id dir : Text) (p : OciStatus) (jail : H.Jail) (args : List Text)
        (command : Command)
        → Found jail
        → Triple
            (Has v exec_id p)
            (on_os (attempt (H.spawn jail (prepared dir process args command))))
            (λ r w. IsChild jail r × Has v exec_id p w)
            (λ _. Has v exec_id p)
    unfolding prepared
    spawn_Triple v exec_id dir p jail args command h = valued_Triple _ (IsChild jail) _ (
        Triple-attempt _ (spawns jail (prepared dir process args command) h refl refl refl)
          (λ _ _ r. r) (λ _ _ _. tt))

    spawned_Triple :
        (v : View) (exec_id : Text) (jail : H.Jail) (r : Result ℕ)
        → Found jail
        → IsChild jail r
        → Triple
            (Has v exec_id (set_status starting new_status))
            (spawned e H config_codec c heap_codec cache_codec key exec_id jail r)
            (λ _. Started v exec_id)
            (λ _. Ended v exec_id)
    unfolding spawned status_eq
    spawned_Triple v exec_id jail (err x) h g =
        Triple-bind _ _
          (at_status v exec_id starting refl
            (rewrite_Triple e C H c L key v exec_id _ (set_status stopped)))
          λ _. Triple-raise x (λ s p. (stopped, refl, p))
    spawned_Triple v exec_id jail (ok id) h g = at_status v exec_id starting refl (
        Triple-weaken
          (rewrite_Triple e C H c L key v exec_id (set_status starting new_status)
            (set_running id (H.jid jail)))
          (λ _ p. p) (λ _ s p. (jail, id, h, g, p)) (λ _ s p. p))

    module _ (tables : Text → Bool) (keeps : tables container_processes ≡ false) where
      -- What holds of the records, where the closure may have written to other tables.
      abbrev pub Elsewhere : (View → World e H → Type 0) → View → World e H → Type 0
      Elsewhere P v w = (u : View) × Outside tables v u × P u w

      prepared_Triple :
          (v : View) (exec_id dir : Text) (jail : H.Jail) (args : List Text) (command : Command)
          → Found jail
          → Triple
              (Has v exec_id (set_status starting new_status))
              (on_os (attempt (H.spawn jail (prepared dir process args command))) >>= λ result.
                on_os (H.defer_cleanup jail) >>= λ _.
                spawned e H config_codec c heap_codec cache_codec key exec_id jail result)
              (λ _. Started v exec_id)
              (λ _. Ended v exec_id)
      unfolding status_eq
      prepared_Triple v exec_id dir jail args command h =
          Triple-bind _ _
            (at_status v exec_id starting refl (spawn_Triple v exec_id dir _ jail args command h))
            λ result. Triple-assume λ g.
              Triple-bind _ _ (at_status v exec_id starting refl (os-Keeps v exec_id _ _))
                λ _. spawned_Triple v exec_id jail result h g

      closed_Triple :
          (v : View) (exec_id dir : Text) (jail : H.Jail) (args : List Text) (command : Command)
          (f : Command → Exec (World e H) Command)
          → Writes e C H c L key tables f
          → Found jail
          → Triple
              (Has v exec_id (set_status starting new_status))
              (f command >>= λ command.
                on_os (attempt (H.spawn jail (prepared dir process args command))) >>= λ result.
                on_os (H.defer_cleanup jail) >>= λ _.
                spawned e H config_codec c heap_codec cache_codec key exec_id jail result)
              (λ _. Elsewhere (λ u. Started u exec_id) v)
              (λ _. Elsewhere (λ u. Ended u exec_id) v)
      unfolding status_eq
      closed_Triple v exec_id dir jail args command f writes h =
          Triple-bind _ _
            (Triple-weaken
              (closure_Triple e C H c L key tables v exec_id (set_status starting new_status) f
                command keeps writes)
              (λ _ p. p) (λ _ _ p. p) (λ _ s (u, o, p). (u, o, (starting, refl, p))))
            λ command. record {
              at = λ s (u, o, p).
                  (Triple-weaken (prepared_Triple u exec_id dir jail args command h) (λ _ p. p)
                      (λ _ _ q. (u, o, q)) (λ _ _ q. (u, o, q))).at
                    s p;
            }

      -- Where nothing was written yet.
      here :
          {A : Type 0} {Q : A → World e H → Type 0} {P : World e H → Type 0}
          {m : Exec (World e H) A} (v : View) (exec_id : Text)
          → Triple P m Q (λ _. Ended v exec_id)
          → Triple P m Q (λ _. Elsewhere (λ u. Ended u exec_id) v)
      here v exec_id t = Triple-weaken t (λ _ p. p) (λ _ _ q. q) (λ _ _ q. (v, (λ _ _ _. refl), q))

      launch_Triple :
          (v : View) (exec_id dir : Text) (line : Text × List Text)
          (f : Command → Exec (World e H) Command)
          → Writes e C H c L key tables f
          → Triple
              (Has v exec_id new_status)
              (launch e H config_codec c heap_codec cache_codec key exec_id dir process line f)
              (λ _. Elsewhere (λ u. Started u exec_id) v)
              (λ _. Elsewhere (λ u. Ended u exec_id) v)
      unfolding launch status_eq
      launch_Triple v exec_id dir line f writes =
          Triple-bind _ _
            (here v exec_id (
              at_status v exec_id created refl
                (rewrite_Triple e C H c L key v exec_id new_status (set_status starting))))
            λ _.
              Triple-bind _ _
                (here v exec_id
                  (at_status v exec_id starting refl (retrieve_jail_Triple v exec_id _)))
                λ jail.
                  Triple-assume
                    λ h. closed_Triple v exec_id dir jail line.1 (bare line.0) f writes h

      start_created_Triple :
          (v : View) (exec_id : Text) (f : Command → Exec (World e H) Command)
          → Writes e C H c L key tables f
          → Triple
              (Has v exec_id new_status)
              (start_created e H config_codec c heap_codec cache_codec key exec_id process f)
              (λ _. Elsewhere (λ u. Started u exec_id) v)
              (λ _. Elsewhere (λ u. Ended u exec_id) v)
      unfolding start_created status_eq
      start_created_Triple v exec_id f writes =
          Triple-bind _ _
            (here v exec_id (at_status v exec_id created refl (rootfs-Keeps v exec_id _)))
            λ dir.
              Triple-bind _ _
                (here v exec_id (at_status v exec_id created refl (lift-Keeps v exec_id _ _)))
                λ line. launch_Triple v exec_id dir line f writes

      -- Let Found hold of the jail that the name of the container gives, and Child of what spawn
      -- returns in such a jail for a command with the environment and the ids of the process.
      -- Let the closure that do_exec applies to the command write at most to some tables, not to
      -- that of the records. do_exec succeeds only for a process without a record, and then the
      -- record says running with the id of such a child and of the jail; if it fails, the
      -- storage is unchanged, or the process had no record and now has one with another status.
      -- Either way the storage is otherwise as it was, but for the tables of the closure.
      pub do_exec_Triple :
          (v : View) (exec_id : Text) (f : Command → Exec (World e H) Command)
          → Writes e C H c L key tables f
          → Triple
              (λ w. Sees v w.db)
              (do_exec e H config_codec c heap_codec cache_codec key exec_id process f)
              (λ _ w. (cell key v exec_id ≡ none) × Elsewhere (λ u. Started u exec_id) v w)
              (λ _ w.
                Sees v w.db ⊎ ((cell key v exec_id ≡ none) × Elsewhere (λ u. Ended u exec_id) v w))
      unfolding do_exec status_eq
      do_exec_Triple v exec_id f writes =
          Triple-bind _ _
            (Triple-weaken (new_process_Triple e C H c L key v exec_id) (λ _ h. h) (λ _ _ h. h)
              (λ _ _ h. inl h))
            λ _. Triple-assume λ fresh.
              Triple-bind _ _
                (Triple-weaken
                  (here v exec_id (
                    at_status v exec_id created refl
                      (found_Triple e C H c L key v exec_id new_status)))
                  (λ _ h. h) (λ _ _ h. h) (λ _ _ h. inr (fresh, h)))
                λ p. Triple-assume λ q. rw q (
                  Triple-weaken (start_created_Triple v exec_id f writes) (λ _ h. h)
                    (λ _ _ h. (fresh, h)) (λ _ _ h. inr (fresh, h)))

  -- do_exec of a process that has a record, of whatever status, fails and leaves the storage.
  pub do_exec_again :
      (v : View) (exec_id bytes : Text) (process : Process) (f : Command → Exec (World e H) Command)
      → cell key v exec_id ≡ some bytes
      → Triple
          (λ w. Sees v w.db)
          (do_exec e H config_codec c heap_codec cache_codec key exec_id process f)
          (λ _ w. ⊥)
          (λ _ w. Sees v w.db)
  unfolding do_exec
  do_exec_again v exec_id bytes process f h =
      Triple-bind _ _ (new_process_Triple e C H c L key v exec_id)
        λ _. Triple-assume λ fresh. absurd (taken fresh)
    where
      taken : cell key v exec_id ≡ none → ⊥
      taken p = ground arith
