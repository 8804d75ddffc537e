-- ===== src/Libknast/Operations/Creation.antt =====
-- libknast/src/operations.rs: what `create` and `delete` do to the storage, over any engine that
-- keeps the contract.
use knast.Base.{ℕ, Text, text_eq, Option, none, some, List, [], ◌∷◌, ◌≡◌, refl, ◌⊎◌, inl, inr, ◌∙◌}
use knast.Base.Exec.{
  Exec, Error, message, foreign, exhausted, panic, ok, ok_or-ok, Triple, Triple-bind, Triple-pure,
  Triple-weaken, Triple-bind-lift, Triple-raise, Triple-match, Triple-true, Triple-assume, ◌>>=◌,
}
use knast.Storage.{StorageEngine, Codec}
use knast.Storage.Contract.{View, update, Contract, update_ne_tree}
use knast.Storage.Typed.{CodecLaws, put_Triple}
use knast.Baustelle.RuntimeConfig.{RuntimeConfig, Mount}
use knast.Host.{Host}
use knast.Libknast.World.{World, valued_Triple, db_Triple}
use knast.Libknast.AddressPool.{ContainerAddressStorage}
use knast.Base.Heap.{Heap}
use knast.Libknast.Network.Frame.{
  Frame, read-Inside, db-Framed, os-Framed, lift-Framed, pure-Framed, setup-Framed, teardown-Framed,
}
use knast.Libknast.Processes.{OciStatus, container_processes, process_id, main_process}
use knast.Libknast.Processes.Updates.{cell, lookup_Triple, missing_Triple}
use knast.Libknast.Operations.{
  config, rootfs, mounts, mount_all, unmount_all, set_up, create_new, create, cleanup, do_delete,
  logged, delete, retrieve_jail, state, get_state,
}
use knast.Libknast.Bundle.{container_config, root_path, locked}

module _ (e : StorageEngine) (C : Contract e) (H : Host) (config_codec : Codec RuntimeConfig)
    (K : CodecLaws config_codec) (c : Codec OciStatus) (L : CodecLaws c) (heap_codec : Codec Heap)
    (J : CodecLaws heap_codec) (cache_codec : Codec ContainerAddressStorage)
    (I : CodecLaws cache_codec) (key : Text) where
  open C use {Sees}

  -- The network's frame.
  abbrev pub Around : View → World e H → Type 0
  Around v w = Frame e C H heap_codec J cache_codec I v w.db

  abbrev Stays : {A : Type 0} → View → Exec (World e H) A → Type 0
  Stays v m = Triple (Around v) m (λ _. Around v) (λ _. Around v)

  config-Stays : (v : View) → Stays v (config e H config_codec c heap_codec cache_codec key)
  unfolding config
  config-Stays v =
      Triple-bind _ _
        (db-Framed e C H heap_codec J cache_codec I v _
          (read-Inside e C H heap_codec J cache_codec I v config_codec K _ _))
        λ found. lift-Framed e C H heap_codec J cache_codec I v _

  rootfs-Stays : (v : View) → Stays v (rootfs e H config_codec c heap_codec cache_codec key)
  unfolding rootfs
  rootfs-Stays v =
      Triple-bind _ _ (config-Stays v) λ found. lift-Framed e C H heap_codec J cache_codec I v _

  mounts-Stays : (v : View) → Stays v (mounts e H config_codec c heap_codec cache_codec key)
  unfolding mounts
  mounts-Stays v =
      Triple-bind _ _ (config-Stays v) λ found. pure-Framed e C H heap_codec J cache_codec I v _

  mount_all-Stays :
      (v : View) (dir : Text) (ms : List Mount)
      → Stays v (mount_all e H config_codec c heap_codec cache_codec key dir ms)
  unfolding mount_all
  mount_all-Stays v dir [] = pure-Framed e C H heap_codec J cache_codec I v tt
  mount_all-Stays v dir (m ∷ ms) =
      Triple-bind _ _ (os-Framed e C H heap_codec J cache_codec I v _) λ _. mount_all-Stays v dir ms

  unmount_all-Stays :
      (v : View) (dir : Text) (ms : List Mount)
      → Stays v (unmount_all e H config_codec c heap_codec cache_codec key dir ms)
  unfolding unmount_all
  unmount_all-Stays v dir [] = pure-Framed e C H heap_codec J cache_codec I v tt
  unmount_all-Stays v dir (m ∷ ms) =
      Triple-bind _ _ (os-Framed e C H heap_codec J cache_codec I v _)
        λ _. unmount_all-Stays v dir ms

  set_up-Stays :
      (v : View) (fuel : ℕ) (nat : Option Text)
      → Stays v (set_up e H config_codec c heap_codec cache_codec key fuel nat)
  unfolding set_up
  set_up-Stays v fuel nat = Triple-bind _ _ (rootfs-Stays v) λ dir.
      Triple-bind _ _ (mounts-Stays v) λ ms. Triple-bind _ _ (mount_all-Stays v dir ms) λ _.
        Triple-bind _ _ (os-Framed e C H heap_codec J cache_codec I v _)
          λ jail. setup-Framed e C H heap_codec J cache_codec I v fuel key jail nat

  -- The locked configuration is stored; outside it and the network's table nothing has changed.
  pub record Locked (v : View) (path : Text) (Reads : RuntimeConfig → Type 0) (w : World e H)
      : Type 0 where
    pub source : RuntimeConfig
    pub read : Reads source
    pub root : Text
    pub root_is : root_path source ≡ some root
    pub bytes : Text
    pub serialized : config_codec.serialize (locked path root source) ≡ ok bytes
    pub around : Around (update v container_config key (some bytes)) w

  create_new_Triple :
      (v : View) (fuel : ℕ) (path : Text) (nat : Option Text) (Reads : RuntimeConfig → Type 0)
      → Triple (λ _. Unit) (H.read_config path) (λ source _. Reads source) (λ _ _. Unit)
      → Triple
          (λ w. Sees v w.db)
          (create_new e H config_codec c heap_codec cache_codec key fuel path nat)
          (λ _. Locked v path Reads)
          (λ _ w. Sees v w.db ⊎ Locked v path Reads w)
  unfolding create_new
  create_new_Triple v fuel path nat Reads reads =
      Triple-bind _ _
        (Triple-weaken (valued_Triple (Sees v) Reads _ reads) (λ _ s. s) (λ _ _ s. s)
          (λ _ _ s. inl s))
        λ source. Triple-assume λ read.
          Triple-bind-lift _ _
            (λ root is.
              Triple-bind _ _
                (Triple-weaken
                  (db_Triple _ (
                    put_Triple e C config_codec K v container_config key (locked path root source)))
                  (λ _ s. s) (λ _ w s. s.1) (λ _ _ s. inl s))
                λ _. record {
                  at = λ w h.
                      (Triple-weaken (set_up-Stays _ fuel nat) (λ _ s. s)
                          (λ _ _ s. record {
                            source = source;
                            read = read;
                            root = root;
                            root_is = ok_or-ok _ _ root is;
                            bytes = h.bytes;
                            serialized = h.serialized;
                            around = s;
                          })
                          (λ _ _ s. inr (record {
                            source = source;
                            read = read;
                            root = root;
                            root_is = ok_or-ok _ _ root is;
                            bytes = h.bytes;
                            serialized = h.serialized;
                            around = s;
                          }))).at
                        w
                        (record {
                          map = update v container_config key (some h.bytes);
                          sees = h.sees;
                          others = λ _ _ _. refl;
                        });
                })
            (λ _ _ _ s. inl s)

  -- Let Reads hold of the configuration that is read in the bundle. create stores such a
  -- configuration, with its root joined to the path of the bundle, where an absolute root stays
  -- what it is; whether it succeeds or fails, at most this cell and the table of the network
  -- have changed.
  pub create_Triple :
      (v : View) (fuel : ℕ) (path : Text) (nat : Option Text) (Reads : RuntimeConfig → Type 0)
      → Triple (λ _. Unit) (H.read_config path) (λ source _. Reads source) (λ _ _. Unit)
      → Triple
          (λ w. Sees v w.db)
          (create e H config_codec c heap_codec cache_codec key fuel path nat)
          (λ _. Locked v path Reads)
          (λ _ w. Sees v w.db ⊎ Locked v path Reads w)
  unfolding create
  create_Triple v fuel path nat Reads reads =
      Triple-match _ _ _ (lookup_Triple e C H c L key v main_process)
        (λ _. Triple-raise _ (λ _ s. inl s)) (λ _. create_new_Triple v fuel path nat Reads reads)

  cleanup-Stays :
      (v : View) (fuel : ℕ) → Stays v (cleanup e H config_codec c heap_codec cache_codec key fuel)
  unfolding cleanup
  cleanup-Stays v fuel = Triple-bind _ _ (rootfs-Stays v) λ dir.
      Triple-bind _ _ (mounts-Stays v) λ ms.
        Triple-bind _ _ (unmount_all-Stays v dir _)
          λ _. teardown-Framed e C H heap_codec J cache_codec I v fuel key

  jail-Stays : (v : View) → Stays v (retrieve_jail e H config_codec c heap_codec cache_codec key)
  unfolding retrieve_jail
  jail-Stays v =
      Triple-match _ _ _ (os-Framed e C H heap_codec J cache_codec I v _)
        (λ jail. pure-Framed e C H heap_codec J cache_codec I v jail)
        (λ _. Triple-raise _ (λ _ h. h))

  -- What leaves the handler of the cleanup's error.
  logged_Triple :
      (v : View) (x : Error)
      → Triple
          (Around v)
          (logged e H config_codec c heap_codec cache_codec key x)
          (λ _. Around v)
          (λ x w. ((x ≡ panic) ⊎ (x ≡ exhausted)) × Around v w)
  unfolding logged
  logged_Triple v panic = Triple-raise _ (λ _ h. (inl refl, h))
  logged_Triple v exhausted = Triple-raise _ (λ _ h. (inr refl, h))
  logged_Triple v (message m) = Triple-pure tt (λ _ h. h)
  logged_Triple v (foreign m) = Triple-pure tt (λ _ h. h)

  -- delete fails only in a panic, or where the fuel ends; whether it succeeds or fails, it
  -- changes at most the table of the network.
  pub delete_Triple :
      (v : View) (fuel : ℕ)
      → Triple
          (λ w. Sees v w.db)
          (delete e H config_codec c heap_codec cache_codec key fuel)
          (λ _. Around v)
          (λ x w. ((x ≡ panic) ⊎ (x ≡ exhausted)) × Around v w)
  unfolding delete do_delete
  delete_Triple v fuel =
      Triple-weaken
        (Triple-match _ _ _ (jail-Stays v) (λ _. Triple-pure tt (λ _ h. h))
          (λ _.
            Triple-match _ _ _ (cleanup-Stays v fuel) (λ _. Triple-pure tt (λ _ h. h))
              (logged_Triple v)))
        (λ _ s. record { map = v; sees = s; others = λ _ _ _. refl }) (λ _ _ h. h) (λ _ _ h. h)

  -- The record's cell is where it was after a creation.
  still_absent :
      (v : View) (path : Text) (w : World e H) (Reads : RuntimeConfig → Type 0)
      (h : Locked v path Reads w)
      → cell key v main_process ≡ none
      → cell key h.around.map main_process ≡ none
  unfolding text_eq
  still_absent v path w Reads h p =
      h.around.others container_processes (process_id key main_process) refl
      ∙ (update_ne_tree v container_config key (some h.bytes) container_processes
            (process_id key main_process) refl
          ∙ p)

  -- If the main process of a container has no record, asking for the state after a creation
  -- fails, since create writes no record.
  pub created_state :
      (v : View) (fuel : ℕ) (path : Text) (nat : Option Text)
      → cell key v main_process ≡ none
      → Triple
          (λ w. Sees v w.db)
          (create e H config_codec c heap_codec cache_codec key fuel path nat >>= λ _.
            state e H config_codec c heap_codec cache_codec key)
          (λ _ _. ⊥)
          (λ _ _. Unit)
  unfolding state get_state
  created_state v fuel path nat p =
      Triple-bind _ _
        (Triple-weaken (create_Triple v fuel path nat (λ _. Unit) (Triple-true _)) (λ _ s. s)
          (λ _ _ s. s) (λ _ _ _. tt))
        λ _. record {
          at = λ w h.
              (Triple-weaken
                  (Triple-bind {R = λ _ _. ⊥} _ _
                    (missing_Triple e C H c L key h.around.map main_process
                      (still_absent v path w (λ _. Unit) h p))
                    (λ _. record { at = λ _ x. absurd x }))
                  (λ _ s. s) (λ _ _ s. s) (λ _ _ _. tt)).at
                w h.around.sees;
        }
