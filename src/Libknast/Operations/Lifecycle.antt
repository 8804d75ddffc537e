-- ===== src/Libknast/Operations/Lifecycle.antt =====
-- libknast/src/operations.rs: `kill`, `state`, `wait` and `delete`, over any engine that keeps the
-- contract.
use knast.Base.{ℕ, Text, some, false, ◌≡◌, refl, ap, subst}
use knast.Base.Exec.{
  Result, ok, err, Triple, Triple-bind, Triple-pure, Triple-weaken, Triple-raise, Triple-assume,
  Triple-match, Triple-attempt, Triple-true,
}
use knast.Base.Int.{ℤ}
use knast.Storage.{StorageEngine, Codec}
use knast.Storage.Contract.{View, Contract}
use knast.Storage.Typed.{CodecLaws, Stored}
use knast.Baustelle.RuntimeConfig.{RuntimeConfig}
use knast.Host.{Host, WaitStatus}
use knast.Libknast.World.{World, valued_Triple, os_Triple}
use knast.Libknast.AddressPool.{ContainerAddressStorage}
use knast.Base.Heap.{Heap}
use knast.Libknast.Processes.{
  ProcessStatus, created, starting, running, stopped, status_eq, OciStatus, main_process,
}
use knast.Libknast.Processes.Updates.{
  cell, Holds, get_process_Triple, update_process_Triple, framed_process,
}
use knast.Libknast.Operations.{retrieve_jail, do_kill, get_state, state, do_wait}
use knast.Libknast.Processes.{set_exited, set_status, shown_status, exit_code}

module _ (e : StorageEngine) (C : Contract e) (H : Host) (config_codec : Codec RuntimeConfig)
    (c : Codec OciStatus) (L : CodecLaws c) (heap_codec : Codec Heap)
    (cache_codec : Codec ContainerAddressStorage) (key : Text) where
  open C use {Sees}

  -- do_kill of a process whose record does not say running fails, and has changed neither the
  -- storage nor the system.
  pub do_kill_refused :
      (v : View) (o : H.Os) (exec_id : Text) (p : OciStatus) (signal : ℤ)
      → Stored c (some p) (cell key v exec_id)
      → status_eq p.status running ≡ false
      → Triple
          (λ (w : World e H). Sees v w.db × (w.os ≡ o))
          (do_kill e H config_codec c heap_codec cache_codec key exec_id signal)
          (λ _ w. ⊥)
          (λ _ w. Sees v w.db × (w.os ≡ o))
  unfolding do_kill
  do_kill_refused v o exec_id p signal h n =
      Triple-bind _ _ (framed_process e C H c L key v o exec_id p h)
        λ r. Triple-assume λ q. rw (q, n) (Triple-raise _ (λ _ s. s))

  shown_status_lem :
      {A : Type 0} (r : Result A) (status : ProcessStatus) → shown_status r status ≡ status
  unfolding shown_status
  shown_status_lem (ok a) created = refl
  shown_status_lem (ok a) starting = refl
  shown_status_lem (ok a) running = refl
  shown_status_lem (ok a) stopped = refl
  shown_status_lem (err x) created = refl
  shown_status_lem (err x) starting = refl
  shown_status_lem (err x) running = refl
  shown_status_lem (err x) stopped = refl

  jail-Keeps :
      (v : View)
      → Triple
          (λ (w : World e H). Sees v w.db)
          (retrieve_jail e H config_codec c heap_codec cache_codec key)
          (λ _ w. Sees v w.db)
          (λ _ w. Sees v w.db)
  unfolding retrieve_jail
  jail-Keeps v =
      Triple-match _ _ _ (os_Triple (Sees v) _) (λ jail. Triple-pure jail (λ _ h. h))
        (λ _. Triple-raise _ (λ _ h. h))

  -- If get_state of a process with a record succeeds, it returns the record as it is stored,
  -- whether the jail is found or not; it changes nothing in the storage.
  pub get_state_Triple :
      (v : View) (exec_id : Text) (p : OciStatus)
      → Stored c (some p) (cell key v exec_id)
      → Triple
          (λ (w : World e H). Sees v w.db)
          (get_state e H config_codec c heap_codec cache_codec key exec_id)
          (λ r w. (r ≡ p) × Sees v w.db)
          (λ _ w. Sees v w.db)
  unfolding get_state
  get_state_Triple v exec_id p h =
      Triple-bind _ _ (get_process_Triple e C H c L key v exec_id p h) λ r. Triple-assume λ q.
        rw q (
          Triple-bind _ _ (Triple-attempt _ (jail-Keeps v) (λ _ _ s. s) (λ _ _ s. s)) λ jail.
            Triple-pure _ (λ w s. (ap (λ x. set_status x p) (shown_status_lem jail p.status), s)))

  -- The state of the container is that of its main process.
  pub main_state_Triple :
      (v : View) (p : OciStatus)
      → Stored c (some p) (cell key v main_process)
      → Triple
          (λ (w : World e H). Sees v w.db)
          (state e H config_codec c heap_codec cache_codec key)
          (λ r w. (r ≡ p) × Sees v w.db)
          (λ _ w. Sees v w.db)
  unfolding state
  main_state_Triple v p h = get_state_Triple v main_process p h

  -- Let Exits hold of what waitpid returns for the recorded process id. After do_wait of a
  -- process with a record, the record says stopped, without a process id, with the code of such
  -- a status, if it is a normal exit, and a time; if it fails, the storage is unchanged.
  pub do_wait_Triple :
      (v : View) (exec_id : Text) (p : OciStatus) (Exits : WaitStatus → Type 0)
      → Stored c (some p) (cell key v exec_id)
      → Triple (λ _. Unit) (H.waitpid p.pid) (λ status _. Exits status) (λ _ _. Unit)
      → Triple
          (λ (w : World e H). Sees v w.db)
          (do_wait e H config_codec c heap_codec cache_codec key exec_id)
          (λ _ w.
            (status : WaitStatus) × (time : ℕ) × Exits status
            × Holds e C H c L key v exec_id (set_exited (exit_code status) time p) w)
          (λ _ w. Sees v w.db)
  unfolding do_wait
  do_wait_Triple v exec_id p Exits h waits =
      Triple-bind _ _ (get_process_Triple e C H c L key v exec_id p h) λ r. Triple-assume λ q.
        rw q (
          Triple-bind _ _ (valued_Triple (Sees v) Exits _ waits) λ status. Triple-assume λ exits.
            Triple-weaken
              (update_process_Triple e C H c L key v exec_id p _
                (λ r. (time : ℕ) × (r ≡ set_exited (exit_code status) time p)) h
                (Triple-bind _ _ (Triple-true H.now) λ time. Triple-pure _ (λ _ _. (time, refl))))
              (λ _ s. s)
              (λ _ w s.
                (status, s.1.0, exits, subst (λ r. Holds e C H c L key v exec_id r w) s.1.1 s.2))
              (λ _ _ s. s))
