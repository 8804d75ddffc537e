-- ===== src/Libknast/Operations/Signals.antt =====
-- libknast/src/operations.rs, `do_kill`: when a signal is sent, and to which process.
use knast.Base.{Text, some, true, ◌≡◌, refl, inl, inr, Bool-cases, arith}
use knast.Base.Exec.{
  Triple, Triple-bind, Triple-pure, Triple-raise, Triple-assume, Triple-match, Triple-weaken,
}
use knast.Base.Int.{ℤ}
use knast.Storage.{StorageEngine, Codec}
use knast.Storage.Contract.{View, Contract}
use knast.Storage.Typed.{CodecLaws, Stored}
use knast.Baustelle.RuntimeConfig.{RuntimeConfig}
use knast.Host.{Host}
use knast.Base.Heap.{Heap}
use knast.Libknast.World.{World, valued_Triple, beside_Triple}
use knast.Libknast.AddressPool.{ContainerAddressStorage}
use knast.Libknast.Network.Fork.{run_in_fork_Triple}
use knast.Libknast.Processes.{
  ProcessStatus, created, starting, running, stopped, status_eq, OciStatus,
}
use knast.Libknast.Processes.Updates.{cell, get_process_Triple}
use knast.Libknast.Operations.{retrieve_jail, do_kill}

is_running : (status : ProcessStatus) → status_eq status running ≡ true → status ≡ running
unfolding status_eq
is_running created p = absurd (ground arith)
is_running starting p = absurd (ground arith)
is_running running p = refl
is_running stopped p = absurd (ground arith)

module _ (e : StorageEngine) (C : Contract e) (H : Host) (config_codec : Codec RuntimeConfig)
    (c : Codec OciStatus) (L : CodecLaws c) (heap_codec : Codec Heap)
    (cache_codec : Codec ContainerAddressStorage) (key : Text) where
  open C use {Sees}

  jail_Triple :
      (v : View) (Found : H.Jail → Type 0)
      → Triple (λ _. Unit) (H.from_name key) (λ jail _. Found jail) (λ _ _. Unit)
      → Triple
          (λ (w : World e H). Sees v w.db)
          (retrieve_jail e H config_codec c heap_codec cache_codec key)
          (λ jail w. Found jail × Sees v w.db)
          (λ _ w. Sees v w.db)
  unfolding retrieve_jail
  jail_Triple v Found found =
      Triple-match _ _ _ (valued_Triple (Sees v) Found _ found)
        (λ jail. Triple-pure jail (λ _ h. h)) (λ _. Triple-raise _ (λ _ h. h))

  -- Let Found hold of the jail that the name of the container gives, Inside after attaching to
  -- such a jail, and Sent after a signal to the recorded process id from inside it, also when
  -- the child has been waited for and its result read. do_kill of a process with a record
  -- succeeds only if the record says running, and then Sent holds; the storage is as it was,
  -- also behind an error.
  pub do_kill_Triple :
      (v : View) (exec_id : Text) (p : OciStatus) (signal : ℤ) (Found : H.Jail → Type 0)
      (Inside : H.Jail → H.Os → Type 0) (Sent : H.Os → Type 0)
      → Stored c (some p) (cell key v exec_id)
      → Triple (λ _. Unit) (H.from_name key) (λ jail _. Found jail) (λ _ _. Unit)
      → ((jail : H.Jail)
          → Found jail
          → Triple (λ _. Unit) (H.attach jail) (λ _. Inside jail) (λ _ _. Unit))
      → ((jail : H.Jail)
          → Found jail
          → Triple (Inside jail) (H.kill p.pid signal) (λ _. Sent) (λ _ _. Unit))
      → Triple Sent H.wait_child (λ _. Sent) (λ _ _. Unit)
      → Triple Sent H.read_child (λ _. Sent) (λ _ _. Unit)
      → Triple
          (λ (w : World e H). Sees v w.db)
          (do_kill e H config_codec c heap_codec cache_codec key exec_id signal)
          (λ _ w. (p.status ≡ running) × (Sent w.os × Sees v w.db))
          (λ _ w. Sees v w.db)
  unfolding do_kill
  do_kill_Triple v exec_id p signal Found Inside Sent h found attaches kills waits reads =
      Triple-bind _ _ (get_process_Triple e C H c L key v exec_id p h) λ r. Triple-assume λ q.
        elim (Bool-cases (status_eq p.status running)) [
          | inl y ↦
              rw (q, y)
                (Triple-bind _ _ (jail_Triple v Found found) λ jail. Triple-assume λ f.
                  Triple-weaken
                    (beside_Triple (Sees v) (λ _. Sent) _
                      (run_in_fork_Triple e H heap_codec cache_codec (λ _. Sent) _
                        (Triple-bind _ _ (attaches jail f) λ _. kills jail f) (λ _. waits)
                        (λ _. reads)))
                    (λ _ t. t) (λ _ _ t. (is_running p.status y, t)) (λ _ _ t. t))
          | inr n ↦ rw (q, n) (Triple-raise _ (λ _ s. s))
        ]
