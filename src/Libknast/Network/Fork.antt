-- ===== src/Libknast/Network/Fork.antt =====
-- libknast/src/operations/utils.rs, `run_in_fork`: what the child does is seen by the parent.
use knast.Base.{inl, inr, Bool-cases, ◌==◌}
use knast.Base.Exec.{
  Exec, Result, message, foreign, exhausted, panic, ok, err, Triple, Triple-bind, Triple-pure,
  Triple-attempt, Triple-raise, Triple-true,
}
use knast.Base.Int.{pos, negsuc}
use knast.Storage.{StorageEngine, Codec}
use knast.Base.Heap.{Heap}
use knast.Host.{Host, WaitStatus, exited, other}
use knast.Libknast.AddressPool.{ContainerAddressStorage}
use knast.Libknast.Network.{run_in_fork, child_result, told}

module _ (e : StorageEngine) (H : Host) (heap_codec : Codec Heap)
    (cache_codec : Codec ContainerAddressStorage) {A : Type 0} (Q : A → H.Os → Type 0) where
  -- Of a result that is a value.
  abbrev Valued : Result A → H.Os → Type 0
  Valued (ok a) s = Q a s
  Valued (err x) s = Unit

  told_Triple :
      (result : Result A)
      → Triple (Valued result) (told e H heap_codec cache_codec result) Q (λ _ _. Unit)
  unfolding told
  told_Triple (ok a) = Triple-pure a (λ _ q. q)
  told_Triple (err panic) = Triple-raise _ (λ _ _. tt)
  told_Triple (err (message m)) = Triple-raise _ (λ _ _. tt)
  told_Triple (err (foreign m)) = Triple-raise _ (λ _ _. tt)
  told_Triple (err exhausted) = Triple-raise _ (λ _ _. tt)

  -- The result stays what it is while the parent waits and reads.
  stays :
      {B : Type 0} (m : Exec H.Os B)
      → ((a : A) → Triple (Q a) m (λ _. Q a) (λ _ _. Unit))
      → (result : Result A) → Triple (Valued result) m (λ _. Valued result) (λ _ _. Unit)
  stays m keeps (ok a) = keeps a
  stays m keeps (err x) = Triple-true m

  child_Triple :
      (status : WaitStatus) (result : Result A)
      → ((a : A) → Triple (Q a) H.read_child (λ _. Q a) (λ _ _. Unit))
      → Triple
          (Valued result)
          (child_result e H heap_codec cache_codec status result)
          Q
          (λ _ _. Unit)
  unfolding child_result
  child_Triple other result reads = Triple-raise _ (λ _ _. tt)
  child_Triple (exited (negsuc n)) result reads = Triple-raise _ (λ _ _. tt)
  child_Triple (exited (pos code)) result reads = elim (Bool-cases (code == 0)) [
    | inl p ↦ rw p (
        Triple-bind {R = λ _. Valued result} _ _ (stays H.read_child reads result)
          λ _. told_Triple result)
    | inr p ↦ elim (Bool-cases (code == 15)) [
      | inl q ↦ rw (p, q) (Triple-raise _ (λ _ _. tt))
      | inr q ↦ rw (p, q) (Triple-raise _ (λ _ _. tt))
    ]
  ]

  -- What the closure promises holds behind the fork, if waiting for the child and reading its result keep it.
  pub run_in_fork_Triple :
      (f : Exec H.Os A)
      → Triple (λ _. Unit) f Q (λ _ _. Unit)
      → ((a : A) → Triple (Q a) H.wait_child (λ _. Q a) (λ _ _. Unit))
      → ((a : A) → Triple (Q a) H.read_child (λ _. Q a) (λ _ _. Unit))
      → Triple (λ _. Unit) (run_in_fork e H heap_codec cache_codec f) Q (λ _ _. Unit)
  unfolding run_in_fork
  run_in_fork_Triple f t keeps reads = Triple-bind _ _ (Triple-true H.fork) λ _.
      Triple-bind {R = Valued} _ _ (Triple-attempt f t (λ _ _ q. q) (λ _ _ _. tt)) λ result.
        Triple-bind {R = λ _. Valued result} _ _ (stays H.wait_child keeps result)
          λ status. child_Triple status result reads
