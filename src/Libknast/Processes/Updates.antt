-- ===== src/Libknast/Processes/Updates.antt =====
-- libknast/src/operations.rs: what the methods on a process record do to the storage, over any
-- engine that keeps the contract.
use knast.Base.{Text, Option, none, some, ◌≡◌, refl, sym, subst, arith}
use knast.Base.Exec.{
  Exec, Error, ok, ok_or, pure, raise, lift, Triple, Triple-bind, Triple-pure, Triple-lift,
  Triple-weaken, Triple-raise, Triple-assume,
}
use knast.Storage.{StorageEngine, Codec}
use knast.Storage.Contract.{View, update, Contract}
use knast.Storage.Typed.{
  CodecLaws, Stored, Writes, get_Triple, swap_Triple, read_Triple, remove_Triple, Writes-Stored,
  Writes-over,
}
use knast.Host.{Host}
use knast.Libknast.World.{World, on_db, db_Triple, framed_Triple, valued_Triple}
use knast.Libknast.Processes.{
  OciStatus, container_processes, process_id, new_status, get_process, update_process, new_process,
  delete_process,
}

-- The cell of a process.
abbrev pub cell : Text → View → Text → Option Text
cell key v exec_id = v container_processes (process_id key exec_id)

pub found_value :
    {A : Type 0} (x : Error) (o : Option A) (p a : A) → o ≡ some p → ok_or x o ≡ ok a → a ≡ p
found_value x none p a q r = absurd (ground arith)
found_value x (some b) p a q r = ground arith

module _ (e : StorageEngine) (C : Contract e) (H : Host) (c : Codec OciStatus) (L : CodecLaws c)
    (key : Text) where
  open C use {Sees}

  -- The database is the map `v` with the record `p` of the process.
  abbrev pub Holds : View → Text → OciStatus → World e H → Type 0
  Holds v exec_id p w = Writes e C c L v container_processes (process_id key exec_id) p w.db

  -- Looking a record up changes nothing.
  pub lookup_Triple :
      (v : View) (exec_id : Text)
      → Triple
          (λ (w : World e H). Sees v w.db)
          (get_process e H c key exec_id)
          (λ _ w. Sees v w.db)
          (λ _ w. Sees v w.db)
  unfolding get_process
  lookup_Triple v exec_id =
      Triple-bind _ _ (db_Triple _ (read_Triple e C c L v _ _))
        λ found. Triple-lift _ (λ _ _ _ s. s) (λ _ _ _ s. s)

  -- Without a record there is no process.
  pub missing_Triple :
      (v : View) (exec_id : Text)
      → cell key v exec_id ≡ none
      → Triple
          (λ (w : World e H). Sees v w.db)
          (get_process e H c key exec_id)
          (λ _ _. ⊥)
          (λ _ w. Sees v w.db)
  unfolding get_process lift raise
  missing_Triple v exec_id h =
      Triple-bind _ _
        (db_Triple _ (get_Triple e C c L v _ _ none (subst (λ x. Stored c none x) (sym h) tt)))
        λ found. Triple-assume λ q. rw q (Triple-raise _ (λ _ s. s))

  -- A process with a record has this record; looking it up changes nothing.
  pub get_process_Triple :
      (v : View) (exec_id : Text) (p : OciStatus)
      → Stored c (some p) (cell key v exec_id)
      → Triple
          (λ (w : World e H). Sees v w.db)
          (get_process e H c key exec_id)
          (λ r w. (r ≡ p) × Sees v w.db)
          (λ _ w. Sees v w.db)
  unfolding get_process
  get_process_Triple v exec_id p h =
      Triple-bind _ _ (db_Triple _ (get_Triple e C c L v _ _ (some p) h)) λ found.
        Triple-assume
          λ q. Triple-lift _ (λ a r w s. (found_value _ found p a q r, s)) (λ _ _ w s. s)

  -- The record of a process, read with the system left as it was.
  pub framed_process :
      (v : View) (o : H.Os) (exec_id : Text) (p : OciStatus)
      → Stored c (some p) (cell key v exec_id)
      → Triple
          (λ (w : World e H). Sees v w.db × (w.os ≡ o))
          (get_process e H c key exec_id)
          (λ r w. (r ≡ p) × (Sees v w.db × (w.os ≡ o)))
          (λ _ w. Sees v w.db × (w.os ≡ o))
  unfolding get_process
  framed_process v o exec_id p h =
      Triple-bind _ _
        (framed_Triple o _
          (get_Triple e C c L v container_processes (process_id key exec_id) (some p) h))
        λ found.
          Triple-lift _ (λ a r w s. (found_value _ found p a s.0.0 r, (s.0.1, s.1)))
            (λ _ _ w s. (s.0.1, s.1))

  -- The record of a process is removed, or nothing is.
  pub delete_process_Triple :
      (v : View) (exec_id : Text)
      → Triple
          (λ (w : World e H). Sees v w.db)
          (delete_process e H c key exec_id)
          (λ _ w. Sees (update v container_processes (process_id key exec_id) none) w.db)
          (λ _ w. Sees v w.db)
  unfolding delete_process
  delete_process_Triple v exec_id = db_Triple _ (remove_Triple e C v _ _)

  -- An update writes what the closure makes of the record, or fails and changes nothing.
  pub update_process_Triple :
      (v : View) (exec_id : Text) (p : OciStatus) (f : OciStatus → Exec H.Os OciStatus)
      (R : OciStatus → Type 0)
      → Stored c (some p) (cell key v exec_id)
      → Triple (λ _. Unit) (f p) (λ q _. R q) (λ _ _. Unit)
      → Triple
          (λ (w : World e H). Sees v w.db)
          (update_process e H c key exec_id f)
          (λ _ w. (q : OciStatus) × R q × Holds v exec_id q w)
          (λ _ w. Sees v w.db)
  unfolding update_process
  update_process_Triple v exec_id p f R h t =
      Triple-bind _ _ (get_process_Triple v exec_id p h) λ r. Triple-assume λ q. rw q (
        Triple-bind _ _ (valued_Triple (Sees v) R (f p) t) λ new. Triple-assume λ good.
          Triple-bind _ _ (db_Triple _ (swap_Triple e C c L v _ _ (some p) new))
            λ _. Triple-pure tt (λ w written. (new, good, written.1)))

  -- A new process gets a fresh record, and only if it has none.
  pub new_process_Triple :
      (v : View) (exec_id : Text)
      → Triple
          (λ (w : World e H). Sees v w.db)
          (new_process e H c key exec_id)
          (λ _ w. (cell key v exec_id ≡ none) × Holds v exec_id new_status w)
          (λ _ w. Sees v w.db)
  unfolding new_process
  new_process_Triple v exec_id =
      Triple-bind _ _ (db_Triple _ (swap_Triple e C c L v _ _ none new_status))
        λ _. Triple-pure tt (λ w written. written)

  -- The map after a record was written, and what it holds in the record's cell.
  abbrev after : View → Text → Text → View
  after v exec_id bytes = update v container_processes (process_id key exec_id) (some bytes)

  -- A change by a pure closure to a record that was just written.
  pub rewrite_Triple :
      (v : View) (exec_id : Text) (p : OciStatus) (f : OciStatus → OciStatus)
      → Triple
          (Holds v exec_id p)
          (update_process e H c key exec_id (λ r. pure (f r)))
          (λ _. Holds v exec_id (f p))
          (λ _. Holds v exec_id p)
  rewrite_Triple v exec_id p f = record {
    at = λ w h.
        (Triple-weaken
            (update_process_Triple (after v exec_id h.bytes) exec_id p (λ r. pure (f r))
              (λ r. r ≡ f p) (Writes-Stored e C c L v _ _ p h.bytes h.serialized)
              (Triple-pure (f p) (λ _ _. refl)))
            (λ _ sees. sees)
            (λ _ s new.
              Writes-over e C c L v _ _ _ (f p) s.db
                (subst (λ r. Holds (after v exec_id h.bytes) exec_id r s) new.1 new.2))
            (λ _ s sees. record { bytes = h.bytes; serialized = h.serialized; sees = sees })).at
          w h.sees;
  }

  -- An action that shows no new map keeps a record.
  pub keep_Triple :
      {A : Type 0} (v : View) (exec_id : Text) (p : OciStatus) (m : Exec e.Db A)
      → ((u : View) → Triple (Sees u) m (λ _. Sees u) (λ _. Sees u))
      → Triple (Holds v exec_id p) (on_db m) (λ _. Holds v exec_id p) (λ _. Holds v exec_id p)
  keep_Triple v exec_id p m t = record {
    at = λ w h.
        (Triple-weaken (db_Triple m (t (after v exec_id h.bytes))) (λ _ sees. sees)
            (λ _ s sees. record { bytes = h.bytes; serialized = h.serialized; sees = sees })
            (λ _ s sees. record { bytes = h.bytes; serialized = h.serialized; sees = sees })).at
          w h.sees;
  }

  -- A record that was just written is found.
  pub found_Triple :
      (v : View) (exec_id : Text) (p : OciStatus)
      → Triple
          (Holds v exec_id p)
          (get_process e H c key exec_id)
          (λ r w. (r ≡ p) × Holds v exec_id p w)
          (λ _. Holds v exec_id p)
  found_Triple v exec_id p = record {
    at = λ w h.
        (Triple-weaken
            (get_process_Triple (after v exec_id h.bytes) exec_id p
              (Writes-Stored e C c L v _ _ p h.bytes h.serialized))
            (λ _ sees. sees)
            (λ _ s r. (r.0, record { bytes = h.bytes; serialized = h.serialized; sees = r.1 }))
            (λ _ s sees. record { bytes = h.bytes; serialized = h.serialized; sees = sees })).at
          w h.sees;
  }
