-- ===== src/Libknast/Operations/Closures.antt =====
-- libknast/src/operations.rs, `do_exec`: what a closure that is applied to the command may write.
use knast.Base.{Text, text_eq_iff, Option, some, Bool, false, ◌≡◌, ◌∙◌, sym, subst, arith, fun_ext}
use knast.Base.Exec.{Exec, Triple, Triple-weaken}
use knast.Storage.{StorageEngine, Codec}
use knast.Storage.Contract.{View, update, update_self, update-update, Contract}
use knast.Storage.Typed.{CodecLaws}
use knast.Host.{Host, Command}
use knast.Libknast.World.{World}
use knast.Libknast.Processes.{OciStatus, container_processes, process_id}
use knast.Libknast.Processes.Updates.{Holds}

-- Two maps that differ at most in some tables.
abbrev pub Outside : (Text → Bool) → View → View → Type 0
Outside tables v u = (t k : Text) → tables t ≡ false → u t k ≡ v t k

update-same : (v : View) (t k : Text) (x : Option Text) → v t k ≡ x → update v t k x ≡ v
unfolding update
update-same v t k x h =
    fun_ext (λ t'. fun_ext (λ k'. ground (arith, text_eq_iff t t', text_eq_iff k k')))

-- The cell of a map as it is in another one.
restore_Outside :
    (tables : Text → Bool) (v u : View) (t k : Text) (x : Option Text)
    → Outside tables (update v t k x) u
    → Outside tables v (update u t k (v t k))
unfolding update
restore_Outside tables v u t k x o t' k' h =
    ground (arith, o t' k' h, text_eq_iff t t', text_eq_iff k k')

module _ (e : StorageEngine) (C : Contract e) (H : Host) (c : Codec OciStatus) (L : CodecLaws c)
    (key : Text) (tables : Text → Bool) where
  open C use {Sees}

  -- What is done to the command of a process writes at most to some tables.
  abbrev pub Writes : (Command → Exec (World e H) Command) → Type 0
  Writes f =
      (v : View) (command : Command)
      → Triple (λ w. Sees v w.db) (f command) (λ _ w. (u : View) × Outside tables v u × Sees u w.db)
          (λ _ w. (u : View) × Outside tables v u × Sees u w.db)

  -- A record, where some tables may have changed.
  abbrev pub Stays : View → Text → OciStatus → World e H → Type 0
  Stays v exec_id p w = (u : View) × Outside tables v u × Holds e C H c L key u exec_id p w

  rebased :
      (v u : View) (exec_id : Text) (p : OciStatus) (w s : World e H)
      → tables container_processes ≡ false
      → (h : Holds e C H c L key v exec_id p w)
      → Outside tables (update v container_processes (process_id key exec_id) (some h.bytes)) u
      → Sees u s.db
      → Stays v exec_id p s
  rebased v u exec_id p w s keeps h o sees =
      let k = process_id key exec_id in
      let same : update (update u container_processes k (v container_processes k))
            container_processes k (some h.bytes)
          ≡ u =
        update-update u container_processes k _ _
        ∙ update-same u container_processes k (some h.bytes)
            (o container_processes k keeps ∙ update_self v container_processes k (some h.bytes)) in
      (
        _,
        restore_Outside tables v u container_processes k (some h.bytes) o,
        record {
          bytes = h.bytes;
          serialized = h.serialized;
          sees = subst (λ m. Sees m s.db) (sym same) sees;
        },
      )

  -- The closure keeps the record of the process.
  pub closure_Triple :
      (v : View) (exec_id : Text) (p : OciStatus) (f : Command → Exec (World e H) Command)
      (command : Command)
      → tables container_processes ≡ false
      → Writes f
      → Triple
          (Holds e C H c L key v exec_id p)
          (f command)
          (λ _. Stays v exec_id p)
          (λ _. Stays v exec_id p)
  closure_Triple v exec_id p f command keeps writes = record {
    at = λ w h.
        (Triple-weaken (writes _ command) (λ _ sees. sees)
            (λ _ s (u, o, sees). rebased v u exec_id p w s keeps h o sees)
            (λ _ s (u, o, sees). rebased v u exec_id p w s keeps h o sees)).at
          w h.sees;
  }
