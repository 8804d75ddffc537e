-- ===== src/ContainerdShim/Extensions/Streams.antt =====
-- containerd-shim/src/oci_extensions.rs: the streams of a process, over any engine that keeps the
-- contract.
use knast.Base.{Text, some, ◌≡◌}
use knast.Base.Exec.{Triple, Triple-bind, Triple-lift, Triple-assume}
use knast.Base.Heap.{Heap}
use knast.Storage.{StorageEngine, Codec}
use knast.Storage.Contract.{View, Contract}
use knast.Storage.Typed.{CodecLaws, Stored, get_Triple}
use knast.Baustelle.RuntimeConfig.{RuntimeConfig}
use knast.Host.{Host}
use knast.Libknast.World.{World, db_Triple}
use knast.Libknast.AddressPool.{ContainerAddressStorage}
use knast.Libknast.Processes.{OciStatus}
use knast.Libknast.Processes.Updates.{found_value}
use knast.ContainerdShim.Host.{Shim}
use knast.ContainerdShim.Extensions.{StdioTriple, Pty, stdio_triple, container_stdio, stdio_key}

module _ (e : StorageEngine) (C : Contract e) (H : Host) (S : Shim H)
    (config_codec : Codec RuntimeConfig) (c : Codec OciStatus) (heap_codec : Codec Heap)
    (cache_codec : Codec ContainerAddressStorage) (stdio_codec : Codec StdioTriple)
    (T : CodecLaws stdio_codec) (pty_codec : Codec Pty) where
  open C use {Sees}

  -- The streams that were saved are found; looking them up changes nothing.
  pub triple_Triple :
      (v : View) (id exec_id : Text) (t : StdioTriple)
      → Stored stdio_codec (some t) (v container_stdio (stdio_key id exec_id))
      → Triple
          (λ (w : World e H). Sees v w.db)
          (stdio_triple e H S config_codec c heap_codec cache_codec stdio_codec pty_codec id
            exec_id)
          (λ r w. (r ≡ t) × Sees v w.db)
          (λ _ w. Sees v w.db)
  unfolding stdio_triple
  triple_Triple v id exec_id t h =
      Triple-bind _ _ (db_Triple _ (get_Triple e C stdio_codec T v _ _ (some t) h)) λ found.
        Triple-assume
          λ q. Triple-lift _ (λ a r w s. (found_value _ found t a q r, s)) (λ _ _ w s. s)
