-- ===== src/Baustelle/Unpacker/Leaves.antt =====
-- baustelle/src/unpacker.rs: unpacking does not write to the storage.
use knast.Base.{Text, List, [], ◌∷◌}
use knast.Base.Exec.{
  Exec, Triple, Triple-bind, Triple-pure, Triple-weaken, Triple-bind-lift, Triple-true,
}
use knast.Base.Both.{Both, on_net, db_Triple, net_Triple}
use knast.Storage.{StorageEngine, Codec}
use knast.Storage.Contract.{View, Contract}
use knast.Storage.Typed.{get_any}
use knast.Registratur.Domain.{Manifest, Descriptor}
use knast.Baustelle.Fetcher.{blobs}
use knast.Baustelle.Archive.{Libarchive}
use knast.Baustelle.Unpacker.{unpack, unpack_layers, unpack_layer}

module _ (e : StorageEngine) (C : Contract e) (l : Libarchive) (manifest_codec : Codec Manifest)
    (bytes_codec : Codec Text) (destination : Text) (v : View) where
  open C use {Sees}

  layer_leaves :
      (digest : Text)
      → Triple
          (λ (u : Both e.Db l.Files). Sees v u.db)
          (unpack_layer e l manifest_codec bytes_codec destination digest)
          (λ _ u. Sees v u.db)
          (λ _ u. Sees v u.db)
  unfolding unpack_layer
  layer_leaves digest =
      Triple-bind _ _
        (Triple-weaken (db_Triple _ (get_any e C bytes_codec v blobs digest)) (λ _ p. p)
          (λ _ _ p. p.1) (λ _ _ p. p))
        λ found.
          Triple-bind-lift _ _ (λ layer _. Triple-bind _ _ (leaves _) λ _. leaves _) (λ _ _ _ p. p)
    where
      leaves :
          (m : Exec l.Files (Unit {0}))
          → Triple
              (λ (u : Both e.Db l.Files). Sees v u.db)
              (on_net m)
              (λ _ u. Sees v u.db)
              (λ _ u. Sees v u.db)
      leaves m =
          Triple-weaken (net_Triple (Sees v) (λ _. Unit) m (Triple-true m)) (λ _ p. p)
            (λ _ _ p. p.1) (λ _ _ p. p)

  layers_leave :
      (ds : List Descriptor)
      → Triple
          (λ (u : Both e.Db l.Files). Sees v u.db)
          (unpack_layers e l manifest_codec bytes_codec destination ds)
          (λ _ u. Sees v u.db)
          (λ _ u. Sees v u.db)
  unfolding unpack_layers
  layers_leave [] = Triple-pure tt (λ _ p. p)
  layers_leave (d ∷ ds) = Triple-bind _ _ (layer_leaves d.digest) λ _. layers_leave ds

  -- Unpacking does not write to the storage.
  pub unpack_leaves :
      (digest : Text)
      → Triple
          (λ (u : Both e.Db l.Files). Sees v u.db)
          (unpack e l manifest_codec bytes_codec destination digest)
          (λ _ u. Sees v u.db)
          (λ _ u. Sees v u.db)
  unfolding unpack
  unpack_leaves digest =
      Triple-bind _ _
        (Triple-weaken (db_Triple _ (get_any e C manifest_codec v blobs digest)) (λ _ p. p)
          (λ _ _ p. p.1) (λ _ _ p. p))
        λ found. Triple-bind-lift _ _ (λ manifest _. layers_leave manifest.layers) (λ _ _ _ p. p)
