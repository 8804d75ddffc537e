-- ===== src/Baustelle/Containerfile.antt =====
-- baustelle/src/containerfile.rs and lib.rs: a container file is built into a bundle. The parser of
-- container files, the file system beside libarchive, JSON and uuids are parameters.
pub mod Bundles
pub mod Builds
use knast.Base.{Text, codes, Option, none, some, List, [], ◌∷◌, ◌++◌, ℕ}
use knast.Base.Exec.{Exec, Error, message, Result, ok, err, pure, raise, lift, ok_or, ◌>>=◌, ◌>>◌}
use knast.Base.Both.{Both, on_db, on_net, on_outer}
use knast.Base.Nom.{Nom}
use knast.Base.Nom.Words.{Combinators}
use knast.Base.Paths.{join}
use knast.Storage
use knast.Storage.{StorageEngine, Codec}
use knast.Registratur.Domain.{Manifest, Config}
use knast.Registratur.Http.{Http}
use knast.Baustelle.User.{Files}
use knast.Baustelle.RuntimeConfig.{RuntimeConfig, runtime_config_of}
use knast.Baustelle.Fetcher.{LayerDownloadStatus, fetch, blobs}
use knast.Baustelle.Archive.{Libarchive}
use knast.Baustelle.Unpacker.{unpack}

pub data EvaluationUpdate : Type 0 where
  layer_update : LayerDownloadStatus → EvaluationUpdate

-- An instruction of dockerfile_parser: FROM with its image and tag, or another one.
pub data Instruction : Type 0 where
  from_image : Text → Option Text → Instruction
  other : Text → Instruction

-- What the build calls besides: `Containerfile::from_reader` with the instructions of every stage,
-- `Uuid::new_v4`, std::fs, and `serde_json::to_writer` into the file at a path. What reading
-- /etc/passwd and /etc/group gives depends on the files.
pub record System (FileSystem : Type 0) : Type 0 where
  pub from_reader : Text → Result (List (List Instruction))
  pub client_build : Result (Unit {0})
  pub new_v4 : Exec FileSystem Text
  pub create_dir_all : Text → Exec FileSystem (Unit {0})
  pub create : Text → Exec FileSystem (Unit {0})
  pub to_writer : Text → RuntimeConfig → Exec FileSystem (Unit {0})
  pub etc : FileSystem → Files

-- `image.tag.as_ref().unwrap_or(&default_tag)`
abbrev pub tag_of : Option Text → Text
tag_of none = codes "latest"
tag_of (some tag) = tag

-- The instructions of all stages, `flat_map`.
unfoldable pub flat_stages : List (List Instruction) → List Instruction
flat_stages [] = []
flat_stages (stage ∷ stages) = stage ++ flat_stages stages

no_manifest : Error
no_manifest = message (codes "Fetched manifest was not found. Possible storage corruption")

no_config : Error
no_config = message (codes "Fetched config was not found. Possible storage corruption")

module _ (e : StorageEngine) (h : Http) (l : Libarchive) (sys : System l.Files)
    (text_codec bytes_codec : Codec Text) (manifest_codec : Codec Manifest)
    (config_codec : Codec Config) (n : Nom) (words : Combinators) (registry_url architecture : Text)
    (os : List Text) (callback : EvaluationUpdate → h.Net → h.Net) where
  -- The storage, the network with the caller of the build, and the files.
  abbrev pub State : Type 0
  State = Both (Both e.Db h.Net) l.Files

  -- `RuntimeConfig::try_from((config, destination))`, on the files as they are.
  pub convert : Text → Config → Exec l.Files RuntimeConfig
  convert destination config files =
      (runtime_config_of (sys.etc files) destination words config, files)

  -- The end of `execute_from_instruction`.
  pub write_config : Text → RuntimeConfig → Exec l.Files (Unit {0})
  write_config path runtime_config = do sys.create path; sys.to_writer path runtime_config

  pub execute_from_instruction : Text → List ℕ → Text → Option Text → Exec State (Unit {0})
  unfolding no_manifest no_config
  execute_from_instruction container_folder schedule image tag = do
    digest ← on_db (
        fetch e h text_codec bytes_codec manifest_codec config_codec n registry_url architecture os
          (λ val. callback (layer_update val)) schedule image (tag_of tag))
    found_manifest ← on_db (on_db (Storage.get e manifest_codec blobs digest))
    manifest ← lift (ok_or no_manifest found_manifest)
    found_config ← on_db (on_db (Storage.get e config_codec blobs manifest.config.digest))
    config ← lift (ok_or no_config found_config)
    on_outer (unpack e l manifest_codec bytes_codec (join container_folder (codes "rootfs")) digest)
    runtime_config ← on_net (convert (join container_folder (codes "rootfs")) config)
    on_net (write_config (join container_folder (codes "config.json")) runtime_config)

  -- Other instructions are logged.
  pub execute_instruction : Text → List ℕ → Instruction → Exec State (Unit {0})
  execute_instruction container_folder schedule (from_image image tag) =
      execute_from_instruction container_folder schedule image tag
  execute_instruction container_folder schedule (other instruction) = pure tt

  -- `try_join_all`, one future after another: as the source does it where one of them is a FROM.
  pub execute_all : Text → (Instruction → List ℕ) → List Instruction → Exec State (Unit {0})
  execute_all container_folder schedule [] = pure tt
  execute_all container_folder schedule (instruction ∷ instructions) = do
    execute_instruction container_folder (schedule instruction) instruction
    execute_all container_folder schedule instructions

  pub interpret : Text → (Instruction → List ℕ) → Text → Exec State Text
  unfolding flat_stages
  interpret container_folder schedule file = do
    containerfile ← lift (sys.from_reader file)
    execute_all container_folder schedule (flat_stages containerfile)
    pure container_folder

  -- `Builder::new` of containerfile.rs: the folder of the container.
  pub new : Text → Exec State Text
  new folder = do
    lift sys.client_build
    container_uuid ← on_net sys.new_v4
    on_net (sys.create_dir_all (join (join folder (codes "containers")) container_uuid))
    pure (join (join folder (codes "containers")) container_uuid)

  -- `Builder::build` of lib.rs.
  pub build : Text → (Instruction → List ℕ) → Text → Exec State Text
  build folder schedule containerfile = do
    container_folder ← new folder
    interpret container_folder schedule containerfile
