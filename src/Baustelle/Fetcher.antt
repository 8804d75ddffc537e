-- ===== src/Baustelle/Fetcher.antt =====
-- baustelle/src/fetcher.rs and storage.rs: an image, its layers and its configuration are fetched
-- into the cache. The downloads run side by side: a schedule says which one goes on next.
pub mod Cache
pub mod Steps
pub mod Runs
pub mod Images
pub mod Ends
use knast.Base.{
  ℕ, zero, suc, Text, codes, text_eq, Option, none, some, List, [], ◌∷◌, ◌++◌, Bool, true, false,
  ◌&&◌, any, find, contains, map, if◌then◌else◌,
}
use knast.Base.Exec.{
  Exec, Error, message, foreign, exhausted, panic, Result, ok, err, pure, raise, lift, ok_or,
  match_result, ◌>>=◌, ◌>>◌,
}
use knast.Base.Both.{Both, on_db, on_net}
use knast.Base.Nom.{Nom}
use knast.Storage
use knast.Storage.{StorageEngine, Codec}
use knast.Registratur.Domain.{Descriptor, Manifest, IndexEntry, Platform, Config}
use knast.Registratur.Http.{Http}
use knast.Registratur.Client

abbrev pub blobs : Text
blobs = codes "blobs"

abbrev pub images : Text
images = codes "images"

pub data LayerDownloadStatus : Type 0 where
  cached : Text → LayerDownloadStatus
  in_progress : Text → ℕ → ℕ → LayerDownloadStatus

unfoldable pub normalize_image_name : Text → Text
normalize_image_name image = (if contains b'/' image then [] else codes "library/") ++ image

unfoldable pub cache_key : Text → Text → Text
unfolding normalize_image_name
cache_key image tag = normalize_image_name image ++ (codes ":" ++ tag)

-- `.context(..)`: the text is what the error shows.
contextual : Text → Error → Error
contextual note panic = panic
contextual note exhausted = exhausted
contextual note _ = message note

pub context : {S A : Type 0} → Text → Exec S A → Exec S A
unfolding contextual
context note m = match_result m (λ a. pure a) (λ x. raise (contextual note x))

-- A future of `try_join`: a layer before its test, a layer that is downloaded, the configuration.
pub data Job : Type 0 where
  layer : Text → ℕ → Job
  pulling : Text → ℕ → Job
  config : Text → Job

abbrev pub job_digest : Job → Text
job_digest (layer digest size) = digest
job_digest (pulling digest size) = digest
job_digest (config digest) = digest

-- The jobs after the one at a place has gone on: it is replaced, or done.
abbrev pub put_back : Option Job → List Job → List Job
put_back none jobs = jobs
put_back (some job) jobs = job ∷ jobs

-- The futures of a manifest.
unfoldable pub jobs_of : Manifest → List Job
jobs_of manifest =
    config manifest.config.digest ∷ map (λ (d : Descriptor). layer d.digest d.size) manifest.layers

-- The platform test of `resolve_manifest_digest`.
unfoldable pub fits : Text → List Text → Option Platform → Bool
fits architecture os none = false
fits architecture os (some p) =
    text_eq architecture p.architecture && any (λ name. text_eq name p.os) os

module _ (e : StorageEngine) (h : Http) (text_codec bytes_codec : Codec Text)
    (manifest_codec : Codec Manifest) (config_codec : Codec Config) (n : Nom)
    (registry_url architecture : Text) (os : List Text)
    (send : LayerDownloadStatus → h.Net → h.Net) where
  abbrev pub State : Type 0
  State = Both e.Db h.Net

  pub resolve_manifest_digest : Text → Text → Exec State Text
  unfolding context fits
  resolve_manifest_digest image_name tag = do
    index ←
        context (codes "Failed to fetch manifest index " ++ image_name)
          (on_net (Client.pull_index h n registry_url image_name tag))
    entry ← lift (
        ok_or (message (codes "Could not find the appropriate manifest for: " ++ architecture))
          (find (λ (m : IndexEntry). fits architecture os m.platform) index.manifests))
    pure entry.descriptor.digest

  pub fetch_manifest : Text → Text → Exec State Manifest
  unfolding context
  fetch_manifest image_name digest =
      context (codes "Failed to fetch manifest " ++ (image_name ++ (codes " " ++ digest))) (do
        item ← on_net (Client.pull_manifest h n registry_url image_name digest)
        on_db (Storage.put e manifest_codec blobs digest item))

  -- `fetch_layer` from the download on, with the progress sent to the subscriber.
  pub download_layer : Text → Text → ℕ → Exec State Text
  unfolding context
  download_layer image_name digest size = context (codes "Failed to fetch layer " ++ digest) (do
    item ← on_net (
        Client.pull_layer h n registry_url image_name digest
          (λ count. send (in_progress digest count size)))
    on_db (Storage.put e bytes_codec blobs digest item))

  pub fetch_config : Text → Text → Exec State Config
  unfolding context
  fetch_config image_name digest = context (codes "Failed to fetch image config " ++ digest) (do
    item ← on_net (Client.pull_config h n registry_url image_name digest)
    on_db (Storage.put e config_codec blobs digest item))

  -- `fetch_layer` up to the download, by the test of the storage.
  tested : Bool → Text → ℕ → Exec State (Option Job)
  tested true digest size = do on_net (λ net. (ok tt, send (cached digest) net)); pure none
  tested false digest size = pure (some (pulling digest size))

  -- What one future does between two of its waits.
  pub step : Text → Job → Exec State (Option Job)
  unfolding tested
  step image_name (layer digest size) = do
    found ← on_db (Storage.exists e blobs digest)
    tested found digest size
  step image_name (pulling digest size) = do download_layer image_name digest size; pure none
  step image_name (config digest) = do fetch_config image_name digest; pure none

  -- The job at a place goes on; behind the end none does.
  pub turn : Text → ℕ → List Job → Exec State (List Job)
  turn image_name i [] = pure []
  turn image_name zero (job ∷ jobs) = do next ← step image_name job; pure (put_back next jobs)
  turn image_name (suc i) (job ∷ jobs) = do rest ← turn image_name i jobs; pure (job ∷ rest)

  -- `try_join` and `try_collect`: all futures until they are done, or the first error.
  pub run : Text → List ℕ → List Job → Exec State (Unit {0})
  run image_name schedule [] = pure tt
  run image_name [] (job ∷ jobs) = raise exhausted
  run image_name (i ∷ schedule) (job ∷ jobs) = do
    rest ← turn image_name i (job ∷ jobs)
    run image_name schedule rest

  -- The end of `fetch`: the image is entered in the index.
  pub enter : Text → Text → Exec State Text
  enter key digest = do
    on_db (Storage.put e text_codec images key digest)
    on_db (Storage.flush e)
    pure digest

  -- `fetch` of an image that is not in the index.
  pub fetch_new : List ℕ → Text → Text → Text → Exec State Text
  unfolding jobs_of
  fetch_new schedule image_name tag key = do
    digest ← resolve_manifest_digest image_name tag
    manifest ← fetch_manifest image_name digest
    run image_name schedule (jobs_of manifest)
    enter key digest

  -- The digest of the index, or that of the download.
  pub answer : List ℕ → Text → Text → Text → Option Text → Exec State Text
  answer schedule image_name tag key none = fetch_new schedule image_name tag key
  answer schedule image_name tag key (some digest) = pure digest

  pub fetch : List ℕ → Text → Text → Exec State Text
  unfolding answer
  fetch schedule image tag = do
    found ← on_db (Storage.get e text_codec images (cache_key image tag))
    answer schedule (normalize_image_name image) tag (cache_key image tag) found
