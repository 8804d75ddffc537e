-- ===== src/Registratur/Client.antt =====
-- registratur/src/v2/client.rs, reqwest_ext.rs and the pulls of v2/domain/*.rs.
pub mod Digest
pub mod Ends
use knast.Base.{
  ℕ, zero, suc, Text, codes, text_eq, Option, none, some, List, [], ◌∷◌, ◌++◌, Bool, true, false,
  ◌&&◌, ◌||◌, not, ltb, leb, ◌==◌, length, drop, if◌then◌else◌,
}
use knast.Base.Exec.{
  Exec, Error, message, panic, Result, ok, err, pure, raise, lift, ok_or, ◌>>=◌, ◌>>◌,
}
use knast.Base.Nom.{Nom}
use knast.Registratur.Domain.{Manifest, ManifestIndex, Config}
use knast.Registratur.Http.{Http, Method, method_get, method_head, Request, Response}
use knast.Registratur.WwwAuthenticate.{WwwAuthenticate}
use knast.Registratur.WwwAuthenticate

-- What the `Accept` header of each pull asks for.
abbrev pub layer_media_type : Text
layer_media_type = codes "application/vnd.oci.image.layer.v1.tar+gzip"

abbrev pub manifest_media_type : Text
manifest_media_type = codes "application/vnd.docker.distribution.manifest.v2+json"

abbrev pub index_media_type : Text
index_media_type = codes "application/vnd.docker.distribution.manifest.list.v2+json"

abbrev pub config_media_type : Text
config_media_type = codes "application/vnd.oci.image.config.v1+json"

hash_mismatch : Error
hash_mismatch = message (codes "Content hash mismatch.")

abbrev pub new_request : Method → Text → Request
new_request method url = record {
  method = method;
  url = url;
  headers = [];
  query = [];
  bearer_auth = none;
}

-- `request.header(header::ACCEPT, MEDIA_TYPE)`
abbrev pub accept : Text → Request → Request
accept media_type r = record r { headers = (codes "accept", media_type) ∷ r.headers }

-- A byte that may start a slice of a text: none that continues a character.
starts_character : Text → Bool
starts_character [] = true
starts_character (c ∷ s) = ltb c 128 || leb 192 c

-- `&digest[7..]`, which panics behind the end and inside of a character.
pub from_seven : Text → Result Text
unfolding starts_character
from_seven digest =
    if leb 7 (length digest) && starts_character (drop 7 digest)
    then ok (drop 7 digest)
    else err panic

-- `bytes_stream().try_fold(..)`: the chunks in order, each reported with the length so far.
pub fold_body : {N : Type 0} → (ℕ → N → N) → Text → List (Result Text) → Exec N Text
fold_body f agg [] = pure agg
fold_body f agg (err x ∷ chunks) = raise x
fold_body f agg (ok bytes ∷ chunks) =
    let rest = fold_body f (agg ++ bytes) chunks in λ net. rest (f (length (agg ++ bytes)) net)

-- The bytes of a whole body.
whole : Text → List (Result Text) → Result Text
whole agg [] = ok agg
whole agg (err x ∷ chunks) = err x
whole agg (ok bytes ∷ chunks) = whole (agg ++ bytes) chunks

-- `progress_callback: None`
abbrev pub silent : {N : Type 0} → ℕ → N → N
silent length net = net

module _ (h : Http) where
  open h use {Net}

  -- The last step of `read`: the digest from its eighth byte on is the hash of the content.
  pub checked : Text → Text → Result Text → Result Text
  unfolding hash_mismatch
  checked result digest (err x) = err x
  checked result digest (ok expected) =
      if not (text_eq expected (h.hex (h.sha256 result))) then err hash_mismatch else ok result

  pub read : Response → (ℕ → Net → Net) → Text → Exec Net Text
  unfolding fold_body checked from_seven
  read response f digest = do
    result ← fold_body f [] response.body
    lift (checked result digest (from_seven digest))

  -- `response.json()`
  json : {A : Type 0} → (Text → Result A) → Response → Result A
  unfolding whole
  json of response = elim (whole [] response.body) [ ok bytes ↦ of bytes | err x ↦ err x ]

  module _ (n : Nom) (registry_url : Text) where
    -- `.send().await?.json::<TokenResponse>().await?.access_token`
    request_token : WwwAuthenticate → Exec Net Text
    unfolding json
    request_token challenge = do
      response ← h.send (record (new_request method_get challenge.realm) {
        query = (codes "scope", challenge.scope) ∷ (codes "service", challenge.service) ∷ [];
      })
      lift (json h.token_of response)

    pub authenticate : Text → Exec Net Text
    unfolding request_token
    authenticate url = do
      challenge_response ← h.send (new_request method_head url)
      header ← lift (ok_or panic (challenge_response.header (codes "www-authenticate")))
      text ← lift (h.to_str header)
      challenge ← lift (WwwAuthenticate.parse n text)
      request_token challenge

    pub request : Method → Text → (Request → Request) → Exec Net Response
    unfolding authenticate
    request method path f = do
      base ← lift (h.parse_url registry_url)
      url ← lift (h.join_url base path)
      let builder = f (new_request method url)
      token ← authenticate url
      h.send (record builder { bearer_auth = some token })

    blob_path : Text → Text → Text
    blob_path name digest = codes "/v2/" ++ (name ++ (codes "/blobs/" ++ digest))

    manifest_path : Text → Text → Text
    manifest_path name reference = codes "/v2/" ++ (name ++ (codes "/manifests/" ++ reference))

    -- Layer::pull
    pub pull_layer : Text → Text → (ℕ → Net → Net) → Exec Net Text
    unfolding request read blob_path
    pull_layer name digest progress_callback = do
      response ← request method_get (blob_path name digest) (accept layer_media_type)
      read response progress_callback digest

    -- Manifest::pull
    pub pull_manifest : Text → Text → Exec Net Manifest
    unfolding request read manifest_path
    pull_manifest name digest = do
      response ← request method_get (manifest_path name digest) (accept manifest_media_type)
      result ← read response silent digest
      lift (h.manifest_of result)

    -- Config::pull
    pub pull_config : Text → Text → Exec Net Config
    unfolding request read blob_path
    pull_config name digest = do
      response ← request method_get (blob_path name digest) (accept config_media_type)
      result ← read response silent digest
      lift (h.config_of result)

    -- ManifestIndex::pull, which checks no digest.
    pub pull_index : Text → Text → Exec Net ManifestIndex
    unfolding request json manifest_path
    pull_index name tag = do
      response ← request method_get (manifest_path name tag) (accept index_media_type)
      lift (json h.index_of response)
