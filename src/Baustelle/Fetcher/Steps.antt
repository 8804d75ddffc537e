-- ===== src/Baustelle/Fetcher/Steps.antt =====
-- baustelle/src/fetcher.rs: what the steps of fetching do to the cache, over any engine that keeps
-- the contract.
use knast.Base.{Text, ℕ, Option, none, some, Bool, true, false, ◌≡◌, refl, List, subst, sym}
use knast.Base.Exec.{
  Exec, Error, ok, Triple, Triple-bind, Triple-pure, Triple-raise, Triple-weaken, Triple-assume,
  Triple-match, Triple-true,
}
use knast.Base.Both.{Both, on_db, db_Triple, net_Triple}
use knast.Base.Nom.{Nom}
use knast.Storage
use knast.Storage.{StorageEngine, Codec}
use knast.Storage.Contract.{View, update, is_some, Contract}
use knast.Storage.Typed.{CodecLaws, put_Triple, exists_Triple}
use knast.Registratur.Domain.{Manifest, Config}
use knast.Registratur.Http.{Http}
use knast.Registratur.Client.Digest.{
  Matches, Says, pull_layer_Triple, pull_manifest_Triple, pull_config_Triple,
}
use knast.Baustelle.Fetcher.{
  blobs, LayerDownloadStatus, Job, layer, pulling, config, job_digest, context, tested, step,
  fetch_manifest, download_layer, fetch_config,
}
use knast.Baustelle.Fetcher.Cache.{
  Present, Vouched, layer_blob, manifest_blob, config_blob, Extends, Extends-refl, Extends-trans,
  put-Present, put-Extends,
}

-- A job that is done has filled its cell, and one that goes on is about the same cell.
abbrev pub Next : Job → Option Job → View → Type 0
Next job none v = Present v (job_digest job)
Next job (some j) v = job_digest j ≡ job_digest job

pub context_Triple :
    {S A : Type 0} {P E : S → Type 0} {Q : A → S → Type 0} (note : Text) (m : Exec S A)
    → Triple P m Q (λ _. E)
    → Triple P (context note m) Q (λ _. E)
unfolding context
context_Triple note m t =
    Triple-match m _ _ t (λ a. Triple-pure a (λ _ q. q)) (λ x. Triple-raise _ (λ _ q. q))

module _ (e : StorageEngine) (C : Contract e) (h : Http) (text_codec bytes_codec : Codec Text)
    (B : CodecLaws bytes_codec) (manifest_codec : Codec Manifest) (M : CodecLaws manifest_codec)
    (config_codec : Codec Config) (K : CodecLaws config_codec) (n : Nom)
    (registry_url architecture : Text) (os : List Text)
    (send : LayerDownloadStatus → h.Net → h.Net) where
  open C use {Sees}

  abbrev Grown : View → View → Type 0
  Grown = Extends h text_codec bytes_codec manifest_codec config_codec

  -- The database shows an extension of the map, of which something holds.
  abbrev pub After : View → (View → Type 0) → Both e.Db h.Net → Type 0
  After u J w = (v : View) × Sees v w.db × Grown u v × J v

  -- What holds after every extension of which `J` holds, holds after one.
  pub After-elim :
      {A : Type 0} {J : View → Type 0} {Q : A → Both e.Db h.Net → Type 0}
      {E : Error → Both e.Db h.Net → Type 0} (u : View) (m : Exec (Both e.Db h.Net) A)
      → ((v : View) → Grown u v → J v → Triple (λ w. Sees v w.db) m Q E)
      → Triple (After u J) m Q E
  After-elim u m t = record { at = λ w p. (t p.0 p.2 p.3).at w p.1 }

  pub After-trans :
      {J K : View → Type 0} (u v : View) (w : Both e.Db h.Net)
      → Grown u v
      → ((x : View) → Grown v x → J x → K x)
      → After v J w
      → After u K w
  After-trans u v w g f (x, sees, more, j) = (
    x,
    sees,
    Extends-trans h text_codec bytes_codec manifest_codec config_codec g more,
    f x more j,
  )

  -- The same map.
  pub After-refl :
      {J : View → Type 0} (u : View) (w : Both e.Db h.Net) → J u → Sees u w.db → After u J w
  After-refl u w j sees =
      (u, sees, Extends-refl h text_codec bytes_codec manifest_codec config_codec u, j)

  -- A blob that is vouched for is written, or nothing is.
  put_blob_Triple :
      {A : Type 0} (c : Codec A) (L : CodecLaws c) (v : View) (k : Text) (a : A)
      → ((x : Text)
          → c.serialize a ≡ ok x
          → Vouched h text_codec bytes_codec manifest_codec config_codec k x)
      → Triple
          (λ w. Sees v w.db)
          (on_db (Storage.put e c blobs k a))
          (λ r w. (r ≡ a) × After v (λ u. Present u k) w)
          (λ _ w. Sees v w.db)
  put_blob_Triple c L v k a new =
      Triple-weaken (db_Triple _ (put_Triple e C c L v blobs k a)) (λ _ p. p)
        (λ r w q. (
          q.0,
          (
            update v blobs k (some q.1.bytes),
            q.1.sees,
            put-Extends h text_codec bytes_codec manifest_codec config_codec v k q.1.bytes
                (new q.1.bytes q.1.serialized),
            put-Present h text_codec bytes_codec manifest_codec config_codec v k q.1.bytes,
          ),
        ))
        (λ _ _ p. p)

  download_layer_Triple :
      (v : View) (image_name digest : Text) (size : ℕ)
      → Triple
          (λ w. Sees v w.db)
          (download_layer e h text_codec bytes_codec manifest_codec config_codec n registry_url
            architecture os send image_name digest size)
          (λ _. After v (λ u. Present u digest))
          (λ _ w. Sees v w.db)
  unfolding download_layer
  download_layer_Triple v image_name digest size = context_Triple _ _ (
      Triple-bind _ _
        (net_Triple (Sees v) (Matches h digest) _
          (pull_layer_Triple h n registry_url image_name digest _))
        λ content. Triple-assume λ matches.
          Triple-weaken
            (put_blob_Triple bytes_codec B v digest content (λ x s. layer_blob content matches s))
            (λ _ p. p) (λ _ _ q. q.1) (λ _ _ p. p))

  pub fetch_config_Triple :
      (v : View) (image_name digest : Text)
      → Triple
          (λ w. Sees v w.db)
          (fetch_config e h text_codec bytes_codec manifest_codec config_codec n registry_url
            architecture os send image_name digest)
          (λ _. After v (λ u. Present u digest))
          (λ _ w. Sees v w.db)
  unfolding fetch_config
  fetch_config_Triple v image_name digest = context_Triple _ _ (
      Triple-bind _ _
        (net_Triple (Sees v) (Says h h.config_of digest) _
          (pull_config_Triple h n registry_url image_name digest))
        λ item. Triple-assume λ says.
          Triple-weaken
            (put_blob_Triple config_codec K v digest item (λ x s. config_blob item says s))
            (λ _ p. p) (λ _ _ q. q.1) (λ _ _ p. p))

  pub fetch_manifest_Triple :
      (v : View) (image_name digest : Text)
      → Triple
          (λ w. Sees v w.db)
          (fetch_manifest e h text_codec bytes_codec manifest_codec config_codec n registry_url
            architecture os send image_name digest)
          (λ m w. Says h h.manifest_of digest m × After v (λ u. Present u digest) w)
          (λ _ w. Sees v w.db)
  unfolding fetch_manifest
  fetch_manifest_Triple v image_name digest = context_Triple _ _ (
      Triple-bind _ _
        (net_Triple (Sees v) (Says h h.manifest_of digest) _
          (pull_manifest_Triple h n registry_url image_name digest))
        λ item. Triple-assume λ says.
          Triple-weaken
            (put_blob_Triple manifest_codec M v digest item (λ x s. manifest_blob item says s))
            (λ _ p. p) (λ r w q. (subst (λ m. Says h h.manifest_of digest m) (sym q.0) says, q.1))
            (λ _ _ p. p))

  tested_Triple :
      (v : View) (digest : Text) (size : ℕ) (found : Bool)
      → found ≡ is_some (v blobs digest)
      → Triple
          (λ w. Sees v w.db)
          (tested e h text_codec bytes_codec manifest_codec config_codec n registry_url architecture
            os send found digest size)
          (λ o. After v (Next (layer digest size) o))
          (λ _ w. Sees v w.db)
  unfolding tested
  tested_Triple v digest size true p =
      Triple-bind _ _ (net_Triple (Sees v) (λ _. Unit) _ (Triple-true _))
        λ _. Triple-pure none (λ w s. After-refl v w (sym p) s.1)
  tested_Triple v digest size false p = Triple-pure _ (λ w s. After-refl v w refl s)

  pub step_Triple :
      (v : View) (image_name : Text) (job : Job)
      → Triple
          (λ w. Sees v w.db)
          (step e h text_codec bytes_codec manifest_codec config_codec n registry_url architecture
            os send image_name job)
          (λ o. After v (Next job o))
          (λ _ w. Sees v w.db)
  unfolding step
  step_Triple v image_name (layer digest size) =
      Triple-bind _ _ (db_Triple _ (exists_Triple e C v blobs digest))
        λ found. Triple-assume λ q. tested_Triple v digest size found q
  step_Triple v image_name (pulling digest size) =
      Triple-bind _ _ (download_layer_Triple v image_name digest size)
        λ _. Triple-pure none (λ _ s. s)
  step_Triple v image_name (config digest) =
      Triple-bind _ _ (fetch_config_Triple v image_name digest) λ _. Triple-pure none (λ _ s. s)
