-- ===== src/Baustelle/Fetcher/Images.antt =====
-- baustelle/src/fetcher.rs, `fetch`: whatever the schedule, the cache stays a cache, and an image
-- whose digest is returned is complete in it.
use knast.Base.{
  Text, ℕ, Option, none, some, ◌≡◌, refl, List, [], ◌∷◌, inl, inr, All, map, subst, sym,
  Option-cases,
}
use knast.Base.Exec.{
  ok, pure, ◌>>=◌, Triple, Triple-bind, Triple-pure, Triple-lift, Triple-weaken, Triple-assume,
  Triple-true,
}
use knast.Base.Both.{Both, on_db, db_Triple, net_Triple, framed_Triple}
use knast.Base.Nom.{Nom}
use knast.Storage
use knast.Storage.{StorageEngine, Codec}
use knast.Storage.Contract.{View, update, Contract, update_self}
use knast.Storage.Typed.{CodecLaws, put_Triple, Stored, get_Triple, flush_Triple}
use knast.Registratur.Domain.{Manifest, Config, Descriptor}
use knast.Registratur.Http.{Http}
use knast.Baustelle.Fetcher.{
  images, LayerDownloadStatus, layer, jobs_of, resolve_manifest_digest, enter, fetch_new, answer,
  fetch, cache_key, normalize_image_name,
}
use knast.Baustelle.Fetcher.Cache.{
  Present, Complete, IsCache, Complete-mono, Extends-IsCache, entered_stays, entered-IsCache,
}
use knast.Baustelle.Fetcher.Steps.{fetch_manifest_Triple, context_Triple}
use knast.Baustelle.Fetcher.Runs.{Pending, after, run_Triple}

layers_filled :
    (v : View) (ds : List Descriptor)
    → ((k : Text) → Pending (map (λ (d : Descriptor). layer d.digest d.size) ds) k → Present v k)
    → All (λ (d : Descriptor). Present v d.digest) ds
layers_filled v [] f = tt
layers_filled v (d ∷ ds) f = (f d.digest (inl refl), layers_filled v ds (λ k p. f k (inr p)))

module _ (e : StorageEngine) (C : Contract e) (h : Http) (text_codec : Codec Text)
    (T : CodecLaws text_codec) (bytes_codec : Codec Text) (B : CodecLaws bytes_codec)
    (manifest_codec : Codec Manifest) (M : CodecLaws manifest_codec) (config_codec : Codec Config)
    (K : CodecLaws config_codec) (n : Nom) (registry_url architecture : Text) (os : List Text)
    (send : LayerDownloadStatus → h.Net → h.Net) where
  open C use {Sees}

  abbrev Cache : View → Type 0
  Cache = IsCache h text_codec bytes_codec manifest_codec config_codec

  abbrev Whole : View → Text → Type 0
  Whole = Complete h text_codec bytes_codec manifest_codec config_codec

  -- The database shows a cache.
  abbrev pub Kept : Both e.Db h.Net → Type 0
  Kept w = (v : View) × Sees v w.db × Cache v

  -- It shows a cache with the image, complete, and its digest in the index.
  abbrev pub Fetched : Text → Text → Both e.Db h.Net → Type 0
  Fetched key digest w =
      (v : View) × (x : Text) × Sees v w.db
      × Cache v
      × (v images key ≡ some x)
      × (text_codec.serialize digest ≡ ok x)
      × Whole v digest

  resolve_Triple :
      (v : View) (image_name tag : Text)
      → Triple
          (λ w. Sees v w.db)
          (resolve_manifest_digest e h text_codec bytes_codec manifest_codec config_codec n
            registry_url architecture os send image_name tag)
          (λ _ w. Sees v w.db)
          (λ _ w. Sees v w.db)
  unfolding resolve_manifest_digest
  resolve_Triple v image_name tag =
      Triple-bind _ _
        (context_Triple _ _ (
          Triple-weaken (net_Triple (Sees v) (λ _. Unit) _ (Triple-true _)) (λ _ p. p)
            (λ _ _ q. q.1) (λ _ _ p. p)))
        λ index.
          Triple-bind _ _ (Triple-lift _ (λ _ _ _ s. s) (λ _ _ _ s. s))
            λ entry. Triple-pure _ (λ _ s. s)

  -- The digest of a complete image is entered in the index.
  enter_Triple :
      (v : View) (key digest : Text)
      → Cache v
      → Whole v digest
      → Triple
          (λ (w : Both e.Db h.Net). Sees v w.db)
          (enter e h text_codec bytes_codec manifest_codec config_codec n registry_url architecture
            os send key digest)
          (λ d. Fetched key d)
          (λ _. Kept)
  unfolding enter
  enter_Triple v key digest c whole =
      Triple-bind _ _
        (Triple-weaken (db_Triple _ (put_Triple e C text_codec T v images key digest)) (λ _ p. p)
          (λ _ _ q. q.1) (λ _ _ p. (v, p, c)))
        λ _. record { at = λ w q. (flushed q.bytes q.serialized).at w q.sees }
    where
      flushed :
          (bytes : Text) (s : text_codec.serialize digest ≡ ok bytes)
          → Triple
              (λ (w : Both e.Db h.Net). Sees (update v images key (some bytes)) w.db)
              (on_db (Storage.flush e) >>= λ _. pure digest)
              (λ d. Fetched key d)
              (λ _. Kept)
      flushed bytes s =
          let good : Cache (update v images key (some bytes)) =
            entered-IsCache h text_codec bytes_codec manifest_codec config_codec v key digest bytes
              s whole c in
          Triple-bind _ _
            (Triple-weaken (db_Triple _ (flush_Triple e C (update v images key (some bytes))))
              (λ _ p. p) (λ _ _ p. p) (λ _ _ p. (update v images key (some bytes), p, good)))
            λ _. Triple-pure digest (λ w p. (
              update v images key (some bytes),
              bytes,
              p,
              good,
              update_self v images key (some bytes),
              s,
              Complete-mono h text_codec bytes_codec manifest_codec config_codec v _ digest
                  (entered_stays h text_codec bytes_codec manifest_codec config_codec v key digest
                    bytes s)
                  whole,
            ))

  fetch_new_Triple :
      (v : View) (schedule : List ℕ) (image_name tag key : Text)
      → Cache v
      → Triple
          (λ w. Sees v w.db)
          (fetch_new e h text_codec bytes_codec manifest_codec config_codec n registry_url
            architecture os send schedule image_name tag key)
          (λ d. Fetched key d)
          (λ _. Kept)
  unfolding fetch_new jobs_of
  fetch_new_Triple v schedule image_name tag key c =
      Triple-bind _ _
        (Triple-weaken (resolve_Triple v image_name tag) (λ _ p. p) (λ _ _ p. p)
          (λ _ _ p. (v, p, c)))
        λ digest.
          Triple-bind _ _
            (Triple-weaken
              (fetch_manifest_Triple e C h text_codec bytes_codec B manifest_codec M config_codec K
                n registry_url architecture os send v image_name digest)
              (λ _ p. p) (λ _ _ p. p) (λ _ _ p. (v, p, c)))
            λ manifest. Triple-assume λ says.
              after e C h text_codec T bytes_codec B manifest_codec M config_codec K n registry_url
                architecture os send v _
                λ x g there.
                  let good : Cache x =
                    Extends-IsCache h text_codec bytes_codec manifest_codec config_codec v x g c in
                  Triple-bind _ _
                    (Triple-weaken
                      (run_Triple e C h text_codec T bytes_codec B manifest_codec M config_codec K n
                        registry_url architecture os send x image_name schedule (jobs_of manifest))
                      (λ _ p. p) (λ _ _ p. p)
                      (λ _ w p. (
                        p.0,
                        p.1,
                        Extends-IsCache h text_codec bytes_codec manifest_codec config_codec x p.0
                            p.2 good,
                      )))
                    λ _.
                      after e C h text_codec T bytes_codec B manifest_codec M config_codec K n
                        registry_url architecture os send x _
                        λ y more filled.
                          enter_Triple y key digest
                            (Extends-IsCache h text_codec bytes_codec manifest_codec config_codec x
                              y more good)
                            (record {
                              manifest = manifest;
                              says = says;
                              present = more.stays digest there;
                              config_present = filled _ (inl refl);
                              layers_present =
                                  layers_filled y manifest.layers (λ k p. filled k (inr p));
                            })

  -- The digest of the index, whatever the image.
  cached_Triple :
      (v : View) (schedule : List ℕ) (image_name tag key digest bytes : Text)
      → Cache v
      → v images key ≡ some bytes
      → text_codec.serialize digest ≡ ok bytes
      → Whole v digest
      → Triple
          (λ w. Sees v w.db)
          (answer e h text_codec bytes_codec manifest_codec config_codec n registry_url architecture
            os send schedule image_name tag key
            (some digest))
          (λ d. Fetched key d)
          (λ _. Kept)
  unfolding answer
  cached_Triple v schedule image_name tag key digest bytes c p s whole =
      Triple-pure digest (λ w sees. (v, bytes, sees, c, p, s, whole))

  Stored-some :
      (o : Option Text) (x digest : Text)
      → o ≡ some x
      → text_codec.serialize digest ≡ ok x
      → Stored text_codec (some digest) o
  Stored-some o x digest p s = subst (λ y. Stored text_codec (some digest) y) (sym p) s

  Stored-none : (o : Option Text) → o ≡ none → Stored text_codec none o
  Stored-none o p = subst (λ y. Stored text_codec none y) (sym p) tt

  -- From a cache, whatever the schedule of the downloads: if fetch succeeds, the digest that it
  -- returns is entered in the index for the image, and the manifest of this digest, its
  -- configuration and all its layers are filled cells. Whether it succeeds or fails, the
  -- database shows a cache: every blob is what a content with the hash of its key says, and
  -- every image of the index is complete.
  pub fetch_Triple :
      (v : View) (schedule : List ℕ) (image tag : Text)
      → Cache v
      → Triple
          (λ w. Sees v w.db)
          (fetch e h text_codec bytes_codec manifest_codec config_codec n registry_url architecture
            os send schedule image tag)
          (λ digest. Fetched (cache_key image tag) digest)
          (λ _. Kept)
  unfolding fetch
  fetch_Triple v schedule image tag c = elim (Option-cases (v images (cache_key image tag))) [
    | inl p ↦
        Triple-bind _ _
          (Triple-weaken
            (db_Triple _ (get_Triple e C text_codec T v images _ none (Stored-none _ p))) (λ _ s. s)
            (λ _ _ s. s) (λ _ _ s. (v, s, c)))
          λ found. Triple-assume λ q. rw q (fetch_new_Triple v schedule _ tag _ c)
    | inr p ↦
        let (digest, s, whole) = c.indexed (cache_key image tag) p.0 p.1 in
        Triple-bind _ _
          (Triple-weaken
            (db_Triple _ (
              get_Triple e C text_codec T v images _ (some digest)
                (Stored-some _ p.0 digest p.1 s)))
            (λ _ t. t) (λ _ _ t. t) (λ _ _ t. (v, t, c)))
          λ found. Triple-assume λ q. rw q (
            cached_Triple v schedule (normalize_image_name image) tag (cache_key image tag) digest
              p.0 c p.1 s whole)
  ]

  -- An image of the index is not fetched again: its digest is returned, if the storage can be
  -- read, and neither the registry nor the subscriber nor the storage sees anything of it.
  fetch_cached :
      (v : View) (o : h.Net) (schedule : List ℕ) (image tag digest bytes : Text)
      → v images (cache_key image tag) ≡ some bytes
      → text_codec.serialize digest ≡ ok bytes
      → Triple
          (λ (w : Both e.Db h.Net). Sees v w.db × (w.net ≡ o))
          (fetch e h text_codec bytes_codec manifest_codec config_codec n registry_url architecture
            os send schedule image tag)
          (λ d w. (d ≡ digest) × (Sees v w.db × (w.net ≡ o)))
          (λ _ w. Sees v w.db × (w.net ≡ o))
  unfolding fetch answer
  fetch_cached v o schedule image tag digest bytes p s =
      Triple-bind _ _ looked_up
        λ found. Triple-assume λ q. rw q (Triple-pure digest (λ w t. (refl, t)))
    where
      looked_up :
          Triple
            (λ (w : Both e.Db h.Net). Sees v w.db × (w.net ≡ o))
            (on_db (Storage.get e text_codec images (cache_key image tag)))
            (λ r w. (r ≡ some digest) × (Sees v w.db × (w.net ≡ o)))
            (λ _ w. Sees v w.db × (w.net ≡ o))
      looked_up =
          Triple-weaken
            (framed_Triple o _ (
              get_Triple e C text_codec T v images _ (some digest)
                (Stored-some _ bytes digest p s)))
            (λ _ t. t) (λ _ _ t. (t.0.0, (t.0.1, t.1))) (λ _ _ t. t)
