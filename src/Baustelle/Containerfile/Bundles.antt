-- ===== src/Baustelle/Containerfile/Bundles.antt =====
-- baustelle/src/containerfile.rs: what a build leaves in the cache and in the folder of the
-- container.
use knast.Base.{Text, codes, Option, some, List, ℕ, ◌≡◌, refl, subst}
use knast.Base.Exec.{
  Error, ok, err, ok_or, ok_or-ok, Triple, Triple-bind, Triple-weaken, Triple-assume,
  Triple-bind-lift, Triple-true, Outcome, Result, ◌>>=◌,
}
use knast.Base.Both.{Both, on_db, on_net, on_outer, db_Triple, beside_Triple, outer_Triple}
use knast.Base.Nom.{Nom}
use knast.Base.Nom.Words.{Combinators}
use knast.Base.Paths.{join}
use knast.Storage
use knast.Storage.{StorageEngine, Codec}
use knast.Storage.Contract.{View, Contract}
use knast.Storage.Typed.{CodecLaws, Reads, get_any}
use knast.Registratur.Domain.{Manifest, Config}
use knast.Registratur.Http.{Http}
use knast.Baustelle.RuntimeConfig.{RuntimeConfig, runtime_config_of}
use knast.Baustelle.Fetcher.{blobs, images, cache_key}
use knast.Baustelle.Fetcher.Cache.{IsCache, Complete}
use knast.Baustelle.Fetcher.Images.{fetch_Triple}
use knast.Baustelle.Archive.{Libarchive}
use knast.Baustelle.Unpacker.{unpack}
use knast.Baustelle.Unpacker.Leaves.{unpack_leaves}
use knast.Baustelle.Containerfile.{
  EvaluationUpdate, layer_update, System, tag_of, convert, write_config, execute_from_instruction,
}

module _ (e : StorageEngine) (C : Contract e) (h : Http) (l : Libarchive) (sys : System l.Files)
    (text_codec : Codec Text) (T : CodecLaws text_codec) (bytes_codec : Codec Text)
    (B : CodecLaws bytes_codec) (manifest_codec : Codec Manifest) (M : CodecLaws manifest_codec)
    (config_codec : Codec Config) (K : CodecLaws config_codec) (n : Nom) (words : Combinators)
    (registry_url architecture : Text) (os : List Text)
    (callback : EvaluationUpdate → h.Net → h.Net)
    (Written : Text → RuntimeConfig → l.Files → Type 0)
    (writes : (path : Text) (r : RuntimeConfig)
      → Triple (λ _. Unit) (sys.to_writer path r) (λ _. Written path r) (λ _ _. Unit)) where
  open C use {Sees}

  abbrev State : Type 0
  State = Both (Both e.Db h.Net) l.Files

  -- The database shows a cache.
  abbrev pub ShowsCache : State → Type 0
  ShowsCache w =
      (v : View) × Sees v w.db.db × IsCache h text_codec bytes_codec manifest_codec config_codec v

  -- A run of `unpack` that succeeds ends with these files; its storage shows the map.
  abbrev pub Unpacked : View → Text → Text → l.Files → Type 0
  Unpacked v destination digest files =
      (u : Both e.Db l.Files) × Sees v u.db
      × ((db : e.Db) × (unpack e l manifest_codec bytes_codec destination digest u
            ≡ (ok tt, record { db = db; net = files })))

  -- The layers of the digest are unpacked into rootfs, and with the files as they are then, the
  -- configuration that the cache holds for its manifest is converted and written to config.json.
  pub record Bundled (v : View) (container_folder digest : Text) (w : State) : Type 0 where
    pub manifest : Manifest
    pub manifest_read : Reads manifest_codec (v blobs digest) (some manifest)
    pub config : Config
    pub config_read : Reads config_codec (v blobs manifest.config.digest) (some config)
    pub files : l.Files
    pub unpacked : Unpacked v (join container_folder (codes "rootfs")) digest files
    pub runtime_config : RuntimeConfig
    pub converted :
        runtime_config_of (sys.etc files) (join container_folder (codes "rootfs")) words config
        ≡ ok runtime_config
    pub written : Written (join container_folder (codes "config.json")) runtime_config w.net

  -- The image is in the index of the cache, complete, and its bundle in the folder.
  pub record Built (container_folder image tag : Text) (w : State) : Type 0 where
    pub view : View
    pub sees : Sees view w.db.db
    pub cache : IsCache h text_codec bytes_codec manifest_codec config_codec view
    pub digest : Text
    pub bytes : Text
    pub indexed : view images (cache_key image tag) ≡ some bytes
    pub serialized : text_codec.serialize digest ≡ ok bytes
    pub complete : Complete h text_codec bytes_codec manifest_codec config_codec view digest
    pub bundled : Bundled view container_folder digest w

  write_Triple :
      (P : Both e.Db h.Net → Type 0) (path : Text) (r : RuntimeConfig)
      → Triple
          (λ (w : State). P w.db)
          (on_net (
            write_config e h l sys text_codec bytes_codec manifest_codec config_codec n words
              registry_url architecture os callback path r))
          (λ _ w. P w.db × Written path r w.net)
          (λ _ w. P w.db)
  unfolding write_config
  write_Triple P path r =
      Triple-weaken
        (beside_Triple P _
          (Triple-bind {P = λ _. Unit} {E = λ _ _. Unit} _ _ (Triple-true _) λ _. writes path r))
        (λ _ p. (p, tt)) (λ _ _ p. p) (λ _ _ p. p.0)

  convert_Triple :
      (P : Both e.Db h.Net → Type 0) (R : l.Files → Type 0) (destination : Text) (config : Config)
      → Triple
          (λ (w : State). P w.db × R w.net)
          (on_net (
            convert e h l sys text_codec bytes_codec manifest_codec config_codec n words
              registry_url architecture os callback destination config))
          (λ r w.
            ((files : l.Files) × R files
              × (runtime_config_of (sys.etc files) destination words config ≡ ok r))
            × P w.db)
          (λ _ w. P w.db)
  unfolding convert
  convert_Triple P R destination config =
      Triple-weaken
        (beside_Triple P _ (record {
          at = λ files t.
              answers files (runtime_config_of (sys.etc files) destination words config) refl t;
        }))
        (λ _ t. t) (λ _ _ t. (t.1, t.0)) (λ _ _ t. t.0)
    where
      answers :
          (files : l.Files) (r : Result RuntimeConfig)
          → runtime_config_of (sys.etc files) destination words config ≡ r
          → R files
          → Outcome
              (λ (r : RuntimeConfig) (_ : l.Files).
                (files : l.Files) × R files
                × (runtime_config_of (sys.etc files) destination words config ≡ ok r))
              (λ _ _. Unit)
              (r, files)
      answers files (ok r) p t = (files, t, p)
      answers files (err x) p t = tt

  on_cells :
      {A : Type 0} (c : Codec A) (v : View) (key : Text)
      → Triple
          (λ (w : State). Sees v w.db.db)
          (on_db (on_db (Storage.get e c blobs key)))
          (λ r w. Reads c (v blobs key) r × Sees v w.db.db)
          (λ _ w. Sees v w.db.db)
  on_cells c v key = db_Triple _ (db_Triple _ (get_any e C c v blobs key))

  reads_some :
      {A : Type 0} (c : Codec A) (x : Error) (o : Option Text) (found : Option A) (a : A)
      → Reads c o found
      → ok_or x found ≡ ok a
      → Reads c o (some a)
  reads_some c x o found a r p = subst (λ y. Reads c o y) (ok_or-ok x found a p) r

  -- The end of `execute_from_instruction`, once the configuration is read.
  bundle_Triple :
      (u : View) (container_folder image tag digest bytes : Text) (manifest : Manifest)
      (config : Config)
      → IsCache h text_codec bytes_codec manifest_codec config_codec u
      → u images (cache_key image tag) ≡ some bytes
      → text_codec.serialize digest ≡ ok bytes
      → Complete h text_codec bytes_codec manifest_codec config_codec u digest
      → Reads manifest_codec (u blobs digest) (some manifest)
      → Reads config_codec (u blobs manifest.config.digest) (some config)
      → Triple
          (λ (w : State). Sees u w.db.db)
          (on_outer (
              unpack e l manifest_codec bytes_codec (join container_folder (codes "rootfs")) digest)
            >>= λ _.
                on_net (
                  convert e h l sys text_codec bytes_codec manifest_codec config_codec n words
                    registry_url architecture os callback
                    (join container_folder (codes "rootfs"))
                    config)
                >>= λ r. on_net (
                    write_config e h l sys text_codec bytes_codec manifest_codec config_codec n
                      words registry_url architecture os callback
                      (join container_folder (codes "config.json"))
                      r))
          (λ _ w. Built container_folder image tag w)
          (λ _ w. ShowsCache w)
  bundle_Triple u container_folder image tag digest bytes manifest config c p s whole m k =
      Triple-bind _ _
        (Triple-weaken
          (outer_Triple (Sees u) _ (unpack_leaves e C l manifest_codec bytes_codec _ u digest))
          (λ _ t. t) (λ _ w (s, (o, seen, q)). (s, (o, seen, (w.db.db, q)))) (λ _ _ t. (u, t, c)))
        λ _.
          Triple-bind _ _
            (Triple-weaken
              (convert_Triple (λ (b : Both e.Db h.Net). Sees u b.db)
                (Unpacked u (join container_folder (codes "rootfs")) digest) _ config)
              (λ _ t. t) (λ _ _ t. t) (λ _ _ t. (u, t, c)))
            λ r. Triple-assume λ (files, unpacked, converted).
              Triple-weaken (write_Triple (λ (b : Both e.Db h.Net). Sees u b.db) _ r) (λ _ t. t)
                (λ _ _ t. record {
                  view = u;
                  sees = t.0;
                  cache = c;
                  digest = digest;
                  bytes = bytes;
                  indexed = p;
                  serialized = s;
                  complete = whole;
                  bundled = record {
                    manifest = manifest;
                    manifest_read = m;
                    config = config;
                    config_read = k;
                    files = files;
                    unpacked = unpacked;
                    runtime_config = r;
                    converted = converted;
                    written = t.1;
                  };
                })
                (λ _ _ t. (u, t, c))

  -- From a cache, whatever the schedule: where the instruction FROM succeeds, its image is in the
  -- index and complete, and the file config.json is the conversion of the configuration that the
  -- cache holds for it. Whether it succeeds or fails, the database shows a cache.
  pub from_Triple :
      (v : View) (container_folder : Text) (schedule : List ℕ) (image : Text) (tag : Option Text)
      → IsCache h text_codec bytes_codec manifest_codec config_codec v
      → Triple
          (λ (w : State). Sees v w.db.db)
          (execute_from_instruction e h l sys text_codec bytes_codec manifest_codec config_codec n
            words registry_url architecture os callback container_folder schedule image tag)
          (λ _ w. Built container_folder image (tag_of tag) w)
          (λ _ w. ShowsCache w)
  unfolding execute_from_instruction
  from_Triple v container_folder schedule image tag c =
      Triple-bind _ _
        (db_Triple _ (
          fetch_Triple e C h text_codec T bytes_codec B manifest_codec M config_codec K n
            registry_url architecture os (λ val. callback (layer_update val)) v schedule image
            (tag_of tag) c))
        λ digest. record {
          at = λ w (u, bytes, sees, good, p, s, whole).
              (Triple-bind _ _
                  (Triple-weaken (on_cells manifest_codec u digest) (λ _ t. t) (λ _ _ t. t)
                    (λ _ _ t. (u, t, good)))
                  λ found. Triple-assume λ m.
                    Triple-bind-lift _ _
                      (λ manifest q.
                        Triple-bind _ _
                          (Triple-weaken (on_cells config_codec u manifest.config.digest) (λ _ t. t)
                            (λ _ _ t. t) (λ _ _ t. (u, t, good)))
                          λ found_config. Triple-assume λ k.
                            Triple-bind-lift _ _
                              (λ config r.
                                bundle_Triple u container_folder image (tag_of tag) digest bytes
                                  manifest config good p s whole
                                  (reads_some manifest_codec _ _ found manifest m q)
                                  (reads_some config_codec _ _ found_config config k r))
                              (λ _ _ _ t. (u, t, good)))
                      (λ _ _ _ t. (u, t, good))).at
                w sees;
        }
