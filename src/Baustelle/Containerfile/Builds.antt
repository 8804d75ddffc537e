-- ===== src/Baustelle/Containerfile/Builds.antt =====
-- baustelle/src/lib.rs and containerfile.rs: a whole build.
use knast.Base.{Text, Option, List, [], ◌∷◌, ◌++◌, ℕ, ◌≡◌, ap, sym, ◌∙◌}
use knast.Base.Exec.{
  Exec, ok, ok-injective, ◌>>◌, pure, Triple, Triple-bind, Triple-pure, Triple-weaken,
  Triple-bind-lift, Triple-true,
}
use knast.Base.Both.{Both, on_net, net_Triple}
use knast.Base.Nom.{Nom}
use knast.Base.Nom.Words.{Combinators}
use knast.Storage.{StorageEngine, Codec}
use knast.Storage.Contract.{View, Contract}
use knast.Storage.Typed.{CodecLaws}
use knast.Registratur.Domain.{Manifest, Config}
use knast.Registratur.Http.{Http}
use knast.Baustelle.RuntimeConfig.{RuntimeConfig}
use knast.Baustelle.Fetcher.Cache.{IsCache}
use knast.Baustelle.Archive.{Libarchive}
use knast.Baustelle.Containerfile.{
  EvaluationUpdate, Instruction, from_image, other, System, tag_of, execute_instruction,
  execute_all, flat_stages, interpret, new, build,
}
use knast.Baustelle.Containerfile.Bundles.{ShowsCache, Built, from_Triple}

-- No instruction is a FROM.
abbrev pub NoFrom : List Instruction → Type 0
NoFrom [] = Unit {0}
NoFrom (from_image image tag ∷ instructions) = ⊥
NoFrom (other instruction ∷ instructions) = NoFrom instructions

module _ (e : StorageEngine) (C : Contract e) (h : Http) (l : Libarchive) (sys : System l.Files)
    (text_codec : Codec Text) (T : CodecLaws text_codec) (bytes_codec : Codec Text)
    (B : CodecLaws bytes_codec) (manifest_codec : Codec Manifest) (M : CodecLaws manifest_codec)
    (config_codec : Codec Config) (K : CodecLaws config_codec) (n : Nom) (words : Combinators)
    (registry_url architecture : Text) (os : List Text)
    (callback : EvaluationUpdate → h.Net → h.Net)
    (Written : Text → RuntimeConfig → l.Files → Type 0)
    (writes : (path : Text) (r : RuntimeConfig)
      → Triple (λ _. Unit) (sys.to_writer path r) (λ _. Written path r) (λ _ _. Unit)) where
  abbrev State : Type 0
  State = Both (Both e.Db h.Net) l.Files

  abbrev Shows : State → Type 0
  Shows =
      ShowsCache e C h l sys text_codec T bytes_codec B manifest_codec M config_codec K n words
        registry_url architecture os callback Written writes

  abbrev Done : Text → Text → Option Text → State → Type 0
  Done container_folder image tag =
      Built e C h l sys text_codec T bytes_codec B manifest_codec M config_codec K n words
        registry_url architecture os callback Written writes container_folder image (tag_of tag)

  none_Triple :
      {Q : State → Type 0} (container_folder : Text) (schedule : Instruction → List ℕ)
      (instructions : List Instruction)
      → NoFrom instructions
      → Triple Q
          (execute_all e h l sys text_codec bytes_codec manifest_codec config_codec n words
            registry_url architecture os callback container_folder schedule instructions)
          (λ _. Q)
          (λ _. Shows)
  unfolding execute_all execute_instruction
  none_Triple container_folder schedule [] p = Triple-pure tt (λ _ t. t)
  none_Triple container_folder schedule (from_image image tag ∷ instructions) p = absurd p
  none_Triple {Q = Q} container_folder schedule (other instruction ∷ instructions) p =
      Triple-bind _ _ (Triple-pure {P = Q} tt (λ _ t. t))
        λ _. none_Triple container_folder schedule instructions p

  one_Triple :
      (container_folder : Text) (schedule : Instruction → List ℕ) (before : List Instruction)
      (image : Text) (tag : Option Text) (after : List Instruction)
      → NoFrom before
      → NoFrom after
      → Triple Shows
          (execute_all e h l sys text_codec bytes_codec manifest_codec config_codec n words
            registry_url architecture os callback container_folder schedule
            (before ++ from_image image tag ∷ after))
          (λ _. Done container_folder image tag)
          (λ _. Shows)
  unfolding execute_all execute_instruction
  one_Triple container_folder schedule [] image tag after p q =
      Triple-bind _ _
        (record {
          at = λ w (v, sees, c).
              (from_Triple e C h l sys text_codec T bytes_codec B manifest_codec M config_codec K n
                  words registry_url architecture os callback Written writes v container_folder
                  (schedule (from_image image tag)) image tag c).at
                w sees;
        })
        λ _. none_Triple container_folder schedule after q
  one_Triple container_folder schedule (from_image i t ∷ before) image tag after p q = absurd p
  one_Triple container_folder schedule (other instruction ∷ before) image tag after p q =
      Triple-bind _ _ (Triple-pure {P = Shows} tt (λ _ t. t))
        λ _. one_Triple container_folder schedule before image tag after p q

  leaves : {A : Type 0} (m : Exec l.Files A) → Triple Shows (on_net m) (λ _. Shows) (λ _. Shows)
  leaves m =
      Triple-weaken
        (net_Triple
          (λ (b : Both e.Db h.Net).
            (v : View) × C.Sees v b.db
            × IsCache h text_codec bytes_codec manifest_codec config_codec v)
          (λ _. Unit) m (Triple-true m))
        (λ _ p. p) (λ _ _ p. p.1) (λ _ _ p. p)

  new_Triple :
      (folder : Text)
      → Triple Shows
          (new e h l sys text_codec bytes_codec manifest_codec config_codec n words registry_url
            architecture os callback folder)
          (λ _. Shows)
          (λ _. Shows)
  unfolding new
  new_Triple folder =
      Triple-bind-lift _ _
        (λ _ _.
          Triple-bind _ _ (leaves sys.new_v4)
            λ uuid. Triple-bind _ _ (leaves _) λ _. Triple-pure _ (λ _ t. t))
        (λ _ _ _ t. t)

  interpreted_Triple :
      (container_folder : Text) (schedule : Instruction → List ℕ) (before : List Instruction)
      (image : Text) (tag : Option Text) (after instructions : List Instruction)
      → instructions ≡ before ++ from_image image tag ∷ after
      → NoFrom before
      → NoFrom after
      → Triple Shows
          (execute_all e h l sys text_codec bytes_codec manifest_codec config_codec n words
              registry_url architecture os callback container_folder schedule instructions
            >> pure container_folder)
          (λ folder. Done folder image tag)
          (λ _. Shows)
  interpreted_Triple container_folder schedule before image tag after instructions r p q = rw r (
      Triple-bind _ _ (one_Triple container_folder schedule before image tag after p q)
        λ _. Triple-pure container_folder (λ _ t. t))

  -- Let Written hold of a path, a configuration and the files after the configuration is written
  -- to the path. A build of a container file with one FROM, from a cache, whatever the
  -- schedules: where it succeeds, the image is complete in the cache, its layers are unpacked
  -- into rootfs of the folder that is returned, and with the files as they are then, the
  -- configuration that the cache holds for it is converted and written to config.json. Whether
  -- it succeeds or fails, the database shows a cache.
  pub build_Triple :
      (folder : Text) (schedule : Instruction → List ℕ) (containerfile : Text)
      (stages : List (List Instruction)) (before : List Instruction) (image : Text)
      (tag : Option Text) (after : List Instruction)
      → sys.from_reader containerfile ≡ ok stages
      → flat_stages stages ≡ before ++ from_image image tag ∷ after
      → NoFrom before
      → NoFrom after
      → Triple Shows
          (build e h l sys text_codec bytes_codec manifest_codec config_codec n words registry_url
            architecture os callback folder schedule containerfile)
          (λ container_folder. Done container_folder image tag)
          (λ _. Shows)
  unfolding build interpret
  build_Triple folder schedule containerfile stages before image tag after r s p q =
      Triple-bind _ _ (new_Triple folder) λ container_folder.
        Triple-bind-lift _ _
          (λ parsed t.
            interpreted_Triple container_folder schedule before image tag after (flat_stages parsed)
              (ap flat_stages (ok-injective parsed stages (sym t ∙ r)) ∙ s) p q)
          (λ _ _ _ t. t)
