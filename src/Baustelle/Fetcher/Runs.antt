-- ===== src/Baustelle/Fetcher/Runs.antt =====
-- baustelle/src/fetcher.rs: whatever the schedule, `fetch` keeps the cache, and an image that it
-- returns is complete.
use knast.Base.{
  Text, ℕ, zero, suc, Option, none, some, ◌≡◌, List, [], ◌∷◌, ◌⊎◌, inl, inr, subst, ◌∙◌,
}
use knast.Base.Exec.{Exec, Error, Triple, Triple-bind, Triple-pure, Triple-raise, Triple-weaken}
use knast.Base.Both.{Both}
use knast.Base.Nom.{Nom}
use knast.Storage.{StorageEngine, Codec}
use knast.Storage.Contract.{View, Contract}
use knast.Storage.Typed.{CodecLaws}
use knast.Registratur.Domain.{Manifest, Config}
use knast.Registratur.Http.{Http}
use knast.Baustelle.Fetcher.{LayerDownloadStatus, Job, job_digest, put_back, turn, run}
use knast.Baustelle.Fetcher.Cache.{Present, Extends}
use knast.Baustelle.Fetcher.Steps.{After, After-elim, After-trans, After-refl, Next, step_Triple}

-- A job on the cell is among them.
abbrev pub Pending : List Job → Text → Type 0
Pending [] k = ⊥
Pending (job ∷ jobs) k = (job_digest job ≡ k) ⊎ Pending jobs k

module _ (e : StorageEngine) (C : Contract e) (h : Http) (text_codec : Codec Text)
    (T : CodecLaws text_codec) (bytes_codec : Codec Text) (B : CodecLaws bytes_codec)
    (manifest_codec : Codec Manifest) (M : CodecLaws manifest_codec) (config_codec : Codec Config)
    (K : CodecLaws config_codec) (n : Nom) (registry_url architecture : Text) (os : List Text)
    (send : LayerDownloadStatus → h.Net → h.Net) where
  open C use {Sees}

  abbrev pub Afterwards : View → (View → Type 0) → Both e.Db h.Net → Type 0
  Afterwards =
      After e C h text_codec bytes_codec B manifest_codec M config_codec K n registry_url
        architecture os send

  abbrev pub Grown : View → View → Type 0
  Grown = Extends h text_codec bytes_codec manifest_codec config_codec

  abbrev pub Seen : View → Both e.Db h.Net → Type 0
  Seen v w = Sees v w.db

  stay : {J : View → Type 0} (v : View) (w : Both e.Db h.Net) → J v → Seen v w → Afterwards v J w
  stay v w j s =
      After-refl e C h text_codec bytes_codec B manifest_codec M config_codec K n registry_url
        architecture os send v w j s

  pub after :
      {A : Type 0} {J : View → Type 0} {Q : A → Both e.Db h.Net → Type 0}
      {E : Error → Both e.Db h.Net → Type 0} (u : View) (m : Exec (Both e.Db h.Net) A)
      → ((v : View) → Grown u v → J v → Triple (Seen v) m Q E)
      → Triple (Afterwards u J) m Q E
  after u m t =
      After-elim e C h text_codec bytes_codec B manifest_codec M config_codec K n registry_url
        architecture os send u m t

  extend :
      {I J : View → Type 0} (u v : View) (w : Both e.Db h.Net)
      → Grown u v
      → ((x : View) → Grown v x → I x → J x)
      → Afterwards v I w
      → Afterwards u J w
  extend u v w g f s =
      After-trans e C h text_codec bytes_codec B manifest_codec M config_codec K n registry_url
        architecture os send u v w g f s

  -- Every job of the first list has filled its cell, or is in the second.
  abbrev Left : List Job → List Job → View → Type 0
  Left jobs rest v = (k : Text) → Pending jobs k → Present v k ⊎ Pending rest k

  Next-Left :
      (job : Job) (jobs : List Job) (o : Option Job) (v : View)
      → Next job o v
      → Left (job ∷ jobs) (put_back o jobs) v
  Next-Left job jobs none v p k (inl q) = inl (subst (λ x. Present v x) q p)
  Next-Left job jobs none v p k (inr q) = inr q
  Next-Left job jobs (some j) v p k (inl q) = inr (inl (p ∙ q))
  Next-Left job jobs (some j) v p k (inr q) = inr (inr q)

  keep_Left :
      (job : Job) (jobs rest : List Job) (v : View)
      → Left jobs rest v
      → Left (job ∷ jobs) (job ∷ rest) v
  keep_Left job jobs rest v p k (inl q) = inr (inl q)
  keep_Left job jobs rest v p k (inr q) = elim (p k q) [ inl a ↦ inl a | inr a ↦ inr (inr a) ]

  turn_Triple :
      (v : View) (image_name : Text) (i : ℕ) (jobs : List Job)
      → Triple
          (Seen v)
          (turn e h text_codec bytes_codec manifest_codec config_codec n registry_url architecture
            os send image_name i jobs)
          (λ rest. Afterwards v (Left jobs rest))
          (λ _. Seen v)
  unfolding turn
  turn_Triple v image_name zero [] = Triple-pure [] (λ w s. stay v w (λ k p. absurd p) s)
  turn_Triple v image_name (suc i) [] = Triple-pure [] (λ w s. stay v w (λ k p. absurd p) s)
  turn_Triple v image_name zero (job ∷ jobs) =
      Triple-bind _ _
        (step_Triple e C h text_codec bytes_codec B manifest_codec M config_codec K n registry_url
          architecture os send v image_name job)
        λ o. Triple-pure _ (λ w s. (s.0, s.1, s.2, Next-Left job jobs o s.0 s.3))
  turn_Triple v image_name (suc i) (job ∷ jobs) =
      Triple-bind _ _ (turn_Triple v image_name i jobs)
        λ rest. Triple-pure _ (λ w s. (s.0, s.1, s.2, keep_Left job jobs rest s.0 s.3))

  -- All cells are filled.
  abbrev pub Filled : List Job → View → Type 0
  Filled jobs v = (k : Text) → Pending jobs k → Present v k

  settled :
      (jobs rest : List Job) (v x : View)
      → Left jobs rest v
      → Grown v x
      → Filled rest x
      → Filled jobs x
  settled jobs rest v x l g f k p = elim (l k p) [ inl a ↦ g.stays k a | inr a ↦ f k a ]

  pub run_Triple :
      (v : View) (image_name : Text) (schedule : List ℕ) (jobs : List Job)
      → Triple
          (Seen v)
          (run e h text_codec bytes_codec manifest_codec config_codec n registry_url architecture os
            send image_name schedule jobs)
          (λ _. Afterwards v (Filled jobs))
          (λ _. Afterwards v (λ _. Unit))
  unfolding run
  run_Triple v image_name schedule [] = Triple-pure tt (λ w s. stay v w (λ k p. absurd p) s)
  run_Triple v image_name [] (job ∷ jobs) = Triple-raise _ (λ w s. stay v w tt s)
  run_Triple v image_name (i ∷ schedule) (job ∷ jobs) =
      Triple-bind _ _
        (Triple-weaken (turn_Triple v image_name i (job ∷ jobs)) (λ _ p. p) (λ _ _ q. q)
          (λ _ w s. stay v w tt s))
        λ rest. after v _ λ x g left.
          Triple-weaken (run_Triple x image_name schedule rest) (λ _ p. p)
            (λ _ w s. extend v x w g (λ y more f. settled (job ∷ jobs) rest x y left more f) s)
            (λ _ w s. extend v x w g (λ _ _ u. u) s)
