-- ===== src/Baustelle/Fetcher/Ends.antt =====
-- baustelle/src/fetcher.rs, `fetch`: a schedule that gives the first unfinished download its turns
-- brings all of them to an end.
use knast.Base.{
  ℕ, zero, suc, ◌+◌, ◌<◌, ◌≤◌, Text, Option, none, some, Bool, true, false, List, [], ◌∷◌, ◌≡◌, ◌≢◌,
  arith, ap, ◌∙◌,
}
use knast.Base.Exec.{
  Exec, Error, message, foreign, exhausted, panic, err, Triple, Triple-bind, Triple-pure,
  Triple-raise, Triple-match, Triple-bind-lift,
}
use knast.Base.Both.{db_Triple, state_Triple}
use knast.Base.Nom.{Nom}
use knast.Storage.{StorageEngine, Codec, put, exists}
use knast.Registratur.Domain.{Manifest, Config}
use knast.Registratur.Http.{Http}
use knast.Base.Honest.{Honest}
use knast.Registratur.Client.Ends.{HonestHttp, pull_layer_ends, pull_config_ends}
use knast.Baustelle.Fetcher.{
  LayerDownloadStatus, Job, layer, pulling, config, put_back, contextual, context, tested, step,
  download_layer, fetch_config, turn, run,
}

-- How many turns a job needs.
abbrev pub weight : Job → ℕ
weight (layer digest size) = 2
weight (pulling digest size) = 1
weight (config digest) = 1

abbrev pub weights : List Job → ℕ
weights [] = 0
weights (job ∷ jobs) = weight job + weights jobs

weight_pos : (job : Job) → 0 < weight job
weight_pos (layer digest size) = omega arith
weight_pos (pulling digest size) = omega arith
weight_pos (config digest) = omega arith

abbrev pub weight_left : Option Job → ℕ
weight_left none = 0
weight_left (some job) = weight job

-- The turns that a schedule gives to the job in front.
abbrev pub first_turns : List ℕ → ℕ
first_turns [] = 0
first_turns (zero ∷ schedule) = suc (first_turns schedule)
first_turns (suc i ∷ schedule) = first_turns schedule

contextual_lem : (note : Text) (x : Error) → x ≢ exhausted → contextual note x ≢ exhausted
unfolding contextual
contextual_lem note (message m) p = λ q. absurd (ground arith)
contextual_lem note (foreign m) p = λ q. absurd (ground arith)
contextual_lem note panic p = λ q. absurd (ground arith)
contextual_lem note exhausted p = p

context-Honest : {S A : Type 0} (note : Text) (m : Exec S A) → Honest m → Honest (context note m)
unfolding context
context-Honest note m t =
    Triple-match m _ _ t (λ a. Triple-pure a (λ _ _. tt))
      (λ x. record {
        at = λ s p.
            (Triple-raise {P = λ _. x ≢ exhausted} (contextual note x)
                (λ _ q. contextual_lem note x q)).at
              s p;
      })

module _ (e : StorageEngine) (h : Http) (text_codec bytes_codec : Codec Text)
    (manifest_codec : Codec Manifest) (config_codec : Codec Config) (n : Nom)
    (registry_url architecture : Text) (os : List Text)
    (send : LayerDownloadStatus → h.Net → h.Net) where
  -- The engine, the formats and the calls of the client fail only by errors of the program.
  pub record AllHonest : Type 0 where
    pub exists_ends : (t k : Text) → Honest (e.exists t k)
    pub put_ends : (t k x : Text) → Honest (e.put t k x)
    pub bytes_end : (a : Text) → bytes_codec.serialize a ≢ err exhausted
    pub config_ends : (c : Config) → config_codec.serialize c ≢ err exhausted
    pub http_ends : HonestHttp h

module _ (e : StorageEngine) (h : Http) (text_codec bytes_codec : Codec Text)
    (manifest_codec : Codec Manifest) (config_codec : Codec Config) (n : Nom)
    (registry_url architecture : Text) (os : List Text) (send : LayerDownloadStatus → h.Net → h.Net)
    (F : AllHonest e h text_codec bytes_codec manifest_codec config_codec n registry_url
      architecture os send) where
  put-Honest :
      {A : Type 0} (c : Codec A) (t k : Text) (a : A)
      → c.serialize a ≢ err exhausted
      → Honest (put e c t k a)
  unfolding put
  put-Honest c t k a p =
      Triple-bind-lift (c.serialize a) _
        (λ x _. Triple-bind _ _ (F.put_ends t k x) λ _. Triple-pure a (λ _ _. tt))
        (λ x q _ _ r. p (q ∙ ap err r))

  download-Honest :
      (image_name digest : Text) (size : ℕ)
      → Honest (
          download_layer e h text_codec bytes_codec manifest_codec config_codec n registry_url
            architecture os send image_name digest size)
  unfolding download_layer
  download-Honest image_name digest size = context-Honest _ _ (
      Triple-bind _ _
        (state_Triple _ (pull_layer_ends h F.http_ends n registry_url image_name digest _))
        λ item. db_Triple _ (put-Honest bytes_codec _ digest item (F.bytes_end item)))

  config-Honest :
      (image_name digest : Text)
      → Honest (
          fetch_config e h text_codec bytes_codec manifest_codec config_codec n registry_url
            architecture os send image_name digest)
  unfolding fetch_config
  config-Honest image_name digest = context-Honest _ _ (
      Triple-bind _ _
        (state_Triple _ (pull_config_ends h F.http_ends n registry_url image_name digest))
        λ item. db_Triple _ (put-Honest config_codec _ digest item (F.config_ends item)))

  tested_ends :
      (digest : Text) (size : ℕ) (found : Bool)
      → Triple
          (λ _. Unit)
          (tested e h text_codec bytes_codec manifest_codec config_codec n registry_url architecture
            os send found digest size)
          (λ o _. weight_left o < 2)
          (λ x _. x ≢ exhausted)
  unfolding tested
  tested_ends digest size true =
      Triple-bind _ _
        (state_Triple {P = λ _. Unit} {Q = λ _ _. Unit} {E = λ x _. x ≢ exhausted} _
          (record { at = λ _ _. tt }))
        λ _. Triple-pure none (λ _ _. omega arith)
  tested_ends digest size false = Triple-pure _ (λ _ _. omega arith)

  -- A step uses up one turn of its job.
  step_ends :
      (image_name : Text) (job : Job)
      → Triple
          (λ _. Unit)
          (step e h text_codec bytes_codec manifest_codec config_codec n registry_url architecture
            os send image_name job)
          (λ o _. weight_left o < weight job)
          (λ x _. x ≢ exhausted)
  unfolding step exists
  step_ends image_name (layer digest size) =
      Triple-bind _ _ (db_Triple _ (F.exists_ends _ digest)) λ found. tested_ends digest size found
  step_ends image_name (pulling digest size) =
      Triple-bind _ _ (download-Honest image_name digest size)
        λ _. Triple-pure none (λ _ _. omega arith)
  step_ends image_name (config digest) =
      Triple-bind _ _ (config-Honest image_name digest) λ _. Triple-pure none (λ _ _. omega arith)

  weights-put_back :
      (o : Option Job) (jobs : List Job) → weights (put_back o jobs) ≡ weight_left o + weights jobs
  weights-put_back none jobs = omega arith
  weights-put_back (some job) jobs = omega arith

  -- A turn of the first job uses up one, and no turn adds one.
  abbrev Less : ℕ → List Job → List Job → Type 0
  Less zero jobs rest = weights rest < weights jobs
  Less (suc i) jobs rest = weights rest ≤ weights jobs

  later_turn :
      (image_name : Text) (i : ℕ) (jobs : List Job)
      → Triple
          (λ _. Unit)
          (turn e h text_codec bytes_codec manifest_codec config_codec n registry_url architecture
            os send image_name i jobs)
          (λ rest _. weights rest ≤ weights jobs)
          (λ x _. x ≢ exhausted)
  unfolding turn
  later_turn image_name zero [] = Triple-pure [] (λ _ _. omega arith)
  later_turn image_name (suc i) [] = Triple-pure [] (λ _ _. omega arith)
  later_turn image_name zero (job ∷ jobs) =
      Triple-bind _ _ (step_ends image_name job)
        λ o. Triple-pure _ (λ _ p. omega (arith, weights-put_back o jobs))
  later_turn image_name (suc i) (job ∷ jobs) =
      Triple-bind _ _ (later_turn image_name i jobs) λ rest. Triple-pure _ (λ _ p. omega arith)

  first_turn :
      (image_name : Text) (job : Job) (jobs : List Job)
      → Triple
          (λ _. Unit)
          (turn e h text_codec bytes_codec manifest_codec config_codec n registry_url architecture
            os send image_name zero
            (job ∷ jobs))
          (λ rest _. weights rest < weights (job ∷ jobs))
          (λ x _. x ≢ exhausted)
  unfolding turn
  first_turn image_name job jobs =
      Triple-bind _ _ (step_ends image_name job)
        λ o. Triple-pure _ (λ _ p. omega (arith, weights-put_back o jobs))

  -- Where the engine, the formats and the calls of the client fail only by errors of the
  -- program, a schedule that gives the first job as many turns as all jobs need, others in
  -- between, never runs out: all downloads are done, or one of them has failed.
  run_ends :
      (image_name : Text) (schedule : List ℕ) (jobs : List Job)
      → weights jobs ≤ first_turns schedule
      → Honest (
          run e h text_codec bytes_codec manifest_codec config_codec n registry_url architecture os
            send image_name schedule jobs)
  unfolding run
  run_ends image_name schedule [] enough = Triple-pure tt (λ _ _. tt)
  run_ends image_name [] (job ∷ jobs) enough = absurd (omega (arith, weight_pos job))
  run_ends image_name (zero ∷ schedule) (job ∷ jobs) enough =
      Triple-bind _ _ (first_turn image_name job jobs)
        λ rest. record { at = λ s p. (run_ends image_name schedule rest (omega arith)).at s tt }
  run_ends image_name (suc i ∷ schedule) (job ∷ jobs) enough =
      Triple-bind _ _ (later_turn image_name (suc i) (job ∷ jobs))
        λ rest. record { at = λ s p. (run_ends image_name schedule rest (omega arith)).at s tt }
