-- ===== src/Registratur/Client/Digest.antt =====
-- registratur/src/reqwest_ext.rs: what is known of a content that was read, or pulled by digest.
use knast.Base.{ℕ, Text, text_eq_iff, ◌≡◌, arith}
use knast.Base.Exec.{Result, ok, err, lift, Triple, Triple-bind, Triple-lift, Triple-true}
use knast.Base.Nom.{Nom}
use knast.Registratur.Http.{Http, Response}
use knast.Registratur.Client.{
  from_seven, checked, read, pull_layer, pull_manifest, pull_config, silent,
}

module _ (h : Http) where
  open h use {Net}

  -- The content has the hash that the digest names.
  abbrev pub Matches : Text → Text → Type 0
  Matches digest content = from_seven digest ≡ ok (h.hex (h.sha256 content))

  checked-Matches :
      (result digest : Text) (expected : Result Text) (content : Text)
      → checked h result digest expected ≡ ok content
      → expected ≡ ok (h.hex (h.sha256 content))
  unfolding checked
  checked-Matches result digest (err x) content p = absurd (ground arith)
  checked-Matches result digest (ok expected) content p =
      ground (arith, text_eq_iff expected (h.hex (h.sha256 result)))

  -- read returns only a content that has the hash of the digest.
  pub read_Triple :
      (response : Response) (f : ℕ → Net → Net) (digest : Text)
      → Triple
          (λ _. Unit)
          (read h response f digest)
          (λ content _. Matches digest content)
          (λ _ _. Unit)
  unfolding read
  read_Triple response f digest = Triple-bind _ _ (Triple-true _) λ result.
      Triple-lift _ (λ content p _ _. checked-Matches result digest _ content p) (λ _ _ _ _. tt)

  -- A document is what a content with the hash of the digest says.
  abbrev pub Says : {A : Type 0} → (Text → Result A) → Text → A → Type 0
  Says of digest a = (content : Text) × Matches digest content × (of content ≡ ok a)

  said :
      {A : Type 0} (of : Text → Result A) (digest content : Text)
      → Triple
          (λ _. Matches digest content)
          (lift (of content))
          (λ a (_ : Net). Says of digest a)
          (λ _ _. Unit)
  said of digest content = Triple-lift (of content) (λ a p _ m. (content, m, p)) (λ _ _ _ _. tt)

  module _ (n : Nom) (registry_url : Text) where
    pub pull_layer_Triple :
        (name digest : Text) (f : ℕ → Net → Net)
        → Triple
            (λ _. Unit)
            (pull_layer h n registry_url name digest f)
            (λ content _. Matches digest content)
            (λ _ _. Unit)
    unfolding pull_layer
    pull_layer_Triple name digest f =
        Triple-bind _ _ (Triple-true _) λ response. read_Triple response f digest

    pub pull_manifest_Triple :
        (name digest : Text)
        → Triple
            (λ _. Unit)
            (pull_manifest h n registry_url name digest)
            (λ m _. Says h.manifest_of digest m)
            (λ _ _. Unit)
    unfolding pull_manifest
    pull_manifest_Triple name digest = Triple-bind _ _ (Triple-true _) λ response.
        Triple-bind _ _ (read_Triple response silent digest)
          λ result. said h.manifest_of digest result

    pub pull_config_Triple :
        (name digest : Text)
        → Triple
            (λ _. Unit)
            (pull_config h n registry_url name digest)
            (λ c _. Says h.config_of digest c)
            (λ _ _. Unit)
    unfolding pull_config
    pull_config_Triple name digest = Triple-bind _ _ (Triple-true _) λ response.
        Triple-bind _ _ (read_Triple response silent digest)
          λ result. said h.config_of digest result
