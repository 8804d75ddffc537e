-- ===== src/Baustelle/Fetcher/Cache.antt =====
-- The cache of images as a map: what fetching adds to it, and when an image is complete in it.
use knast.Base.{
  Text, text_eq, text_eq_iff, subst, Option, some, true, ◌≡◌, refl, inl, inr, arith, All, List, [],
  ◌∷◌, ◌∙◌, sym, ap, Bool-cases,
}
use knast.Base.Exec.{ok}
use knast.Storage.{Codec}
use knast.Storage.Contract.{View, update, is_some, update_ne_tree, update_ne_key, update_self}
use knast.Registratur.Domain.{Descriptor, Manifest, Config}
use knast.Registratur.Http.{Http}
use knast.Registratur.Client.Digest.{Matches, Says}
use knast.Baustelle.Fetcher.{blobs, images}

-- The cell of a blob is filled.
abbrev pub Present : View → Text → Type 0
Present v k = is_some (v blobs k) ≡ true

present_some : (o : Option Text) (x : Text) → o ≡ some x → is_some o ≡ true
present_some o x p = rw p refl

module _ (h : Http) (text_codec bytes_codec : Codec Text) (manifest_codec : Codec Manifest)
    (config_codec : Codec Config) where
  -- A blob holds what a content with the hash of its key says, in one of three formats.
  pub data Vouched (k x : Text) : Type 0 where
    layer_blob :
        (content : Text) → Matches h k content → bytes_codec.serialize content ≡ ok x → Vouched k x
    manifest_blob :
        (m : Manifest) → Says h h.manifest_of k m → manifest_codec.serialize m ≡ ok x → Vouched k x
    config_blob :
        (c : Config) → Says h h.config_of k c → config_codec.serialize c ≡ ok x → Vouched k x

  abbrev pub AllVouched : View → Type 0
  AllVouched v = (k x : Text) → v blobs k ≡ some x → Vouched k x

  -- The blobs of the first map stay filled, the index is the same, and new blobs are vouched for.
  pub record Extends (u v : View) : Type 0 where
    pub stays : (k : Text) → Present u k → Present v k
    pub same_index : (k : Text) → v images k ≡ u images k
    pub vouched : AllVouched u → AllVouched v

  pub Extends-refl : (v : View) → Extends v v
  Extends-refl v = record { stays = λ _ p. p; same_index = λ _. refl; vouched = λ p. p }

  pub Extends-trans : {u v w : View} → Extends u v → Extends v w → Extends u w
  Extends-trans a b = record {
    stays = λ k p. b.stays k (a.stays k p);
    same_index = λ k. b.same_index k ∙ a.same_index k;
    vouched = λ p. b.vouched (a.vouched p);
  }

  pub put-Present : (v : View) (k x : Text) → Present (update v blobs k (some x)) k
  put-Present v k x = present_some _ x (update_self v blobs k (some x))

  put_stays :
      (v : View) (k x : Text) (k' : Text) → Present v k' → Present (update v blobs k (some x)) k'
  unfolding update
  put_stays v k x k' p = ground arith

  put-Vouched :
      (v : View) (k x : Text) → Vouched k x → AllVouched v → AllVouched (update v blobs k (some x))
  put-Vouched v k x new old k' y p = elim (Bool-cases (text_eq k k')) [
    | inl q ↦ same_key ((text_eq_iff k k').0 q)
    | inr q ↦ old k' y (sym (update_ne_key v blobs k (some x) blobs k' q) ∙ p)
  ]
    where
      same_bytes : update v blobs k (some x) blobs k ≡ some y → x ≡ y
      same_bytes r = cc (update_self v blobs k (some x), r)

      same_key : k ≡ k' → Vouched k' y
      same_key q =
          subst (λ j. Vouched j y) q
            (subst (λ z. Vouched k z)
              (same_bytes (subst (λ j. update v blobs k (some x) blobs j ≡ some y) (sym q) p)) new)

  pub put-Extends : (v : View) (k x : Text) → Vouched k x → Extends v (update v blobs k (some x))
  unfolding text_eq
  put-Extends v k x new = record {
    stays = put_stays v k x;
    same_index = λ k'. update_ne_tree v blobs k (some x) images k' refl;
    vouched = put-Vouched v k x new;
  }

  -- A content with the hash of the digest is a manifest whose blobs are all there.
  pub record Complete (v : View) (digest : Text) : Type 0 where
    pub manifest : Manifest
    pub says : Says h h.manifest_of digest manifest
    pub present : Present v digest
    pub config_present : Present v manifest.config.digest
    pub layers_present : All (λ (d : Descriptor). Present v d.digest) manifest.layers

  -- The invariant of the cache.
  pub record IsCache (v : View) : Type 0 where
    pub vouched : AllVouched v
    pub indexed :
        (k x : Text)
        → v images k ≡ some x
        → (digest : Text) × (text_codec.serialize digest ≡ ok x) × Complete v digest

  -- A complete image stays complete while blobs stay filled.
  pub Complete-mono :
      (u v : View) (digest : Text)
      → ((k : Text) → Present u k → Present v k)
      → Complete u digest
      → Complete v digest
  Complete-mono u v digest f c = record {
    manifest = c.manifest;
    says = c.says;
    present = f digest c.present;
    config_present = f _ c.config_present;
    layers_present = All-mono c.manifest.layers c.layers_present;
  }
    where
      All-mono :
          (ds : List Descriptor)
          → All (λ (d : Descriptor). Present u d.digest) ds
          → All (λ (d : Descriptor). Present v d.digest) ds
      All-mono [] p = tt
      All-mono (d ∷ ds) p = (f d.digest p.0, All-mono ds p.1)

  -- An extension of a cache is a cache.
  pub Extends-IsCache : (u v : View) → Extends u v → IsCache u → IsCache v
  Extends-IsCache u v g c = record {
    vouched = g.vouched c.vouched;
    indexed = λ k x p.
        let (digest, s, whole) = c.indexed k x (sym (g.same_index k) ∙ p) in
        (digest, s, Complete-mono u v digest g.stays whole);
  }

  -- An image that is complete may be entered in the index.
  module _ (v : View) (key digest bytes : Text)
      (written : text_codec.serialize digest ≡ ok bytes) where
    abbrev pub entered : View
    entered = update v images key (some bytes)

    same_blob : (k : Text) → entered blobs k ≡ v blobs k
    unfolding text_eq
    same_blob k = update_ne_tree v images key (some bytes) blobs k refl

    pub entered_stays : (k : Text) → Present v k → Present entered k
    entered_stays k p = ap is_some (same_blob k) ∙ p

    pub entered-IsCache : Complete v digest → IsCache v → IsCache entered
    entered-IsCache whole c = record {
      vouched = λ k x p. c.vouched k x (sym (same_blob k) ∙ p);
      indexed = λ k x p. elim (Bool-cases (text_eq key k)) [
        | inl q ↦ (
          digest,
          written ∙ ap ok (same_bytes x ((text_eq_iff key k).0 q) p),
          Complete-mono v entered digest entered_stays whole,
        )
        | inr q ↦
            let (d, s, other) =
              c.indexed k x (sym (update_ne_key v images key (some bytes) images k q) ∙ p) in
            (d, s, Complete-mono v entered d entered_stays other)
      ];
    }
      where
        same_bytes : {k : Text} (x : Text) → key ≡ k → entered images k ≡ some x → bytes ≡ x
        same_bytes x q p = cc (update_self v images key (some bytes), p, q)
