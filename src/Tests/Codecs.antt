-- ===== src/Tests/Codecs.antt =====
-- Formats of the documents of an image, for a few of them.
use knast.Base.{ℕ, zero, suc, Text, codes, Option, none, some, List, [], ◌∷◌, ◌≡◌, ap, sym, arith}
use knast.Base.Exec.{Error, message, Result, ok, err, ok-injective}
use knast.Storage.{Codec}
use knast.Storage.Typed.{CodecLaws}
use knast.Registratur.Domain.{Manifest, Config, Descriptor, Container, HistoryItem}

abbrev refused : Error
refused = message (codes "not in this format")

abbrev pub text_codec : Codec Text
text_codec = record { serialize = λ text. ok text; deserialize = λ bytes. ok bytes }

pub text_laws : CodecLaws text_codec
text_laws = record { deserialize-serialize = λ a bytes p. ap ok (sym (ok-injective a bytes p)) }

-- A manifest without layers, of a configuration that is named by its digest alone.
abbrev of_digest : Text → Manifest
of_digest digest = record {
  schema_version = 2;
  media_type = none;
  config = record { media_type = []; digest = digest; size = 0; urls = none };
  layers = [];
  annotations = none;
}

abbrev encode_manifest :
    ℕ
    → Option Text
    → Text
    → Text
    → ℕ
    → Option (List Text)
    → List Descriptor
    → Option (List (Text × Text))
    → Result Text
encode_manifest (suc (suc zero)) none [] digest zero none [] none = ok digest
encode_manifest _ _ _ _ _ _ _ _ = err refused

abbrev pub manifest_codec : Codec Manifest
manifest_codec = record {
  serialize = λ m.
      encode_manifest m.schema_version m.media_type m.config.media_type m.config.digest
        m.config.size m.config.urls m.layers m.annotations;
  deserialize = λ bytes. ok (of_digest bytes);
}

encode_manifest_lem :
    (v : ℕ) (t : Option Text) (k d : Text) (s : ℕ) (u : Option (List Text)) (l : List Descriptor)
    (a : Option (List (Text × Text))) (bytes : Text)
    → encode_manifest v t k d s u l a ≡ ok bytes
    → Result.ok (of_digest bytes)
      ≡ ok (record {
        schema_version = v;
        media_type = t;
        config = record { media_type = k; digest = d; size = s; urls = u };
        layers = l;
        annotations = a;
      })
encode_manifest_lem zero t k d s u l a bytes p = absurd (ground arith)
encode_manifest_lem (suc zero) t k d s u l a bytes p = absurd (ground arith)
encode_manifest_lem (suc (suc (suc v))) t k d s u l a bytes p = absurd (ground arith)
encode_manifest_lem (suc (suc zero)) (some t) k d s u l a bytes p = absurd (ground arith)
encode_manifest_lem (suc (suc zero)) none (x ∷ k) d s u l a bytes p = absurd (ground arith)
encode_manifest_lem (suc (suc zero)) none [] d (suc s) u l a bytes p = absurd (ground arith)
encode_manifest_lem (suc (suc zero)) none [] d zero (some u) l a bytes p = absurd (ground arith)
encode_manifest_lem (suc (suc zero)) none [] d zero none (x ∷ l) a bytes p = absurd (ground arith)
encode_manifest_lem (suc (suc zero)) none [] d zero none [] (some a) bytes p = absurd (ground arith)
encode_manifest_lem (suc (suc zero)) none [] d zero none [] none bytes p =
    ap (λ x. Result.ok (of_digest x)) (sym (ok-injective d bytes p))

pub manifest_laws : CodecLaws manifest_codec
manifest_laws = record {
  deserialize-serialize = λ m bytes p.
      encode_manifest_lem m.schema_version m.media_type m.config.media_type m.config.digest
        m.config.size m.config.urls m.layers m.annotations bytes p;
}

-- A configuration that says its architecture and nothing else.
abbrev of_architecture : Text → Config
of_architecture architecture = record {
  created = none;
  author = none;
  architecture = architecture;
  os = [];
  config = none;
  rootfs = record { kind = []; diff_ids = [] };
  history = [];
}

abbrev pub encode_config :
    Option ℕ
    → Option Text
    → Text
    → Text
    → Option Container
    → Text
    → List Text
    → List HistoryItem
    → Result Text
encode_config none none architecture [] none [] [] [] = ok architecture
encode_config _ _ _ _ _ _ _ _ = err refused

abbrev pub config_codec : Codec Config
config_codec = record {
  serialize = λ c.
      encode_config c.created c.author c.architecture c.os c.config c.rootfs.kind c.rootfs.diff_ids
        c.history;
  deserialize = λ bytes. ok (of_architecture bytes);
}

encode_config_lem :
    (t : Option ℕ) (u : Option Text) (a o : Text) (c : Option Container) (k : Text) (d : List Text)
    (h : List HistoryItem) (bytes : Text)
    → encode_config t u a o c k d h ≡ ok bytes
    → Result.ok (of_architecture bytes)
      ≡ ok (record {
        created = t;
        author = u;
        architecture = a;
        os = o;
        config = c;
        rootfs = record { kind = k; diff_ids = d };
        history = h;
      })
encode_config_lem (some t) u a o c k d h bytes p = absurd (ground arith)
encode_config_lem none (some u) a o c k d h bytes p = absurd (ground arith)
encode_config_lem none none a (x ∷ o) c k d h bytes p = absurd (ground arith)
encode_config_lem none none a [] (some c) k d h bytes p = absurd (ground arith)
encode_config_lem none none a [] none (x ∷ k) d h bytes p = absurd (ground arith)
encode_config_lem none none a [] none [] (x ∷ d) h bytes p = absurd (ground arith)
encode_config_lem none none a [] none [] [] (x ∷ h) bytes p = absurd (ground arith)
encode_config_lem none none a [] none [] [] [] bytes p =
    ap (λ x. Result.ok (of_architecture x)) (sym (ok-injective a bytes p))

pub config_laws : CodecLaws config_codec
config_laws = record {
  deserialize-serialize = λ c bytes p.
      encode_config_lem c.created c.author c.architecture c.os c.config c.rootfs.kind
        c.rootfs.diff_ids c.history bytes p;
}
