-- ===== src/Tests/Registry.antt =====
-- Parsers as nom documents them, and a registry that answers every request in the same way.
use knast.Base.{
  ℕ, suc, Text, codes, Option, none, some, Bool, true, false, [], ◌∷◌, ◌++◌, ◌≡◌, refl,
  if◌then◌else◌, ◌==◌, arith, Bool-cases, inl, inr,
}
use knast.Base.Exec.{ok, Triple}
use knast.Base.Nom.{Parser, Nom, NomLaws, Passes}
use knast.Registratur.Domain.{Manifest, Config, ManifestIndex, Descriptor}
use knast.Registratur.Http.{Http, Response}
use knast.Registratur.WwwAuthenticate.{is_unquoted, parse, parse-quoted, quoted}
use knast.Registratur.Client.{read, silent}
use knast.Registratur.Client.Digest.{Matches, read_Triple}

abbrev pub span : (ℕ → Bool) → Text → Text × Text
span p [] = ([], [])
span p (c ∷ s) = let (a, b) = span p s in if p c then (c ∷ a, b) else ([], c ∷ s)

span_lem :
    (p : ℕ → Bool) (word : Text) (c : ℕ) (rest : Text)
    → Passes p word
    → p c ≡ false
    → span p (word ++ c ∷ rest) ≡ (word, c ∷ rest)
span_lem p [] c rest h k = rw k refl
span_lem p (x ∷ word) c rest h k = rw (h.0, span_lem p word c rest h.1 k) refl

span_end : (p : ℕ → Bool) (word : Text) → Passes p word → span p word ≡ (word, [])
span_end p [] h = refl
span_end p (x ∷ word) h = rw (h.0, span_end p word h.1) refl

abbrev char : ℕ → Parser ℕ
char c [] = none
char c (x ∷ s) = if x == c then some (c, s) else none

-- The second of two parsers in turn, and the middle one of three.
abbrev and_then : {A B : Type 0} → Option (A × Text) → (A → Parser B) → Option (B × Text)
and_then none f = none
and_then (some (a, s)) f = f a s

abbrev pub nom : Nom
nom = record {
  take_while = λ p s. some (span p s);
  char = char;
  preceded = λ p q s. and_then (p s) (λ _. q);
  delimited = λ p q r s.
      and_then (p s) (λ _ t. and_then (q t) (λ b u. and_then (r u) (λ _ v. some (b, v))));
  tuple = λ p q r s.
      and_then (p s) (λ a t. and_then (q t) (λ b u. and_then (r u) (λ c v. some ((a, b, c), v))));
}

pub nom_laws : NomLaws nom
nom_laws = record {
  take_while_lem = λ p word c rest h k. rw (span_lem p word c rest h k) refl;
  take_while_end = λ p word h. rw (span_end p word h) refl;
  char_lem = λ c rest. ground arith;
  char_end = λ c. refl;
  preceded_lem = λ p q s a t e. rw e refl;
  delimited_lem = λ p q r s a t b u c v e f g. rw e (rw f (rw g refl));
  delimited_none = λ p q r s e. rw e refl;
  tuple_lem = λ p q r s a t b u c v e f g. rw e (rw f (rw g refl));
}

abbrev all_pass : (ℕ → Bool) → Text → Bool
all_pass p [] = true
all_pass p (c ∷ s) = if p c then all_pass p s else false

passes : (p : ℕ → Bool) (s : Text) → all_pass p s ≡ true → Passes p s
passes p [] h = tt
passes p (c ∷ s) h = elim (Bool-cases (p c)) [
  | inl q ↦ (q, passes p s (ground arith))
  | inr q ↦ absurd (ground arith)
]

abbrev challenge : Text
challenge =
    quoted (codes "Bearer realm=") (codes "https://auth/token")
      (quoted (codes ",service=") (codes "registry") (quoted (codes ",scope=") (codes "pull") []))

parse-quoted_example :
    parse nom challenge
    ≡ ok (record {
      realm = codes "https://auth/token";
      service = codes "registry";
      scope = codes "pull";
    })
parse-quoted_example =
    parse-quoted nom nom_laws (codes "Bearer realm=") (codes "https://auth/token")
      (codes ",service=") (codes "registry") (codes ",scope=") (codes "pull") []
      (passes is_unquoted (codes "Bearer realm=") refl)
      (passes is_unquoted (codes "https://auth/token") refl)
      (passes is_unquoted (codes ",service=") refl) (passes is_unquoted (codes "registry") refl)
      (passes is_unquoted (codes ",scope=") refl) (passes is_unquoted (codes "pull") refl)

abbrev pub document : Descriptor
document = record { media_type = []; digest = codes "sha256:abc"; size = 0; urls = none }

abbrev pub manifest : Manifest
manifest = record {
  schema_version = 2;
  media_type = none;
  config = document;
  layers = [];
  annotations = none;
}

abbrev pub config : Config
config = record {
  created = none;
  author = none;
  architecture = codes "amd64";
  os = [];
  config = none;
  rootfs = record { kind = []; diff_ids = [] };
  history = [];
}

abbrev pub index : ManifestIndex
index = record {
  schema_version = 2;
  manifests =
      record {
        descriptor = document;
        platform = some (record {
          architecture = codes "amd64";
          os = codes "linux";
          os_version = none;
          os_features = none;
          variant = none;
        });
      }
      ∷ [];
  annotations = none;
}

abbrev answer : Response
answer = record { header = λ _. some challenge; body = ok (codes "a") ∷ ok (codes "bc") ∷ [] }

-- A hash that is the content itself. The state is the number of requests.
abbrev pub registry : Http
registry = record {
  Net = ℕ;
  parse_url = λ url. ok url;
  join_url = λ base path. ok (base ++ path);
  send = λ _ n. (ok answer, suc n);
  to_str = λ header. ok header;
  sha256 = λ content. content;
  hex = λ hash. hash;
  token_of = λ body. ok body;
  index_of = λ _. ok index;
  manifest_of = λ _. ok manifest;
  config_of = λ _. ok config;
}

read_example :
    Triple
      (λ _. Unit)
      (read registry answer silent (codes "sha256:abc"))
      (λ content _. Matches registry (codes "sha256:abc") content)
      (λ _ _. Unit)
read_example = read_Triple registry answer silent (codes "sha256:abc")
