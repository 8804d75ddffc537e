-- ===== src/Tests/Images.antt =====
-- Fetching an image from the registry of the tests into an empty SQLite file.
use knast.Base.{ℕ, Text, codes, Option, none, some, false, List, [], ◌∷◌, ◌≢◌, arith}
use knast.Base.Exec.{exhausted, ok, err, Triple}
use knast.Base.Both.{Both}
use knast.Storage.{StorageEngine}
use knast.Storage.Sqlite.{engine}
use knast.Storage.Sqlite.Contract.{contract}
use knast.Storage.Sqlite.Tables.{Sees}
use knast.Registratur.Domain.{Config, Container, HistoryItem}
use knast.Baustelle.Fetcher.{LayerDownloadStatus, cache_key, fetch}
use knast.Baustelle.Fetcher.Cache.{IsCache}
use knast.Baustelle.Fetcher.Images.{Kept, Fetched, fetch_Triple}
use knast.Baustelle.Fetcher.Ends.{AllHonest}
use knast.Registratur.Client.Ends.{HonestHttp}
use knast.Tests.World.{empty_view, call}
use knast.Tests.Registry.{nom, registry}
use knast.Tests.Codecs.{
  text_codec, text_laws, manifest_codec, manifest_laws, config_codec, config_laws, encode_config,
}

-- The subscriber does not answer.
abbrev deaf : LayerDownloadStatus → ℕ → ℕ
deaf status n = n

abbrev pub linux : List Text
linux = codes "linux" ∷ []

abbrev State : Type 0
State = Both engine.Db ℕ

empty-IsCache : IsCache registry text_codec text_codec manifest_codec config_codec empty_view
empty-IsCache = record {
  vouched = λ k x p. absurd (ground arith);
  indexed = λ k x p. absurd (ground arith);
}

fetch_example :
    Triple
      (λ (w : State). Sees empty_view w.db)
      (fetch engine registry text_codec text_codec manifest_codec config_codec nom
        (codes "https://registry")
        (codes "amd64")
        linux
        deaf
        (0 ∷ 0 ∷ [])
        (codes "nginx")
        (codes "latest"))
      (λ digest.
        Fetched engine contract registry text_codec text_laws text_codec text_laws manifest_codec
          manifest_laws config_codec config_laws nom
          (codes "https://registry")
          (codes "amd64")
          linux
          deaf
          (cache_key (codes "nginx") (codes "latest"))
          digest)
      (λ _.
        Kept engine contract registry text_codec text_laws text_codec text_laws manifest_codec
          manifest_laws config_codec config_laws nom
          (codes "https://registry")
          (codes "amd64")
          linux
          deaf)
fetch_example =
    fetch_Triple engine contract registry text_codec text_laws text_codec text_laws manifest_codec
      manifest_laws config_codec config_laws nom (codes "https://registry") (codes "amd64") linux
      deaf empty_view (0 ∷ 0 ∷ []) (codes "nginx") (codes "latest") empty-IsCache

-- An engine that keeps nothing and always answers.
abbrev forgetful : StorageEngine
forgetful = record {
  Db = ℕ;
  get = λ _ _. call (λ n. n) none;
  put = λ _ _ _. call (λ n. n) tt;
  compare_and_swap = λ _ _ _ _. call (λ n. n) tt;
  remove = λ _ _. call (λ n. n) tt;
  exists = λ _ _. call (λ n. n) false;
  flush = call (λ n. n) 0;
}

no-end : (c : Config) → config_codec.serialize c ≢ err exhausted
no-end c = not_end c.created c.author c.os c.config c.rootfs.kind c.rootfs.diff_ids c.history
  where
    not_end :
        (t : Option ℕ) (u : Option Text) (o : Text) (d : Option Container) (k : Text)
        (ds : List Text) (h : List HistoryItem)
        → encode_config t u c.architecture o d k ds h ≢ err exhausted
    not_end (some t) u o d k ds h e = absurd (ground arith)
    not_end none (some u) o d k ds h e = absurd (ground arith)
    not_end none none (x ∷ o) d k ds h e = absurd (ground arith)
    not_end none none [] (some d) k ds h e = absurd (ground arith)
    not_end none none [] none (x ∷ k) ds h e = absurd (ground arith)
    not_end none none [] none [] (x ∷ ds) h e = absurd (ground arith)
    not_end none none [] none [] [] (x ∷ h) e = absurd (ground arith)
    not_end none none [] none [] [] [] e = absurd (ground arith)

ok-ne-exhausted : {A : Type 0} (a : A) → ok a ≢ err exhausted
ok-ne-exhausted a e = absurd (ground arith)

registry-HonestHttp : HonestHttp registry
registry-HonestHttp = record {
  parse_url_ends = λ url. ok-ne-exhausted url;
  join_url_ends = λ base path. ok-ne-exhausted _;
  send_ends =
      λ r. record { at = λ s _. (ok-ne-exhausted (codes "a"), (ok-ne-exhausted (codes "bc"), tt)) };
  to_str_ends = λ header. ok-ne-exhausted header;
  token_ends = λ body. ok-ne-exhausted body;
  config_of_ends = λ body. ok-ne-exhausted _;
}

all_honest :
    AllHonest forgetful registry text_codec text_codec manifest_codec config_codec nom
      (codes "https://registry")
      (codes "amd64")
      linux
      deaf
all_honest = record {
  exists_ends = λ t k. record { at = λ s _. tt };
  put_ends = λ t k x. record { at = λ s _. tt };
  bytes_end = λ text. ok-ne-exhausted text;
  config_ends = no-end;
  http_ends = registry-HonestHttp;
}
