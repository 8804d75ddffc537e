-- ===== src/Registratur/Http.antt =====
-- What the client calls and does not implement: the crates reqwest, url, ring, hex and serde_json.
-- The state is that of everything outside, a subscriber to progress included.
use knast.Base.{Text, Option, List}
use knast.Base.Exec.{Exec, Result}
use knast.Registratur.Domain.{Manifest, ManifestIndex, Config}

pub data Method : Type 0 where
  method_get : Method
  method_head : Method

-- reqwest::RequestBuilder: what its methods set. A URL that is no URL is found out by `send`.
pub record Request : Type 0 where
  pub method : Method
  pub url : Text
  pub headers : List (Text × Text)
  pub query : List (Text × Text)
  pub bearer_auth : Option Text

-- A body arrives in chunks; one that cannot be read ends it.
pub record Response : Type 0 where
  pub header : Text → Option Text
  pub body : List (Result Text)

pub record Http : Type 1 where
  pub Net : Type 0
  pub parse_url : Text → Result Text
  pub join_url : Text → Text → Result Text
  pub send : Request → Exec Net Response
  pub to_str : Text → Result Text
  -- The 32 bytes of a SHA-256, and lowercase hexadecimal digits.
  pub sha256 : Text → Text
  pub hex : Text → Text
  pub token_of : Text → Result Text
  pub index_of : Text → Result ManifestIndex
  pub manifest_of : Text → Result Manifest
  pub config_of : Text → Result Config
