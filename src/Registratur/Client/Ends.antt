-- ===== src/Registratur/Client/Ends.antt =====
-- registratur/src/v2/client.rs: the pulls fail only by errors of the program, if the calls do.
use knast.Base.{ℕ, Text, Option, none, some, List, [], ◌∷◌, ◌++◌, ◌≢◌, All, arith}
use knast.Base.Exec.{
  Exec, exhausted, Result, ok, err, ok_or, panic, Triple, Triple-bind, Triple-raise, ◌>>=◌,
}
use knast.Base.Honest.{Honest, Honest-lift, Honest-pure, Honest-bind}
use knast.Base.Nom.{Nom}
use knast.Registratur.Http.{Http, Method, method_get, Request, Response}
use knast.Registratur.WwwAuthenticate.{WwwAuthenticate}
use knast.Registratur.WwwAuthenticate
use knast.Registratur.Client.{
  fold_body, from_seven, checked, whole, json, read, request_token, authenticate, request,
  pull_layer, pull_config, hash_mismatch, silent, accept, layer_media_type, config_media_type,
}

-- No chunk of the body is the end of the model's fuel.
abbrev pub HonestBody : List (Result Text) → Type 0
HonestBody body = All (λ (chunk : Result Text). chunk ≢ err exhausted) body

-- The calls fail only by errors of the program.
pub record HonestHttp (h : Http) : Type 0 where
  pub parse_url_ends : (url : Text) → h.parse_url url ≢ err exhausted
  pub join_url_ends : (base path : Text) → h.join_url base path ≢ err exhausted
  pub send_ends :
      (r : Request)
      → Triple
          (λ _. Unit)
          (h.send r)
          (λ response _. HonestBody response.body)
          (λ x _. x ≢ exhausted)
  pub to_str_ends : (header : Text) → h.to_str header ≢ err exhausted
  pub token_ends : (body : Text) → h.token_of body ≢ err exhausted
  pub config_of_ends : (body : Text) → h.config_of body ≢ err exhausted

module _ (h : Http) (F : HonestHttp h) where
  open h use {Net}

  fold_ends :
      (f : ℕ → Net → Net) (agg : Text) (body : List (Result Text))
      → HonestBody body
      → Honest (fold_body f agg body)
  unfolding fold_body
  fold_ends f agg [] p = Honest-pure agg
  fold_ends f agg (err x ∷ body) p = Triple-raise x (λ _ _ e. p.0 (cc e))
  fold_ends f agg (ok bytes ∷ body) p =
      let ih : Honest (fold_body f (agg ++ bytes) body) = fold_ends f (agg ++ bytes) body p.1 in
      record { at = λ s _. ih.at _ tt }

  whole_ends :
      (agg : Text) (body : List (Result Text)) → HonestBody body → whole agg body ≢ err exhausted
  unfolding whole
  whole_ends agg [] p e = absurd (ground arith)
  whole_ends agg (err x ∷ body) p e = p.0 e
  whole_ends agg (ok bytes ∷ body) p e = whole_ends (agg ++ bytes) body p.1 e

  seven_ends : (digest : Text) → from_seven digest ≢ err exhausted
  unfolding from_seven
  seven_ends digest e = absurd (ground arith)

  checked_ends :
      (result digest : Text) (r : Result Text)
      → r ≢ err exhausted
      → checked h result digest r ≢ err exhausted
  unfolding checked hash_mismatch
  checked_ends result digest (err x) p e = p e
  checked_ends result digest (ok expected) p e = absurd (ground arith)

  read_ends :
      (response : Response) (f : ℕ → Net → Net) (digest : Text)
      → HonestBody response.body
      → Honest (read h response f digest)
  unfolding read
  read_ends response f digest p =
      Honest-bind _ _ (fold_ends f [] response.body p)
        λ result. Honest-lift _ (checked_ends result digest _ (seven_ends digest))

  json_ends :
      (response : Response) → HonestBody response.body → json h h.token_of response ≢ err exhausted
  unfolding json
  json_ends response p =
      elim (whole [] response.body)
          as (λ r.
            r ≢ err exhausted
            → (elim r [ ok bytes ↦ h.token_of bytes | err x ↦ err x ]) ≢ err exhausted) [
              | ok bytes ↦ λ _. F.token_ends bytes
              | err x ↦ λ q. q
            ]
        (whole_ends [] response.body p)

  -- A response whose body is honest is at hand.
  with_body :
      {A : Type 0} (r : Request) (f : Response → Exec Net A)
      → ((response : Response) → HonestBody response.body → Honest (f response))
      → Honest (h.send r >>= f)
  with_body r f t =
      Triple-bind _ _ (F.send_ends r) λ response. record { at = λ s p. (t response p).at s tt }

  ok_or_ends : (o : Option Text) → ok_or panic o ≢ err exhausted
  ok_or_ends none e = absurd (ground arith)
  ok_or_ends (some a) e = absurd (ground arith)

  module _ (n : Nom) (registry_url : Text) where
    token_text_ends :
        (challenge : WwwAuthenticate) → Honest (request_token h n registry_url challenge)
    unfolding request_token
    token_text_ends challenge = with_body _ _ (λ response p. Honest-lift _ (json_ends response p))

    authenticate_ends : (url : Text) → Honest (authenticate h n registry_url url)
    unfolding authenticate
    authenticate_ends url = with_body _ _ (λ response _.
        Honest-bind _ _ (Honest-lift _ (ok_or_ends _)) λ header.
          Honest-bind _ _ (Honest-lift _ (F.to_str_ends header)) λ text.
            Honest-bind _ _ (Honest-lift _ (WwwAuthenticate.parse_ends n text))
              λ challenge. token_text_ends challenge)

    request_ends :
        (m : Method) (path : Text) (g : Request → Request)
        → Triple
            (λ _. Unit)
            (request h n registry_url m path g)
            (λ response _. HonestBody response.body)
            (λ x _. x ≢ exhausted)
    unfolding request
    request_ends m path g = Triple-bind _ _ (Honest-lift _ (F.parse_url_ends registry_url)) λ base.
        Triple-bind _ _ (Honest-lift _ (F.join_url_ends base path))
          λ url. Triple-bind _ _ (authenticate_ends url) λ token. F.send_ends _

    pub pull_layer_ends :
        (name digest : Text) (f : ℕ → Net → Net)
        → Honest (pull_layer h n registry_url name digest f)
    unfolding pull_layer
    pull_layer_ends name digest f =
        Triple-bind _ _ (request_ends method_get _ (accept layer_media_type))
          λ response. record { at = λ s p. (read_ends response f digest p).at s tt }

    pub pull_config_ends : (name digest : Text) → Honest (pull_config h n registry_url name digest)
    unfolding pull_config
    pull_config_ends name digest =
        Triple-bind _ _ (request_ends method_get _ (accept config_media_type)) λ response. record {
          at = λ s p.
              (Honest-bind _ _ (read_ends response silent digest p)
                  (λ result. Honest-lift _ (F.config_of_ends result))).at
                s tt;
        }
