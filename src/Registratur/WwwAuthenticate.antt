-- ===== src/Registratur/WwwAuthenticate.antt =====
-- registratur/src/v2/client/www_authenticate.rs: the challenge of a registry. Its three quoted
-- texts are told apart by their order.
use knast.Base.{
  ℕ, Text, codes, Option, none, some, Bool, not, ◌==◌, ◌∷◌, ◌++◌, ◌≡◌, refl, arith, ap, ◌∙◌,
}
use mathlib.Core.Logic.{◌≢◌}
use knast.Base.Exec.{Error, message, exhausted, Result, ok, err}
use knast.Base.Nom.{Parser, Nom, NomLaws, Passes}

pub record WwwAuthenticate : Type 0 where
  pub realm : Text
  pub service : Text
  pub scope : Text

abbrev pub quote : ℕ
quote = b'"'

abbrev pub is_unquoted : ℕ → Bool
is_unquoted c = not (c == quote)

pub header_error : Error
header_error = message (codes "Failed to parse WWW-Authenticate header")

pub challenge_of : Option ((Text × Text × Text) × Text) → Result WwwAuthenticate
unfolding header_error
challenge_of none = err header_error
challenge_of (some ((realm, service, scope), rest)) =
    ok (record { realm = realm; service = service; scope = scope })

module _ (n : Nom) where
  pub string : Parser Text
  string = n.take_while is_unquoted

  pub term : Parser Text
  unfolding string
  term = n.delimited (n.preceded string (n.char quote)) string (n.char quote)

  pub parse : Text → Result WwwAuthenticate
  unfolding term challenge_of
  parse input = challenge_of (n.tuple term term term input)

-- A text, a quoted text and what follows.
abbrev pub quoted : Text → Text → Text → Text
quoted before word rest = before ++ (quote ∷ (word ++ (quote ∷ rest)))

-- A text without a quote.
abbrev pub Unquoted : Text → Type 0
Unquoted s = Passes is_unquoted s

-- A header that does not parse is an error of the program.
challenge_ends : (o : Option ((Text × Text × Text) × Text)) → challenge_of o ≢ Result.err exhausted
unfolding challenge_of header_error
challenge_ends none e = absurd (ground arith)
challenge_ends (some ((a, b, c), rest)) e = absurd (ground arith)

pub parse_ends : (n : Nom) (input : Text) → parse n input ≢ Result.err exhausted
unfolding parse
parse_ends n input = challenge_ends (n.tuple (term n) (term n) (term n) input)

module _ (n : Nom) (L : NomLaws n) where
  term_lem :
      (before word rest : Text)
      → Unquoted before
      → Unquoted word
      → term n (quoted before word rest) ≡ some (word, rest)
  unfolding term string
  term_lem before word rest hb hw =
      L.delimited_lem _ _ _ _ quote _ word _ quote rest
        (L.preceded_lem _ _ _ before _ (L.take_while_lem is_unquoted before quote _ hb refl)
          ∙ L.char_lem quote _)
        (L.take_while_lem is_unquoted word quote rest hw refl) (L.char_lem quote rest)

  -- The texts between the first three pairs of quotes are the realm, the service and the scope,
  -- whatever stands before each.
  pub parse-quoted :
      (a realm b service c scope rest : Text)
      → Unquoted a
      → Unquoted realm
      → Unquoted b
      → Unquoted service
      → Unquoted c
      → Unquoted scope
      → parse n (quoted a realm (quoted b service (quoted c scope rest)))
        ≡ ok (record { realm = realm; service = service; scope = scope })
  unfolding parse challenge_of
  parse-quoted a realm b service c scope rest ha hr hb hs hc ho = ap challenge_of (
      L.tuple_lem _ _ _ _ realm _ service _ scope rest (term_lem a realm _ ha hr)
        (term_lem b service _ hb hs) (term_lem c scope rest hc ho))
