-- ===== src/Tests/Archives.antt =====
-- An archive with absolute names and one with a whiteout, and a file system that counts calls.
use knast.Base.{
  Text, codes, Option, none, some, Bool, true, false, List, [], ◌∷◌, ◌≡◌, refl, text_eq, subst,
  starts_with,
}
use knast.Base.Exec.{message, raise, Triple}
use knast.Base.Int.{pos}
use knast.Base.Paths.{split}
use knast.Storage.Sqlite.{engine}
use knast.Baustelle.Archive.{Libarchive, Header, extract}
use knast.Baustelle.Archive.Frames.{Frame, extract_absolute}
use knast.Baustelle.Unpacker.{ignored, handle_whiteouts, file_name, opaque}
use knast.Baustelle.Unpacker.Whiteouts.{whiteouts_Keep, MarkersOnly}
use knast.Tests.World.{call}
use knast.Tests.Codecs.{manifest_codec, text_codec}

abbrev named : Text → Header Text
named name = record { code = pos 0; entry = name; blocks = [] }

-- Entries are their names. The state is whether the file foo/baz is there. Markers are never files, so
-- that removing one fails.
abbrev archive_of : List (Header Text) → Libarchive
archive_of hs = record {
  Files = Bool;
  Entry = Text;
  pathname = λ entry. entry;
  with_pathname = λ _ name. name;
  headers = λ _. hs;
  read_new = call (λ s. s) true;
  read_open = λ _. call (λ s. s) (pos 0);
  write_new = call (λ s. s) true;
  set_standard_lookup = call (λ s. s) (pos 0);
  write_header = λ _. call (λ s. s) (pos 0);
  write_data_block = λ _ _. call (λ s. s) (pos 0);
  error_string = call (λ s. s) (message []);
  close = call (λ s. s) tt;
  remove_dir_all = λ _. call (λ _. false) tt;
  remove_file = λ name. raise (message (codes "No such file or directory"));
}

abbrev absolute : Libarchive
absolute = archive_of (named (codes "/etc/passwd") ∷ [])

extract_absolute_example :
    extract absolute [] (codes "/image") ignored ≡ extract absolute [] (codes "/other") ignored
unfolding starts_with
extract_absolute_example =
    extract_absolute absolute [] (codes "/image") (codes "/other") ignored (refl, tt)

-- The layer hides foo/baz.
abbrev hiding : Libarchive
hiding = archive_of (named (codes "foo/.wh.baz") ∷ [])

abbrev IsThere : Bool → Type 0
IsThere s = s ≡ true

frame : Frame hiding IsThere
frame = record {
  read_new_Keeps = record { at = λ s p. p };
  read_open_Keeps = λ _. record { at = λ s p. p };
  write_new_Keeps = record { at = λ s p. p };
  set_lookup_Keeps = record { at = λ s p. p };
  error_string_Keeps = record { at = λ s p. p };
  close_Keeps = record { at = λ s p. p };
}

markers : MarkersOnly engine hiding manifest_codec text_codec (codes "/image") IsThere
unfolding raise
markers entry name p q = record { at = λ s there. there }

abbrev or_nil : Option Text → Text
or_nil none = []
or_nil (some name) = name

baz-not-opaque :
    (name : Text) → file_name (codes "foo/.wh.baz") ≡ some name → text_eq name opaque ≡ false
unfolding file_name text_eq split
baz-not-opaque name p = subst (λ (o : Option Text). text_eq (or_nil o) opaque ≡ false) p refl

whiteouts_example :
    Triple IsThere
      (handle_whiteouts engine hiding manifest_codec text_codec (codes "/image") [])
      (λ _. IsThere)
      (λ _. IsThere)
whiteouts_example =
    whiteouts_Keep engine hiding manifest_codec text_codec (codes "/image") IsThere frame markers []
      (baz-not-opaque, tt)
