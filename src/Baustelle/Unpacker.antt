-- ===== src/Baustelle/Unpacker.antt =====
-- baustelle/src/unpacker.rs: the layers of a cached image are unpacked one upon the other, each
-- after its whiteouts.
pub mod Whiteouts
pub mod Leaves
use knast.Base.{
  ℕ, Text, codes, text_eq, Option, none, some, List, [], ◌∷◌, ◌++◌, Bool, true, false, map,
  if◌then◌else◌, starts_with,
}
use knast.Base.Exec.{Exec, Error, message, Result, ok, err, pure, raise, lift, ok_or, ◌>>=◌, ◌>>◌}
use knast.Base.Both.{Both, on_db, on_net}
use knast.Base.Paths.{split, join, slash, dot, dot_dot}
use knast.Storage
use knast.Storage.{StorageEngine, Codec}
use knast.Registratur.Domain.{Descriptor, Manifest}
use knast.Baustelle.Fetcher.{blobs}
use knast.Baustelle.Archive.{Libarchive}
use knast.Baustelle.Archive

-- The pieces of a path from its end on, without those that name nothing: empty ones and `.`, but
-- for a first `.`.
drop_blank : List Text → List Text
drop_blank [] = []
drop_blank (p ∷ []) = if text_eq p [] then [] else p ∷ []
drop_blank (p ∷ q ∷ ps) =
    let rest = drop_blank (q ∷ ps) in
    if text_eq p [] then rest else if text_eq p dot then rest else p ∷ q ∷ ps

reversed : List Text → List Text → List Text
reversed acc [] = acc
reversed acc (p ∷ ps) = reversed (p ∷ acc) ps

-- The pieces with the separator between them.
joined : List Text → Text
joined [] = []
joined (p ∷ []) = p
joined (p ∷ q ∷ ps) = p ++ slash ∷ joined (q ∷ ps)

-- What the pieces before the last one spell: of an absolute path, at least its root.
spelled : Bool → List Text → Text
unfolding joined
spelled absolute [] = if absolute then slash ∷ [] else []
spelled absolute (p ∷ ps) = joined (p ∷ ps)

-- `Path::file_name`: the last component, if it is a name.
unfoldable pub file_name : Text → Option Text
unfolding drop_blank reversed
file_name path = elim (drop_blank (reversed [] (split slash path))) [
  | [] ↦ none
  | p ∷ ps ↦ if text_eq p dot then none else if text_eq p dot_dot then none else some p
]

-- `Path::parent`: the path without its last component, if it has one.
unfoldable pub parent : Text → Option Text
unfolding drop_blank reversed spelled
parent path = elim (drop_blank (reversed [] (split slash path))) [
  | [] ↦ none
  | p ∷ ps ↦ some (spelled (starts_with (slash ∷ []) path) (reversed [] (drop_blank ps)))
]

abbrev pub opaque : Text
opaque = codes ".wh..wh..opq"

abbrev pub whiteout : Text
whiteout = codes ".wh."

no_filename : Error
no_filename = message (codes "Failed to extract filename from the archive header")

no_dirname : Error
no_dirname = message (codes "Failed to extract dirname from the archive header")

not_cached : Error
not_cached = message (codes "Image is not cached")

layer_not_cached : Error
layer_not_cached = message (codes "Layer is not cached. DB might be corrupted")

-- What `unpack_layer` ignores.
unfoldable pub ignored : Text → Bool
ignored entry = elim (file_name entry) [ none ↦ false | some name ↦ starts_with whiteout name ]

module _ (e : StorageEngine) (l : Libarchive) (manifest_codec : Codec Manifest)
    (bytes_codec : Codec Text) (destination : Text) where
  -- What the name of an entry asks for, given its directory and its path below the destination.
  pub remove_hidden : Text → Text → Text → Exec l.Files (Unit {0})
  remove_hidden filename parent entry =
      if text_eq filename opaque
      then l.remove_dir_all parent
      else if starts_with whiteout filename
      then l.remove_file entry
      else pure tt

  -- The closure of `handle_whiteouts`.
  pub handle_entry : Text → Exec l.Files (Unit {0})
  unfolding remove_hidden no_filename no_dirname
  handle_entry entry = do
    filename ← lift (ok_or no_filename (file_name entry))
    dirname ← lift (ok_or no_dirname (parent entry))
    remove_hidden filename (join destination dirname) (join destination entry)

  pub handle_whiteouts : Text → Exec l.Files (Unit {0})
  unfolding handle_entry
  handle_whiteouts content = Archive.for_entries l content handle_entry

  pub unpack_layer : Text → Exec (Both e.Db l.Files) (Unit {0})
  unfolding handle_whiteouts layer_not_cached ignored
  unpack_layer digest = do
    found ← on_db (Storage.get e bytes_codec blobs digest)
    layer ← lift (ok_or layer_not_cached found)
    on_net (handle_whiteouts layer)
    on_net (Archive.extract l layer destination ignored)

  unpack_layers : List Descriptor → Exec (Both e.Db l.Files) (Unit {0})
  unfolding unpack_layer
  unpack_layers [] = pure tt
  unpack_layers (d ∷ ds) = do unpack_layer d.digest; unpack_layers ds

  pub unpack : Text → Exec (Both e.Db l.Files) (Unit {0})
  unfolding unpack_layers not_cached
  unpack digest = do
    found ← on_db (Storage.get e manifest_codec blobs digest)
    manifest ← lift (ok_or not_cached found)
    unpack_layers manifest.layers
