-- ===== src/Baustelle/Unpacker/Whiteouts.antt =====
-- baustelle/src/unpacker.rs: what whiteouts remove, and an image that is not there.
use knast.Base.{
  Text, text_eq, none, some, List, [], ◌∷◌, true, false, ◌≡◌, Bool-cases, inl, inr, All,
  starts_with, sym, subst, arith,
}
use knast.Base.Exec.{
  raise, lift, Triple, Triple-bind, Triple-pure, Triple-weaken, Triple-assume, Triple-bind-lift,
  ok_or-ok,
}
use knast.Base.Both.{Both, on_db, framed_Triple}
use knast.Base.Paths.{join}
use knast.Storage
use knast.Storage.{StorageEngine, Codec}
use knast.Storage.Contract.{View, Contract}
use knast.Storage.Typed.{CodecLaws, get_Triple, Stored}
use knast.Registratur.Domain.{Manifest}
use knast.Baustelle.Fetcher.{blobs}
use knast.Baustelle.Archive.{Libarchive, Header}
use knast.Baustelle.Archive.Frames.{Keeps, Frame, for_entries-Keeps}
use knast.Baustelle.Unpacker.{
  file_name, opaque, whiteout, remove_hidden, handle_entry, handle_whiteouts, unpack,
}

module _ (e : StorageEngine) (l : Libarchive) (manifest_codec : Codec Manifest)
    (bytes_codec : Codec Text) (destination : Text) where
  -- No entry of the archive is an opaque whiteout.
  abbrev pub NoOpaque : List (Header l.Entry) → Type 0
  NoOpaque hs =
      All
        (λ (hd : Header l.Entry).
          (name : Text) → file_name (l.pathname hd.entry) ≡ some name → text_eq name opaque ≡ false)
        hs

  -- Removing what is joined to the destination for an entry named like a whiteout keeps a property.
  abbrev pub MarkersOnly : (l.Files → Type 0) → Type 0
  MarkersOnly Inv =
      (entry name : Text)
      → file_name entry ≡ some name
      → starts_with whiteout name ≡ true
      → Keeps l Inv (l.remove_file (join destination entry))

  module _ (Inv : l.Files → Type 0) (F : Frame l Inv) (M : MarkersOnly Inv) where
    remove_Keeps :
        (name dirname entry : Text)
        → file_name entry ≡ some name
        → text_eq name opaque ≡ false
        → Keeps l Inv (
            remove_hidden e l manifest_codec bytes_codec destination name dirname
              (join destination entry))
    unfolding remove_hidden
    remove_Keeps name dirname entry p n = elim (Bool-cases (starts_with whiteout name)) [
      | inl q ↦ rw (n, q) (M entry name p q)
      | inr q ↦ rw (n, q) (Triple-pure tt (λ _ s. s))
    ]

    entry_Keeps :
        (entry : Text)
        → ((name : Text) → file_name entry ≡ some name → text_eq name opaque ≡ false)
        → Keeps l Inv (handle_entry e l manifest_codec bytes_codec destination entry)
    unfolding handle_entry
    entry_Keeps entry plain =
        Triple-bind-lift _ _
          (λ name p.
            let found : file_name entry ≡ some name = ok_or-ok _ (file_name entry) name p in
            Triple-bind-lift _ _ (λ dirname _. remove_Keeps name _ entry found (plain name found))
              (λ _ _ _ s. s))
          (λ _ _ _ s. s)

    entries_Keep :
        (hs : List (Header l.Entry))
        → NoOpaque hs
        → All
            (λ hd.
              Keeps l Inv
                (handle_entry e l manifest_codec bytes_codec destination (l.pathname hd.entry)))
            hs
    entries_Keep [] h = tt
    entries_Keep (hd ∷ hs) h = (entry_Keeps (l.pathname hd.entry) h.0, entries_Keep hs h.1)

    -- Let a property of the files be kept by opening, walking through and closing an archive,
    -- and by removing, for any entry that is named like a whiteout, the path that is the entry
    -- joined to the destination, which for an absolute entry is the entry itself. The whiteouts
    -- of a layer keep it too, if none is opaque.
    pub whiteouts_Keep :
        (content : Text)
        → NoOpaque (l.headers content)
        → Keeps l Inv (handle_whiteouts e l manifest_codec bytes_codec destination content)
    unfolding handle_whiteouts
    whiteouts_Keep content h =
        for_entries-Keeps l Inv F content _ (entries_Keep (l.headers content) h)

  -- Unpacking an image whose manifest is not in the cache fails, and changes neither the storage
  -- nor any file.
  unpack_missing :
      (C : Contract e) (L : CodecLaws manifest_codec) (v : View) (o : l.Files) (digest : Text)
      → v blobs digest ≡ none
      → Triple
          (λ (w : Both e.Db l.Files). C.Sees v w.db × (w.net ≡ o))
          (unpack e l manifest_codec bytes_codec destination digest)
          (λ _ _. ⊥)
          (λ _ w. C.Sees v w.db × (w.net ≡ o))
  unfolding unpack lift raise
  unpack_missing C L v o digest p = Triple-bind _ _ looked_up λ found.
      Triple-assume λ q. rw q (Triple-bind-lift _ _ (λ m r. absurd (ground arith)) (λ _ _ _ s. s))
    where
      looked_up :
          Triple
            (λ (w : Both e.Db l.Files). C.Sees v w.db × (w.net ≡ o))
            (on_db (Storage.get e manifest_codec blobs digest))
            (λ r w. (r ≡ none) × (C.Sees v w.db × (w.net ≡ o)))
            (λ _ w. C.Sees v w.db × (w.net ≡ o))
      looked_up =
          Triple-weaken
            (framed_Triple o _ (
              get_Triple e C manifest_codec L v blobs digest none
                (subst (λ y. Stored manifest_codec none y) (sym p) tt)))
            (λ _ t. t) (λ _ _ t. (t.0.0, (t.0.1, t.1))) (λ _ _ t. t)
