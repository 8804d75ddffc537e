-- ===== src/Baustelle/Archive/Frames.antt =====
-- baustelle/src/archive/resource.rs: what walking through an archive keeps, and where its entries
-- go.
use knast.Base.{
  Text, List, [], ◌∷◌, Bool, true, false, ◌≡◌, refl, All, starts_with, sym, ap, ◌∙◌, if◌then◌else◌,
}
use knast.Base.Exec.{
  Exec, pure, attempt, Triple, Triple-bind, Triple-pure, Triple-raise, Triple-lift, Triple-attempt,
  ◌>>=◌,
}
use knast.Base.Int.{ℤ}
use knast.Base.Paths.{join, slash}
use knast.Baustelle.Archive.{
  Libarchive, Header, Status, archive_ok, archive_eof, archive_error, status_of, report_error,
  expect_ok, expect_pointer, init_reader, init_writer, new, map_entries, closing, for_entries,
  extract, extract_to, extract_entry, set_pathname,
}

module _ (l : Libarchive) where
  -- An action keeps a property of the files, whether it succeeds or fails.
  abbrev pub Keeps : {A : Type 0} → (l.Files → Type 0) → Exec l.Files A → Type 0
  Keeps Inv m = Triple Inv m (λ _. Inv) (λ _. Inv)

  -- What opening, walking through and closing an archive keep.
  pub record Frame (Inv : l.Files → Type 0) : Type 0 where
    pub read_new_Keeps : Keeps Inv l.read_new
    pub read_open_Keeps : (content : Text) → Keeps Inv (l.read_open content)
    pub write_new_Keeps : Keeps Inv l.write_new
    pub set_lookup_Keeps : Keeps Inv l.set_standard_lookup
    pub error_string_Keeps : Keeps Inv l.error_string
    pub close_Keeps : Keeps Inv l.close

  module _ (Inv : l.Files → Type 0) (F : Frame Inv) where
    report-Keeps : {A : Type 0} → Keeps {A = A} Inv (report_error l)
    unfolding report_error
    report-Keeps = Triple-bind _ _ F.error_string_Keeps λ x. Triple-raise x (λ _ p. p)

    status_Keeps :
        (status : Status)
        → Keeps {A = Unit {0}} Inv (elim status [ archive_ok ↦ pure tt | _ ↦ report_error l ])
    status_Keeps archive_ok = Triple-pure tt (λ _ p. p)
    status_Keeps archive_eof = report-Keeps
    status_Keeps archive_error = report-Keeps

    expect_Keeps : (code : ℤ) → Keeps Inv (expect_ok l code)
    unfolding expect_ok
    expect_Keeps code = status_Keeps (status_of code)

    pointer_Keeps : (pointer : Bool) → Keeps Inv (expect_pointer l pointer)
    unfolding expect_pointer
    pointer_Keeps true = Triple-pure tt (λ _ p. p)
    pointer_Keeps false = report-Keeps

    new-Keeps : (content : Text) → Keeps Inv (new l content)
    unfolding new init_reader init_writer
    new-Keeps content =
        Triple-bind _ _
          (Triple-bind _ _ F.read_new_Keeps λ reader.
            Triple-bind _ _ (pointer_Keeps reader)
              λ _. Triple-bind _ _ (F.read_open_Keeps content) λ code. expect_Keeps code)
          λ _. Triple-bind _ _ F.write_new_Keeps λ writer.
            Triple-bind _ _ (pointer_Keeps writer)
              λ _. Triple-bind _ _ F.set_lookup_Keeps λ code. expect_Keeps code

    step_Keeps :
        (status : Status) (m rest : Exec l.Files (Unit {0}))
        → Keeps Inv m
        → Keeps Inv rest
        → Keeps Inv (elim status [
          | archive_ok ↦ m >>= λ _. rest
          | archive_eof ↦ pure tt
          | archive_error ↦ report_error l
        ])
    step_Keeps archive_ok m rest tm tr = Triple-bind _ _ tm λ _. tr
    step_Keeps archive_eof m rest tm tr = Triple-pure tt (λ _ p. p)
    step_Keeps archive_error m rest tm tr = report-Keeps

    pub map_entries-Keeps :
        (f : Header l.Entry → Exec l.Files (Unit {0})) (hs : List (Header l.Entry))
        → All (λ hd. Keeps Inv (f hd)) hs
        → Keeps Inv (map_entries l f hs)
    unfolding map_entries
    map_entries-Keeps f [] h = Triple-pure tt (λ _ p. p)
    map_entries-Keeps f (hd ∷ hs) h =
        step_Keeps (status_of hd.code) (f hd) (map_entries l f hs) h.0 (map_entries-Keeps f hs h.1)

    closing-Keeps : {A : Type 0} (m : Exec l.Files A) → Keeps Inv m → Keeps Inv (closing l m)
    unfolding closing
    closing-Keeps m t = Triple-bind _ _ (Triple-attempt m t (λ _ _ p. p) (λ _ _ p. p)) λ result.
        Triple-bind _ _ F.close_Keeps λ _. Triple-lift result (λ _ _ _ p. p) (λ _ _ _ p. p)

    attempts :
        (f : Text → Exec l.Files (Unit {0})) (hs : List (Header l.Entry))
        → All (λ hd. Keeps Inv (f (l.pathname hd.entry))) hs
        → All
            (λ hd. Keeps {A = Unit {0}} Inv (attempt (f (l.pathname hd.entry)) >>= λ _. pure tt))
            hs
    attempts f [] h = tt
    attempts f (hd ∷ hs) h = (
      Triple-bind _ _ (Triple-attempt _ h.0 (λ _ _ p. p) (λ _ _ p. p))
          λ _. Triple-pure tt (λ _ p. p),
      attempts f hs h.1,
    )

    -- A walk keeps what its closure keeps at every entry.
    pub for_entries-Keeps :
        (content : Text) (f : Text → Exec l.Files (Unit {0}))
        → All (λ hd. Keeps Inv (f (l.pathname hd.entry))) (l.headers content)
        → Keeps Inv (for_entries l content f)
    unfolding for_entries
    for_entries-Keeps content f h =
        Triple-bind _ _ (new-Keeps content)
          λ _. closing-Keeps _ (map_entries-Keeps _ _ (attempts f (l.headers content) h))

  -- Closures that agree at every entry make the same walk.
  map_entries-eq :
      (f g : Header l.Entry → Exec l.Files (Unit {0})) (hs : List (Header l.Entry))
      → All (λ hd. f hd ≡ g hd) hs
      → map_entries l f hs ≡ map_entries l g hs
  unfolding map_entries
  map_entries-eq f g [] h = refl
  map_entries-eq f g (hd ∷ hs) h =
      let ih = map_entries-eq f g hs h.1 in
      λ i. elim (status_of hd.code) [
        | archive_ok ↦ h.0 i >>= λ _. ih i
        | archive_eof ↦ pure tt
        | archive_error ↦ report_error l
      ]

  join_absolute : (path name : Text) → starts_with (slash ∷ []) name ≡ true → join path name ≡ name
  unfolding join
  join_absolute path name p = rw p refl

  abbrev pub AllAbsolute : List (Header l.Entry) → Type 0
  AllAbsolute hs =
      All (λ (hd : Header l.Entry). starts_with (slash ∷ []) (l.pathname hd.entry) ≡ true) hs

  abbrev placed : (Text → Bool) → Header l.Entry → l.Entry → Exec l.Files (Unit {0})
  placed ignore hd entry =
      if ignore (l.pathname entry) then pure tt else extract_entry l entry hd.blocks

  same_target :
      (path other : Text) (ignore : Text → Bool) (hs : List (Header l.Entry))
      → AllAbsolute hs
      → All (λ hd. extract_to l path ignore hd ≡ extract_to l other ignore hd) hs
  unfolding extract_to set_pathname
  same_target path other ignore [] h = tt
  same_target path other ignore (hd ∷ hs) h = (
    ap (λ name. placed ignore hd (l.with_pathname hd.entry name))
        (join_absolute path _ h.0 ∙ sym (join_absolute other _ h.0)),
    same_target path other ignore hs h.1,
  )

  -- Entries with absolute names are extracted to the same places, whatever the destination is.
  pub extract_absolute :
      (content path other : Text) (ignore : Text → Bool)
      → AllAbsolute (l.headers content)
      → extract l content path ignore ≡ extract l content other ignore
  unfolding extract
  extract_absolute content path other ignore h =
      ap (λ m. new l content >>= λ _. closing l m)
        (map_entries-eq _ _ (l.headers content)
          (same_target path other ignore (l.headers content) h))
