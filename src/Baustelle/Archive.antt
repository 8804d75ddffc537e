-- ===== src/Baustelle/Archive.antt =====
-- baustelle/src/archive.rs with archive/resource.rs and archive/entry.rs. libarchive is a
-- parameter. It reads from memory, so what it reads is a function of the content.
pub mod Frames
use knast.Base.{
  ℕ, Text, codes, Option, none, some, List, [], ◌∷◌, Bool, true, false, map, if◌then◌else◌,
}
use knast.Base.Exec.{Exec, Error, Result, ok, err, pure, raise, lift, attempt, ◌>>=◌, ◌>>◌}
use knast.Base.Int.{ℤ, pos, negsuc}
use knast.Base.Paths.{join}

-- What archive_read_data_block returns, and the block that it found.
pub record DataBlock : Type 0 where
  pub code : ℤ
  pub bytes : Text
  pub offset : ℕ

-- What archive_read_next_header returns, the entry, and the blocks up to the next header.
pub record Header (Entry : Type 0) : Type 0 where
  pub code : ℤ
  pub entry : Entry
  pub blocks : List DataBlock

pub record Libarchive : Type 1 where
  pub Files : Type 0
  pub Entry : Type 0
  pub pathname : Entry → Text
  pub with_pathname : Entry → Text → Entry
  -- The headers of a content in turn, up to ARCHIVE_EOF.
  pub headers : Text → List (Header Entry)
  -- archive_read_new and archive_write_disk_new: whether they return a pointer.
  pub read_new : Exec Files Bool
  pub read_open : Text → Exec Files ℤ
  pub write_new : Exec Files Bool
  pub set_standard_lookup : Exec Files ℤ
  pub write_header : Entry → Exec Files ℤ
  pub write_data_block : Text → ℕ → Exec Files ℤ
  pub error_string : Exec Files Error
  -- Closing and freeing the reader and the writer.
  pub close : Exec Files (Unit {0})
  -- std::fs
  pub remove_dir_all : Text → Exec Files (Unit {0})
  pub remove_file : Text → Exec Files (Unit {0})

pub data Status : Type 0 where
  archive_ok archive_eof archive_error : Status

-- ARCHIVE_OK is 0 and ARCHIVE_EOF is 1.
unfoldable pub status_of : ℤ → Status
status_of (pos ℕ.zero) = archive_ok
status_of (pos (ℕ.suc ℕ.zero)) = archive_eof
status_of (pos (ℕ.suc (ℕ.suc n))) = archive_error
status_of (negsuc n) = archive_error

module _ (l : Libarchive) where
  open l use {Files, Entry}

  pub report_error : {A : Type 0} → Exec Files A
  report_error = do error ← l.error_string; raise error

  -- A code that has to be ARCHIVE_OK.
  pub expect_ok : ℤ → Exec Files (Unit {0})
  unfolding report_error
  expect_ok code = elim (status_of code) [ archive_ok ↦ pure tt | _ ↦ report_error ]

  -- A pointer that has to be there.
  expect_pointer : Bool → Exec Files (Unit {0})
  unfolding report_error
  expect_pointer pointer = if pointer then pure tt else report_error

  pub init_reader : Text → Exec Files (Unit {0})
  unfolding expect_pointer
  init_reader content = do
    reader ← l.read_new
    expect_pointer reader
    code ← l.read_open content
    expect_ok code

  pub init_writer : Exec Files (Unit {0})
  unfolding expect_pointer
  init_writer = do
    writer ← l.write_new
    expect_pointer writer
    code ← l.set_standard_lookup
    expect_ok code

  -- ArchiveResource::new
  pub new : Text → Exec Files (Unit {0})
  unfolding init_reader init_writer
  new content = do init_reader content; init_writer

  -- ArchiveEntry::set_pathname
  pub set_pathname : Entry → Text → Entry
  set_pathname entry path = l.with_pathname entry (join path (l.pathname entry))

  -- `map_entries` and `collect`: every entry in turn, up to the first error.
  pub map_entries :
      (Header Entry → Exec Files (Unit {0})) → List (Header Entry) → Exec Files (Unit {0})
  unfolding report_error
  map_entries f [] = pure tt
  map_entries f (header ∷ headers) =
      let rest = map_entries f headers in
      elim (status_of header.code) [
        | archive_ok ↦ f header >>= λ _. rest
        | archive_eof ↦ pure tt
        | archive_error ↦ report_error
      ]

  -- The loop of `extract_entry`.
  pub write_blocks : List DataBlock → Exec Files (Unit {0})
  unfolding expect_ok report_error
  write_blocks [] = pure tt
  write_blocks (block ∷ blocks) =
      let rest = write_blocks blocks in
      elim (status_of block.code) [
        | archive_ok ↦
            l.write_data_block block.bytes block.offset >>= λ code. expect_ok code >>= λ _. rest
        | archive_eof ↦ pure tt
        | archive_error ↦ report_error
      ]

  pub extract_entry : Entry → List DataBlock → Exec Files (Unit {0})
  unfolding expect_ok write_blocks
  extract_entry entry blocks = do code ← l.write_header entry; expect_ok code; write_blocks blocks

  -- The closure of `extract`: the entry is moved below the path, and skipped if it is ignored.
  pub extract_to : Text → (Text → Bool) → Header Entry → Exec Files (Unit {0})
  unfolding set_pathname extract_entry
  extract_to path ignore header =
      let entry = set_pathname header.entry path in
      if ignore (l.pathname entry) then pure tt else extract_entry entry header.blocks

  -- The resource is dropped at the end, also behind an error.
  closing : {A : Type 0} → Exec Files A → Exec Files A
  closing m = do result ← attempt m; l.close; lift result

  pub extract : Text → Text → (Text → Bool) → Exec Files (Unit {0})
  unfolding new map_entries extract_to closing
  extract content path ignore = do
    new content
    closing (map_entries (extract_to path ignore) (l.headers content))

  -- `entries()?` with a closure of the caller: what it returns for an entry is kept, and an error
  -- among these values ends nothing.
  pub for_entries : Text → (Text → Exec Files (Unit {0})) → Exec Files (Unit {0})
  unfolding new map_entries closing
  for_entries content f = do
    new content
    closing (
        map_entries (λ header. attempt (f (l.pathname header.entry)) >>= λ _. pure tt)
          (l.headers content))
