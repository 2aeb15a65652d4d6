-- ===== src/ContainerFiles/RoundTrip.antt =====
-- What is read back of files that were archived.
use qrl_tests.Prelude.{
  ℕ, String, false, none, some, List, [], ◌∷◌, ◌++◌, ◌≡◌, refl, arith, map, str_eq, Option-cases,
  inl, inr, ap, sym, ◌∙◌, append_assoc, append-nil,
}
use qrl_tests.Prelude.Keys.{has_key}
use qrl_tests.Prelude.FilePaths.{join_path}
use qrl_tests.Errors.{Fault, Result, ok, fail}
use qrl_tests.ContainerFiles.{
  File, Header, Entry, ArchiveEnd, TarWriter, entry_name, file_mode, header_of, refused, write_file,
  archive_from, archive, read_entries, file_of,
}

abbrev pub entry_of : Header × List ℕ → Entry
entry_of (header, body) = record { header = header; body = ok body }

-- How a file comes back, read below `parent`.
unfoldable pub restored : String → File → File
unfolding entry_name join_path
restored parent file = record {
  name = join_path (parent ∷ entry_name file ∷ []);
  body = file.body;
  mode = file_mode file;
}

-- No name is empty, and none comes a second time.
unfoldable pub AreNew : List String → List File → Type 0
unfolding entry_name has_key
AreNew listed [] = Unit
AreNew listed (file ∷ rest) =
    (str_eq (entry_name file) "" ≡ false)
    × (has_key (entry_name file) listed ≡ false)
    × AreNew (entry_name file ∷ listed) rest

abbrev pub written_of : List File → List (Header × List ℕ)
written_of files = map (λ file. (header_of file, file.body)) files

read_entries-written_of :
    (parent : String) (files : List File)
    → read_entries parent (map entry_of (written_of files)) ArchiveEnd.at_end
      ≡ ok (map (restored parent) files)
unfolding read_entries restored header_of file_of
read_entries-written_of parent [] = refl
read_entries-written_of parent (file ∷ rest) = rw (read_entries-written_of parent rest) refl

refused-none :
    (writer : TarWriter) (listed : List String) (file : File)
    → refused writer listed file ≡ none
    → (str_eq (entry_name file) "" ≡ false) × (has_key (entry_name file) listed ≡ false)
unfolding refused
refused-none writer listed file h = ground (arith, h)

fail_ok : {A : Type 0} {e : Fault} {a : A} → ◌≡◌ {A = Result A} (fail e) (ok a) → ⊥
fail_ok h = cc

-- The steps of the loop, by what is refused and what cannot be written.
module _ (writer : TarWriter) (listed : List String) (written : List (Header × List ℕ))
    (file : File) (rest : List File) where
  archive_from-refused :
      (e : Fault)
      → refused writer listed file ≡ some e
      → archive_from writer listed written (file ∷ rest) ≡ fail e
  unfolding archive_from
  archive_from-refused e r = rw (r, archive_from)

  archive_from_failed :
      (e : Fault)
      → refused writer listed file ≡ none
      → write_file writer written file ≡ some e
      → archive_from writer listed written (file ∷ rest) ≡ fail e
  unfolding archive_from
  archive_from_failed e r w = rw (r, w, archive_from)

  archive_from_written :
      refused writer listed file ≡ none
      → write_file writer written file ≡ none
      → archive_from writer listed written (file ∷ rest)
        ≡ archive_from writer
            (entry_name file ∷ listed)
            (written ++ (header_of file, file.body) ∷ [])
            rest
  unfolding archive_from
  archive_from_written r w = rw (r, w, archive_from)

archive_from_ok :
    (writer : TarWriter) (listed : List String) (written : List (Header × List ℕ))
    (files : List File) (payload : List ℕ)
    → archive_from writer listed written files ≡ ok payload
    → (writer.close (written ++ written_of files) ≡ ok payload) × AreNew listed files
unfolding archive_from AreNew
archive_from_ok writer listed written [] payload h = (ap writer.close (append-nil written) ∙ h, tt)
archive_from_ok writer listed written (file ∷ rest) payload h =
    elim (Option-cases (refused writer listed file)) [
      | inr (e, r) ↦
          absurd (fail_ok (sym (archive_from-refused writer listed written file rest e r) ∙ h))
      | inl r ↦ elim (Option-cases (write_file writer written file)) [
        | inr (e, w) ↦
            absurd (fail_ok (sym (archive_from_failed writer listed written file rest e r w) ∙ h))
        | inl w ↦
            let added = written ++ (header_of file, file.body) ∷ [] in
            let later =
              archive_from_ok writer (entry_name file ∷ listed) added rest payload
                (sym (archive_from_written writer listed written file rest r w) ∙ h) in
            let accepted = refused-none writer listed file r in
            (
              ap writer.close (
                    sym (append_assoc written ((header_of file, file.body) ∷ []) (written_of rest)))
                  ∙ later.0,
              (accepted.0, accepted.1, later.1),
            )
      ]
    ]

-- Files that are archived come back, each with its body, its mode (0600 if none was given) and its
-- cleaned name below the parent that the archive is read with, in their order; and an archive is
-- made only of files whose cleaned names are not empty and differ. The tar reader reads what the tar
-- writer wrote.
pub read_entries-archive :
    (writer : TarWriter) (unpack : List ℕ → List Entry × ArchiveEnd) (files : List File)
    (payload : List ℕ) (parent : String)
    → ((written : List (Header × List ℕ)) (packed : List ℕ)
        → writer.close written ≡ ok packed
        → unpack packed ≡ (map entry_of written, ArchiveEnd.at_end))
    → archive writer files ≡ ok payload
    → (read_entries parent (unpack payload).0 (unpack payload).1 ≡ ok (map (restored parent) files))
      × AreNew [] files
unfolding archive
read_entries-archive writer unpack files payload parent reads h =
    let closed = archive_from_ok writer [] [] files payload h in
    (
      rw (reads (written_of files) payload closed.0) (read_entries-written_of parent files),
      closed.1,
    )
