-- ===== src/ContainerFiles.antt =====
-- internal/containerfiles: regular files into and out of containers. The reader and the writer of
-- archive/tar are parameters.
pub mod RoundTrip
mod Tests
use qrl_tests.Prelude.{
  ℕ, String, Bool, true, false, Option, none, some, List, [], ◌∷◌, ◌++◌, str_eq, ◌==◌,
  if◌then◌else◌, ◌+◌,
}
use qrl_tests.Prelude.Text.{◌<>◌, trim_prefix}
use qrl_tests.Prelude.FilePaths.{clean, join_path, directory}
use qrl_tests.Prelude.Keys.{has_key}
use qrl_tests.Errors.{Fault, Result, ok, fail, plain, wrap, within, ◌>>=◌}

-- A body is a list of bytes.
pub record File : Type 0 where
  pub name : String
  pub body : List ℕ
  pub mode : ℕ

abbrev pub default_file_mode : ℕ
default_file_mode = 384

pub record Header : Type 0 where
  pub name : String
  pub mode : ℕ
  pub is_regular : Bool
  pub size : ℕ

-- An entry that is read: its header, and its body or the error of reading it.
pub record Entry : Type 0 where
  pub header : Header
  pub body : Result (List ℕ)

-- How the entries of an archive end: at its end, or with an error.
pub data ArchiveEnd : Type 0 where
  at_end : ArchiveEnd
  unreadable : Fault → ArchiveEnd

unfoldable pub file_of : String → Header → List ℕ → File
unfolding join_path
file_of parent header body = record {
  name = join_path (parent ∷ header.name ∷ []);
  body = body;
  mode = header.mode;
}

-- The loop of ReadArchive. Beside an error the code returns no files.
unfoldable pub read_entries : String → List Entry → ArchiveEnd → Result (List File)
unfolding file_of
read_entries parent [] ArchiveEnd.at_end = ok []
read_entries parent [] (ArchiveEnd.unreadable e) = fail e
read_entries parent (entry ∷ rest) ending =
    let later = read_entries parent rest ending in
    if entry.header.is_regular
    then (within ("read " <> entry.header.name) entry.body >>= λ body.
        (later >>= λ files. ok (file_of parent entry.header body ∷ files)))
    else later

-- What the tar writer answers for what it has written, and the bytes of a closed archive.
pub record TarWriter : Type 0 where
  pub write_header : List (Header × List ℕ) → Header → Option Fault
  pub write_body : List (Header × List ℕ) → Header → List ℕ → Option Fault
  pub close : List (Header × List ℕ) → Result (List ℕ)

abbrev pub container_path : File → String
container_path file = clean ("/" <> file.name)

unfoldable pub entry_name : File → String
unfolding trim_prefix clean
entry_name file = trim_prefix (container_path file) "/"

abbrev pub file_mode : File → ℕ
file_mode file = if file.mode == 0 then default_file_mode else file.mode

unfoldable pub byte_count : List ℕ → ℕ
byte_count [] = 0
byte_count (b ∷ rest) = 1 + byte_count rest

unfoldable pub header_of : File → Header
unfolding entry_name byte_count
header_of file = record {
  name = entry_name file;
  mode = file_mode file;
  is_regular = true;
  size = byte_count file.body;
}

module _ (writer : TarWriter) where
  -- The header and the body of one file.
  unfoldable pub write_file : List (Header × List ℕ) → File → Option Fault
  unfolding header_of clean
  write_file written file = elim (writer.write_header written (header_of file)) [
    | some e ↦ some (wrap ("archive " <> container_path file) e)
    | none ↦ elim (writer.write_body written (header_of file) file.body) [
      | some e ↦ some (wrap ("archive " <> container_path file) e)
      | none ↦ none
    ]
  ]

  -- What is refused of a file before anything of it is written.
  unfoldable pub refused : List String → File → Option Fault
  unfolding entry_name has_key clean
  refused listed file =
      if str_eq (entry_name file) ""
      then some (plain "file name is empty")
      else if has_key (entry_name file) listed
      then some (plain ("file " <> container_path file <> " is listed twice"))
      else none

  -- The loop of Archive, with the names and the entries so far.
  unfoldable pub archive_from : List String → List (Header × List ℕ) → List File → Result (List ℕ)
  unfolding refused write_file header_of entry_name
  archive_from listed written [] = writer.close written
  archive_from listed written (file ∷ rest) =
      let later =
        archive_from (entry_name file ∷ listed) (written ++ (header_of file, file.body) ∷ [])
          rest in
      elim (refused listed file) [
        | some e ↦ fail e
        | none ↦ elim (write_file written file) [ some e ↦ fail e | none ↦ later ]
      ]

  -- Archive
  unfoldable pub archive : List File → Result (List ℕ)
  unfolding archive_from
  archive files = archive_from [] [] files

-- What the Docker client answers for a path in a container: the entries of an archive.
unfoldable pub read :
    (String → String → Result (List Entry × ArchiveEnd)) → String → String → Result (List File)
unfolding read_entries directory clean
read copy_from_container container_id source =
    within ("copy " <> source) (copy_from_container container_id source) >>= λ copied.
    read_entries (directory (clean source)) copied.0 copied.1

unfoldable pub find_file : String → List File → Option (List ℕ)
find_file name [] = none
find_file name (file ∷ rest) = if str_eq file.name name then some file.body else find_file name rest

-- ReadFile
unfoldable pub read_file :
    (String → String → Result (List Entry × ArchiveEnd)) → String → String → Result (List ℕ)
unfolding read find_file clean
read_file copy_from_container container_id source =
    read copy_from_container container_id source >>= λ files.
    (elim (find_file (clean source) files) [
      | some body ↦ ok body
      | none ↦ fail (plain ("archive does not contain " <> source))
    ])
