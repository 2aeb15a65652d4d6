-- ===== src/JsonFile.antt =====
-- internal/jsonfile: JSON documents in files. The encoder and the decoder of encoding/json are
-- parameters, and so are the calls of the operating system.
use qrl_tests.Prelude.{String, Option}
use qrl_tests.Prelude.Text.{◌<>◌, quoted}
use qrl_tests.Prelude.FilePaths.{directory}
use qrl_tests.Errors.{Fault, Result, within, wrapped, checked, error_of, ◌>>=◌, ◌>>◌}

-- What the operating system answers for a path.
pub record Files : Type 0 where
  pub mkdir_all : String → Option Fault
  pub read_file : String → Result String
  pub write_file : String → String → Option Fault

module _ {ℓ} {T : Type ℓ} where
  -- jsonfile.Read
  unfoldable pub read : Files → (String → Result T) → String → String → Result T
  read files decode path label =
      within ("read " <> label <> " " <> quoted path) (files.read_file path) >>= λ payload.
      within ("decode " <> label <> " " <> quoted path) (decode payload)

  -- jsonfile.Write
  unfoldable pub write : Files → (T → Result String) → String → T → String → Option Fault
  unfolding directory
  write files encode path value label = error_of (
      within ("encode " <> label) (encode value) >>= λ payload.
      (checked (wrapped ("create " <> label <> " directory") (files.mkdir_all (directory path)))
        >> checked (wrapped ("write " <> label) (files.write_file path (payload <> "\n")))))
