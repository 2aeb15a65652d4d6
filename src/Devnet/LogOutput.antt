-- ===== src/Devnet/LogOutput.antt =====
-- devnet/diagnostics.go: the file that the log lines of one service go to.
use qrl_tests.Prelude.{
  ℕ, suc, String, Bool, false, not, Option, none, some, List, [], ◌∷◌, is_some, if◌then◌else◌,
}
use qrl_tests.Prelude.Text.{◌<>◌}
use qrl_tests.Prelude.FilePaths.{join_path}
use qrl_tests.Errors.{Fault, fault_text, wrap, wrapped, plain, join_errors}
use qrl_tests.Devnet.Inspection.{ServiceIdentity}

pub record InspectionDiagnostic : Type 0 where
  pub file : String
  pub captured : Bool
  pub error : String

pub record ServiceDiagnostic : Type 0 where
  pub name : String
  pub file : String
  pub captured : Bool
  pub error : String

pub record DiagnosticsManifest : Type 0 where
  pub enclave : String
  pub inspection : InspectionDiagnostic
  pub services : List ServiceDiagnostic

-- What the operating system and a buffered writer answer: opening a file; a text that is added to
-- what the writer has taken; a flush of what it has taken; and the n-th close of a file.
pub record LogFiles : Type 0 where
  pub open_file : String → Option Fault
  pub write_string : String → String → String → Option Fault
  pub flush : String → String → Option Fault
  pub close_file : String → ℕ → Option Fault

-- `is_open` tells that `file` is not nil; `text` is what the writer has taken, and `closings` the
-- number of calls to close the file. Two services of one name have outputs of one path, and what
-- their writers leave together in the file is not modelled.
pub record ServiceLogOutput : Type 0 where
  pub diagnostic : ServiceDiagnostic
  pub uuid : String
  pub path : String
  pub is_open : Bool
  pub text : String
  pub closings : ℕ
  pub output_err : Option Fault

abbrev pub or_error : Option Fault → Option Fault → Option Fault
or_error none later = later
or_error (some e) later = some e

abbrev pub text_of : Option Fault → String → String
text_of none before = before
text_of (some e) before = fault_text e

abbrev pub missing_err : Bool → ServiceLogOutput → Option Fault
missing_err missing output =
    if missing
    then some (
        plain (
          "Kurtosis service logs not found for " <> output.diagnostic.name <> " (" <> output.uuid
          <> ")"))
    else none

module _ (files : LogFiles) where
  unfoldable pub open_service_log : String → ServiceIdentity → ServiceLogOutput
  unfolding join_path
  open_service_log output_dir service =
      let relative_path = join_path ("services" ∷ (service.name <> ".log") ∷ []) in
      let path = join_path (output_dir ∷ relative_path ∷ []) in
      let opened = files.open_file path in
      record {
        diagnostic = record {
          name = service.name;
          file = relative_path;
          captured = false;
          error = "";
        };
        uuid = service.uuid;
        path = path;
        is_open = not (is_some opened);
        text = "";
        closings = 0;
        output_err = wrapped ("write diagnostic " <> path) opened;
      }

  -- One write to the buffer; the error of a failed one is kept.
  unfoldable pub write_text : ServiceLogOutput → String → ServiceLogOutput
  write_text output added = elim (files.write_string output.path output.text added) [
    | none ↦ record output { text = output.text <> added }
    | some e ↦ record output { output_err = some (wrap ("write diagnostic " <> output.path) e) }
  ]

  -- The loop over the lines, which a failed write leaves.
  unfoldable pub write_each : ServiceLogOutput → List String → ServiceLogOutput
  unfolding write_text
  write_each output [] = output
  write_each output (line ∷ rest) =
      let written = write_text output line in
      let ended = write_text written "\n" in
      let later = write_each ended rest in
      if is_some written.output_err
      then written
      else if is_some ended.output_err
      then ended
      else later

  -- output.writeLines
  unfoldable pub write_lines : ServiceLogOutput → List String → ServiceLogOutput
  unfolding write_each
  write_lines output lines = if is_some output.output_err then output else write_each output lines

  -- output.closeOutput
  unfoldable pub close_output : ServiceLogOutput → Option Fault × ServiceLogOutput
  close_output output =
      let flushed =
        or_error output.output_err
          (wrapped ("write diagnostic " <> output.path) (files.flush output.path output.text)) in
      let closed = or_error flushed (
        wrapped ("write diagnostic " <> output.path)
          (files.close_file output.path output.closings)) in
      if output.is_open
      then (closed, record output { closings = suc output.closings; output_err = closed })
      else (output.output_err, output)

  -- output.finalizeCapture: what it returns, and the output as it leaves it
  unfoldable pub finalize_capture :
      Option Fault → Bool → ServiceLogOutput → (ServiceDiagnostic × Option Fault) × ServiceLogOutput
  unfolding close_output
  finalize_capture stream_err missing output =
      let closed = close_output output in
      let local_err = join_errors (missing_err missing output ∷ closed.0 ∷ []) in
      let capture_err = join_errors (stream_err ∷ local_err ∷ []) in
      let diagnostic : ServiceDiagnostic = record (output.diagnostic) {
        captured = not (is_some capture_err);
        error = text_of capture_err output.diagnostic.error;
      } in
      ((diagnostic, local_err), record (closed.1) { diagnostic = diagnostic })
