-- ===== src/Devnet/Diagnostics.antt =====
-- devnet/diagnostics.go: what is collected of a network that failed.
use qrl_tests.Prelude.{
  String, not, Option, none, some, List, [], ◌∷◌, map, str_eq, is_some, is_empty, if◌then◌else◌,
}
use qrl_tests.Prelude.Text.{◌<>◌}
use qrl_tests.Prelude.Keys.{has_key}
use qrl_tests.Prelude.FilePaths.{join_path}
use qrl_tests.Errors.{Fault, Result, ok_or, error_of, wrap, wrapped, join_errors, fail, ok}
use qrl_tests.JsonFile.{Files, write}
use qrl_tests.Devnet.Inspection.{ServiceIdentity, EnclaveInspection}
use qrl_tests.Devnet.ServiceLogs.{LogsResponse, StreamEnd, LogsRequest, service_logs}
use qrl_tests.Devnet.LogOutput.{
  InspectionDiagnostic, ServiceDiagnostic, DiagnosticsManifest, LogFiles, ServiceLogOutput,
  open_service_log, write_lines, finalize_capture, text_of,
}

-- What the surroundings answer: the engine, the operating system and the JSON encoder.
pub record DiagnosticsSystem : Type 0 where
  pub inspect : String → EnclaveInspection × Option Fault
  pub get_service_logs : LogsRequest → Result (List LogsResponse × StreamEnd)
  pub files : Files
  pub log_files : LogFiles
  pub encode_inspection : EnclaveInspection → Result String
  pub encode_manifest : DiagnosticsManifest → Result String

-- outputsByUUID, a map of pointers: a change of an output shows in the map.
unfoldable pub find_output : String → List (String × ServiceLogOutput) → Option ServiceLogOutput
find_output uuid [] = none
find_output uuid ((k, output) ∷ rest) = if str_eq k uuid then some output else find_output uuid rest

-- outputsByUUID[uuid] = output
unfoldable pub put_output :
    String → ServiceLogOutput → List (String × ServiceLogOutput) → List (String × ServiceLogOutput)
put_output uuid output [] = (uuid, output) ∷ []
put_output uuid output ((k, current) ∷ rest) =
    let later = put_output uuid output rest in
    if str_eq k uuid then (k, output) ∷ rest else (k, current) ∷ later

module _ (system : DiagnosticsSystem) where
  unfoldable pub collect_inspection :
      String → String → (InspectionDiagnostic × List ServiceIdentity) × Option Fault
  unfolding write join_path
  collect_inspection enclave_name output_dir =
      let inspected = system.inspect enclave_name in
      let inspect_err = wrapped ("inspect Kurtosis enclave " <> enclave_name) inspected.1 in
      let write_err =
        write system.files system.encode_inspection
          (join_path (output_dir ∷ "inspection.json" ∷ [])) inspected.0
          "Kurtosis enclave inspection" in
      let capture_err = join_errors (inspect_err ∷ write_err ∷ []) in
      let diagnostic : InspectionDiagnostic = record {
        file = "inspection.json";
        captured = not (is_some capture_err);
        error = text_of capture_err "";
      } in
      ((diagnostic, inspected.0.services), capture_err)

  unfoldable pub open_each :
      String
      → List ServiceIdentity
      → List (String × ServiceLogOutput)
      → List (String × ServiceLogOutput)
  unfolding open_service_log put_output
  open_each output_dir [] outputs = outputs
  open_each output_dir (service ∷ rest) outputs =
      open_each output_dir rest
        (put_output service.uuid (open_service_log system.log_files output_dir service) outputs)

  -- The consumer of the lines.
  unfoldable pub write_output :
      String → List String → List (String × ServiceLogOutput) → List (String × ServiceLogOutput)
  unfolding find_output write_lines put_output
  write_output uuid lines outputs = elim (find_output uuid outputs) [
    | none ↦ outputs
    | some output ↦ put_output uuid (write_lines system.log_files output lines) outputs
  ]

  -- The loop that finalizes each output, with the diagnostics and the errors that it gathers. Every
  -- UUID of the loop has an output.
  unfoldable pub finalize_each :
      Option Fault
      → List String
      → List String
      → List (String × ServiceLogOutput)
      → List (ServiceDiagnostic × Option Fault)
  unfolding find_output finalize_capture put_output has_key
  finalize_each stream_err not_found [] outputs = []
  finalize_each stream_err not_found (uuid ∷ rest) outputs = elim (find_output uuid outputs) [
    | none ↦ finalize_each stream_err not_found rest outputs
    | some output ↦
        let finished =
          finalize_capture system.log_files stream_err (has_key uuid not_found) output in
        finished.0 ∷ finalize_each stream_err not_found rest (put_output uuid finished.1 outputs)
  ]

  unfoldable pub capture_logs :
      String → String → List ServiceIdentity → List ServiceDiagnostic × Option Fault
  unfolding open_each service_logs finalize_each
  capture_logs enclave_name output_dir services =
      let service_uuids = map (λ (service : ServiceIdentity). service.uuid) services in
      let streamed =
        service_logs (some write_output) system.get_service_logs enclave_name service_uuids
          (open_each output_dir services []) in
      let stream_err =
        wrapped ("stream Kurtosis service logs for " <> enclave_name) (error_of streamed.0) in
      let finished = finalize_each stream_err (ok_or [] streamed.0) service_uuids streamed.1 in
      (map (λ f. f.0) finished, join_errors (stream_err ∷ map (λ f. f.1) finished))

  unfoldable pub collect_service_logs :
      String → String → List ServiceIdentity → List ServiceDiagnostic × Option Fault
  unfolding capture_logs join_path
  collect_service_logs enclave_name output_dir services =
      if is_empty services
      then ([], none)
      else elim (system.files.mkdir_all (join_path (output_dir ∷ "services" ∷ []))) [
        | some e ↦ ([], some (wrap "create service diagnostics directory" e))
        | none ↦ capture_logs enclave_name output_dir services
      ]

  -- The manifest that is written, once the directory is there.
  unfoldable pub manifest_of : String → String → DiagnosticsManifest
  unfolding collect_inspection collect_service_logs
  manifest_of enclave_name output_dir =
      let inspected = collect_inspection enclave_name output_dir in
      record {
        enclave = enclave_name;
        inspection = inspected.0.0;
        services = (collect_service_logs enclave_name output_dir inspected.0.1).0;
      }

  -- collectDiagnostics
  unfoldable pub collect_diagnostics : String → String → Option Fault
  unfolding collect_inspection collect_service_logs manifest_of write join_path
  collect_diagnostics enclave_name output_dir = elim (system.files.mkdir_all output_dir) [
    | some e ↦ some (wrap "create diagnostics directory" e)
    | none ↦
        let inspected = collect_inspection enclave_name output_dir in
        join_errors (
          inspected.1
          ∷ (collect_service_logs enclave_name output_dir inspected.0.1).1
          ∷ write system.files system.encode_manifest
              (join_path (output_dir ∷ "diagnostics.json" ∷ []))
              (manifest_of enclave_name output_dir) "diagnostics manifest"
          ∷ [])
  ]

-- manager.CollectDiagnostics: the client may not be there; an error of its closing is dropped.
unfoldable pub collect_diagnostics_of : Result DiagnosticsSystem → String → String → Option Fault
unfolding collect_diagnostics
collect_diagnostics_of client enclave_name output_dir = elim client [
  | fail e ↦ some e
  | ok system ↦ collect_diagnostics system enclave_name output_dir
]
