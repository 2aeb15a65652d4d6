-- ===== src/Devnet/Finalized.antt =====
-- Every service whose logs are collected has an output, and what a finalized one tells.
use qrl_tests.Prelude.{
  String, Bool, true, false, not, Option, none, some, List, [], ◌∷◌, ◌≡◌, ◌↔◌, refl, arith, All,
  map, length, is_some, is_empty, ap, ◌∙◌, Bool-cases, Option-cases, inl, inr, suc,
}
use qrl_tests.Prelude.Keys.{has_key, str_eq_refl}
use qrl_tests.Errors.{Fault, Result-cases, join_errors, join_errors-IsNil, IsNil}
use qrl_tests.Devnet.Inspection.{ServiceIdentity}
use qrl_tests.Devnet.ServiceLogs.{service_logs, LogsRequest}
use qrl_tests.Devnet.LogOutput.{
  ServiceDiagnostic, ServiceLogOutput, missing_err, close_output, open_service_log,
  finalize_capture,
}
use qrl_tests.Devnet.Outputs.{find-put_output, map_output, receive-write_output}
use qrl_tests.Devnet.Diagnostics.{
  DiagnosticsSystem, find_output, put_output, write_output, open_each, finalize_each,
}

abbrev pub HasOutput : List (String × ServiceLogOutput) → String → Type 0
HasOutput outputs uuid = is_some (find_output uuid outputs) ≡ true

abbrev pub uuids_of : List ServiceIdentity → List String
uuids_of services = map (λ (service : ServiceIdentity). service.uuid) services

abbrev pub IsCaptured : ServiceDiagnostic → Type 0
IsCaptured diagnostic = diagnostic.captured ≡ true

module _ (system : DiagnosticsSystem) where
  put-HasOutput :
      (uuid key : String) (output : ServiceLogOutput) (outputs : List (String × ServiceLogOutput))
      → HasOutput outputs uuid
      → HasOutput (put_output key output outputs) uuid
  put-HasOutput uuid key output outputs h =
      ground (arith, h, find-put_output uuid key output outputs)

  put-each-HasOutput :
      (uuids : List String) (key : String) (output : ServiceLogOutput)
      (outputs : List (String × ServiceLogOutput))
      → All (HasOutput outputs) uuids
      → All (HasOutput (put_output key output outputs)) uuids
  put-each-HasOutput [] key output outputs h = tt
  put-each-HasOutput (uuid ∷ rest) key output outputs h =
      (put-HasOutput uuid key output outputs h.0, put-each-HasOutput rest key output outputs h.1)

  open_each-keeps :
      (output_dir uuid : String) (services : List ServiceIdentity)
      (outputs : List (String × ServiceLogOutput))
      → HasOutput outputs uuid
      → HasOutput (open_each system output_dir services outputs) uuid
  unfolding open_each
  open_each-keeps output_dir uuid [] outputs h = h
  open_each-keeps output_dir uuid (s ∷ rest) outputs h =
      let opened = open_service_log system.log_files output_dir s in
      open_each-keeps output_dir uuid rest (put_output s.uuid opened outputs)
        (put-HasOutput uuid s.uuid opened outputs h)

  pub open_each-HasOutput :
      (output_dir : String) (services : List ServiceIdentity)
      (outputs : List (String × ServiceLogOutput))
      → All (HasOutput (open_each system output_dir services outputs)) (uuids_of services)
  unfolding open_each
  open_each-HasOutput output_dir [] outputs = tt
  open_each-HasOutput output_dir (s ∷ rest) outputs =
      let opened = open_service_log system.log_files output_dir s in
      (
        open_each-keeps output_dir s.uuid rest (put_output s.uuid opened outputs)
            (ground (arith, find-put_output s.uuid s.uuid opened outputs, str_eq_refl s.uuid)),
        open_each-HasOutput output_dir rest (put_output s.uuid opened outputs),
      )

  is_some-map_output :
      (f : ServiceLogOutput → ServiceLogOutput) (found : Option ServiceLogOutput)
      → is_some (map_output f found) ≡ is_some found
  is_some-map_output f none = refl
  is_some-map_output f (some o) = refl

  service_logs-HasOutput :
      (enclave_name uuid : String) (uuids : List String)
      (outputs : List (String × ServiceLogOutput))
      → HasOutput outputs uuid
      → HasOutput
          (service_logs
            (some (write_output system))
            system.get_service_logs
            enclave_name
            uuids
            outputs).1
          uuid
  unfolding service_logs
  service_logs-HasOutput enclave_name uuid uuids outputs h =
      let request : LogsRequest = record {
        enclave_identifier = enclave_name;
        service_uuid_set = uuids;
        follow_logs = false;
        return_all_logs = true;
        num_log_lines = 0;
      } in
      elim (Bool-cases (is_empty uuids)) [
        | inl e ↦ rw e h
        | inr e ↦ elim (Result-cases (system.get_service_logs request)) [
          | inr (fault, e') ↦ rw (e, e') h
          | inl (stream, e') ↦
              rw (e, e')
                (ap is_some (receive-write_output system stream.0 stream.1 uuids outputs uuid)
                  ∙ is_some-map_output _ (find_output uuid outputs)
                  ∙ h)
        ]
      ]

  -- What a finalized output tells, beside the error of the stream.
  abbrev pub IsTold : Option Fault → ServiceDiagnostic × Option Fault → Type 0
  IsTold stream_err (diagnostic, local_err) =
      (diagnostic.captured ≡ true) ↔ ((stream_err ≡ none) × (local_err ≡ none))

  finalize_capture-IsTold :
      (stream_err : Option Fault) (missing : Bool) (output : ServiceLogOutput)
      → IsTold stream_err (finalize_capture system.log_files stream_err missing output).0
  unfolding finalize_capture
  finalize_capture-IsTold stream_err missing output =
      told
        (join_errors (missing_err missing output ∷ (close_output system.log_files output).0 ∷ []))
    where
      told :
          (local_err : Option Fault)
          → (not (is_some (join_errors (stream_err ∷ local_err ∷ []))) ≡ true)
            ↔ ((stream_err ≡ none) × (local_err ≡ none))
      told local_err = ground (arith, join_errors-IsNil (stream_err ∷ local_err ∷ []))

  finalize_each-cons :
      (stream_err : Option Fault) (not_found : List String) (uuid : String) (rest : List String)
      (outputs : List (String × ServiceLogOutput)) (output : ServiceLogOutput)
      → find_output uuid outputs ≡ some output
      → finalize_each system stream_err not_found (uuid ∷ rest) outputs
        ≡ (finalize_capture system.log_files stream_err (has_key uuid not_found) output).0
          ∷ finalize_each system stream_err not_found rest (
              put_output uuid
                (finalize_capture system.log_files stream_err (has_key uuid not_found) output).1
                outputs)
  unfolding finalize_each
  finalize_each-cons stream_err not_found uuid rest outputs output e = rw (e, finalize_each)

  pub finalize_each-IsTold :
      (stream_err : Option Fault) (not_found uuids : List String)
      (outputs : List (String × ServiceLogOutput))
      → All (HasOutput outputs) uuids
      → (length (finalize_each system stream_err not_found uuids outputs) ≡ length uuids)
        × All (IsTold stream_err) (finalize_each system stream_err not_found uuids outputs)
  unfolding finalize_each
  finalize_each-IsTold stream_err not_found [] outputs h = (refl, tt)
  finalize_each-IsTold stream_err not_found (uuid ∷ rest) outputs h =
      elim (Option-cases (find_output uuid outputs)) [
        | inl e ↦ absurd (ground (arith, e, h.0))
        | inr (output, e) ↦
            let finished =
              finalize_capture system.log_files stream_err (has_key uuid not_found) output in
            let later =
              finalize_each-IsTold stream_err not_found rest (put_output uuid finished.1 outputs)
                (put-each-HasOutput rest uuid finished.1 outputs h.1) in
            rw (finalize_each-cons stream_err not_found uuid rest outputs output e) (
              ap suc later.0,
              (finalize_capture-IsTold stream_err (has_key uuid not_found) output, later.1),
            )
      ]

  pub told-All :
      (stream_err : Option Fault) (finished : List (ServiceDiagnostic × Option Fault))
      → is_empty finished ≡ false
      → All (IsTold stream_err) finished
      → ((stream_err ≡ none) × All IsNil (map (λ f. f.1) finished))
        ↔ All IsCaptured (map (λ f. f.0) finished)
  told-All stream_err [] h told = absurd cc
  told-All stream_err (f ∷ []) h told = ground (arith, told.0)
  told-All stream_err (f ∷ g ∷ rest) h told =
      let later = told-All stream_err (g ∷ rest) refl told.1 in
      (
        (λ nil. ((told.0).1 (nil.0, nil.1.0), later.0 (nil.0, nil.1.1))),
        (λ captured.
            let first = (told.0).0 captured.0 in (first.0, (first.1, (later.1 captured.1).1))),
      )

  pub streamed-HasOutput :
      (enclave_name : String) (all uuids : List String) (outputs : List (String × ServiceLogOutput))
      → All (HasOutput outputs) uuids
      → All
          (HasOutput
            (service_logs
              (some (write_output system))
              system.get_service_logs
              enclave_name
              all
              outputs).1)
          uuids
  streamed-HasOutput enclave_name all [] outputs h = tt
  streamed-HasOutput enclave_name all (uuid ∷ rest) outputs h = (
    service_logs-HasOutput enclave_name uuid all outputs h.0,
    streamed-HasOutput enclave_name all rest outputs h.1,
  )
