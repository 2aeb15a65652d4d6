-- ===== src/Devnet/Captured.antt =====
-- When the diagnostics of a network count as collected.
use qrl_tests.Devnet.Finalized.{
  uuids_of, IsCaptured, open_each-HasOutput, finalize_each-IsTold, told-All, streamed-HasOutput,
}
use qrl_tests.Prelude.Text.{◌<>◌}
use qrl_tests.Prelude.{
  String, true, false, not, Option, none, some, List, [], ◌∷◌, ◌≡◌, ◌↔◌, refl, arith, All, map,
  length, is_some, is_empty, ◌∙◌, sym, Option-cases, inl, inr, length-map,
}
use qrl_tests.Prelude.FilePaths.{join_path}
use qrl_tests.Errors.{Fault, join_errors, join_errors-IsNil, wrap, wrapped, error_of, ok_or}
use qrl_tests.JsonFile.{write}
use qrl_tests.Devnet.Inspection.{ServiceIdentity}
use qrl_tests.Devnet.ServiceLogs.{service_logs}
use qrl_tests.Devnet.LogOutput.{ServiceDiagnostic}
use qrl_tests.Devnet.Diagnostics.{
  DiagnosticsSystem, write_output, open_each, finalize_each, capture_logs, collect_service_logs,
  collect_inspection, manifest_of, collect_diagnostics,
}

module _ (system : DiagnosticsSystem) where
  not_empty {ℓ κ} :
      {A : Type ℓ} {B : Type κ} (xs : List A) (ys : List B)
      → length xs ≡ length ys
      → is_empty ys ≡ false
      → is_empty xs ≡ false
  not_empty xs [] h e = absurd cc
  not_empty [] (y ∷ ys) h e = absurd (omega (arith, h))
  not_empty (x ∷ xs) (y ∷ ys) h e = refl

  -- What is true of the capture of some services' logs exactly when it has no error.
  abbrev pub IsComplete : List ServiceIdentity → List ServiceDiagnostic → Type 0
  IsComplete services diagnostics =
      (length diagnostics ≡ length services) × All IsCaptured diagnostics

  capture_logs_nil :
      (enclave_name output_dir : String) (services : List ServiceIdentity)
      → is_empty services ≡ false
      → ((capture_logs system enclave_name output_dir services).1 ≡ none)
        ↔ IsComplete services (capture_logs system enclave_name output_dir services).0
  unfolding capture_logs
  capture_logs_nil enclave_name output_dir services some_service =
      let opened = open_each system output_dir services [] in
      let streamed =
        service_logs (some (write_output system)) system.get_service_logs enclave_name
          (uuids_of services) opened in
      let stream_err =
        wrapped ("stream Kurtosis service logs for " <> enclave_name) (error_of streamed.0) in
      let finished =
        finalize_each system stream_err (ok_or [] streamed.0) (uuids_of services) streamed.1 in
      let told =
        finalize_each-IsTold system stream_err (ok_or [] streamed.0) (uuids_of services) streamed.1
          (streamed-HasOutput system enclave_name (uuids_of services) (uuids_of services) opened
            (open_each-HasOutput system output_dir services [])) in
      let sized : length finished ≡ length services =
        told.0 ∙ length-map services (λ (service : ServiceIdentity). service.uuid) in
      let all =
        told-All system stream_err finished (not_empty finished services sized some_service)
          told.1 in
      let nil = join_errors-IsNil (stream_err ∷ map (λ f. f.1) finished) in
      (
        (λ h. (length-map finished (λ f. f.0) ∙ sized, all.0 (nil.0 h))),
        (λ complete. nil.1 (all.1 complete.1)),
      )

  collect_service_logs_nil :
      (enclave_name output_dir : String) (services : List ServiceIdentity)
      → ((collect_service_logs system enclave_name output_dir services).1 ≡ none)
        ↔ IsComplete services (collect_service_logs system enclave_name output_dir services).0
  unfolding collect_service_logs
  collect_service_logs_nil enclave_name output_dir [] = ((λ h. (refl, tt)), (λ h. refl))
  collect_service_logs_nil enclave_name output_dir (s ∷ rest) =
      elim (Option-cases (system.files.mkdir_all (join_path (output_dir ∷ "services" ∷ [])))) [
        | inr (e, made) ↦
            rw made ((λ h. absurd cc), (λ complete. absurd (omega (arith, complete.0))))
        | inl made ↦ rw made (capture_logs_nil enclave_name output_dir (s ∷ rest) refl)
      ]

  -- What collectDiagnostics joins, once the directory is there.
  abbrev collected_errors : String → String → List (Option Fault)
  collected_errors enclave_name output_dir =
      let inspected = collect_inspection system enclave_name output_dir in
      inspected.1
      ∷ (collect_service_logs system enclave_name output_dir inspected.0.1).1
      ∷ write system.files system.encode_manifest (join_path (output_dir ∷ "diagnostics.json" ∷ []))
          (manifest_of system enclave_name output_dir) "diagnostics manifest"
      ∷ []

  collect_diagnostics-made :
      (enclave_name output_dir : String)
      → system.files.mkdir_all output_dir ≡ none
      → collect_diagnostics system enclave_name output_dir
        ≡ join_errors (collected_errors enclave_name output_dir)
  unfolding collect_diagnostics
  collect_diagnostics-made enclave_name output_dir made = rw (made, collect_diagnostics)

  collect_diagnostics-unmade :
      (enclave_name output_dir : String) (e : Fault)
      → system.files.mkdir_all output_dir ≡ some e
      → collect_diagnostics system enclave_name output_dir
        ≡ some (wrap "create diagnostics directory" e)
  unfolding collect_diagnostics
  collect_diagnostics-unmade enclave_name output_dir e made = rw (made, collect_diagnostics)

  some-none : {A : Type 0} (a : A) (o : Option A) → o ≡ some a → o ≡ none → ⊥
  some-none a o h h' = cc

  captured_of_nil : (err : Option Fault) → err ≡ none → not (is_some err) ≡ true
  captured_of_nil err h = rw h refl

  nil_of_captured : (err : Option Fault) → not (is_some err) ≡ true → err ≡ none
  nil_of_captured err h = ground (arith, h)

  -- Collecting the diagnostics of a network has no error exactly when the directory could be made,
  -- the manifest tells that the inspection is captured, has a captured log for each of the services
  -- that the inspection found, and could be written.
  pub collect_diagnostics_nil :
      (enclave_name output_dir : String)
      → (collect_diagnostics system enclave_name output_dir ≡ none) ↔ (
          (system.files.mkdir_all output_dir ≡ none)
          × ((manifest_of system enclave_name output_dir).inspection.captured ≡ true)
          × IsComplete
              (system.inspect enclave_name).0.services
              (manifest_of system enclave_name output_dir).services
          × (write system.files system.encode_manifest
                (join_path (output_dir ∷ "diagnostics.json" ∷ []))
                (manifest_of system enclave_name output_dir)
                "diagnostics manifest"
              ≡ none))
  unfolding collect_diagnostics manifest_of
  collect_diagnostics_nil enclave_name output_dir =
      elim (Option-cases (system.files.mkdir_all output_dir)) [
        | inr (e, made) ↦ (
          (λ h. absurd (
              some-none (wrap "create diagnostics directory" e) _
                (collect_diagnostics-unmade enclave_name output_dir e made) h)),
          (λ told. absurd (some-none e _ made told.0)),
        )
        | inl made ↦
            let inspected = collect_inspection system enclave_name output_dir in
            let logs = collect_service_logs_nil enclave_name output_dir inspected.0.1 in
            let nil = join_errors-IsNil (collected_errors enclave_name output_dir) in
            let step = collect_diagnostics-made enclave_name output_dir made in
            (
              (λ h.
                  let all = nil.0 (sym step ∙ h) in
                  (made, captured_of_nil inspected.1 all.0, logs.0 all.1.0, all.1.1.0)),
              (λ told.
                  step ∙ nil.1 (nil_of_captured inspected.1 told.1, (logs.1 told.2, (told.3, tt)))),
            )
      ]
