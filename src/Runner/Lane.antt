-- ===== src/Runner/Lane.antt =====
-- e2e/runner/lane.go: how one lane runs. What the network manager, the file system and the test
-- process answer is a record of functions; each call that has an effect is logged in order.
use qrl_tests.Prelude.{
  ℕ, String, Bool, true, false, not, ◌&&◌, Option, none, some, List, [], ◌∷◌, ◌++◌, is_some, str_eq,
  if◌then◌else◌,
}
use qrl_tests.Prelude.Text.{◌<>◌}
use qrl_tests.Prelude.FilePaths.{join_path}
use qrl_tests.Errors.{Fault, Result, ok, fail, wrapped, within, join_errors, ◌>>=◌, wrap}
use qrl_tests.Ginkgo.{Ginkgo, Report}
use qrl_tests.Results.Types.{Outcome}
use qrl_tests.Results.Summarize.{outcome_passed}
use qrl_tests.Devnet.Environment.{Environment}
use qrl_tests.Devnet.Manager.{StartOptions}
use qrl_tests.Lanes.Registry.{
  Lane, needs_execution_image, needs_consensus_image, needs_validator_image,
  needs_qrysm_alltools_image,
}
use qrl_tests.Runner.Plan.{
  Config, RunPlan, LaneRun, provisions_network, manifest_path, ginkgo_arguments,
}

pub record SidecarImages : Type 0 where
  pub execution : String
  pub consensus : String
  pub validator : String
  pub qrysm_alltools : String

abbrev pub no_images : SidecarImages
no_images = record { execution = ""; consensus = ""; validator = ""; qrysm_alltools = "" }

-- The calls that leave a trace outside the process.
pub data Effect : Type 0 where
  inspect_network : String → Effect
  start_network : String → Effect
  stop_network : String → Effect
  collect_diagnostics : String → String → Effect
  make_directory : String → Effect
  open_log : String → Effect
  close_log : Effect
  write_manifest : String → Effect
  run_tests : List String → Effect

module _ (g : Ginkgo) where
  -- What the lane's surroundings answer. `ctx_err` is ctx.Err() when an image is not resolved, and
  -- `lane_ctx_err` the lane context's after the test process.
  pub record Surroundings : Type 0 where
    pub inspect : String → Result Environment
    pub check_ready : Environment → Option Fault
    pub start : StartOptions → Result Environment
    pub stop : String → Option Fault
    pub diagnose : String → String → Option Fault
    pub mkdir_all : String → Option Fault
    pub open_file : String → Option Fault
    pub close_file : Option Fault
    pub resolve_execution_image : Environment → Result String
    pub resolve_consensus_image : Environment → Result String
    pub resolve_validator_image : Environment → Result String
    pub resolve_qrysm_alltools_image : Environment → Result String
    pub write_lane_manifest : String → Lane → Environment → SidecarImages → Option Fault
    pub run_command : List String → Option Fault
    pub ctx_err : Option Fault
    pub lane_ctx_err : Option Fault
    pub read_reports : String → List (Report g) × Option Fault
    pub duration_text : ℕ → String

-- A lease of a network: whether `release` stops it.
pub record LaneLease : Type 0 where
  pub environment : Environment
  pub releases : Bool

module _ (g : Ginkgo) (world : Surroundings g) where
  -- outcome.CaptureReports(reportDir)
  unfoldable pub capture_reports : String → Outcome g → Outcome g
  capture_reports report_dir outcome =
      let read = world.read_reports (join_path (report_dir ∷ "report.json" ∷ [])) in
      record outcome { reports = read.0; report_err = read.1 }

  unfoldable pub acquire_existing : Config → LaneRun → Result LaneLease
  acquire_existing configuration lane =
      within "inspect network" (world.inspect lane.enclave_name) >>= λ environment.
      elim (world.check_ready environment) [
        | some e ↦ fail (wrap "network not ready" e)
        | none ↦ ok (record {
          environment =
              if str_eq environment.backend ""
              then record environment { backend = configuration.backend }
              else environment;
          releases = false;
        })
      ]

  unfoldable pub start_options : Config → LaneRun → StartOptions
  unfolding join_path
  start_options configuration lane = record {
    enclave_name = lane.enclave_name;
    backend = configuration.backend;
    images = configuration.images;
    parameters = configuration.parameters;
    profile = lane.definition.profile;
    failure_diagnostics_dir = join_path (lane.report_dir ∷ "diagnostics" ∷ []);
  }

  unfoldable pub acquire_new : Config → LaneRun → Result LaneLease
  acquire_new configuration lane =
      within "start network" (world.start (start_options configuration lane)) >>= λ environment.
      ok (record { environment = environment; releases = true })

  -- acquireLane, and what it did
  unfoldable pub acquire_lane : Config → RunPlan → LaneRun → Result LaneLease × List Effect
  acquire_lane configuration plan lane =
      if provisions_network plan.mode
      then (acquire_new configuration lane, start_network lane.enclave_name ∷ [])
      else (acquire_existing configuration lane, inspect_network lane.enclave_name ∷ [])

  -- resolveImage and one step of resolveImages
  unfoldable pub resolve_when :
      Bool → String → (Environment → Result String) → Environment → Result String
  resolve_when needed name resolve environment =
      if needed then within ("resolve " <> name <> " image") (resolve environment) else ok ""

  unfoldable pub resolve_images : Lane → Environment → Result SidecarImages
  unfolding resolve_when
  resolve_images definition environment =
      resolve_when (needs_execution_image definition) "execution" world.resolve_execution_image
        environment
      >>= λ execution.
          (resolve_when (needs_consensus_image definition) "consensus" world.resolve_consensus_image
              environment
            >>= λ consensus.
                (resolve_when (needs_validator_image definition) "validator"
                    world.resolve_validator_image environment
                  >>= λ validator.
                      (resolve_when (needs_qrysm_alltools_image definition) "Qrysm all-tools"
                          world.resolve_qrysm_alltools_image environment
                        >>= λ qrysm_alltools. ok (record {
                          execution = execution;
                          consensus = consensus;
                          validator = validator;
                          qrysm_alltools = qrysm_alltools;
                        }))))

  -- What the body of executeLane leaves to its deferred function.
  pub record Ran : Type 0 where
    pub outcome : Outcome g
    pub log_opened : Bool
    pub effects : List Effect

  -- The test process and its reports.
  unfoldable pub run_process : LaneRun → Outcome g → Outcome g
  unfolding capture_reports
  run_process lane outcome =
      let command_err = world.run_command (ginkgo_arguments world.duration_text lane) in
      let execution_err = join_errors (command_err ∷ world.lane_ctx_err ∷ []) in
      capture_reports lane.report_dir
        (record outcome { execution_err = execution_err; err = execution_err })

  -- From the test manifest on, with the images.
  unfoldable pub with_images : LaneRun → LaneLease → Outcome g → SidecarImages → Ran
  unfolding run_process
  with_images lane lease outcome images =
      let path = manifest_path lane in
      elim (world.write_lane_manifest path lane.definition lease.environment images) [
        | some e ↦ record {
          outcome = record outcome { err = some (wrap "test infrastructure failed" e) };
          log_opened = true;
          effects = write_manifest path ∷ [];
        }
        | none ↦ record {
          outcome = run_process lane outcome;
          log_opened = true;
          effects =
              write_manifest path ∷ run_tests (ginkgo_arguments world.duration_text lane) ∷ [];
        }
      ]

  -- From the images on, with the log open.
  unfoldable pub with_log : LaneRun → LaneLease → Outcome g → Ran
  unfolding with_images
  with_log lane lease outcome = elim (resolve_images lane.definition lease.environment) [
    | fail e ↦ record {
      outcome = record outcome {
        execution_err = world.ctx_err;
        err = wrapped "test infrastructure failed" (join_errors (some e ∷ world.ctx_err ∷ []));
      };
      log_opened = true;
      effects = [];
    }
    | ok images ↦ with_images lane lease outcome images
  ]

  abbrev pub before_effects : List Effect → Ran → Ran
  before_effects done ran = record ran { effects = done ++ ran.effects }

  -- The body of executeLane after the network is acquired.
  unfoldable pub lane_body : LaneRun → LaneLease → Outcome g → Ran
  unfolding with_log
  lane_body lane lease outcome =
      let log_path = join_path (lane.report_dir ∷ "output.log" ∷ []) in
      elim (world.mkdir_all lane.report_dir) [
        | some e ↦ record {
          outcome = record outcome {
            err = some (wrap "test infrastructure failed: create report directory" e);
          };
          log_opened = false;
          effects = make_directory lane.report_dir ∷ [];
        }
        | none ↦ elim (world.open_file log_path) [
          | some e ↦ record {
            outcome = record outcome {
              err = some (wrap "test infrastructure failed: create output log" e);
            };
            log_opened = false;
            effects = make_directory lane.report_dir ∷ open_log log_path ∷ [];
          }
          | none ↦
              before_effects (make_directory lane.report_dir ∷ open_log log_path ∷ [])
                (with_log lane lease outcome)
        ]
      ]

  -- The collectDiagnostics closure: its error joins the outcome's.
  unfoldable pub with_diagnostics : LaneRun → LaneLease → Outcome g → Outcome g
  with_diagnostics lane lease outcome =
      elim (world.diagnose lease.environment.enclave_name
        (join_path (lane.report_dir ∷ "diagnostics" ∷ []))) [
          | none ↦ outcome
          | some e ↦ record outcome {
            err = join_errors (outcome.err ∷ some (wrap "collect diagnostics" e) ∷ []);
          }
        ]

  unfoldable pub diagnostics_effect : LaneRun → LaneLease → Effect
  diagnostics_effect lane lease =
      collect_diagnostics lease.environment.enclave_name
        (join_path (lane.report_dir ∷ "diagnostics" ∷ []))

  -- lease.close()
  unfoldable pub close_lease : LaneLease → Option Fault
  close_lease lease =
      if lease.releases
      then wrapped "stop network" (world.stop lease.environment.enclave_name)
      else none

  unfoldable pub close_effects : LaneLease → List Effect
  close_effects lease =
      if lease.releases then stop_network lease.environment.enclave_name ∷ [] else []

  -- The outcome once the log is closed.
  unfoldable pub after_log : Ran → Outcome g
  after_log ran =
      if ran.log_opened
      then record ran.outcome { err = join_errors (ran.outcome.err ∷ world.close_file ∷ []) }
      else ran.outcome

  -- The deferred function of executeLane.
  unfoldable pub finish_lane : LaneRun → LaneLease → Ran → Outcome g × List Effect
  finish_lane lane lease ran =
      let logged = after_log ran in
      let log_effects = if ran.log_opened then close_log ∷ [] else [] in
      let failed_before_cleanup = not (outcome_passed g logged) in
      let diagnosed =
        if failed_before_cleanup then with_diagnostics lane lease logged else logged in
      let cleanup_err = close_lease lease in
      let late = is_some cleanup_err && not failed_before_cleanup in
      let final = if late then with_diagnostics lane lease diagnosed else diagnosed in
      (
        record final { err = join_errors (final.err ∷ cleanup_err ∷ []) },
        ran.effects
            ++ (log_effects
                ++ ((if failed_before_cleanup then diagnostics_effect lane lease ∷ [] else [])
                    ++ (close_effects lease
                        ++ (if late then diagnostics_effect lane lease ∷ [] else [])))),
      )

  abbrev pub fresh_outcome : String → Outcome g
  fresh_outcome name = record {
    name = name;
    err = none;
    execution_err = none;
    bootstrap_failed = false;
    reports = [];
    report_err = none;
  }

  -- executeLane
  unfoldable pub execute_lane : Config → RunPlan → LaneRun → Outcome g × List Effect
  execute_lane configuration plan lane =
      let acquired = acquire_lane configuration plan lane in
      let outcome = fresh_outcome lane.definition.name in
      elim acquired.0 [
        | fail e ↦ (
          record outcome {
            bootstrap_failed = true;
            err = some (wrap "network bootstrap failed" e);
          },
          acquired.1,
        )
        | ok lease ↦
            let finished = finish_lane lane lease (lane_body lane lease outcome) in
            (finished.0, acquired.1 ++ finished.1)
      ]

  -- runLane
  unfoldable pub run_lane : Config → RunPlan → LaneRun → Outcome g × List Effect
  run_lane configuration plan lane =
      let executed = execute_lane configuration plan lane in
      (
        record executed.0 { err = wrapped ("lane " <> lane.definition.name) executed.0.err },
        executed.1,
      )
