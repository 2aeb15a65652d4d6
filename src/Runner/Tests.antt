-- ===== src/Runner/Tests.antt =====
-- A run of the sync lane with a network of its own, and the theorems about e2e/runner there.
use qrl_tests.Results.LaneVerdict.{LanePasses}
use qrl_tests.Prelude.FilePaths.{join_path, clean}
use qrl_tests.Prelude.Text.{◌<>◌}
use qrl_tests.Runner.Passed.{run_lane-is_error, run_lane_passed}
use qrl_tests.Runner.RunEnd.{
  IsGood, run_planned_error, outcomes, started_error, summarized, run_planned_manifest,
}
use qrl_tests.Devnet.Images.{or_text}
use qrl_tests.Prelude.Int.{pos}
use qrl_tests.Runner.Run.{RunWorld, run_planned}
use qrl_tests.Results.Summarize.{outcome_passed}
use qrl_tests.Runner.Release.{
  stop_of, stops, acquired, diagnosis_of, logged_outcome, diagnoses, execute_lane-effects,
}
use qrl_tests.Runner.Planned.{max_int32, HasSeed, CanRun, plan_lanes_lem, plan_lanes_ok}
use qrl_tests.Lanes.Registry.{
  Lane, minute, needs_execution_image, needs_consensus_image, needs_validator_image,
  needs_qrysm_alltools_image, contains_id,
}
use qrl_tests.Runner.Plan.{
  Config, LaneRun, RunPlan, plan_lanes, with_defaults, RunMode, plan_each, lane_run,
  check_service_restarts,
}
use qrl_tests.Runner.Lane.{
  Surroundings, LaneLease, acquire_lane, after_log, execute_lane, run_lane, acquire_new, lane_body,
  start_options, with_log, with_images, close_lease, resolve_images, run_process, capture_reports,
  resolve_when,
}
use qrl_tests.Errors.{
  Fault, Result, is_ok, is_error, ok, plain, context, Sentinel, join_errors, collect, cons_fault,
  fault_is,
}
use qrl_tests.Devnet.Environment.{Environment}
use qrl_tests.Prelude.{
  ℕ, ◌<◌, String, true, false, Option, none, some, [], ◌∷◌, map, ◌≡◌, refl, ◌↔◌, arith, All, ◌*◌,
  if◌then◌else◌, str_eq, concat_map,
}
use qrl_tests.Results.Types.{RunResult}
use qrl_tests.Results.Tests.{numbered, good_report}

abbrev devnet_environment : Environment
devnet_environment = record {
  enclave_name = "go-qrl-devnet";
  backend = "docker";
  participants = [];
}

-- A lane whose tests pass; `stopping` is what stopping its network answers.
abbrev lane_world : Option Fault → Surroundings numbered
lane_world stopping = record {
  inspect = λ name. ok devnet_environment;
  check_ready = λ environment. none;
  start = λ options. ok devnet_environment;
  stop = λ name. stopping;
  diagnose = λ name dir. none;
  mkdir_all = λ path. none;
  open_file = λ path. none;
  close_file = none;
  resolve_execution_image = λ environment. ok "local/go-qrl:devnet";
  resolve_consensus_image = λ environment. ok "local/qrysm-beacon:devnet";
  resolve_validator_image = λ environment. ok "local/qrysm-validator:devnet";
  resolve_qrysm_alltools_image = λ environment. ok "local/qrysm-alltools:devnet";
  write_lane_manifest = λ path lane environment images. none;
  run_command = λ arguments. none;
  ctx_err = none;
  lane_ctx_err = none;
  read_reports = λ path. (good_report ∷ [], none);
  duration_text = λ duration. "1h0m0s";
}

-- A lane that is canceled while its tests run.
abbrev canceled_world : Surroundings numbered
canceled_world = record (lane_world none) {
  run_command = λ arguments. some (plain "signal: interrupt");
  lane_ctx_err = some (context Sentinel.canceled);
}

abbrev configuration : Config
configuration = with_defaults (record {
  tests_dir = "";
  base_name = "";
  report_dir = "";
  backend = "";
  images = record { execution = ""; clef = ""; consensus = ""; validator = ""; genesis = "" };
  qrysm_alltools_image = "";
  parameters = none;
  suites = [];
  start_timeout = 0;
  max_parallel = pos 1;
  seed = pos 0;
})

abbrev lane_definition : Lane
lane_definition = record {
  name = "sync";
  profile = "single";
  suites = "sync-checkpoint" ∷ [];
  timeout = 60 * minute;
  restarts_services = false;
}

abbrev lane : LaneRun
lane = record {
  definition = lane_definition;
  enclave_name = configuration.base_name;
  report_dir = "/work/reports/lanes/sync";
  seed = pos 42;
}

abbrev plan : RunPlan
plan = record {
  tests_dir = "/work";
  report_root = "/work/reports";
  mode = RunMode.provision_network;
  lanes = lane ∷ [];
}

abbrev lease : LaneLease
lease = record { environment = devnet_environment; releases = true }

abbrev absolute : String → Result String
absolute path = ok (if str_eq path "." then "/work" else "/work/" <> path)

abbrev drawn : ℕ → ℕ
drawn i = 41

drawn_bound : (i : ℕ) → drawn i < max_int32
drawn_bound i = omega arith

is_planned :
    plan_lanes absolute drawn configuration (lane_definition ∷ []) RunMode.provision_network
    ≡ ok plan
unfolding plan_lanes plan_each lane_run check_service_restarts with_defaults or_text join_path clean
is_planned = refl

at_work : absolute configuration.tests_dir ≡ ok "/work"
unfolding with_defaults or_text
at_work = refl

at_reports : absolute configuration.report_dir ≡ ok "/work/reports"
unfolding with_defaults or_text
at_reports = refl

plan_lanes_ok_example :
    (is_ok
        (plan_lanes absolute drawn configuration (lane_definition ∷ []) RunMode.provision_network)
      ≡ true)
    ↔ All (CanRun configuration RunMode.provision_network) (lane_definition ∷ [])
plan_lanes_ok_example =
    plan_lanes_ok absolute drawn configuration (lane_definition ∷ []) RunMode.provision_network
      {tests_dir = "/work"} {report_root = "/work/reports"} at_work at_reports

plan_lanes_lem_example :
    (map (λ (r : LaneRun). r.definition) plan.lanes ≡ lane_definition ∷ [])
    × All (HasSeed configuration) plan.lanes
    × (plan.mode ≡ RunMode.provision_network)
plan_lanes_lem_example =
    plan_lanes_lem absolute drawn configuration (lane_definition ∷ []) RunMode.provision_network
      plan drawn_bound is_planned

execute_lane-effects_example :
    (concat_map stop_of (execute_lane numbered (lane_world none) configuration plan lane).1
      ≡ stops numbered
          (lane_world none)
          plan.mode
          (acquired numbered (lane_world none) configuration plan lane))
    × (concat_map diagnosis_of (execute_lane numbered (lane_world none) configuration plan lane).1
        ≡ diagnoses numbered
            (lane_world none)
            lane
            (acquired numbered (lane_world none) configuration plan lane))
execute_lane-effects_example =
    execute_lane-effects numbered (lane_world none) configuration plan lane

run_lane_passed_example :
    (outcome_passed numbered (run_lane numbered (lane_world none) configuration plan lane).0 ≡ true)
    ↔ ((held : LaneLease) × (acquired numbered (lane_world none) configuration plan lane ≡ ok held)
        × (outcome_passed numbered (logged_outcome numbered (lane_world none) lane held) ≡ true)
        × (close_lease numbered (lane_world none) held ≡ none))
run_lane_passed_example = run_lane_passed numbered (lane_world none) configuration plan lane

has_lease : acquired numbered canceled_world configuration plan lane ≡ ok lease
unfolding acquire_lane acquire_new start_options
has_lease = refl

was_canceled :
    is_error (logged_outcome numbered canceled_world lane lease).err Sentinel.canceled ≡ true
unfolding after_log lane_body with_log with_images resolve_images run_process capture_reports
    join_errors collect cons_fault is_error fault_is needs_execution_image needs_consensus_image
    needs_validator_image needs_qrysm_alltools_image contains_id resolve_when
was_canceled = refl

run_lane-is_error_example :
    is_error (run_lane numbered canceled_world configuration plan lane).0.err Sentinel.canceled
    ≡ true
run_lane-is_error_example =
    run_lane-is_error numbered canceled_world configuration plan lane lease Sentinel.canceled
      has_lease was_canceled

abbrev run_world : RunWorld numbered
run_world = record {
  lane_world = λ run. lane_world none;
  abs = absolute;
  draw = drawn;
  remove_all = λ path. none;
  parse = λ reference. none;
  sha256_text = λ bytes. "";
  probes = λ dir. record {
    getenv = λ name. "";
    git_head = "0123abcd";
    kurtosis_output = "CLI Version: 1.11.1";
    go_version = "go1.26.0";
    docker_version = "29.0.0";
    now = 1;
  };
  write_started = λ path manifest. none;
  write_finished = λ path manifest. none;
  write_json = λ path summary. none;
  write_markdown = λ path summary. none;
  finished_at = 9;
}

run_planned_error_example :
    ((run_planned numbered run_world configuration plan).error ≡ none)
    ↔ IsGood numbered run_world configuration plan
run_planned_error_example = run_planned_error numbered run_world configuration plan

run_planned_manifest_example :
    ((run_planned numbered run_world configuration plan).manifest.result ≡ some RunResult.passed)
    ↔ (All (LanePasses numbered) (outcomes numbered run_world configuration plan)
        × (started_error numbered run_world configuration plan ≡ none)
        × ((summarized numbered run_world configuration plan).1 ≡ none))
run_planned_manifest_example = run_planned_manifest numbered run_world configuration plan (tt, tt)
