-- ===== src/Runner/Plan.antt =====
-- e2e/runner/plan.go, and Config of e2e/runner/runner.go: what a run is about to do.
use qrl_tests.Prelude.{
  ℕ, ◌+◌, ◌*◌, String, Bool, true, false, not, Option, none, some, List, [], ◌∷◌, ◌++◌, ◌==◌,
  if◌then◌else◌, is_empty_slice,
}
use qrl_tests.Prelude.Text.{◌<>◌, decimal, trim_space}
use qrl_tests.Prelude.FilePaths.{join_path}
use qrl_tests.Prelude.Int.{ℤ, pos, negsuc}
use qrl_tests.Errors.{Fault, Result, ok, plain, within, checked, ◌>>=◌, ◌>>◌}
use qrl_tests.Devnet.Images.{Images, default_qrysm_alltools_image, or_text}
use qrl_tests.Lanes.Registry.{Lane, minute, packages}

-- Durations are in nanoseconds. Custom parameters are bytes, `none` for a nil slice.
pub record Config : Type 0 where
  pub tests_dir : String
  pub base_name : String
  pub report_dir : String
  pub backend : String
  pub images : Images
  pub qrysm_alltools_image : String
  pub parameters : Option (List ℕ)
  pub suites : List String
  pub start_timeout : ℕ
  pub max_parallel : ℤ
  pub seed : ℤ

unfoldable pub with_defaults : Config → Config
unfolding or_text trim_space
with_defaults configuration = record configuration {
  tests_dir = or_text configuration.tests_dir ".";
  base_name = or_text configuration.base_name "go-qrl-devnet";
  report_dir = or_text configuration.report_dir "reports";
  backend = or_text configuration.backend "docker";
  start_timeout =
      if configuration.start_timeout == 0 then 5 * minute else configuration.start_timeout;
  qrysm_alltools_image =
      or_text (trim_space configuration.qrysm_alltools_image) default_qrysm_alltools_image;
}

pub data RunMode : Type 0 where
  use_existing_network provision_network provision_per_lane : RunMode

abbrev pub provisions_network : RunMode → Bool
provisions_network use_existing_network = false
provisions_network _ = true

abbrev pub suffixes_enclave : RunMode → Bool
suffixes_enclave provision_per_lane = true
suffixes_enclave _ = false

pub record LaneRun : Type 0 where
  pub definition : Lane
  pub enclave_name : String
  pub report_dir : String
  pub seed : ℤ

pub record RunPlan : Type 0 where
  pub tests_dir : String
  pub report_root : String
  pub mode : RunMode
  pub lanes : List LaneRun

-- lane.manifestPath()
unfoldable pub manifest_path : LaneRun → String
unfolding join_path
manifest_path lane = join_path (lane.report_dir ∷ "manifest.json" ∷ [])

-- The verb `%d` of a signed number.
abbrev pub signed_decimal : ℤ → String
signed_decimal (pos n) = decimal n
signed_decimal (negsuc n) = "-" <> decimal (n + 1)

-- lane.ginkgoArguments(); `duration_text` is Timeout.String().
unfoldable pub ginkgo_arguments : (ℕ → String) → LaneRun → List String
unfolding packages
ginkgo_arguments duration_text lane =
    ("tool"
      ∷ "ginkgo"
      ∷ "--tags=e2e"
      ∷ "--procs=1"
      ∷ "--keep-going"
      ∷ "--require-suite"
      ∷ "--fail-on-empty"
      ∷ "--fail-on-pending"
      ∷ ("--seed=" <> signed_decimal lane.seed)
      ∷ ("--timeout=" <> duration_text lane.definition.timeout)
      ∷ ("--output-dir=" <> lane.report_dir)
      ∷ "--json-report=report.json"
      ∷ [])
    ++ (packages lane.definition ++ "--" ∷ "-test.run=^TestE2E$" ∷ [])

-- checkServiceRestarts
unfoldable pub check_service_restarts : Config → Lane → RunMode → Option Fault
check_service_restarts configuration lane mode =
    if not lane.restarts_services
    then none
    else if not (provisions_network mode)
    then some (
        plain (
          "lane " <> lane.name
          <> " restarts every service of its network and needs a network provisioned from profile "
          <> lane.profile <> ", not an existing one"))
    else if not (is_empty_slice configuration.parameters)
    then some (
        plain (
          "lane " <> lane.name <> " restarts every service of its network and needs profile "
          <> lane.profile <> ", not custom parameters"))
    else none

abbrev pub is_zero : ℤ → Bool
is_zero (pos n) = n == 0
is_zero (negsuc n) = false

unfoldable pub lane_run : Config → String → RunMode → ℕ → Lane → LaneRun
unfolding join_path
lane_run configuration report_root mode drawn lane = record {
  definition = lane;
  enclave_name =
      if suffixes_enclave mode
      then configuration.base_name <> "-" <> lane.name
      else configuration.base_name;
  report_dir = join_path (report_root ∷ "lanes" ∷ lane.name ∷ []);
  seed = if is_zero configuration.seed then pos (1 + drawn) else configuration.seed;
}

-- The loop over the selected lanes. `draw i` is the random number drawn for the i-th of them,
-- rand.Int64N(math.MaxInt32).
unfoldable pub plan_each :
    Config → String → RunMode → (ℕ → ℕ) → ℕ → List Lane → Result (List LaneRun)
unfolding lane_run
plan_each configuration report_root mode draw index [] = ok []
plan_each configuration report_root mode draw index (lane ∷ rest) =
    checked (check_service_restarts configuration lane mode)
    >> (plan_each configuration report_root mode draw (index + 1) rest >>= λ others.
        ok (lane_run configuration report_root mode (draw index) lane ∷ others))

-- planLanes; `abs` is filepath.Abs, which reads the working directory.
unfoldable pub plan_lanes :
    (String → Result String) → (ℕ → ℕ) → Config → List Lane → RunMode → Result RunPlan
plan_lanes abs draw configuration selected mode =
    within "resolve test source directory" (abs configuration.tests_dir) >>= λ tests_dir.
    (within "resolve report directory" (abs configuration.report_dir) >>= λ report_root.
    (plan_each configuration report_root mode draw 0 selected >>= λ lanes.
    ok (record { tests_dir = tests_dir; report_root = report_root; mode = mode; lanes = lanes })))
