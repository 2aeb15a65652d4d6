-- ===== src/Runner/Run.antt =====
-- The runs of e2e/runner/runner.go: their lanes one after the other or side by side, their report
-- artifacts, and the manifest that is kept of them.
use qrl_tests.Prelude.{
  ℕ, String, Bool, not, ◌||◌, Option, none, some, List, [], ◌∷◌, map, str_eq, is_some, is_empty,
  if◌then◌else◌, is_empty_slice, elements,
}
use qrl_tests.Prelude.Text.{◌<>◌}
use qrl_tests.Prelude.FilePaths.{join_path}
use qrl_tests.Errors.{Fault, Result, ok, fail, plain, wrap, join_errors, ◌>>=◌}
use qrl_tests.Ginkgo.{Ginkgo}
use qrl_tests.Results.Types.{Outcome, LaneSummary, Summary, RunResult, is_passed}
use qrl_tests.Results.Summarize.{summarize, verdict_error}
use qrl_tests.Devnet.Images.{Images, resolved}
use qrl_tests.Devnet.Manager.{package_locator}
use qrl_tests.Lanes.Registry.{Lane, all_lanes, named, with_suites}
use qrl_tests.RunManifest.{Probes, ManifestLane, Manifest, enrich, finish}
use qrl_tests.Runner.Plan.{Config, LaneRun, RunMode, RunPlan, plan_lanes, provisions_network}
use qrl_tests.Runner.Lane.{Surroundings, run_lane}

-- What the file system, the clock and the host's tools answer to a run. Each lane has its own
-- surroundings: what they answer may depend on when it runs.
pub record RunWorld (g : Ginkgo) : Type 0 where
  pub lane_world : LaneRun → Surroundings g
  pub abs : String → Result String
  pub draw : ℕ → ℕ
  pub remove_all : String → Option Fault
  pub parse : String → Option Fault
  pub sha256_text : List ℕ → String
  pub probes : String → Probes
  pub write_started : String → Manifest → Option Fault
  pub write_finished : String → Manifest → Option Fault
  pub write_json : String → Summary → Option Fault
  pub write_markdown : String → Summary → Option Fault
  pub finished_at : ℕ

-- The loop of clearReportArtifacts, which ends at the first error.
unfoldable pub remove_each : (String → Option Fault) → List String → Option Fault
remove_each remove [] = none
remove_each remove (path ∷ rest) =
    let later = remove_each remove rest in
    elim (remove path) [ none ↦ later | some e ↦ some (wrap ("clear report artifact " <> path) e) ]

unfoldable pub clear_report_artifacts : (String → Option Fault) → String → Option Fault
unfolding remove_each join_path
clear_report_artifacts remove report_root = remove_each remove (
    join_path (report_root ∷ "lanes" ∷ [])
    ∷ join_path (report_root ∷ "summary.json" ∷ [])
    ∷ join_path (report_root ∷ "summary.md" ∷ [])
    ∷ join_path (report_root ∷ "run-manifest.json" ∷ [])
    ∷ [])

unfoldable pub manifest_lane : LaneRun → ManifestLane
manifest_lane lane = record {
  name = lane.definition.name;
  enclave = lane.enclave_name;
  profile = lane.definition.profile;
  suites = lane.definition.suites;
  seed = lane.seed;
  result = none;
}

-- The images that a provisioned network is recorded with.
abbrev pub recorded_images : (String → Option Fault) → Images → Images
recorded_images parse images = elim (resolved parse images) [ ok full ↦ full | fail e ↦ images ]

-- The manifest before it is enriched.
unfoldable pub planned_manifest :
    (String → Option Fault) → (List ℕ → String) → Config → RunPlan → Probes → Manifest
planned_manifest parse sha256_text configuration plan probes =
    let provisioned = provisions_network plan.mode in
    let custom = not (is_empty_slice configuration.parameters) in
    enrich probes (record {
      sources = record { go_qrl = ""; qrysm = ""; generator = ""; qrl_tests_revision = "" };
      images =
          if provisioned
          then (if custom then none else some (recorded_images parse configuration.images))
          else none;
      parameters_sha256 =
          if provisioned
          then (if custom then sha256_text (elements configuration.parameters) else "")
          else "";
      package_locator = if provisioned then package_locator else "";
      backend = configuration.backend;
      lanes = map manifest_lane plan.lanes;
      versions = record { go = ""; docker = ""; kurtosis = "" };
      github = record { repository = ""; workflow = ""; run_id = ""; run_attempt = "" };
      started_at = 0;
      finished_at = 0;
      result = none;
    })

-- The map `laneResults`, filled in the order of the lanes: a later entry replaces an earlier one.
unfoldable pub lane_results : List LaneSummary → String → Option Bool
lane_results [] name = none
lane_results (lane ∷ rest) name =
    let later = lane_results rest name in
    if is_some later
    then later
    else if str_eq lane.name name
    then some (is_passed lane.verdict)
    else none

-- What a run leaves: its error, and the manifest it writes at the end.
pub record RunEnd : Type 0 where
  pub error : Option Fault
  pub manifest : Manifest

module _ (g : Ginkgo) (world : RunWorld g) where
  -- The outcomes in the lanes' slots; each lane fills its own, in whatever order the lanes run.
  unfoldable pub run_lanes : Config → RunPlan → List (Outcome g)
  run_lanes configuration plan =
      map (λ lane. (run_lane g (world.lane_world lane) configuration plan lane).0) plan.lanes

  -- run(), from the manifest on.
  unfoldable pub run_planned : Config → RunPlan → RunEnd
  unfolding run_lanes finish planned_manifest lane_results summarize
  run_planned configuration plan =
      let started =
        planned_manifest world.parse world.sha256_text configuration plan
          (world.probes plan.tests_dir) in
      let path = join_path (plan.report_root ∷ "run-manifest.json" ∷ []) in
      let started_err = world.write_started path started in
      let outcomes = run_lanes configuration plan in
      let (summary, summarize_err) =
        summarize g world.write_json world.write_markdown plan.report_root outcomes in
      let done = finish (lane_results summary.lanes) world.finished_at started in
      let kept =
        if is_some started_err || is_some summarize_err
        then record done { result = some RunResult.failed }
        else done in
      let manifest_err = join_errors (started_err ∷ world.write_finished path kept ∷ []) in
      record {
        error = join_errors (
            verdict_error summary
            ∷ join_errors (map (λ (o : Outcome g). o.err) outcomes)
            ∷ manifest_err
            ∷ summarize_err
            ∷ []);
        manifest = kept;
      }

  -- run()
  unfoldable pub run : Config → List Lane → RunMode → Result RunEnd
  unfolding plan_lanes clear_report_artifacts
  run configuration selected mode =
      plan_lanes world.abs world.draw configuration selected mode >>= λ plan.
      elim (clear_report_artifacts world.remove_all plan.report_root) [
        | some e ↦ fail e
        | none ↦ ok (run_planned configuration plan)
      ]

-- selectedLane
unfoldable pub selected_lane : Config → String → Result Lane
unfolding named with_suites
selected_lane configuration name = named name >>= λ lane. with_suites lane configuration.suites

module _ (g : Ginkgo) (world : RunWorld g) where
  -- Test
  unfoldable pub test_existing : Config → String → Result RunEnd
  unfolding run
  test_existing configuration name =
      if not (is_empty_slice configuration.parameters)
      then fail (plain "custom parameters cannot be used with an existing network")
      else selected_lane configuration name >>= λ lane.
          run g world configuration (lane ∷ []) RunMode.use_existing_network

  -- Run
  unfoldable pub run_named : Config → String → Result RunEnd
  unfolding run
  run_named configuration name = selected_lane configuration name >>= λ lane.
      run g world configuration (lane ∷ []) RunMode.provision_network

  -- RunAll
  unfoldable pub run_all : Config → Result RunEnd
  unfolding run
  run_all configuration =
      if not (is_empty_slice configuration.parameters)
      then fail (plain "custom parameters cannot be used with run-all")
      else if not (is_empty configuration.suites)
      then fail (plain "suite selection cannot be used with run-all")
      else run g world configuration all_lanes RunMode.provision_per_lane
