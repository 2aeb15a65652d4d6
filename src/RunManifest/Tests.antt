-- ===== src/RunManifest/Tests.antt =====
-- A manifest of two lanes, and the theorem about internal/runmanifest there.
use qrl_tests.Prelude.{
  String, Bool, true, Option, none, some, [], ◌∷◌, map, ◌≡◌, refl, ◌↔◌, All, str_eq, if◌then◌else◌,
}
use qrl_tests.Prelude.Int.{pos}
use qrl_tests.Results.Types.{RunResult}
use qrl_tests.RunManifest.Types.{ManifestLane, Manifest, finish, finish_lanes, finish_lane}
use qrl_tests.RunManifest.Outcomes.{PassedIn, result_of, finish_lem}

abbrev lane_named : String → ManifestLane
lane_named name = record {
  name = name;
  enclave = "go-qrl-devnet";
  profile = "single";
  suites = [];
  seed = pos 7;
  result = none;
}

abbrev two_lanes : Manifest
two_lanes = record {
  sources = record { go_qrl = ""; qrysm = ""; generator = ""; qrl_tests_revision = "" };
  images = none;
  parameters_sha256 = "";
  package_locator = "";
  backend = "docker";
  lanes = lane_named "execution" ∷ lane_named "sync" ∷ [];
  versions = record { go = ""; docker = ""; kurtosis = "" };
  github = record { repository = ""; workflow = ""; run_id = ""; run_attempt = "" };
  started_at = 1;
  finished_at = 0;
  result = none;
}

abbrev only_execution : String → Option Bool
only_execution name = if str_eq name "execution" then some true else none

unfinished_run : (finish only_execution 9 two_lanes).result ≡ some RunResult.failed
unfolding finish finish_lanes finish_lane
unfinished_run = refl

finish_lem_example :
    (((finish only_execution 9 two_lanes).result ≡ some RunResult.passed)
      ↔ All (PassedIn only_execution) two_lanes.lanes)
    × ((finish only_execution 9 two_lanes).lanes
        ≡ map {A = ManifestLane}
            (λ lane. record lane { result = result_of (only_execution lane.name) })
            two_lanes.lanes)
finish_lem_example = finish_lem only_execution 9 two_lanes
