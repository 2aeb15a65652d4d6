-- ===== src/RunManifest/Types.antt =====
-- The manifest's data, its enrichment from the environment, and the record of the outcomes.
use qrl_tests.Prelude.{ℕ, String, Bool, false, Option, none, some, List, [], ◌∷◌, if◌then◌else◌}
use qrl_tests.Prelude.Int.{ℤ}
use qrl_tests.Prelude.Text.{cut_prefix, trim_space}
use qrl_tests.Prelude.FilePaths.{split_at_code}
use qrl_tests.Results.Types.{RunResult}
use qrl_tests.Devnet.Images.{Images}

pub record Sources : Type 0 where
  pub go_qrl : String
  pub qrysm : String
  pub generator : String
  pub qrl_tests_revision : String

pub record Versions : Type 0 where
  pub go : String
  pub docker : String
  pub kurtosis : String

pub record GitHub : Type 0 where
  pub repository : String
  pub workflow : String
  pub run_id : String
  pub run_attempt : String

-- A result is the text "passed" or "failed", and `none` for the empty text.
pub record ManifestLane : Type 0 where
  pub name : String
  pub enclave : String
  pub profile : String
  pub suites : List String
  pub seed : ℤ
  pub result : Option RunResult

-- Times are instants; a nil pointer to images is `none`.
pub record Manifest : Type 0 where
  pub sources : Sources
  pub images : Option Images
  pub parameters_sha256 : String
  pub package_locator : String
  pub backend : String
  pub lanes : List ManifestLane
  pub versions : Versions
  pub github : GitHub
  pub started_at : ℕ
  pub finished_at : ℕ
  pub result : Option RunResult

-- The lane's result for the entry that the map of results has under its name.
unfoldable pub finish_lane : Option Bool → ManifestLane → ManifestLane
finish_lane none lane = record lane { result = none }
finish_lane (some passed) lane = record lane {
  result = some (if passed then RunResult.passed else RunResult.failed);
}

abbrev pub keeps_overall : Option Bool → Bool
keeps_overall none = false
keeps_overall (some passed) = passed

-- The loop over the lanes, with the overall result so far.
unfoldable pub finish_lanes :
    (String → Option Bool) → RunResult → List ManifestLane → List ManifestLane × RunResult
unfolding finish_lane
finish_lanes results overall [] = ([], overall)
finish_lanes results overall (lane ∷ rest) =
    let entry = results lane.name in
    let later =
      finish_lanes results (if keeps_overall entry then overall else RunResult.failed) rest in
    (finish_lane entry lane ∷ later.0, later.1)

-- manifest.Finish(results, finishedAt)
unfoldable pub finish : (String → Option Bool) → ℕ → Manifest → Manifest
unfolding finish_lanes
finish results finished_at manifest =
    let done = finish_lanes results RunResult.passed manifest.lanes in
    record manifest { lanes = done.0; finished_at = finished_at; result = some done.1 }

-- The loop over the lines of `kurtosis version`; the line ends go with the trimming.
unfoldable pub version_in : List String → String
unfolding cut_prefix trim_space
version_in [] = ""
version_in (line ∷ rest) =
    let later = version_in rest in
    elim (cut_prefix line "CLI Version:") [ none ↦ later | some version ↦ trim_space version ]

-- What the surroundings answer; a failed probe answers the empty text.
pub record Probes : Type 0 where
  pub getenv : String → String
  pub git_head : String
  pub kurtosis_output : String
  pub go_version : String
  pub docker_version : String
  pub now : ℕ

unfoldable pub kurtosis_version : Probes → String
unfolding version_in split_at_code
kurtosis_version probes = version_in (split_at_code b'\n' probes.kurtosis_output)

unfoldable pub enrich : Probes → Manifest → Manifest
unfolding kurtosis_version
enrich probes manifest = record manifest {
  sources = record {
    go_qrl = probes.getenv "E2E_SOURCE_GO_QRL";
    qrysm = probes.getenv "E2E_SOURCE_QRYSM";
    generator = probes.getenv "E2E_SOURCE_GENERATOR";
    qrl_tests_revision = probes.git_head;
  };
  versions = record {
    go = probes.go_version;
    docker = probes.docker_version;
    kurtosis = kurtosis_version probes;
  };
  github = record {
    repository = probes.getenv "GITHUB_REPOSITORY";
    workflow = probes.getenv "GITHUB_WORKFLOW";
    run_id = probes.getenv "GITHUB_RUN_ID";
    run_attempt = probes.getenv "GITHUB_RUN_ATTEMPT";
  };
  started_at = probes.now;
}
