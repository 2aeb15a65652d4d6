-- ===== src/Results/Types.antt =====
-- The data of internal/results/results.go: verdicts, counts, failures and the three summaries.
use qrl_tests.Prelude.{ℕ, ◌+◌, String, Bool, true, false, Option, List}
use qrl_tests.Errors.{Fault}
use qrl_tests.Ginkgo.{Ginkgo, Report}

-- The lane verdicts, which the source names by text constants.
pub data Verdict : Type 0 where
  bootstrap infrastructure timeout canceled assertion skipped passed : Verdict

unfoldable pub verdict_text : Verdict → String
verdict_text Verdict.bootstrap = "bootstrap"
verdict_text Verdict.infrastructure = "infrastructure"
verdict_text Verdict.timeout = "timeout"
verdict_text Verdict.canceled = "canceled"
verdict_text Verdict.assertion = "assertion"
verdict_text Verdict.skipped = "skipped"
verdict_text Verdict.passed = "passed"

-- verdict == VerdictPassed
abbrev pub is_passed : Verdict → Bool
is_passed Verdict.passed = true
is_passed _ = false

-- The two texts of a result, "passed" and "failed".
pub data RunResult : Type 0 where
  passed failed : RunResult

-- Numbers of specs are far below the range of a Go int.
pub record Counts : Type 0 where
  pub specs : ℕ
  pub passed : ℕ
  pub failed : ℕ
  pub pending : ℕ
  pub skipped : ℕ

abbrev pub no_counts : Counts
no_counts = record { specs = 0; passed = 0; failed = 0; pending = 0; skipped = 0 }

-- counts.add(other)
unfoldable pub add_counts : Counts → Counts → Counts
add_counts counts other = record {
  specs = counts.specs + other.specs;
  passed = counts.passed + other.passed;
  failed = counts.failed + other.failed;
  pending = counts.pending + other.pending;
  skipped = counts.skipped + other.skipped;
}

pub record Failure : Type 0 where
  pub spec : String
  pub state : String
  pub message : String
  pub location : String

pub record ClassificationEvidence : Type 0 where
  pub counts : Counts
  pub failures : List Failure
  pub unexpected_skips : List String

pub record SuiteSummary : Type 0 where
  pub name : String
  pub verdict : Verdict
  pub counts : Counts
  pub failures : List Failure
  pub suite_failures : List String
  pub unexpected_skips : List String

-- `error` is the text of the lane's error, empty if there is none.
pub record LaneSummary : Type 0 where
  pub name : String
  pub verdict : Verdict
  pub counts : Counts
  pub error : String
  pub failures : List Failure
  pub suite_failures : List String
  pub unexpected_skips : List String
  pub suites : List SuiteSummary

pub record Summary : Type 0 where
  pub result : RunResult
  pub totals : Counts
  pub lanes : List LaneSummary

unfoldable pub suite_evidence : SuiteSummary → ClassificationEvidence
suite_evidence summary = record {
  counts = summary.counts;
  failures = summary.failures;
  unexpected_skips = summary.unexpected_skips;
}

unfoldable pub lane_evidence : LaneSummary → ClassificationEvidence
lane_evidence summary = record {
  counts = summary.counts;
  failures = summary.failures;
  unexpected_skips = summary.unexpected_skips;
}

module _ (g : Ginkgo) where
  pub record Outcome : Type 0 where
    pub name : String
    pub err : Option Fault
    pub execution_err : Option Fault
    pub bootstrap_failed : Bool
    pub reports : List (Report g)
    pub report_err : Option Fault
