-- ===== src/Results/Summarize.antt =====
-- summarizeSuite, summarizeOutcome, Summarize and VerdictError of results.go.
use qrl_tests.Prelude.{
  String, Bool, Option, none, some, List, [], ◌∷◌, ◌++◌, is_empty, str_eq, if◌then◌else◌,
}
use qrl_tests.Prelude.Text.{◌<>◌, join_text}
use qrl_tests.Prelude.FilePaths.{join_path}
use qrl_tests.Errors.{Fault, plain, wrapped, join_errors, fault_text}
use qrl_tests.Ginkgo.{Ginkgo, Report}
use qrl_tests.Results.Types.{
  Verdict, verdict_text, is_passed, RunResult, no_counts, add_counts, SuiteSummary, LaneSummary,
  Summary, suite_evidence, Outcome,
}
use qrl_tests.Results.Tally.{suite_name, tally_all}
use qrl_tests.Results.Classify.{classify_reports, classify}

abbrev pub error_text : Option Fault → String
error_text none = ""
error_text (some e) = fault_text e

-- A lane's summary before the loop over its reports.
unfoldable pub started_lane : String → String → LaneSummary
started_lane name error = record {
  name = name;
  verdict = Verdict.passed;
  counts = no_counts;
  error = error;
  failures = [];
  suite_failures = [];
  unexpected_skips = [];
  suites = [];
}

-- One round of the loop of `Summarize`.
unfoldable pub add_lane : Summary → LaneSummary → Summary
add_lane summary lane = record summary {
  lanes = summary.lanes ++ lane ∷ [];
  totals = add_counts summary.totals lane.counts;
  result = if is_passed lane.verdict then summary.result else RunResult.failed;
}

module _ (g : Ginkgo) where
  -- The suite's summary before the loop over its specs, and after it.
  unfoldable pub started : Report g → SuiteSummary
  started report = record {
    name = suite_name g report;
    verdict = Verdict.passed;
    counts = no_counts;
    failures = [];
    suite_failures = report.special_suite_failure_reasons;
    unexpected_skips = [];
  }

  unfoldable pub tallied : Report g → SuiteSummary
  unfolding started
  tallied report = tally_all g (started report) report.spec_reports

  unfoldable pub summarize_suite : Report g → SuiteSummary
  summarize_suite report =
      let result = tallied report in
      record result { verdict = classify_reports g (report ∷ []) (suite_evidence result) none }

  -- The loop over the reports.
  unfoldable pub add_suites : LaneSummary → List (Report g) → LaneSummary
  add_suites result [] = result
  add_suites result (report ∷ rest) =
      let suite = summarize_suite report in
      add_suites
        (record result {
          suites = result.suites ++ suite ∷ [];
          counts = add_counts result.counts suite.counts;
          failures = result.failures ++ suite.failures;
          suite_failures = result.suite_failures ++ suite.suite_failures;
          unexpected_skips = result.unexpected_skips ++ suite.unexpected_skips;
        })
        rest

  unfoldable pub summarize_outcome : Outcome g → LaneSummary
  unfolding started_lane
  summarize_outcome outcome =
      let result =
        add_suites
          (started_lane outcome.name
            (error_text (join_errors (outcome.err ∷ outcome.report_err ∷ []))))
          outcome.reports in
      record result { verdict = classify g outcome result }

  -- outcome.Passed()
  unfoldable pub outcome_passed : Outcome g → Bool
  outcome_passed outcome = is_passed (summarize_outcome outcome).verdict

  unfoldable pub add_lanes : Summary → List (Outcome g) → Summary
  unfolding add_lane
  add_lanes summary [] = summary
  add_lanes summary (outcome ∷ rest) = add_lanes (add_lane summary (summarize_outcome outcome)) rest

  unfoldable pub assemble : List (Outcome g) → Summary
  assemble = add_lanes (record { result = RunResult.passed; totals = no_counts; lanes = [] })

  -- The two writes are the file system's answers; the Markdown text comes from a library.
  unfoldable pub summarize :
      (write_json : String → Summary → Option Fault)
      (write_markdown : String → Summary → Option Fault)
      → String
      → List (Outcome g)
      → Summary × Option Fault
  summarize write_json write_markdown report_root outcomes =
      let summary = assemble outcomes in
      let json_err = write_json (join_path (report_root ∷ "summary.json" ∷ [])) summary in
      (
        summary,
        elim json_err [
          | some err ↦ some err
          | none ↦
              wrapped "write markdown summary"
                (write_markdown (join_path (report_root ∷ "summary.md" ∷ [])) summary)
        ],
      )

unfoldable pub lane_detail : LaneSummary → String
lane_detail lane =
    let detail = lane.name <> " (" <> verdict_text lane.verdict <> ")" in
    if str_eq lane.error "" then detail else detail <> ": " <> lane.error

-- The loop of `VerdictError`.
unfoldable pub failed_details : List LaneSummary → List String
failed_details [] = []
failed_details (lane ∷ rest) =
    let more = failed_details rest in
    if is_passed lane.verdict then more else lane_detail lane ∷ more

-- summary.VerdictError()
unfoldable pub verdict_error : Summary → Option Fault
unfolding failed_details
verdict_error summary =
    let failed = failed_details summary.lanes in
    if is_empty failed then none else some (plain ("lanes did not pass: " <> join_text failed "; "))
