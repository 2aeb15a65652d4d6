-- ===== src/Results/Tests.antt =====
-- Ginkgo's states as numbers, a run of two lanes, and the theorems about internal/results there.
use qrl_tests.Results.Precedence.{
  timed_out_failure, classify_reports_timeout, interrupted_failure, classify_reports_assertion,
}
use qrl_tests.Results.RunVerdict.{run_verdict}
use qrl_tests.Results.Passing.{IsPassing, summarize_suite_passed}
use qrl_tests.Results.Tally.{tally_all, spec_name, failure_of, tally}
use qrl_tests.Prelude.Text.{decimal}
use qrl_tests.Results.LaneVerdict.{LanePasses, outcome_passed_iff}
use qrl_tests.Results.Classify.{classify_reports, classify, any_report_timed_out, any_report_failed}
use qrl_tests.Results.Totals.{Gathers, summarize_outcome-Gathers}
use qrl_tests.Results.Summarize.{
  summarize_outcome, summarize_suite, outcome_passed, assemble, tallied, started_lane,
  verdict_error, add_suites,
}
use qrl_tests.Results.Types.{
  Outcome, ClassificationEvidence, Verdict, RunResult, suite_evidence, lane_evidence, add_counts,
}
use qrl_tests.Prelude.{
  ℕ, ◌<◌, Bool, true, false, none, List, [], ◌∷◌, ◌≡◌, ◌≢◌, refl, ◌↔◌, arith, All, ◌==◌, ==_iff,
  leb, ◌||◌, any, ◌⊎◌, length,
}
use qrl_tests.Errors.{is_error, join_errors}
use qrl_tests.Ginkgo.{Ginkgo, Report, SpecReport}

pub passed_ne_pending : ◌≢◌ {A = ℕ} 3 1
passed_ne_pending = omega arith

pub passed_ne_skipped : ◌≢◌ {A = ℕ} 3 2
passed_ne_skipped = omega arith

-- Pending, skipped, passed, and from 4 up the failure states.
abbrev pub numbered : Ginkgo
numbered = record {
  SpecState = ℕ;
  same_state = ◌==◌;
  same_state_iff = ==_iff;
  state_text = decimal;
  passed = 3;
  pending = 1;
  skipped = 2;
  timedout = 5;
  interrupted = 6;
  passed_ne_pending = passed_ne_pending;
  passed_ne_skipped = passed_ne_skipped;
  is_failure_state = leb 4;
  passed_no_failure = refl;
  pending_no_failure = refl;
  skipped_no_failure = refl;
  timedout_failure = refl;
  interrupted_failure = refl;
  NodeType = Bool;
  is_it = λ b. b;
  node_text = λ b. "It";
}

abbrev pub spec_in : ℕ → SpecReport numbered
spec_in state = record {
  container_hierarchy_texts = "console" ∷ [];
  leaf_node_type = true;
  leaf_node_text = "answers";
  state = state;
  failure_message = "no answer";
  failure_file_name = "e2e_test.go";
  failure_line_number = 42;
}

abbrev pub report_of : List (SpecReport numbered) → Bool → Report numbered
report_of specs succeeded = record {
  suite_description = " Console ";
  suite_path = "/e2e/suites/execution/console";
  suite_succeeded = succeeded;
  special_suite_failure_reasons = [];
  spec_reports = specs;
}

abbrev pub good_report : Report numbered
good_report = report_of (spec_in 3 ∷ []) true

abbrev pub mixed_report : Report numbered
mixed_report = report_of (spec_in 3 ∷ spec_in 4 ∷ spec_in 2 ∷ []) false

abbrev pub lane_with : Report numbered → Outcome numbered
lane_with report = record {
  name = "execution";
  err = none;
  execution_err = none;
  bootstrap_failed = false;
  reports = report ∷ [];
  report_err = none;
}

mixed_verdict : (summarize_outcome numbered (lane_with mixed_report)).verdict ≡ Verdict.assertion
unfolding summarize_outcome summarize_suite classify classify_reports tally_all tallied
    lane_evidence suite_evidence add_counts spec_name any_report_timed_out any_report_failed
    add_suites is_error failure_of tally join_errors
mixed_verdict = refl

summarize_suite_passed_example :
    ((summarize_suite numbered mixed_report).verdict ≡ Verdict.passed)
    ↔ IsPassing numbered mixed_report
summarize_suite_passed_example = summarize_suite_passed numbered mixed_report

summarize_outcome-Gathers_example :
    Gathers numbered
      (started_lane "execution" "")
      (summarize_outcome numbered (lane_with mixed_report))
      (mixed_report ∷ [])
summarize_outcome-Gathers_example = summarize_outcome-Gathers numbered (lane_with mixed_report)

outcome_passed_iff_example :
    (outcome_passed numbered (lane_with good_report) ≡ true)
    ↔ LanePasses numbered (lane_with good_report)
outcome_passed_iff_example = outcome_passed_iff numbered (lane_with good_report)

run_verdict_example :
    (((assemble numbered (lane_with good_report ∷ [])).result ≡ RunResult.passed)
      ↔ All (LanePasses numbered) (lane_with good_report ∷ []))
    × ((verdict_error (assemble numbered (lane_with good_report ∷ [])) ≡ none)
        ↔ All (LanePasses numbered) (lane_with good_report ∷ []))
run_verdict_example = run_verdict numbered (lane_with good_report ∷ [])

abbrev evidence_of : Report numbered → ClassificationEvidence
evidence_of report = suite_evidence (tallied numbered report)

classify_reports_timeout_example :
    (classify_reports numbered (good_report ∷ []) (evidence_of good_report) none ≡ Verdict.timeout)
    ↔ ((any_report_timed_out numbered (good_report ∷ [])
          || any (timed_out_failure numbered) (evidence_of good_report).failures)
        ≡ true)
classify_reports_timeout_example =
    classify_reports_timeout numbered (good_report ∷ []) (evidence_of good_report) none

classify_reports_assertion_example :
    (classify_reports numbered (mixed_report ∷ []) (evidence_of mixed_report) none
      ≡ Verdict.assertion)
    ↔ ((any_report_timed_out numbered (mixed_report ∷ []) ≡ false)
        × (any (timed_out_failure numbered) (evidence_of mixed_report).failures ≡ false)
        × (any (interrupted_failure numbered) (evidence_of mixed_report).failures ≡ false)
        × ((0 < (evidence_of mixed_report).counts.failed)
            ⊎ (0 < length (evidence_of mixed_report).failures)))
classify_reports_assertion_example =
    classify_reports_assertion numbered (mixed_report ∷ []) (evidence_of mixed_report) none
