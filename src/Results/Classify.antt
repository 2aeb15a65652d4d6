-- ===== src/Results/Classify.antt =====
-- How results.go turns reports and evidence into a verdict.
use qrl_tests.Prelude.{
  String, Bool, true, false, not, ◌||◌, Option, List, [], ◌∷◌, str_eq, is_some, is_empty, any,
  length, ltb, ◌==◌, if◌then◌else◌,
}
use qrl_tests.Prelude.Text.{contains_lowered}
use qrl_tests.Errors.{Fault, canceled, deadline_exceeded, is_error}
use qrl_tests.Ginkgo.{Ginkgo, Report}
use qrl_tests.Results.Types.{
  Verdict, is_passed, Failure, ClassificationEvidence, SuiteSummary, LaneSummary, Outcome,
  lane_evidence,
}

unfoldable pub mentions_timeout : String → Bool
mentions_timeout reason = contains_lowered reason "timeout"

-- The flags that the loop over the failures may raise.
pub record Flags : Type 0 where
  pub timed_out : Bool
  pub was_interrupted : Bool

-- The loop over the suites that follows a lane's own passing classification.
unfoldable pub first_failing : List SuiteSummary → Verdict
first_failing [] = Verdict.passed
first_failing (suite ∷ rest) = if is_passed suite.verdict then first_failing rest else suite.verdict

module _ (g : Ginkgo) where
  unfoldable pub any_report_timed_out : List (Report g) → Bool
  any_report_timed_out = any (λ report. any mentions_timeout report.special_suite_failure_reasons)

  unfoldable pub any_report_failed : List (Report g) → Bool
  any_report_failed = any (λ report. not report.suite_succeeded)

  unfoldable pub scan_failures : Flags → List Failure → Flags
  scan_failures flags [] = flags
  scan_failures flags (failure ∷ rest) =
      scan_failures
        (if str_eq failure.state (g.state_text g.timedout)
          then record flags { timed_out = true }
          else if str_eq failure.state (g.state_text g.interrupted)
          then record flags { was_interrupted = true }
          else flags)
        rest

  -- The switch of `classifyReports`.
  unfoldable pub verdict_of :
      Flags → List (Report g) → ClassificationEvidence → Option Fault → Verdict
  verdict_of flags reports evidence run_err =
      if flags.timed_out
      then Verdict.timeout
      else if flags.was_interrupted
      then Verdict.infrastructure
      else if ltb 0 evidence.counts.failed || ltb 0 (length evidence.failures)
      then Verdict.assertion
      else if ltb 0 (length evidence.unexpected_skips)
      then Verdict.skipped
      else if any_report_failed reports
      then Verdict.infrastructure
      else if is_some run_err
      then Verdict.infrastructure
      else if evidence.counts.passed == 0
      then Verdict.infrastructure
      else Verdict.passed

  unfoldable pub classify_reports :
      List (Report g) → ClassificationEvidence → Option Fault → Verdict
  unfolding scan_failures verdict_of
  classify_reports reports evidence run_err =
      verdict_of
        (scan_failures
          (record { timed_out = any_report_timed_out reports; was_interrupted = false })
          evidence.failures)
        reports evidence run_err

  unfoldable pub classify : Outcome g → LaneSummary → Verdict
  unfolding is_error first_failing
  classify outcome summary =
      if outcome.bootstrap_failed
      then Verdict.bootstrap
      else if is_error outcome.execution_err canceled
      then Verdict.canceled
      else if is_error outcome.execution_err deadline_exceeded
      then Verdict.timeout
      else if is_some outcome.report_err || is_empty outcome.reports
      then Verdict.infrastructure
      else let classification =
          classify_reports outcome.reports (lane_evidence summary) outcome.err in
        if is_passed classification then first_failing summary.suites else classification
