-- ===== src/Results/LaneVerdict.antt =====
-- When a lane passes.
use qrl_tests.Results.Totals.{add_suites-Gathers, Gathers}
use qrl_tests.Results.Summarize.{
  summarize_suite, outcome_passed, summarize_outcome, started_lane, add_suites, error_text,
}
use qrl_tests.Results.Passing.{
  IsPassing, summarize_suite_passed, IsClean-IsPassing, classify_reports-IsClean, IsClean,
  IsClean-classify_reports,
}
use qrl_tests.Results.Classify.{
  first_failing, any_report_timed_out, any_report_failed, classify, classify_reports,
}
use qrl_tests.Results.Types.{Outcome, Verdict, suite_evidence, LaneSummary, lane_evidence}
use qrl_tests.Prelude.{
  ◌<◌, true, false, none, List, [], ◌∷◌, map, ◌≡◌, ◌≢◌, refl, ◌↔◌, arith, All, sum_of, concat_map,
  length, ◌≤◌, subst, ◌∙◌, sym,
}
use qrl_tests.Errors.{canceled, deadline_exceeded, is_error, join_errors}
use qrl_tests.Ginkgo.{Ginkgo, Report}

module _ (g : Ginkgo) where
  pub record LanePasses (outcome : Outcome g) : Type 0 where
    pub bootstrapped : outcome.bootstrap_failed ≡ false
    pub not_canceled : is_error outcome.execution_err canceled ≡ false
    pub in_time : is_error outcome.execution_err deadline_exceeded ≡ false
    pub no_error : outcome.err ≡ none
    pub reports_read : outcome.report_err ≡ none
    pub has_reports : outcome.reports ≢ []
    pub suites_pass : All (IsPassing g) outcome.reports

  first_failing_passed :
      (reports : List (Report g))
      → first_failing (map (summarize_suite g) reports) ≡ Verdict.passed
      → All (IsPassing g) reports
  unfolding first_failing
  first_failing_passed [] h = tt
  first_failing_passed (report ∷ rest) h =
      let split : ((summarize_suite g report).verdict ≡ Verdict.passed)
          × (first_failing (map (summarize_suite g) rest) ≡ Verdict.passed) =
        ground arith in
      ((summarize_suite_passed g report).0 split.0, first_failing_passed rest split.1)

  passed_first_failing :
      (reports : List (Report g))
      → All (IsPassing g) reports
      → first_failing (map (summarize_suite g) reports) ≡ Verdict.passed
  unfolding first_failing
  passed_first_failing [] h = refl
  passed_first_failing (report ∷ rest) h =
      ground (arith, (summarize_suite_passed g report).1 h.0, passed_first_failing rest h.1)

  any_timed_out_false :
      (reports : List (Report g))
      → All (IsPassing g) reports
      → (any_report_timed_out g reports ≡ false) × (any_report_failed g reports ≡ false)
  unfolding any_report_timed_out any_report_failed
  any_timed_out_false [] h = (refl, refl)
  any_timed_out_false (report ∷ rest) h =
      ground (arith, h.0.no_timeout, h.0.succeeded, any_timed_out_false rest h.1)

  -- The evidence that passing suites leave.
  sums_of_passing :
      (reports : List (Report g))
      → All (IsPassing g) reports
      → (sum_of (λ r. (summarize_suite g r).counts.failed) reports ≡ 0)
        × (length reports ≤ sum_of (λ r. (summarize_suite g r).counts.passed) reports)
        × (concat_map (λ r. (summarize_suite g r).failures) reports ≡ [])
        × (concat_map (λ r. (summarize_suite g r).unexpected_skips) reports ≡ [])
  unfolding summarize_suite suite_evidence
  sums_of_passing [] h = (refl, omega arith, refl, refl)
  sums_of_passing (report ∷ rest) h =
      let clean = IsClean-IsPassing g report h.0 in
      let (a, b, c, d) = sums_of_passing rest h.1 in
      (
        omega (arith, clean.none_failed),
        omega (arith, clean.some_passed),
        rw clean.no_failures c,
        rw clean.no_skips d,
      )

  -- What a lane's verdict needs beyond its suites.
  record Ran (outcome : Outcome g) : Type 0 where
    bootstrapped : outcome.bootstrap_failed ≡ false
    not_canceled : is_error outcome.execution_err canceled ≡ false
    in_time : is_error outcome.execution_err deadline_exceeded ≡ false
    reports_read : outcome.report_err ≡ none
    has_reports : outcome.reports ≢ []

  ran_of_classify :
      (outcome : Outcome g) (lane : LaneSummary)
      → classify g outcome lane ≡ Verdict.passed
      → Ran outcome
  unfolding classify
  ran_of_classify outcome lane h = record {
    bootstrapped = ground arith;
    not_canceled = ground arith;
    in_time = ground arith;
    reports_read = ground arith;
    has_reports = λ e. ground arith;
  }

  suites_of_classify :
      (outcome : Outcome g) (lane : LaneSummary)
      → classify g outcome lane ≡ Verdict.passed
      → (classify_reports g outcome.reports (lane_evidence lane) outcome.err ≡ Verdict.passed)
        × (first_failing lane.suites ≡ Verdict.passed)
  unfolding classify
  suites_of_classify outcome lane h = ground arith

  classify_of_parts :
      (outcome : Outcome g) (lane : LaneSummary)
      → Ran outcome
      → classify_reports g outcome.reports (lane_evidence lane) outcome.err ≡ Verdict.passed
      → first_failing lane.suites ≡ Verdict.passed
      → classify g outcome lane ≡ Verdict.passed
  unfolding classify
  classify_of_parts outcome lane ran a b = ground arith

  lane_before_verdict : Outcome g → LaneSummary
  lane_before_verdict outcome =
      add_suites g
        (started_lane outcome.name
          (error_text (join_errors (outcome.err ∷ outcome.report_err ∷ []))))
        outcome.reports

  gathered :
      (outcome : Outcome g)
      → Gathers g
          (started_lane outcome.name
            (error_text (join_errors (outcome.err ∷ outcome.report_err ∷ []))))
          (lane_before_verdict outcome)
          outcome.reports
  unfolding lane_before_verdict
  gathered outcome = add_suites-Gathers g _ outcome.reports

  pub length_pos : (reports : List (Report g)) → reports ≢ [] → 0 < length reports
  length_pos [] h = absurd (h refl)
  length_pos (report ∷ rest) h = omega arith

  lane-IsClean :
      (outcome : Outcome g)
      → LanePasses outcome
      → IsClean g outcome.reports (lane_evidence (lane_before_verdict outcome)) outcome.err
  unfolding lane_evidence started_lane
  lane-IsClean outcome p =
      let all = gathered outcome in
      let (failed, passed, failures, skips) = sums_of_passing outcome.reports p.suites_pass in
      let (timed, broken) = any_timed_out_false outcome.reports p.suites_pass in
      record {
        no_timeout = timed;
        no_failures = all.failures ∙ failures;
        none_failed = omega (arith, all.failed);
        no_skips = all.unexpected_skips ∙ skips;
        succeeded = broken;
        no_error = p.no_error;
        some_passed = omega (arith, all.passed, length_pos outcome.reports p.has_reports);
      }

  passes_of_verdict :
      (outcome : Outcome g)
      → classify g outcome (lane_before_verdict outcome) ≡ Verdict.passed
      → LanePasses outcome
  unfolding started_lane
  passes_of_verdict outcome h =
      let ran = ran_of_classify outcome _ h in
      let parts = suites_of_classify outcome (lane_before_verdict outcome) h in
      let clean = classify_reports-IsClean g outcome.reports _ outcome.err parts.0 in
      record {
        bootstrapped = ran.bootstrapped;
        not_canceled = ran.not_canceled;
        in_time = ran.in_time;
        no_error = clean.no_error;
        reports_read = ran.reports_read;
        has_reports = ran.has_reports;
        suites_pass = first_failing_passed outcome.reports (
            subst (λ suites. first_failing suites ≡ Verdict.passed) (gathered outcome).suites
              parts.1);
      }

  verdict_of_passes :
      (outcome : Outcome g)
      → LanePasses outcome
      → classify g outcome (lane_before_verdict outcome) ≡ Verdict.passed
  unfolding started_lane
  verdict_of_passes outcome p =
      classify_of_parts outcome (lane_before_verdict outcome)
        (record {
          bootstrapped = p.bootstrapped;
          not_canceled = p.not_canceled;
          in_time = p.in_time;
          reports_read = p.reports_read;
          has_reports = p.has_reports;
        })
        (IsClean-classify_reports g _ _ _ (lane-IsClean outcome p))
        (subst (λ suites. first_failing suites ≡ Verdict.passed) (sym (gathered outcome).suites)
          (passed_first_failing outcome.reports p.suites_pass))

  -- A lane passes exactly when its network came up, its process was neither canceled nor out of
  -- time, it has no error, its reports could be read and are not empty, and each of its suites
  -- passes.
  pub outcome_passed_iff :
      (outcome : Outcome g) → (outcome_passed g outcome ≡ true) ↔ LanePasses outcome
  unfolding outcome_passed summarize_outcome lane_before_verdict
  outcome_passed_iff outcome =
      (λ h. passes_of_verdict outcome (ground arith), λ p. rw (verdict_of_passes outcome p))
