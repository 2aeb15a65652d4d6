-- ===== src/Results/Totals.antt =====
-- A lane's summary against its suites', and when a lane passes.
use qrl_tests.Errors.{join_errors}
use qrl_tests.Prelude.{
  ◌+◌, List, [], ◌∷◌, ◌++◌, map, ◌≡◌, arith, sum_of, concat_map, append-nil, append_assoc,
}
use qrl_tests.Ginkgo.{Ginkgo, Report}
use qrl_tests.Results.Types.{LaneSummary, add_counts, Outcome}
use qrl_tests.Results.Summarize.{
  summarize_suite, add_suites, summarize_outcome, started_lane, error_text,
}

module _ (g : Ginkgo) where
  -- What the loop over the reports adds to a lane's summary.
  pub record Gathers (before after : LaneSummary) (reports : List (Report g)) : Type 0 where
    pub suites : after.suites ≡ before.suites ++ map (summarize_suite g) reports
    pub specs :
        after.counts.specs
        ≡ before.counts.specs + sum_of (λ r. (summarize_suite g r).counts.specs) reports
    pub passed :
        after.counts.passed
        ≡ before.counts.passed + sum_of (λ r. (summarize_suite g r).counts.passed) reports
    pub failed :
        after.counts.failed
        ≡ before.counts.failed + sum_of (λ r. (summarize_suite g r).counts.failed) reports
    pub pending :
        after.counts.pending
        ≡ before.counts.pending + sum_of (λ r. (summarize_suite g r).counts.pending) reports
    pub skipped :
        after.counts.skipped
        ≡ before.counts.skipped + sum_of (λ r. (summarize_suite g r).counts.skipped) reports
    pub failures :
        after.failures ≡ before.failures ++ concat_map (λ r. (summarize_suite g r).failures) reports
    pub suite_failures :
        after.suite_failures
        ≡ before.suite_failures ++ concat_map (λ r. (summarize_suite g r).suite_failures) reports
    pub unexpected_skips :
        after.unexpected_skips
        ≡ before.unexpected_skips
          ++ concat_map (λ r. (summarize_suite g r).unexpected_skips) reports

  -- One round of the loop.
  abbrev with_suite : LaneSummary → Report g → LaneSummary
  with_suite result report =
      let suite = summarize_suite g report in
      record result {
        suites = result.suites ++ suite ∷ [];
        counts = add_counts result.counts suite.counts;
        failures = result.failures ++ suite.failures;
        suite_failures = result.suite_failures ++ suite.suite_failures;
        unexpected_skips = result.unexpected_skips ++ suite.unexpected_skips;
      }

  pub add_suites-Gathers :
      (result : LaneSummary) (reports : List (Report g))
      → Gathers result (add_suites g result reports) reports
  unfolding add_suites add_counts
  add_suites-Gathers result [] = record {
    suites = rw append-nil;
    specs = omega arith;
    passed = omega arith;
    failed = omega arith;
    pending = omega arith;
    skipped = omega arith;
    failures = rw append-nil;
    suite_failures = rw append-nil;
    unexpected_skips = rw append-nil;
  }
  add_suites-Gathers result (report ∷ rest) =
      let ih = add_suites-Gathers (with_suite result report) rest in
      record {
        suites = rw ih.suites (rw append_assoc);
        specs = omega (arith, ih.specs);
        passed = omega (arith, ih.passed);
        failed = omega (arith, ih.failed);
        pending = omega (arith, ih.pending);
        skipped = omega (arith, ih.skipped);
        failures = rw ih.failures (rw append_assoc);
        suite_failures = rw ih.suite_failures (rw append_assoc);
        unexpected_skips = rw ih.unexpected_skips (rw append_assoc);
      }

  -- The counts of a lane's summary are the sums of its suites' counts, and its failures,
  -- suite failures and unexpected skips are theirs in order.
  pub summarize_outcome-Gathers :
      (outcome : Outcome g)
      → Gathers (started_lane outcome.name "") (summarize_outcome g outcome) outcome.reports
  unfolding summarize_outcome
  summarize_outcome-Gathers outcome =
      let error = error_text (join_errors (outcome.err ∷ outcome.report_err ∷ [])) in
      let all = add_suites-Gathers (started_lane outcome.name error) outcome.reports in
      record {
        suites = all.suites;
        specs = all.specs;
        passed = all.passed;
        failed = all.failed;
        pending = all.pending;
        skipped = all.skipped;
        failures = all.failures;
        suite_failures = all.suite_failures;
        unexpected_skips = all.unexpected_skips;
      }
