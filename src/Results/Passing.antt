-- ===== src/Results/Passing.antt =====
-- When a suite and a lane pass.
use qrl_tests.Prelude.{
  ◌<◌, true, false, Option, none, List, [], ◌∷◌, ◌≡◌, refl, ◌↔◌, arith, nil_of_length, All, any,
  count_where, Bool-cases, ap, inl, length, inr,
}
use qrl_tests.Errors.{Fault}
use qrl_tests.Ginkgo.{Ginkgo, SpecReport, Report}
use qrl_tests.Results.Types.{Verdict, Failure, suite_evidence, ClassificationEvidence}
use qrl_tests.Results.Classify.{
  Flags, any_report_timed_out, any_report_failed, scan_failures, classify_reports, mentions_timeout,
}
use qrl_tests.Results.Counting.{
  passes, is_unrun, fails, in_failure_state, tallied-Counted, passed_ne,
}
use qrl_tests.Results.Summarize.{tallied, summarize_suite}

module _ (g : Ginkgo) where
  -- What a passing classification rests on.
  pub record IsClean (reports : List (Report g)) (evidence : ClassificationEvidence)
      (err : Option Fault) : Type 0 where
    pub no_timeout : any_report_timed_out g reports ≡ false
    pub no_failures : evidence.failures ≡ []
    pub none_failed : evidence.counts.failed ≡ 0
    pub no_skips : evidence.unexpected_skips ≡ []
    pub succeeded : any_report_failed g reports ≡ false
    pub no_error : err ≡ none
    pub some_passed : 0 < evidence.counts.passed

  scan_failures-timed_out :
      (flags : Flags) (fs : List Failure)
      → flags.timed_out ≡ true
      → (scan_failures g flags fs).timed_out ≡ true
  unfolding scan_failures
  scan_failures-timed_out flags [] h = h
  scan_failures-timed_out flags (f ∷ fs) h = ground (
    arith,
    scan_failures-timed_out (record flags { timed_out = true }) fs,
    scan_failures-timed_out (record flags { was_interrupted = true }) fs,
    scan_failures-timed_out flags fs,
  )

  pub classify_reports-IsClean :
      (reports : List (Report g)) (evidence : ClassificationEvidence) (err : Option Fault)
      → classify_reports g reports evidence err ≡ Verdict.passed
      → IsClean reports evidence err
  unfolding classify_reports
  classify_reports-IsClean reports evidence err h = ground (
    arith,
    scan_failures-timed_out
        (record { timed_out = any_report_timed_out g reports; was_interrupted = false })
        evidence.failures,
    nil_of_length evidence.failures,
    nil_of_length evidence.unexpected_skips,
  )

  pub IsClean-classify_reports :
      (reports : List (Report g)) (evidence : ClassificationEvidence) (err : Option Fault)
      → IsClean reports evidence err
      → classify_reports g reports evidence err ≡ Verdict.passed
  unfolding classify_reports
  IsClean-classify_reports reports evidence err h = ground arith

  -- An ordinary spec raises no failure, and an It has passed.
  pub record IsGood (spec : SpecReport g) : Type 0 where
    pub no_failure : g.is_failure_state spec.state ≡ false
    pub it_passed : g.is_it spec.leaf_node_type ≡ true → spec.state ≡ g.passed

  pub record IsPassing (report : Report g) : Type 0 where
    pub succeeded : report.suite_succeeded ≡ true
    pub no_timeout : any mentions_timeout report.special_suite_failure_reasons ≡ false
    pub good : All IsGood report.spec_reports
    pub some_passed : 0 < count_where (passes g) report.spec_reports

  good_of_counts :
      (xs : List (SpecReport g))
      → count_where (in_failure_state g) xs ≡ 0
      → count_where (fails g) xs ≡ 0
      → count_where (is_unrun g) xs ≡ 0
      → All IsGood xs
  good_of_counts [] a b c = tt
  good_of_counts (x ∷ xs) a b c = (
    record {
      no_failure = ground arith;
      it_passed = λ it. (g.same_state_iff x.state g.passed).0 (ground arith);
    },
    good_of_counts xs (omega arith) (omega arith) (omega arith),
  )

  counts_of_good :
      (xs : List (SpecReport g))
      → All IsGood xs
      → (count_where (in_failure_state g) xs ≡ 0)
        × (count_where (fails g) xs ≡ 0)
        × (count_where (is_unrun g) xs ≡ 0)
  counts_of_good [] h = (refl, refl, refl)
  counts_of_good (x ∷ xs) h = elim (Bool-cases (g.is_it x.leaf_node_type)) [
    | inl it ↦
        let p : g.same_state x.state g.passed ≡ true =
          (g.same_state_iff x.state g.passed).1 (h.0.it_passed it) in
        ground (arith, h.0.no_failure, passed_ne g x.state p, counts_of_good xs h.1)
    | inr other ↦ ground (arith, h.0.no_failure, counts_of_good xs h.1)
  ]

  IsPassing-IsClean :
      (report : Report g)
      → IsClean (report ∷ []) (suite_evidence (tallied g report)) none
      → IsPassing report
  unfolding any_report_timed_out any_report_failed suite_evidence
  IsPassing-IsClean report clean =
      let counted = tallied-Counted g report in
      record {
        succeeded = ground (arith, clean.succeeded);
        no_timeout = ground (arith, clean.no_timeout);
        good =
            good_of_counts report.spec_reports (omega (arith, counted, ap length clean.no_failures))
              (omega (arith, counted, clean.none_failed))
              (omega (arith, counted, ap length clean.no_skips));
        some_passed = omega (arith, counted, clean.some_passed);
      }

  pub IsClean-IsPassing :
      (report : Report g)
      → IsPassing report
      → IsClean (report ∷ []) (suite_evidence (tallied g report)) none
  unfolding any_report_timed_out any_report_failed suite_evidence
  IsClean-IsPassing report p =
      let counted = tallied-Counted g report in
      let (a, b, c) = counts_of_good report.spec_reports p.good in
      record {
        no_timeout = ground (arith, p.no_timeout);
        no_failures = nil_of_length _ (omega (arith, counted));
        none_failed = omega (arith, counted);
        no_skips = nil_of_length _ (omega (arith, counted));
        succeeded = ground (arith, p.succeeded);
        no_error = refl;
        some_passed = omega (arith, counted, p.some_passed);
      }

  -- A suite passes exactly when it succeeded with no timeout among its reasons, no spec is in a
  -- failure state, every It has passed, and some It has.
  pub summarize_suite_passed :
      (report : Report g) → ((summarize_suite g report).verdict ≡ Verdict.passed) ↔ IsPassing report
  unfolding summarize_suite
  summarize_suite_passed report = (
    λ h. IsPassing-IsClean report (classify_reports-IsClean _ _ _ h),
    λ p. IsClean-classify_reports _ _ _ (IsClean-IsPassing report p),
  )
