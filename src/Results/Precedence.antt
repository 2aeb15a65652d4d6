-- ===== src/Results/Precedence.antt =====
-- Which evidence decides a verdict.
use qrl_tests.Results.Classify.{scan_failures, classify_reports, Flags, any_report_timed_out}
use qrl_tests.Results.Types.{Failure, ClassificationEvidence, Verdict}
use qrl_tests.Prelude.{
  ◌<◌, Bool, true, false, not, ◌&&◌, ◌||◌, Option, List, [], ◌∷◌, ◌≡◌, ◌↔◌, ◌⊎◌, arith, any, str_eq,
  length,
}
use qrl_tests.Errors.{Fault}
use qrl_tests.Ginkgo.{Ginkgo, Report}

module _ (g : Ginkgo) where
  abbrev pub timed_out_failure : Failure → Bool
  timed_out_failure failure = str_eq failure.state (g.state_text g.timedout)

  abbrev pub interrupted_failure : Failure → Bool
  interrupted_failure failure =
      not (timed_out_failure failure) && str_eq failure.state (g.state_text g.interrupted)

  scan_failures_lem :
      (flags : Flags) (fs : List Failure)
      → ((scan_failures g flags fs).timed_out ≡ (flags.timed_out || any timed_out_failure fs))
        × ((scan_failures g flags fs).was_interrupted
            ≡ (flags.was_interrupted || any interrupted_failure fs))
  unfolding scan_failures
  scan_failures_lem flags [] = ground arith
  scan_failures_lem flags (f ∷ fs) = ground (
    arith,
    scan_failures_lem (record flags { timed_out = true }) fs,
    scan_failures_lem (record flags { was_interrupted = true }) fs,
    scan_failures_lem flags fs,
  )

  -- The verdict of some reports is a timeout exactly when a suite's reasons mention one or a
  -- failure's state is timed out; this outranks all other evidence.
  pub classify_reports_timeout :
      (reports : List (Report g)) (evidence : ClassificationEvidence) (err : Option Fault)
      → (classify_reports g reports evidence err ≡ Verdict.timeout)
        ↔ ((any_report_timed_out g reports || any timed_out_failure evidence.failures) ≡ true)
  unfolding classify_reports
  classify_reports_timeout reports evidence err =
      let flags =
        scan_failures_lem
          (record { timed_out = any_report_timed_out g reports; was_interrupted = false })
          evidence.failures in
      ((λ h. ground (arith, flags)), (λ h. ground (arith, flags)))

  -- The product is blamed exactly when a spec failed and none timed out or was interrupted.
  pub classify_reports_assertion :
      (reports : List (Report g)) (evidence : ClassificationEvidence) (err : Option Fault)
      → (classify_reports g reports evidence err ≡ Verdict.assertion) ↔ (
          (any_report_timed_out g reports ≡ false)
          × (any timed_out_failure evidence.failures ≡ false)
          × (any interrupted_failure evidence.failures ≡ false)
          × ((0 < evidence.counts.failed) ⊎ (0 < length evidence.failures)))
  unfolding classify_reports
  classify_reports_assertion reports evidence err =
      let flags =
        scan_failures_lem
          (record { timed_out = any_report_timed_out g reports; was_interrupted = false })
          evidence.failures in
      ((λ h. ground (arith, flags)), (λ h. ground (arith, flags)))
