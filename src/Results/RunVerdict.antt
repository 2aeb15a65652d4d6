-- ===== src/Results/RunVerdict.antt =====
-- The verdict of a run against its lanes'.
use qrl_tests.Results.LaneVerdict.{LanePasses, outcome_passed_iff}
use qrl_tests.Results.Summarize.{
  failed_details, verdict_error, add_lanes, assemble, summarize_outcome, add_lane, outcome_passed,
}
use qrl_tests.Results.Types.{LaneSummary, is_passed, Summary, Outcome, RunResult, no_counts}
use qrl_tests.Prelude.{
  true, none, List, [], ◌∷◌, ◌++◌, map, ◌≡◌, refl, ◌↔◌, arith, All, append-nil, append_assoc, subst,
  sym,
}
use qrl_tests.Ginkgo.{Ginkgo}

abbrev pub HasPassed : LaneSummary → Type 0
HasPassed lane = is_passed lane.verdict ≡ true

failed_details_nil : (lanes : List LaneSummary) → (failed_details lanes ≡ []) ↔ All HasPassed lanes
unfolding failed_details
failed_details_nil [] = ground arith
failed_details_nil (lane ∷ rest) = ground (arith, failed_details_nil rest)

verdict_error_lem :
    (summary : Summary) → (verdict_error summary ≡ none) ↔ All HasPassed summary.lanes
unfolding verdict_error
verdict_error_lem summary = ground (arith, failed_details_nil summary.lanes)

module _ (g : Ginkgo) where
  pub add_lanes_lanes :
      (summary : Summary) (outcomes : List (Outcome g))
      → (add_lanes g summary outcomes).lanes ≡ summary.lanes ++ map (summarize_outcome g) outcomes
  unfolding add_lanes
  add_lanes_lanes summary [] = rw append-nil
  add_lanes_lanes summary (outcome ∷ rest) =
      rw (add_lanes_lanes (add_lane summary (summarize_outcome g outcome)) rest)
        (unfold add_lane in rw append_assoc)

  add_lanes_result :
      (summary : Summary) (outcomes : List (Outcome g))
      → ((add_lanes g summary outcomes).result ≡ RunResult.passed)
        ↔ ((summary.result ≡ RunResult.passed) × All HasPassed (map (summarize_outcome g) outcomes))
  unfolding add_lanes
  add_lanes_result summary [] = ((λ h. (h, tt)), (λ h. h.0))
  add_lanes_result summary (outcome ∷ rest) =
      let lane = summarize_outcome g outcome in
      let ih = add_lanes_result (add_lane summary lane) rest in
      unfold add_lane in (λ h. ground (arith, ih), λ h. ground (arith, ih))

  pub HasPassed-LanePasses :
      (outcomes : List (Outcome g))
      → All HasPassed (map (summarize_outcome g) outcomes) ↔ All (LanePasses g) outcomes
  unfolding outcome_passed
  HasPassed-LanePasses [] = ((λ h. tt), (λ h. tt))
  HasPassed-LanePasses (outcome ∷ rest) =
      let here = outcome_passed_iff g outcome in
      let ih = HasPassed-LanePasses rest in
      ((λ h. (here.0 h.0, ih.0 h.1)), (λ h. (here.1 h.0, ih.1 h.1)))

  -- The run's result is "passed", and the error that the process exits with nil, exactly when
  -- every lane passes.
  pub run_verdict :
      (outcomes : List (Outcome g))
      → (((assemble g outcomes).result ≡ RunResult.passed) ↔ All (LanePasses g) outcomes)
        × ((verdict_error (assemble g outcomes) ≡ none) ↔ All (LanePasses g) outcomes)
  unfolding assemble
  run_verdict outcomes =
      let start : Summary = record { result = RunResult.passed; totals = no_counts; lanes = [] } in
      let lanes = add_lanes_lanes start outcomes in
      let result = add_lanes_result start outcomes in
      let passes = HasPassed-LanePasses outcomes in
      let error = verdict_error_lem (add_lanes g start outcomes) in
      (
        ((λ h. passes.0 (result.0 h).1), (λ h. result.1 (refl, passes.1 h))),
        (
          (λ h. passes.0 (subst (All HasPassed) lanes (error.0 h))),
          (λ h. error.1 (subst (All HasPassed) (sym lanes) (passes.1 h))),
        ),
      )
