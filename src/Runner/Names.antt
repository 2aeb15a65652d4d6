-- ===== src/Runner/Names.antt =====
-- The name under which a lane is reported, and the map of results by name.
use qrl_tests.Runner.Passed.{finish_lane_lem}
use qrl_tests.Runner.Release.{acquired, execute_lane-acquired}
use qrl_tests.Errors.{Result-cases}
use qrl_tests.Results.RunVerdict.{HasPassed}
use qrl_tests.RunManifest.Outcomes.{PassedIn}
use qrl_tests.Runner.Run.{lane_results, manifest_lane}
use qrl_tests.Results.Types.{LaneSummary, Outcome}
use qrl_tests.Results.Summarize.{add_suites, summarize_outcome, started_lane}
use qrl_tests.Runner.Lane.{
  Surroundings, lane_body, run_lane, with_log, execute_lane, with_images, after_log, run_process,
  capture_reports, LaneLease, fresh_outcome,
}
use qrl_tests.Ginkgo.{Ginkgo, Report}
use qrl_tests.Runner.Plan.{LaneRun, Config, RunPlan}
use qrl_tests.Prelude.{
  String, false, ◌≢◌, ◌≡◌, refl, ◌↔◌, arith, All, List, [], ◌∷◌, map, str_eq, eq_iff, none,
  Bool-cases, inl, inr, sym, ◌∙◌,
}

abbrev pub HasDistinctNames : List LaneRun → Type 0
HasDistinctNames [] = Unit
HasDistinctNames (r ∷ rest) =
    All (λ (s : LaneRun). r.definition.name ≢ s.definition.name) rest × HasDistinctNames rest

module _ (g : Ginkgo) (world : Surroundings g) where
  lane_body-name :
      (lane : LaneRun) (lease : LaneLease) (outcome : Outcome g)
      → (lane_body g world lane lease outcome).outcome.name ≡ outcome.name
  unfolding lane_body with_log with_images run_process capture_reports
  lane_body-name lane lease outcome = ground arith

  pub run_lane-name :
      (configuration : Config) (plan : RunPlan) (lane : LaneRun)
      → (run_lane g world configuration plan lane).0.name ≡ lane.definition.name
  unfolding run_lane execute_lane after_log
  run_lane-name configuration plan lane =
      elim (Result-cases (acquired g world configuration plan lane)) [
        | inr (fault, e) ↦ ground (arith, e)
        | inl (lease, e) ↦
            let outcome = fresh_outcome g world lane.definition.name in
            let ran = lane_body g world lane lease outcome in
            rw
              (
                execute_lane-acquired g world configuration plan lane lease e,
                finish_lane_lem g world lane lease ran,
              )
              (ground (arith, lane_body-name lane lease outcome))
      ]

module _ (g : Ginkgo) where
  add_suites-name :
      (reports : List (Report g)) (lane : LaneSummary)
      → (add_suites g lane reports).name ≡ lane.name
  unfolding add_suites
  add_suites-name [] lane = refl
  add_suites-name (report ∷ rest) lane = add_suites-name rest _

  pub summarize_outcome-name :
      (outcome : Outcome g) → (summarize_outcome g outcome).name ≡ outcome.name
  unfolding summarize_outcome
  summarize_outcome-name outcome = unfold started_lane in add_suites-name outcome.reports _

str_ne : (a b : String) → a ≢ b → str_eq a b ≡ false
str_ne a b ne = elim (Bool-cases (str_eq a b)) [
  | inl same ↦ absurd (ne ((eq_iff a b).0 same))
  | inr apart ↦ apart
]

module _ (f : LaneRun → LaneSummary) (named : (r : LaneRun) → (f r).name ≡ r.definition.name) where
  lane_results_absent :
      (name : String) (runs : List LaneRun)
      → All (λ (s : LaneRun). name ≢ s.definition.name) runs
      → lane_results (map f runs) name ≡ none
  unfolding lane_results
  lane_results_absent name [] apart = refl
  lane_results_absent name (r ∷ rest) apart = ground (
    arith,
    lane_results_absent name rest apart.1,
    named r,
    str_ne (f r).name name (λ e. apart.0 (sym e ∙ named r)),
  )

  -- An entry under another name does not show in the later lanes' results.
  lane_results_later :
      (r : LaneRun) (done runs : List LaneRun)
      → All (λ (s : LaneRun). r.definition.name ≢ s.definition.name) runs
      → All (PassedIn (lane_results (map f (r ∷ done)))) (map manifest_lane runs)
        ↔ All (PassedIn (lane_results (map f done))) (map manifest_lane runs)
  unfolding lane_results manifest_lane
  lane_results_later r done [] apart = ((λ h. tt), (λ h. tt))
  lane_results_later r done (s ∷ rest) apart =
      let ih = lane_results_later r done rest apart.1 in
      let other = str_ne (f r).name s.definition.name (λ e. apart.0 (sym (named r) ∙ e)) in
      ((λ h. (ground (arith, other, h.0), ih.0 h.1)), (λ h. (ground (arith, other, h.0), ih.1 h.1)))

  pub lane_results-All :
      (runs : List LaneRun)
      → HasDistinctNames runs
      → All (PassedIn (lane_results (map f runs))) (map manifest_lane runs)
        ↔ All HasPassed (map f runs)
  unfolding lane_results manifest_lane
  lane_results-All [] distinct = ((λ h. tt), (λ h. tt))
  lane_results-All (r ∷ rest) distinct =
      let ih = lane_results-All rest distinct.1 in
      let later = lane_results_later r rest rest distinct.0 in
      let absent = lane_results_absent r.definition.name rest distinct.0 in
      let same = (eq_iff (f r).name r.definition.name).1 (named r) in
      (
        (λ h. (ground (arith, absent, same, h.0), ih.0 (later.0 h.1))),
        (λ h. (ground (arith, absent, same, h.0), later.1 (ih.1 h.1))),
      )
