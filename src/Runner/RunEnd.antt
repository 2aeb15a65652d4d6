-- ===== src/Runner/RunEnd.antt =====
-- How a run that was planned ends: its error and its manifest against its lanes.
use qrl_tests.RunManifest.Outcomes.{finish_lem}
use qrl_tests.RunManifest.{enrich, finish}
use qrl_tests.Runner.Lane.{run_lane}
use qrl_tests.Runner.Names.{
  HasDistinctNames, summarize_outcome-name, run_lane-name, lane_results-All,
}
use qrl_tests.Results.RunVerdict.{run_verdict, add_lanes_lanes, HasPassed-LanePasses, HasPassed}
use qrl_tests.Results.Summarize.{summarize, summarize_outcome, verdict_error, assemble}
use qrl_tests.Results.LaneVerdict.{LanePasses}
use qrl_tests.Results.Types.{Outcome, Summary, RunResult, LaneSummary}
use qrl_tests.Errors.{Fault, join_errors, join_errors-IsNil}
use qrl_tests.Prelude.FilePaths.{join_path}
use qrl_tests.RunManifest.{Manifest, enrich, finish}
use qrl_tests.Runner.Plan.{Config, RunPlan, LaneRun}
use qrl_tests.Runner.Run.{RunWorld, run_planned, planned_manifest, run_lanes, lane_results}
use qrl_tests.Ginkgo.{Ginkgo}
use qrl_tests.Prelude.{
  String, ◌≡◌, refl, ◌↔◌, arith, All, List, [], ◌∷◌, map, some, none, Option, if◌then◌else◌, ap,
  is_some, ◌∙◌, ◌||◌, subst, sym,
}

module _ (g : Ginkgo) (world : RunWorld g) (configuration : Config) (plan : RunPlan) where
  -- The manifest that a run writes at its start, and where.
  abbrev pub started_manifest : Manifest
  started_manifest =
      planned_manifest world.parse world.sha256_text configuration plan
        (world.probes plan.tests_dir)

  abbrev pub report_path : String → String
  report_path name = join_path (plan.report_root ∷ name ∷ [])

  abbrev pub started_error : Option Fault
  started_error = world.write_started (report_path "run-manifest.json") started_manifest

  abbrev pub outcomes : List (Outcome g)
  outcomes = run_lanes g world configuration plan

  abbrev pub summarized : Summary × Option Fault
  summarized = summarize g world.write_json world.write_markdown plan.report_root outcomes

  -- Each lane of the run passes, and its reports are written.
  pub record IsGood : Type 0 where
    pub lanes_pass : All (LanePasses g) outcomes
    pub started_written : started_error ≡ none
    pub summary_written : summarized.1 ≡ none
    pub finished_written :
        world.write_finished
          (report_path "run-manifest.json")
          (run_planned g world configuration plan).manifest
        ≡ none

  no_lane_errors :
      (os : List (Outcome g))
      → All (LanePasses g) os
      → join_errors (map (λ (o : Outcome g). o.err) os) ≡ none
  no_lane_errors os all = (join_errors-IsNil (map (λ (o : Outcome g). o.err) os)).1 (each os all)
    where
      each :
          (os : List (Outcome g))
          → All (LanePasses g) os
          → All (λ e. e ≡ none) (map (λ (o : Outcome g). o.err) os)
      each [] h = tt
      each (o ∷ rest) h = (h.0.no_error, each rest h.1)

  -- A run that was planned and whose old artifacts are gone returns no error exactly when every lane
  -- passes and every report is written: the summary, and the manifest at the start and at the end.
  pub run_planned_error : ((run_planned g world configuration plan).error ≡ none) ↔ IsGood
  unfolding run_planned summarize
  run_planned_error =
      let verdict = (run_verdict g outcomes).1 in
      let lane_errs = join_errors (map (λ (o : Outcome g). o.err) outcomes) in
      let end = run_planned g world configuration plan in
      let finished_error = world.write_finished (report_path "run-manifest.json") end.manifest in
      let written = join_errors-IsNil (started_error ∷ finished_error ∷ []) in
      let all = join_errors-IsNil (
        verdict_error (assemble g outcomes)
        ∷ lane_errs
        ∷ join_errors (started_error ∷ finished_error ∷ [])
        ∷ summarized.1
        ∷ []) in
      (
        (λ h.
            let parts = all.0 h in
            let writes = written.0 parts.1.1.0 in
            record {
              lanes_pass = verdict.0 parts.0;
              started_written = writes.0;
              summary_written = parts.1.1.1.0;
              finished_written = writes.1.0;
            }),
        (λ good. all.1 (
          verdict.1 good.lanes_pass,
          (
            no_lane_errors outcomes good.lanes_pass,
            (
              written.1 (good.started_written, (good.finished_written, tt)),
              (good.summary_written, tt),
            ),
          ),
        )),
      )

  lane_summary : LaneRun → LaneSummary
  lane_summary lane =
      summarize_outcome g (run_lane g (world.lane_world lane) configuration plan lane).0

  lane_summary-name : (lane : LaneRun) → (lane_summary lane).name ≡ lane.definition.name
  unfolding lane_summary
  lane_summary-name lane =
      summarize_outcome-name g _ ∙ run_lane-name g (world.lane_world lane) configuration plan lane

  lane_summaries : map (summarize_outcome g) outcomes ≡ map lane_summary plan.lanes
  unfolding run_lanes lane_summary
  lane_summaries = each plan.lanes
    where
      each :
          (runs : List LaneRun)
          → map
              (summarize_outcome g)
              (map (λ lane. (run_lane g (world.lane_world lane) configuration plan lane).0) runs)
            ≡ map lane_summary runs
      each [] = refl
      each (lane ∷ rest) = ap (λ l. lane_summary lane ∷ l) (each rest)

  summaries_of_lanes : map lane_summary plan.lanes ≡ (assemble g outcomes).lanes
  unfolding assemble
  summaries_of_lanes = sym (add_lanes_lanes g _ outcomes ∙ lane_summaries)

  finished_passed :
      HasDistinctNames plan.lanes
      → ((finish
            (lane_results (assemble g outcomes).lanes)
            world.finished_at
            started_manifest).result
          ≡ some RunResult.passed)
        ↔ All (LanePasses g) outcomes
  unfolding planned_manifest enrich
  finished_passed distinct =
      let recorded =
        (finish_lem (lane_results (map lane_summary plan.lanes)) world.finished_at
          started_manifest).0 in
      let each = lane_results-All lane_summary lane_summary-name plan.lanes distinct in
      let passes =
        subst (λ (ls : List LaneSummary). All HasPassed ls ↔ All (LanePasses g) outcomes)
          lane_summaries (HasPassed-LanePasses g outcomes) in
      subst
        (λ lanes.
          ((finish (lane_results lanes) world.finished_at started_manifest).result
            ≡ some RunResult.passed)
          ↔ All (LanePasses g) outcomes)
        summaries_of_lanes
        ((λ h. passes.0 (each.0 (recorded.0 h))), (λ h. recorded.1 (each.1 (passes.1 h))))

  kept_passed :
      (a b : Option Fault) (done : Manifest)
      → ((if is_some a || is_some b
            then record done { result = some RunResult.failed }
            else done).result
          ≡ some RunResult.passed)
        ↔ ((done.result ≡ some RunResult.passed) × (a ≡ none) × (b ≡ none))
  kept_passed a b done = ground arith

  -- Where the planned lanes have distinct names, the manifest that a run leaves records a pass
  -- exactly when every lane passes, and the manifest at the start and the summary were written.
  pub run_planned_manifest :
      HasDistinctNames plan.lanes
      → ((run_planned g world configuration plan).manifest.result ≡ some RunResult.passed)
        ↔ (All (LanePasses g) outcomes × (started_error ≡ none) × (summarized.1 ≡ none))
  unfolding run_planned summarize
  run_planned_manifest distinct =
      let done =
        finish (lane_results (assemble g outcomes).lanes) world.finished_at started_manifest in
      let kept = kept_passed started_error summarized.1 done in
      let passed = finished_passed distinct in
      (
        (λ h. (passed.0 (kept.0 h).0, (kept.0 h).1, (kept.0 h).2)),
        (λ h. kept.1 (passed.1 h.0, h.1, h.2)),
      )
