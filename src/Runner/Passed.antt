-- ===== src/Runner/Passed.antt =====
-- When a lane that was run has passed, and what its error keeps.
use qrl_tests.Prelude.Text.{◌<>◌}
use qrl_tests.Runner.Release.{acquired, logged_outcome, execute_lane-acquired}
use qrl_tests.Prelude.FilePaths.{join_path}
use qrl_tests.Runner.Plan.{LaneRun, Config, RunPlan}
use qrl_tests.Runner.Lane.{
  Surroundings, finish_lane, with_diagnostics, LaneLease, Ran, after_log, close_lease, run_lane,
  execute_lane, Effect, lane_body, fresh_outcome,
}
use qrl_tests.Results.Summarize.{outcome_passed}
use qrl_tests.Prelude.{
  String, Bool, true, not, ◌||◌, Option, none, some, List, [], ◌∷◌, ◌≡◌, refl, ◌↔◌, arith, subst,
  sym, is_some, if◌then◌else◌, Bool-cases, inl, Option-cases, inr,
}
use qrl_tests.Errors.{
  Fault, Sentinel, ok, fail, join_errors, is_error, wrapped, join_errors-IsNil, wrap, Result-cases,
  is_error-join_errors, fault_is,
}
use qrl_tests.Ginkgo.{Ginkgo}
use qrl_tests.Results.Types.{Outcome}
use qrl_tests.Results.LaneVerdict.{outcome_passed_iff}

pub join_two : (a b : Option Fault) → (join_errors (a ∷ b ∷ []) ≡ none) ↔ ((a ≡ none) × (b ≡ none))
join_two a b =
    let all = join_errors-IsNil (a ∷ b ∷ []) in
    ((λ h. ((all.0 h).0, (all.0 h).1.0)), (λ h. all.1 (h.0, (h.1, tt))))

wrapped-none : (text : String) (e : Option Fault) → (wrapped text e ≡ none) ↔ (e ≡ none)
wrapped-none text e = ground arith

module _ (g : Ginkgo) where
  -- An error keeps an outcome from passing, and is all that it changes.
  passes_with_err :
      (o : Outcome g) (e : Option Fault)
      → (outcome_passed g (record o { err = e }) ≡ true)
        ↔ ((e ≡ none) × (outcome_passed g (record o { err = none }) ≡ true))
  passes_with_err o e =
      let here = outcome_passed_iff g (record o { err = e }) in
      (
        (λ h.
            let e_none = (here.0 h).no_error in
            (e_none, subst (λ x. outcome_passed g (record o { err = x }) ≡ true) e_none h)),
        (λ h. subst (λ x. outcome_passed g (record o { err = x }) ≡ true) (sym h.0) h.1),
      )

module _ (g : Ginkgo) (world : Surroundings g) where
  -- The error of a lane whose error was `err` before diagnostics.
  abbrev diagnosed_err : LaneRun → LaneLease → Option Fault → Option Fault
  diagnosed_err lane lease err =
      elim (world.diagnose lease.environment.enclave_name
        (join_path (lane.report_dir ∷ "diagnostics" ∷ []))) [
          | none ↦ err
          | some e ↦ join_errors (err ∷ some (wrap "collect diagnostics" e) ∷ [])
        ]

  with_diagnostics_lem :
      (lane : LaneRun) (lease : LaneLease) (o : Outcome g)
      → with_diagnostics g world lane lease o ≡ record o { err = diagnosed_err lane lease o.err }
  unfolding with_diagnostics
  with_diagnostics_lem lane lease o = ground arith

  abbrev was_diagnosed : LaneLease → Ran g world → Bool
  was_diagnosed lease ran =
      not (outcome_passed g (after_log g world ran)) || is_some (close_lease g world lease)

  abbrev final_err : LaneRun → LaneLease → Ran g world → Option Fault
  final_err lane lease ran =
      let logged = after_log g world ran in
      if was_diagnosed lease ran then diagnosed_err lane lease logged.err else logged.err

  -- The deferred function changes nothing of the outcome but its error.
  pub finish_lane_lem :
      (lane : LaneRun) (lease : LaneLease) (ran : Ran g world)
      → (finish_lane g world lane lease ran).0 ≡ record (after_log g world ran) {
        err = join_errors (final_err lane lease ran ∷ close_lease g world lease ∷ []);
      }
  unfolding finish_lane
  finish_lane_lem lane lease ran = elim (Bool-cases (outcome_passed g (after_log g world ran))) [
    | inl passed ↦ elim (Option-cases (close_lease g world lease)) [
      | inl released ↦ rw (passed, released)
      | inr (fault, e) ↦ rw (passed, e, with_diagnostics_lem)
    ]
    | inr failed ↦ elim (Option-cases (close_lease g world lease)) [
      | inl released ↦
          rw (failed, released, with_diagnostics_lem lane lease (after_log g world ran))
      | inr (fault, e) ↦ rw (failed, e, with_diagnostics_lem lane lease (after_log g world ran))
    ]
  ]

  err_of_final_err :
      (lane : LaneRun) (lease : LaneLease) (ran : Ran g world)
      → final_err lane lease ran ≡ none
      → (after_log g world ran).err ≡ none
  err_of_final_err lane lease ran h =
      elim (Option-cases (
        world.diagnose lease.environment.enclave_name
          (join_path (lane.report_dir ∷ "diagnostics" ∷ [])))) [
            | inl collected ↦ ground (arith, collected)
            | inr (fault, e) ↦ ground (
              arith,
              e,
              join_two (after_log g world ran).err (some (wrap "collect diagnostics" fault)),
            )
          ]

  finish_lane_passed :
      (lane : LaneRun) (lease : LaneLease) (ran : Ran g world)
      → (outcome_passed g (finish_lane g world lane lease ran).0 ≡ true)
        ↔ ((outcome_passed g (after_log g world ran) ≡ true) × (close_lease g world lease ≡ none))
  finish_lane_passed lane lease ran =
      let logged = after_log g world ran in
      let here =
        passes_with_err g logged
          (join_errors (final_err lane lease ran ∷ close_lease g world lease ∷ [])) in
      let parts = join_two (final_err lane lease ran) (close_lease g world lease) in
      let same = passes_with_err g logged logged.err in
      rw (finish_lane_lem lane lease ran) (
        (λ h.
            let (e_none, good) = here.0 h in
            let released = (parts.0 e_none).1 in
            (same.1 (err_of_final_err lane lease ran (parts.0 e_none).0, good), released)),
        (λ h. here.1 (parts.1 (ground (arith, h.0, h.1, (same.0 h.0).0), h.1), (same.0 h.0).1)),
      )

  -- The prefix that runLane puts before an error changes no verdict.
  run_lane_executed :
      (configuration : Config) (plan : RunPlan) (lane : LaneRun)
      → (outcome_passed g (run_lane g world configuration plan lane).0 ≡ true)
        ↔ (outcome_passed g (execute_lane g world configuration plan lane).0 ≡ true)
  unfolding run_lane
  run_lane_executed configuration plan lane =
      let o = (execute_lane g world configuration plan lane).0 in
      let text = "lane " <> lane.definition.name in
      let after = passes_with_err g o (wrapped text o.err) in
      let before = passes_with_err g o o.err in
      (
        (λ h. before.1 ((wrapped-none text o.err).0 (after.0 h).0, (after.0 h).1)),
        (λ h. after.1 ((wrapped-none text o.err).1 (before.0 h).0, (before.0 h).1)),
      )

  no_network_fails :
      (configuration : Config) (plan : RunPlan) (lane : LaneRun) (fault : Fault)
      → acquired g world configuration plan lane ≡ fail fault
      → outcome_passed g (execute_lane g world configuration plan lane).0 ≡ true
      → ⊥
  unfolding execute_lane
  no_network_fails configuration plan lane fault e h =
      let passes = (outcome_passed_iff g (execute_lane g world configuration plan lane).0).0 h in
      ground (arith, e, passes.bootstrapped)

  -- A lane passes exactly when it got a network, had passed once its log was closed, and then
  -- released the network without an error.
  pub run_lane_passed :
      (configuration : Config) (plan : RunPlan) (lane : LaneRun)
      → (outcome_passed g (run_lane g world configuration plan lane).0 ≡ true) ↔ (
          (lease : LaneLease) × (acquired g world configuration plan lane ≡ ok lease)
          × (outcome_passed g (logged_outcome g world lane lease) ≡ true)
          × (close_lease g world lease ≡ none))
  run_lane_passed configuration plan lane =
      let executed = run_lane_executed configuration plan lane in
      let passed_with =
        λ (lease : LaneLease) (e : acquired g world configuration plan lane ≡ ok lease).
          subst
            (λ (r : Outcome g × List Effect). (outcome_passed g r.0 ≡ true) ↔ (
              (outcome_passed g (logged_outcome g world lane lease) ≡ true)
              × (close_lease g world lease ≡ none)))
            (sym (execute_lane-acquired g world configuration plan lane lease e))
            (finish_lane_passed lane lease
              (lane_body g world lane lease (fresh_outcome g world lane.definition.name))) in
      (
        (λ h. elim (Result-cases (acquired g world configuration plan lane)) [
          | inr (fault, e) ↦
              absurd (no_network_fails configuration plan lane fault e (executed.0 h))
          | inl (lease, e) ↦
              let both = (passed_with lease e).0 (executed.0 h) in (lease, e, both.0, both.1)
        ]),
        (λ h. executed.1 ((passed_with h.0 h.1).1 (h.2, h.3))),
      )

  is_error-diagnosed_err :
      (lane : LaneRun) (lease : LaneLease) (err : Option Fault) (target : Sentinel)
      → is_error err target ≡ true
      → is_error (diagnosed_err lane lease err) target ≡ true
  is_error-diagnosed_err lane lease err target h =
      elim (Option-cases (
        world.diagnose lease.environment.enclave_name
          (join_path (lane.report_dir ∷ "diagnostics" ∷ [])))) [
            | inl collected ↦ ground (arith, collected, h)
            | inr (fault, e) ↦ ground (
              arith,
              e,
              h,
              is_error-join_errors (err ∷ some (wrap "collect diagnostics" fault) ∷ []) target,
            )
          ]

  is_error-wrapped :
      (text : String) (err : Option Fault) (target : Sentinel)
      → is_error (wrapped text err) target ≡ is_error err target
  unfolding is_error fault_is
  is_error-wrapped text none target = refl
  is_error-wrapped text (some e) target = refl

  -- What the lane's error was before its network was released, a cancellation or a deadline, it
  -- still is after diagnostics and cleanup.
  pub run_lane-is_error :
      (configuration : Config) (plan : RunPlan) (lane : LaneRun) (lease : LaneLease)
      (target : Sentinel)
      → acquired g world configuration plan lane ≡ ok lease
      → is_error (logged_outcome g world lane lease).err target ≡ true
      → is_error (run_lane g world configuration plan lane).0.err target ≡ true
  unfolding run_lane
  run_lane-is_error configuration plan lane lease target e h =
      let ran = lane_body g world lane lease (fresh_outcome g world lane.definition.name) in
      let final : is_error (final_err lane lease ran) target ≡ true =
        elim (Bool-cases (was_diagnosed lease ran)) [
          | inl diagnosed ↦
              rw diagnosed (is_error-diagnosed_err lane lease (after_log g world ran).err target h)
          | inr clean ↦ rw clean h
        ] in
      rw (
        is_error-wrapped _ (execute_lane g world configuration plan lane).0.err target,
        execute_lane-acquired g world configuration plan lane lease e,
        finish_lane_lem lane lease ran,
        is_error-join_errors (final_err lane lease ran ∷ close_lease g world lease ∷ []) target,
        final,
      )
