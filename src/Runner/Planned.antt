-- ===== src/Runner/Planned.antt =====
-- What a plan guarantees of its lanes.
use qrl_tests.Runner.Plan.{
  Config, check_service_restarts, lane_run, plan_lanes, RunMode, LaneRun, provisions_network,
  is_zero, plan_each, RunPlan,
}
use qrl_tests.Prelude.{
  ℕ, ◌+◌, ◌-◌, ◌^◌, ◌<◌, ◌≤◌, String, true, false, none, List, [], ◌∷◌, map, ◌≡◌, refl, ◌↔◌, arith,
  All, Bool-cases, inl, subst, inr, ap, is_empty_slice,
}
use qrl_tests.Prelude.Int.{pos}
use qrl_tests.Errors.{Result, ok, is_ok, >>=-eq-ok, >>-eq-ok, ok_injective, within, checked}
use qrl_tests.Lanes.Registry.{Lane}

-- A lane that restarts services needs a network provisioned from its profile.
pub record CanRun (configuration : Config) (mode : RunMode) (lane : Lane) : Type 0 where
  pub provisioned : lane.restarts_services ≡ true → provisions_network mode ≡ true
  pub from_profile : lane.restarts_services ≡ true → is_empty_slice configuration.parameters ≡ true

-- math.MaxInt32
abbrev pub max_int32 : ℕ
max_int32 = 2 ^ 31 - 1

-- The seed is the configured one, or drawn from 1 to math.MaxInt32.
pub record HasSeed (configuration : Config) (run : LaneRun) : Type 0 where
  pub configured : is_zero configuration.seed ≡ false → run.seed ≡ configuration.seed
  pub drawn :
      is_zero configuration.seed ≡ true → (n : ℕ) × (run.seed ≡ pos n) × (1 ≤ n) × (n ≤ max_int32)

check_service_restarts_lem :
    (configuration : Config) (lane : Lane) (mode : RunMode)
    → (check_service_restarts configuration lane mode ≡ none) ↔ CanRun configuration mode lane
unfolding check_service_restarts
check_service_restarts_lem configuration lane mode = (
  (λ h. record { provisioned = λ r. ground arith; from_profile = λ r. ground arith }),
  (λ can. elim (Bool-cases lane.restarts_services) [
    | inl restarts ↦ ground (arith, can.provisioned restarts, can.from_profile restarts)
    | inr stays ↦ ground (arith, stays)
  ]),
)

lane_run-HasSeed :
    (configuration : Config) (root : String) (mode : RunMode) (drawn : ℕ) (lane : Lane)
    → drawn < max_int32
    → HasSeed configuration (lane_run configuration root mode drawn lane)
unfolding lane_run
lane_run-HasSeed configuration root mode drawn lane h = record {
  configured = λ z. ground (arith, z);
  drawn = λ z. (1 + drawn, ground (arith, z), omega arith, omega arith);
}

module _ (configuration : Config) (root : String) (mode : RunMode) (draw : ℕ → ℕ) where
  plan_each_ok :
      (index : ℕ) (selected : List Lane)
      → (is_ok (plan_each configuration root mode draw index selected) ≡ true)
        ↔ All (CanRun configuration mode) selected
  unfolding plan_each
  plan_each_ok index [] = ((λ h. tt), (λ h. refl))
  plan_each_ok index (lane ∷ rest) =
      let here = check_service_restarts_lem configuration lane mode in
      let later = plan_each_ok (index + 1) rest in
      (
        (λ h. (here.0 (ground arith), later.0 (ground arith))),
        (λ h. ground (arith, here.1 h.0, later.1 h.1)),
      )

  plan_each_lem :
      ((i : ℕ) → draw i < max_int32)
      → (index : ℕ) (selected : List Lane) {runs : List LaneRun}
      → plan_each configuration root mode draw index selected ≡ ok runs
      → (map (λ (r : LaneRun). r.definition) runs ≡ selected) × All (HasSeed configuration) runs
  unfolding plan_each
  plan_each_lem bound index [] {runs} h =
      subst (λ rs. (map (λ (r : LaneRun). r.definition) rs ≡ []) × All (HasSeed configuration) rs)
        (ok_injective h) (refl, tt)
  plan_each_lem bound index (lane ∷ rest) {runs} h =
      let (unit, passed, h') =
        >>-eq-ok (checked (check_service_restarts configuration lane mode)) _ h in
      let (others, e, done) =
        >>=-eq-ok (plan_each configuration root mode draw (index + 1) rest) _ h' in
      let (names, seeds) = plan_each_lem bound (index + 1) rest e in
      subst
        (λ rs.
          (map (λ (r : LaneRun). r.definition) rs ≡ lane ∷ rest) × All (HasSeed configuration) rs)
        (ok_injective done)
        (
          unfold lane_run in ap (λ l. lane ∷ l) names,
          (lane_run-HasSeed configuration root mode (draw index) lane (bound index), seeds),
        )

-- Where the two directories resolve, a run is planned exactly when each selected lane may run in
-- its mode: no lane that restarts services runs on an attached network or one of custom parameters.
pub plan_lanes_ok :
    (abs : String → Result String) (draw : ℕ → ℕ) (configuration : Config) (selected : List Lane)
    (mode : RunMode) {tests_dir report_root : String}
    → abs configuration.tests_dir ≡ ok tests_dir
    → abs configuration.report_dir ≡ ok report_root
    → (is_ok (plan_lanes abs draw configuration selected mode) ≡ true)
      ↔ All (CanRun configuration mode) selected
unfolding plan_lanes
plan_lanes_ok abs draw configuration selected mode {tests_dir} {report_root} t r =
    let each = plan_each_ok configuration report_root mode draw 0 selected in
    ((λ h. each.0 (ground (arith, t, r))), (λ h. ground (arith, t, r, each.1 h)))

-- A plan has the selected lanes in their order, each with the configured seed, or with one drawn
-- from 1 to math.MaxInt32 if none is configured.
pub plan_lanes_lem :
    (abs : String → Result String) (draw : ℕ → ℕ) (configuration : Config) (selected : List Lane)
    (mode : RunMode) (plan : RunPlan)
    → ((i : ℕ) → draw i < max_int32)
    → plan_lanes abs draw configuration selected mode ≡ ok plan
    → (map (λ (r : LaneRun). r.definition) plan.lanes ≡ selected)
      × All (HasSeed configuration) plan.lanes
      × (plan.mode ≡ mode)
unfolding plan_lanes
plan_lanes_lem abs draw configuration selected mode plan bound h =
    let (tests_dir, t, h1) = >>=-eq-ok (within _ (abs configuration.tests_dir)) _ h in
    let (root, r, h2) = >>=-eq-ok (within _ (abs configuration.report_dir)) _ h1 in
    let (runs, e, done) = >>=-eq-ok (plan_each configuration root mode draw 0 selected) _ h2 in
    let (names, seeds) = plan_each_lem configuration root mode draw bound 0 selected e in
    subst
      (λ (p : RunPlan).
        (map (λ (r : LaneRun). r.definition) p.lanes ≡ selected)
        × All (HasSeed configuration) p.lanes
        × (p.mode ≡ mode))
      (ok_injective done) (names, seeds, refl)
