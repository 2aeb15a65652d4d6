-- ===== src/Runner/Release.antt =====
-- Which networks a lane stops, and when it collects diagnostics.
use qrl_tests.Results.Summarize.{outcome_passed}
use qrl_tests.Results.Types.{Outcome}
use qrl_tests.Prelude.{
  String, Bool, not, ◌||◌, ◌&&◌, List, [], ◌∷◌, ◌++◌, ◌≡◌, refl, arith, concat_map, is_some,
  concat_map-append, inl, inr, ap, if◌then◌else◌,
}
use qrl_tests.Prelude.FilePaths.{join_path}
use qrl_tests.Errors.{Result, ok, fail, Result-cases}
use qrl_tests.Ginkgo.{Ginkgo}
use qrl_tests.Runner.Lane.{
  Effect, Surroundings, with_images, with_log, lane_body, LaneLease, finish_lane, close_effects,
  SidecarImages, after_log, diagnostics_effect, resolve_images, fresh_outcome, Ran, close_lease,
  acquire_lane, execute_lane, acquire_new, acquire_existing,
}
use qrl_tests.Runner.Plan.{Config, RunPlan, LaneRun, RunMode, provisions_network}

-- The network that a call stops.
abbrev pub stop_of : Effect → List String
stop_of (Effect.stop_network name) = name ∷ []
stop_of _ = []

-- The network that a call diagnoses, and into which directory.
abbrev pub diagnosis_of : Effect → List (String × String)
diagnosis_of (Effect.collect_diagnostics name dir) = (name, dir) ∷ []
diagnosis_of _ = []

module _ (g : Ginkgo) (world : Surroundings g) where
  with_images-effects :
      (lane : LaneRun) (lease : LaneLease) (outcome : Outcome g) (images : SidecarImages)
      → (concat_map stop_of (with_images g world lane lease outcome images).effects ≡ [])
        × (concat_map diagnosis_of (with_images g world lane lease outcome images).effects ≡ [])
  unfolding with_images
  with_images-effects lane lease outcome images = ground arith

  with_log-effects :
      (lane : LaneRun) (lease : LaneLease) (outcome : Outcome g)
      → (concat_map stop_of (with_log g world lane lease outcome).effects ≡ [])
        × (concat_map diagnosis_of (with_log g world lane lease outcome).effects ≡ [])
  unfolding with_log
  with_log-effects lane lease outcome =
      elim (Result-cases (resolve_images g world lane.definition lease.environment)) [
        | inl (images, e) ↦ ground (arith, e, with_images-effects lane lease outcome images)
        | inr (fault, e) ↦ ground (arith, e)
      ]

  lane_body-effects :
      (lane : LaneRun) (lease : LaneLease) (outcome : Outcome g)
      → (concat_map stop_of (lane_body g world lane lease outcome).effects ≡ [])
        × (concat_map diagnosis_of (lane_body g world lane lease outcome).effects ≡ [])
  unfolding lane_body
  lane_body-effects lane lease outcome = ground (arith, with_log-effects lane lease outcome)

  -- What the lane's outcome was before its network was released.
  abbrev pub logged_outcome : LaneRun → LaneLease → Outcome g
  logged_outcome lane lease =
      after_log g world (lane_body g world lane lease (fresh_outcome g world lane.definition.name))

  -- The network is to be stopped, and stopping it fails.
  abbrev pub release_fails : LaneLease → Bool
  release_fails lease = lease.releases && is_some (world.stop lease.environment.enclave_name)

  finish_lane-effects :
      (lane : LaneRun) (lease : LaneLease) (ran : Ran g world)
      → concat_map stop_of ran.effects ≡ []
      → concat_map diagnosis_of ran.effects ≡ []
      → (concat_map stop_of (finish_lane g world lane lease ran).1
          ≡ (if lease.releases then lease.environment.enclave_name ∷ [] else []))
        × (concat_map diagnosis_of (finish_lane g world lane lease ran).1 ≡ (
            if not (outcome_passed g (after_log g world ran)) || release_fails lease
            then (lease.environment.enclave_name, join_path (lane.report_dir ∷ "diagnostics" ∷ []))
              ∷ []
            else []))
  unfolding finish_lane close_effects close_lease diagnostics_effect
  finish_lane-effects lane lease ran a b = (
    rw (concat_map-append stop_of ran.effects) (ground arith),
    rw (concat_map-append diagnosis_of ran.effects) (ground arith),
  )

  -- The network that a lane acquired.
  abbrev pub acquired : Config → RunPlan → LaneRun → Result LaneLease
  acquired configuration plan lane = (acquire_lane g world configuration plan lane).0

  -- What a lane with `lease` is to diagnose: its network, into a directory of its reports.
  abbrev pub diagnoses : LaneRun → Result LaneLease → List (String × String)
  diagnoses lane (fail e) = []
  diagnoses lane (ok lease) =
      if not (outcome_passed g (logged_outcome lane lease)) || release_fails lease
      then (lease.environment.enclave_name, join_path (lane.report_dir ∷ "diagnostics" ∷ [])) ∷ []
      else []

  -- What it is to stop.
  abbrev pub stops : RunMode → Result LaneLease → List String
  stops mode (fail e) = []
  stops mode (ok lease) =
      if provisions_network mode then lease.environment.enclave_name ∷ [] else []

  acquire_lane-effects :
      (configuration : Config) (plan : RunPlan) (lane : LaneRun)
      → (concat_map stop_of (acquire_lane g world configuration plan lane).1 ≡ [])
        × (concat_map diagnosis_of (acquire_lane g world configuration plan lane).1 ≡ [])
  unfolding acquire_lane
  acquire_lane-effects configuration plan lane = ground arith

  acquire_lane-releases :
      (configuration : Config) (plan : RunPlan) (lane : LaneRun) (lease : LaneLease)
      → acquired configuration plan lane ≡ ok lease
      → lease.releases ≡ provisions_network plan.mode
  unfolding acquire_lane acquire_new acquire_existing
  acquire_lane-releases configuration plan lane lease h = ground arith

  abbrev pub finished : LaneRun → LaneLease → Outcome g × List Effect
  finished lane lease =
      finish_lane g world lane lease
        (lane_body g world lane lease (fresh_outcome g world lane.definition.name))

  pub execute_lane-acquired :
      (configuration : Config) (plan : RunPlan) (lane : LaneRun) (lease : LaneLease)
      → acquired configuration plan lane ≡ ok lease
      → execute_lane g world configuration plan lane ≡ (
        (finished lane lease).0,
        (acquire_lane g world configuration plan lane).1 ++ (finished lane lease).1,
      )
  unfolding execute_lane
  execute_lane-acquired configuration plan lane lease e = rw (e, execute_lane)

  -- A lane stops the enclave of the network that it provisioned, exactly once, and nothing where it
  -- only attached to a network or did not get one. It collects diagnostics at most once, of the
  -- enclave of its network and into its report directory: exactly when it has a network and either
  -- did not pass before the cleanup or provisioned the network and fails to stop it.
  pub execute_lane-effects :
      (configuration : Config) (plan : RunPlan) (lane : LaneRun)
      → (concat_map stop_of (execute_lane g world configuration plan lane).1
          ≡ stops plan.mode (acquired configuration plan lane))
        × (concat_map diagnosis_of (execute_lane g world configuration plan lane).1
            ≡ diagnoses lane (acquired configuration plan lane))
  unfolding execute_lane
  execute_lane-effects configuration plan lane =
      elim (Result-cases (acquired configuration plan lane)) [
        | inr (fault, e) ↦ rw (e, execute_lane) (acquire_lane-effects configuration plan lane)
        | inl (lease, e) ↦
            let before = acquire_lane-effects configuration plan lane in
            let body = lane_body-effects lane lease (fresh_outcome g world lane.definition.name) in
            let ran = lane_body g world lane lease (fresh_outcome g world lane.definition.name) in
            let after = finish_lane-effects lane lease ran body.0 body.1 in
            let released = acquire_lane-releases configuration plan lane lease e in
            let names = lease.environment.enclave_name ∷ [] in
            rw (e, execute_lane-acquired configuration plan lane lease e)
              (
                rw
                    (
                      concat_map-append stop_of (acquire_lane g world configuration plan lane).1,
                      before.0,
                      after.0,
                    )
                    (ap (λ (b : Bool). if b then names else []) released),
                rw
                    (
                      concat_map-append diagnosis_of
                          (acquire_lane g world configuration plan lane).1,
                      before.1,
                      after.1,
                    )
                    refl,
              )
      ]
