-- ===== src/RunManifest/Outcomes.antt =====
-- The outcomes that a finished manifest records.
use qrl_tests.Results.Types.{RunResult}
use qrl_tests.Prelude.{
  ℕ, String, Bool, true, false, Option, none, some, List, [], ◌∷◌, map, ◌≡◌, refl, ◌↔◌, arith, All,
  Option-cases, inl, ap, inr, if◌then◌else◌,
}
use qrl_tests.RunManifest.Types.{
  ManifestLane, Manifest, finish_lanes, finish, finish_lane, keeps_overall,
}

abbrev pub PassedIn : (String → Option Bool) → ManifestLane → Type 0
PassedIn results lane = results lane.name ≡ some true

finish_lanes_overall :
    (results : String → Option Bool) (overall : RunResult) (lanes : List ManifestLane)
    → ((finish_lanes results overall lanes).1 ≡ RunResult.passed)
      ↔ ((overall ≡ RunResult.passed) × All (PassedIn results) lanes)
unfolding finish_lanes
finish_lanes_overall results overall [] = ((λ h. (h, tt)), (λ h. h.0))
finish_lanes_overall results overall (lane ∷ rest) =
    let later = finish_lanes_overall results overall rest in
    let failed = finish_lanes_overall results RunResult.failed rest in
    elim (Option-cases (results lane.name)) [
      | inl missing ↦ (
        (λ h. absurd (ground (arith, missing, failed))),
        (λ h. absurd (ground (arith, missing, h.1.0))),
      )
      | inr (passed, e) ↦
          ((λ h. ground (arith, e, failed, later)), (λ h. ground (arith, e, failed, later)))
    ]

-- The result of an entry of the map, if there is one.
abbrev pub result_of : Option Bool → Option RunResult
result_of none = none
result_of (some true) = some RunResult.passed
result_of (some false) = some RunResult.failed

finish_lane-result_of :
    (entry : Option Bool) (lane : ManifestLane)
    → finish_lane entry lane ≡ record lane { result = result_of entry }
unfolding finish_lane
finish_lane-result_of none lane = refl
finish_lane-result_of (some true) lane = refl
finish_lane-result_of (some false) lane = refl

finish_lanes_each :
    (results : String → Option Bool) (overall : RunResult) (lanes : List ManifestLane)
    → (finish_lanes results overall lanes).0
      ≡ map {A = ManifestLane}
          (λ lane. record lane { result = result_of (results lane.name) })
          lanes
unfolding finish_lanes
finish_lanes_each results overall [] = refl
finish_lanes_each results overall (lane ∷ rest) =
    let so_far = if keeps_overall (results lane.name) then overall else RunResult.failed in
    rw (finish_lane-result_of (results lane.name) lane, finish_lanes_each results so_far rest) refl

-- A finished manifest passes exactly when every lane has an entry and the entry is a pass. Each lane
-- stays as it is but for its result: passed or failed as its entry says, and empty where it has none.
pub finish_lem :
    (results : String → Option Bool) (finished_at : ℕ) (manifest : Manifest)
    → (((finish results finished_at manifest).result ≡ some RunResult.passed)
        ↔ All (PassedIn results) manifest.lanes)
      × ((finish results finished_at manifest).lanes
          ≡ map {A = ManifestLane}
              (λ lane. record lane { result = result_of (results lane.name) })
              manifest.lanes)
unfolding finish
finish_lem results finished_at manifest =
    let overall = finish_lanes_overall results RunResult.passed manifest.lanes in
    (
      ((λ h. (overall.0 (ground arith)).1), (λ h. ap some (overall.1 (refl, h)))),
      finish_lanes_each results RunResult.passed manifest.lanes,
    )
