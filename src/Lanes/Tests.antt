-- ===== src/Lanes/Tests.antt =====
-- The sync lane narrowed to a suite, and the theorems about e2e/internal/lanes there.
use qrl_tests.Prelude.Text.{trim_space}
use qrl_tests.Lanes.Selection.{chosen, IsAccepted, with_suites-keeps, with_suites-accepts}
use qrl_tests.Errors.{is_ok, ok_or, ok}
use qrl_tests.Lanes.Registry.{
  Lane, named, with_suites, find_lane, request, select, contains_id, find_package,
}
use qrl_tests.Prelude.{
  String, true, false, List, [], ◌∷◌, ◌≡◌, refl, ◌↔◌, arith, All, is_empty, if◌then◌else◌, ◌≢◌,
}

abbrev sync_lane : Lane
sync_lane = ok_or no_lane (named "sync")
  where
    no_lane : Lane
    no_lane = record {
      name = "";
      profile = "";
      suites = [];
      timeout = 0;
      restarts_services = false;
    }

abbrev sync_names : List String
sync_names = " sync-checkpoint " ∷ "sync-checkpoint" ∷ []

abbrev checkpoint_lane : Lane
checkpoint_lane = record sync_lane { suites = "sync-checkpoint" ∷ [] }

sync_found : named "sync" ≡ ok sync_lane
unfolding named find_lane
sync_found = refl

sync_narrowed : with_suites sync_lane sync_names ≡ ok checkpoint_lane
unfolding with_suites request select contains_id find_package trim_space named find_lane
sync_narrowed = refl

refused : with_suites sync_lane ("execution-abi" ∷ []) ≢ ok sync_lane
unfolding with_suites request select contains_id find_package trim_space named find_lane
refused = λ e. ground (arith, e)

with_suites-accepts_example :
    (is_ok (with_suites sync_lane sync_names) ≡ true) ↔ All (IsAccepted sync_lane) sync_names
with_suites-accepts_example = with_suites-accepts sync_lane sync_names

with_suites-keeps_example : checkpoint_lane ≡ (
    if is_empty sync_names
    then sync_lane
    else record sync_lane { suites = chosen sync_names sync_lane.suites })
with_suites-keeps_example = with_suites-keeps sync_lane checkpoint_lane sync_names sync_narrowed
