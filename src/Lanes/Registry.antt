-- ===== src/Lanes/Registry.antt =====
-- e2e/internal/lanes/lanes.go: the lanes, their suites, and how a lane is selected and narrowed.
use qrl_tests.Prelude.{
  ℕ, ◌*◌, String, Bool, true, false, ◌||◌, Option, none, some, List, [], ◌∷◌, ◌++◌, map, str_eq,
  any, if◌then◌else◌,
}
use qrl_tests.Prelude.Text.{◌<>◌, quoted, trim_space}
use qrl_tests.Errors.{Result, ok, fail, plain, ◌>>=◌}
use qrl_tests.Devnet.Profiles.{profile_single, profile_anchored, profile_spare_validator}

-- time.Minute, in nanoseconds
abbrev pub minute : ℕ
minute = 60 * 1_000_000_000

abbrev pub execution_abi : String
execution_abi = "execution-abi"

abbrev pub execution_console : String
execution_console = "execution-console"

abbrev pub execution_txpool : String
execution_txpool = "execution-txpool"

abbrev pub consensus_staking_automated : String
consensus_staking_automated = "consensus-staking-automated"

abbrev pub consensus_staking_operator : String
consensus_staking_operator = "consensus-staking-operator"

abbrev pub consensus_penalties : String
consensus_penalties = "consensus-penalties"

abbrev pub resilience_network_restart : String
resilience_network_restart = "resilience-network-restart"

abbrev pub sync_genesis : String
sync_genesis = "sync-genesis"

abbrev pub sync_checkpoint : String
sync_checkpoint = "sync-checkpoint"

-- A suite's identifier is its text.
pub record Lane : Type 0 where
  pub name : String
  pub profile : String
  pub suites : List String
  pub timeout : ℕ
  pub restarts_services : Bool

-- `suitePackages`, a map by identifier.
abbrev pub suite_packages : List (String × String)
suite_packages =
    (execution_abi, "./e2e/suites/execution/abi")
    ∷ (execution_console, "./e2e/suites/execution/console")
    ∷ (execution_txpool, "./e2e/suites/execution/txpool")
    ∷ (consensus_staking_automated, "./e2e/suites/consensus/stakingautomated")
    ∷ (consensus_staking_operator, "./e2e/suites/consensus/stakingoperator")
    ∷ (consensus_penalties, "./e2e/suites/consensus/penalties")
    ∷ (resilience_network_restart, "./e2e/suites/resilience/networkrestart")
    ∷ (sync_genesis, "./e2e/suites/sync/genesis")
    ∷ (sync_checkpoint, "./e2e/suites/sync/checkpoint")
    ∷ []

abbrev pub registry : List Lane
registry =
    record {
      name = "execution";
      profile = profile_single;
      suites = execution_abi ∷ execution_console ∷ execution_txpool ∷ [];
      timeout = 20 * minute;
      restarts_services = false;
    }
    ∷ record {
      name = "consensus-staking-automated";
      profile = profile_single;
      suites = consensus_staking_automated ∷ [];
      timeout = 95 * minute;
      restarts_services = false;
    }
    ∷ record {
      name = "consensus-staking-operator";
      profile = profile_single;
      suites = consensus_staking_operator ∷ [];
      timeout = 95 * minute;
      restarts_services = false;
    }
    ∷ record {
      name = "consensus-penalties";
      profile = profile_spare_validator;
      suites = consensus_penalties ∷ [];
      timeout = 30 * minute;
      restarts_services = false;
    }
    ∷ record {
      name = "resilience-network-restart";
      profile = profile_anchored;
      suites = resilience_network_restart ∷ [];
      timeout = 30 * minute;
      restarts_services = true;
    }
    ∷ record {
      name = "sync";
      profile = profile_single;
      suites = sync_genesis ∷ sync_checkpoint ∷ [];
      timeout = 60 * minute;
      restarts_services = false;
    }
    ∷ []

unfoldable pub find_package : String → List (String × String) → Option String
find_package id [] = none
find_package id ((key, path) ∷ rest) = if str_eq key id then some path else find_package id rest

-- id.Package(): the empty text for an identifier that is not in the map
unfoldable pub package_of : String → String
unfolding find_package
package_of id = elim (find_package id suite_packages) [ none ↦ "" | some path ↦ path ]

-- All()
abbrev pub all_lanes : List Lane
all_lanes = registry

-- slices.Contains(ids, id)
unfoldable pub contains_id : List String → String → Bool
contains_id ids id = any (λ other. str_eq other id) ids

-- The loop over the requested names.
unfoldable pub request : Lane → List String → List String → Result (List String)
request lane requested [] = ok requested
request lane requested (name ∷ rest) =
    let id = trim_space name in
    let known = request lane requested rest in
    let added = request lane (requested ++ id ∷ []) rest in
    elim (find_package id suite_packages) [
      | none ↦ fail (plain ("unknown E2E suite " <> quoted name))
      | some path ↦
          if contains_id lane.suites id
          then (if contains_id requested id then known else added)
          else fail
              (plain ("suite " <> quoted name <> " is not available in lane " <> quoted lane.name))
    ]

-- The loop over the lane's own suites.
unfoldable pub select : List String → List String → List String
select requested [] = []
select requested (id ∷ rest) =
    let more = select requested rest in if contains_id requested id then id ∷ more else more

-- lane.WithSuites(names)
unfoldable pub with_suites : Lane → List String → Result Lane
unfolding request select
with_suites lane [] = ok lane
with_suites lane (name ∷ rest) = request lane [] (name ∷ rest) >>= λ requested.
    ok (record lane { suites = select requested lane.suites })

-- lane.Packages()
unfoldable pub packages : Lane → List String
unfolding package_of
packages lane = map package_of lane.suites

unfoldable pub needs_execution_image : Lane → Bool
unfolding contains_id
needs_execution_image lane =
    contains_id lane.suites execution_console
    || contains_id lane.suites sync_genesis
    || contains_id lane.suites sync_checkpoint

unfoldable pub needs_consensus_image : Lane → Bool
unfolding contains_id
needs_consensus_image lane =
    contains_id lane.suites sync_genesis || contains_id lane.suites sync_checkpoint

unfoldable pub needs_validator_image : Lane → Bool
unfolding contains_id
needs_validator_image lane =
    contains_id lane.suites consensus_staking_automated
    || contains_id lane.suites consensus_staking_operator
    || contains_id lane.suites consensus_penalties

unfoldable pub needs_qrysm_alltools_image : Lane → Bool
unfolding contains_id
needs_qrysm_alltools_image lane =
    contains_id lane.suites consensus_staking_operator
    || contains_id lane.suites consensus_penalties

unfoldable pub find_lane : String → List Lane → Option Lane
find_lane name [] = none
find_lane name (lane ∷ rest) = if str_eq lane.name name then some lane else find_lane name rest

-- Named(name)
unfoldable pub named : String → Result Lane
unfolding find_lane
named name = elim (find_lane name registry) [
  | none ↦ fail (plain ("unknown E2E lane " <> quoted name))
  | some lane ↦ ok lane
]
