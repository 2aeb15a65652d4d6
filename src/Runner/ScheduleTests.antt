-- ===== src/Runner/ScheduleTests.antt =====
-- Two lanes on a semaphore of one place, and the theorems about the parallel branch there.
use qrl_tests.Prelude.Text.{◌<>◌}
use qrl_tests.Results.Types.{Outcome}
use qrl_tests.Runner.Progress.{remaining, step_progress}
use qrl_tests.Runner.Schedules.{run_schedule_outcomes, run_schedule-running_count, HasFilled}
use qrl_tests.Runner.Parallel.{run_schedule, started_turns, running_count, step, advance, take_turn}
use qrl_tests.Runner.Plan.{LaneRun}
use qrl_tests.Prelude.{ℕ, ◌≤◌, ◌<◌, String, List, [], ◌∷◌, map, ◌≡◌, refl, arith, false}
use qrl_tests.Prelude.Int.{pos}
use qrl_tests.Results.Tests.{numbered, good_report, lane_with}

abbrev lane_named : String → LaneRun
lane_named name = record {
  definition = record {
    name = name;
    profile = "single";
    suites = [];
    timeout = 0;
    restarts_services = false;
  };
  enclave_name = "go-qrl-devnet";
  report_dir = "/work/reports/lanes/" <> name;
  seed = pos 42;
}

abbrev two_lanes : List LaneRun
two_lanes = lane_named "execution" ∷ lane_named "sync" ∷ []

abbrev run_good : LaneRun → Outcome numbered
run_good run = record (lane_with good_report) { name = run.definition.name }

-- The second lane goes first; the first one finds no place in its first turn.
abbrev second_first : List ℕ
second_first = 1 ∷ 0 ∷ 1 ∷ 0 ∷ 0 ∷ []

both_filled :
    HasFilled numbered run_good
      (run_schedule numbered run_good 1 (started_turns numbered two_lanes) second_first)
      (map run_good two_lanes)
unfolding run_schedule step advance take_turn started_turns
both_filled = (refl, (refl, tt))

run_schedule_outcomes_example : map run_good two_lanes ≡ map run_good two_lanes
run_schedule_outcomes_example =
    run_schedule_outcomes numbered run_good 1 two_lanes second_first (map run_good two_lanes)
      both_filled

one_place : running_count numbered (started_turns numbered two_lanes) ≤ 1
unfolding started_turns
one_place = omega arith

run_schedule-running_count_example :
    running_count numbered
      (run_schedule numbered run_good 1 (started_turns numbered two_lanes) second_first)
    ≤ 1
run_schedule-running_count_example =
    run_schedule-running_count numbered run_good 1 (started_turns numbered two_lanes) second_first
      one_place

unfinished : 0 < remaining numbered run_good (started_turns numbered two_lanes)
unfolding started_turns
unfinished = omega arith

step_progress_example :
    (position : ℕ) × (remaining numbered run_good
        (step numbered run_good 1 (started_turns numbered two_lanes) position)
      < remaining numbered run_good (started_turns numbered two_lanes))
step_progress_example =
    step_progress numbered run_good 1 (started_turns numbered two_lanes) (omega arith) unfinished
