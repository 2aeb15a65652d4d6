-- ===== src/Runner/Parallel.antt =====
-- The parallel branch of runLanes in e2e/runner/runner.go: a goroutine for each lane, which takes a
-- place in the semaphore, runs its lane, fills its slot, and gives the place back. A schedule is the
-- order in which the goroutines take their turns.
use qrl_tests.Prelude.{
  ℕ, zero, suc, Bool, true, false, List, [], ◌∷◌, map, ltb, count_where, if◌then◌else◌,
}
use qrl_tests.Ginkgo.{Ginkgo}
use qrl_tests.Results.Types.{Outcome}
use qrl_tests.Runner.Plan.{LaneRun}

module _ (g : Ginkgo) where
  -- A goroutine waits for the semaphore, holds a place in it, or has filled its lane's slot.
  pub data Turn : Type 0 where
    waiting : LaneRun → Turn
    running : LaneRun → Turn
    filled : LaneRun → Outcome g → Turn

  abbrev pub is_running : Turn → Bool
  is_running (running lane) = true
  is_running _ = false

  abbrev pub running_count : List Turn → ℕ
  running_count = count_where is_running

  unfoldable pub started_turns : List LaneRun → List Turn
  started_turns = map waiting

  module _ (run : LaneRun → Outcome g) where
    -- What a goroutine does in its turn; `free` is whether the semaphore has a place.
    unfoldable pub take_turn : Bool → Turn → Turn
    take_turn free (waiting lane) = if free then running lane else waiting lane
    take_turn free (running lane) = filled lane (run lane)
    take_turn free (filled lane outcome) = filled lane outcome

    unfoldable pub advance : Bool → ℕ → List Turn → List Turn
    unfolding take_turn
    advance free position [] = []
    advance free zero (turn ∷ rest) = take_turn free turn ∷ rest
    advance free (suc position) (turn ∷ rest) = turn ∷ advance free position rest

    unfoldable pub step : ℕ → List Turn → ℕ → List Turn
    unfolding advance
    step limit turns position = advance (ltb (running_count turns) limit) position turns

    unfoldable pub run_schedule : ℕ → List Turn → List ℕ → List Turn
    unfolding step
    run_schedule limit turns [] = turns
    run_schedule limit turns (position ∷ rest) = run_schedule limit (step limit turns position) rest
