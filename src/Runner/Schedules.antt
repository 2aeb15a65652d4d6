-- ===== src/Runner/Schedules.antt =====
-- What every schedule of the lanes keeps, and where it ends.
use qrl_tests.Runner.Parallel.{
  Turn, advance, take_turn, running_count, is_running, run_schedule, started_turns, step,
}
use qrl_tests.Results.Types.{Outcome}
use qrl_tests.Runner.Plan.{LaneRun}
use qrl_tests.Ginkgo.{Ginkgo}
use qrl_tests.Prelude.{
  ℕ, zero, suc, ◌+◌, ◌≤◌, Bool, true, false, List, [], ◌∷◌, map, ◌≡◌, refl, arith, All, one_if, ltb,
  Bool-cases, inl, inr, ap, ◌∙◌, sym,
}

module _ (g : Ginkgo) (run : LaneRun → Outcome g) where
  -- A slot holds the outcome of its own lane.
  abbrev pub IsFaithful : Turn g → Type 0
  IsFaithful (Turn.filled lane outcome) = outcome ≡ run lane
  IsFaithful _ = Unit

  abbrev pub lane_of : Turn g → LaneRun
  lane_of (Turn.waiting lane) = lane
  lane_of (Turn.running lane) = lane
  lane_of (Turn.filled lane outcome) = lane

  -- All slots are filled, with these outcomes.
  abbrev pub HasFilled : List (Turn g) → List (Outcome g) → Type 0
  HasFilled [] [] = Unit
  HasFilled (Turn.filled lane outcome ∷ turns) (o ∷ outcomes) =
      (outcome ≡ o) × HasFilled turns outcomes
  HasFilled _ _ = ⊥

  take_turn-running :
      (free : Bool) (turn : Turn g)
      → one_if (is_running g (take_turn g run free turn)) ≤ one_if (is_running g turn) + one_if free
  unfolding take_turn
  take_turn-running true (Turn.waiting lane) = omega arith
  take_turn-running false (Turn.waiting lane) = omega arith
  take_turn-running free (Turn.running lane) = omega arith
  take_turn-running free (Turn.filled lane outcome) = omega arith

  take_turn-lane_of :
      (free : Bool) (turn : Turn g) → lane_of (take_turn g run free turn) ≡ lane_of turn
  unfolding take_turn
  take_turn-lane_of true (Turn.waiting lane) = refl
  take_turn-lane_of false (Turn.waiting lane) = refl
  take_turn-lane_of free (Turn.running lane) = refl
  take_turn-lane_of free (Turn.filled lane outcome) = refl

  take_turn-IsFaithful :
      (free : Bool) (turn : Turn g) → IsFaithful turn → IsFaithful (take_turn g run free turn)
  unfolding take_turn
  take_turn-IsFaithful true (Turn.waiting lane) h = tt
  take_turn-IsFaithful false (Turn.waiting lane) h = tt
  take_turn-IsFaithful free (Turn.running lane) h = refl
  take_turn-IsFaithful free (Turn.filled lane outcome) h = h

  advance-running_count :
      (free : Bool) (position : ℕ) (turns : List (Turn g))
      → running_count g (advance g run free position turns) ≤ running_count g turns + one_if free
  unfolding advance take_turn
  advance-running_count free position [] = omega arith
  advance-running_count free zero (turn ∷ rest) = omega (arith, take_turn-running free turn)
  advance-running_count free (suc position) (turn ∷ rest) =
      omega (arith, advance-running_count free position rest)

  advance-lane_of :
      (free : Bool) (position : ℕ) (turns : List (Turn g))
      → map lane_of (advance g run free position turns) ≡ map lane_of turns
  unfolding advance take_turn
  advance-lane_of free position [] = refl
  advance-lane_of free zero (turn ∷ rest) =
      ap (λ lane. lane ∷ map lane_of rest) (take_turn-lane_of free turn)
  advance-lane_of free (suc position) (turn ∷ rest) =
      ap (λ lanes. lane_of turn ∷ lanes) (advance-lane_of free position rest)

  advance-IsFaithful :
      (free : Bool) (position : ℕ) (turns : List (Turn g))
      → All IsFaithful turns
      → All IsFaithful (advance g run free position turns)
  unfolding advance take_turn
  advance-IsFaithful free position [] all = tt
  advance-IsFaithful free zero (turn ∷ rest) all = (take_turn-IsFaithful free turn all.0, all.1)
  advance-IsFaithful free (suc position) (turn ∷ rest) all =
      (all.0, advance-IsFaithful free position rest all.1)

  -- However the goroutines take their turns, no more lanes run at once than the semaphore has places.
  pub run_schedule-running_count :
      (limit : ℕ) (turns : List (Turn g)) (schedule : List ℕ)
      → running_count g turns ≤ limit
      → running_count g (run_schedule g run limit turns schedule) ≤ limit
  unfolding run_schedule step
  run_schedule-running_count limit turns [] h = h
  run_schedule-running_count limit turns (position ∷ rest) h =
      let free = ltb (running_count g turns) limit in
      let here = advance-running_count free position turns in
      run_schedule-running_count limit (step g run limit turns position) rest
        (elim (Bool-cases free) [
          | inl open_place ↦ ground (arith, here, open_place)
          | inr taken ↦ ground (arith, here, taken, h)
        ])

  run_schedule_keeps :
      (limit : ℕ) (turns : List (Turn g)) (schedule : List ℕ)
      → All IsFaithful turns
      → All IsFaithful (run_schedule g run limit turns schedule)
        × (map lane_of (run_schedule g run limit turns schedule) ≡ map lane_of turns)
  unfolding run_schedule step
  run_schedule_keeps limit turns [] all = (all, refl)
  run_schedule_keeps limit turns (position ∷ rest) all =
      let free = ltb (running_count g turns) limit in
      let (faithful, same) =
        run_schedule_keeps limit (step g run limit turns position) rest
          (advance-IsFaithful free position turns all) in
      (faithful, same ∙ advance-lane_of free position turns)

  started_turns_lem :
      (lanes : List LaneRun)
      → All IsFaithful (started_turns g lanes) × (map lane_of (started_turns g lanes) ≡ lanes)
  unfolding started_turns
  started_turns_lem [] = (tt, refl)
  started_turns_lem (lane ∷ rest) =
      let (faithful, same) = started_turns_lem rest in
      ((tt, faithful), ap (λ lanes. lane ∷ lanes) same)

  filled_outcomes :
      (turns : List (Turn g)) (outcomes : List (Outcome g))
      → All IsFaithful turns
      → HasFilled turns outcomes
      → outcomes ≡ map run (map lane_of turns)
  filled_outcomes [] [] all h = refl
  filled_outcomes [] (o ∷ outcomes) all h = elim h [ ]
  filled_outcomes (Turn.waiting lane ∷ turns) outcomes all h = elim h [ ]
  filled_outcomes (Turn.running lane ∷ turns) outcomes all h = elim h [ ]
  filled_outcomes (Turn.filled lane outcome ∷ turns) [] all h = elim h [ ]
  filled_outcomes (Turn.filled lane outcome ∷ turns) (o ∷ outcomes) all h =
      ap (λ x. x ∷ outcomes) (sym h.0 ∙ all.0)
      ∙ ap (λ os. run lane ∷ os) (filled_outcomes turns outcomes all.1 h.1)

  -- Once every slot is filled, the outcomes are those of the lanes in their order, as if they had run
  -- one after the other: the schedule and the number of places do not show.
  pub run_schedule_outcomes :
      (limit : ℕ) (lanes : List LaneRun) (schedule : List ℕ) (outcomes : List (Outcome g))
      → HasFilled (run_schedule g run limit (started_turns g lanes) schedule) outcomes
      → outcomes ≡ map run lanes
  run_schedule_outcomes limit lanes schedule outcomes h =
      let (fresh, all_lanes) = started_turns_lem lanes in
      let (faithful, same) = run_schedule_keeps limit (started_turns g lanes) schedule fresh in
      filled_outcomes _ outcomes faithful h ∙ ap (map run) (same ∙ all_lanes)
