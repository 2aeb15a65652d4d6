-- ===== src/Runner/Progress.antt =====
-- No schedule of the lanes gets stuck.
use qrl_tests.Runner.Parallel.{Turn, advance, step, take_turn, running_count}
use qrl_tests.Results.Types.{Outcome}
use qrl_tests.Runner.Plan.{LaneRun}
use qrl_tests.Ginkgo.{Ginkgo}
use qrl_tests.Prelude.{
  ℕ, suc, ◌<◌, Bool, true, List, [], ◌∷◌, ◌≡◌, arith, sum_of, ltb, Bool-cases, inl, inr, ◌==◌,
}

module _ (g : Ginkgo) (run : LaneRun → Outcome g) where
  -- How many turns a goroutine still needs.
  abbrev pub turns_left : Turn g → ℕ
  turns_left (Turn.waiting lane) = 2
  turns_left (Turn.running lane) = 1
  turns_left (Turn.filled lane outcome) = 0

  abbrev pub remaining : List (Turn g) → ℕ
  remaining = sum_of turns_left

  running_advances :
      (turns : List (Turn g))
      → 0 < running_count g turns
      → (position : ℕ) × ((free : Bool)
          → remaining (advance g run free position turns) < remaining turns)
  unfolding advance take_turn
  running_advances [] h = absurd (omega arith)
  running_advances (Turn.running lane ∷ rest) h = (0, λ free. omega arith)
  running_advances (Turn.waiting lane ∷ rest) h =
      let (position, less) = running_advances rest (omega arith) in
      (suc position, λ free. omega (arith, less free))
  running_advances (Turn.filled lane outcome ∷ rest) h =
      let (position, less) = running_advances rest (omega arith) in
      (suc position, λ free. omega (arith, less free))

  waiting_advances :
      (turns : List (Turn g))
      → 0 < remaining turns
      → running_count g turns ≡ 0
      → (position : ℕ) × (remaining (advance g run true position turns) < remaining turns)
  unfolding advance take_turn
  waiting_advances [] h idle = absurd (omega arith)
  waiting_advances (Turn.waiting lane ∷ rest) h idle = (0, omega arith)
  waiting_advances (Turn.running lane ∷ rest) h idle = absurd (omega arith)
  waiting_advances (Turn.filled lane outcome ∷ rest) h idle =
      let (position, less) = waiting_advances rest (omega arith) (omega arith) in
      (suc position, omega (arith, less))

  -- With at least one place in the semaphore, until every slot is filled there is a goroutine whose
  -- turn brings the run nearer to its end: the lanes never wait for each other forever.
  pub step_progress :
      (limit : ℕ) (turns : List (Turn g))
      → 0 < limit
      → 0 < remaining turns
      → (position : ℕ) × (remaining (step g run limit turns position) < remaining turns)
  unfolding step
  step_progress limit turns places unfinished = elim (Bool-cases (running_count g turns == 0)) [
    | inl idle ↦
        let (position, less) = waiting_advances turns unfinished (ground (arith, idle)) in
        let free : ltb (running_count g turns) limit ≡ true = ground (arith, idle, places) in
        (position, rw free less)
    | inr busy ↦
        let (position, less) = running_advances turns (ground (arith, busy)) in
        (position, less (ltb (running_count g turns) limit))
  ]
