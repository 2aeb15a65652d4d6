-- ===== src/Beacon/VoteReading.antt =====
-- The blocks whose attestations are read for the source vote of e2e/internal/rewards/validator.go.
use qrl_tests.Prelude.{
  ℕ, zero, suc, ◌+◌, ◌%◌, ◌^◌, ◌==◌, Bool, true, false, ◌||◌, List, [], ◌∷◌, any, ◌≡◌, arith,
  Bool-cases, inl, inr, if◌then◌else◌,
}
use qrl_tests.Errors.{ok, fail, Result-cases}
use qrl_tests.Beacon.Blocks.{Attestation, BlockNode}
use qrl_tests.Beacon.Rewards.{duty}
use qrl_tests.Beacon.TimelyVotes.{TimelyVotes, Duty, covers, count_votes, is_on_time, read_votes}

-- The block that many slots after the duty's is there and has the validator's attestation.
unfoldable pub is_included : BlockNode → Duty → ℕ → Bool
is_included node duty delay = elim (node.block_operations ((duty.slot + delay) % 2 ^ 64)) [
  | fail e ↦ false
  | ok operations ↦ any (covers duty) operations.attestations
]

-- Some block at one of so many delays, from a first one on, has it.
unfoldable pub is_included_within : BlockNode → Duty → ℕ → ℕ → Bool
unfolding is_included
is_included_within node duty zero delay = false
is_included_within node duty (suc rounds) delay =
    is_included node duty delay || is_included_within node duty rounds (delay + 1)

count_votes-source :
    (duty : Duty) (soonest : Bool) (votes : TimelyVotes) (attestations : List Attestation)
    → (count_votes duty soonest votes attestations).source
      ≡ (votes.source || any (covers duty) attestations)
unfolding count_votes
count_votes-source duty soonest votes [] = ground arith
count_votes-source duty soonest votes (attestation ∷ rest) =
    let on_time = is_on_time duty soonest attestation in
    let own_votes : TimelyVotes = record {
      source = true;
      head = if on_time then true else votes.head;
    } in
    let counted = count_votes-source duty soonest own_votes rest in
    let skipped = count_votes-source duty soonest votes rest in
    elim (Bool-cases (covers duty attestation)) [
      | inl own ↦ ground (arith, own, counted)
      | inr other ↦ ground (arith, other, skipped)
    ]

pub read_votes-source :
    (node : BlockNode)
    → (min_delay : ℕ) → (duty : Duty) → (rounds delay : ℕ) → (votes result : TimelyVotes)
    → read_votes node min_delay duty rounds delay votes ≡ ok result
    → result.source ≡ (votes.source || is_included_within node duty rounds delay)
unfolding read_votes is_included_within is_included
read_votes-source node min_delay duty zero delay votes result done = ground (arith, done)
read_votes-source node min_delay duty (suc rounds) delay votes result done =
    elim (Result-cases (node.block_operations ((duty.slot + delay) % 2 ^ 64))) [
      | inl (operations, e) ↦
          let next = count_votes duty (delay == min_delay) votes operations.attestations in
          let more : read_votes node min_delay duty rounds (delay + 1) next ≡ ok result =
            ground (arith, e, done) in
          let ih = read_votes-source node min_delay duty rounds (delay + 1) next result more in
          let counted =
            count_votes-source duty (delay == min_delay) votes operations.attestations in
          ground (arith, e, ih, counted)
      | inr (fault, e) ↦ elim (Bool-cases (node.is_not_found fault)) [
        | inl absent ↦
            let ih =
              read_votes-source node min_delay duty rounds (delay + 1) votes result
                (ground (arith, e, absent, done)) in
            ground (arith, e, ih)
        | inr broken ↦ ground (arith, e, broken, done)
      ]
    ]
