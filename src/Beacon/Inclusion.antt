-- ===== src/Beacon/Inclusion.antt =====
-- The source vote of e2e/internal/rewards/validator.go, against the blocks that include it.
use qrl_tests.Beacon.Duties.{HasDuty, duty-HasDuty}
use qrl_tests.Beacon.SquareRoot.{IsFloorRoot, square_root-IsFloorRoot}
use qrl_tests.Prelude.{
  ℕ, zero, suc, ◌+◌, ◌-◌, ◌*◌, ◌%◌, ◌^◌, ◌==◌, true, false, List, [], ◌∷◌, any, ◌≡◌, arith,
  Bool-cases, inl, inr, ◌↔◌, ◌≤◌, ◌<◌, ◌⊎◌, sym, subst, ◌∙◌, some,
}
use qrl_tests.Errors.{Result, ok, Result-cases}
use qrl_tests.Beacon.Types.{Committee, includes}
use qrl_tests.Beacon.Blocks.{Attestation, BlockNode, BlockOperations}
use qrl_tests.Beacon.Rewards.{BeaconNode, duty, root_at_or_before}
use qrl_tests.Beacon.Votes.{Spec, square_root}
use qrl_tests.Beacon.TimelyVotes.{TimelyVotes, Duty, covers, read_votes, find_duty, timely_votes}
use qrl_tests.Beacon.VoteReading.{is_included, is_included_within, read_votes-source}

-- The attestation is for the slot and the committee, and has the bit of the member.
abbrev pub IsVoteOf : ℕ → ℕ → ℕ → Attestation → Type 0
IsVoteOf slot committee position attestation =
    (attestation.attestation_data.slot ≡ slot)
    × (attestation.attestation_data.committee_index ≡ committee)
    × (includes attestation.aggregation_bits position ≡ true)

-- Some attestation of a block is.
abbrev pub SomeVote : ℕ → ℕ → ℕ → List Attestation → Type 0
SomeVote slot committee position [] = ⊥
SomeVote slot committee position (attestation ∷ rest) =
    IsVoteOf slot committee position attestation ⊎ SomeVote slot committee position rest

-- The block so many slots after `slot` is there and has such an attestation.
abbrev pub IsVotedAt : BlockNode → ℕ → ℕ → ℕ → ℕ → Type 0
IsVotedAt blocks slot committee position delay =
    (operations : BlockOperations) × (blocks.block_operations ((slot + delay) % 2 ^ 64)
      ≡ ok operations)
    × SomeVote slot committee position operations.attestations

covers-IsVoteOf :
    (duty : Duty) (attestation : Attestation)
    → (covers duty attestation ≡ true) ↔ IsVoteOf duty.slot duty.committee duty.position attestation
unfolding covers
covers-IsVoteOf duty attestation = ((λ h. ground (arith, h)), (λ h. ground (arith, h)))

any-SomeVote :
    (duty : Duty) (attestations : List Attestation)
    → (any (covers duty) attestations ≡ true)
      ↔ SomeVote duty.slot duty.committee duty.position attestations
any-SomeVote duty [] = ((λ h. absurd (ground (arith, h))), (λ h. absurd h))
any-SomeVote duty (attestation ∷ rest) =
    let here = covers-IsVoteOf duty attestation in
    let later = any-SomeVote duty rest in
    (
      (λ h. elim (Bool-cases (covers duty attestation)) [
        | inl own ↦ inl (here.0 own)
        | inr other ↦ inr (later.0 (ground (arith, h, other)))
      ]),
      (λ h. elim h [
        | inl own ↦ let own_covers = here.1 own in ground (arith, own_covers)
        | inr there ↦ let later_covers = later.1 there in ground (arith, later_covers)
      ]),
    )

is_included-ok :
    (blocks : BlockNode) (duty : Duty) (delay : ℕ) (operations : BlockOperations)
    → blocks.block_operations ((duty.slot + delay) % 2 ^ 64) ≡ ok operations
    → is_included blocks duty delay ≡ any (covers duty) operations.attestations
unfolding is_included
is_included-ok blocks duty delay operations e = rw (e, is_included)

is_included-IsVotedAt :
    (blocks : BlockNode) (duty : Duty) (delay : ℕ)
    → (is_included blocks duty delay ≡ true)
      ↔ IsVotedAt blocks duty.slot duty.committee duty.position delay
unfolding is_included
is_included-IsVotedAt blocks duty delay = (
  (λ h. elim (Result-cases (blocks.block_operations ((duty.slot + delay) % 2 ^ 64))) [
    | inl (operations, e) ↦
        let voted = sym (is_included-ok blocks duty delay operations e) ∙ h in
        (operations, e, (any-SomeVote duty operations.attestations).0 voted)
    | inr (fault, e) ↦ absurd (ground (arith, e, h))
  ]),
  (λ h. is_included-ok blocks duty delay h.0 h.1 ∙ (any-SomeVote duty h.0.attestations).1 h.2),
)

is_included_within-IsVotedAt :
    (blocks : BlockNode) (duty : Duty) (rounds delay : ℕ)
    → (is_included_within blocks duty rounds delay ≡ true) ↔ (
        (k : ℕ) × (delay ≤ k)
        × (k < delay + rounds)
        × IsVotedAt blocks duty.slot duty.committee duty.position k)
unfolding is_included_within
is_included_within-IsVotedAt blocks duty zero delay =
    ((λ h. absurd (ground (arith, h))), (λ h. absurd (omega (arith, h.1, h.2))))
is_included_within-IsVotedAt blocks duty (suc rounds) delay =
    let here = is_included-IsVotedAt blocks duty delay in
    let later = is_included_within-IsVotedAt blocks duty rounds (delay + 1) in
    (
      (λ h. elim (Bool-cases (is_included blocks duty delay)) [
        | inl voted ↦ (delay, omega arith, omega arith, here.0 voted)
        | inr not_here ↦
            let (k, from, before, voted) = later.0 (ground (arith, h, not_here)) in
            (k, omega (arith, from), omega (arith, before), voted)
      ]),
      (λ h. elim (Bool-cases (h.0 == delay)) [
        | inl same ↦
            let at : h.0 ≡ delay = ground (arith, same) in
            let voted =
              here.1 (subst (IsVotedAt blocks duty.slot duty.committee duty.position) at h.3) in
            ground (arith, voted)
        | inr other ↦
            let there = later.1 (h.0, ground (arith, h.1, other), omega (arith, h.2), h.3) in
            ground (arith, there)
      ]),
    )

-- The same duty has the same votes.
IsVotedAt-of :
    (blocks : BlockNode) (delay slot slot' committee committee' position position' : ℕ)
    → slot ≡ slot'
    → committee ≡ committee'
    → position ≡ position'
    → IsVotedAt blocks slot committee position delay
    → IsVotedAt blocks slot' committee' position' delay
IsVotedAt-of blocks delay slot slot' committee committee' position position' a b c voted =
    subst (λ s. IsVotedAt blocks s committee' position' delay) a
      (subst (λ k. IsVotedAt blocks slot k position' delay) b
        (subst (λ p. IsVotedAt blocks slot committee p delay) c voted))

-- What is kept of the duty that is found.
find_duty-duty :
    (node : BeaconNode) (index start epoch slot committee position : ℕ) (answer : List Committee)
    (found : Duty)
    → duty index answer ≡ some (slot, committee, position)
    → find_duty node index start epoch answer ≡ ok found
    → (found.slot ≡ slot) × (found.committee ≡ committee) × (found.position ≡ position)
unfolding find_duty
find_duty-duty node index start epoch slot committee position answer found e done =
    elim (Result-cases (root_at_or_before node slot)) [
      | inr (fault, h) ↦ absurd (ground (arith, e, done, h))
      | inl (head_root, h) ↦ elim (Result-cases (root_at_or_before node start)) [
        | inr (fault, t) ↦ absurd (ground (arith, e, done, h, t))
        | inl (target_root, t) ↦ ground (arith, e, done, h, t)
      ]
    ]

-- A delay is in the window exactly when its square is at most the number of slots.
window :
    (n delay first root : ℕ)
    → IsFloorRoot n root
    → first ≤ delay
    → (delay < first + (root + 1 - first)) ↔ (delay * delay ≤ n)
window n delay first root floor from = (
  (λ h. let below : delay ≤ root = omega (arith, h, from) in grind (arith, floor, below)),
  (λ h. let below : delay < root + 1 = grind (arith, floor, h) in omega (arith, below, from)),
)

-- Where a duty is found for the validator and its votes are read, some committee of the epoch has the
-- validator at the duty's position. The source vote is timely exactly when, at a delay that is at
-- least the least one and whose square is at most the number of slots in an epoch, there is a block
-- so many slots after the duty's that has an attestation for the slot and the committee with the bit
-- of that position.
pub timely_votes-source :
    (node : BeaconNode)
    → (blocks : BlockNode) → (committees : ℕ → ℕ → Result (List Committee)) → (spec : Spec)
    → (slots_per_epoch index epoch slot committee position : ℕ) → (answer : List Committee)
    → (votes : TimelyVotes) → slots_per_epoch < 2 ^ 64
    → committees ((epoch * slots_per_epoch) % 2 ^ 64) epoch ≡ ok answer
    → duty index answer ≡ some (slot, committee, position)
    → timely_votes node blocks committees spec slots_per_epoch index epoch ≡ ok votes
    → HasDuty index slot committee position answer
      × ((votes.source ≡ true) ↔ (
          (delay : ℕ) × (spec.min_inclusion_delay ≤ delay)
          × (delay * delay ≤ slots_per_epoch)
          × IsVotedAt blocks slot committee position delay))
unfolding timely_votes
timely_votes-source node blocks committees spec slots_per_epoch index epoch slot committee position
      answer votes small answered assigned done =
    let start = (epoch * slots_per_epoch) % 2 ^ 64 in
    let first = spec.min_inclusion_delay in
    let root = square_root slots_per_epoch in
    let none_yet : TimelyVotes = record { source = false; head = false } in
    elim (Result-cases (find_duty node index start epoch answer)) [
      | inr (fault, e) ↦ absurd (ground (arith, answered, e, done))
      | inl (own, e) ↦
          let read : read_votes blocks first own (root + 1 - first) first none_yet ≡ ok votes =
            ground (arith, answered, e, done) in
          let counted =
            read_votes-source blocks first own (root + 1 - first) first none_yet votes read in
          let seen = is_included_within-IsVotedAt blocks own (root + 1 - first) first in
          let (at_slot, of_committee, at_position) =
            find_duty-duty node index start epoch slot committee position answer own assigned e in
          let floor = square_root-IsFloorRoot slots_per_epoch small in
          (
            duty-HasDuty index slot committee position answer assigned,
            (
              (λ h.
                  let (delay, from, before, voted) = seen.0 (sym counted ∙ h) in
                  let here =
                    IsVotedAt-of blocks delay own.slot slot own.committee committee own.position
                      position at_slot of_committee at_position voted in
                  (
                    delay,
                    from,
                    (window slots_per_epoch delay first root floor from).0 before,
                    here,
                  )),
              (λ h.
                  let (delay, from, within_window, voted) = h in
                  let there =
                    IsVotedAt-of blocks delay slot own.slot committee own.committee position
                      own.position (sym at_slot) (sym of_committee) (sym at_position) voted in
                  let before =
                    (window slots_per_epoch delay first root floor from).1 within_window in
                  counted ∙ seen.1 (delay, from, before, there)),
            ),
          )
    ]
