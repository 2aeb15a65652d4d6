-- ===== src/Beacon/TimelyVotes.antt =====
-- e2e/internal/rewards/validator.go: whether the source and head votes of an epoch were timely.
use qrl_tests.Prelude.{
  ℕ, zero, suc, ◌+◌, ◌-◌, ◌*◌, ◌%◌, ◌^◌, String, Bool, true, false, not, ◌&&◌, ◌||◌, none, some,
  List, [], ◌∷◌, ◌==◌, if◌then◌else◌,
}
use qrl_tests.Prelude.Text.{◌<>◌, decimal, lower_text}
use qrl_tests.Errors.{Result, ok, fail, plain, ◌>>=◌}
use qrl_tests.Beacon.Types.{Committee, includes}
use qrl_tests.Beacon.Blocks.{Attestation, BlockNode}
use qrl_tests.Beacon.Rewards.{BeaconNode, duty, root_at_or_before}
use qrl_tests.Beacon.Votes.{Spec, square_root}
use text.Mathlib.Text.{◌==◌ as str_eq}

pub record TimelyVotes : Type 0 where
  pub source : Bool
  pub head : Bool

-- The validator's duty, and the roots that its head and target votes are for.
pub record Duty : Type 0 where
  pub slot : ℕ
  pub committee : ℕ
  pub position : ℕ
  pub head_root : String
  pub target_root : String

-- strings.EqualFold, of roots in hex
unfoldable pub equal_fold : String → String → Bool
unfolding lower_text
equal_fold s t = str_eq (lower_text s) (lower_text t)

-- The attestation is the validator's.
unfoldable pub covers : Duty → Attestation → Bool
unfolding includes
covers duty attestation =
    let voted = attestation.attestation_data in
    not (
      not (voted.slot == duty.slot)
      || not (voted.committee_index == duty.committee)
      || not (includes attestation.aggregation_bits duty.position))

-- The head vote of an attestation is timely; `soonest` is delay == minInclusionDelay.
abbrev pub is_on_time : Duty → Bool → Attestation → Bool
is_on_time duty soonest attestation =
    let voted = attestation.attestation_data in
    soonest
    && equal_fold voted.beacon_block_root duty.head_root
    && equal_fold voted.target.root duty.target_root

-- The loop over a block's attestations.
unfoldable pub count_votes : Duty → Bool → TimelyVotes → List Attestation → TimelyVotes
unfolding covers
count_votes duty soonest votes [] = votes
count_votes duty soonest votes (attestation ∷ rest) =
    count_votes duty soonest
      (if covers duty attestation
        then record {
          source = true;
          head = if is_on_time duty soonest attestation then true else votes.head;
        }
        else votes)
      rest

-- The loop over the delays, for as many as are left.
unfoldable pub read_votes : BlockNode → ℕ → Duty → ℕ → ℕ → TimelyVotes → Result TimelyVotes
unfolding count_votes
read_votes node min_delay duty zero delay votes = ok votes
read_votes node min_delay duty (suc rounds) delay votes =
    elim (node.block_operations ((duty.slot + delay) % 2 ^ 64)) [
      | fail e ↦
          if node.is_not_found e
          then read_votes node min_delay duty rounds (delay + 1) votes
          else fail e
      | ok operations ↦
          read_votes node min_delay duty rounds (delay + 1)
            (count_votes duty (delay == min_delay) votes operations.attestations)
    ]

-- The duty among the committees, and the roots at its slot and at the epoch's first slot.
unfoldable pub find_duty : BeaconNode → ℕ → ℕ → ℕ → List Committee → Result Duty
unfolding duty root_at_or_before
find_duty node index start epoch committees = elim (duty index committees) [
  | none ↦
      fail
        (plain ("validator " <> decimal index <> " is in no committee of epoch " <> decimal epoch))
  | some (slot, committee, position) ↦ root_at_or_before node slot >>= λ head_root.
      (root_at_or_before node start >>= λ target_root. ok (record {
        slot = slot;
        committee = committee;
        position = position;
        head_root = head_root;
        target_root = target_root;
      }))
]

-- validator.TimelyVotes(epoch), with the committees that the node answers for the epoch's first slot
-- and the epoch. The window is below 2 ^ 32, so that the delay does not wrap.
unfoldable pub timely_votes :
    BeaconNode
    → BlockNode
    → (ℕ → ℕ → Result (List Committee))
    → Spec
    → ℕ
    → ℕ
    → ℕ
    → Result TimelyVotes
unfolding find_duty read_votes square_root
timely_votes node blocks committees spec slots_per_epoch index epoch =
    let start = (epoch * slots_per_epoch) % 2 ^ 64 in
    let first = spec.min_inclusion_delay in
    committees start epoch >>= λ answer.
    (find_duty node index start epoch answer >>= λ duty.
    read_votes blocks first duty (square_root slots_per_epoch + 1 - first) first
      (record { source = false; head = false }))
