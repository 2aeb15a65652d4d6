-- ===== src/Beacon/Rewards.antt =====
-- e2e/internal/rewards: the scan for a reward, a validator's duty, and the root at or before a slot.
-- What the beacon node answers is a record of functions.
use qrl_tests.Prelude.{
  ℕ, zero, suc, ◌+◌, ◌%◌, ◌^◌, String, Bool, true, false, not, Option, none, some, List, [], ◌∷◌,
  leb, ◌==◌, if◌then◌else◌,
}
use qrl_tests.Prelude.Text.{◌<>◌, decimal}
use qrl_tests.Errors.{Fault, Result, ok, fail, plain}
use qrl_tests.Beacon.Types.{AttestationReward, Committee, BlockHeader, epoch_of}

pub record BeaconNode : Type 0 where
  pub head_slot : Result ℕ
  pub attestation_rewards : ℕ → ℕ → Result (List AttestationReward)
  pub block_header : ℕ → Result BlockHeader
  pub is_not_found : Fault → Bool

-- AttestationReward: the one reward, if it is the validator's
abbrev pub only_reward : ℕ → ℕ → List AttestationReward → Result AttestationReward
only_reward epoch index [] =
    fail (plain ("epoch " <> decimal epoch <> " rewards do not cover validator " <> decimal index))
only_reward epoch index (reward ∷ []) =
    if reward.validator_index == index
    then ok reward
    else fail
        (plain ("epoch " <> decimal epoch <> " rewards do not cover validator " <> decimal index))
only_reward epoch index (reward ∷ other ∷ rest) =
    fail (plain ("epoch " <> decimal epoch <> " rewards do not cover validator " <> decimal index))

unfoldable pub attestation_reward : BeaconNode → ℕ → ℕ → Result AttestationReward
attestation_reward node epoch index = elim (node.attestation_rewards epoch index) [
  | fail e ↦ fail e
  | ok rewards ↦ only_reward epoch index rewards
]

-- rewardsAvailable; the sum is of 64 bits.
unfoldable pub rewards_available : ℕ → ℕ → ℕ → Bool
unfolding epoch_of
rewards_available slots_per_epoch head epoch =
    leb ((epoch + 2) % 2 ^ 64) (epoch_of slots_per_epoch head)

-- The loop of scan, from `next` on: where it ended, and what it returned there.
unfoldable pub scan_from :
    BeaconNode → ℕ → (AttestationReward → Bool) → ℕ → ℕ → ℕ → ℕ → ℕ × Result Bool
scan_from node slots_per_epoch matches index head zero next = (next, ok false)
scan_from node slots_per_epoch matches index head (suc rounds) next =
    let later = scan_from node slots_per_epoch matches index head rounds (next + 1) in
    if rewards_available slots_per_epoch head next
    then elim (attestation_reward node next index) [
      | fail e ↦ (next, fail e)
      | ok reward ↦ if matches reward then (next, ok true) else later
    ]
    else (next, ok false)

-- scanner.scan(), with the scanner's `next`; there are no more rounds than epochs up to the head's.
unfoldable pub scan : BeaconNode → ℕ → (AttestationReward → Bool) → ℕ → ℕ → ℕ × Result Bool
unfolding scan_from
scan node slots_per_epoch matches index next = elim node.head_slot [
  | fail e ↦ (next, fail e)
  | ok head ↦
      scan_from node slots_per_epoch matches index head (epoch_of slots_per_epoch head + 1) next
]

-- The member's position in a committee, from `member` on.
unfoldable pub position_in : ℕ → ℕ → List ℕ → Option ℕ
position_in index member [] = none
position_in index member (other ∷ rest) =
    let later = position_in index (member + 1) rest in if other == index then some member else later

-- validator.duty(committees): slot, committee and position
unfoldable pub duty : ℕ → List Committee → Option (ℕ × ℕ × ℕ)
unfolding position_in
duty index [] = none
duty index (candidate ∷ rest) =
    let later = duty index rest in
    elim (position_in index 0 candidate.validators) [
      | none ↦ later
      | some member ↦ some (candidate.slot, candidate.index, member)
    ]

-- rootAtOrBefore
unfoldable pub root_at_or_before : BeaconNode → ℕ → Result String
root_at_or_before node zero = elim (node.block_header 0) [
  | fail e ↦ fail e
  | ok header ↦ ok header.root
]
root_at_or_before node (suc before) =
    let earlier = root_at_or_before node before in
    elim (node.block_header (suc before)) [
      | ok header ↦ ok header.root
      | fail e ↦ if not (node.is_not_found e) then fail e else earlier
    ]
