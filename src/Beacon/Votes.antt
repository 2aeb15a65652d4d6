-- ===== src/Beacon/Votes.antt =====
-- e2e/internal/rewards/validator.go: the consensus constants, and what the votes of an epoch earn
-- or cost. The numbers are of 64 bits; none is the panic of a division by zero.
use qrl_tests.Prelude.{
  ℕ, zero, suc, ◌+◌, ◌-◌, ◌*◌, ◌/◌, ◌%◌, ◌^◌, String, ◌||◌, Option, none, some, List, [], ◌∷◌, leb,
  ltb, ◌==◌, if◌then◌else◌,
}
use qrl_tests.Prelude.Int.{ℤ}
use qrl_tests.Prelude.Text.{◌<>◌, decimal}
use qrl_tests.Errors.{Result, ok, fail, plain, ◌>>=◌}
use qrl_tests.Beacon.Blocks.{Checkpoint}

pub record Spec : Type 0 where
  pub increment : ℕ
  pub base_reward_factor : ℕ
  pub source_weight : ℕ
  pub target_weight : ℕ
  pub weight_denominator : ℕ
  pub min_epochs_to_inactivity_penalty : ℕ
  pub min_inclusion_delay : ℕ

-- LoadSpec(values), from the client's answer: values.Uint by the constant's name
unfoldable pub load_spec : Result (String → Result ℕ) → Result Spec
load_spec answer = answer >>= λ uint.
    (uint "EFFECTIVE_BALANCE_INCREMENT" >>= λ increment.
    (uint "BASE_REWARD_FACTOR" >>= λ factor.
    (uint "TIMELY_SOURCE_WEIGHT" >>= λ source.
    (uint "TIMELY_TARGET_WEIGHT" >>= λ target.
    (uint "WEIGHT_DENOMINATOR" >>= λ denominator.
    (uint "MIN_EPOCHS_TO_INACTIVITY_PENALTY" >>= λ epochs.
    (uint "MIN_ATTESTATION_INCLUSION_DELAY" >>= λ delay. ok (record {
      increment = increment;
      base_reward_factor = factor;
      source_weight = source;
      target_weight = target;
      weight_denominator = denominator;
      min_epochs_to_inactivity_penalty = epochs;
      min_inclusion_delay = delay;
    }))))))))

-- The root's lower bits, from the highest one left.
unfoldable pub root_bits : ℕ → ℕ → ℕ → ℕ
root_bits n zero root = root
root_bits n (suc bits) root =
    root_bits n bits
      (if leb ((root + 2 ^ bits) * (root + 2 ^ bits)) n then root + 2 ^ bits else root)

-- big.Int.Sqrt of a uint64: the root rounded down
unfoldable pub square_root : ℕ → ℕ
unfolding root_bits
square_root n = root_bits n 32 0

-- spec.missedVotePenalties(effectiveBalance, totalActiveBalance): source and target
unfoldable pub missed_vote_penalties : Spec → ℕ → ℕ → Option (ℕ × ℕ)
unfolding square_root
missed_vote_penalties spec effective_balance total_active_balance =
    let root = square_root total_active_balance in
    let base_reward =
      (effective_balance
        / spec.increment
        * (((spec.increment * spec.base_reward_factor) % 2 ^ 64) / root))
      % 2 ^ 64 in
    if spec.increment == 0 || root == 0 || spec.weight_denominator == 0
    then none
    else some (
      ((base_reward * spec.source_weight) % 2 ^ 64) / spec.weight_denominator,
      ((base_reward * spec.target_weight) % 2 ^ 64) / spec.weight_denominator,
    )

pub record IdealAttestationReward : Type 0 where
  pub effective_balance : ℕ
  pub head : ℤ
  pub target : ℤ
  pub source : ℤ

pub record VoteAmounts : Type 0 where
  pub timely : IdealAttestationReward
  pub missed_source : ℕ
  pub missed_target : ℕ

pub record FinalityCheckpoints : Type 0 where
  pub previous_justified : Checkpoint
  pub current_justified : Checkpoint
  pub finalized : Checkpoint

-- What a beacon node answers: the checkpoints, the effective balance of a validator and the total
-- active balance at a slot, and the ideal rewards of an epoch.
pub record VoteNode : Type 0 where
  pub finality_checkpoints_at : ℕ → Result FinalityCheckpoints
  pub effective_balance_at : ℕ → ℕ → Result ℕ
  pub total_active_balance : ℕ → Result ℕ
  pub ideal_attestation_rewards : ℕ → ℕ → Result (List IdealAttestationReward)

-- The slot in stateID: the last one of the next epoch.
abbrev pub processed_at : ℕ → ℕ → ℕ
processed_at slots_per_epoch epoch =
    ((((epoch + 2) % 2 ^ 64) * slots_per_epoch) % 2 ^ 64 + (2 ^ 64 - 1)) % 2 ^ 64

-- The loop over the ideal rewards.
unfoldable pub ideal_amounts : ℕ → ℕ → ℕ × ℕ → List IdealAttestationReward → Result VoteAmounts
ideal_amounts epoch balance missed [] = fail (
    plain (
      "epoch "
      <> decimal epoch
      <> " has no ideal reward for effective balance "
      <> decimal balance))
ideal_amounts epoch balance missed (reward ∷ rest) =
    let later = ideal_amounts epoch balance missed rest in
    if reward.effective_balance == balance
    then ok (record { timely = reward; missed_source = missed.0; missed_target = missed.1 })
    else later

-- The penalties, which may panic, and then the ideal reward.
unfoldable pub amounts_of :
    Spec → ℕ → ℕ × ℕ × List IdealAttestationReward → Option (Result VoteAmounts)
unfolding missed_vote_penalties ideal_amounts
amounts_of spec epoch (balance, total, ideal) = elim (missed_vote_penalties spec balance total) [
  | none ↦ none
  | some missed ↦ some (ideal_amounts epoch balance missed ideal)
]

-- What the node answers before the penalties are computed.
unfoldable pub vote_answers :
    VoteNode → Spec → ℕ → ℕ → ℕ → Result (ℕ × ℕ × List IdealAttestationReward)
vote_answers node spec slots_per_epoch index epoch =
    let state = processed_at slots_per_epoch epoch in
    node.finality_checkpoints_at state >>= λ checkpoints.
    (if ltb ((checkpoints.finalized.epoch + spec.min_epochs_to_inactivity_penalty) % 2 ^ 64) epoch
      then fail (
          plain (
            "the rewards of epoch "
            <> decimal epoch
            <> " are processed in an inactivity leak: the last finalized epoch is "
            <> decimal checkpoints.finalized.epoch))
      else (node.effective_balance_at state index >>= λ balance.
          (node.total_active_balance state >>= λ total.
          (node.ideal_attestation_rewards epoch index >>= λ ideal. ok (balance, total, ideal)))))

-- validator.VoteAmounts(epoch)
unfoldable pub vote_amounts : VoteNode → Spec → ℕ → ℕ → ℕ → Option (Result VoteAmounts)
unfolding vote_answers amounts_of
vote_amounts node spec slots_per_epoch index epoch =
    elim (vote_answers node spec slots_per_epoch index epoch) [
      | fail e ↦ some (fail e)
      | ok answers ↦ amounts_of spec epoch answers
    ]
