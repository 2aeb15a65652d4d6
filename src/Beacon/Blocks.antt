-- ===== src/Beacon/Blocks.antt =====
-- The blocks of e2e/internal/beacon/types.go, and what they do to a validator's balance in
-- e2e/internal/rewards/validator.go. A change of a balance is an int64, here as the number below
-- 2 ^ 64 that has its bits.
use qrl_tests.Prelude.{
  ℕ, zero, suc, ◌+◌, ◌-◌, ◌*◌, ◌%◌, ◌^◌, String, Bool, true, false, Option, none, some, List, [],
  ◌∷◌, leb, ◌==◌, if◌then◌else◌,
}
use qrl_tests.Prelude.Int.{ℤ, pos, negsuc}
use qrl_tests.Errors.{Fault, Result, ok, fail, ◌>>=◌}

pub record Checkpoint : Type 0 where
  pub epoch : ℕ
  pub root : String

pub record Withdrawal : Type 0 where
  pub validator_index : ℕ
  pub address : String
  pub amount : ℕ

pub record AttestationData : Type 0 where
  pub slot : ℕ
  pub committee_index : ℕ
  pub beacon_block_root : String
  pub source : Checkpoint
  pub target : Checkpoint

pub record Attestation : Type 0 where
  pub aggregation_bits : List ℕ
  pub attestation_data : AttestationData

pub record IndexedAttestation : Type 0 where
  pub attesting_indices : List ℕ
  pub attestation_data : AttestationData

pub record AttesterSlashing : Type 0 where
  pub attestation1 : IndexedAttestation
  pub attestation2 : IndexedAttestation

pub record BeaconBlockHeaderMessage : Type 0 where
  pub slot : ℕ
  pub proposer_index : ℕ
  pub parent_root : String
  pub state_root : String
  pub body_root : String

pub record ProposerSlashing : Type 0 where
  pub header1 : BeaconBlockHeaderMessage
  pub header2 : BeaconBlockHeaderMessage

pub record BlockOperations : Type 0 where
  pub slot : ℕ
  pub proposer_index : ℕ
  pub execution_block_number : ℕ
  pub voluntary_exits : List ℕ
  pub withdrawals : List Withdrawal
  pub attestations : List Attestation
  pub proposer_slashings : List ProposerSlashing
  pub attester_slashings : List AttesterSlashing

pub record SyncCommitteeReward : Type 0 where
  pub validator_index : ℕ
  pub reward : ℤ

pub record BlockRewards : Type 0 where
  pub total : ℕ
  pub proposer_slashings : ℕ
  pub attester_slashings : ℕ

-- What a beacon node answers about the block at a slot.
pub record BlockNode : Type 0 where
  pub block_operations : ℕ → Result BlockOperations
  pub block_rewards : ℕ → Result BlockRewards
  pub sync_committee_rewards : ℕ → ℕ → Result (List SyncCommitteeReward)
  pub is_not_found : Fault → Bool

-- The bits of an int64.
abbrev pub word_of : ℤ → ℕ
word_of (pos n) = n % 2 ^ 64
word_of (negsuc n) = 2 ^ 64 - 1 - n % 2 ^ 64

-- change += x and change -= x, which wrap
abbrev pub word_add : ℕ → ℕ → ℕ
word_add change x = (change + x) % 2 ^ 64

abbrev pub word_sub : ℕ → ℕ → ℕ
word_sub change x = (change + (2 ^ 64 - x % 2 ^ 64)) % 2 ^ 64

-- The loop over the block's withdrawals.
unfoldable pub withdraw_each : ℕ → ℕ → List Withdrawal → ℕ
withdraw_each index change [] = change
withdraw_each index change (withdrawal ∷ rest) =
    withdraw_each index
      (if withdrawal.validator_index == index then word_sub change withdrawal.amount else change)
      rest

-- The loop over the validator's sync committee rewards.
unfoldable pub reward_each : ℕ → List SyncCommitteeReward → ℕ
reward_each change [] = change
reward_each change (reward ∷ rest) = reward_each (word_add change (word_of reward.reward)) rest

-- What proposing the block earned.
unfoldable pub proposed : BlockNode → ℕ → ℕ → BlockOperations → Result ℕ
proposed node index slot operations =
    if operations.proposer_index == index
    then (node.block_rewards slot >>= λ rewards. ok (word_add 0 rewards.total))
    else ok 0

-- validator.BlockBalanceChange(slot)
unfoldable pub block_balance_change : BlockNode → ℕ → ℕ → Result ℕ
unfolding proposed withdraw_each reward_each
block_balance_change node index slot = elim (node.block_operations slot) [
  | fail e ↦ if node.is_not_found e then ok 0 else fail e
  | ok operations ↦ proposed node index slot operations >>= λ earned.
      (node.sync_committee_rewards slot index >>= λ rewards.
      ok (reward_each (withdraw_each index earned operations.withdrawals) rewards))
]

-- The loop over the slots up to `last`, where the slot wraps; none where it has not ended after as
-- many rounds.
unfoldable pub sum_changes : BlockNode → ℕ → ℕ → ℕ → ℕ → ℕ → Option (Result ℕ)
unfolding block_balance_change
sum_changes node index last zero slot change = none
sum_changes node index last (suc rounds) slot change = elim (leb slot last) [
  | false ↦ some (ok change)
  | true ↦ elim (block_balance_change node index slot) [
    | fail e ↦ some (fail e)
    | ok block_change ↦
        sum_changes node index last rounds ((slot + 1) % 2 ^ 64) (word_add change block_change)
  ]
]

-- validator.BlockBalanceChanges(epoch), of which the loop has a round for each slot of an epoch and
-- one for its end.
unfoldable pub block_balance_changes : BlockNode → ℕ → ℕ → ℕ → Option (Result ℕ)
unfolding sum_changes
block_balance_changes node slots_per_epoch index epoch =
    let start = (epoch * slots_per_epoch) % 2 ^ 64 in
    sum_changes node index ((start + slots_per_epoch) % 2 ^ 64) (suc slots_per_epoch)
      ((start + 1) % 2 ^ 64) 0
