-- ===== src/Beacon/Balances.antt =====
-- What the blocks of an epoch do to a balance.
use qrl_tests.Prelude.Int.{ℤ, pos, negsuc}
use qrl_tests.Errors.{ok}
use qrl_tests.Beacon.Blocks.{
  Withdrawal, withdraw_each, reward_each, sum_changes, block_balance_changes, word_sub,
  SyncCommitteeReward, BlockNode, word_of, block_balance_change, word_add, BlockOperations,
  proposed, BlockRewards,
}
use qrl_tests.Prelude.{
  ℕ, zero, suc, ◌+◌, ◌*◌, ◌%◌, ◌^◌, ◌<◌, ◌≤◌, List, [], ◌∷◌, ◌≡◌, arith, sum_of, ◌==◌,
  if◌then◌else◌, Bool-cases, inl, inr, ap, ◌∙◌, sym, some, leb, false, true,
}

-- The changes of some slots, added without a wrap.
abbrev pub total_of : (ℕ → ℕ) → ℕ → ℕ → ℕ
total_of changes zero slot = 0
total_of changes (suc rounds) slot = changes slot + total_of changes rounds (slot + 1)

-- What a withdrawal takes of the validator's.
abbrev pub withdrawn_of : ℕ → Withdrawal → ℕ
withdrawn_of index withdrawal = if withdrawal.validator_index == index then withdrawal.amount else 0

-- What a reward adds, and what a negative one takes.
abbrev pub gained : ℤ → ℕ
gained (pos n) = n
gained (negsuc n) = 0

abbrev pub lost : ℤ → ℕ
lost (pos n) = 0
lost (negsuc n) = n + 1

abbrev pub gained_of : SyncCommitteeReward → ℕ
gained_of reward = gained reward.reward

abbrev pub lost_of : SyncCommitteeReward → ℕ
lost_of reward = lost reward.reward

word_of_lem : (z : ℤ) → (word_of z + lost z) % 2 ^ 64 ≡ gained z % 2 ^ 64
word_of_lem (pos n) = omega arith
word_of_lem (negsuc n) = omega arith

withdraw_each_lem :
    (index change : ℕ) (withdrawals : List Withdrawal)
    → (withdraw_each index change withdrawals + sum_of (withdrawn_of index) withdrawals) % 2 ^ 64
      ≡ change % 2 ^ 64
unfolding withdraw_each
withdraw_each_lem index change [] = omega arith
withdraw_each_lem index change (withdrawal ∷ rest) =
    let ih = withdraw_each_lem index change rest in
    let taken = withdraw_each_lem index (word_sub change withdrawal.amount) rest in
    elim (Bool-cases (withdrawal.validator_index == index)) [
      | inl own ↦ rw own (omega (arith, taken))
      | inr other ↦ rw other (omega (arith, ih))
    ]

reward_each_lem :
    (change : ℕ) (rewards : List SyncCommitteeReward)
    → (reward_each change rewards + sum_of lost_of rewards) % 2 ^ 64
      ≡ (change + sum_of gained_of rewards) % 2 ^ 64
unfolding reward_each
reward_each_lem change [] = omega arith
reward_each_lem change (reward ∷ rest) =
    let ih = reward_each_lem (word_add change (word_of reward.reward)) rest in
    omega (arith, ih, word_of_lem reward.reward)

-- The change, where it is known what proposing the block earned.
block_balance_change-proposed :
    (node : BlockNode) (index slot earned : ℕ) (operations : BlockOperations)
    (rewards : List SyncCommitteeReward)
    → node.block_operations slot ≡ ok operations
    → proposed node index slot operations ≡ ok earned
    → node.sync_committee_rewards slot index ≡ ok rewards
    → (change : ℕ) × (block_balance_change node index slot ≡ ok change)
      × ((change + sum_of (withdrawn_of index) operations.withdrawals + sum_of lost_of rewards)
            % 2 ^ 64
          ≡ (earned + sum_of gained_of rewards) % 2 ^ 64)
unfolding block_balance_change
block_balance_change-proposed node index slot earned operations rewards found paid answered =
    let kept = withdraw_each index earned operations.withdrawals in
    (
      reward_each kept rewards,
      ground (arith, found, paid, answered),
      omega (
        arith,
        reward_each_lem kept rewards,
        withdraw_each_lem index earned operations.withdrawals,
      ),
    )

-- What a block does to a balance, in 64 bits: with what the validator's withdrawals and its negative
-- sync committee rewards take, the change is the block's reward, if the validator proposed it, with
-- its other sync committee rewards.
pub block_balance_change_lem :
    (node : BlockNode) (index slot : ℕ) (operations : BlockOperations) (reward : BlockRewards)
    (rewards : List SyncCommitteeReward)
    → node.block_operations slot ≡ ok operations
    → (operations.proposer_index ≡ index → node.block_rewards slot ≡ ok reward)
    → node.sync_committee_rewards slot index ≡ ok rewards
    → (change : ℕ) × (block_balance_change node index slot ≡ ok change)
      × ((change + sum_of (withdrawn_of index) operations.withdrawals + sum_of lost_of rewards)
            % 2 ^ 64
          ≡ ((if operations.proposer_index == index then reward.total else 0)
              + sum_of gained_of rewards)
            % 2 ^ 64)
unfolding proposed
block_balance_change_lem node index slot operations reward rewards found paid answered =
    elim (Bool-cases (operations.proposer_index == index)) [
      | inl proposer ↦
          let pays : node.block_rewards slot ≡ ok reward = paid (ground (arith, proposer)) in
          let earned : (if operations.proposer_index == index then reward.total else 0)
              ≡ reward.total =
            ground (arith, proposer) in
          let got =
            block_balance_change-proposed node index slot (word_add 0 reward.total) operations
              rewards found (ground (arith, proposer, pays)) answered in
          (got.0, got.1, omega (arith, got.2, earned))
      | inr other ↦
          let earned : (if operations.proposer_index == index then reward.total else 0) ≡ 0 =
            ground (arith, other) in
          let got =
            block_balance_change-proposed node index slot 0 operations rewards found
              (ground (arith, other)) answered in
          (got.0, got.1, omega (arith, got.2, earned))
    ]

sum_changes-next :
    (node : BlockNode) (index last rounds slot change block_change : ℕ)
    → leb slot last ≡ true
    → block_balance_change node index slot ≡ ok block_change
    → sum_changes node index last (suc rounds) slot change
      ≡ sum_changes node index last rounds ((slot + 1) % 2 ^ 64) (word_add change block_change)
unfolding sum_changes
sum_changes-next node index last rounds slot change block_change under here =
    rw (under, here, sum_changes)

sum_changes_lem :
    (node : BlockNode) (index : ℕ) (changes : ℕ → ℕ) (last rounds slot change : ℕ)
    → change < 2 ^ 64
    → last + 1 < 2 ^ 64
    → slot + rounds ≡ last + 1
    → ((k : ℕ) → slot ≤ k → k ≤ last → block_balance_change node index k ≡ ok (changes k))
    → sum_changes node index last (suc rounds) slot change
      ≡ some (ok ((change + total_of changes rounds slot) % 2 ^ 64))
unfolding sum_changes
sum_changes_lem node index changes last zero slot change small in_range ends each =
    let e : (change + 0) % 2 ^ 64 ≡ change = omega arith in
    let over : leb slot last ≡ false = ground (arith, ends) in
    rw (over, sum_changes) (ap (λ (n : ℕ). some (ok n)) (sym e))
sum_changes_lem node index changes last (suc rounds) slot change small in_range ends each =
    let here = each slot (omega arith) (omega (arith, ends)) in
    let next = word_add change (changes slot) in
    let ih =
      sum_changes_lem node index changes last rounds (slot + 1) next (omega arith) in_range
        (omega (arith, ends)) (λ k from until. each k (omega (arith, from)) until) in
    let total : (next + total_of changes rounds (slot + 1)) % 2 ^ 64
        ≡ (change + (changes slot + total_of changes rounds (slot + 1))) % 2 ^ 64 =
      omega arith in
    let under : leb slot last ≡ true = ground (arith, ends) in
    let wraps : (slot + 1) % 2 ^ 64 ≡ slot + 1 = omega (arith, ends, in_range) in
    sum_changes-next node index last (suc rounds) slot change (changes slot) under here
    ∙ ap (λ (k : ℕ). sum_changes node index last (suc rounds) k next) wraps
    ∙ ih
    ∙ ap (λ (n : ℕ). some (ok n)) total

-- Where the change of each block of an epoch is known, from its second slot to the first slot of the
-- next epoch, and that slot is not the last of 64 bits, the changes of the epoch are their sum in 64
-- bits.
pub block_balance_changes_lem :
    (node : BlockNode) (slots_per_epoch index epoch : ℕ) (changes : ℕ → ℕ)
    → epoch * slots_per_epoch + slots_per_epoch + 1 < 2 ^ 64
    → ((k : ℕ)
        → epoch * slots_per_epoch < k
        → k ≤ epoch * slots_per_epoch + slots_per_epoch
        → block_balance_change node index k ≡ ok (changes k))
    → block_balance_changes node slots_per_epoch index epoch
      ≡ some (ok (total_of changes slots_per_epoch (epoch * slots_per_epoch + 1) % 2 ^ 64))
unfolding block_balance_changes
block_balance_changes_lem node slots_per_epoch index epoch changes in_range each =
    let start = epoch * slots_per_epoch in
    let summed =
      sum_changes_lem node index changes (start + slots_per_epoch) slots_per_epoch (start + 1) 0
        (omega arith) (omega (arith, in_range)) (omega arith)
        (λ k from until. each k (omega (arith, from)) until) in
    let total : (0 + total_of changes slots_per_epoch (start + 1)) % 2 ^ 64
        ≡ total_of changes slots_per_epoch (start + 1) % 2 ^ 64 =
      omega arith in
    let starts : start % 2 ^ 64 ≡ start = omega (arith, in_range) in
    let lasts : (start + slots_per_epoch) % 2 ^ 64 ≡ start + slots_per_epoch =
      omega (arith, in_range) in
    let firsts : (start + 1) % 2 ^ 64 ≡ start + 1 = omega (arith, in_range) in
    rw (starts, lasts, firsts) (summed ∙ ap (λ (n : ℕ). some (ok n)) total)
