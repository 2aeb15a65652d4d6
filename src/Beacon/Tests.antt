-- ===== src/Beacon/Tests.antt =====
-- A beacon node whose head is in epoch 6, and the theorems about its answers there.
use qrl_tests.Beacon.Balances.{
  total_of, block_balance_changes_lem, withdrawn_of, gained_of, lost_of, block_balance_change_lem,
}
use qrl_tests.Beacon.Blocks.{
  BlockOperations, BlockNode, SyncCommitteeReward, proposed, block_balance_change,
  block_balance_changes, withdraw_each, reward_each, BlockRewards,
}
use qrl_tests.Beacon.Roots.{IsEmptySlot, root_at_or_before_lem}
use qrl_tests.Beacon.Scanning.{Scanned, scan-Scanned}
use qrl_tests.Beacon.Types.{AttestationReward, epoch_of, BlockHeader, includes, bitlist_len}
use qrl_tests.Beacon.Rewards.{
  BeaconNode, scan, root_at_or_before, scan_from, rewards_available, attestation_reward,
}
use qrl_tests.Prelude.{
  ℕ, ◌+◌, ◌<◌, ◌≤◌, ◌^◌, Bool, true, false, List, [], ◌∷◌, ◌≡◌, refl, arith, ◌==◌, if◌then◌else◌,
  ◌%◌, ◌*◌, sum_of, Bool-cases, inl, subst, inr, some,
}
use qrl_tests.Prelude.Int.{pos, negsuc, ltb_ℤ}
use qrl_tests.Errors.{ok, fail, plain}

-- Qrysm's single profile: 32 slots in an epoch. The votes of epoch 3 are the first timely ones, and
-- slot 200 has no block.
abbrev node : BeaconNode
node = record {
  head_slot = ok 201;
  attestation_rewards = λ epoch index. ok (
      record {
        validator_index = index;
        head = pos 0;
        target = if epoch == 3 then pos 20 else negsuc 19;
        source = if epoch == 3 then pos 10 else negsuc 9;
      }
      ∷ []);
  block_header = λ slot.
      if slot == 200
      then fail (plain "404 not found")
      else ok (record { slot = slot; root = "0xabcd" });
  is_not_found = λ e. true;
}

abbrev attested : AttestationReward → Bool
attested reward = ltb_ℤ (pos 0) reward.source

at_head : node.head_slot ≡ ok 201
at_head = refl

found_at_three : scan node 32 attested 7 1 ≡ (3, ok true)
unfolding scan scan_from rewards_available attestation_reward epoch_of
found_at_three = refl

small_epoch : epoch_of 32 201 + 3 < 2 ^ 64
unfolding epoch_of
small_epoch = omega arith

scan-Scanned_example : Scanned node 32 attested 7 201 1 (scan node 32 attested 7 1)
scan-Scanned_example = scan-Scanned node 32 attested 7 201 1 at_head (omega arith) small_epoch

empty_slot : root_at_or_before node 200 ≡ ok "0xabcd"
unfolding root_at_or_before
empty_slot = refl

root_at_or_before_lem_example :
    (at : ℕ) × (at ≤ 200)
    × ((header : BlockHeader) × (node.block_header at ≡ ok header) × (header.root ≡ "0xabcd"))
    × ((k : ℕ) → at < k → k ≤ 200 → IsEmptySlot node k)
root_at_or_before_lem_example = root_at_or_before_lem node 200 "0xabcd" empty_slot

-- A committee of ten: members 0 and 9 voted, and the length bit is the eleventh.
abbrev votes : List ℕ
votes = 1 ∷ 6 ∷ []

voted : includes votes 9 ≡ true
unfolding includes bitlist_len
voted = refl

beyond : includes votes 10 ≡ false
unfolding includes bitlist_len
beyond = refl

-- The validator 7 proposes the block at slot 33, which withdraws 5 of its balance.
abbrev block_33 : BlockOperations
block_33 = record {
  slot = 33;
  proposer_index = 7;
  execution_block_number = 30;
  voluntary_exits = [];
  withdrawals =
      record { validator_index = 7; address = "Q01"; amount = 5 }
      ∷ record { validator_index = 8; address = "Q02"; amount = 9 }
      ∷ [];
  attestations = [];
  proposer_slashings = [];
  attester_slashings = [];
}

abbrev own_reward : BlockRewards
own_reward = record { total = 40; proposer_slashings = 0; attester_slashings = 0 }

-- Every other slot is empty.
abbrev block_node : BlockNode
block_node = record {
  block_operations = λ slot. if slot == 33 then ok block_33 else fail (plain "404 not found");
  block_rewards = λ slot. ok own_reward;
  sync_committee_rewards =
      λ slot index. ok (record { validator_index = index; reward = negsuc 1 } ∷ []);
  is_not_found = λ e. true;
}

abbrev sync_rewards : List SyncCommitteeReward
sync_rewards = record { validator_index = 7; reward = negsuc 1 } ∷ []

proposed_33 : proposed block_node 7 33 block_33 ≡ ok 40
unfolding proposed
proposed_33 = refl

change_33 : block_balance_change block_node 7 33 ≡ ok 33
unfolding block_balance_change proposed withdraw_each reward_each
change_33 = refl

block_balance_change_lem_example :
    (change : ℕ) × (block_balance_change block_node 7 33 ≡ ok change)
    × ((change + sum_of (withdrawn_of 7) block_33.withdrawals + sum_of lost_of sync_rewards)
          % 2 ^ 64
        ≡ ((if block_33.proposer_index == 7 then 40 else 0) + sum_of gained_of sync_rewards)
          % 2 ^ 64)
block_balance_change_lem_example =
    block_balance_change_lem block_node 7 33 block_33 own_reward sync_rewards refl (λ own. refl)
      refl

abbrev changes : ℕ → ℕ
changes slot = if slot == 33 then 33 else 0

each_change :
    (k : ℕ) → 1 * 32 < k → k ≤ 1 * 32 + 32 → block_balance_change block_node 7 k ≡ ok (changes k)
unfolding block_balance_change
each_change k after until = elim (Bool-cases (k == 33)) [
  | inl here ↦
      let e : 33 ≡ k = ground (arith, here) in
      subst (λ n. block_balance_change block_node 7 n ≡ ok (changes n)) e change_33
  | inr other ↦ ground (arith, other)
]

block_balance_changes_lem_example :
    block_balance_changes block_node 32 7 1 ≡ some (ok (total_of changes 32 (1 * 32 + 1) % 2 ^ 64))
block_balance_changes_lem_example =
    block_balance_changes_lem block_node 32 7 1 changes (omega arith) each_change
