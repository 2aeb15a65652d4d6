-- ===== src/Beacon/VoteTests.antt =====
-- The votes of one validator in the second epoch of a chain with 16 slots in an epoch.
use qrl_tests.Prelude.{
  ℕ, true, false, none, some, List, [], ◌∷◌, ◌≡◌, refl, ◌==◌, if◌then◌else◌, ◌↔◌, ◌≤◌, ◌*◌, arith,
}
use text.Mathlib.Text.{◌==◌ as str_eq}
use qrl_tests.Prelude.Int.{pos}
use qrl_tests.Prelude.Text.{lower_text, decimal}
use qrl_tests.Errors.{Result, ok, fail, plain}
use qrl_tests.Beacon.Types.{Committee, includes, bitlist_len}
use qrl_tests.Beacon.Blocks.{Attestation, BlockNode, BlockOperations}
use qrl_tests.Beacon.Rewards.{BeaconNode, duty, position_in, root_at_or_before}
use qrl_tests.Beacon.Votes.{
  Spec, load_spec, missed_vote_penalties, square_root, root_bits, VoteNode, VoteAmounts,
  vote_amounts, vote_answers, amounts_of, ideal_amounts, IdealAttestationReward,
}
use qrl_tests.Beacon.TimelyVotes.{
  TimelyVotes, find_duty, timely_votes, read_votes, count_votes, covers, equal_fold,
}
use qrl_tests.Beacon.Inclusion.{timely_votes-source, IsVotedAt}
use qrl_tests.Beacon.Duties.{HasDuty}

abbrev spec : Spec
spec = record {
  increment = 1000000000;
  base_reward_factor = 64;
  source_weight = 14;
  target_weight = 26;
  weight_denominator = 64;
  min_epochs_to_inactivity_penalty = 4;
  min_inclusion_delay = 1;
}

penalties_run : missed_vote_penalties spec 40000000000 64000000000000000 ≡ some (2205, 4095)
unfolding missed_vote_penalties square_root root_bits
penalties_run = refl

no_balance_run : missed_vote_penalties spec 40000000000 0 ≡ none
unfolding missed_vote_penalties square_root root_bits
no_balance_run = refl

-- The validator 7 is the second member of the committee 2 at slot 20, whose block has the root 0xAA.
abbrev committee : Committee
committee = record { index = 2; slot = 20; validators = 5 ∷ 7 ∷ [] }

abbrev node : BeaconNode
node = record {
  head_slot = ok 40;
  attestation_rewards = λ epoch index. ok [];
  block_header = λ slot. ok (record { slot = slot; root = if slot == 20 then "0xaa" else "0xbb" });
  is_not_found = λ e. true;
}

abbrev attestation : Attestation
attestation = record {
  aggregation_bits = 6 ∷ [];
  attestation_data = record {
    slot = 20;
    committee_index = 2;
    beacon_block_root = "0xAA";
    source = record { epoch = 0; root = "0xcc" };
    target = record { epoch = 1; root = "0xBB" };
  };
}

-- The block at a slot includes it, unless the slot is the first one after the duty's.
abbrev operations_at : ℕ → Result BlockOperations
operations_at slot =
    if slot == 21
    then fail (plain "404 not found")
    else ok (record {
      slot = slot;
      proposer_index = 3;
      execution_block_number = 18;
      voluntary_exits = [];
      withdrawals = [];
      attestations = attestation ∷ [];
      proposer_slashings = [];
      attester_slashings = [];
    })

abbrev blocks : BlockNode
blocks = record {
  block_operations = operations_at;
  block_rewards = λ slot. fail (plain "404 not found");
  sync_committee_rewards = λ slot index. ok [];
  is_not_found = λ e. true;
}

abbrev committees_of : ℕ → ℕ → Result (List Committee)
committees_of start epoch = ok (committee ∷ [])

committees_run : committees_of 16 1 ≡ ok (committee ∷ [])
committees_run = refl

abbrev source_only : TimelyVotes
source_only = record { source = true; head = false }

votes_run : timely_votes node blocks committees_of spec 16 7 1 ≡ ok source_only
unfolding timely_votes find_duty duty position_in root_at_or_before square_root root_bits read_votes
    count_votes covers includes bitlist_len equal_fold lower_text
votes_run = refl

found_duty : duty 7 (committee ∷ []) ≡ some (20, 2, 1)
unfolding duty position_in
found_duty = refl

timely_votes-source_example :
    HasDuty 7 20 2 1 (committee ∷ [])
    × ((true ≡ true)
        ↔ ((delay : ℕ) × (1 ≤ delay) × (delay * delay ≤ 16) × IsVotedAt blocks 20 2 1 delay))
timely_votes-source_example =
    timely_votes-source node blocks committees_of spec 16 7 1 20 2 1 (committee ∷ []) source_only
      (omega arith) committees_run found_duty votes_run

abbrev ideal : IdealAttestationReward
ideal = record { effective_balance = 40000000000; head = pos 3; target = pos 5; source = pos 2 }

-- The epoch that is asked for, finalized up to epoch 3.
abbrev vote_node : VoteNode
vote_node = record {
  finality_checkpoints_at = λ slot. ok (record {
    previous_justified = record { epoch = 3; root = "0xcc" };
    current_justified = record { epoch = 4; root = "0xcc" };
    finalized = record { epoch = 3; root = "0xcc" };
  });
  effective_balance_at = λ slot index. ok 40000000000;
  total_active_balance = λ slot. ok 64000000000000000;
  ideal_attestation_rewards = λ epoch index. ok (ideal ∷ []);
}

abbrev amounts : VoteAmounts
amounts = record { timely = ideal; missed_source = 2205; missed_target = 4095 }

amounts_run : vote_amounts vote_node spec 16 7 7 ≡ some (ok amounts)
unfolding vote_amounts vote_answers amounts_of ideal_amounts missed_vote_penalties square_root
    root_bits
amounts_run = refl

leak_run :
    vote_amounts vote_node spec 16 7 8
    ≡ some (
        fail (
          plain
            "the rewards of epoch 8 are processed in an inactivity leak: the last finalized epoch is 3"))
unfolding vote_amounts vote_answers decimal
leak_run = refl

no_delay_run :
    load_spec (
      ok (λ name.
        if str_eq name "MIN_ATTESTATION_INCLUSION_DELAY" then fail (plain "no delay") else ok 1))
    ≡ fail (plain "no delay")
unfolding load_spec
no_delay_run = refl
