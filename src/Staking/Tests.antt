-- ===== src/Staking/Tests.antt =====
-- Two polls of a chain, of which the first fails before the head, and the theorem about them there.
use qrl_tests.Prelude.{
  ℕ, Bool, true, false, Option, none, some, [], ◌∷◌, ◌≡◌, refl, ◌==◌, if◌then◌else◌, arith,
}
use qrl_tests.Errors.{ok, plain}
use qrl_tests.Beacon.Blocks.{BlockOperations}
use qrl_tests.Staking.{
  OperationsAnswer, OperationsNode, OperationScanner, scan_operations, scan_each, scan_slots, Walk,
  returned,
}
use qrl_tests.Staking.Visits.{Agrees, IsOfChain, Returns, scan_each-HasVisited}

abbrev block_at : ℕ → BlockOperations
block_at slot = record {
  slot = slot;
  proposer_index = 1;
  execution_block_number = slot;
  voluntary_exits = [];
  withdrawals = [];
  attestations = [];
  proposer_slashings = [];
  attester_slashings = [];
}

-- A block at every slot but 6.
abbrev chain : ℕ → Option BlockOperations
chain slot = if slot == 6 then none else some (block_at slot)

abbrev answer_of : Bool → Option BlockOperations → OperationsAnswer
answer_of true block = OperationsAnswer.failed (plain "no answer")
answer_of false none = OperationsAnswer.no_block
answer_of false (some operations) = OperationsAnswer.found operations

abbrev first_poll : OperationsNode
first_poll = record {
  head_slot = ok 8;
  block_operations = λ slot. answer_of (slot == 7) (chain slot);
}

abbrev second_poll : OperationsNode
second_poll = record { head_slot = ok 8; block_operations = λ slot. answer_of false (chain slot) }

answer_of-Agrees :
    (fails : Bool) (block : Option BlockOperations) → Agrees block (answer_of fails block)
answer_of-Agrees true block = tt
answer_of-Agrees false none = refl
answer_of-Agrees false (some operations) = refl

abbrev begun : OperationScanner
begun = record { last_slot = 4; last_block = 4 }

polled :
    scan_each (first_poll ∷ []) (begun, [])
    ≡ some (record { last_slot = 6; last_block = 5 }, block_at 5 ∷ [])
unfolding scan_each scan_operations scan_slots
polled = refl

polled_again :
    scan_operations second_poll (record { last_slot = 6; last_block = 5 }, block_at 5 ∷ []) ≡ (
      (record { last_slot = 8; last_block = 8 }, block_at 5 ∷ block_at 7 ∷ block_at 8 ∷ []),
      returned none,
    )
unfolding scan_operations scan_slots
polled_again = refl

below_end :
    (fails : ℕ → Bool)
    → IsOfChain chain (record {
      head_slot = ok 8;
      block_operations = λ slot. answer_of (fails slot) (chain slot);
    })
below_end fails head e =
    let at : 8 ≡ head = cc e in
    (omega (arith, at), λ slot h. answer_of-Agrees (fails slot) (chain slot))

scan_each-HasVisited_example :
    (done : Walk) × (scan_each (first_poll ∷ []) (begun, []) ≡ some done)
    × Returns chain begun second_poll (scan_operations second_poll done)
scan_each-HasVisited_example =
    scan_each-HasVisited chain begun (first_poll ∷ []) second_poll (omega arith)
      (below_end (λ slot. slot == 7), tt) (below_end (λ slot. false))
