-- ===== src/Staking.antt =====
-- e2e/internal/staking/staking.go: the scanner that walks the blocks of a chain between polls.
pub mod Visits
mod Tests
use qrl_tests.Prelude.Int.{ltb_ℤ, pos}
use qrl_tests.Beacon.Types.{AttestationReward}
use qrl_tests.Prelude.{
  ℕ, zero, suc, ◌+◌, Option, none, some, List, [], ◌∷◌, ◌++◌, Bool, true, false, leb, if◌then◌else◌,
  ◌||◌, ◌%◌, ◌==◌, any, ◌^◌,
}
use qrl_tests.Errors.{Fault, Result, ok, fail}
use qrl_tests.Beacon.Blocks.{BlockOperations, Withdrawal}

-- What a beacon node answers for the operations of the block at a slot.
pub data OperationsAnswer : Type 0 where
  found : BlockOperations → OperationsAnswer
  no_block : OperationsAnswer
  failed : Fault → OperationsAnswer

-- What a node answers during one scan.
pub record OperationsNode : Type 0 where
  pub head_slot : Result ℕ
  pub block_operations : ℕ → OperationsAnswer

pub record OperationScanner : Type 0 where
  pub last_slot : ℕ
  pub last_block : ℕ

-- The scanner, and what it has visited in its life.
abbrev pub Walk : Type 0
Walk = OperationScanner × List BlockOperations

-- How a scan ends; `running` where it has not after as many rounds.
pub data ScanEnd : Type 0 where
  returned : Option Fault → ScanEnd
  running : ScanEnd

-- slot, which is always the one after the last slot, in 64 bits
abbrev pub next_slot : Walk → ℕ
next_slot (scanner, visited) = (scanner.last_slot + 1) % 2 ^ 64

abbrev pub passed_over : Walk → Walk
passed_over (scanner, visited) =
    (record scanner { last_slot = next_slot (scanner, visited) }, visited)

abbrev pub visit : BlockOperations → Walk → Walk
visit operations (scanner, visited) = (
  record {
    last_slot = next_slot (scanner, visited);
    last_block = operations.execution_block_number;
  },
  visited ++ operations ∷ [],
)

-- The loop of scan, up to the head.
unfoldable pub scan_slots : OperationsNode → ℕ → ℕ → Walk → Walk × ScanEnd
scan_slots node head zero walk = (walk, running)
scan_slots node head (suc rounds) walk = elim (leb (next_slot walk) head) [
  | false ↦ (walk, returned none)
  | true ↦ elim (node.block_operations (next_slot walk)) [
    | no_block ↦ scan_slots node head rounds (passed_over walk)
    | failed e ↦ (walk, returned (some e))
    | found operations ↦ scan_slots node head rounds (visit operations walk)
  ]
]

-- scanner.scan, of which the loop has a round for each slot up to the head and one for its end.
unfoldable pub scan_operations : OperationsNode → Walk → Walk × ScanEnd
unfolding scan_slots
scan_operations node walk = elim node.head_slot [
  | fail e ↦ (walk, returned (some e))
  | ok head ↦ scan_slots node head (head + 2) walk
]

-- The polls of a caller that scans again whatever a scan returned, as long as it returns.
unfoldable pub scan_each : List OperationsNode → Walk → Option Walk
unfolding scan_operations
scan_each [] walk = some walk
scan_each (node ∷ rest) walk =
    let scanned = scan_operations node walk in
    elim scanned.1 [ running ↦ none | returned err ↦ scan_each rest scanned.0 ]

-- earnedAny
unfoldable pub earned_any : AttestationReward → Bool
earned_any reward =
    ltb_ℤ (pos 0) reward.head || ltb_ℤ (pos 0) reward.target || ltb_ℤ (pos 0) reward.source

-- The withdrawals of one validator.
unfoldable pub withdrawals_for : ℕ → List Withdrawal → List Withdrawal
withdrawals_for index [] = []
withdrawals_for index (withdrawal ∷ rest) =
    let later = withdrawals_for index rest in
    if withdrawal.validator_index == index then withdrawal ∷ later else later

-- What the visits of ExpectExitAndWithdrawal gather of a validator: whether its exit is included,
-- and its withdrawals.
unfoldable pub gather_exit : ℕ → BlockOperations → Bool × List Withdrawal → Bool × List Withdrawal
gather_exit index operations (exit_included, withdrawals) = (
  exit_included || any (λ exit. exit == index) operations.voluntary_exits,
  withdrawals ++ withdrawals_for index operations.withdrawals,
)

unfoldable pub gather_exits :
    ℕ → List BlockOperations → Bool × List Withdrawal → Bool × List Withdrawal
unfolding gather_exit
gather_exits index [] gathered = gathered
gather_exits index (operations ∷ rest) gathered =
    gather_exits index rest (gather_exit index operations gathered)

-- withdrawnShor, a sum of 64 bits
unfoldable pub withdrawn_shor : ℕ → List Withdrawal → ℕ
withdrawn_shor withdrawn [] = withdrawn
withdrawn_shor withdrawn (withdrawal ∷ rest) =
    withdrawn_shor ((withdrawn + withdrawal.amount) % 2 ^ 64) rest
