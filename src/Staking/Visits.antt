-- ===== src/Staking/Visits.antt =====
-- Which blocks a scanner visits.
use qrl_tests.Prelude.{
  ℕ, zero, suc, ◌+◌, ◌-◌, ◌≤◌, Option, none, some, List, [], ◌∷◌, ◌++◌, ◌≡◌, refl, arith, All, ap,
  ◌∙◌, sym, inl, inr, ◌⊎◌, append-nil, subst, ◌<◌, leb, false, true, Bool-cases, ◌^◌,
}
use qrl_tests.Errors.{Fault, ok, fail, Result-cases}
use qrl_tests.Beacon.Blocks.{BlockOperations}
use qrl_tests.Staking.{
  OperationsAnswer, OperationsNode, OperationScanner, Walk, passed_over, visit, scan_slots,
  scan_operations, scan_each, next_slot, ScanEnd, returned,
}

-- An answer is no error of the chain: it fails, or it tells the block of the slot.
abbrev pub Agrees : Option BlockOperations → OperationsAnswer → Type 0
Agrees block (OperationsAnswer.failed e) = Unit
Agrees block OperationsAnswer.no_block = block ≡ none
Agrees block (OperationsAnswer.found operations) = block ≡ some operations

-- The node's head is below the last slot of 64 bits, and every answer for a slot up to its head
-- agrees with the chain.
abbrev pub IsOfChain : (ℕ → Option BlockOperations) → OperationsNode → Type 0
IsOfChain chain node =
    (head : ℕ)
    → node.head_slot ≡ ok head
    → (head + 1 < 2 ^ 64)
      × ((slot : ℕ) → slot ≤ head → Agrees (chain slot) (node.block_operations slot))

abbrev pub at_slot : Option BlockOperations → List BlockOperations
at_slot none = []
at_slot (some operations) = operations ∷ []

-- The blocks of the `count` slots after `start`, in their order.
abbrev pub blocks_after : (ℕ → Option BlockOperations) → ℕ → ℕ → List BlockOperations
blocks_after chain start zero = []
blocks_after chain start (suc count) =
    blocks_after chain start count ++ at_slot (chain (start + suc count))

-- The execution block of the last one, and `before` if there is none.
abbrev pub last_number : ℕ → List BlockOperations → ℕ
last_number before [] = before
last_number before (operations ∷ rest) = last_number operations.execution_block_number rest

-- The scanner has visited each block of the slots that it has passed, once, and in order, and is
-- below the last slot of 64 bits.
abbrev pub HasVisited : (ℕ → Option BlockOperations) → OperationScanner → Walk → Type 0
HasVisited chain begun (scanner, visited) =
    (count : ℕ) × (scanner.last_slot ≡ begun.last_slot + count)
    × (visited ≡ blocks_after chain begun.last_slot count)
    × (scanner.last_block ≡ last_number begun.last_block visited)
    × (scanner.last_slot + 1 < 2 ^ 64)

answer-cases :
    (answer : OperationsAnswer)
    → (answer ≡ OperationsAnswer.no_block)
      ⊎ (((e : Fault) × (answer ≡ OperationsAnswer.failed e))
          ⊎ ((operations : BlockOperations) × (answer ≡ OperationsAnswer.found operations)))
answer-cases OperationsAnswer.no_block = inl refl
answer-cases (OperationsAnswer.failed e) = inr (inl (e, refl))
answer-cases (OperationsAnswer.found operations) = inr (inr (operations, refl))

-- The steps of the loop, by what the node answers.
module _ (node : OperationsNode) (head rounds : ℕ) (walk : Walk) where
  scan_slots-over :
      leb (next_slot walk) head ≡ false
      → scan_slots node head (suc rounds) walk ≡ (walk, returned none)
  unfolding scan_slots
  scan_slots-over over = rw (over, scan_slots)

  scan_slots-passed_over :
      leb (next_slot walk) head ≡ true
      → node.block_operations (next_slot walk) ≡ OperationsAnswer.no_block
      → scan_slots node head (suc rounds) walk ≡ scan_slots node head rounds (passed_over walk)
  unfolding scan_slots
  scan_slots-passed_over under e = rw (under, e, scan_slots)

  scan_slots-failed :
      (fault : Fault)
      → leb (next_slot walk) head ≡ true
      → node.block_operations (next_slot walk) ≡ OperationsAnswer.failed fault
      → scan_slots node head (suc rounds) walk ≡ (walk, returned (some fault))
  unfolding scan_slots
  scan_slots-failed fault under e = rw (under, e, scan_slots)

  scan_slots-visit :
      (operations : BlockOperations)
      → leb (next_slot walk) head ≡ true
      → node.block_operations (next_slot walk) ≡ OperationsAnswer.found operations
      → scan_slots node head (suc rounds) walk ≡ scan_slots node head rounds (visit operations walk)
  unfolding scan_slots
  scan_slots-visit operations under e = rw (under, e, scan_slots)

last_number-snoc :
    (before : ℕ) (visited : List BlockOperations) (operations : BlockOperations)
    → last_number before (visited ++ operations ∷ []) ≡ operations.execution_block_number
last_number-snoc before [] operations = refl
last_number-snoc before (first ∷ rest) operations =
    last_number-snoc first.execution_block_number rest operations

-- What a scan up to a head ends with: it has failed, or it has passed the head.
abbrev Ends : ℕ → Walk × ScanEnd → Type 0
Ends head (walk, end) =
    ((e : Fault) × (end ≡ returned (some e))) ⊎ ((end ≡ returned none) × (head ≤ walk.0.last_slot))

scan_operations-failed :
    (node : OperationsNode) (walk : Walk) (fault : Fault)
    → node.head_slot ≡ fail fault
    → scan_operations node walk ≡ (walk, returned (some fault))
unfolding scan_operations
scan_operations-failed node walk fault e = rw (e, scan_operations)

scan_operations-ok :
    (node : OperationsNode) (walk : Walk) (head : ℕ)
    → node.head_slot ≡ ok head
    → scan_operations node walk ≡ scan_slots node head (head + 2) walk
unfolding scan_operations
scan_operations-ok node walk head e = rw (e, scan_operations)

scan_each-returned :
    (node : OperationsNode) (rest : List OperationsNode) (walk : Walk) (err : Option Fault)
    → (scan_operations node walk).1 ≡ returned err
    → scan_each (node ∷ rest) walk ≡ scan_each rest (scan_operations node walk).0
unfolding scan_each
scan_each-returned node rest walk err e = rw (e, scan_each)

module _ (chain : ℕ → Option BlockOperations) (begun : OperationScanner) where
  passed_over-HasVisited :
      (walk : Walk)
      → chain (next_slot walk) ≡ none
      → next_slot walk + 1 < 2 ^ 64
      → HasVisited chain begun walk
      → HasVisited chain begun (passed_over walk)
  passed_over-HasVisited (scanner, visited) empty below (count, at, seen, number, low) =
      let here : chain (begun.last_slot + suc count) ≡ none =
        ap chain (omega (arith, at, low)) ∙ empty in
      (
        suc count,
        omega (arith, at, low),
        seen
            ∙ sym (append-nil _)
            ∙ ap (λ b. blocks_after chain begun.last_slot count ++ at_slot b) (sym here),
        number,
        below,
      )

  visit-HasVisited :
      (walk : Walk) (operations : BlockOperations)
      → chain (next_slot walk) ≡ some operations
      → next_slot walk + 1 < 2 ^ 64
      → HasVisited chain begun walk
      → HasVisited chain begun (visit operations walk)
  visit-HasVisited (scanner, visited) operations there below (count, at, seen, number, low) =
      let here : chain (begun.last_slot + suc count) ≡ some operations =
        ap chain (omega (arith, at, low)) ∙ there in
      (
        suc count,
        omega (arith, at, low),
        ap (λ v. v ++ operations ∷ []) seen
            ∙ ap (λ b. blocks_after chain begun.last_slot count ++ at_slot b) (sym here),
        sym (last_number-snoc begun.last_block visited operations),
        below,
      )

  -- What is shown of a scan up to a head.
  abbrev Scans : ℕ → Walk × ScanEnd → Type 0
  Scans head r = HasVisited chain begun r.0 × Ends head r

  scan_slots-HasVisited :
      (node : OperationsNode) (head rounds : ℕ) (walk : Walk)
      → IsOfChain chain node
      → node.head_slot ≡ ok head
      → head - walk.0.last_slot < rounds
      → HasVisited chain begun walk
      → Scans head (scan_slots node head rounds walk)
  scan_slots-HasVisited node head zero walk of_chain e enough seen = absurd (omega (arith, enough))
  scan_slots-HasVisited node head (suc rounds) walk of_chain e enough seen =
      let (below_end, agree) = of_chain head e in
      let low = seen.4 in
      let next : next_slot walk ≡ walk.0.last_slot + 1 = omega (arith, low) in
      elim (Bool-cases (leb (next_slot walk) head)) [
        | inr over ↦
            let past : head ≤ walk.0.last_slot = ground (arith, over, next) in
            subst (Scans head) (sym (scan_slots-over node head rounds walk over))
              (seen, inr (refl, past))
        | inl under ↦
            let in_range : next_slot walk ≤ head = ground (arith, under) in
            let below : next_slot walk + 1 < 2 ^ 64 = omega (arith, in_range, below_end) in
            let fewer : head - next_slot walk < rounds = omega (arith, enough, next, in_range) in
            let answers = Agrees (chain (next_slot walk)) in
            let agrees = agree (next_slot walk) in_range in
            elim (answer-cases (node.block_operations (next_slot walk))) [
              | inl none_there ↦
                  subst (Scans head)
                    (sym (scan_slots-passed_over node head rounds walk under none_there))
                    (scan_slots-HasVisited node head rounds (passed_over walk) of_chain e fewer
                      (passed_over-HasVisited walk (subst answers none_there agrees) below seen))
              | inr (inl (fault, is_failed)) ↦
                  subst (Scans head)
                    (sym (scan_slots-failed node head rounds walk fault under is_failed))
                    (seen, inl (fault, refl))
              | inr (inr (operations, is_found)) ↦
                  subst (Scans head)
                    (sym (scan_slots-visit node head rounds walk operations under is_found))
                    (scan_slots-HasVisited node head rounds (visit operations walk) of_chain e fewer
                      (visit-HasVisited walk operations (subst answers is_found agrees) below seen))
            ]
      ]

  -- What is shown of a scan: it returns, having failed or passed the node's head.
  abbrev pub Returns : OperationsNode → Walk × ScanEnd → Type 0
  Returns node r =
      HasVisited chain begun r.0
      × (((e : Fault) × (r.1 ≡ returned (some e)))
          ⊎ ((r.1 ≡ returned none)
              × ((head : ℕ) × (node.head_slot ≡ ok head) × (head ≤ r.0.0.last_slot))))

  scan_operations-Returns :
      (node : OperationsNode) (walk : Walk)
      → IsOfChain chain node
      → HasVisited chain begun walk
      → Returns node (scan_operations node walk)
  scan_operations-Returns node walk of_chain seen = elim (Result-cases node.head_slot) [
    | inr (fault, e) ↦
        subst (Returns node) (sym (scan_operations-failed node walk fault e))
          (seen, inl (fault, refl))
    | inl (head, e) ↦
        let ran = scan_slots-HasVisited node head (head + 2) walk of_chain e (omega arith) seen in
        subst (Returns node) (sym (scan_operations-ok node walk head e))
          (ran.0, at_head head e (scan_slots node head (head + 2) walk) ran.1)
  ]
    where
      at_head :
          (head : ℕ)
          → node.head_slot ≡ ok head
          → (r : Walk × ScanEnd) → Ends head r
          → ((e : Fault) × (r.1 ≡ returned (some e)))
            ⊎ ((r.1 ≡ returned none)
                × ((head : ℕ) × (node.head_slot ≡ ok head) × (head ≤ r.0.0.last_slot)))
      at_head head e r (inl failure) = inl failure
      at_head head e r (inr (done, reached)) = inr (done, (head, e, reached))

  scan_each-keeps :
      (nodes : List OperationsNode) (walk : Walk)
      → All (IsOfChain chain) nodes
      → HasVisited chain begun walk
      → (polled : Walk) × (scan_each nodes walk ≡ some polled) × HasVisited chain begun polled
  unfolding scan_each
  scan_each-keeps [] walk of_chain seen = (walk, refl, seen)
  scan_each-keeps (node ∷ rest) walk of_chain seen =
      let ran = scan_operations-Returns node walk of_chain.0 seen in
      let later = scan_each-keeps rest (scan_operations node walk).0 of_chain.1 ran.0 in
      elim ran.1 [
        | inl (fault, h) ↦
            (later.0, scan_each-returned node rest walk (some fault) h ∙ later.1, later.2)
        | inr (h, reached) ↦ (later.0, scan_each-returned node rest walk none h ∙ later.1, later.2)
      ]

  -- However often a scanner scans a chain, and whichever of its calls fail, every scan returns, and
  -- it has visited each block of the slots after the one that it begun at and up to its last slot,
  -- once and in their order, and its last block is that of the last visited one. Its last scan has
  -- failed, or has passed the head. A node that answers tells the blocks of the chain up to its head,
  -- and its head, like the slot that the scanner begun at, is below the last one of 64 bits.
  pub scan_each-HasVisited :
      (nodes : List OperationsNode) (node : OperationsNode)
      → begun.last_slot + 1 < 2 ^ 64
      → All (IsOfChain chain) nodes
      → IsOfChain chain node
      → (polled : Walk) × (scan_each nodes (begun, []) ≡ some polled)
        × Returns node (scan_operations node polled)
  scan_each-HasVisited nodes node low of_chain last_of_chain =
      let (polled, is_polled, seen) =
        scan_each-keeps nodes (begun, []) of_chain (0, omega arith, refl, refl, low) in
      (polled, is_polled, scan_operations-Returns node polled last_of_chain seen)
