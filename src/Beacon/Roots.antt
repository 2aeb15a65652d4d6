-- ===== src/Beacon/Roots.antt =====
-- The canonical block at a slot or before it.
use qrl_tests.Beacon.Types.{BlockHeader}
use qrl_tests.Errors.{Fault, ok, fail, Result-cases}
use qrl_tests.Beacon.Rewards.{BeaconNode, root_at_or_before}
use qrl_tests.Prelude.{
  ℕ, zero, suc, ◌<◌, ◌≤◌, String, true, ◌≡◌, arith, Bool-cases, inl, inr, ◌==◌, subst,
}

-- A slot that the node answers has no block.
abbrev pub IsEmptySlot : BeaconNode → ℕ → Type 0
IsEmptySlot node slot =
    (e : Fault) × (node.block_header slot ≡ fail e) × (node.is_not_found e ≡ true)

-- The root is that of the block at the slot, or of the last block before it: a block at or before the
-- slot has it, and every slot between is empty.
pub root_at_or_before_lem :
    (node : BeaconNode) (slot : ℕ) (root : String)
    → root_at_or_before node slot ≡ ok root
    → (at : ℕ) × (at ≤ slot)
      × ((header : BlockHeader) × (node.block_header at ≡ ok header) × (header.root ≡ root))
      × ((k : ℕ) → at < k → k ≤ slot → IsEmptySlot node k)
unfolding root_at_or_before
root_at_or_before_lem node zero root h = elim (Result-cases (node.block_header 0)) [
  | inr (fault, e) ↦ absurd (ground (arith, e))
  | inl (header, e) ↦
      (0, omega arith, (header, e, ground (arith, e)), λ k after until. absurd (omega arith))
]
root_at_or_before_lem node (suc before) root h =
    elim (Result-cases (node.block_header (suc before))) [
      | inl (header, e) ↦ (
        suc before,
        omega arith,
        (header, e, ground (arith, e)),
        λ k after until. absurd (omega arith),
      )
      | inr (fault, e) ↦ elim (Bool-cases (node.is_not_found fault)) [
        | inr other ↦ absurd (ground (arith, e, other))
        | inl missing ↦
            let (at, bound, found, between) =
              root_at_or_before_lem node before root (ground (arith, e, missing)) in
            (
              at,
              omega (arith, bound),
              found,
              λ k after until. elim (Bool-cases (k == suc before)) [
                | inl last ↦ subst (IsEmptySlot node) (ground (arith, last)) (fault, e, missing)
                | inr earlier ↦ between k after (ground (arith, earlier, until))
              ],
            )
      ]
    ]
