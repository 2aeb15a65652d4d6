-- ===== src/Beacon/Duties.antt =====
-- The duty of e2e/internal/rewards/validator.go, against the committees that it is found in.
use qrl_tests.Prelude.{
  [], some, ℕ, List, ◌∷◌, ◌≡◌, get_elem?, some, ◌⊎◌, ◌+◌, arith, Bool-cases, Option-cases, ◌==◌,
  inl, inr, suc, ap, ◌∙◌,
}
use qrl_tests.Beacon.Types.{Committee}
use qrl_tests.Beacon.Rewards.{duty, position_in}

-- Some committee has the validator at the position.
abbrev pub HasDuty : ℕ → ℕ → ℕ → ℕ → List Committee → Type 0
HasDuty index slot committee position [] = ⊥
HasDuty index slot committee position (candidate ∷ rest) =
    ((candidate.slot ≡ slot)
      × (candidate.index ≡ committee)
      × (get_elem? candidate.validators position ≡ some index))
    ⊎ HasDuty index slot committee position rest

position_in-get_elem? :
    (index member position : ℕ) (validators : List ℕ)
    → position_in index member validators ≡ some position
    → (k : ℕ) × (position ≡ member + k) × (get_elem? validators k ≡ some index)
unfolding position_in
position_in-get_elem? index member position [] h = absurd (ground (arith, h))
position_in-get_elem? index member position (other ∷ rest) h = elim (Bool-cases (other == index)) [
  | inl own ↦ (0, ground (arith, own, h), ground (arith, own))
  | inr other_one ↦
      let (k, at, there) =
        position_in-get_elem? index (member + 1) position rest (ground (arith, other_one, h)) in
      (suc k, omega (arith, at), there)
]

pub duty-HasDuty :
    (index slot committee position : ℕ) (answer : List Committee)
    → duty index answer ≡ some (slot, committee, position)
    → HasDuty index slot committee position answer
unfolding duty
duty-HasDuty index slot committee position [] h = absurd (ground (arith, h))
duty-HasDuty index slot committee position (candidate ∷ rest) h =
    elim (Option-cases (position_in index 0 candidate.validators)) [
      | inl absent ↦
          inr (duty-HasDuty index slot committee position rest (ground (arith, absent, h)))
      | inr (member, e) ↦
          let (k, at, there) = position_in-get_elem? index 0 member candidate.validators e in
          let same : position ≡ k = ground (arith, e, h, at) in
          inl (
            ground (arith, e, h),
            ground (arith, e, h),
            ap (get_elem? candidate.validators) same ∙ there,
          )
    ]
