-- ===== src/Beacon/Bitlist.antt =====
-- Where the aggregation bits are read.
use qrl_tests.Beacon.Types.{bits_len8, last_byte, bitlist_len}
use qrl_tests.Prelude.{
  ℕ, ◌+◌, ◌-◌, ◌*◌, ◌/◌, ◌<◌, ◌≤◌, List, [], ◌∷◌, refl, arith, length, ◌==◌, Bool-cases, inl, inr,
  ◌≢◌,
}

bits_len8_bound : (byte : ℕ) → bits_len8 byte ≤ 8
bits_len8_bound byte = ground arith

last_byte-nil : (bitlist : List ℕ) → last_byte bitlist ≢ 0 → 1 ≤ length bitlist
last_byte-nil [] h = absurd (h refl)
last_byte-nil (byte ∷ rest) h = omega arith

-- A member's position that is below the length of the bits has its byte among them: the code reads
-- no byte out of range.
includes_in_range :
    (aggregation : List ℕ) (position : ℕ)
    → position < bitlist_len aggregation
    → position / 8 < length aggregation
unfolding bitlist_len
includes_in_range aggregation position h = elim (Bool-cases (last_byte aggregation == 0)) [
  | inl empty ↦ absurd (ground (arith, empty))
  | inr filled ↦
      let some_byte = last_byte-nil aggregation (ground (arith, filled)) in
      let bound : position < (length aggregation - 1) * 8 + bits_len8 (last_byte aggregation) - 1 =
        ground (arith, filled, h) in
      omega (arith, bound, some_byte, bits_len8_bound (last_byte aggregation))
]
