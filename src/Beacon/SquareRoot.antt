-- ===== src/Beacon/SquareRoot.antt =====
-- big.Int.Sqrt of e2e/internal/rewards/validator.go against the root that it rounds down.
use qrl_tests.Prelude.{
  ℕ, zero, suc, ◌+◌, ◌*◌, ◌^◌, ◌<◌, ◌≤◌, leb, Bool-cases, inl, inr, ◌≡◌, subst, arith,
}
use qrl_tests.Beacon.Votes.{root_bits, square_root}

abbrev pub IsFloorRoot : ℕ → ℕ → Type 0
IsFloorRoot n root = (root * root ≤ n) × (n < (root + 1) * (root + 1))

root_bits-IsFloorRoot :
    (n bits root : ℕ)
    → root * root ≤ n
    → n < (root + 2 ^ bits) * (root + 2 ^ bits)
    → IsFloorRoot n (root_bits n bits root)
unfolding root_bits
root_bits-IsFloorRoot n zero root low high = (low, high)
root_bits-IsFloorRoot n (suc bits) root low high =
    let wide : root + 2 ^ suc bits ≡ root + 2 ^ bits + 2 ^ bits = omega arith in
    elim (Bool-cases (leb ((root + 2 ^ bits) * (root + 2 ^ bits)) n)) [
      | inl fits ↦ rw fits (
          root_bits-IsFloorRoot n bits (root + 2 ^ bits) (ground (arith, fits))
            (subst (λ bound. n < bound * bound) wide high))
      | inr over ↦ rw over (root_bits-IsFloorRoot n bits root low (ground (arith, over)))
    ]

-- The root of a number of 64 bits is rounded down.
pub square_root-IsFloorRoot : (n : ℕ) → n < 2 ^ 64 → IsFloorRoot n (square_root n)
unfolding square_root
square_root-IsFloorRoot n small = root_bits-IsFloorRoot n 32 0 (omega arith) small
