-- ===== src/Prelude/Decimals.antt =====
-- The decimal text of a number reads back as the number.
use qrl_tests.Prelude.{lt→ltb, is_empty, ltb→lt, str_eq, not_true, eq_iff}
use Prim.Native.Char.{code}
use Prim.Native.Nat.{ℕ, zero, suc, ◌+◌, ◌-◌, ◌*◌, ◌^◌, ◌/◌, ◌%◌, ◌≤◌, ◌<◌}
use Prim.Native.String.{String}
use Prim.Native.String.append
use mathlib.Core.Path.{◌≡◌, refl, ap, ◌∙◌}
use mathlib.Core.Bool.{true, false}
use mathlib.Core.List.{List, [], ◌∷◌, ◌++◌}
use mathlib.Core.Logic.{inl, inr}
use mathlib.Core.Option.{some}
use native.Mathlib.Omega.{arith}
use qrl_tests.Prelude.Tests.{ltb, ◌==◌, Bool-cases, lt→ltb}
use qrl_tests.Prelude.Int.{pos}
use qrl_tests.Prelude.Text.{
  codes, ◌<>◌, digit, decimal_digits, decimal, digits_value, unsigned_value, signed_value, atoi,
}

codes-append : (s t : String) → codes (s <> t) ≡ codes s ++ codes t
codes-append String.[] t = λ i. codes (append.nil t i)
codes-append (String.◌∷◌ c s) t =
    (λ i. codes (append.cons c s t i)) ∙ ap (λ rest. code c ∷ rest) (codes-append s t)

codes-digit : (n : ℕ) → n < 10 → codes (digit n) ≡ (48 + n) ∷ []
unfolding digit
codes-digit zero h = refl
codes-digit (suc zero) h = refl
codes-digit (suc (suc zero)) h = refl
codes-digit (suc (suc (suc zero))) h = refl
codes-digit (suc (suc (suc (suc zero)))) h = refl
codes-digit (suc (suc (suc (suc (suc zero))))) h = refl
codes-digit (suc (suc (suc (suc (suc (suc zero)))))) h = refl
codes-digit (suc (suc (suc (suc (suc (suc (suc zero))))))) h = refl
codes-digit (suc (suc (suc (suc (suc (suc (suc (suc zero)))))))) h = refl
codes-digit (suc (suc (suc (suc (suc (suc (suc (suc (suc zero))))))))) h = refl
codes-digit (suc (suc (suc (suc (suc (suc (suc (suc (suc (suc n)))))))))) h = absurd (omega arith)

-- A digit that follows what has been read.
digits_value-snoc :
    (acc : ℕ) (s : List ℕ) (d v : ℕ)
    → d < 10
    → digits_value acc s ≡ some v
    → digits_value acc (s ++ (48 + d) ∷ []) ≡ some (v * 10 + d)
unfolding digits_value
digits_value-snoc acc [] d v h e = ground (arith, h, e)
digits_value-snoc acc (c ∷ s) d v h e =
    ground (arith, e, digits_value-snoc (acc * 10 + (c - 48)) s d v h)

-- 10 ^ n, by its digits
abbrev pub power_ten : ℕ → ℕ
power_ten zero = 1
power_ten (suc n) = 10 * power_ten n

one_digit : (n : ℕ) → n < 10 → digits_value 0 (codes (digit n)) ≡ some n
unfolding digits_value
one_digit n h = rw (codes-digit n h) (ground (arith, h))

more_digits :
    (s : String) (n : ℕ)
    → digits_value 0 (codes s) ≡ some (n / 10)
    → digits_value 0 (codes (s <> digit (n % 10))) ≡ some n
more_digits s n h =
    rw (codes-append s (digit (n % 10)), codes-digit (n % 10) (omega arith))
      (digits_value-snoc 0 (codes s) (n % 10) (n / 10) (omega arith) h ∙ ap some (omega arith))

digits_value-decimal_digits :
    (fuel n : ℕ)
    → n < power_ten (suc fuel)
    → digits_value 0 (codes (decimal_digits (suc fuel) n)) ≡ some n
unfolding decimal_digits
digits_value-decimal_digits zero n h =
    rw (lt→ltb n 10 (omega (arith, h))) (one_digit n (omega (arith, h)))
digits_value-decimal_digits (suc fuel) n h = elim (Bool-cases (ltb n 10)) [
  | inl t ↦ rw t (one_digit n (ltb→lt n 10 t))
  | inr t ↦ rw t (
      more_digits (decimal_digits (suc fuel) (n / 10)) n
        (digits_value-decimal_digits fuel (n / 10) (omega (arith, h))))
]

is_empty-snoc : (s : List ℕ) (c : ℕ) → is_empty (s ++ c ∷ []) ≡ false
is_empty-snoc [] c = refl
is_empty-snoc (d ∷ s) c = refl

is_empty-decimal_digits : (fuel n : ℕ) → is_empty (codes (decimal_digits (suc fuel) n)) ≡ false
unfolding decimal_digits
is_empty-decimal_digits fuel n = elim (Bool-cases (ltb n 10)) [
  | inl t ↦ rw (t, codes-digit n (ltb→lt n 10 t)) refl
  | inr t ↦
      rw
        (
          t,
          codes-append (decimal_digits fuel (n / 10)) (digit (n % 10)),
          codes-digit (n % 10) (omega arith),
        )
        (is_empty-snoc (codes (decimal_digits fuel (n / 10))) (48 + n % 10))
]

first_digit : (c : ℕ) (s : List ℕ) (n : ℕ) → digits_value 0 (c ∷ s) ≡ some n → 48 ≤ c
unfolding digits_value
first_digit c s n e = ground (arith, e)

is_not : (c sign : ℕ) → 48 ≤ c → sign < 48 → (c == sign) ≡ false
is_not c sign h h' = ground (arith, h, h')

-- A run of digits is read without a sign.
signed_value-digits :
    (s : List ℕ) (n : ℕ)
    → is_empty s ≡ false
    → digits_value 0 s ≡ some n
    → n < 2 ^ 63
    → signed_value s ≡ some (pos n)
unfolding signed_value unsigned_value digits_value
signed_value-digits [] n some_digit e h = absurd cc
signed_value-digits (c ∷ s) n some_digit e h =
    let is_digit = first_digit c s n e in
    rw
      (
        is_not c 45 is_digit (omega arith),
        is_not c 43 is_digit (omega arith),
        e,
        lt→ltb n (2 ^ 63) h,
      )
      refl

-- A number that fits a signed 64-bit word is read back from its decimal text.
pub atoi-decimal : (n : ℕ) → n < 2 ^ 63 → atoi (decimal n) ≡ some (pos n)
unfolding atoi decimal
atoi-decimal n h =
    signed_value-digits (codes (decimal_digits 20 n)) n (is_empty-decimal_digits 19 n)
      (digits_value-decimal_digits 19 n (omega (arith, h))) h

-- A decimal text is not empty.
pub decimal_nonempty : (n : ℕ) → str_eq (decimal n) "" ≡ false
unfolding decimal
decimal_nonempty n =
    not_true (λ h. empty (ap (λ s. is_empty (codes s)) ((eq_iff (decimal_digits 20 n) "").0 h)))
  where
    empty : is_empty (codes (decimal_digits 20 n)) ≡ true → ⊥
    empty h = ground (arith, h, is_empty-decimal_digits 19 n)
