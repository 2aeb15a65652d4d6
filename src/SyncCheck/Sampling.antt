-- ===== src/SyncCheck/Sampling.antt =====
-- What sampledRange takes of a range.
use qrl_tests.Prelude.{
  ℕ, zero, suc, ◌+◌, ◌%◌, ◌^◌, ◌≤◌, ◌<◌, some, List, [], ◌∷◌, ◌≡◌, refl, arith, ltb, lt→ltb, ltb→lt,
  length, get_elem?, false, Bool-cases, inl, inr, ap,
}
use qrl_tests.SyncCheck.{values_from, sample_step, sampled_range}

-- The values ascend by at most `step`, up to the last one.
abbrev pub Reaches : ℕ → ℕ → List ℕ → Type 0
Reaches step last [] = ⊥
Reaches step last (v ∷ []) = v ≡ last
Reaches step last (v ∷ w ∷ rest) = (v < w) × (w ≤ v + step) × Reaches step last (w ∷ rest)

-- The values begin with `first`.
abbrev pub BeginsWith : ℕ → List ℕ → Type 0
BeginsWith first values = get_elem? values 0 ≡ some first

abbrev times : ℕ → ℕ → ℕ
times zero step = 0
times (suc rounds) step = step + times rounds step

abbrev IsRange : ℕ → ℕ → ℕ → ℕ → Type 0
IsRange rounds value last step =
    (values : List ℕ) × (values_from (suc rounds) value last step ≡ some values)
    × BeginsWith value values
    × Reaches step last values
    × (length values ≤ suc rounds)

stays :
    (value step last : ℕ)
    → value < last
    → last + step < 2 ^ 64
    → (value + step) % 2 ^ 64 ≡ value + step
stays value step last h h' = omega (arith, h, h')

not_less : (value last : ℕ) → last ≤ value → ltb value last ≡ false
not_less value last h = ground (arith, h)

values_from-last :
    (rounds value last step : ℕ)
    → last ≤ value
    → values_from (suc rounds) value last step ≡ some (last ∷ [])
unfolding values_from
values_from-last rounds value last step h = rw (not_less value last h) refl

values_from-step :
    (rounds value last step : ℕ) {values : List ℕ}
    → value < last
    → last + step < 2 ^ 64
    → values_from rounds (value + step) last step ≡ some values
    → values_from (suc rounds) value last step ≡ some (value ∷ values)
unfolding values_from
values_from-step rounds value last step h fits e =
    rw (lt→ltb value last h, stays value step last h fits, e) refl

Reaches-cons :
    (value w step last : ℕ) (values : List ℕ)
    → BeginsWith w values
    → value < w
    → w ≤ value + step
    → Reaches step last values
    → Reaches step last (value ∷ values)
Reaches-cons value w step last [] b h h' r = absurd r
Reaches-cons value w step last (v ∷ rest) b h h' r =
    (ground (arith, b, h), ground (arith, b, h'), r)

sampled_on :
    (rounds value last step : ℕ)
    → value < last
    → 1 ≤ step
    → last + step < 2 ^ 64
    → last ≤ value + times rounds step
    → IsRange rounds value last step
sampled_on zero value last step h positive fits near = absurd (omega (arith, h, near))
sampled_on (suc rounds) value last step h positive fits near =
    elim (Bool-cases (ltb (value + step) last)) [
      | inl e ↦
          let before = ltb→lt (value + step) last e in
          let (values, ran, begins, reaches, short) =
            sampled_on rounds (value + step) last step before positive fits (omega (arith, near)) in
          (
            value ∷ values,
            values_from-step (suc rounds) value last step h fits ran,
            refl,
            Reaches-cons value (value + step) step last values begins (omega (arith, positive))
                (omega arith) reaches,
            omega (arith, short),
          )
      | inr e ↦
          let past : last ≤ value + step = ground (arith, e) in
          (
            value ∷ last ∷ [],
            values_from-step (suc rounds) value last step h fits
                (values_from-last rounds (value + step) last step past),
            refl,
            (h, past, refl),
            omega arith,
          )
    ]

values_from_lem :
    (rounds value last step : ℕ)
    → value ≤ last
    → 1 ≤ step
    → last + step < 2 ^ 64
    → last ≤ value + times rounds step
    → IsRange rounds value last step
values_from_lem rounds value last step h positive fits near = elim (Bool-cases (ltb value last)) [
  | inr e ↦ (
    last ∷ [],
    values_from-last rounds value last step (ground (arith, e)),
    ap some (ground (arith, e, h)),
    refl,
    omega arith,
  )
  | inl e ↦ sampled_on rounds value last step (ltb→lt value last e) positive fits near
]

step_positive : (first last : ℕ) → 1 ≤ sample_step first last
unfolding sample_step
step_positive first last = omega arith

step_enough : (first last : ℕ) → first ≤ last → last ≤ first + times 50 (sample_step first last)
unfolding sample_step
step_enough first last h = omega (arith, h)

-- The sampling of a range whose last value is more than a step below 2 ^ 64 ends: the values begin
-- with the first of the range, ascend by at most a step, end with the last, and are at most 51.
pub sampled_range-Reaches :
    (first last : ℕ)
    → first ≤ last
    → last + sample_step first last < 2 ^ 64
    → (values : List ℕ) × (sampled_range first last ≡ some values)
      × BeginsWith first values
      × Reaches (sample_step first last) last values
      × (length values ≤ 51)
unfolding sampled_range
sampled_range-Reaches first last h fits =
    let (values, ran, begins, reaches, short) =
      values_from_lem 50 first last (sample_step first last) h (step_positive first last) fits
        (step_enough first last h) in
    (values, rw (not_less last first h) ran, begins, reaches, short)
