-- ===== src/Prelude/Order.antt =====
-- The order of texts that Go's `cmp.Compare` and `slices.Sorted` use, by their codes, and an
-- insertion sort. Where no two elements are equal under the order, every sort has its result.
use Prim.Native.Nat.{ℕ}
use Prim.Native.String.{String}
use mathlib.Core.Path.{◌≡◌, refl}
use mathlib.Core.Bool.{Bool, true, false, ◌&&◌, ◌||◌}
use mathlib.Core.List.{List, [], ◌∷◌}
use mathlib.Core.Logic.{inl, inr}
use native.Mathlib.Omega.{arith}
use qrl_tests.Prelude.Tests.{ltb, ◌==◌, if◌then◌else◌, Bool-cases}
use qrl_tests.Prelude.Text.{codes}

unfoldable pub less_codes : List ℕ → List ℕ → Bool
less_codes [] [] = false
less_codes [] (d ∷ t) = true
less_codes (c ∷ s) [] = false
less_codes (c ∷ s) (d ∷ t) = ltb c d || (c == d && less_codes s t)

unfoldable pub less_text : String → String → Bool
less_text s t = less_codes (codes s) (codes t)

less_codes_asym : (s t : List ℕ) → less_codes s t ≡ true → less_codes t s ≡ false
unfolding less_codes
less_codes_asym [] [] h = refl
less_codes_asym [] (d ∷ t) h = refl
less_codes_asym (c ∷ s) [] h = ground (arith, h)
less_codes_asym (c ∷ s) (d ∷ t) h = ground (arith, h, less_codes_asym s t)

pub less_text_asym : (s t : String) → less_text s t ≡ true → less_text t s ≡ false
unfolding less_text
less_text_asym s t h = less_codes_asym (codes s) (codes t) h

module _ {ℓ} {A : Type ℓ} (less : A → A → Bool) where
  unfoldable pub insert_sorted : A → List A → List A
  insert_sorted x [] = x ∷ []
  insert_sorted x (y ∷ rest) =
      let later = insert_sorted x rest in if less x y then x ∷ y ∷ rest else y ∷ later

  unfoldable pub sorted : List A → List A
  unfolding insert_sorted
  sorted [] = []
  sorted (x ∷ rest) = insert_sorted x (sorted rest)

  -- No element of the list is less than `x`, if the list begins with it.
  abbrev pub IsAfter : A → List A → Type 0
  IsAfter x [] = Unit
  IsAfter x (y ∷ rest) = less y x ≡ false

  -- No element is less than the one before it.
  abbrev pub IsSorted : List A → Type 0
  IsSorted [] = Unit
  IsSorted (x ∷ rest) = IsAfter x rest × IsSorted rest

  module _ (asym : (x y : A) → less x y ≡ true → less y x ≡ false) where
    insert_sorted-IsAfter :
        (x y : A) (rest : List A)
        → less x y ≡ false
        → IsAfter y rest
        → IsAfter y (insert_sorted x rest)
    unfolding insert_sorted
    insert_sorted-IsAfter x y [] h after = h
    insert_sorted-IsAfter x y (z ∷ rest) h after = elim (Bool-cases (less x z)) [
      | inl e ↦ rw e h
      | inr e ↦ rw e after
    ]

    insert_sorted-IsSorted : (x : A) (xs : List A) → IsSorted xs → IsSorted (insert_sorted x xs)
    unfolding insert_sorted
    insert_sorted-IsSorted x [] ordered = (tt, tt)
    insert_sorted-IsSorted x (y ∷ rest) ordered = elim (Bool-cases (less x y)) [
      | inl e ↦ rw e (asym x y e, ordered)
      | inr e ↦
          rw e (insert_sorted-IsAfter x y rest e ordered.0, insert_sorted-IsSorted x rest ordered.1)
    ]

    pub sorted-IsSorted : (xs : List A) → IsSorted (sorted xs)
    unfolding sorted
    sorted-IsSorted [] = tt
    sorted-IsSorted (x ∷ rest) = insert_sorted-IsSorted x (sorted rest) (sorted-IsSorted rest)
