-- ===== src/Prelude/Keys.antt =====
-- Sets of texts as lists, as the code's `map[string]bool` has them: a key that is absent reads false.
use Prim.Native.String.{String}
use mathlib.Core.Path.{◌≡◌}
use mathlib.Core.Bool.{Bool, true, false, not, ◌&&◌, ◌||◌}
use mathlib.Core.List.{List, [], ◌∷◌}
use native.Mathlib.Omega.{arith}
use text.Mathlib.Text.{◌==◌ as str_eq}
use text.Mathlib.TextEquality.{eq_iff}
use qrl_tests.Prelude.Tests.{if◌then◌else◌}

-- set[key]
unfoldable pub has_key : String → List String → Bool
has_key key [] = false
has_key key (k ∷ rest) = str_eq k key || has_key key rest

-- delete(set, key)
unfoldable pub delete_key : String → List String → List String
delete_key key [] = []
delete_key key (k ∷ rest) =
    let kept = delete_key key rest in if str_eq k key then kept else k ∷ kept

pub str_eq_refl : (s : String) → str_eq s s ≡ true
str_eq_refl s = ground (arith, eq_iff s s)

pub has_key-delete_key :
    (key k : String) (set : List String)
    → has_key key (delete_key k set) ≡ (not (str_eq k key) && has_key key set)
unfolding has_key delete_key
has_key-delete_key key k [] = ground arith
has_key-delete_key key k (first ∷ rest) =
    ground (arith, has_key-delete_key key k rest, eq_iff first k, eq_iff k key, eq_iff first key)
