-- ===== src/Prelude/FilePaths.antt =====
-- What the code uses of Go's `path` and `path/filepath` on Unix.
use Prim.Native.Char.{Char, code}
use Prim.Native.String.{String}
use Prim.Native.Nat.{ℕ}
use mathlib.Core.Path.{◌≡◌, refl}
use mathlib.Core.Bool.{Bool, true, false, ◌||◌}
use mathlib.Core.List.{List, [], ◌∷◌, reverse}
use text.Mathlib.Text.{◌==◌ as str_eq}
use qrl_tests.Prelude.Tests.{◌==◌, if◌then◌else◌}
use qrl_tests.Prelude.Text.{◌<>◌, join_text}

cons_first : Char → List String → List String
cons_first c [] = String.◌∷◌ c "" ∷ []
cons_first c (s ∷ rest) = String.◌∷◌ c s ∷ rest

-- strings.Split at each character of the code `sep`
unfoldable pub split_at_code : ℕ → String → List String
unfolding cons_first
split_at_code sep String.[] = "" ∷ []
split_at_code sep (String.◌∷◌ c s) =
    let rest = split_at_code sep s in if code c == sep then "" ∷ rest else cons_first c rest

split_slashes : String → List String
unfolding split_at_code
split_slashes = split_at_code b'/'

is_rooted : String → Bool
is_rooted String.[] = false
is_rooted (String.◌∷◌ c s) = code c == b'/'

-- What a `..` does to the elements before it, the last one first.
step_up : Bool → List String → List String
step_up rooted [] = if rooted then [] else ".." ∷ []
step_up rooted (top ∷ below) = if str_eq top ".." then ".." ∷ top ∷ below else below

clean_elements : Bool → List String → List String → List String
unfolding step_up
clean_elements rooted done [] = done
clean_elements rooted done (e ∷ rest) =
    clean_elements rooted
      (if str_eq e "" || str_eq e "."
        then done
        else if str_eq e ".."
        then step_up rooted done
        else e ∷ done)
      rest

rendered : Bool → List String → String
rendered true elements = "/" <> join_text elements "/"
rendered false [] = "."
rendered false (e ∷ rest) = join_text (e ∷ rest) "/"

-- path.Clean, filepath.Clean
unfoldable pub clean : String → String
unfolding split_slashes is_rooted clean_elements rendered join_text
clean path =
    rendered (is_rooted path) (reverse (clean_elements (is_rooted path) [] (split_slashes path)))

non_empty : List String → List String
non_empty [] = []
non_empty (e ∷ rest) = let kept = non_empty rest in if str_eq e "" then kept else e ∷ kept

join_elements : List String → String
unfolding clean
join_elements [] = ""
join_elements (e ∷ rest) = clean (join_text (e ∷ rest) "/")

-- path.Join, filepath.Join
unfoldable pub join_path : List String → String
unfolding non_empty join_elements
join_path elements = join_elements (non_empty elements)

last_non_empty : String → List String → String
last_non_empty found [] = found
last_non_empty found (e ∷ rest) = last_non_empty (if str_eq e "" then found else e) rest

-- filepath.Base
unfoldable pub base : String → String
unfolding last_non_empty split_slashes
base path =
    if str_eq path ""
    then "."
    else let name = last_non_empty "" (split_slashes path) in if str_eq name "" then "/" else name

-- A path up to its last slash, and with it.
to_last_slash : List String → String
to_last_slash [] = ""
to_last_slash (e ∷ []) = ""
to_last_slash (e ∷ f ∷ rest) = e <> "/" <> to_last_slash (f ∷ rest)

-- path.Dir, filepath.Dir
unfoldable pub directory : String → String
unfolding to_last_slash split_slashes clean
directory path = clean (to_last_slash (split_slashes path))

directory_runs : directory "/tmp/keys/" ≡ "/tmp/keys"
unfolding directory
directory_runs = refl

join_path_runs :
    join_path ("/reports/" ∷ "" ∷ "lanes" ∷ "../lanes/sync" ∷ []) ≡ "/reports/lanes/sync"
unfolding join_path
join_path_runs = refl

clean_runs : clean "../a//./b/.." ≡ "../a"
unfolding clean
clean_runs = refl

base_runs : base "/suites/sync/genesis/" ≡ "genesis"
unfolding base
base_runs = refl
