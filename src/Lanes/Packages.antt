-- ===== src/Lanes/Packages.antt =====
-- What the runner hands to Ginkgo for a selected lane.
use qrl_tests.Prelude.{
  String, true, false, some, List, [], ◌∷◌, ◌≡◌, refl, arith, All, str_eq, Bool-cases, inl, subst,
  inr, Option-cases, ◌∙◌, eq_iff,
}
use qrl_tests.Errors.{ok}
use qrl_tests.Lanes.Registry.{Lane, package_of, find_lane, named, registry, with_suites}
use qrl_tests.Lanes.Selection.{chosen, named_by, with_suites-keeps}

abbrev pub HasPackage : String → Type 0
HasPackage id = str_eq (package_of id) "" ≡ false

find_lane_lem :
    (P : Lane → Type 0) (name : String) (lanes : List Lane) (lane : Lane)
    → All P lanes
    → find_lane name lanes ≡ some lane
    → P lane × (str_eq lane.name name ≡ true)
unfolding find_lane
find_lane_lem P name [] lane all h = cc
find_lane_lem P name (first ∷ rest) lane all h = elim (Bool-cases (str_eq first.name name)) [
  | inl here ↦
      let e : first ≡ lane = ground (arith, here) in
      (subst P e all.0, subst (λ (l : Lane). str_eq l.name name ≡ true) e here)
  | inr there ↦ find_lane_lem P name rest lane all.1 (ground (arith, there))
]

registry_packages : All (λ (lane : Lane). All HasPackage lane.suites) registry
unfolding package_of
registry_packages = (
  (refl, (refl, (refl, tt))),
  ((refl, tt), ((refl, tt), ((refl, tt), ((refl, tt), ((refl, (refl, tt)), tt))))),
)

All-chosen :
    (names suites : List String) → All HasPackage suites → All HasPackage (chosen names suites)
All-chosen names [] h = tt
All-chosen names (id ∷ rest) h = elim (Bool-cases (named_by names id)) [
  | inl in_names ↦ rw in_names (h.0, All-chosen names rest h.1)
  | inr not_in ↦ rw not_in (All-chosen names rest h.1)
]

some_of_named :
    (name : String) (lane : Lane) → named name ≡ ok lane → find_lane name registry ≡ some lane
unfolding named
some_of_named name lane h = elim (Option-cases (find_lane name registry)) [
  | inl missing ↦ ground (arith, missing)
  | inr (found, e) ↦ ground (arith, e)
]

narrowed_packages :
    (lane narrowed : Lane) (names : List String)
    → with_suites lane names ≡ ok narrowed
    → All HasPackage lane.suites
    → (narrowed.name ≡ lane.name) × All HasPackage narrowed.suites
narrowed_packages lane narrowed [] h all = rw (with_suites-keeps lane narrowed [] h) (refl, all)
narrowed_packages lane narrowed (name ∷ rest) h all =
    rw (with_suites-keeps lane narrowed (name ∷ rest) h)
      (refl, All-chosen (name ∷ rest) lane.suites all)

-- A lane that is found by name has that name, and however it is narrowed, each suite that is left
-- has a package to run.
selected_packages :
    (name : String) (names : List String) (lane narrowed : Lane)
    → named name ≡ ok lane
    → with_suites lane names ≡ ok narrowed
    → (narrowed.name ≡ name) × All HasPackage narrowed.suites
selected_packages name names lane narrowed found kept =
    let (packaged, same) =
      find_lane_lem (λ (l : Lane). All HasPackage l.suites) name registry lane registry_packages
        (some_of_named name lane found) in
    let (kept_name, kept_packages) = narrowed_packages lane narrowed names kept packaged in
    (kept_name ∙ (eq_iff lane.name name).0 same, kept_packages)
