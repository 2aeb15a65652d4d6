-- ===== src/Lanes/Selection.antt =====
-- What narrowing a lane to named suites keeps.
use qrl_tests.Lanes.Registry.{
  Lane, contains_id, request, find_package, suite_packages, select, with_suites,
}
use qrl_tests.Prelude.{
  String, Bool, true, ◌||◌, List, [], ◌∷◌, ◌++◌, ◌≡◌, refl, ◌↔◌, arith, All, any, str_eq, eq_iff,
  is_some, ap, if◌then◌else◌, is_empty, inl, inr,
}
use qrl_tests.Prelude.Text.{trim_space}
use qrl_tests.Errors.{ok, is_ok, Result-cases}

-- A name that a lane accepts: a registered suite of the lane.
abbrev pub IsAccepted : Lane → String → Type 0
IsAccepted lane name =
    (is_some (find_package (trim_space name) suite_packages) ≡ true)
    × (contains_id lane.suites (trim_space name) ≡ true)

contains_id-snoc :
    (ids : List String) (id other : String)
    → contains_id (ids ++ id ∷ []) other ≡ (contains_id ids other || str_eq id other)
unfolding contains_id
contains_id-snoc [] id other = ground arith
contains_id-snoc (x ∷ ids) id other = ground (arith, contains_id-snoc ids id other)

abbrev pub named_by : List String → String → Bool
named_by names id = any (λ name. str_eq (trim_space name) id) names

contains_id-same :
    (ids : List String) (id other : String)
    → str_eq id other ≡ true
    → contains_id ids id ≡ contains_id ids other
contains_id-same ids id other h = ap (contains_id ids) ((eq_iff id other).0 h)

-- What the loop has requested, once it ends.
request_holds :
    (lane : Lane) (requested names : List String) (id : String) {result : List String}
    → request lane requested names ≡ ok result
    → contains_id result id ≡ (contains_id requested id || named_by names id)
unfolding request
request_holds lane requested [] id {result} h = ground arith
request_holds lane requested (name ∷ rest) id {result} h =
    let t = trim_space name in
    ground (
      arith,
      request_holds lane requested rest id {result = result},
      request_holds lane (requested ++ t ∷ []) rest id {result = result},
      contains_id-snoc requested t id,
      contains_id-same requested t id,
    )

request_accepts :
    (lane : Lane) (requested names : List String)
    → (is_ok (request lane requested names) ≡ true) ↔ All (IsAccepted lane) names
unfolding request
request_accepts lane requested [] = ((λ h. tt), (λ h. refl))
request_accepts lane requested (name ∷ rest) =
    let known = request_accepts lane requested rest in
    let added = request_accepts lane (requested ++ trim_space name ∷ []) rest in
    ((λ h. ground (arith, known, added)), (λ h. ground (arith, known, added)))

-- The lane's own suites that the names ask for, in the lane's order.
abbrev pub chosen : List String → List String → List String
chosen names [] = []
chosen names (id ∷ rest) =
    let more = chosen names rest in if named_by names id then id ∷ more else more

select-chosen :
    (requested names suites : List String)
    → ((id : String) → contains_id requested id ≡ named_by names id)
    → select requested suites ≡ chosen names suites
unfolding select
select-chosen requested names [] h = refl
select-chosen requested names (id ∷ suites) h =
    ground (arith, h id, select-chosen requested names suites h)

-- A lane accepts the names exactly when each, trimmed, is a registered suite of the lane.
pub with_suites-accepts :
    (lane : Lane) (names : List String)
    → (is_ok (with_suites lane names) ≡ true) ↔ All (IsAccepted lane) names
unfolding with_suites
with_suites-accepts lane [] = ((λ h. tt), (λ h. refl))
with_suites-accepts lane (name ∷ rest) =
    let loop = request_accepts lane [] (name ∷ rest) in
    ((λ h. loop.0 (ground arith)), (λ h. ground (arith, loop.1 h)))

-- The narrowed lane has the suites of the lane that the names ask for, in the lane's own order and
-- whatever the order or repetition of the names; nothing else of the lane changes. No names keep
-- the lane.
pub with_suites-keeps :
    (lane narrowed : Lane) (names : List String)
    → with_suites lane names ≡ ok narrowed
    → narrowed
      ≡ (if is_empty names then lane else record lane { suites = chosen names lane.suites })
unfolding with_suites contains_id
with_suites-keeps lane narrowed [] h = ground arith
with_suites-keeps lane narrowed (name ∷ rest) h =
    elim (Result-cases (request lane [] (name ∷ rest))) [
      | inl (requested, e) ↦
          let same =
            select-chosen requested (name ∷ rest) lane.suites
              (λ id. request_holds lane [] (name ∷ rest) id e) in
          ground (arith, e, same)
      | inr (fault, e) ↦ ground (arith, e)
    ]
