-- ===== src/Errors.antt =====
-- Go's `error` values as the code builds and reads them: `errors.New`, `fmt.Errorf`, `errors.Join`
-- and `errors.Is`. A nil error is `none`.
use qrl_tests.Prelude.{
  String, Bool, true, false, ◌||◌, Option, none, some, List, [], ◌∷◌, ◌≡◌, refl, ◌↔◌, arith, All,
  any, ◌⊎◌, inl, inr, subst, sym,
}
use qrl_tests.Prelude.Text.{◌<>◌}

-- The errors that the code looks for by identity.
pub data Sentinel : Type 0 where
  canceled deadline_exceeded : Sentinel

abbrev pub same_sentinel : Sentinel → Sentinel → Bool
same_sentinel canceled canceled = true
same_sentinel deadline_exceeded deadline_exceeded = true
same_sentinel _ _ = false

mutual
  pub data Fault : Type 0 where
    plain : String → Fault
    context : Sentinel → Fault
    wrap : String → Fault → Fault
    joined : Faults → Fault

  pub data Faults : Type 0 where
    last : Fault → Faults
    also : Fault → Faults → Faults

-- errors.Is(err, target), for an error that is there
unfoldable mutual
  pub fault_is : Fault → Sentinel → Bool
  fault_is (plain text) target = false
  fault_is (context s) target = same_sentinel s target
  fault_is (wrap text inner) target = fault_is inner target
  fault_is (joined parts) target = some_fault_is parts target

  pub some_fault_is : Faults → Sentinel → Bool
  some_fault_is (last e) target = fault_is e target
  some_fault_is (also e rest) target = fault_is e target || some_fault_is rest target

-- err.Error()
unfoldable mutual
  pub fault_text : Fault → String
  fault_text (plain text) = text
  fault_text (context canceled) = "context canceled"
  fault_text (context deadline_exceeded) = "context deadline exceeded"
  fault_text (wrap text inner) = text <> ": " <> fault_text inner
  fault_text (joined parts) = faults_text parts

  pub faults_text : Faults → String
  faults_text (last e) = fault_text e
  faults_text (also e rest) = fault_text e <> "\n" <> faults_text rest

-- errors.Is, for an error that may be nil
unfoldable pub is_error : Option Fault → Sentinel → Bool
unfolding fault_is
is_error none target = false
is_error (some e) target = fault_is e target

-- fmt.Errorf("text: %w", err) under a test for nil
abbrev pub wrapped : String → Option Fault → Option Fault
wrapped text none = none
wrapped text (some e) = some (wrap text e)

unfoldable pub cons_fault : Option Fault → Option Faults → Option Faults
cons_fault none rest = rest
cons_fault (some e) none = some (last e)
cons_fault (some e) (some rest) = some (also e rest)

unfoldable pub collect : List (Option Fault) → Option Faults
unfolding cons_fault
collect [] = none
collect (e ∷ rest) = cons_fault e (collect rest)

abbrev pub of_faults : Option Faults → Option Fault
of_faults none = none
of_faults (some parts) = some (joined parts)

-- errors.Join: nil if every error is, and an error that holds the others in order if not
unfoldable pub join_errors : List (Option Fault) → Option Fault
unfolding collect
join_errors errs = of_faults (collect errs)

abbrev pub IsNil : Option Fault → Type 0
IsNil err = err ≡ none

collect-none : (errs : List (Option Fault)) → (collect errs ≡ none) ↔ All IsNil errs
unfolding collect
collect-none [] = ground arith
collect-none (none ∷ errs) = ground (arith, collect-none errs)
collect-none (some e ∷ errs) = ground (arith, collect-none errs)

-- A join is nil exactly when each of its parts is.
pub join_errors-IsNil : (errs : List (Option Fault)) → (join_errors errs ≡ none) ↔ All IsNil errs
unfolding join_errors
join_errors-IsNil errs = ground (arith, collect-none errs)

abbrev some_is : Option Faults → Sentinel → Bool
some_is none target = false
some_is (some parts) target = some_fault_is parts target

collect_is :
    (errs : List (Option Fault)) (target : Sentinel)
    → some_is (collect errs) target ≡ any (λ e. is_error e target) errs
unfolding collect is_error fault_is some_fault_is
collect_is [] target = refl
collect_is (none ∷ errs) target = collect_is errs target
collect_is (some e ∷ errs) target = ground (arith, collect_is errs target)

-- A join is a sentinel exactly when one of its parts is.
pub is_error-join_errors :
    (errs : List (Option Fault)) (target : Sentinel)
    → is_error (join_errors errs) target ≡ any (λ e. is_error e target) errs
unfolding join_errors is_error fault_is some_fault_is
is_error-join_errors errs target = ground (arith, collect_is errs target)

-- What a fallible function returns: a value with a nil error, or the error. Beside an error the
-- code returns a zero value, which no caller reads.
pub data Result {ℓ} (A : Type ℓ) : Type ℓ where
  ok : A → Result A
  fail : Fault → Result A

-- A call that returns only an error.
abbrev pub checked : Option Fault → Result (Unit {0})
checked none = ok tt
checked (some e) = fail e

infixl 5 ◌>>=◌
-- A call and the test of its error, which returns early.
abbrev pub ◌>>=◌ {ℓ κ} : {A : Type ℓ} {B : Type κ} → Result A → (A → Result B) → Result B
fail fault >>= rest = fail fault
ok value >>= rest = rest value

-- fmt.Errorf("text: %w", err) on the way out
abbrev pub within {ℓ} : {A : Type ℓ} → String → Result A → Result A
within text (ok a) = ok a
within text (fail e) = fail (wrap text e)

infixl 5 ◌>>◌
-- The same for a call whose error is all it returns.
abbrev pub ◌>>◌ {ℓ} : {B : Type ℓ} → Result (Unit {0}) → Result B → Result B
fail fault >> rest = fail fault
ok unit >> rest = rest

-- The value of a result, and `a` for an error.
abbrev pub ok_or {ℓ} : {A : Type ℓ} → A → Result A → A
ok_or a (ok b) = b
ok_or a (fail e) = a

abbrev pub error_of {ℓ} : {A : Type ℓ} → Result A → Option Fault
error_of (ok a) = none
error_of (fail e) = some e

abbrev pub is_ok {ℓ} : {A : Type ℓ} → Result A → Bool
is_ok (ok a) = true
is_ok (fail e) = false

pub Result-cases {ℓ} :
    {A : Type ℓ} (r : Result A) → ((a : A) × (r ≡ ok a)) ⊎ ((e : Fault) × (r ≡ fail e))
Result-cases (ok a) = inl (a, refl)
Result-cases (fail e) = inr (e, refl)

-- A chain that returned no error went through its first call.
pub >>=-eq-ok {ℓ κ} :
    {A : Type ℓ} {B : Type κ} {result : B} (first : Result A) (rest : A → Result B)
    → (first >>= rest) ≡ ok result
    → (value : A) × (first ≡ ok value) × (rest value ≡ ok result)
>>=-eq-ok (fail fault) rest done = cc
>>=-eq-ok (ok value) rest done = (value, refl, done)

-- The same behind a call that returns only an error.
pub >>-eq-ok {κ} :
    {B : Type κ} {result : B} (first : Result (Unit {0})) (rest : Result B)
    → (first >> rest) ≡ ok result
    → (value : Unit {0}) × (first ≡ ok value) × (rest ≡ ok result)
>>-eq-ok (fail fault) rest done = cc
>>-eq-ok (ok unit) rest done = (unit, refl, done)

pub ok_injective {ℓ} : {A : Type ℓ} {a b : A} → ◌≡◌ {A = Result A} (ok a) (ok b) → a ≡ b
ok_injective h = cc

pub wrapped_nil : (text : String) (err : Option Fault) → (wrapped text err ≡ none) ↔ (err ≡ none)
wrapped_nil text none = ((λ h. refl), (λ h. refl))
wrapped_nil text (some e) = ((λ h. absurd cc), (λ h. absurd cc))

-- A chain behind a call that returns only an error has no error exactly when neither has.
pub error_of-checked :
    {B : Type 0} (err : Option Fault) (rest : Result B)
    → (error_of (checked err >> rest) ≡ none) ↔ ((err ≡ none) × (error_of rest ≡ none))
error_of-checked none rest = ((λ h. (refl, h)), (λ h. h.1))
error_of-checked (some e) rest = ((λ h. absurd cc), (λ h. absurd cc))

-- The same for a call that returns a value.
pub error_of-within :
    {A B : Type 0} (text : String) (call : Result A) (rest : A → Result B)
    → (error_of (within text call >>= rest) ≡ none)
      ↔ ((a : A) × (call ≡ ok a) × (error_of (rest a) ≡ none))
error_of-within text (ok a) rest = (
  (λ h. (a, refl, h)),
  (λ (b, e, h). subst (λ x. error_of (rest x) ≡ none) (sym (ok_injective e)) h),
)
error_of-within text (fail e) rest = ((λ h. absurd cc), (λ (b, e', h). absurd cc))
