-- ===== src/Devnet/Lifecycle.antt =====
-- What starting and stopping a network leaves behind.
use qrl_tests.Devnet.Environment.{Environment}
use qrl_tests.Errors.{
  Fault, is_ok, Sentinel, is_error, Result-cases, is_error-join_errors, ok, fail, wrap, Result,
  wrapped, join_errors-IsNil,
}
use qrl_tests.Devnet.Manager.{
  NetworkEffect, retry_until, Engine, start, finish_failed_start, StartOptions, settle, provision,
  prepare, start_defaults, failed_start, diagnostics_err, destroy_and_confirm,
}
use qrl_tests.Prelude.{
  ℕ, zero, suc, ◌+◌, ◌≤◌, String, Bool, true, false, not, ◌&&◌, Option, none, some, List, [], ◌∷◌,
  ◌≡◌, refl, ◌↔◌, arith, All, count_where, one_if, is_some, str_eq, Option-cases, inl, inr, suc,
  subst, ◌⊎◌, Bool-cases, count_where-append, All-append,
}

abbrev pub is_destruction : NetworkEffect → Bool
is_destruction (NetworkEffect.destroy_enclave name) = true
is_destruction _ = false

abbrev pub is_collection : NetworkEffect → Bool
is_collection (NetworkEffect.diagnose_enclave name dir) = true
is_collection _ = false

-- The enclave that an effect is on.
abbrev pub enclave_of : NetworkEffect → String
enclave_of (NetworkEffect.create_enclave name) = name
enclave_of (NetworkEffect.run_package name) = name
enclave_of (NetworkEffect.diagnose_enclave name dir) = name
enclave_of (NetworkEffect.destroy_enclave name) = name

-- A retried operation ends with no error exactly when one of its attempts before the context ends
-- succeeds.
pub retry_until_nil :
    (rounds : ℕ) (ctx_err : Fault) (operation : ℕ → Option Fault) (attempt : ℕ)
    → (retry_until rounds ctx_err operation attempt ≡ none)
      ↔ ((n : ℕ) × (n ≤ rounds) × (operation (attempt + n) ≡ none))
unfolding retry_until
retry_until_nil zero ctx_err operation attempt = (
  (λ h. elim (Option-cases (operation attempt)) [
    | inl done ↦ (0, omega arith, at (omega arith) done)
    | inr (e, failed) ↦
        absurd (ground (arith, failed, join_errors-IsNil (some e ∷ some ctx_err ∷ [])))
  ]),
  (λ found.
      let now : operation attempt ≡ none = at (omega (arith, found.1)) found.2 in
      ground (arith, now)),
)
  where
    at : {a b : ℕ} → a ≡ b → operation a ≡ none → operation b ≡ none
    at e h = subst (λ n. operation n ≡ none) e h
retry_until_nil (suc rounds) ctx_err operation attempt = elim (Option-cases (operation attempt)) [
  | inl done ↦ ((λ h. (0, omega arith, at (omega arith) done)), (λ found. ground (arith, done)))
  | inr (e, failed) ↦
      let ih = retry_until_nil rounds ctx_err operation (attempt + 1) in
      (
        (λ h.
            let later = ih.0 (ground (arith, failed, h)) in
            (1 + later.0, omega (arith, later.1), at (omega arith) later.2)),
        (λ found. elim (zero_or_suc found.0) [
          | inl z ↦ absurd (ground (arith, failed, at {b = attempt} (omega (arith, z)) found.2))
          | inr (m, z) ↦
              let later = ih.1 (m, omega (arith, z, found.1), at (omega (arith, z)) found.2) in
              ground (arith, failed, later)
        ]),
      )
]
  where
    at : {a b : ℕ} → a ≡ b → operation a ≡ none → operation b ≡ none
    at e h = subst (λ n. operation n ≡ none) e h

    zero_or_suc : (n : ℕ) → (n ≡ 0) ⊎ ((m : ℕ) × (n ≡ m + 1))
    zero_or_suc zero = inl refl
    zero_or_suc (suc m) = inr (m, omega arith)

-- Whether Start came to hold an enclave of its own.
abbrev pub has_created : Engine → StartOptions → Bool
has_created engine options =
    is_ok (prepare engine options) && not (is_some (engine.create options.enclave_name))

pub start_created :
    (engine : Engine) (given : StartOptions) (parameters : String)
    → prepare engine (start_defaults given) ≡ ok parameters
    → engine.create (start_defaults given).enclave_name ≡ none
    → start engine given ≡ (
      (settle engine (start_defaults given) (provision engine (start_defaults given) parameters)).0,
      NetworkEffect.create_enclave (start_defaults given).enclave_name
          ∷ (settle engine
              (start_defaults given)
              (provision engine (start_defaults given) parameters)).1,
    )
unfolding start
start_created engine given parameters e e' = rw (e, e', start)

pub start_unprepared :
    (engine : Engine) (given : StartOptions) (fault : Fault)
    → prepare engine (start_defaults given) ≡ fail fault
    → start engine given ≡ (fail fault, [])
unfolding start
start_unprepared engine given fault e = rw (e, start)

pub start_uncreated :
    (engine : Engine) (given : StartOptions) (parameters : String) (fault : Fault)
    → prepare engine (start_defaults given) ≡ ok parameters
    → engine.create (start_defaults given).enclave_name ≡ some fault
    → start engine given ≡ (
      fail (wrap "create enclave" fault),
      NetworkEffect.create_enclave (start_defaults given).enclave_name ∷ [],
    )
unfolding start
start_uncreated engine given parameters fault e e' = rw (e, e', start)

-- The effects that the deferred function adds to those of the provisioning.
settle-effects :
    (engine : Engine) (options : StartOptions) (ran : Result Environment × List NetworkEffect)
    → count_where is_destruction ran.1 ≡ 0
    → count_where is_collection ran.1 ≡ 0
    → All (λ e. enclave_of e ≡ options.enclave_name) ran.1
    → (count_where is_destruction (settle engine options ran).1
        ≡ one_if (not (is_ok (settle engine options ran).0)))
      × (count_where is_collection (settle engine options ran).1
          ≡ one_if (
              not (is_ok (settle engine options ran).0)
              && not (str_eq options.failure_diagnostics_dir "")))
      × All (λ e. enclave_of e ≡ options.enclave_name) (settle engine options ran).1
unfolding settle finish_failed_start
settle-effects engine options (ok environment, effects) a b all = (a, b, all)
settle-effects engine options (fail failure, effects) a b all =
    elim (Bool-cases (str_eq options.failure_diagnostics_dir "")) [
      | inl missing ↦ (
        rw (count_where-append is_destruction effects) (ground (arith, a, missing)),
        rw (count_where-append is_collection effects) (ground (arith, b, missing)),
        All-append _ effects _ all (rw missing (refl, tt)),
      )
      | inr given ↦ (
        rw (count_where-append is_destruction effects) (ground (arith, a, given)),
        rw (count_where-append is_collection effects) (ground (arith, b, given)),
        All-append _ effects _ all (rw given (refl, (refl, tt))),
      )
    ]

provision-effects :
    (engine : Engine) (options : StartOptions) (parameters : String)
    → (provision engine options parameters).1 ≡ NetworkEffect.run_package options.enclave_name ∷ []
unfolding provision
provision-effects engine options parameters = ground arith

-- A start destroys an enclave exactly when it created it and then failed, and then once: one that
-- was there before, or that could not be created, it leaves alone. It collects diagnostics in the
-- same case, if a directory is given for them. Every call is on the enclave of the options.
pub start-effects :
    (engine : Engine) (given : StartOptions)
    → (count_where is_destruction (start engine given).1
        ≡ one_if (has_created engine (start_defaults given) && not (is_ok (start engine given).0)))
      × (count_where is_collection (start engine given).1
          ≡ one_if (
              has_created engine (start_defaults given)
              && not (is_ok (start engine given).0)
              && not (str_eq given.failure_diagnostics_dir "")))
      × All (λ e. enclave_of e ≡ (start_defaults given).enclave_name) (start engine given).1
start-effects engine given =
    let options = start_defaults given in
    elim (Result-cases (prepare engine options)) [
      | inr (fault, e) ↦ rw (start_unprepared engine given fault e, e) (refl, refl, tt)
      | inl (parameters, e) ↦ elim (Option-cases (engine.create options.enclave_name)) [
        | inr (fault, e') ↦
            rw (start_uncreated engine given parameters fault e e', e, e') (refl, refl, (refl, tt))
        | inl created ↦
            let ran = provision engine options parameters in
            let runs = provision-effects engine options parameters in
            let settled =
              settle-effects engine options ran (rw runs refl) (rw runs refl)
                (rw runs (refl, tt)) in
            rw (start_created engine given parameters e created, e, created)
              (omega (arith, settled.0), omega (arith, settled.1), (refl, settled.2))
      ]
    ]

failed_start-is_error :
    (failure : Fault) (diagnosed cleaned : Option Fault) (target : Sentinel)
    → is_error (some failure) target ≡ true
    → is_error (some (failed_start failure diagnosed cleaned)) target ≡ true
unfolding is_error
failed_start-is_error failure diagnosed cleaned target h =
    ground (arith, h, is_error-join_errors (some failure ∷ diagnosed ∷ cleaned ∷ []) target)

-- What a failed start failed with, a cancellation or a deadline, its error still is after the
-- diagnostics and the cleanup.
finish_failed_start-is_error :
    (engine : Engine) (options : StartOptions) (failure : Fault) (target : Sentinel)
    → is_error (some failure) target ≡ true
    → is_error (some (finish_failed_start engine options failure).0) target ≡ true
unfolding finish_failed_start
finish_failed_start-is_error engine options failure target h =
    failed_start-is_error failure (diagnostics_err engine options)
      (wrapped "clean up failed network" (destroy_and_confirm engine options.enclave_name)) target h
