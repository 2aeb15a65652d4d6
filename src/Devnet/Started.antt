-- ===== src/Devnet/Started.antt =====
-- What a start that returns a network has done.
use qrl_tests.Devnet.Lifecycle.{start_unprepared, start_uncreated, start_created}
use qrl_tests.Devnet.Environment.{Environment}
use qrl_tests.Devnet.Manager.{
  Engine, StartOptions, start, start_defaults, settle, provision, await_network, NetworkEffect,
  prepare, package_locator,
}
use qrl_tests.Errors.{
  Result, ok, Result-cases, fail, Fault, checked, within, >>=-eq-ok, >>-eq-ok, ok_injective,
}
use qrl_tests.Prelude.{
  none, List, ◌≡◌, arith, inl, inr, Option-cases, String, Bool, true, false, if◌then◌else◌, ◌∙◌, ap,
}

settle_ok :
    (engine : Engine) (options : StartOptions) (ran : Result Environment × List NetworkEffect)
    (environment : Environment)
    → (settle engine options ran).0 ≡ ok environment
    → ran.0 ≡ ok environment
unfolding settle
settle_ok engine options (ok found, effects) environment h = h
settle_ok engine options (fail failure, effects) environment h = absurd (ground (arith, h))

provision_ok :
    (engine : Engine) (options : StartOptions) (parameters : String) (environment : Environment)
    → (provision engine options parameters).0 ≡ ok environment
    → (engine.run_remote_package options.enclave_name package_locator parameters ≡ none)
      × (await_network engine options ≡ ok environment)
unfolding provision
provision_ok engine options parameters environment h =
    elim (Option-cases
      (engine.run_remote_package options.enclave_name package_locator parameters)) [
        | inl e ↦ (e, ground (arith, e, h))
        | inr (fault, e) ↦ absurd (ground (arith, e, h))
      ]

-- A start that returns a network has prepared parameters, run the package with them, and waited.
pub start_provisioned :
    (engine : Engine) (given : StartOptions) (environment : Environment)
    → (start engine given).0 ≡ ok environment
    → (parameters : String) × (prepare engine (start_defaults given) ≡ ok parameters)
      × ((engine.run_remote_package (start_defaults given).enclave_name package_locator parameters
            ≡ none)
          × (await_network engine (start_defaults given) ≡ ok environment))
start_provisioned engine given environment h =
    let options = start_defaults given in
    elim (Result-cases (prepare engine options)) [
      | inr (fault, e) ↦ absurd (ground (arith, start_unprepared engine given fault e))
      | inl (parameters, e) ↦ elim (Option-cases (engine.create options.enclave_name)) [
        | inr (fault, e') ↦
            absurd (ground (arith, start_uncreated engine given parameters fault e e'))
        | inl created ↦ (
          parameters,
          e,
          provision_ok engine options parameters environment (
              settle_ok engine options (provision engine options parameters) environment
                (ground (arith, start_created engine given parameters e created))),
        )
      ]
    ]

within_render : (text : String) (r : Result String) {a : String} → within text r ≡ ok a → r ≡ ok a
within_render text (ok a) h = h
within_render text (fail e) h = cc

-- What is prepared is what was rendered for the options.
pub prepare_ok :
    (engine : Engine) (options : StartOptions) (parameters : String)
    → prepare engine options ≡ ok parameters
    → engine.render options ≡ ok parameters
unfolding prepare
prepare_ok engine options parameters h =
    let (rendered, r, h1) = >>=-eq-ok (within _ (engine.render options)) _ h in
    let (unit, c, h2) = >>-eq-ok (checked engine.connect) _ h1 in
    let (found, f, done) = >>=-eq-ok (engine.enclave_exists options.enclave_name) _ h2 in
    within_render _ (engine.render options) r ∙ ap ok (free _ found done)
  where
    free :
        (fault : Fault) (found : Bool) {a b : String}
        → (if found then fail fault else ok a) ≡ ok b
        → a ≡ b
    free fault true h = cc
    free fault false h = ok_injective h
