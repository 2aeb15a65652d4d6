-- ===== src/Devnet/Manager.antt =====
-- devnet/manager.go: how a network is started and stopped. What the Kurtosis engine answers is a
-- record of functions; each call that changes the engine's state is logged in order.
use qrl_tests.Prelude.{
  ℕ, zero, suc, ◌+◌, String, Bool, Option, none, some, List, [], ◌∷◌, ◌++◌, str_eq, if◌then◌else◌,
}
use qrl_tests.Prelude.Text.{◌<>◌, quoted}
use qrl_tests.Errors.{
  Fault, Sentinel, context, Result, ok, fail, plain, wrap, wrapped, within, checked, join_errors,
  ◌>>=◌, ◌>>◌,
}
use qrl_tests.Devnet.Images.{Images, or_text}
use qrl_tests.Devnet.Profiles.{profile_single}
use qrl_tests.Devnet.Environment.{Environment, primary, resolve_environment}
use qrl_tests.Devnet.Services.{Service}

pub record StartOptions : Type 0 where
  pub enclave_name : String
  pub backend : String
  pub images : Images
  pub parameters : Option (List ℕ)
  pub profile : String
  pub failure_diagnostics_dir : String

-- The calls that change what the engine holds, or read its logs.
pub data NetworkEffect : Type 0 where
  create_enclave : String → NetworkEffect
  run_package : String → NetworkEffect
  diagnose_enclave : String → String → NetworkEffect
  destroy_enclave : String → NetworkEffect

abbrev pub package_locator : String
package_locator = "github.com/theQRL/qrl-package@25d3a1c53009294f06644c5b49c1011cf86ad0a5"

-- What the surroundings answer. `render` is resolveParameters, which stands on a YAML library.
-- `probe` and `confirm` answer the n-th attempt; a context ends after `probe_rounds` or
-- `confirm_rounds` ticks, with its error.
pub record Engine : Type 0 where
  pub render : StartOptions → Result String
  pub connect : Option Fault
  pub enclave_exists : String → Result Bool
  pub create : String → Option Fault
  pub run_remote_package : String → String → String → Option Fault
  pub services : String → Result (List (String × Service))
  pub destroy : String → Option Fault
  pub confirm : String → ℕ → Result Bool
  pub probe : String → ℕ → Option Fault
  pub collect_diagnostics : String → String → Option Fault
  pub probe_rounds : ℕ
  pub probe_ctx_err : Fault
  pub confirm_rounds : ℕ

-- retryUntil: `attempt` is the number of the next attempt, and `rounds` the ticks that come before
-- the context ends.
unfoldable pub retry_until : ℕ → Fault → (ℕ → Option Fault) → ℕ → Option Fault
retry_until zero ctx_err operation attempt = elim (operation attempt) [
  | none ↦ none
  | some e ↦ join_errors (some e ∷ some ctx_err ∷ [])
]
retry_until (suc rounds) ctx_err operation attempt =
    let again = retry_until rounds ctx_err operation (attempt + 1) in
    elim (operation attempt) [ none ↦ none | some e ↦ again ]

-- The environment of a running network, under the test for its enclave.
unfoldable pub inspect : Engine → String → Result Environment
unfolding resolve_environment
inspect engine name =
    checked engine.connect
    >> (engine.enclave_exists name >>= λ found.
        if found
        then resolve_environment engine.services name
        else fail (plain ("network " <> quoted name <> " is not running")))

-- CheckReady, with the first answer of the probe
unfoldable pub check_ready : Engine → Environment → Option Fault
check_ready engine environment = elim (primary environment) [
  | fail e ↦ some e
  | ok participant ↦ engine.probe participant.execution.rpc_url 0
]

abbrev pub occupied_err : Result Bool → Option Fault
occupied_err (fail e) = some (wrap "confirm enclave destruction" e)
occupied_err (ok found) = if found then some (plain "enclave still occupies its slot") else none

unfoldable pub destroy_and_confirm : Engine → String → Option Fault
unfolding retry_until
destroy_and_confirm engine name = join_errors (
    engine.destroy name
    ∷ retry_until engine.confirm_rounds (context Sentinel.deadline_exceeded)
        (λ attempt. occupied_err (engine.confirm name attempt)) 0
    ∷ [])

abbrev pub diagnostics_err : Engine → StartOptions → Option Fault
diagnostics_err engine options =
    if str_eq options.failure_diagnostics_dir ""
    then none
    else wrapped "collect start diagnostics"
        (engine.collect_diagnostics options.enclave_name options.failure_diagnostics_dir)

-- A join that holds an error is not nil.
abbrev pub or_failure : Fault → Option Fault → Fault
or_failure failure none = failure
or_failure failure (some e) = e

-- The failure alone if diagnostics and cleanup had no error.
abbrev pub failed_start : Fault → Option Fault → Option Fault → Fault
failed_start failure none none = failure
failed_start failure diagnosed cleaned =
    or_failure failure (join_errors (some failure ∷ diagnosed ∷ cleaned ∷ []))

-- finishFailedStart, and what it did
unfoldable pub finish_failed_start : Engine → StartOptions → Fault → Fault × List NetworkEffect
finish_failed_start engine options failure =
    let cleanup_err =
      wrapped "clean up failed network" (destroy_and_confirm engine options.enclave_name) in
    let effects =
      (if str_eq options.failure_diagnostics_dir ""
        then []
        else diagnose_enclave options.enclave_name options.failure_diagnostics_dir ∷ [])
      ++ destroy_enclave options.enclave_name ∷ [] in
    (failed_start failure (diagnostics_err engine options) cleanup_err, effects)

abbrev pub start_defaults : StartOptions → StartOptions
start_defaults options = record options {
  enclave_name = or_text options.enclave_name "go-qrl-devnet";
  backend = or_text options.backend "docker";
  profile = or_text options.profile profile_single;
}

-- What comes after the package has run.
unfoldable pub await_network : Engine → StartOptions → Result Environment
unfolding resolve_environment retry_until
await_network engine options =
    within "resolve network endpoints" (resolve_environment engine.services options.enclave_name)
    >>= λ resolved.
        (let environment : Environment = record resolved { backend = options.backend } in
          within "resolve primary participant" (primary environment) >>= λ participant.
          (checked (
              wrapped "wait for network readiness" (
                retry_until engine.probe_rounds engine.probe_ctx_err
                  (engine.probe participant.execution.rpc_url) 0))
            >> ok environment))

-- The part of Start under the deferred function, and what it did.
unfoldable pub provision : Engine → StartOptions → String → Result Environment × List NetworkEffect
provision engine options parameters =
    elim (engine.run_remote_package options.enclave_name package_locator parameters) [
      | some e ↦ (fail (wrap "run pinned qrl-package" e), run_package options.enclave_name ∷ [])
      | none ↦ (await_network engine options, run_package options.enclave_name ∷ [])
    ]

-- The deferred function of Start.
unfoldable pub settle :
    Engine
    → StartOptions
    → Result Environment × List NetworkEffect
    → Result Environment × List NetworkEffect
settle engine options (ok environment, effects) = (ok environment, effects)
settle engine options (fail failure, effects) =
    let finished = finish_failed_start engine options failure in
    (fail finished.0, effects ++ finished.1)

-- What Start checks before it creates the enclave: the rendered parameters.
unfoldable pub prepare : Engine → StartOptions → Result String
prepare engine options =
    within "prepare qrl-package parameters" (engine.render options) >>= λ parameters.
    (checked engine.connect
      >> (engine.enclave_exists options.enclave_name >>= λ found.
          if found
          then fail (
              plain (
                "network "
                <> quoted options.enclave_name
                <> " already exists or provisioning is incomplete; stop it before retrying"))
          else ok parameters))

-- Start, and what it did
unfoldable pub start : Engine → StartOptions → Result Environment × List NetworkEffect
unfolding prepare provision settle or_text
start engine given =
    let options = start_defaults given in
    elim (prepare engine options) [
      | fail e ↦ (fail e, [])
      | ok parameters ↦ elim (engine.create options.enclave_name) [
        | some e ↦ (fail (wrap "create enclave" e), create_enclave options.enclave_name ∷ [])
        | none ↦
            let settled = settle engine options (provision engine options parameters) in
            (settled.0, create_enclave options.enclave_name ∷ settled.1)
      ]
    ]

-- Stop, and what it did
unfoldable pub stop : Engine → String → Option Fault × List NetworkEffect
unfolding destroy_and_confirm
stop engine name = elim engine.connect [
  | some e ↦ (some e, [])
  | none ↦ elim (engine.enclave_exists name) [
    | fail e ↦ (some e, [])
    | ok found ↦
        if found then (destroy_and_confirm engine name, destroy_enclave name ∷ []) else (none, [])
  ]
]
