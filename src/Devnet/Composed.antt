-- ===== src/Devnet/Composed.antt =====
-- What the components of devnet give together.
use qrl_tests.Prelude.{ℕ, ◌≤◌, String, Option, none, List, ◌≡◌, arith, Option-cases, inr, inl}
use qrl_tests.Errors.{Fault, Result, ok, Result-cases}
use qrl_tests.Devnet.Environment.{Environment, Participant, primary}
use qrl_tests.Devnet.Manager.{StartOptions, start, start_defaults, package_locator}
use qrl_tests.Devnet.Parameters.{resolve_parameters}
use qrl_tests.Devnet.Starlark.{ResponseLine, run_remote_package, consume_starlark_completion}
use qrl_tests.Devnet.Completion.{IsCompleted, consume_starlark_completion_nil}
use qrl_tests.Devnet.Advance.{IsAdvancing, IsFunded, probe_network_nil}
use qrl_tests.Devnet.Started.{start_provisioned, prepare_ok}
use qrl_tests.Devnet.Endings.{start_ok}
use qrl_tests.Devnet.Network.{Outside, new_manager}

-- The package has been run with the parameters that the options resolve to, and its output tells of
-- success.
abbrev pub HasRun : Outside → StartOptions → Type 0
HasRun outside options =
    (parameters : String) × (stream : List ResponseLine) × (resolve_parameters outside.codecs
        outside.address options
      ≡ ok parameters)
    × (outside.run_package options.enclave_name package_locator parameters ≡ ok stream)
    × IsCompleted stream

-- The node of the network's first participant has been seen to advance, with a funded wallet.
abbrev pub IsLive : Outside → Environment → Type 0
IsLive outside environment =
    (first : Participant) × (attempt : ℕ) × (primary environment ≡ ok first)
    × (attempt ≤ outside.probe_rounds)
    × IsAdvancing (outside.chain first.execution.rpc_url attempt)
    × IsFunded (outside.chain first.execution.rpc_url attempt)

run_remote_package_nil :
    (enclave_context : String → Option Fault)
    (run : String → String → String → Result (List ResponseLine)) (name locator parameters : String)
    → run_remote_package enclave_context run name locator parameters ≡ none
    → (stream : List ResponseLine) × (run name locator parameters ≡ ok stream)
      × (consume_starlark_completion stream ≡ none)
unfolding run_remote_package
run_remote_package_nil enclave_context run name locator parameters h =
    elim (Option-cases (enclave_context name)) [
      | inr (e, there) ↦ absurd (ground (arith, there, h))
      | inl there ↦ elim (Result-cases (run name locator parameters)) [
        | inr (e, ran) ↦ absurd (ground (arith, there, ran, h))
        | inl (stream, ran) ↦ (stream, ran, ground (arith, there, ran, h))
      ]
    ]

-- What Start returns without an error, with the manager's own components, is a network whose package
-- has been run to a successful end with the parameters that the options resolve to, and whose first
-- participant's chain was then seen to advance, with a funded development wallet, at an attempt
-- before the wait ended.
pub start-IsLive :
    (outside : Outside) (given : StartOptions) (environment : Environment)
    → (start (new_manager outside) given).0 ≡ ok environment
    → HasRun outside (start_defaults given) × IsLive outside environment
unfolding new_manager
start-IsLive outside given environment h =
    let options = start_defaults given in
    let (parameters, prepared, (ran, awaited)) =
      start_provisioned (new_manager outside) given environment h in
    let (stream, streamed, consumed) =
      run_remote_package_nil outside.reads.enclave_context outside.run_package options.enclave_name
        package_locator parameters ran in
    let ready = start_ok (new_manager outside) given environment h in
    let (first, attempt, is_first, bound, probed) = ready.4 in
    let live =
      (probe_network_nil (outside.chain first.execution.rpc_url attempt) outside.address).0
        probed in
    (
      (
        parameters,
        stream,
        prepare_ok (new_manager outside) options parameters prepared,
        streamed,
        (consume_starlark_completion_nil stream).0 consumed,
      ),
      (first, attempt, is_first, bound, live.2, live.3),
    )
