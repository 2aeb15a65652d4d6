-- ===== src/Devnet/Network.antt =====
-- NewManager of devnet/manager.go: the manager's engine, put together from the components of devnet.
use qrl_tests.Prelude.{ℕ, String, Option, List, ◌+◌}
use qrl_tests.Errors.{Fault, Result, wrapped, within}
use qrl_tests.Devnet.Diagnostics.{DiagnosticsSystem, collect_diagnostics_of}
use qrl_tests.Devnet.Manager.{Engine}
use qrl_tests.Devnet.Parameters.{Codecs, resolve_parameters}
use qrl_tests.Devnet.Probe.{ChainApi, probe_network}
use qrl_tests.Devnet.Starlark.{
  EnclaveReads, ResponseLine, enclave_exists, run_remote_package, services_of,
}

-- What the manager's components take from outside: `address` is the development wallet's, `running`
-- the names of the running enclaves, as the n-th question is answered, and `chain` what the node at
-- a URL answers the n-th probe.
pub record Outside : Type 0 where
  pub codecs : Codecs
  pub address : String
  pub connect : Option Fault
  pub running : ℕ → Result (List String)
  pub create : String → Option Fault
  pub reads : EnclaveReads
  pub run_package : String → String → String → Result (List ResponseLine)
  pub destroy : String → Option Fault
  pub chain : String → ℕ → ChainApi
  pub diagnostics : Result DiagnosticsSystem
  pub probe_rounds : ℕ
  pub probe_ctx_err : Fault
  pub confirm_rounds : ℕ

-- The enclave client and the diagnostics client of NewManager, and its probe. The first question
-- for the running enclaves comes before an enclave is made or destroyed, the later ones confirm.
unfoldable pub new_manager : Outside → Engine
unfolding resolve_parameters enclave_exists run_remote_package services_of probe_network
    collect_diagnostics_of
new_manager outside = record {
  render = resolve_parameters outside.codecs outside.address;
  connect = wrapped "connect to Kurtosis engine" outside.connect;
  enclave_exists = enclave_exists (outside.running 0);
  create = outside.create;
  run_remote_package = run_remote_package outside.reads.enclave_context outside.run_package;
  services = services_of outside.reads;
  destroy = outside.destroy;
  confirm = λ name attempt. enclave_exists (outside.running (attempt + 1)) name;
  probe = λ url attempt. probe_network (outside.chain url attempt) outside.address;
  collect_diagnostics =
      collect_diagnostics_of (within "connect to Kurtosis diagnostics API" outside.diagnostics);
  probe_rounds = outside.probe_rounds;
  probe_ctx_err = outside.probe_ctx_err;
  confirm_rounds = outside.confirm_rounds;
}
