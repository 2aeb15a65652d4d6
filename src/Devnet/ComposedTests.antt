-- ===== src/Devnet/ComposedTests.antt =====
-- A network that is started with the manager's own components, and the theorem about it there.
use qrl_tests.Prelude.Text.{atoi}
use qrl_tests.Devnet.Services.{
  label_of, port_of, public_host_port, public_endpoint, optional_public_endpoint,
  optional_public_host_port, join_host_port,
}
use qrl_tests.Prelude.{ℕ, ◌+◌, String, true, none, some, List, [], ◌∷◌, ◌≡◌, refl, map}
use qrl_tests.Prelude.Int.{pos}
use qrl_tests.Errors.{ok, fail, plain, context, Sentinel, join_errors}
use qrl_tests.Devnet.Images.{or_text}
use qrl_tests.Devnet.Environment.{
  Environment, resolve_environment, primary, participants_from_services, update_at, with_service,
  with_execution, with_consensus, with_validator, participant_index, service_index, all_connected,
  sort_by_index, is_client, insert_by_index, positive_index, gather,
}
use qrl_tests.Devnet.Manager.{
  start, start_defaults, prepare, provision, settle, await_network, retry_until,
}
use qrl_tests.Devnet.Starlark.{ServiceContext, EnclaveReads}
use qrl_tests.Devnet.Probe.{ChainApi}
use qrl_tests.Devnet.Network.{Outside, new_manager}
use qrl_tests.Devnet.Composed.{HasRun, IsLive, start-IsLive}
use qrl_tests.Devnet.Tests.{participants, options, labels_of}

abbrev context_of : String → List (String × ℕ) → ServiceContext
context_of client_type ports = record {
  service_uuid = "id";
  private_ip_address = "172.16.0.2";
  maybe_public_ip_address = "127.0.0.1";
  public_ports = map (λ port. (port.0, record { number = port.1 })) ports;
  labels = labels_of client_type;
}

abbrev reads : EnclaveReads
reads = record {
  enclave_context = λ name. none;
  get_services = λ name. ok ("cl-1" ∷ "el-1" ∷ []);
  service_contexts = λ name wanted. ok (
      ("cl-1", context_of "beacon" (("http", 3500) ∷ []))
      ∷ ("el-1", context_of "execution" (("rpc", 8545) ∷ ("ws", 8546) ∷ []))
      ∷ []);
}

-- A chain that has a block more from the second probe on.
abbrev chain_at : String → ℕ → ChainApi
chain_at url attempt = record {
  parse_address = λ address. none;
  dial = none;
  first_block = ok 7;
  block_number = λ reading. ok (7 + attempt);
  balance = ok (pos 5);
  rounds = 2;
  ctx_err = context Sentinel.deadline_exceeded;
}

abbrev outside : Outside
outside = record {
  codecs = record {
    parse = λ image_reference. none;
    encode = λ parameters. ok "{}";
    decode = λ payload. fail (plain "no mapping");
    text = λ payload. "";
  };
  address = "Q1";
  connect = none;
  running = λ question. ok [];
  create = λ name. none;
  reads = reads;
  run_package = λ name locator parameters. ok (record { error = none; finished = some true } ∷ []);
  destroy = λ name. none;
  chain = chain_at;
  diagnostics = fail (plain "no client");
  probe_rounds = 3;
  probe_ctx_err = context Sentinel.deadline_exceeded;
  confirm_rounds = 3;
}

abbrev live_network : Environment
live_network = record {
  enclave_name = "go-qrl-devnet";
  backend = "docker";
  participants = participants;
}

started_outside : (start (new_manager outside) options).0 ≡ ok live_network
unfolding new_manager start prepare provision settle await_network retry_until resolve_environment
    primary or_text participants_from_services update_at with_service with_execution with_consensus
    with_validator participant_index service_index all_connected sort_by_index label_of port_of
    public_host_port public_endpoint optional_public_endpoint optional_public_host_port
    join_host_port is_client atoi insert_by_index positive_index gather join_errors
started_outside = refl

start-IsLive_example : HasRun outside (start_defaults options) × IsLive outside live_network
start-IsLive_example = start-IsLive outside options live_network started_outside
