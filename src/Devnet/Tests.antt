-- ===== src/Devnet/Tests.antt =====
-- A network of one participant on an engine that answers, and the theorems about devnet there.
use qrl_tests.Prelude.Text.{atoi}
use qrl_tests.Devnet.Endings.{IsReady, stop_nil, start_ok}
use qrl_tests.Devnet.Lifecycle.{
  is_destruction, has_created, is_collection, enclave_of, start-effects,
}
use qrl_tests.Devnet.Assignment.{assignment_partition}
use qrl_tests.Prelude.Int.{pos}
use qrl_tests.Devnet.Profiles.{
  participant_validators, indices_from, spec_of, spare_validators, validators_before,
}
use qrl_tests.Devnet.Participants.{IsAscending, IsConnected, participants_from_services_lem}
use qrl_tests.Devnet.Manager.{
  Engine, StartOptions, start, settle, provision, finish_failed_start, prepare, NetworkEffect,
  retry_until, stop, await_network, start_defaults,
}
use qrl_tests.Devnet.Images.{Images, or_text}
use qrl_tests.Prelude.{
  ℕ, ◌≤◌, true, false, not, ◌&&◌, none, some, List, [], ◌∷◌, ◌++◌, ◌≡◌, refl, ◌↔◌, ◌⊎◌, All, length,
  max, concat_map, count_where, one_if, str_eq, String, if◌then◌else◌, ◌==◌,
}
use qrl_tests.Errors.{Sentinel, ok, plain, context, ok_or, is_ok}
use qrl_tests.Devnet.Environment.{
  Participant, participants_from_services, gather, update_at, Environment, with_service,
  resolve_environment, with_execution, primary, with_consensus, with_validator, participant_index,
  service_index, all_connected, sort_by_index, is_client, insert_by_index, positive_index,
}
use qrl_tests.Devnet.Services.{
  Service, label_of, port_of, public_host_port, public_endpoint, optional_public_endpoint,
  join_host_port, optional_public_host_port,
}

abbrev pub labels_of : String → List (String × String)
labels_of client_type =
    ("qrl-package.client-type", client_type) ∷ ("qrl-tests.participant", "1") ∷ []

abbrev service_of : String → List (String × ℕ) → Service
service_of client_type ports = record {
  uuid = "id";
  private_ip = "172.16.0.2";
  public_ip = "127.0.0.1";
  public_ports = ports;
  labels = labels_of client_type;
}

abbrev two_services : List (String × Service)
two_services =
    ("cl-1", service_of "beacon" (("http", 3500) ∷ []))
    ∷ ("el-1", service_of "execution" (("rpc", 8545) ∷ ("ws", 8546) ∷ []))
    ∷ []

abbrev pub no_images_given : Images
no_images_given = record { execution = ""; clef = ""; consensus = ""; validator = ""; genesis = "" }

-- An engine whose second probe is answered, and that frees an enclave's place at once.
abbrev engine : Engine
engine = record {
  render = λ options. ok "{}";
  connect = none;
  enclave_exists = λ name. ok false;
  create = λ name. none;
  run_remote_package = λ name locator parameters. none;
  services = λ name. ok two_services;
  destroy = λ name. none;
  confirm = λ name attempt. ok false;
  probe = λ url attempt. if attempt == 1 then none else some (plain "no block yet");
  collect_diagnostics = λ name dir. none;
  probe_rounds = 3;
  probe_ctx_err = context Sentinel.deadline_exceeded;
  confirm_rounds = 3;
}

-- The same engine, with a package run that fails.
abbrev broken_engine : Engine
broken_engine = record engine {
  run_remote_package = λ name locator parameters. some (plain "out of disk");
}

abbrev pub options : StartOptions
options = record {
  enclave_name = "";
  backend = "";
  images = no_images_given;
  parameters = none;
  profile = "";
  failure_diagnostics_dir = "reports/diagnostics";
}

broken_effects :
    (start broken_engine options).1
    ≡ NetworkEffect.create_enclave "go-qrl-devnet"
      ∷ NetworkEffect.run_package "go-qrl-devnet"
      ∷ NetworkEffect.diagnose_enclave "go-qrl-devnet" "reports/diagnostics"
      ∷ NetworkEffect.destroy_enclave "go-qrl-devnet"
      ∷ []
unfolding start settle provision finish_failed_start prepare or_text
broken_effects = refl

abbrev pub participants : List Participant
participants = ok_or [] (participants_from_services two_services)

resolved_two : participants_from_services two_services ≡ ok participants
unfolding participants_from_services update_at with_service with_execution with_consensus
    with_validator participant_index service_index all_connected sort_by_index label_of port_of
    public_host_port public_endpoint optional_public_endpoint optional_public_host_port
    join_host_port is_client atoi insert_by_index positive_index gather
resolved_two = refl

participants_from_services_lem_example : IsAscending participants × All IsConnected participants
participants_from_services_lem_example =
    participants_from_services_lem two_services participants resolved_two

assignment_partition_example :
    concat_map
        (λ i. participant_validators "duplicate-validator" (pos i))
        (indices_from 0 (length (spec_of "duplicate-validator").participants))
      ++ spare_validators "duplicate-validator"
    ≡ indices_from 0 (
        max
          (validators_before (spec_of "duplicate-validator").participants)
          (spec_of "duplicate-validator").preregistered_validators)
assignment_partition_example = assignment_partition "duplicate-validator"

start-effects_example :
    (count_where is_destruction (start broken_engine options).1
      ≡ one_if (
          has_created broken_engine (start_defaults options)
          && not (is_ok (start broken_engine options).0)))
    × (count_where is_collection (start broken_engine options).1
        ≡ one_if (
            has_created broken_engine (start_defaults options)
            && not (is_ok (start broken_engine options).0)
            && not (str_eq options.failure_diagnostics_dir "")))
    × All
        (λ e. enclave_of e ≡ (start_defaults options).enclave_name)
        (start broken_engine options).1
start-effects_example = start-effects broken_engine options

stop_nil_example : ((stop engine "go-qrl-devnet").0 ≡ none) ↔ (
    (engine.connect ≡ none)
    × ((engine.enclave_exists "go-qrl-devnet" ≡ ok false)
        ⊎ ((engine.enclave_exists "go-qrl-devnet" ≡ ok true)
            × (engine.destroy "go-qrl-devnet" ≡ none)
            × ((n : ℕ) × (n ≤ engine.confirm_rounds)
                × (engine.confirm "go-qrl-devnet" n ≡ ok false)))))
stop_nil_example = stop_nil engine "go-qrl-devnet"

abbrev network : Environment
network = record { enclave_name = "go-qrl-devnet"; backend = "docker"; participants = participants }

started_network : (start engine options).0 ≡ ok network
unfolding start prepare provision settle await_network retry_until resolve_environment primary
    or_text participants_from_services update_at with_service with_execution with_consensus
    with_validator participant_index service_index all_connected sort_by_index label_of port_of
    public_host_port public_endpoint optional_public_endpoint optional_public_host_port
    join_host_port is_client atoi insert_by_index positive_index gather
started_network = refl

start_ok_example : IsReady engine (start_defaults options) network
start_ok_example = start_ok engine options network started_network
