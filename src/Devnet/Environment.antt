-- ===== src/Devnet/Environment.antt =====
-- devnet/environment.go: from the services of an enclave to the participants of a network.
use qrl_tests.Prelude.{
  ℕ, String, Bool, true, false, ◌||◌, Option, none, some, List, [], ◌∷◌, str_eq, leb, ltb, ◌==◌,
  is_empty, if◌then◌else◌,
}
use qrl_tests.Prelude.Text.{◌<>◌, quoted, decimal, atoi}
use qrl_tests.Prelude.FilePaths.{split_at_code}
use qrl_tests.Prelude.Int.{ℤ, pos, negsuc}
use qrl_tests.Errors.{Result, ok, fail, plain, ◌>>=◌, within}
use qrl_tests.Devnet.Services.{
  Service, label_of, public_endpoint, optional_public_endpoint, optional_public_host_port,
}

pub record ServiceInfo : Type 0 where
  pub name : String
  pub id : String
  pub private_ip : String

pub record ExecutionService : Type 0 where
  pub info : ServiceInfo
  pub rpc_url : String
  pub graphql_url : String
  pub web_socket_url : String
  pub engine_url : String

pub record ConsensusService : Type 0 where
  pub info : ServiceInfo
  pub url : String
  pub grpc : String
  pub metrics_url : String

pub record ValidatorService : Type 0 where
  pub info : ServiceInfo
  pub url : String
  pub metrics_url : String

-- Indices are at least 1, so an index is a natural number.
pub record Participant : Type 0 where
  pub index : ℕ
  pub execution : ExecutionService
  pub consensus : ConsensusService
  pub validator : ValidatorService

pub record Environment : Type 0 where
  pub enclave_name : String
  pub backend : String
  pub participants : List Participant

-- environment.Primary()
unfoldable pub first_participant : List Participant → Result Participant
first_participant [] = fail (plain "environment has no participants")
first_participant (participant ∷ rest) = ok participant

unfoldable pub primary : Environment → Result Participant
unfolding first_participant
primary environment = first_participant environment.participants

abbrev pub no_info : ServiceInfo
no_info = record { name = ""; id = ""; private_ip = "" }

abbrev pub new_participant : ℕ → Participant
new_participant index = record {
  index = index;
  execution = record {
    info = no_info;
    rpc_url = "";
    graphql_url = "";
    web_socket_url = "";
    engine_url = "";
  };
  consensus = record { info = no_info; url = ""; grpc = ""; metrics_url = "" };
  validator = record { info = no_info; url = ""; metrics_url = "" };
}

abbrev pub client_type_label : String
client_type_label = "qrl-package.client-type"

abbrev pub participant_label : String
participant_label = "qrl-tests.participant"

-- The index that a text holds, if it holds one of at least 1.
unfoldable pub positive_index : Option ℤ → Option ℕ
positive_index none = none
positive_index (some (negsuc n)) = none
positive_index (some (pos n)) = if ltb n 1 then none else some n

unfoldable pub index_in : String → List String → Result ℕ
unfolding positive_index
index_in name [] =
    fail (plain ("qrl-package service " <> quoted name <> " has no participant index"))
index_in name (first ∷ []) =
    fail (plain ("qrl-package service " <> quoted name <> " has no participant index"))
index_in name (first ∷ second ∷ rest) = elim (positive_index (atoi second)) [
  | none ↦ fail (plain ("qrl-package service " <> quoted name <> " has invalid participant index"))
  | some index ↦ ok index
]

unfoldable pub service_index : String → Result ℕ
unfolding index_in
service_index name = index_in name (split_at_code b'-' name)

unfoldable pub participant_index : String → List (String × String) → Result ℕ
participant_index name labels =
    let value = label_of participant_label labels in
    if str_eq value "" then service_index name else elim (positive_index (atoi value)) [
      | none ↦ fail (
          plain (
            "qrl-package service "
            <> quoted name
            <> " has invalid participant label "
            <> quoted value))
      | some index ↦ ok index
    ]

unfoldable pub with_execution : String → ServiceInfo → Service → Participant → Result Participant
with_execution name info service participant =
    within ("execution service " <> quoted name) (public_endpoint service "rpc" "http")
    >>= λ rpc_url.
        (within ("execution service " <> quoted name) (public_endpoint service "ws" "ws")
          >>= λ web_socket_url. ok (record participant {
            execution = record {
              info = info;
              rpc_url = rpc_url;
              graphql_url = rpc_url <> "/graphql";
              web_socket_url = web_socket_url;
              engine_url = optional_public_endpoint service "engine-rpc" "http";
            };
          }))

unfoldable pub with_consensus : String → ServiceInfo → Service → Participant → Result Participant
with_consensus name info service participant =
    within ("consensus service " <> quoted name) (public_endpoint service "http" "http") >>= λ url.
    ok (record participant {
      consensus = record {
        info = info;
        url = url;
        grpc = optional_public_host_port service "rpc";
        metrics_url = optional_public_endpoint service "metrics" "http";
      };
    })

unfoldable pub with_validator : ServiceInfo → Service → Participant → Participant
with_validator info service participant = record participant {
  validator = record {
    info = info;
    url = optional_public_endpoint service "http-validator" "http";
    metrics_url = optional_public_endpoint service "metrics" "http";
  };
}

-- The switch on the client type.
unfoldable pub with_service : String → String → Service → Participant → Result Participant
with_service client_type name service participant =
    let info : ServiceInfo = record {
      name = name;
      id = service.uuid;
      private_ip = service.private_ip;
    } in
    if str_eq client_type "execution"
    then with_execution name info service participant
    else if str_eq client_type "beacon"
    then with_consensus name info service participant
    else if str_eq client_type "validator"
    then ok (with_validator info service participant)
    else ok participant

-- byIndex[index], made new if it is missing, and what the service changes of it.
unfoldable pub update_at :
    ℕ → (Participant → Result Participant) → List Participant → Result (List Participant)
update_at index change [] = change (new_participant index) >>= λ made. ok (made ∷ [])
update_at index change (participant ∷ rest) =
    let later = update_at index change rest in
    if participant.index == index
    then (change participant >>= λ changed. ok (changed ∷ rest))
    else (later >>= λ others. ok (participant ∷ others))

unfoldable pub is_client : String → Bool
is_client client_type =
    str_eq client_type "execution" || str_eq client_type "beacon" || str_eq client_type "validator"

-- The loop over the services, in the order in which the map is walked.
unfoldable pub gather : List Participant → List (String × Service) → Result (List Participant)
gather by_index [] = ok by_index
gather by_index ((name, service) ∷ rest) =
    let client_type = label_of client_type_label service.labels in
    elim (is_client client_type) [
      | false ↦ gather by_index rest
      | true ↦ participant_index name service.labels >>= λ index.
          (update_at index (with_service client_type name service) by_index >>= λ updated.
          gather updated rest)
    ]

-- The loop that refuses a participant with no execution or consensus endpoint.
unfoldable pub all_connected : List Participant → Result (List Participant)
all_connected [] = ok []
all_connected (participant ∷ rest) =
    let others = all_connected rest in
    if str_eq participant.execution.rpc_url "" || str_eq participant.consensus.url ""
    then fail (
        plain (
          "participant "
          <> decimal participant.index
          <> " is missing an execution or consensus endpoint"))
    else (others >>= λ checked. ok (participant ∷ checked))

-- slices.SortFunc by index: the indices of a map's entries differ, so every sort gives this one.
unfoldable pub insert_by_index : Participant → List Participant → List Participant
insert_by_index participant [] = participant ∷ []
insert_by_index participant (other ∷ rest) =
    let later = insert_by_index participant rest in
    if leb participant.index other.index then participant ∷ other ∷ rest else other ∷ later

unfoldable pub sort_by_index : List Participant → List Participant
unfolding insert_by_index
sort_by_index [] = []
sort_by_index (participant ∷ rest) = insert_by_index participant (sort_by_index rest)

unfoldable pub participants_from_services : List (String × Service) → Result (List Participant)
participants_from_services services = gather [] services >>= λ by_index.
    (if is_empty by_index
      then fail (plain "no qrl-package participants found")
      else (all_connected by_index >>= λ participants. ok (sort_by_index participants)))

-- resolveEnvironment, with the answer of the client
unfoldable pub resolve_environment :
    (String → Result (List (String × Service))) → String → Result Environment
resolve_environment services_of name = services_of name >>= λ services.
    (participants_from_services services >>= λ participants.
    ok (record { enclave_name = name; backend = ""; participants = participants }))
