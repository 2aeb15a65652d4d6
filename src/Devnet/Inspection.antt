-- ===== src/Devnet/Inspection.antt =====
-- devnet/internal/kurtosis/diagnostics.go: the metadata of an enclave and of its services.
use qrl_tests.Prelude.{
  ℕ, String, Bool, ◌&&◌, ◌||◌, not, Option, none, some, List, [], ◌∷◌, map, str_eq, ◌==◌, is_some,
  is_empty, if◌then◌else◌,
}
use qrl_tests.Prelude.Text.{◌<>◌, quoted, decimal, lower_text, trim_prefix}
use qrl_tests.Prelude.Order.{less_text, sorted}
use qrl_tests.Errors.{Fault, Result, ok, fail, plain, wrapped, wrap, join_errors, error_of}
use qrl_tests.Devnet.Services.{join_host_port}

pub record ServiceIdentity : Type 0 where
  pub name : String
  pub uuid : String
  pub status : String
  pub ports : List String

-- A creation time is a number of nanoseconds; `none` is the zero time.
pub record EnclaveInspection : Type 0 where
  pub name : String
  pub uuid : String
  pub status : String
  pub mode : String
  pub creation_time : Option ℕ
  pub services : List ServiceIdentity

-- What the engine's messages answer through their getters; an enumeration answers its name.
pub record ServiceIdentifiers : Type 0 where
  pub name : String
  pub service_uuid : String

pub record Port : Type 0 where
  pub number : ℕ
  pub transport_protocol : String
  pub maybe_application_protocol : String

-- `private_ports` and `maybe_public_ports` are maps, in the order of an iteration.
pub record CurrentService : Type 0 where
  pub name : String
  pub service_uuid : String
  pub container_status : String
  pub private_ports : List (String × Port)
  pub maybe_public_ip_addr : String
  pub maybe_public_ports : List (String × Port)

pub record HostMachineInfo : Type 0 where
  pub ip_on_host_machine : String
  pub grpc_port_on_host_machine : ℕ

pub record EnclaveInfo : Type 0 where
  pub name : String
  pub enclave_uuid : String
  pub containers_status : String
  pub mode : String
  pub creation_time : Option ℕ
  pub api_container_status : String
  pub api_container_host_machine_info : Option HostMachineInfo

unfoldable pub find_port : String → List (String × Port) → Option Port
find_port id [] = none
find_port id ((k, port) ∷ rest) = if str_eq k id then some port else find_port id rest

abbrev pub scheme_of : String → String
scheme_of protocol = if str_eq protocol "" then "" else protocol <> "://"

-- The public side of a binding, if the port has one and the service a public address.
unfoldable pub public_side : String → Port → Option Port → String
public_side public_ip private none = ""
public_side public_ip private (some public) =
    if str_eq public_ip ""
    then ""
    else " -> "
      <> scheme_of private.maybe_application_protocol
      <> public_ip
      <> ":"
      <> decimal public.number

unfoldable pub port_binding : CurrentService → String × Port → String
unfolding public_side find_port lower_text
port_binding service (id, private) =
    id
    <> ": "
    <> decimal private.number
    <> "/"
    <> lower_text private.transport_protocol
    <> public_side service.maybe_public_ip_addr private (find_port id service.maybe_public_ports)

-- servicePortBindings. The keys of a map differ, so the ports sorted by them are the ports of the
-- sorted keys.
unfoldable pub service_port_bindings : CurrentService → List String
unfolding port_binding sorted
service_port_bindings service =
    if is_empty service.private_ports
    then "<none>" ∷ []
    else map (port_binding service) (sorted (λ a b. less_text a.0 b.0) service.private_ports)

-- servicesByUUID[identity.UUID] = identity
unfoldable pub remove_identity : String → List ServiceIdentity → List ServiceIdentity
remove_identity uuid [] = []
remove_identity uuid (identity ∷ rest) =
    let kept = remove_identity uuid rest in
    if str_eq identity.uuid uuid then kept else identity ∷ kept

unfoldable pub put_identity : ServiceIdentity → List ServiceIdentity → List ServiceIdentity
unfolding remove_identity
put_identity identity by_uuid = identity ∷ remove_identity identity.uuid by_uuid

unfoldable pub put_all : List ServiceIdentity → List ServiceIdentity → List ServiceIdentity
unfolding put_identity
put_all [] by_uuid = by_uuid
put_all (identity ∷ rest) by_uuid = put_all rest (put_identity identity by_uuid)

abbrev pub unmatched : String → ServiceIdentifiers → ServiceIdentity
unmatched unmatched_status identifier = record {
  name = identifier.name;
  uuid = identifier.service_uuid;
  status = unmatched_status;
  ports = "<unknown>" ∷ [];
}

unfoldable pub matched : CurrentService → ServiceIdentity
matched service = record {
  name = service.name;
  uuid = service.service_uuid;
  status = service.container_status;
  ports = service_port_bindings service;
}

unfoldable pub identity_less : ServiceIdentity → ServiceIdentity → Bool
identity_less a b =
    less_text a.name b.name || (not (less_text b.name a.name) && less_text a.uuid b.uuid)

abbrev pub unmatched_status : Bool → String
unmatched_status current_complete = if current_complete then "HISTORICAL" else "UNKNOWN"

unfoldable pub merge_service_identities :
    List ServiceIdentifiers → List CurrentService → Bool → List ServiceIdentity
unfolding put_all sorted matched
merge_service_identities identifiers current current_complete = sorted identity_less (
    put_all (map matched current)
      (put_all (map (unmatched (unmatched_status current_complete)) identifiers) []))

-- What the surroundings answer: the engine, and the API container behind an address. A response that
-- comes with an error is nil, and its getters answer nothing.
pub record InspectionApi : Type 0 where
  pub enclaves : Result (List EnclaveInfo)
  pub connect : String → Option Fault
  pub identifiers : String → Result (List ServiceIdentifiers)
  pub services : String → Result (List CurrentService)

abbrev pub or_nothing {ℓ} : {A : Type ℓ} → Result (List A) → List A
or_nothing (ok found) = found
or_nothing (fail e) = []

unfoldable pub services_at : InspectionApi → String → List ServiceIdentity × Option Fault
unfolding merge_service_identities
services_at api address = elim (api.connect address) [
  | some e ↦ ([], some (wrap "connect to Kurtosis API container" e))
  | none ↦ (
    merge_service_identities (or_nothing (api.identifiers address))
        (or_nothing (api.services address)) (not (is_some (error_of (api.services address)))),
    join_errors (
        wrapped "get Kurtosis service identifiers" (error_of (api.identifiers address))
        ∷ wrapped "get current Kurtosis services" (error_of (api.services address))
        ∷ []),
  )
]

unfoldable pub inspect_services : InspectionApi → EnclaveInfo → List ServiceIdentity × Option Fault
unfolding services_at
inspect_services api info = elim info.api_container_host_machine_info [
  | none ↦ ([], some (plain "Kurtosis enclave has no API container endpoint"))
  | some host ↦
      if str_eq host.ip_on_host_machine "" || host.grpc_port_on_host_machine == 0
      then ([], some (plain "Kurtosis enclave has no API container endpoint"))
      else services_at api
          (join_host_port host.ip_on_host_machine (decimal host.grpc_port_on_host_machine))
]

abbrev pub creation_time_err : Option ℕ → Option Fault
creation_time_err none = some (plain "Kurtosis enclave has no creation time")
creation_time_err (some created) = none

-- The name of EnclaveAPIContainerStatus_RUNNING.
abbrev pub api_running : String
api_running = "EnclaveAPIContainerStatus_RUNNING"

unfoldable pub inspect_enclave : InspectionApi → EnclaveInfo → EnclaveInspection × Option Fault
unfolding inspect_services trim_prefix
inspect_enclave api info =
    let inspection : EnclaveInspection = record {
      name = info.name;
      uuid = info.enclave_uuid;
      status = trim_prefix info.containers_status "EnclaveContainersStatus_";
      mode = info.mode;
      creation_time = info.creation_time;
      services = [];
    } in
    let creation_err = creation_time_err info.creation_time in
    let found = inspect_services api info in
    if str_eq info.api_container_status api_running
    then (record inspection { services = found.0 }, join_errors (creation_err ∷ found.1 ∷ []))
    else (
      inspection,
      join_errors (
          creation_err
          ∷ some (
              plain (
                "Kurtosis enclave API container is not running: "
                <> trim_prefix info.api_container_status "EnclaveAPIContainerStatus_"))
          ∷ []),
    )

unfoldable pub find_enclave : String → List EnclaveInfo → Option EnclaveInfo
find_enclave name [] = none
find_enclave name (info ∷ rest) =
    if str_eq info.name name then some info else find_enclave name rest

abbrev pub no_inspection : EnclaveInspection
no_inspection = record {
  name = "";
  uuid = "";
  status = "";
  mode = "";
  creation_time = none;
  services = [];
}

-- client.Inspect, which may answer metadata beside an error
unfoldable pub inspect_named : InspectionApi → String → EnclaveInspection × Option Fault
unfolding inspect_enclave find_enclave
inspect_named api enclave_name = elim api.enclaves [
  | fail e ↦ (no_inspection, some (wrap "list running Kurtosis enclaves" e))
  | ok infos ↦ elim (find_enclave enclave_name infos) [
    | none ↦
        (no_inspection, some (plain ("no running Kurtosis enclave named " <> quoted enclave_name)))
    | some info ↦ inspect_enclave api info
  ]
]
