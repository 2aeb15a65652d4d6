-- ===== src/Devnet/Starlark.antt =====
-- devnet/internal/kurtosis/enclave.go: how the output of a Starlark run is read, and the scripts that
-- stop and start services; and the two operations of devnet/manager.go that use them.
use qrl_tests.Prelude.Keys.{has_key}
use qrl_tests.Prelude.{
  ℕ, String, Bool, true, false, Option, none, some, List, [], ◌∷◌, is_empty, if◌then◌else◌,
}
use qrl_tests.Prelude.Text.{◌<>◌, quoted, join_text}
use qrl_tests.Errors.{Fault, Result, ok, fail, plain, join_errors, wrapped, ◌>>=◌, within}
use qrl_tests.Devnet.Services.{Service}

-- A StarlarkError, by what its getters answer: the message of each kind of detail.
pub record StarlarkError : Type 0 where
  pub interpretation : Option String
  pub validation : Option String
  pub execution : Option String

-- A line of the response, by what its getters answer; `finished` tells whether the run succeeded.
pub record ResponseLine : Type 0 where
  pub error : Option StarlarkError
  pub finished : Option Bool

unfoldable pub starlark_error : StarlarkError → Fault
starlark_error response_err = elim response_err.interpretation [
  | some message ↦ plain ("Kurtosis Starlark interpretation failed: " <> message)
  | none ↦ elim response_err.validation [
    | some message ↦ plain ("Kurtosis Starlark validation failed: " <> message)
    | none ↦ elim response_err.execution [
      | some message ↦ plain ("Kurtosis Starlark execution failed: " <> message)
      | none ↦ plain "Kurtosis Starlark run failed with an unknown structured error"
    ]
  ]
]

-- The error that has been met, and `text` if none has.
abbrev pub met_or : Option Fault → String → Fault
met_or none text = plain text
met_or (some run_err) text = run_err

-- The errors met so far, with that of one more line.
unfoldable pub with_line_error : Option Fault → ResponseLine → Option Fault
unfolding starlark_error
with_line_error run_err line = elim line.error [
  | none ↦ run_err
  | some response_err ↦ join_errors (run_err ∷ some (starlark_error response_err) ∷ [])
]

-- The loop of consumeStarlarkCompletion, on what the stream sends until it closes.
unfoldable pub consume_from : Option Fault → List ResponseLine → Option Fault
unfolding with_line_error
consume_from run_err [] =
    some (met_or run_err "Kurtosis Starlark response stream closed without a terminal event")
consume_from run_err (line ∷ rest) =
    let met = with_line_error run_err line in
    let later = consume_from met rest in
    elim line.finished [
      | none ↦ later
      | some true ↦ none
      | some false ↦ some (met_or met "Kurtosis Starlark run failed without a structured error")
    ]

unfoldable pub consume_starlark_completion : List ResponseLine → Option Fault
unfolding consume_from
consume_starlark_completion stream = consume_from none stream

-- serviceInstructionScript
unfoldable pub instruction_lines : String → List String → String
instruction_lines instruction [] = ""
instruction_lines instruction (name ∷ rest) =
    "    plan."
    <> instruction
    <> "(name="
    <> quoted name
    <> ")\n"
    <> instruction_lines instruction rest

unfoldable pub service_instruction_script : String → List String → String
unfolding instruction_lines
service_instruction_script instruction names =
    "def run(plan):\n" <> instruction_lines instruction names

-- What the engine answers for an enclave: whether it is found, and the output of a script that runs
-- in it.
pub record ScriptEngine : Type 0 where
  pub connect : Option Fault
  pub enclave_context : String → Option Fault
  pub run_script : String → String → Result (List ResponseLine)

unfoldable pub run_service_instruction : ScriptEngine → String → String → List String → Option Fault
unfolding service_instruction_script consume_starlark_completion
run_service_instruction engine enclave_name instruction names =
    if is_empty names then none else elim (engine.enclave_context enclave_name) [
      | some e ↦ some e
      | none ↦
          elim (engine.run_script enclave_name (service_instruction_script instruction names)) [
            | fail e ↦ some e
            | ok stream ↦ consume_starlark_completion stream
          ]
    ]

-- The verb `%v` on a list of texts.
abbrev pub listed : List String → String
listed names = "[" <> join_text names " " <> "]"

-- manager.StopServices
unfoldable pub stop_services : ScriptEngine → String → List String → Option Fault
unfolding run_service_instruction
stop_services engine name services = elim engine.connect [
  | some e ↦ some e
  | none ↦
      wrapped ("stop services " <> listed services)
        (run_service_instruction engine name "stop_service" services)
]

-- manager.StartServices
unfoldable pub start_services : ScriptEngine → String → List String → Option Fault
unfolding run_service_instruction
start_services engine name services = elim engine.connect [
  | some e ↦ some e
  | none ↦
      wrapped ("start services " <> listed services)
        (run_service_instruction engine name "start_service" services)
]

-- A PortSpec of the SDK, by what its getters answer.
pub record PortSpec : Type 0 where
  pub number : ℕ

-- What the SDK's context of a service answers.
pub record ServiceContext : Type 0 where
  pub service_uuid : String
  pub private_ip_address : String
  pub maybe_public_ip_address : String
  pub public_ports : List (String × PortSpec)
  pub labels : List (String × String)

unfoldable pub port_numbers : List (String × PortSpec) → List (String × ℕ)
port_numbers [] = []
port_numbers ((id, port) ∷ rest) = (id, port.number) ∷ port_numbers rest

unfoldable pub new_service : ServiceContext → Service
unfolding port_numbers
new_service source = record {
  uuid = source.service_uuid;
  private_ip = source.private_ip_address;
  public_ip = source.maybe_public_ip_address;
  public_ports = port_numbers source.public_ports;
  labels = source.labels;
}

unfoldable pub each_service : List (String × ServiceContext) → List (String × Service)
unfolding new_service
each_service [] = []
each_service ((name, context) ∷ rest) = (name, new_service context) ∷ each_service rest

-- The reads behind client.Services: the context of an enclave, its services by name, and the
-- contexts of the wanted ones.
pub record EnclaveReads : Type 0 where
  pub enclave_context : String → Option Fault
  pub get_services : String → Result (List String)
  pub service_contexts : String → List String → Result (List (String × ServiceContext))

-- client.Services
unfoldable pub services_of : EnclaveReads → String → Result (List (String × Service))
unfolding each_service
services_of reads enclave_name = elim (reads.enclave_context enclave_name) [
  | some e ↦ fail e
  | none ↦ reads.get_services enclave_name >>= λ wanted.
      (reads.service_contexts enclave_name wanted >>= λ contexts. ok (each_service contexts))
]

-- client.RunRemotePackage, for the output that the SDK streams. The configuration holds only the
-- parameters.
unfoldable pub run_remote_package :
    (String → Option Fault)
    → (String → String → String → Result (List ResponseLine))
    → String
    → String
    → String
    → Option Fault
unfolding consume_starlark_completion
run_remote_package enclave_context run enclave_name locator serialized_params =
    elim (enclave_context enclave_name) [
      | some e ↦ some e
      | none ↦ elim (run enclave_name locator serialized_params) [
        | fail e ↦ some e
        | ok stream ↦ consume_starlark_completion stream
      ]
    ]

-- client.EnclaveExists, for the names of the running enclaves
unfoldable pub enclave_exists : Result (List String) → String → Result Bool
unfolding has_key
enclave_exists running name =
    within "list running Kurtosis enclaves" running >>= λ names. ok (has_key name names)
