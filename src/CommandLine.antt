-- ===== src/CommandLine.antt =====
-- cmd/qrltest: what the commands do with their flags. The command-line library answers the flags and
-- the arguments of a command; the runner and the network are parameters.
use qrl_tests.Prelude.{
  ℕ, String, Option, none, some, List, [], ◌∷◌, is_empty, str_eq, if◌then◌else◌,
}
use qrl_tests.Prelude.Text.{◌<>◌, quoted, join_text}
use qrl_tests.Prelude.Int.{ℤ, pos, ltb_ℤ}
use qrl_tests.Errors.{Fault, Result, ok, fail, plain, within, error_of, checked, ◌>>=◌, ◌>>◌}
use qrl_tests.Devnet.Images.{Images}
use qrl_tests.Devnet.Profiles.{parse_profile}
use qrl_tests.Devnet.Parameters.{parse_backend}
use qrl_tests.Devnet.Manager.{StartOptions}
use qrl_tests.Runner.Plan.{Config}

-- A cli.Context: the flags by name, and the positional arguments. Durations are in nanoseconds.
pub record Command : Type 0 where
  pub text : String → String
  pub texts : String → List String
  pub duration : String → ℕ
  pub number : String → ℤ
  pub arguments : List String

-- rootAction, with the help as what the library answers
unfoldable pub root_action : Command → Option Fault → Option Fault
root_action command help = elim command.arguments [
  | [] ↦ help
  | first ∷ rest ↦ some (plain ("unknown command " <> quoted first))
]

-- rejectPositional
unfoldable pub reject_positional : Command → Option Fault
reject_positional command =
    if is_empty command.arguments
    then none
    else some
        (plain ("unexpected positional arguments: [" <> join_text command.arguments " " <> "]"))

unfoldable pub images_from_flags : Command → Images
images_from_flags command = record {
  execution = command.text "execution-image";
  clef = command.text "clef-image";
  consensus = command.text "consensus-image";
  validator = command.text "validator-image";
  genesis = command.text "genesis-image";
}

module _ (read_bytes : String → Result (List ℕ)) where
  -- readParametersFile: a nil slice without a file, and the bytes of the file, which may be none
  unfoldable pub read_parameters_file : Command → Result (Option (List ℕ))
  read_parameters_file command =
      let file = command.text "params-file" in
      if str_eq file ""
      then ok none
      else (within "read parameters file" (read_bytes file) >>= λ payload. ok (some payload))

  -- runnerConfig
  unfoldable pub runner_config : Command → Result Config
  unfolding read_parameters_file images_from_flags parse_backend
  runner_config command = parse_backend (command.text "backend") >>= λ backend.
      (if ltb_ℤ (command.number "max-parallel") (pos 1)
        then fail (plain "max-parallel must be at least 1")
        else (read_parameters_file command >>= λ parameters. ok (record {
          tests_dir = command.text "tests-dir";
          base_name = command.text "enclave-name";
          report_dir = command.text "report-dir";
          backend = backend;
          images = images_from_flags command;
          qrysm_alltools_image = command.text "qrysm-alltools-image";
          parameters = parameters;
          suites = command.texts "suite";
          start_timeout = command.duration "start-timeout";
          max_parallel = command.number "max-parallel";
          seed = command.number "seed";
        })))

  -- The action of laneCommand, for the commands `test` and `run`.
  unfoldable pub lane_action : String → (Config → String → Option Fault) → Command → Option Fault
  unfolding runner_config
  lane_action name action command = elim command.arguments [
    | lane ∷ [] ↦
        error_of (runner_config command >>= λ configuration. checked (action configuration lane))
    | _ ↦ some (plain (name <> " requires one lane name"))
  ]

  -- The action of `run-all`.
  unfoldable pub run_all_action : (Config → Option Fault) → Command → Option Fault
  unfolding reject_positional runner_config
  run_all_action run_all command = error_of (
      checked (reject_positional command)
      >> (runner_config command >>= λ configuration. checked (run_all configuration)))

  -- What `network start` asks of the network, beside the budget for it.
  unfoldable pub start_options : Command → Result StartOptions
  unfolding read_parameters_file images_from_flags parse_backend parse_profile
  start_options command = read_parameters_file command >>= λ parameters.
      (parse_backend (command.text "backend") >>= λ backend.
      (parse_profile (command.text "profile") >>= λ profile. ok (record {
        enclave_name = command.text "enclave-name";
        backend = backend;
        images = images_from_flags command;
        parameters = parameters;
        profile = profile;
        failure_diagnostics_dir = "";
      })))

  -- The action of `network start`; `print` answers the write of a line.
  unfoldable pub start_action :
      (ℕ → StartOptions → Option Fault) → (String → Option Fault) → Command → Option Fault
  unfolding reject_positional start_options
  start_action start print command = error_of (
      checked (reject_positional command)
      >> (start_options command >>= λ options.
          (checked (start (command.duration "timeout") options)
            >> checked (print "network ready"))))

-- The action of `network stop`.
unfoldable pub stop_action :
    (String → Option Fault) → (String → Option Fault) → Command → Option Fault
unfolding reject_positional
stop_action stop print command = error_of (
    checked (reject_positional command)
    >> (checked (stop (command.text "enclave-name")) >> checked (print "network stopped")))
