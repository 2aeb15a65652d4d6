-- ===== src/Devnet/Parameters.antt =====
-- devnet/parameters.go: the parameters that qrl-package is given; and devnet/backend.go. The encoder
-- of encoding/json, the decoder of a YAML library and the parser of image references are parameters.
use qrl_tests.Prelude.{
  ℕ, ◌+◌, ◌%◌, String, Bool, true, Option, none, some, List, [], ◌∷◌, str_eq, any, if◌then◌else◌,
}
use qrl_tests.Prelude.Text.{◌<>◌, quoted, decimal, trim_space}
use qrl_tests.Errors.{Fault, Result, ok, fail, plain, ◌>>=◌}
use qrl_tests.Devnet.Images.{Images, resolved}
use qrl_tests.Devnet.Profiles.{ParticipantSpec, ProfileSpec, spec_of, default_cl_extra_params}
use qrl_tests.Devnet.Environment.{participant_label}
use qrl_tests.Devnet.Manager.{StartOptions}

abbrev pub partition_label : String
partition_label = "qrl-tests.partition"

-- The participant of the parameters' schema.
pub record PackageParticipant : Type 0 where
  pub el_image : String
  pub el_extra_params : List String
  pub cl_image : String
  pub cl_extra_params : List String
  pub vc_image : String
  pub vc_extra_params : List String
  pub use_remote_signer : Bool
  pub remote_signer_type : String
  pub remote_signer_image : String
  pub remote_signer_auto_approve : Bool
  pub validator_count : ℕ
  pub el_extra_labels : List (String × String)
  pub cl_extra_labels : List (String × String)
  pub vc_extra_labels : List (String × String)

-- The balance of an account, by its address.
pub record NetworkParams : Type 0 where
  pub network_id : String
  pub preregistered_validators : ℕ
  pub seconds_per_slot : ℕ
  pub slots_per_epoch : ℕ
  pub execution_follow_distance : ℕ
  pub withdrawability_delay : ℕ
  pub shard_committee_period : ℕ
  pub prefunded_accounts : List (String × String)
  pub withdrawal_address : String
  pub light_kdf_enabled : Bool

pub record PackageParameters : Type 0 where
  pub participants : List PackageParticipant
  pub network_params : NetworkParams
  pub genesis_image : String

-- participantParameters: `none` for a nil list
unfoldable pub participant_parameters : Option (List String) → List String → List String
participant_parameters none defaults = defaults
participant_parameters (some configured) defaults = configured

unfoldable pub participant_labels : ℕ → List (String × String)
participant_labels index =
    (participant_label, decimal (index + 1)) ∷ (partition_label, decimal (index % 2 + 1)) ∷ []

unfoldable pub package_participant : Images → ParticipantSpec → ℕ → PackageParticipant
unfolding participant_parameters participant_labels
package_participant images configuration index =
    let labels = participant_labels index in
    record {
      el_image = images.execution;
      el_extra_params =
          participant_parameters configuration.el_extra_params
            ("--graphql" ∷ "--graphql.vhosts=*" ∷ []);
      cl_image = images.consensus;
      cl_extra_params =
          participant_parameters configuration.cl_extra_params default_cl_extra_params;
      vc_image = images.validator;
      vc_extra_params = participant_parameters configuration.vc_extra_params [];
      use_remote_signer = true;
      remote_signer_type = "clef";
      remote_signer_image = images.clef;
      remote_signer_auto_approve = true;
      validator_count = configuration.validator_count;
      el_extra_labels = labels;
      cl_extra_labels = labels;
      vc_extra_labels = labels;
    }

-- The loop over the participants, from the position `index`.
unfoldable pub package_participants : Images → List ParticipantSpec → ℕ → List PackageParticipant
unfolding package_participant
package_participants images [] index = []
package_participants images (configuration ∷ rest) index =
    package_participant images configuration index ∷ package_participants images rest (index + 1)

unfoldable pub package_parameters : String → Images → ProfileSpec → PackageParameters
unfolding package_participants
package_parameters address images spec = record {
  participants = package_participants images spec.participants 0;
  network_params = record {
    network_id = "1337";
    preregistered_validators = spec.preregistered_validators;
    seconds_per_slot = 5;
    slots_per_epoch = 8;
    execution_follow_distance = 8;
    withdrawability_delay = 2;
    shard_committee_period = 2;
    prefunded_accounts = (address, "2000000QRL") ∷ [];
    withdrawal_address = address;
    light_kdf_enabled = true;
  };
  genesis_image = images.genesis;
}

-- What the code uses of other packages: `parse` is reference.Parse, `encode` json.Marshal, `decode`
-- yaml.Unmarshal with the addresses of the prefunded accounts that it found, and `text` the text
-- of bytes.
pub record Codecs : Type 0 where
  pub parse : String → Option Fault
  pub encode : PackageParameters → Result String
  pub decode : List ℕ → Result (List String)
  pub text : List ℕ → String

module _ (codecs : Codecs) where
  unfoldable pub profile_parameters : String → StartOptions → Result String
  unfolding package_parameters spec_of resolved
  profile_parameters address options = resolved codecs.parse options.images >>= λ images.
      codecs.encode (package_parameters address images (spec_of options.profile))

  -- The invariant of a file: the development wallet is prefunded.
  unfoldable pub file_parameters : List ℕ → String → Result String
  file_parameters payload address = elim (codecs.decode payload) [
    | fail e ↦ fail (plain "parameters file must contain one YAML mapping")
    | ok accounts ↦
        if any (λ account. str_eq account address) accounts
        then ok (codecs.text payload)
        else fail (
            plain (
              "network_params.prefunded_accounts must contain development wallet "
              <> quoted address))
  ]

  -- resolveParameters: a nil slice takes the profile's parameters, an empty one does not
  unfoldable pub resolve_parameters : String → StartOptions → Result String
  unfolding profile_parameters file_parameters
  resolve_parameters address options = elim options.parameters [
    | some payload ↦ file_parameters payload address
    | none ↦ profile_parameters address options
  ]

abbrev pub backend_docker : String
backend_docker = "docker"

-- ParseBackend
unfoldable pub parse_backend : String → Result String
unfolding trim_space
parse_backend value =
    let trimmed = trim_space value in
    if str_eq trimmed ""
    then ok backend_docker
    else if str_eq trimmed backend_docker
    then ok backend_docker
    else fail (
        plain (
          "unsupported Kurtosis backend "
          <> quoted value
          <> "; only "
          <> backend_docker
          <> " is supported"))
