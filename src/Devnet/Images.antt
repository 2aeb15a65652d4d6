-- ===== src/Devnet/Images.antt =====
-- devnet/images.go: image references and their defaults. `parse` is reference.Parse of
-- github.com/distribution/reference, as the error that it answers for a text.
use qrl_tests.Prelude.{String, Option, none, some, List, [], ◌∷◌, str_eq, if◌then◌else◌}
use qrl_tests.Prelude.Text.{◌<>◌, quoted, trim_space}
use qrl_tests.Errors.{Fault, Result, ok, fail, wrapped, join_errors}

abbrev pub default_execution_image : String
default_execution_image = "local/go-qrl:devnet"

abbrev pub default_clef_image : String
default_clef_image = "local/go-qrl-clef:devnet"

abbrev pub default_consensus_image : String
default_consensus_image = "local/qrysm-beacon:devnet"

abbrev pub default_validator_image : String
default_validator_image = "local/qrysm-validator:devnet"

abbrev pub default_genesis_image : String
default_genesis_image = "local/qrl-genesis-generator:devnet"

abbrev pub default_qrysm_alltools_image : String
default_qrysm_alltools_image = "local/qrysm-alltools:devnet"

pub record Images : Type 0 where
  pub execution : String
  pub clef : String
  pub consensus : String
  pub validator : String
  pub genesis : String

-- cmp.Or on two texts
unfoldable pub or_text : String → String → String
or_text value fallback = if str_eq value "" then fallback else value

unfoldable pub normalize : String → String → String
unfolding or_text trim_space
normalize value fallback = or_text (trim_space value) fallback

module _ (parse : String → Option Fault) where
  -- The problem that `normalize` may add.
  unfoldable pub problem : String → String → Option Fault
  problem role image_reference =
      wrapped (role <> " image reference " <> quoted image_reference) (parse image_reference)

  unfoldable pub problems : Images → List (Option Fault)
  unfolding problem
  problems images =
      problem "execution" images.execution
      ∷ problem "Clef" images.clef
      ∷ problem "consensus" images.consensus
      ∷ problem "validator" images.validator
      ∷ problem "genesis" images.genesis
      ∷ []

  -- images.Resolved()
  unfoldable pub resolved : Images → Result Images
  unfolding normalize problems
  resolved images =
      let normal : Images = record {
        execution = normalize images.execution default_execution_image;
        clef = normalize images.clef default_clef_image;
        consensus = normalize images.consensus default_consensus_image;
        validator = normalize images.validator default_validator_image;
        genesis = normalize images.genesis default_genesis_image;
      } in
      elim (join_errors (problems normal)) [ none ↦ ok normal | some err ↦ fail err ]
