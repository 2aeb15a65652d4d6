-- ===== src/Devnet/Profiles.antt =====
-- devnet/profiles.go: the built-in network profiles and the validators that they assign.
use qrl_tests.Prelude.{
  ℕ, zero, suc, ◌+◌, String, Option, none, some, List, [], ◌∷◌, ◌++◌, str_eq, leb, ltb, length,
  take, get_elem?, if◌then◌else◌,
}
use qrl_tests.Prelude.Text.{◌<>◌, quoted, trim_space}
use qrl_tests.Prelude.Int.{ℤ, pos, negsuc}
use qrl_tests.Errors.{Result, ok, fail, plain}

-- A profile is named by a text.
abbrev pub profile_single : String
profile_single = "single"

abbrev pub profile_anchored : String
profile_anchored = "anchored"

abbrev pub profile_spare_validator : String
profile_spare_validator = "spare-validator"

abbrev pub profile_duplicate_validator : String
profile_duplicate_validator = "duplicate-validator"

abbrev pub default_cl_extra_params : List String
default_cl_extra_params = "--min-sync-peers=0" ∷ "--minimum-peers-per-subnet=0" ∷ []

abbrev pub anchor_cl_extra_params : List String
anchor_cl_extra_params = default_cl_extra_params ++ "--sync-from=head" ∷ []

abbrev pub slasher_cl_extra_params : List String
slasher_cl_extra_params = default_cl_extra_params ++ "--slasher" ∷ "--subscribe-all-subnets" ∷ []

-- A nil list of parameters, `none`, differs from an empty one where the defaults are applied.
pub record ParticipantSpec : Type 0 where
  pub validator_count : ℕ
  pub el_extra_params : Option (List String)
  pub cl_extra_params : Option (List String)
  pub vc_extra_params : Option (List String)

pub record ProfileSpec : Type 0 where
  pub participants : List ParticipantSpec
  pub preregistered_validators : ℕ

abbrev pub plain_participant : ℕ → Option (List String) → ParticipantSpec
plain_participant count cl = record {
  validator_count = count;
  el_extra_params = none;
  cl_extra_params = cl;
  vc_extra_params = none;
}

-- `profileSpecs`, a map by name.
abbrev pub profile_specs : List (String × ProfileSpec)
profile_specs =
    (
      profile_single,
      record { participants = plain_participant 64 none ∷ []; preregistered_validators = 0 },
    )
    ∷ (
      profile_anchored,
      record {
        participants =
            plain_participant 32 (some anchor_cl_extra_params)
            ∷ plain_participant 32 (some ("--minimum-peers-per-subnet=0" ∷ []))
            ∷ [];
        preregistered_validators = 0;
      },
    )
    ∷ (
      profile_spare_validator,
      record { participants = plain_participant 64 none ∷ []; preregistered_validators = 65 },
    )
    ∷ (
      profile_duplicate_validator,
      record {
        participants =
            plain_participant 32 (some slasher_cl_extra_params)
            ∷ plain_participant 32 (some slasher_cl_extra_params)
            ∷ [];
        preregistered_validators = 65;
      },
    )
    ∷ []

unfoldable pub find_spec : String → List (String × ProfileSpec) → Option ProfileSpec
find_spec name [] = none
find_spec name ((key, spec) ∷ rest) = if str_eq key name then some spec else find_spec name rest

-- profileSpecs[profile]: the zero value for an unknown profile
unfoldable pub spec_of : String → ProfileSpec
unfolding find_spec
spec_of profile = elim (find_spec profile profile_specs) [
  | none ↦ record { participants = []; preregistered_validators = 0 }
  | some spec ↦ spec
]

unfoldable pub parse_profile : String → Result String
unfolding find_spec trim_space
parse_profile value =
    let trimmed = trim_space value in
    if str_eq trimmed "" then ok profile_single else elim (find_spec trimmed profile_specs) [
      | none ↦ fail (plain ("unknown development-network profile " <> quoted value))
      | some spec ↦ ok trimmed
    ]

unfoldable pub validators_before : List ParticipantSpec → ℕ
validators_before [] = 0
validators_before (participant ∷ rest) = participant.validator_count + validators_before rest

-- indices[offset] = first + offset, for each offset below the count
unfoldable pub indices_from : ℕ → ℕ → List ℕ
indices_from first zero = []
indices_from first (suc count) = first ∷ indices_from (first + 1) count

unfoldable pub validator_count_at : List ParticipantSpec → ℕ → ℕ
validator_count_at participants position = elim (get_elem? participants position) [
  | none ↦ 0
  | some participant ↦ participant.validator_count
]

unfoldable pub validators_at : ProfileSpec → ℕ → List ℕ
unfolding validators_before indices_from validator_count_at
validators_at spec position =
    if leb (length spec.participants) position
    then []
    else indices_from (validators_before (take position spec.participants))
        (validator_count_at spec.participants position)

-- profile.ParticipantValidators(position)
unfoldable pub participant_validators : String → ℤ → List ℕ
unfolding validators_at
participant_validators profile (negsuc n) = []
participant_validators profile (pos position) = validators_at (spec_of profile) position

-- The loop from the first unassigned index; `rounds` bounds its rounds.
unfoldable pub spares_from : ℕ → ℕ → ℕ → List ℕ
spares_from zero index limit = []
spares_from (suc rounds) index limit =
    let rest = spares_from rounds (index + 1) limit in if ltb index limit then index ∷ rest else []

unfoldable pub spares_of : ProfileSpec → List ℕ
unfolding validators_before spares_from
spares_of spec =
    spares_from spec.preregistered_validators (validators_before spec.participants)
      spec.preregistered_validators

-- profile.SpareValidators()
unfoldable pub spare_validators : String → List ℕ
unfolding spares_of
spare_validators profile = spares_of (spec_of profile)
