-- ===== src/Devnet/NetworkTests.antt =====
-- Concrete labels and chains, and the theorems about them there.
use qrl_tests.Prelude.{
  ◌+◌, none, some, List, [], ◌∷◌, ◌≡◌, ◌↔◌, refl, arith, get_elem?, ◌==◌, if◌then◌else◌,
}
use qrl_tests.Prelude.Int.{pos}
use qrl_tests.Errors.{ok, context, Sentinel}
use qrl_tests.Devnet.Profiles.{ParticipantSpec, plain_participant}
use qrl_tests.Devnet.Environment.{participant_index}
use qrl_tests.Devnet.Parameters.{PackageParticipant, package_participant, package_participants}
use qrl_tests.Devnet.Labels.{participant_index-package_participants}
use qrl_tests.Devnet.Probe.{ChainApi, probe_network}
use qrl_tests.Devnet.Advance.{IsAdvancing, IsFunded, probe_network_nil}
use qrl_tests.Devnet.Tests.{no_images_given}

abbrev two_specs : List ParticipantSpec
two_specs = plain_participant 32 none ∷ plain_participant 32 (some []) ∷ []

abbrev second : PackageParticipant
second = package_participant no_images_given (plain_participant 32 (some [])) 1

second_found : get_elem? (package_participants no_images_given two_specs 0) 1 ≡ some second
unfolding package_participants
second_found = refl

participant_index-package_participants_example :
    (participant_index "cl-2" second.el_extra_labels ≡ ok (1 + 1))
    × (participant_index "cl-2" second.cl_extra_labels ≡ ok (1 + 1))
    × (participant_index "cl-2" second.vc_extra_labels ≡ ok (1 + 1))
participant_index-package_participants_example =
    participant_index-package_participants no_images_given two_specs 1 second "cl-2" second_found
      (omega arith)

-- A chain whose second reading is later.
abbrev chain : ChainApi
chain = record {
  parse_address = λ address. none;
  dial = none;
  first_block = ok 7;
  block_number = λ attempt. if attempt == 1 then ok 8 else ok 7;
  balance = ok (pos 5);
  rounds = 3;
  ctx_err = context Sentinel.deadline_exceeded;
}

probes : probe_network chain "Q1" ≡ none
unfolding probe_network
probes = refl

probe_network_nil_example :
    (probe_network chain "Q1" ≡ none)
    ↔ ((chain.parse_address "Q1" ≡ none) × (chain.dial ≡ none) × IsAdvancing chain × IsFunded chain)
probe_network_nil_example = probe_network_nil chain "Q1"
