-- ===== src/Devnet/Labels.antt =====
-- The label that a participant is given is the index that is read back from its services.
use qrl_tests.Prelude.{
  ltb, ℕ, zero, suc, ◌+◌, ◌<◌, ◌^◌, String, false, some, List, [], ◌∷◌, ◌≡◌, refl, arith, get_elem?,
  ap, sym, ◌∙◌,
}
use qrl_tests.Prelude.Decimals.{atoi-decimal, decimal_nonempty}
use qrl_tests.Errors.{ok}
use qrl_tests.Devnet.Services.{label_of}
use qrl_tests.Devnet.Images.{Images}
use qrl_tests.Devnet.Profiles.{ParticipantSpec}
use qrl_tests.Devnet.Environment.{participant_index, positive_index}
use qrl_tests.Devnet.Parameters.{
  PackageParticipant, participant_labels, package_participant, package_participants,
}

at_least_one : (index : ℕ) → ltb (index + 1) 1 ≡ false
at_least_one index = ground arith

participant_index-participant_labels :
    (name : String) (index : ℕ)
    → index + 1 < 2 ^ 63
    → participant_index name (participant_labels index) ≡ ok (index + 1)
unfolding participant_index participant_labels label_of positive_index
participant_index-participant_labels name index h =
    rw (decimal_nonempty (index + 1), atoi-decimal (index + 1) h, at_least_one index) refl

get_elem?-package_participants :
    (images : Images) (specs : List ParticipantSpec) (first i : ℕ)
    (participant : PackageParticipant)
    → get_elem? (package_participants images specs first) i ≡ some participant
    → (participant.el_extra_labels ≡ participant_labels (first + i))
      × (participant.cl_extra_labels ≡ participant_labels (first + i))
      × (participant.vc_extra_labels ≡ participant_labels (first + i))
unfolding package_participants package_participant
get_elem?-package_participants images [] first i participant h = absurd cc
get_elem?-package_participants images (s ∷ specs) first zero participant h =
    let same : package_participant images s first ≡ participant = cc in
    let at : participant_labels first ≡ participant_labels (first + 0) =
      ap participant_labels (omega arith) in
    (
      ap (λ p. p.el_extra_labels) (sym same) ∙ at,
      ap (λ p. p.cl_extra_labels) (sym same) ∙ at,
      ap (λ p. p.vc_extra_labels) (sym same) ∙ at,
    )
get_elem?-package_participants images (s ∷ specs) first (suc i) participant h =
    let later = get_elem?-package_participants images specs (first + 1) i participant h in
    let at : participant_labels (first + 1 + i) ≡ participant_labels (first + suc i) =
      ap participant_labels (omega arith) in
    (later.0 ∙ at, later.1 ∙ at, later.2 ∙ at)

-- Whatever its services are called, the participant that a profile's parameters have at a position
-- is read back from the labels that they give to each of its services as the participant of that
-- position, counted from one. The position fits a signed 64-bit word.
pub participant_index-package_participants :
    (images : Images) (specs : List ParticipantSpec) (i : ℕ) (participant : PackageParticipant)
    (name : String)
    → get_elem? (package_participants images specs 0) i ≡ some participant
    → i + 1 < 2 ^ 63
    → (participant_index name participant.el_extra_labels ≡ ok (i + 1))
      × (participant_index name participant.cl_extra_labels ≡ ok (i + 1))
      × (participant_index name participant.vc_extra_labels ≡ ok (i + 1))
participant_index-package_participants images specs i participant name found fits =
    let labels = get_elem?-package_participants images specs 0 i participant found in
    let read = participant_index-participant_labels name i fits in
    let at : participant_labels (0 + i) ≡ participant_labels i =
      ap participant_labels (omega arith) in
    (
      ap (participant_index name) (labels.0 ∙ at) ∙ read,
      ap (participant_index name) (labels.1 ∙ at) ∙ read,
      ap (participant_index name) (labels.2 ∙ at) ∙ read,
    )
