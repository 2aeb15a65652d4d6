-- ===== src/Devnet/Assignment.antt =====
-- Who runs which genesis validator of a profile.
use qrl_tests.Prelude.{
  ℕ, zero, suc, ◌+◌, ◌-◌, ◌≤◌, String, List, [], ◌∷◌, ◌++◌, ◌≡◌, refl, sym, ap, ◌∙◌, arith, length,
  take-append, get_elem?-append, length-append, length-snoc, append_assoc, concat_map, max, leb,
  Bool-cases, false, ltb, inl, tests, inr,
}
use qrl_tests.Prelude.Int.{pos}
use qrl_tests.Devnet.Profiles.{
  ParticipantSpec, ProfileSpec, indices_from, validators_before, validators_at, spares_from,
  participant_validators, spare_validators, spec_of, validator_count_at, spares_of,
}

indices_from-append :
    (first m n : ℕ)
    → indices_from first m ++ indices_from (first + m) n ≡ indices_from first (m + n)
unfolding indices_from
indices_from-append first zero n =
    let a : first + 0 ≡ first = omega arith in let b : 0 + n ≡ n = omega arith in rw (a, b)
indices_from-append first (suc m) n =
    let a : first + suc m ≡ first + 1 + m = omega arith in
    let b : suc m + n ≡ suc (m + n) = omega arith in
    rw (a, b) (ap (λ l. first ∷ l) (indices_from-append (first + 1) m n))

validators_before-append :
    (ps qs : List ParticipantSpec)
    → validators_before (ps ++ qs) ≡ validators_before ps + validators_before qs
unfolding validators_before
validators_before-append [] qs = omega arith
validators_before-append (p ∷ ps) qs = omega (arith, validators_before-append ps qs)

count_at_append :
    (done : List ParticipantSpec) (p : ParticipantSpec) (rest : List ParticipantSpec)
    → validator_count_at (done ++ p ∷ rest) (length done) ≡ p.validator_count
unfolding validator_count_at
count_at_append done p rest = rw (get_elem?-append done p rest, validator_count_at)

-- The participant at a position that splits the list.
validators_at-append :
    (spec : ProfileSpec) (done : List ParticipantSpec) (p : ParticipantSpec)
    (rest : List ParticipantSpec)
    → spec.participants ≡ done ++ p ∷ rest
    → validators_at spec (length done) ≡ indices_from (validators_before done) p.validator_count
unfolding validators_at
validators_at-append spec done p rest e =
    let inside : leb (length (done ++ p ∷ rest)) (length done) ≡ false =
      ground (arith, length-append done (p ∷ rest)) in
    rw (e, inside, take-append done (p ∷ rest), count_at_append done p rest)

assigned_in_order :
    (spec : ProfileSpec) (done rest : List ParticipantSpec)
    → spec.participants ≡ done ++ rest
    → concat_map (validators_at spec) (indices_from (length done) (length rest))
      ≡ indices_from (validators_before done) (validators_before rest)
unfolding indices_from validators_before
assigned_in_order spec done [] e = refl
assigned_in_order spec done (p ∷ rest) e =
    let next : spec.participants ≡ (done ++ p ∷ []) ++ rest =
      e ∙ sym (append_assoc done (p ∷ []) rest) in
    let at : length (done ++ p ∷ []) ≡ length done + 1 = omega (arith, length-snoc done p) in
    let before : validators_before (done ++ p ∷ []) ≡ validators_before done + p.validator_count =
      omega (arith, validators_before-append done (p ∷ [])) in
    let ih = assigned_in_order spec (done ++ p ∷ []) rest next in
    rw (validators_at-append spec done p rest e, ← at, ih, before)
      (indices_from-append (validators_before done) p.validator_count (validators_before rest))

spares_from_lem :
    (rounds index limit : ℕ)
    → limit ≤ index + rounds
    → spares_from rounds index limit ≡ indices_from index (limit - index)
unfolding spares_from indices_from
spares_from_lem zero index limit h = let e : limit - index ≡ 0 = omega arith in rw e
spares_from_lem (suc rounds) index limit h = elim (Bool-cases (ltb index limit)) [
  | inl more ↦
      let e : limit - index ≡ suc (limit - (index + 1)) = omega tests in
      rw (more, e) (ap (λ l. index ∷ l) (spares_from_lem rounds (index + 1) limit (omega arith)))
  | inr done ↦ let e : limit - index ≡ 0 = ground arith in rw (done, e)
]

-- Taken in order, the participants' validators and then the spares are the genesis validators from
-- 0 on, each once: as many as the larger of the assigned and the preregistered number.
pub assignment_partition :
    (profile : String)
    → concat_map
          (λ i. participant_validators profile (pos i))
          (indices_from 0 (length (spec_of profile).participants))
        ++ spare_validators profile
      ≡ indices_from 0 (
          max
            (validators_before (spec_of profile).participants)
            (spec_of profile).preregistered_validators)
unfolding participant_validators spare_validators validators_before
assignment_partition profile =
    let spec = spec_of profile in
    let assigned = validators_before spec.participants in
    let rest = spec.preregistered_validators - assigned in
    let before_all = indices_from 0 assigned in
    let spares : spares_of spec ≡ indices_from assigned rest =
      unfold spares_of in spares_from_lem spec.preregistered_validators assigned _ (omega arith) in
    let total : assigned + rest ≡ max assigned spec.preregistered_validators = omega arith in
    let left : 0 + assigned ≡ assigned = omega arith in
    ap (λ l. l ++ spares_of spec) (assigned_in_order spec [] spec.participants refl)
    ∙ ap (λ l. before_all ++ l) (spares ∙ ap (λ n. indices_from n rest) (sym left))
    ∙ indices_from-append 0 assigned rest
    ∙ ap (indices_from 0) total
