-- ===== src/Devnet/Participants.antt =====
-- The participants that a network resolves to.
use qrl_tests.Prelude.{
  ℕ, ◌<◌, String, false, List, [], ◌∷◌, ◌≡◌, ◌≢◌, arith, All, All-map, str_eq, Bool-cases, subst,
  sym, leb, is_empty, inl, ◌∙◌, ◌==◌, ◌||◌, inr, ap,
}
use qrl_tests.Errors.{Result, ok, >>=-eq-ok, ok_injective}
use qrl_tests.Devnet.Environment.{
  Participant, with_service, update_at, insert_by_index, with_execution, with_consensus,
  with_validator, gather, all_connected, sort_by_index, participants_from_services, new_participant,
  client_type_label, is_client, participant_index,
}
use qrl_tests.Devnet.Services.{Service, label_of}

-- Every index below the list is larger.
abbrev pub IsAbove : ℕ → List Participant → Type 0
IsAbove index participants = All (λ (p : Participant). index < p.index) participants

abbrev pub IsAscending : List Participant → Type 0
IsAscending [] = Unit
IsAscending (p ∷ rest) = IsAbove p.index rest × IsAscending rest

abbrev IsApart : ℕ → List Participant → Type 0
IsApart index participants = All (λ (p : Participant). p.index ≢ index) participants

abbrev AllApart : List Participant → Type 0
AllApart [] = Unit
AllApart (p ∷ rest) = IsApart p.index rest × AllApart rest

abbrev pub IsConnected : Participant → Type 0
IsConnected p = (str_eq p.execution.rpc_url "" ≡ false) × (str_eq p.consensus.url "" ≡ false)

with_service-index :
    (client_type name : String) (service : Service) (p : Participant) {changed : Participant}
    → with_service client_type name service p ≡ ok changed
    → changed.index ≡ p.index
unfolding with_service with_execution with_consensus with_validator
with_service-index client_type name service p h = ground arith

-- An update keeps the indices apart, and changes none.
update_at-IsApart :
    (index other : ℕ) (change : Participant → Result Participant)
    → ((p q : Participant) → change p ≡ ok q → q.index ≡ p.index)
    → (by_index : List Participant) {updated : List Participant}
    → update_at index change by_index ≡ ok updated
    → other ≢ index
    → IsApart other by_index
    → IsApart other updated
unfolding update_at
update_at-IsApart index other change keep [] {updated} h ne apart =
    let (made, e, done) = >>=-eq-ok (change (new_participant index)) _ h in
    subst (IsApart other) (ok_injective done) ((λ bad. ne (sym bad ∙ keep _ made e)), tt)
update_at-IsApart index other change keep (p ∷ rest) {updated} h ne apart =
    elim (Bool-cases (p.index == index)) [
      | inl here ↦
          let (changed, e, done) = >>=-eq-ok (change p) _ (rw here at h) in
          subst (IsApart other) (ok_injective done)
            ((λ bad. apart.0 (sym (keep p changed e) ∙ bad)), apart.1)
      | inr there ↦
          let (others, e, done) = >>=-eq-ok (update_at index change rest) _ (rw there at h) in
          subst (IsApart other) (ok_injective done)
            (apart.0, update_at-IsApart index other change keep rest e ne apart.1)
    ]

update_at-AllApart :
    (index : ℕ) (change : Participant → Result Participant)
    → ((p q : Participant) → change p ≡ ok q → q.index ≡ p.index)
    → (by_index : List Participant) {updated : List Participant}
    → update_at index change by_index ≡ ok updated
    → AllApart by_index
    → AllApart updated
unfolding update_at
update_at-AllApart index change keep [] {updated} h apart =
    let (made, e, done) = >>=-eq-ok (change (new_participant index)) _ h in
    subst AllApart (ok_injective done) (tt, tt)
update_at-AllApart index change keep (p ∷ rest) {updated} h apart =
    elim (Bool-cases (p.index == index)) [
      | inl here ↦
          let (changed, e, done) = >>=-eq-ok (change p) _ (rw here at h) in
          subst AllApart (ok_injective done) (rw (keep p changed e) apart.0, apart.1)
      | inr there ↦
          let (others, e, done) = >>=-eq-ok (update_at index change rest) _ (rw there at h) in
          subst AllApart (ok_injective done) (
            update_at-IsApart index p.index change keep rest e (ground arith) apart.0,
            update_at-AllApart index change keep rest e apart.1,
          )
    ]

gather-AllApart :
    (by_index : List Participant) (services : List (String × Service)) {found : List Participant}
    → gather by_index services ≡ ok found
    → AllApart by_index
    → AllApart found
unfolding gather
gather-AllApart by_index [] {found} h apart = subst AllApart (ok_injective h) apart
gather-AllApart by_index ((name, service) ∷ rest) {found} h apart =
    let client_type = label_of client_type_label service.labels in
    elim (Bool-cases (is_client client_type)) [
      | inl client ↦
          let (index, e, h') =
            >>=-eq-ok (participant_index name service.labels) _ (rw (client, gather) at h) in
          let change = with_service client_type name service in
          let (updated, e', h'') = >>=-eq-ok (update_at index change by_index) _ h' in
          gather-AllApart updated rest h'' (
            update_at-AllApart index change
              (λ p q made. with_service-index client_type name service p made) by_index e' apart)
      | inr other ↦ gather-AllApart by_index rest (rw (other, gather) at h) apart
    ]

all_connected_lem :
    (participants : List Participant) {checked : List Participant}
    → all_connected participants ≡ ok checked
    → (checked ≡ participants) × All IsConnected participants
unfolding all_connected
all_connected_lem [] h = (sym (ok_injective h), tt)
all_connected_lem (p ∷ rest) {checked} h =
    elim (Bool-cases (str_eq p.execution.rpc_url "" || str_eq p.consensus.url "")) [
      | inl missing ↦ absurd (ground (arith, missing))
      | inr there ↦
          let (others, e, done) = >>=-eq-ok (all_connected rest) _ (rw there at h) in
          let (same, connected) = all_connected_lem rest e in
          (
            sym (ok_injective done) ∙ ap (λ l. p ∷ l) same,
            ((ground (arith, there), ground (arith, there)), connected),
          )
    ]

insert_by_index-IsAbove :
    (k : ℕ) (p : Participant) (ps : List Participant)
    → k < p.index
    → IsAbove k ps
    → IsAbove k (insert_by_index p ps)
unfolding insert_by_index
insert_by_index-IsAbove k p [] h above = (h, tt)
insert_by_index-IsAbove k p (q ∷ rest) h above =
    ground (arith, insert_by_index-IsAbove k p rest h above.1)

insert_by_index-IsAscending :
    (p : Participant) (ps : List Participant)
    → IsApart p.index ps
    → IsAscending ps
    → IsAscending (insert_by_index p ps)
unfolding insert_by_index
insert_by_index-IsAscending p [] apart asc = (tt, tt)
insert_by_index-IsAscending p (q ∷ rest) apart asc = elim (Bool-cases (leb p.index q.index)) [
  | inl before ↦
      let lt : p.index < q.index = ground (arith, before, apart.0) in
      rw before ((lt, All-map _ _ (λ (r : Participant) h. omega arith) rest asc.0), asc)
  | inr after ↦
      let lt : q.index < p.index = ground (arith, after) in
      rw after (
        insert_by_index-IsAbove q.index p rest lt asc.0,
        insert_by_index-IsAscending p rest apart.1 asc.1,
      )
]

insert_by_index-All :
    (P : Participant → Type 0) (p : Participant) (ps : List Participant)
    → P p
    → All P ps
    → All P (insert_by_index p ps)
unfolding insert_by_index
insert_by_index-All P p [] h all = (h, tt)
insert_by_index-All P p (q ∷ rest) h all = elim (Bool-cases (leb p.index q.index)) [
  | inl before ↦ rw before (h, all)
  | inr after ↦ rw after (all.0, insert_by_index-All P p rest h all.1)
]

sort_by_index-All :
    (P : Participant → Type 0) (ps : List Participant) → All P ps → All P (sort_by_index ps)
unfolding sort_by_index
sort_by_index-All P [] all = tt
sort_by_index-All P (p ∷ rest) all =
    insert_by_index-All P p (sort_by_index rest) all.0 (sort_by_index-All P rest all.1)

sort_by_index-IsAscending : (ps : List Participant) → AllApart ps → IsAscending (sort_by_index ps)
unfolding sort_by_index
sort_by_index-IsAscending [] apart = tt
sort_by_index-IsAscending (p ∷ rest) apart =
    insert_by_index-IsAscending p (sort_by_index rest)
      (sort_by_index-All (λ (q : Participant). q.index ≢ p.index) rest apart.0)
      (sort_by_index-IsAscending rest apart.1)

-- The participants that are resolved come in ascending order of their indices, no index twice, and
-- each has an execution and a consensus endpoint, whatever the order in which the map is walked.
pub participants_from_services_lem :
    (services : List (String × Service)) (participants : List Participant)
    → participants_from_services services ≡ ok participants
    → IsAscending participants × All IsConnected participants
unfolding participants_from_services
participants_from_services_lem services participants h =
    let (by_index, e, h') = >>=-eq-ok (gather [] services) _ h in
    elim (Bool-cases (is_empty by_index)) [
      | inl none_found ↦ absurd (ground (arith, none_found))
      | inr some_found ↦
          let (checked, e', done) = >>=-eq-ok (all_connected by_index) _ (rw some_found at h') in
          let (same, connected) = all_connected_lem by_index e' in
          let apart = gather-AllApart [] services e tt in
          subst (λ ps. IsAscending ps × All IsConnected ps) (ok_injective done)
            (
              sort_by_index-IsAscending checked (subst AllApart (sym same) apart),
              sort_by_index-All IsConnected checked (subst (All IsConnected) (sym same) connected),
            )
    ]
