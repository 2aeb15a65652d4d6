-- ===== src/Devnet/Missing.antt =====
-- Which services a log stream leaves as not found, and which lines it hands to the consumer.
use qrl_tests.Prelude.{
  String, Bool, true, false, ◌&&◌, ◌||◌, Option, some, List, [], ◌∷◌, ◌++◌, ◌≡◌, refl, arith,
  concat_map, if◌then◌else◌, Bool-cases, inl, inr, str_eq, eq_iff, ap, ◌∙◌,
}
use qrl_tests.Prelude.Keys.{has_key, delete_key, has_key-delete_key}
use qrl_tests.Errors.{is_ok, ok_or}
use qrl_tests.Devnet.ServiceLogs.{
  LogsResponse, StreamEnd, note_not_found, take_lines, take_response, take_responses,
  receive_service_logs, consumed,
}

-- Whether a response brings lines of the service.
unfoldable pub has_lines : String → List (String × List String) → Bool
has_lines uuid [] = false
has_lines uuid ((k, lines) ∷ rest) = str_eq k uuid || has_lines uuid rest

-- Whether the last response to mention the service says that it is not found; `before` if none does.
unfoldable pub last_not_found : String → Bool → List LogsResponse → Bool
unfolding has_lines has_key
last_not_found uuid before [] = before
last_not_found uuid before (response ∷ rest) =
    last_not_found uuid
      (if has_lines uuid response.service_logs_by_service_uuid
        then false
        else has_key uuid response.not_found_service_uuid_set || before)
      rest

-- The lines of the requested services, in the order they came in.
unfoldable pub requested_lines :
    List String → List (String × List String) → List (String × List String)
unfolding has_key
requested_lines requested [] = []
requested_lines requested ((uuid, lines) ∷ rest) =
    let kept = requested_lines requested rest in
    if has_key uuid requested then (uuid, lines) ∷ kept else kept

unfoldable pub streamed_lines : List String → List LogsResponse → List (String × List String)
unfolding requested_lines
streamed_lines requested responses =
    concat_map (λ response. requested_lines requested response.service_logs_by_service_uuid)
      responses

-- The consumer, on a list of services with lines.
unfoldable pub deliver {ℓ} :
    {State : Type ℓ}
    → (String → List String → State → State)
    → List (String × List String)
    → State
    → State
deliver consume [] state = state
deliver consume ((uuid, lines) ∷ rest) state = deliver consume rest (consume uuid lines state)

abbrev pub is_eof : StreamEnd → Bool
is_eof StreamEnd.eof = true
is_eof (StreamEnd.broken e) = false

-- Keys that are equal as texts are in the same sets.
has_key_cong :
    (k uuid : String) (set : List String) → str_eq k uuid ≡ true → has_key k set ≡ has_key uuid set
has_key_cong k uuid set e = ap (λ s. has_key s set) ((eq_iff k uuid).0 e)

noted_one :
    (requested named not_found : List String) (k uuid : String)
    → ((has_key uuid requested && has_key uuid named)
        || has_key uuid (if has_key k requested then k ∷ not_found else not_found))
      ≡ ((has_key uuid requested && (str_eq k uuid || has_key uuid named))
          || has_key uuid not_found)
unfolding has_key
noted_one requested named not_found k uuid = elim (Bool-cases (str_eq k uuid)) [
  | inl e ↦ elim (Bool-cases (has_key k requested)) [
    | inl r ↦ rw (r, e) (ground (arith, r, has_key_cong k uuid requested e))
    | inr r ↦ rw (r, e) (ground (arith, r, has_key_cong k uuid requested e))
  ]
  | inr e ↦ elim (Bool-cases (has_key k requested)) [
    | inl r ↦ rw (r, e) refl
    | inr r ↦ rw (r, e) refl
  ]
]

has_key-note_not_found :
    (requested named not_found : List String) (uuid : String)
    → has_key uuid (note_not_found requested named not_found)
      ≡ ((has_key uuid requested && has_key uuid named) || has_key uuid not_found)
unfolding has_key note_not_found
has_key-note_not_found requested [] not_found uuid = ground arith
has_key-note_not_found requested (k ∷ named) not_found uuid =
    has_key-note_not_found requested named
      (if has_key k requested then k ∷ not_found else not_found) uuid
    ∙ noted_one requested named not_found k uuid

module _ {ℓ} {State : Type ℓ} (consume : Option (String → List String → State → State)) where
  taken_one :
      (requested : List String) (mentioned : Bool) (received : List String × State) (state : State)
      (k uuid : String)
      → (if mentioned && has_key uuid requested
          then false
          else has_key uuid
              (if has_key k requested then (delete_key k received.0, state) else received).0)
        ≡ (if (str_eq k uuid || mentioned) && has_key uuid requested
            then false
            else has_key uuid received.0)
  taken_one requested mentioned received state k uuid = elim (Bool-cases (str_eq k uuid)) [
    | inl e ↦ elim (Bool-cases (has_key k requested)) [
      | inl r ↦
          rw (r, e)
            (ground
              (arith, r, e, has_key_cong k uuid requested e, has_key-delete_key uuid k received.0))
      | inr r ↦ rw (r, e) (ground (arith, r, has_key_cong k uuid requested e))
    ]
    | inr e ↦ elim (Bool-cases (has_key k requested)) [
      | inl r ↦ rw (r, e) (ground (arith, r, e, has_key-delete_key uuid k received.0))
      | inr r ↦ rw (r, e) refl
    ]
  ]

  take_lines_missing :
      (requested : List String) (logs : List (String × List String))
      (received : List String × State) (uuid : String)
      → has_key uuid (take_lines consume requested logs received).0
        ≡ (if has_lines uuid logs && has_key uuid requested then false else has_key uuid received.0)
  unfolding take_lines has_lines
  take_lines_missing requested [] received uuid = refl
  take_lines_missing requested ((k, lines) ∷ logs) received uuid =
      take_lines_missing requested logs
        (if has_key k requested
          then (delete_key k received.0, consumed consume k lines received.1)
          else received)
        uuid
      ∙ taken_one requested (has_lines uuid logs) received (consumed consume k lines received.1) k
          uuid

  taken_response :
      (requested : List String) (response : LogsResponse) (received : List String × State)
      (uuid : String)
      → has_key uuid (take_response consume requested response received).0 ≡ (
          if has_lines uuid response.service_logs_by_service_uuid && has_key uuid requested
          then false
          else ((has_key uuid requested && has_key uuid response.not_found_service_uuid_set)
              || has_key uuid received.0))
  unfolding take_response
  taken_response requested response received uuid =
      rw
        (
          take_lines_missing requested response.service_logs_by_service_uuid
              (note_not_found requested response.not_found_service_uuid_set received.0, received.1)
              uuid,
          has_key-note_not_found requested response.not_found_service_uuid_set received.0 uuid,
        )
        refl

  -- Of a service that is requested, the last mention decides; one that is not stays as it was.
  pub take_responses_missing :
      (requested : List String) (responses : List LogsResponse) (received : List String × State)
      (uuid : String)
      → has_key uuid (take_responses consume requested responses received).0 ≡ (
          if has_key uuid requested
          then last_not_found uuid (has_key uuid received.0) responses
          else has_key uuid received.0)
  unfolding take_responses last_not_found
  take_responses_missing requested [] received uuid = ground arith
  take_responses_missing requested (response ∷ rest) received uuid =
      take_responses_missing requested rest (take_response consume requested response received) uuid
      ∙ elim (Bool-cases (has_key uuid requested)) [
        | inl r ↦ rw (taken_response requested response received uuid, r) (ground (arith, r))
        | inr r ↦ rw (taken_response requested response received uuid, r) (ground (arith, r))
      ]

module _ {ℓ} {State : Type ℓ} (consume : String → List String → State → State) where
  deliver-append :
      (xs ys : List (String × List String)) (state : State)
      → deliver consume (xs ++ ys) state ≡ deliver consume ys (deliver consume xs state)
  unfolding deliver
  deliver-append [] ys state = refl
  deliver-append ((uuid, lines) ∷ xs) ys state = deliver-append xs ys (consume uuid lines state)

  take_lines_delivers :
      (requested : List String) (logs : List (String × List String))
      (received : List String × State)
      → (take_lines (some consume) requested logs received).1
        ≡ deliver consume (requested_lines requested logs) received.1
  unfolding take_lines requested_lines deliver
  take_lines_delivers requested [] received = refl
  take_lines_delivers requested ((k, lines) ∷ logs) received =
      take_lines_delivers requested logs (
        if has_key k requested
        then (delete_key k received.0, consume k lines received.1)
        else received)
      ∙ elim (Bool-cases (has_key k requested)) [ inl r ↦ rw r refl | inr r ↦ rw r refl ]

  take_responses_delivers :
      (requested : List String) (responses : List LogsResponse) (received : List String × State)
      → (take_responses (some consume) requested responses received).1
        ≡ deliver consume (streamed_lines requested responses) received.1
  unfolding take_responses take_response streamed_lines deliver
  take_responses_delivers requested [] received = refl
  take_responses_delivers requested (response ∷ rest) received =
      rw
        (
          take_responses_delivers requested rest
              (take_response (some consume) requested response received),
          take_lines_delivers requested response.service_logs_by_service_uuid
              (note_not_found requested response.not_found_service_uuid_set received.0, received.1),
          deliver-append (requested_lines requested response.service_logs_by_service_uuid)
              (streamed_lines requested rest) received.1,
        )
        refl

  -- However a log stream ends, the consumer has been given exactly the lines of the requested
  -- services, in the order they came in. The call has no error exactly if the stream ended with
  -- io.EOF, and only then a service reads as missing: one that was requested, and whose last mention
  -- in the stream is that it is not found.
  pub receive_service_logs_lem :
      (responses : List LogsResponse) (ending : StreamEnd) (requested : List String) (state : State)
      (uuid : String)
      → ((receive_service_logs (some consume) (responses, ending) requested state).1
          ≡ deliver consume (streamed_lines requested responses) state)
        × (is_ok (receive_service_logs (some consume) (responses, ending) requested state).0
            ≡ is_eof ending)
        × (has_key uuid
              (ok_or [] (receive_service_logs (some consume) (responses, ending) requested state).0)
            ≡ (is_eof ending && has_key uuid requested && last_not_found uuid false responses))
  unfolding receive_service_logs has_key
  receive_service_logs_lem responses StreamEnd.eof requested state uuid = (
    take_responses_delivers requested responses ([], state),
    refl,
    take_responses_missing (some consume) requested responses ([], state) uuid ∙ ground arith,
  )
  receive_service_logs_lem responses (StreamEnd.broken e) requested state uuid =
      (take_responses_delivers requested responses ([], state), refl, refl)
