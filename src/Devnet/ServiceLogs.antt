-- ===== src/Devnet/ServiceLogs.antt =====
-- devnet/internal/kurtosis/diagnostics.go: how the retained log lines of services are received.
-- `State` is what the consumer of the lines changes.
use qrl_tests.Prelude.{
  ℕ, String, Bool, true, false, Option, none, some, List, [], ◌∷◌, is_empty, if◌then◌else◌,
}
use qrl_tests.Prelude.Keys.{has_key, delete_key}
use qrl_tests.Errors.{Fault, Result, ok, fail, wrap}

-- A GetServiceLogsResponse: a set of UUIDs, and lines by UUID, each in the order that `range` takes.
pub record LogsResponse : Type 0 where
  pub not_found_service_uuid_set : List String
  pub service_logs_by_service_uuid : List (String × List String)

-- How a stream ends: with an error that is io.EOF, or with another.
pub data StreamEnd : Type 0 where
  eof : StreamEnd
  broken : Fault → StreamEnd

-- The arguments of GetServiceLogs.
pub record LogsRequest : Type 0 where
  pub enclave_identifier : String
  pub service_uuid_set : List String
  pub follow_logs : Bool
  pub return_all_logs : Bool
  pub num_log_lines : ℕ

unfoldable pub note_not_found : List String → List String → List String → List String
unfolding has_key
note_not_found requested [] not_found = not_found
note_not_found requested (uuid ∷ rest) not_found =
    note_not_found requested rest (if has_key uuid requested then uuid ∷ not_found else not_found)

module _ {ℓ} {State : Type ℓ} (consume : Option (String → List String → State → State)) where
  -- The call of the consumer, if there is one.
  abbrev pub consumed : String → List String → State → State
  consumed uuid lines state = elim consume [ none ↦ state | some f ↦ f uuid lines state ]

  unfoldable pub take_lines :
      List String → List (String × List String) → List String × State → List String × State
  unfolding has_key delete_key
  take_lines requested [] (not_found, state) = (not_found, state)
  take_lines requested ((uuid, lines) ∷ rest) (not_found, state) = take_lines requested rest (
      if has_key uuid requested
      then (delete_key uuid not_found, consumed uuid lines state)
      else (not_found, state))

  -- A round of the loop.
  unfoldable pub take_response :
      List String → LogsResponse → List String × State → List String × State
  unfolding note_not_found take_lines
  take_response requested response (not_found, state) =
      take_lines requested response.service_logs_by_service_uuid
        (note_not_found requested response.not_found_service_uuid_set not_found, state)

  unfoldable pub take_responses :
      List String → List LogsResponse → List String × State → List String × State
  unfolding take_response
  take_responses requested [] received = received
  take_responses requested (response ∷ rest) received =
      take_responses requested rest (take_response requested response received)

  -- A nil map for an error, which the code reads as an empty one.
  unfoldable pub receive_service_logs :
      List LogsResponse × StreamEnd → List String → State → Result (List String) × State
  unfolding take_responses
  receive_service_logs (responses, ending) requested state =
      let received = take_responses requested responses ([], state) in
      (
        (elim ending [
          | eof ↦ ok received.0
          | broken e ↦ fail (wrap "receive Kurtosis service logs" e)
        ]),
        received.1,
      )

  unfoldable pub service_logs :
      (LogsRequest → Result (List LogsResponse × StreamEnd))
      → String
      → List String
      → State
      → Result (List String) × State
  unfolding receive_service_logs
  service_logs get_service_logs enclave_name service_uuids state =
      if is_empty service_uuids
      then (ok [], state)
      else elim (get_service_logs (record {
        enclave_identifier = enclave_name;
        service_uuid_set = service_uuids;
        follow_logs = false;
        return_all_logs = true;
        num_log_lines = 0;
      })) [
        | fail e ↦ (fail (wrap "start Kurtosis service log stream" e), state)
        | ok stream ↦ receive_service_logs stream service_uuids state
      ]
