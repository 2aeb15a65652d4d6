-- ===== src/Devnet/Outputs.antt =====
-- How the interleaved lines of a log stream reach the files of the services.
use qrl_tests.Prelude.{
  String, Bool, true, false, Option, none, some, List, [], ◌∷◌, ◌++◌, ◌≡◌, refl, arith, str_eq,
  eq_iff, is_some, ap, sym, if◌then◌else◌, Bool-cases, Option-cases, inl, inr,
}
use qrl_tests.Devnet.ServiceLogs.{LogsResponse, StreamEnd, receive_service_logs}
use qrl_tests.Devnet.Missing.{deliver, streamed_lines, receive_service_logs_lem}
use qrl_tests.Devnet.LogOutput.{LogFiles, ServiceLogOutput, write_lines, write_each, write_text}
use qrl_tests.Devnet.Diagnostics.{DiagnosticsSystem, find_output, put_output, write_output}

-- The lines of one service, in their order.
unfoldable pub lines_of : String → List (String × List String) → List String
lines_of uuid [] = []
lines_of uuid ((k, lines) ∷ rest) =
    if str_eq k uuid then lines ++ lines_of uuid rest else lines_of uuid rest

abbrev pub map_output :
    (ServiceLogOutput → ServiceLogOutput) → Option ServiceLogOutput → Option ServiceLogOutput
map_output f none = none
map_output f (some output) = some (f output)

pub find-put_output :
    (uuid key : String) (output : ServiceLogOutput) (outputs : List (String × ServiceLogOutput))
    → find_output uuid (put_output key output outputs)
      ≡ (if str_eq key uuid then some output else find_output uuid outputs)
unfolding find_output put_output
find-put_output uuid key output [] = refl
find-put_output uuid key output ((k, current) ∷ rest) =
    ground
      (arith, find-put_output uuid key output rest, eq_iff k key, eq_iff key uuid, eq_iff k uuid)

module _ (files : LogFiles) where
  write_each-append :
      (xs ys : List String) (output : ServiceLogOutput)
      → is_some output.output_err ≡ false
      → write_each files output (xs ++ ys) ≡ write_lines files (write_each files output xs) ys
  unfolding write_each write_lines
  write_each-append [] ys output h = rw h refl
  write_each-append (x ∷ xs) ys output h =
      let written = write_text files output x in
      let ended = write_text files written "\n" in
      elim (Bool-cases (is_some written.output_err)) [
        | inl e ↦ rw (e, e) refl
        | inr e ↦ elim (Bool-cases (is_some ended.output_err)) [
          | inl e' ↦ rw (e, e', e') refl
          | inr e' ↦ rw (e, e') (write_each-append xs ys ended e')
        ]
      ]

  write_lines-append :
      (output : ServiceLogOutput) (xs ys : List String)
      → write_lines files output (xs ++ ys) ≡ write_lines files (write_lines files output xs) ys
  unfolding write_lines
  write_lines-append output xs ys = elim (Bool-cases (is_some output.output_err)) [
    | inl e ↦ rw (e, e) refl
    | inr e ↦ rw e (write_each-append xs ys output e)
  ]

module _ (system : DiagnosticsSystem) where
  find-write_output :
      (uuid key : String) (lines : List String) (outputs : List (String × ServiceLogOutput))
      → find_output uuid (write_output system key lines outputs) ≡ (
          if str_eq key uuid
          then map_output (λ o. write_lines system.log_files o lines) (find_output uuid outputs)
          else find_output uuid outputs)
  unfolding write_output
  find-write_output uuid key lines outputs = elim (Option-cases (find_output key outputs)) [
    | inl e ↦ ground (arith, e, eq_iff key uuid)
    | inr (output, e) ↦ ground (
      arith,
      e,
      eq_iff key uuid,
      find-put_output uuid key (write_lines system.log_files output lines) outputs,
    )
  ]

  write_none :
      (found : Option ServiceLogOutput)
      → found ≡ map_output (λ o. write_lines system.log_files o []) found
  unfolding write_lines write_each
  write_none none = refl
  write_none (some output) = ground arith

  write_both :
      (is_same : Bool) (lines later : List String) (found : Option ServiceLogOutput)
      → map_output
          (λ o. write_lines system.log_files o later)
          (if is_same then map_output (λ o. write_lines system.log_files o lines) found else found)
        ≡ map_output
            (λ o. write_lines system.log_files o (if is_same then lines ++ later else later))
            found
  write_both true lines later none = refl
  write_both true lines later (some output) =
      ap some (sym (write_lines-append system.log_files output lines later))
  write_both false lines later found = refl

  find-deliver :
      (uuid : String) (streamed : List (String × List String))
      (outputs : List (String × ServiceLogOutput))
      → find_output uuid (deliver (write_output system) streamed outputs)
        ≡ map_output
            (λ o. write_lines system.log_files o (lines_of uuid streamed))
            (find_output uuid outputs)
  unfolding deliver lines_of
  find-deliver uuid [] outputs = write_none (find_output uuid outputs)
  find-deliver uuid ((k, lines) ∷ rest) outputs =
      rw
        (
          find-deliver uuid rest (write_output system k lines outputs),
          find-write_output uuid k lines outputs,
        )
        (write_both (str_eq k uuid) lines (lines_of uuid rest) (find_output uuid outputs))

  -- However the stream interleaves the lines of the services, and however it ends, the log output of
  -- a service is left as if the lines of that service had been written to it at once, in their order,
  -- and no others: a write that fails ends the writing to that output alone.
  pub receive-write_output :
      (responses : List LogsResponse) (ending : StreamEnd) (requested : List String)
      (outputs : List (String × ServiceLogOutput)) (uuid : String)
      → find_output uuid
          (receive_service_logs
            (some (write_output system))
            (responses, ending)
            requested
            outputs).1
        ≡ map_output
            (λ o.
              write_lines system.log_files o (lines_of uuid (streamed_lines requested responses)))
            (find_output uuid outputs)
  receive-write_output responses ending requested outputs uuid =
      rw
        ((receive_service_logs_lem (write_output system) responses ending requested outputs uuid).0)
        (find-deliver uuid (streamed_lines requested responses) outputs)
