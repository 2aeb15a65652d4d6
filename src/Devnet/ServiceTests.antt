-- ===== src/Devnet/ServiceTests.antt =====
-- Concrete streams, services and files, and the theorems about the logs of services there.
use qrl_tests.Prelude.{
  ◌≤◌, String, true, false, ◌&&◌, none, some, List, [], ◌∷◌, ◌++◌, ◌≡◌, ◌↔◌, refl, map, count_where,
  ◌||◌, not,
}
use qrl_tests.Prelude.Keys.{has_key}
use qrl_tests.Prelude.Text.{decimal}
use qrl_tests.Prelude.Order.{less_text, less_codes, IsSorted}
use qrl_tests.Prelude.FilePaths.{join_path}
use qrl_tests.Errors.{join_errors, ok, fail, plain, ok_or, is_ok}
use qrl_tests.JsonFile.{Files, write}
use qrl_tests.Devnet.Starlark.{ResponseLine, consume_starlark_completion}
use qrl_tests.Devnet.Completion.{IsCompleted, consume_starlark_completion_nil}
use qrl_tests.Devnet.Inspection.{
  ServiceIdentity, ServiceIdentifiers, CurrentService, merge_service_identities,
  service_port_bindings,
}
use qrl_tests.Devnet.Identities.{has_uuid, find_identity, latest, merge_service_identities_lem}
use qrl_tests.Devnet.ServiceLogs.{LogsResponse, StreamEnd, receive_service_logs}
use qrl_tests.Devnet.Missing.{
  deliver, is_eof, last_not_found, streamed_lines, receive_service_logs_lem,
}
use qrl_tests.Devnet.LogOutput.{LogFiles, write_lines}
use qrl_tests.Devnet.Diagnostics.{
  DiagnosticsSystem, find_output, write_output, open_each, manifest_of, collect_diagnostics,
}
use qrl_tests.Devnet.Outputs.{lines_of, map_output, receive-write_output}
use qrl_tests.Devnet.Captured.{IsComplete, collect_diagnostics_nil}

abbrev run_output : List ResponseLine
run_output =
    record {
      error = some (record { interpretation = none; validation = some "odd"; execution = none });
      finished = none;
    }
    ∷ record { error = none; finished = some true }
    ∷ []

completes : consume_starlark_completion run_output ≡ none
unfolding consume_starlark_completion
completes = refl

consume_starlark_completion_nil_example :
    (consume_starlark_completion run_output ≡ none) ↔ IsCompleted run_output
consume_starlark_completion_nil_example = consume_starlark_completion_nil run_output

-- Two services whose lines are interleaved, of which the second is not found at first.
abbrev responses : List LogsResponse
responses =
    record {
      not_found_service_uuid_set = "b" ∷ [];
      service_logs_by_service_uuid = ("a", "one" ∷ []) ∷ ("c", "other" ∷ []) ∷ [];
    }
    ∷ record {
      not_found_service_uuid_set = "d" ∷ [];
      service_logs_by_service_uuid = ("b", "two" ∷ []) ∷ ("a", "three" ∷ []) ∷ [];
    }
    ∷ []

abbrev requested : List String
requested = "a" ∷ "b" ∷ "d" ∷ []

abbrev keep : String → List String → List (String × List String) → List (String × List String)
keep uuid lines kept = kept ++ (uuid, lines) ∷ []

received :
    receive_service_logs (some keep) (responses, StreamEnd.eof) requested []
    ≡ (ok ("d" ∷ []), ("a", "one" ∷ []) ∷ ("b", "two" ∷ []) ∷ ("a", "three" ∷ []) ∷ [])
unfolding receive_service_logs
received = refl

receive_service_logs_lem_example :
    ((receive_service_logs (some keep) (responses, StreamEnd.eof) requested []).1
      ≡ deliver keep (streamed_lines requested responses) [])
    × (is_ok (receive_service_logs (some keep) (responses, StreamEnd.eof) requested []).0
        ≡ is_eof StreamEnd.eof)
    × (has_key "d"
          (ok_or [] (receive_service_logs (some keep) (responses, StreamEnd.eof) requested []).0)
        ≡ (is_eof StreamEnd.eof && has_key "d" requested && last_not_found "d" false responses))
receive_service_logs_lem_example =
    receive_service_logs_lem keep responses StreamEnd.eof requested [] "d"

abbrev identifiers : List ServiceIdentifiers
identifiers =
    record { name = "el-1"; service_uuid = "a" } ∷ record { name = "cl-1"; service_uuid = "b" } ∷ []

abbrev current : List CurrentService
current =
    record {
      name = "el-1";
      service_uuid = "a";
      container_status = "RUNNING";
      private_ports =
          (
            "ws",
            record { number = 8546; transport_protocol = "TCP"; maybe_application_protocol = "" },
          )
          ∷ (
            "rpc",
            record {
              number = 8545;
              transport_protocol = "TCP";
              maybe_application_protocol = "http";
            },
          )
          ∷ [];
      maybe_public_ip_addr = "127.0.0.1";
      maybe_public_ports =
          (
            "rpc",
            record { number = 32001; transport_protocol = "TCP"; maybe_application_protocol = "" },
          )
          ∷ [];
    }
    ∷ []

ports :
    map service_port_bindings current
    ≡ ("rpc: 8545/tcp -> http://127.0.0.1:32001" ∷ "ws: 8546/tcp" ∷ []) ∷ []
unfolding service_port_bindings less_text less_codes decimal
ports = refl

merge_service_identities_lem_example :
    (find_identity "a" (merge_service_identities identifiers current true)
      ≡ latest "a"
          (map
            (λ service. record {
              name = service.name;
              uuid = service.service_uuid;
              status = service.container_status;
              ports = service_port_bindings service;
            })
            current)
          (latest "a"
            (map
              (λ identifier. record {
                name = identifier.name;
                uuid = identifier.service_uuid;
                status = "HISTORICAL";
                ports = "<unknown>" ∷ [];
              })
              identifiers)
            none))
    × (count_where (has_uuid "a") (merge_service_identities identifiers current true) ≤ 1)
    × IsSorted
        (λ a b.
          less_text a.name b.name || (not (less_text b.name a.name) && less_text a.uuid b.uuid))
        (merge_service_identities identifiers current true)
merge_service_identities_lem_example = merge_service_identities_lem identifiers current true "a"

abbrev log_files : LogFiles
log_files = record {
  open_file = λ path. none;
  write_string = λ path before added. none;
  flush = λ path text. none;
  close_file = λ path closings. none;
}

abbrev files : Files
files = record {
  mkdir_all = λ path. none;
  read_file = λ path. fail (plain "not there");
  write_file = λ path payload. none;
}

abbrev identity_of : String → String → ServiceIdentity
identity_of name uuid = record { name = name; uuid = uuid; status = "RUNNING"; ports = [] }

abbrev services : List ServiceIdentity
services = identity_of "cl-1" "b" ∷ identity_of "el-1" "a" ∷ []

abbrev system : DiagnosticsSystem
system = record {
  inspect = λ name. (
    record {
      name = name;
      uuid = "e";
      status = "RUNNING";
      mode = "TEST";
      creation_time = some 1;
      services = services;
    },
    none,
  );
  get_service_logs = λ request. ok (responses, StreamEnd.eof);
  files = files;
  log_files = log_files;
  encode_inspection = λ inspection. ok "{}";
  encode_manifest = λ manifest. ok "{}";
}

collects : collect_diagnostics system "net" "out" ≡ none
unfolding collect_diagnostics join_errors write_output
collects = refl

receive-write_output_example :
    find_output "a"
      (receive_service_logs
        (some (write_output system))
        (responses, StreamEnd.eof)
        requested
        (open_each system "out" services [])).1
    ≡ map_output
        (λ o. write_lines system.log_files o (lines_of "a" (streamed_lines requested responses)))
        (find_output "a" (open_each system "out" services []))
receive-write_output_example =
    receive-write_output system responses StreamEnd.eof requested
      (open_each system "out" services []) "a"

collect_diagnostics_nil_example : (collect_diagnostics system "net" "out" ≡ none) ↔ (
    (system.files.mkdir_all "out" ≡ none)
    × ((manifest_of system "net" "out").inspection.captured ≡ true)
    × IsComplete system (system.inspect "net").0.services (manifest_of system "net" "out").services
    × (write system.files system.encode_manifest
          (join_path ("out" ∷ "diagnostics.json" ∷ []))
          (manifest_of system "net" "out")
          "diagnostics manifest"
        ≡ none))
collect_diagnostics_nil_example = collect_diagnostics_nil system "net" "out"
