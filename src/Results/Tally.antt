-- ===== src/Results/Tally.antt =====
-- How results.go reads one suite's report: names, counts, failures and unexpected skips.
use qrl_tests.Prelude.{◌+◌, String, List, [], ◌∷◌, ◌++◌, str_eq, if◌then◌else◌}
use qrl_tests.Prelude.Text.{◌<>◌, trim_space, join_text, decimal}
use qrl_tests.Prelude.FilePaths.{base}
use qrl_tests.Ginkgo.{Ginkgo, SpecReport, Report}
use qrl_tests.Results.Types.{Failure, SuiteSummary}

module _ (g : Ginkgo) where
  unfoldable pub suite_name : Report g → String
  unfolding trim_space base
  suite_name report =
      let name = trim_space report.suite_description in
      if str_eq name ""
      then (let path = trim_space report.suite_path in
          if str_eq path "" then "suite" else base path)
      else name

  unfoldable pub spec_name : SpecReport g → String
  unfolding join_text
  spec_name spec =
      let name = join_text (spec.container_hierarchy_texts ++ spec.leaf_node_text ∷ []) " " in
      if str_eq name "" then g.node_text spec.leaf_node_type else name

  -- The counting half of `tally`, for a spec of type It.
  unfoldable pub count_spec : SpecReport g → String → SuiteSummary → SuiteSummary
  count_spec spec name summary =
      let counts = record summary.counts { specs = summary.counts.specs + 1 } in
      if g.same_state spec.state g.passed
      then record summary { counts = record counts { passed = counts.passed + 1 } }
      else if g.same_state spec.state g.pending
      then record summary {
        counts = record counts { pending = counts.pending + 1 };
        unexpected_skips = summary.unexpected_skips ++ name ∷ [];
      }
      else if g.same_state spec.state g.skipped
      then record summary {
        counts = record counts { skipped = counts.skipped + 1 };
        unexpected_skips = summary.unexpected_skips ++ name ∷ [];
      }
      else record summary { counts = record counts { failed = counts.failed + 1 } }

  unfoldable pub failure_of : SpecReport g → String → Failure
  unfolding decimal
  failure_of spec name = record {
    spec = name;
    state = g.state_text spec.state;
    message = spec.failure_message;
    location =
        if str_eq spec.failure_file_name ""
        then ""
        else spec.failure_file_name <> ":" <> decimal spec.failure_line_number;
  }

  -- The other half of `tally`: a spec of any type in a failure state is recorded.
  unfoldable pub record_failure : SpecReport g → String → SuiteSummary → SuiteSummary
  record_failure spec name summary =
      if g.is_failure_state spec.state
      then record summary { failures = summary.failures ++ failure_of spec name ∷ [] }
      else summary

  -- summary.tally(spec)
  unfoldable pub tally : SuiteSummary → SpecReport g → SuiteSummary
  unfolding count_spec record_failure
  tally summary spec =
      let name = spec_name spec in
      record_failure spec name
        (if g.is_it spec.leaf_node_type then count_spec spec name summary else summary)

  -- The loop over the report's specs.
  unfoldable pub tally_all : SuiteSummary → List (SpecReport g) → SuiteSummary
  tally_all summary [] = summary
  tally_all summary (spec ∷ rest) = tally_all (tally summary spec) rest
