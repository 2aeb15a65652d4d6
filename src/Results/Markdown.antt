-- ===== src/Results/Markdown.antt =====
-- internal/results/markdown.go: the text of a summary. The Markdown library's document is a type
-- with the calls that add to it.
use Prim.Native.Char.{code}
use qrl_tests.Prelude.{
  ◌≡◌, refl, String, Bool, not, ◌&&◌, ◌||◌, true, false, List, [], ◌∷◌, ◌++◌, map, is_empty, str_eq,
  ◌==◌, if◌then◌else◌, ◌≡◌,
}
use qrl_tests.Prelude.Text.{◌<>◌, decimal, trim_space}
use qrl_tests.Results.Types.{
  Verdict, verdict_text, is_passed, RunResult, Failure, SuiteSummary, LaneSummary, Summary,
}

-- What the code uses of github.com/nao1215/markdown. A table has the one header and the one
-- alignment of the code.
pub record Markdown {ℓ} (Document : Type ℓ) : Type ℓ where
  pub new_markdown : Document
  pub h2 : String → Document → Document
  pub h3 : String → Document → Document
  pub h4 : String → Document → Document
  pub plain_text : String → Document → Document
  pub code_blocks : String → Document → Document
  pub bullet_list : List String → Document → Document
  pub table : List String → List (List String) → Document → Document
  pub bold : String → String
  pub code : String → String
  pub text : Document → String

unfoldable pub display_verdict : Verdict → String
display_verdict Verdict.assertion = "failed"
display_verdict Verdict.timeout = "timed out"
display_verdict Verdict.infrastructure = "error"
display_verdict verdict = verdict_text verdict

unfoldable pub result_text : RunResult → String
result_text RunResult.passed = "passed"
result_text RunResult.failed = "failed"

unfoldable pub suite_result : SuiteSummary → String
unfolding display_verdict decimal
suite_result suite =
    let counted = decimal suite.counts.passed <> "/" <> decimal suite.counts.specs in
    if is_passed suite.verdict then counted else counted <> " " <> display_verdict suite.verdict

-- Verdicts that have details of their own.
abbrev pub is_told_by_specs : Verdict → Bool
is_told_by_specs Verdict.assertion = true
is_told_by_specs Verdict.skipped = true
is_told_by_specs _ = false

unfoldable pub show_lane_error : LaneSummary → Bool
show_lane_error lane = not (str_eq lane.error "") && not (is_told_by_specs lane.verdict)

unfoldable pub has_details : SuiteSummary → Bool
has_details suite =
    not (is_empty suite.failures)
    || not (is_empty suite.suite_failures)
    || not (is_empty suite.unexpected_skips)

-- strings.ReplaceAll(message, "\n", "\n  ")
unfoldable pub indent_lines : String → String
indent_lines String.[] = ""
indent_lines (String.◌∷◌ c s) =
    let rest = indent_lines s in if code c == 10 then "\n  " <> rest else String.◌∷◌ c rest

unfoldable pub indent_list_continuation : String → String
unfolding indent_lines trim_space
indent_list_continuation message = indent_lines (trim_space message)

module _ {ℓ} {Document : Type ℓ} (md : Markdown Document) where
  unfoldable pub failure_detail : Failure → String
  unfolding indent_list_continuation
  failure_detail failure =
      md.bold failure.state
      <> " "
      <> md.code failure.spec
      <> (if str_eq failure.location "" then "" else " (" <> failure.location <> ")")
      <> (if str_eq failure.message ""
          then ""
          else "\n  " <> indent_list_continuation failure.message)

  unfoldable pub suite_details : SuiteSummary → List String
  unfolding failure_detail
  suite_details suite =
      map failure_detail suite.failures
      ++ (map (λ failure. md.bold "suite" <> " " <> failure) suite.suite_failures
          ++ map (λ skipped. md.bold "skipped" <> " " <> md.code skipped) suite.unexpected_skips)

  unfoldable pub write_lane_summary : LaneSummary → Document → Document
  unfolding display_verdict suite_result
  write_lane_summary lane report =
      if is_empty lane.suites
      then md.plain_text (md.bold "Result:" <> " " <> display_verdict lane.verdict)
          (md.h3 lane.name report)
      else md.table ("Suite" ∷ "Result" ∷ [])
          (map (λ (suite : SuiteSummary). suite.name ∷ suite_result suite ∷ []) lane.suites)
          (md.h3 lane.name report)

  unfoldable pub write_suites_details : List SuiteSummary → Document → Document
  unfolding suite_details has_details
  write_suites_details [] report = report
  write_suites_details (suite ∷ rest) report = write_suites_details rest (
      if has_details suite
      then md.bullet_list (suite_details suite) (md.h4 (suite.name <> " failures") report)
      else report)

  unfoldable pub write_lane_details : LaneSummary → Document → Document
  unfolding write_suites_details show_lane_error
  write_lane_details lane report = write_suites_details lane.suites (
      if show_lane_error lane
      then md.code_blocks lane.error (md.h3 (lane.name <> " details") report)
      else report)

  unfoldable pub write_each_lane :
      (LaneSummary → Document → Document) → List LaneSummary → Document → Document
  write_each_lane write [] report = report
  write_each_lane write (lane ∷ rest) report = write_each_lane write rest (write lane report)

  -- summary.markdown()
  unfoldable pub markdown : Summary → String
  unfolding write_each_lane write_lane_summary write_lane_details result_text
  markdown summary = md.text (
      write_each_lane write_lane_details summary.lanes (
        write_each_lane write_lane_summary summary.lanes
          (md.h2 ("E2E: " <> result_text summary.result) md.new_markdown)))

indent_list_continuation_runs : indent_list_continuation " got\nwant\n" ≡ "got\n  want"
unfolding indent_list_continuation
indent_list_continuation_runs = refl
