-- ===== src/Results/Counting.antt =====
-- The loop of `tally` against counts over the report's specs.
use qrl_tests.Prelude.{
  ◌+◌, Bool, true, false, not, ◌&&◌, ◌||◌, List, [], ◌∷◌, ◌≡◌, refl, arith, length, sym, ◌∙◌,
  not_true, length-snoc, count_where,
}
use qrl_tests.Ginkgo.{Ginkgo, SpecReport, Report}
use qrl_tests.Results.Types.{SuiteSummary, Counts}
use qrl_tests.Results.Tally.{spec_name, failure_of, tally, tally_all}
use qrl_tests.Results.Summarize.{started, tallied}

module _ (g : Ginkgo) where
  abbrev pub is_it_spec : SpecReport g → Bool
  is_it_spec spec = g.is_it spec.leaf_node_type

  abbrev pub passes : SpecReport g → Bool
  passes spec = is_it_spec spec && g.same_state spec.state g.passed

  -- An It that was neither run to a pass nor to a failure.
  abbrev pub is_unrun : SpecReport g → Bool
  is_unrun spec =
      is_it_spec spec && (g.same_state spec.state g.pending || g.same_state spec.state g.skipped)

  abbrev pub fails : SpecReport g → Bool
  fails spec =
      is_it_spec spec
      && not (g.same_state spec.state g.passed)
      && not (g.same_state spec.state g.pending || g.same_state spec.state g.skipped)

  abbrev pub in_failure_state : SpecReport g → Bool
  in_failure_state spec = g.is_failure_state spec.state

  -- What a summary holds after the specs `xs`, given what it held before them.
  pub record Adds (before after : SuiteSummary) (xs : List (SpecReport g)) : Type 0 where
    pub specs : after.counts.specs ≡ before.counts.specs + count_where is_it_spec xs
    pub passed : after.counts.passed ≡ before.counts.passed + count_where passes xs
    pub failed : after.counts.failed ≡ before.counts.failed + count_where fails xs
    pub unrun :
        after.counts.pending + after.counts.skipped
        ≡ before.counts.pending + before.counts.skipped + count_where is_unrun xs
    pub failures : length after.failures ≡ length before.failures + count_where in_failure_state xs
    pub skips :
        length after.unexpected_skips ≡ length before.unexpected_skips + count_where is_unrun xs
    pub suite_failures : after.suite_failures ≡ before.suite_failures
    pub name : after.name ≡ before.name

  -- `passed` is neither pending nor skipped.
  pub passed_ne :
      (state : g.SpecState)
      → g.same_state state g.passed ≡ true
      → (g.same_state state g.pending ≡ false) × (g.same_state state g.skipped ≡ false)
  passed_ne state h =
      let e : state ≡ g.passed = (g.same_state_iff state g.passed).0 h in
      (
        not_true (λ p. g.passed_ne_pending (sym e ∙ (g.same_state_iff state g.pending).0 p)),
        not_true (λ p. g.passed_ne_skipped (sym e ∙ (g.same_state_iff state g.skipped).0 p)),
      )

  tally-Adds : (s : SuiteSummary) (spec : SpecReport g) → Adds s (tally g s spec) (spec ∷ [])
  unfolding tally
  tally-Adds s spec = ground (
    arith,
    passed_ne spec.state,
    length-snoc s.failures (failure_of g spec (spec_name g spec)),
    length-snoc s.unexpected_skips (spec_name g spec),
  )

  tally_all-Adds : (s : SuiteSummary) (xs : List (SpecReport g)) → Adds s (tally_all g s xs) xs
  unfolding tally_all
  tally_all-Adds s [] = ground arith
  tally_all-Adds s (spec ∷ xs) =
      ground (arith, tally-Adds s spec, tally_all-Adds (tally g s spec) xs)

  -- The counts of a suite's summary are the counts of its report's specs.
  pub record Counted (summary : SuiteSummary) (xs : List (SpecReport g)) : Type 0 where
    pub specs : summary.counts.specs ≡ count_where is_it_spec xs
    pub passed : summary.counts.passed ≡ count_where passes xs
    pub failed : summary.counts.failed ≡ count_where fails xs
    pub unrun : summary.counts.pending + summary.counts.skipped ≡ count_where is_unrun xs
    pub failures : length summary.failures ≡ count_where in_failure_state xs
    pub skips : length summary.unexpected_skips ≡ count_where is_unrun xs

  -- A suite's tally counts its specs: as many specs, passes, failures and unrun specs as there are
  -- Its in the states for them, a failure for each spec in a failure state, and an unexpected skip
  -- for each unrun It.
  pub tallied-Counted : (report : Report g) → Counted (tallied g report) report.spec_reports
  unfolding tallied
  tallied-Counted report = ground (arith, tally_all-Adds (started g report) report.spec_reports)

  count_split :
      (xs : List (SpecReport g))
      → count_where is_it_spec xs
        ≡ count_where passes xs + count_where fails xs + count_where is_unrun xs
  count_split [] = refl
  count_split (spec ∷ xs) = ground (arith, passed_ne spec.state, count_split xs)

  abbrev pub IsBalanced : Counts → Type 0
  IsBalanced counts = counts.specs ≡ counts.passed + counts.failed + counts.pending + counts.skipped

  -- The specs of a suite's tally are its passed, failed, pending and skipped ones together.
  tallied-IsBalanced : (report : Report g) → IsBalanced (tallied g report).counts
  tallied-IsBalanced report = omega (arith, tallied-Counted report, count_split report.spec_reports)
