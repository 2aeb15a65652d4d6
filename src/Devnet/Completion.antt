-- ===== src/Devnet/Completion.antt =====
-- When the output of a Starlark run counts as a success.
use qrl_tests.Prelude.{
  Bool, true, false, Option, none, some, List, [], ◌∷◌, ◌++◌, ◌≡◌, ◌↔◌, refl, ap, All, ◌⊎◌, inl,
  inr, sym, ◌∙◌,
}
use qrl_tests.Errors.{Fault}
use qrl_tests.Devnet.Starlark.{
  ResponseLine, consume_from, consume_starlark_completion, with_line_error,
}

abbrev pub IsUnfinished : ResponseLine → Type 0
IsUnfinished line = line.finished ≡ none

-- Some line tells of success, and none before it tells of an end.
abbrev pub IsCompleted : List ResponseLine → Type 0
IsCompleted stream =
    (before : List ResponseLine) × (line : ResponseLine) × (after : List ResponseLine) × (stream
      ≡ before ++ line ∷ after)
    × All IsUnfinished before
    × (line.finished ≡ some true)

IsCompleted-first :
    (line : ResponseLine) (rest : List ResponseLine) (b : Bool)
    → line.finished ≡ some b
    → IsCompleted (line ∷ rest)
    → b ≡ true
IsCompleted-first line rest b e ([], l, after, split, all, done) = cc
IsCompleted-first line rest b e (l ∷ before, l', after, split, all, done) = absurd cc

IsCompleted-later :
    (line : ResponseLine) (rest : List ResponseLine)
    → line.finished ≡ none
    → IsCompleted (line ∷ rest)
    → IsCompleted rest
IsCompleted-later line rest e ([], l, after, split, all, done) = absurd cc
IsCompleted-later line rest e (l ∷ before, l', after, split, all, done) =
    (before, l', after, cc, all.1, done)

not_completed : IsCompleted [] → ⊥
not_completed ([], l, after, split, all, done) = absurd cc
not_completed (l ∷ before, l', after, split, all, done) = absurd cc

IsCompleted-cons :
    (line : ResponseLine) (rest : List ResponseLine)
    → line.finished ≡ none
    → IsCompleted rest
    → IsCompleted (line ∷ rest)
IsCompleted-cons line rest e (before, l, after, split, all, done) =
    (line ∷ before, l, after, ap (λ s. line ∷ s) split, (e, all), done)

finished-cases : (o : Option Bool) → (o ≡ none) ⊎ ((o ≡ some true) ⊎ (o ≡ some false))
finished-cases none = inl refl
finished-cases (some true) = inr (inl refl)
finished-cases (some false) = inr (inr refl)

consume_from_later :
    (line : ResponseLine) (rest : List ResponseLine) (run_err : Option Fault)
    → line.finished ≡ none
    → consume_from run_err (line ∷ rest) ≡ consume_from (with_line_error run_err line) rest
unfolding consume_from
consume_from_later line rest run_err e = rw e refl

consume_from_failed :
    (line : ResponseLine) (rest : List ResponseLine) (run_err : Option Fault)
    → line.finished ≡ some false
    → (consume_from run_err (line ∷ rest) ≡ none)
    → ⊥
unfolding consume_from
consume_from_failed line rest run_err e = rw e (λ h. cc)

true_of_false : false ≡ true → ⊥
true_of_false h = cc

consume_from_nil :
    (stream : List ResponseLine) (run_err : Option Fault)
    → (consume_from run_err stream ≡ none) ↔ IsCompleted stream
unfolding consume_from
consume_from_nil [] run_err = ((λ h. absurd cc), (λ h. absurd (not_completed h)))
consume_from_nil (line ∷ rest) run_err = elim (finished-cases line.finished) [
  | inl e ↦
      let ih = consume_from_nil rest (with_line_error run_err line) in
      let step = consume_from_later line rest run_err e in
      (
        (λ h. IsCompleted-cons line rest e (ih.0 (sym step ∙ h))),
        (λ h. step ∙ ih.1 (IsCompleted-later line rest e h)),
      )
  | inr (inl e) ↦ ((λ h. ([], line, rest, refl, tt, e)), (λ h. rw e refl))
  | inr (inr e) ↦ (
    (λ h. absurd (consume_from_failed line rest run_err e h)),
    (λ h. absurd (true_of_false (IsCompleted-first line rest false e h))),
  )
]

-- Reading the output of a run gives no error exactly when some line tells of success and no line
-- before it tells of an end: errors that lines before it carry do not matter, and what comes after
-- is not read.
pub consume_starlark_completion_nil :
    (stream : List ResponseLine) → (consume_starlark_completion stream ≡ none) ↔ IsCompleted stream
unfolding consume_starlark_completion
consume_starlark_completion_nil stream = consume_from_nil stream none
