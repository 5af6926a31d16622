-- ===== src/Answers.antt =====
-- sdk/python/src/trellis/runs/answers.py: whether an answer fits its question. Each function says
-- whether there is a problem (`true`), not in which words. An option's value is a JSON text, and two
-- values are equal when their texts are (Python also takes `true` for 1; option values are texts).
pub mod Choices
use agent_runs.Base.{
  String, Bool, true, false, not, ◌&&◌, ◌||◌, Option, none, some, List, [], ◌∷◌, str_eq, contains,
  if◌then◌else◌, is_some, opt_eq,
}
use agent_runs.Run.Rows.{
  Json, Interrupt, Resolution, Value, plain, items, InterruptDecision, answered, edit, Contracts,
}

-- `schema_problem`
unfoldable pub schema_problem : Contracts → Option Json → Bool
schema_problem c none = false
schema_problem c (some expects) = not (c.is_schema expects)

-- `[picked for picked in value if picked not in values]` is not empty.
unfoldable pub has_strangers : List Json → List Json → Bool
has_strangers values [] = false
has_strangers values (picked ∷ rest) = not (contains picked values) || has_strangers values rest

-- `len(set(value)) != len(value)`
unfoldable pub has_repeats : List Json → Bool
has_repeats [] = false
has_repeats (picked ∷ rest) = contains picked rest || has_repeats rest

-- `_choice_problem`
unfoldable pub choice_problem : Interrupt → Value → Bool
unfolding has_strangers has_repeats
choice_problem interrupt (plain value) =
    if interrupt.multiple then true else not (contains value interrupt.options)
choice_problem interrupt (items picked) =
    if interrupt.multiple
    then has_strangers interrupt.options picked || has_repeats picked
    else true

abbrev pub is_empty : List Json → Bool
is_empty [] = true
is_empty (x ∷ xs) = false

-- `_fit_problem`
unfoldable pub fit_problem : Contracts → Interrupt → Value → Bool → Bool
unfolding schema_problem choice_problem
fit_problem c interrupt value choosing = elim interrupt.expects [
  | some expects ↦ schema_problem c (some expects) || c.misfits expects value
  | none ↦ choosing && not (is_empty interrupt.options) && choice_problem interrupt value
]

-- The tests of `answer_problem` below the first one, by the decision.
unfoldable pub decision_problem : Contracts → Interrupt → Resolution → InterruptDecision → Bool
unfolding fit_problem
decision_problem c interrupt resolution answered = fit_problem c interrupt resolution.answer true
decision_problem c interrupt resolution edit =
    if not (is_some interrupt.tool_call)
    then fit_problem c interrupt resolution.payload false
    else false
decision_problem c interrupt resolution _ =
    opt_eq resolution.remember (some "run") && not (is_some interrupt.tool_call)

-- `answer_problem`. (An EDIT of a tool call falls through to the test of `remember`, which asks for
-- no tool call: no problem.)
unfoldable pub answer_problem : Contracts → Interrupt → Resolution → Bool
unfolding decision_problem
answer_problem c interrupt resolution =
    not (c.resolves resolution interrupt)
    || decision_problem c interrupt resolution resolution.decision
