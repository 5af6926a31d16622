-- ===== src/Tests/Rules.antt =====
-- The rules of answering, of choosing, of waiting and of the breaker at work.
use mathlib.Core.List.{Memᴰ}
use agent_runs.Base.{
  ℕ, ◌+◌, ◌*◌, ◌≤◌, ◌<◌, ◌^◌, none, String, ◌≡◌, ◌↔◌, true, false, Option, some, List, [], ◌∷◌, ok,
  refl, arith, eq_iff, min, leb, length, All,
}
use agent_runs.Answering.{KeyInfo, require_may_answer, require_may_cancel}
use agent_runs.Answering.Rule.{
  MayAnswer, require_may_answer-iff-MayAnswer, require_may_cancel-iff-answer,
}
use agent_runs.Run.Rows.{Interrupt, plain, items}
use agent_runs.Answers.{choice_problem}
use agent_runs.Answers.Choices.{IsDistinct, choose_several, choose_one}
use agent_runs.Retry.{
  seconds, max_timedelta, backoff, Breaker, breaker, is_open, allows, record_success,
  record_failure,
}
use agent_runs.Retry.Backoff.{backoff_lem}
use agent_runs.Retry.Cooldown.{fail_at, breaker_opens, breaker_half_open}
use agent_runs.Tests.Samples.{question}

abbrev ann_key : KeyInfo
ann_key = record {
  key_id = "k";
  tenant_id = some "t";
  principal = "key:app";
  role = "caller";
  may_act_as = "user:ann" ∷ [];
}

require_may_answer-iff-MayAnswer_example :
    (require_may_answer ann_key (some "ann") (some "ann") ≡ ok tt)
    ↔ MayAnswer ann_key (some "ann") (some "ann")
require_may_answer-iff-MayAnswer_example =
    require_may_answer-iff-MayAnswer ann_key (some "ann") (some "ann")

require_may_cancel-iff-answer_example :
    (require_may_cancel ann_key (some "ann") ≡ ok tt)
    ↔ ((reviewer : Option String) × (require_may_answer ann_key (some "ann") reviewer ≡ ok tt))
require_may_cancel-iff-answer_example =
    require_may_cancel-iff-answer ann_key (some "ann") (ground (arith, eq_iff "ann" ""))

abbrev several : Interrupt
several = record question { multiple = true }

choose_several_example :
    ((choice_problem several (items ("b" ∷ "a" ∷ [])) ≡ false)
      ↔ (All (λ p. Memᴰ p several.options) ("b" ∷ "a" ∷ []) × IsDistinct ("b" ∷ "a" ∷ [])))
    × (choice_problem several (plain "a") ≡ true)
choose_several_example = choose_several several "a" ("b" ∷ "a" ∷ []) refl

choose_one_example :
    ((choice_problem question (plain "a") ≡ false) ↔ Memᴰ "a" question.options)
    × (choice_problem question (items ("a" ∷ [])) ≡ true)
choose_one_example = choose_one question "a" ("a" ∷ []) refl

backoff_lem_example :
    (wait : ℕ) × (next : ℕ) × (backoff (seconds 10) 4 (seconds 600) ≡ some wait)
    × (backoff (seconds 10) 5 (seconds 600) ≡ some next)
    × (next ≤ seconds 600)
    × (wait ≤ next)
    × (next ≡ min (2 * wait) (seconds 600))
    × (backoff (seconds 10) 1 (seconds 600) ≡ some (min (seconds 10) (seconds 600)))
    × ((backoff (seconds 10) 44 (seconds 600) ≡ none) ↔ (max_timedelta < seconds 10 * 2 ^ 43))
backoff_lem_example = backoff_lem (seconds 10) (seconds 600) 3 43 (omega arith)

-- The 44th consecutive failure of that dependency has no wait: the code raises an OverflowError.
backoff-overflow : backoff (seconds 10) 44 (seconds 600) ≡ none
unfolding backoff
backoff-overflow = refl

abbrev failing_at : List ℕ
failing_at = 1 ∷ 2 ∷ 3 ∷ []

breaker_opens_example : is_open (fail_at (breaker 3 10) failing_at) ≡ leb 3 (length failing_at)
breaker_opens_example = breaker_opens 3 10 failing_at (omega arith)

abbrev tripped : Breaker
tripped = record { threshold = 3; cooldown = 10; failures = 3; opened_at = some 5 }

breaker_half_open_example :
    (allows tripped 20 ≡ leb (5 + tripped.cooldown) 20)
    × (is_open (record_failure tripped 20) ≡ true)
    × (allows (record_failure tripped 20) 25 ≡ leb (20 + tripped.cooldown) 25)
    × (allows (record_success tripped) 25 ≡ true)
    × ((record_success tripped).failures ≡ 0)
breaker_half_open_example = breaker_half_open tripped 5 20 25 refl
