-- ===== src/Answering/Rule.antt =====
-- The three rules of who may answer, and that whoever may answer may cancel.
use agent_runs.Base.{
  String, ◌≡◌, ◌≢◌, ◌↔◌, true, false, Option, none, some, ok, arith, eq_iff, contains, str_eq, refl,
  sym, ap, ◌∙◌, Bool-cases, inl, inr,
}
use agent_runs.Answering.{
  KeyInfo, may_act_for, administers, kind_of, as_principal, is_individual, answering,
  check_assignee, require_may_answer, as_assignee, require_may_cancel,
}

-- README.md, "Who may answer a paused run".
pub data MayAnswer (key : KeyInfo) (assignee : Option String) (reviewer : Option String)
    : Type 0 where
  administering : administers key.role ≡ true → MayAnswer key assignee reviewer
  for_anyone : contains "*" key.may_act_as ≡ true → MayAnswer key assignee reviewer
  unassigned :
      may_act_for key (answering key reviewer) ≡ true
      → assignee ≡ none
      → MayAnswer key assignee reviewer
  assigned :
      (name : String)
      → may_act_for key (answering key reviewer) ≡ true
      → assignee ≡ some name
      → is_individual (kind_of (as_principal name)) ≡ true
      → as_principal name ≡ answering key reviewer
      → MayAnswer key assignee reviewer

answer_complete :
    (key : KeyInfo) (assignee reviewer : Option String)
    → MayAnswer key assignee reviewer
    → require_may_answer key assignee reviewer ≡ ok tt
unfolding require_may_answer
answer_complete key assignee reviewer (administering h) = ground arith
answer_complete key assignee reviewer (for_anyone h) = ground arith
answer_complete key assignee reviewer (unassigned h e) = ground arith
answer_complete key assignee reviewer (assigned name h e i q) =
    ground (arith, eq_iff (as_principal name) (answering key reviewer))

answer_sound :
    (key : KeyInfo) (assignee reviewer : Option String)
    → require_may_answer key assignee reviewer ≡ ok tt
    → MayAnswer key assignee reviewer
unfolding require_may_answer
answer_sound key assignee reviewer h = elim (Bool-cases (administers key.role)) [
  | inl a ↦ administering a
  | inr na ↦ elim (Bool-cases (contains "*" key.may_act_as)) [
    | inl s ↦ for_anyone s
    | inr ns ↦ restricted assignee (ground arith) (ground arith)
  ]
]
  where
    restricted :
        (a : Option String)
        → may_act_for key (answering key reviewer) ≡ true
        → check_assignee a (answering key reviewer) ≡ ok tt
        → MayAnswer key a reviewer
    restricted none m c = unassigned m refl
    restricted (some name) m c =
        assigned name m refl (ground arith)
          (ground (arith, eq_iff (as_principal name) (answering key reviewer)))

-- A key may answer, as the reviewer it names, a run assigned as it is exactly when one of the three
-- rules of the README lets it: it administers the tenant; it may act for anyone; or it may act for
-- who it answers as, and the run is assigned to nobody or to that very principal, which is no group.
pub require_may_answer-iff-MayAnswer :
    (key : KeyInfo) (assignee reviewer : Option String)
    → (require_may_answer key assignee reviewer ≡ ok tt) ↔ MayAnswer key assignee reviewer
require_may_answer-iff-MayAnswer key assignee reviewer =
    (answer_sound key assignee reviewer, answer_complete key assignee reviewer)

-- A key may act for its own principal.
may_act_for_self : (key : KeyInfo) → may_act_for key key.principal ≡ true
unfolding may_act_for
may_act_for_self key = ground (arith, eq_iff key.principal key.principal)

cancel-answer :
    (key : KeyInfo) (assignee : Option String)
    → require_may_cancel key assignee ≡ ok tt
    → (reviewer : Option String) × (require_may_answer key assignee reviewer ≡ ok tt)
unfolding require_may_cancel
cancel-answer key assignee h = (as_assignee key assignee, h)

name_set : (name : String) → name ≢ "" → str_eq name "" ≡ false
name_set name h = ground (arith, eq_iff name "")

answering_named :
    (key : KeyInfo) (name : String)
    → str_eq name "" ≡ false
    → answering key (some name) ≡ as_principal name
unfolding answering
answering_named key name h = rw h

as_assignee_named :
    (key : KeyInfo) (name : String)
    → str_eq name "" ≡ false
    → may_act_for key (as_principal name) ≡ true
    → as_assignee key (some name) ≡ some name
unfolding as_assignee
as_assignee_named key name h m = rw (h, m)

answer-cancel :
    (key : KeyInfo) (assignee reviewer : Option String)
    → assignee ≢ some ""
    → MayAnswer key assignee reviewer
    → require_may_cancel key assignee ≡ ok tt
unfolding require_may_cancel
answer-cancel key assignee reviewer filled (administering h) =
    answer_complete key assignee _ (administering h)
answer-cancel key assignee reviewer filled (for_anyone h) =
    answer_complete key assignee _ (for_anyone h)
answer-cancel key assignee reviewer filled (unassigned m e) =
    rw e
      (answer_complete key none none (unassigned (unfold answering in may_act_for_self key) refl))
answer-cancel key assignee reviewer filled (assigned name m e i q) =
    let allowed : may_act_for key (as_principal name) ≡ true = rw q m in
    let set : str_eq name "" ≡ false = name_set name (λ empty. filled (e ∙ ap some empty)) in
    let who : answering key (some name) ≡ as_principal name = answering_named key name set in
    rw (e, as_assignee_named key name set allowed)
      (answer_complete key (some name) (some name)
        (assigned name (rw who allowed) refl i (sym who)))

-- A key may cancel a run exactly when there is a reviewer it could answer the run as. (The assignee,
-- if there is one, is not the empty text.)
pub require_may_cancel-iff-answer :
    (key : KeyInfo) (assignee : Option String)
    → assignee ≢ some ""
    → (require_may_cancel key assignee ≡ ok tt)
      ↔ ((reviewer : Option String) × (require_may_answer key assignee reviewer ≡ ok tt))
require_may_cancel-iff-answer key assignee filled = (
  cancel-answer key assignee,
  λ h. answer-cancel key assignee h.0 filled (answer_sound key assignee h.0 h.1),
)
