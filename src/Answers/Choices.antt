-- ===== src/Answers/Choices.antt =====
-- Which picks from the offered options a question takes.
use mathlib.Core.List.{Memᴰ}
use mathlib.Core.List.Memᴰ
use agent_runs.Base.{
  ◌≡◌, ◌↔◌, refl, true, false, List, [], ◌∷◌, arith, str_eq, contains, Bool-cases, inl, inr, All,
  eq_iff,
}
use agent_runs.Run.Rows.{Json, Interrupt, plain, items}
use agent_runs.Answers.{has_strangers, has_repeats, choice_problem}

-- No item occurs twice.
abbrev pub IsDistinct : List Json → Type 0
IsDistinct [] = Unit
IsDistinct (x ∷ xs) = (¬ Memᴰ x xs) × IsDistinct xs

contains-Memᴰ : (a : Json) (xs : List Json) → contains a xs ≡ true → Memᴰ a xs
contains-Memᴰ a [] e = absurd (ground arith)
contains-Memᴰ a (x ∷ xs) e = elim (Bool-cases (str_eq a x)) [
  | inl t ↦ Memᴰ.head (ground (arith, eq_iff a x))
  | inr f ↦ let later : contains a xs ≡ true = ground arith in Memᴰ.tail (contains-Memᴰ a xs later)
]

Memᴰ-contains : (a : Json) (xs : List Json) → Memᴰ a xs → contains a xs ≡ true
Memᴰ-contains a [] m = elim m [ ]
Memᴰ-contains a (x ∷ xs) m = elim (Memᴰ.cases_cons m) [
  | inl same ↦ ground (arith, eq_iff a x)
  | inr later ↦ ground (arith, Memᴰ-contains a xs later)
]

no_strangers :
    (values picked : List Json)
    → has_strangers values picked ≡ false
    → All (λ p. Memᴰ p values) picked
unfolding has_strangers
no_strangers values [] e = tt
no_strangers values (p ∷ ps) e =
    (contains-Memᴰ p values (ground arith), no_strangers values ps (ground arith))

known-no_strangers :
    (values picked : List Json)
    → All (λ p. Memᴰ p values) picked
    → has_strangers values picked ≡ false
unfolding has_strangers
known-no_strangers values [] h = refl
known-no_strangers values (p ∷ ps) h =
    ground (arith, Memᴰ-contains p values h.0, known-no_strangers values ps h.1)

no_repeats : (picked : List Json) → has_repeats picked ≡ false → IsDistinct picked
unfolding has_repeats
no_repeats [] e = tt
no_repeats (p ∷ ps) e =
    let out : contains p ps ≡ false = ground arith in
    (
      (λ m. let inside : contains p ps ≡ true = Memᴰ-contains p ps m in ground arith),
      no_repeats ps (ground arith),
    )

distinct-no_repeats : (picked : List Json) → IsDistinct picked → has_repeats picked ≡ false
unfolding has_repeats
distinct-no_repeats [] h = refl
distinct-no_repeats (p ∷ ps) h = elim (Bool-cases (contains p ps)) [
  | inl t ↦ absurd (h.0 (contains-Memᴰ p ps t))
  | inr f ↦ ground (arith, distinct-no_repeats ps h.1)
]

-- An interrupt that takes several options accepts exactly a list of its options, each picked once,
-- in any order and also an empty one; a single value is refused.
pub choose_several :
    (interrupt : Interrupt) (value : Json) (picked : List Json)
    → interrupt.multiple ≡ true
    → ((choice_problem interrupt (items picked) ≡ false)
        ↔ (All (λ p. Memᴰ p interrupt.options) picked × IsDistinct picked))
      × (choice_problem interrupt (plain value) ≡ true)
unfolding choice_problem
choose_several interrupt value picked several = (
  (
    (λ e. (no_strangers interrupt.options picked (ground arith), no_repeats picked (ground arith))),
    (λ h.
        ground
          (arith, known-no_strangers interrupt.options picked h.0, distinct-no_repeats picked h.1)),
  ),
  ground arith,
)

-- An interrupt that takes one option accepts exactly a value that is one of them; a list is refused.
pub choose_one :
    (interrupt : Interrupt) (value : Json) (picked : List Json)
    → interrupt.multiple ≡ false
    → ((choice_problem interrupt (plain value) ≡ false) ↔ Memᴰ value interrupt.options)
      × (choice_problem interrupt (items picked) ≡ true)
unfolding choice_problem
choose_one interrupt value picked single = (
  (
    (λ e. contains-Memᴰ value interrupt.options (ground arith)),
    (λ m. ground (arith, Memᴰ-contains value interrupt.options m)),
  ),
  ground arith,
)
