-- ===== src/Base/Members.antt =====
-- Members of a list, by the library's `Memᴰ`: what a selection keeps, and counting them.
use mathlib.Core.List.Memᴰ
use mathlib.Core.List.{Memᴰ}
use mathlib.Core.Path.{◌≡◌, refl, subst, sym}
use mathlib.Core.Bool.{Bool, true, false}
use mathlib.Core.Logic.{inl, inr}
use mathlib.Core.Option.{some}
use mathlib.Core.List.{List, [], ◌∷◌}
use Prim.Native.Nat.{◌≤◌, ◌<◌}
use native.Mathlib.Omega.{arith}
use agent_runs.Base.Tests.{Bool-cases}
use agent_runs.Base.Lists.{select, count_if, find_first, All, All-weaken}

module _ {ℓ} {A : Type ℓ} where
  pub select-Memᴰ :
      (test : A → Bool) (xs : List A) {a : A}
      → Memᴰ a (select test xs)
      → Memᴰ a xs × (test a ≡ true)
  select-Memᴰ test [] m = elim m [ ]
  select-Memᴰ test (x ∷ xs) {a} m = elim (Bool-cases (test x)) [
    | inl t ↦ elim (Memᴰ.cases_cons (rw t at m)) [
      | inl e ↦ (Memᴰ.head e, subst (λ z. test z ≡ true) (sym e) t)
      | inr m' ↦ let (later, passed) = select-Memᴰ test xs m' in (Memᴰ.tail later, passed)
    ]
    | inr f ↦ let (later, passed) = select-Memᴰ test xs (rw f at m) in (Memᴰ.tail later, passed)
  ]

  pub All-Memᴰ {κ} : (P : A → Type κ) (xs : List A) {a : A} → All P xs → Memᴰ a xs → P a
  All-Memᴰ P [] h m = elim m [ ]
  All-Memᴰ P (x ∷ xs) {a} h (Memᴰ.head e) = subst P (sym e) h.0
  All-Memᴰ P (x ∷ xs) h (Memᴰ.tail m) = All-Memᴰ P xs h.1 m

  pub count_if-le :
      (test smaller : A → Bool) (xs : List A)
      → ((x : A) → smaller x ≡ true → test x ≡ true)
      → count_if smaller xs ≤ count_if test xs
  count_if-le test smaller [] sub = omega arith
  count_if-le test smaller (x ∷ xs) sub = ground (arith, sub x, count_if-le test smaller xs sub)

  -- A smaller test that leaves a counted member out counts less.
  pub count_if-lt :
      (test smaller : A → Bool) (xs : List A) {a : A}
      → ((x : A) → smaller x ≡ true → test x ≡ true)
      → Memᴰ a xs
      → test a ≡ true
      → smaller a ≡ false
      → count_if smaller xs < count_if test xs
  count_if-lt test smaller [] sub m t f = elim m [ ]
  count_if-lt test smaller (x ∷ xs) {a} sub (Memᴰ.head e) t f =
      let t' : test x ≡ true = subst (λ z. test z ≡ true) e t in
      let f' : smaller x ≡ false = subst (λ z. smaller z ≡ false) e f in
      ground (arith, count_if-le test smaller xs sub)
  count_if-lt test smaller (x ∷ xs) sub (Memᴰ.tail m) t f =
      ground (arith, sub x, count_if-lt test smaller xs sub m t f)

  -- Every member of a list is a member of it.
  pub All-self : (xs : List A) → All (λ x. Memᴰ x xs) xs
  All-self [] = tt
  All-self (x ∷ xs) = (
    Memᴰ.head refl,
    All-weaken (λ y. Memᴰ y xs) (λ y. Memᴰ y (x ∷ xs)) xs (λ y m. Memᴰ.tail m) (All-self xs),
  )

  pub find_first-passes :
      (test : A → Bool) (xs : List A) {a : A} → find_first test xs ≡ some a → test a ≡ true
  find_first-passes test [] e = absurd (ground arith)
  find_first-passes test (x ∷ xs) {a} e = elim (Bool-cases (test x)) [
    | inl t ↦ let same : x ≡ a = ground arith in subst (λ z. test z ≡ true) same t
    | inr f ↦
        let later : find_first test xs ≡ some a = ground arith in find_first-passes test xs later
  ]
