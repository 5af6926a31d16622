-- ===== src/Paging/Order.antt =====
-- Sorting by positions that differ: a selection of the sorted rows is the selected rows sorted, and the
-- rows behind the last of a page are the ones the page left out.
use mathlib.Core.Path.{subst, sym}
use agent_runs.Base.{
  select_whole, ℕ, zero, suc, ◌≡◌, ◌⊎◌, inl, inr, Bool, true, false, none, some, List, [], ◌∷◌,
  arith, refl, ap, ◌∙◌, All, All-weaken, Bool-cases, Option-cases, take, drop, last_of, select,
  insert_by, sort_by, if◌then◌else◌,
}
use agent_runs.Run.Keeps.{select-All}

module _ {R : Type 0} (before : R → R → Bool) where
  -- A strict order.
  pub record IsOrder : Type 0 where
    pub irreflexive : (a : R) → before a a ≡ false
    pub transitive : (a b c : R) → before a b ≡ true → before b c ≡ true → before a c ≡ true

  -- A row that stands apart from the others: each comes before it or behind it.
  abbrev pub Apart : R → List R → Type 0
  Apart a xs = All (λ x. (before a x ≡ true) ⊎ (before x a ≡ true)) xs

  abbrev pub AllApart : List R → Type 0
  AllApart [] = Unit
  AllApart (x ∷ xs) = Apart x xs × AllApart xs

  abbrev pub IsSorted : List R → Type 0
  IsSorted [] = Unit
  IsSorted (x ∷ xs) = All (λ y. before x y ≡ true) xs × IsSorted xs

  insert_by-All :
      (P : R → Type 0) (a : R) (xs : List R) → P a → All P xs → All P (insert_by before a xs)
  insert_by-All P a [] new all = (new, tt)
  insert_by-All P a (x ∷ xs) new all = elim (Bool-cases (before x a)) [
    | inl t ↦ rw t (all.0, insert_by-All P a xs new all.1)
    | inr f ↦ rw f (new, all)
  ]

  sort_by-All : (P : R → Type 0) (xs : List R) → All P xs → All P (sort_by before xs)
  sort_by-All P [] all = tt
  sort_by-All P (x ∷ xs) all = insert_by-All P x (sort_by before xs) all.0 (sort_by-All P xs all.1)

  module _ (law : IsOrder) where
    insert_by-IsSorted :
        (a : R) (xs : List R) → Apart a xs → IsSorted xs → IsSorted (insert_by before a xs)
    insert_by-IsSorted a [] apart sorted = (tt, tt)
    insert_by-IsSorted a (x ∷ xs) apart sorted = elim (Bool-cases (before x a)) [
      | inl t ↦ rw t (
        insert_by-All (λ y. before x y ≡ true) a xs t sorted.0,
        insert_by-IsSorted a xs apart.1 sorted.1,
      )
      | inr f ↦
          let first : before a x ≡ true = elim apart.0 [
            | inl e ↦ e
            | inr e ↦ absurd (ground (arith, e))
          ] in
          rw f (
            (
              first,
              All-weaken _ (λ y. before a y ≡ true) xs (λ y e. law.transitive a x y first e)
                  sorted.0,
            ),
            sorted,
          )
    ]

    pub sort_by-IsSorted : (xs : List R) → AllApart xs → IsSorted (sort_by before xs)
    sort_by-IsSorted [] apart = tt
    sort_by-IsSorted (x ∷ xs) apart =
        insert_by-IsSorted x (sort_by before xs) (sort_by-All _ xs apart.0)
          (sort_by-IsSorted xs apart.1)

    -- A row before all the others is put in front.
    insert_by-first :
        (a : R) (xs : List R) → All (λ y. before y a ≡ false) xs → insert_by before a xs ≡ a ∷ xs
    insert_by-first a [] all = refl
    insert_by-first a (x ∷ xs) all = rw all.0 refl

    asymmetric : (a b : R) → before a b ≡ true → before b a ≡ false
    asymmetric a b e = elim (Bool-cases (before b a)) [
      | inl t ↦ absurd (ground (arith, law.transitive a b a e t, law.irreflexive a))
      | inr f ↦ f
    ]

    if_agrees : (b : Bool) (x y z : List R) → x ≡ y → (if b then x else z) ≡ (if b then y else z)
    if_agrees b x y z e = ap (λ w. if b then w else z) e

    select-insert_by :
        (test : R → Bool) (a : R) (xs : List R)
        → Apart a xs
        → IsSorted xs
        → select test (insert_by before a xs)
          ≡ (if test a then insert_by before a (select test xs) else select test xs)
    select-insert_by test a [] apart sorted = refl
    select-insert_by test a (x ∷ xs) apart sorted = elim (Bool-cases (before x a)) [
      | inl t ↦
          let rest = select-insert_by test a xs apart.1 sorted.1 in
          elim (Bool-cases (test a)) [
            | inl chosen ↦ elim (Bool-cases (test x)) [
              | inl kept ↦ rw (t, chosen, kept, t) (ap (λ ys. x ∷ ys) (rw chosen at rest))
              | inr gone ↦ rw (t, chosen, gone) (rw chosen at rest)
            ]
            | inr left ↦ elim (Bool-cases (test x)) [
              | inl kept ↦ rw (t, left, kept) (ap (λ ys. x ∷ ys) (rw left at rest))
              | inr gone ↦ rw (t, left, gone) (rw left at rest)
            ]
          ]
      | inr f ↦
          let first : before a x ≡ true = elim apart.0 [
            | inl e ↦ e
            | inr e ↦ absurd (ground (arith, e))
          ] in
          let others =
            All-weaken _ (λ y. before y a ≡ false) xs
              (λ y e. asymmetric a y (law.transitive a x y first e)) sorted.0 in
          let chosen =
            All-weaken _ (λ y. before y a ≡ false) _ (λ y both. both.0)
              (select-All (λ y. before y a ≡ false) test (x ∷ xs) (f, others)) in
          rw f (
            if_agrees (test a) (a ∷ select test (x ∷ xs))
              (insert_by before a (select test (x ∷ xs))) _
              (sym (insert_by-first a (select test (x ∷ xs)) chosen)))
    ]

    sort_chosen :
        (b : Bool) (x : R) (ys zs : List R)
        → ys ≡ sort_by before zs
        → (if b then insert_by before x ys else ys) ≡ sort_by before (if b then x ∷ zs else zs)
    sort_chosen true x ys zs e = ap (insert_by before x) e
    sort_chosen false x ys zs e = e

    pub select-sort_by :
        (test : R → Bool) (xs : List R)
        → AllApart xs
        → select test (sort_by before xs) ≡ sort_by before (select test xs)
    select-sort_by test [] apart = refl
    select-sort_by test (x ∷ xs) apart =
        select-insert_by test x (sort_by before xs) (sort_by-All _ xs apart.0)
          (sort_by-IsSorted xs apart.1)
        ∙ sort_chosen (test x) x (select test (sort_by before xs)) (select test xs)
            (select-sort_by test xs apart.1)

    nothing_last : (n : ℕ) {l : R} → last_of (take n []) ≡ some l → ⊥
    nothing_last zero e = ground arith
    nothing_last (suc n) e = ground arith

    left_out : (n : ℕ) (xs : List R) → last_of (take n xs) ≡ none → drop n xs ≡ xs
    left_out zero xs e = refl
    left_out (suc n) [] e = refl
    left_out (suc n) (x ∷ xs) e = elim (Option-cases (last_of (take n xs))) [
      | inl gone ↦ absurd (ground (arith, gone))
      | inr (y, there) ↦ absurd (ground (arith, there))
    ]

    last-All :
        (P : R → Type 0) (n k : ℕ) (xs : List R) {l : R}
        → All P xs
        → last_of (take n (drop k xs)) ≡ some l
        → P l
    last-All P zero zero xs all e = absurd (ground arith)
    last-All P (suc n) zero [] all e = absurd (ground arith)
    last-All P (suc n) zero (x ∷ xs) {l} all e = elim (Option-cases (last_of (take n xs))) [
      | inl none_later ↦ let same : x ≡ l = ground (arith, none_later) in subst P same all.0
      | inr (y, later) ↦
          let same : last_of (take n xs) ≡ some l = ground (arith, later) in
          last-All P n zero xs all.1 same
    ]
    last-All P n (suc k) [] all e = absurd (nothing_last n e)
    last-All P n (suc k) (x ∷ xs) all e = last-All P n k xs all.1 e

    pub behind_last :
        (n k : ℕ) (xs : List R) {l : R}
        → IsSorted xs
        → last_of (take n (drop k xs)) ≡ some l
        → select (before l) xs ≡ drop n (drop k xs)
    behind_last zero zero xs sorted e = absurd (ground arith)
    behind_last (suc n) zero [] sorted e = refl
    behind_last (suc n) zero (x ∷ xs) {l} sorted e = elim (Option-cases (last_of (take n xs))) [
      | inl none_later ↦
          let same : x ≡ l = ground (arith, none_later) in
          let behind = subst (λ z. All (λ y. before z y ≡ true) xs) same sorted.0 in
          let first : before l x ≡ false =
            subst (λ z. before l z ≡ false) (sym same) (law.irreflexive l) in
          rw first (select_whole (before l) xs behind ∙ sym (left_out n xs none_later))
      | inr (y, later) ↦
          let same : last_of (take n xs) ≡ some l = ground (arith, later) in
          let behind : before l x ≡ false =
            asymmetric x l (last-All (λ y. before x y ≡ true) n zero xs sorted.0 same) in
          rw behind (behind_last n zero xs sorted.1 same)
    ]
    behind_last n (suc k) [] sorted e = absurd (nothing_last n e)
    behind_last n (suc k) (x ∷ xs) {l} sorted e =
        let behind : before l x ≡ false =
          asymmetric x l (last-All (λ y. before x y ≡ true) n k xs sorted.0 e) in
        rw behind (behind_last n k xs sorted.1 e)
