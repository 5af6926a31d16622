-- ===== src/Paging/Walk.antt =====
-- A walk along the pages of a listing meets every row once, in order.
use mathlib.Core.List.{append-nil}
use agent_runs.Base.{
  select_whole, ℕ, zero, suc, ◌+◌, ◌-◌, ◌≤◌, ◌<◌, ◌≡◌, Bool, true, Option, none, some, List, [],
  ◌∷◌, ◌++◌, arith, refl, ap, ◌∙◌, sym, map, length, take, drop, last_of, select, sort_by, ltb,
  Bool-cases, Option-cases, inl, inr, if◌then◌else◌, length-take, ltb→lt, All,
}
use agent_runs.Paging.{Position, Page, page_of, is_behind, page}
use agent_runs.Paging.Order.{
  IsOrder, AllApart, sort_by-IsSorted, select-sort_by, behind_last, IsSorted,
}

-- The items of the pages from a position on: each page's, then those of the page it leads to. The
-- number of pages asked for is bounded.
unfoldable pub walk : {T : Type 0} → ℕ → (Option Position → Page T) → Option Position → List T
walk zero fetch after = []
walk (suc pages) fetch after =
    let here = fetch after in
    here.items ++ elim here.after [ none ↦ [] | some next ↦ walk pages fetch (some next) ]

module _ {A : Type 0} where
  take-take : (n m : ℕ) (xs : List A) → n ≤ m → take n (take m xs) ≡ take n xs
  take-take zero m xs e = refl
  take-take (suc n) zero xs e = absurd (omega (arith, e))
  take-take (suc n) (suc m) [] e = refl
  take-take (suc n) (suc m) (x ∷ xs) e = ap (λ ys. x ∷ ys) (take-take n m xs (omega (arith, e)))

  take-append-drop : (n : ℕ) (xs : List A) → take n xs ++ drop n xs ≡ xs
  take-append-drop zero xs = refl
  take-append-drop (suc n) [] = refl
  take-append-drop (suc n) (x ∷ xs) = ap (λ ys. x ∷ ys) (take-append-drop n xs)

  take_all : (n : ℕ) (xs : List A) → length xs ≤ n → take n xs ≡ xs
  take_all zero [] e = refl
  take_all zero (x ∷ xs) e = absurd (omega (arith, e))
  take_all (suc n) [] e = refl
  take_all (suc n) (x ∷ xs) e = ap (λ ys. x ∷ ys) (take_all n xs (omega (arith, e)))

  drop-nil : (n : ℕ) → drop {A = A} n [] ≡ []
  drop-nil zero = refl
  drop-nil (suc n) = refl

  drop-drop : (n k m : ℕ) (xs : List A) → k + n ≡ m → drop n (drop k xs) ≡ drop m xs
  drop-drop n zero m xs e = ap (λ j. drop j xs) (omega (arith, e))
  drop-drop n (suc k) m [] e = drop-nil n ∙ sym (drop-nil m)
  drop-drop n (suc k) zero (x ∷ xs) e = absurd (omega (arith, e))
  drop-drop n (suc k) (suc m) (x ∷ xs) e = drop-drop n k m xs (omega (arith, e))

  length-drop : (n : ℕ) (xs : List A) → length (drop n xs) ≡ length xs - n
  length-drop zero xs = omega arith
  length-drop (suc n) [] = omega arith
  length-drop (suc n) (x ∷ xs) = omega (arith, length-drop n xs)

  has_last :
      (n : ℕ) (xs : List A) → 0 < n → 0 < length xs → (l : A) × (last_of (take n xs) ≡ some l)
  has_last zero xs n_pos xs_pos = absurd (omega (arith, n_pos))
  has_last (suc n) [] n_pos xs_pos = absurd (omega (arith, xs_pos))
  has_last (suc n) (x ∷ xs) n_pos xs_pos = elim (Option-cases (last_of (take n xs))) [
    | inl gone ↦ (x, rw gone refl)
    | inr (y, there) ↦ (y, rw there refl)
  ]

All-true : {A : Type 0} (xs : List A) → All (λ x. true ≡ true) xs
All-true [] = tt
All-true (x ∷ xs) = (refl, All-true xs)

map-append : {A B : Type 0} (f : A → B) (xs ys : List A) → map f xs ++ map f ys ≡ map f (xs ++ ys)
map-append f [] ys = refl
map-append f (x ∷ xs) ys = ap (λ zs. f x ∷ zs) (map-append f xs ys)

module _ {R T : Type 0} (before : Position → Position → Bool) (position : R → Position)
    (item : R → T) (test : R → Bool) (limit : ℕ) (rows : List R)
    (law : IsOrder (λ (a b : R). before (position a) (position b)))
    (apart : AllApart (λ (a b : R). before (position a) (position b)) (select test rows))
    (some_limit : 0 < limit) where
  unfoldable pub all_rows : List R
  all_rows = sort_by (λ a b. before (position a) (position b)) (select test rows)

  sorted : IsSorted (λ (a b : R). before (position a) (position b)) all_rows
  unfolding all_rows
  sorted = sort_by-IsSorted (λ a b. before (position a) (position b)) law (select test rows) apart

  -- The rows a page is fetched from.
  fetched :
      (after : Option Position)
      → sort_by
          (λ a b. before (position a) (position b))
          (select (λ r. is_behind before after (position r)) (select test rows))
        ≡ select (λ r. is_behind before after (position r)) all_rows
  unfolding all_rows
  fetched after = sym (
      select-sort_by (λ a b. before (position a) (position b)) law
        (λ r. is_behind before after (position r)) (select test rows) apart)

  -- A page of the rows from the k-th on.
  page_items :
      (k : ℕ) (after : Option Position)
      → select (λ r. is_behind before after (position r)) all_rows ≡ drop k all_rows
      → (page before position item test limit after rows).items
        ≡ map item (take limit (drop k all_rows))
  unfolding page page_of
  page_items k after e =
      rw (fetched after)
        (rw e (rw (take-take limit (limit + 1) (drop k all_rows) (omega arith)) refl))

  -- Where the page after it starts.
  page_after :
      (k : ℕ) (after : Option Position)
      → select (λ r. is_behind before after (position r)) all_rows ≡ drop k all_rows
      → (page before position item test limit after rows).after ≡ (
          if ltb limit (length (drop k all_rows))
          then elim (last_of (take limit (drop k all_rows))) [
            | none ↦ none
            | some row ↦ some (position row)
          ]
          else none)
  unfolding page page_of
  page_after k after e =
      let more : ltb limit (length (take (limit + 1) (drop k all_rows)))
          ≡ ltb limit (length (drop k all_rows)) =
        ground (arith, length-take (limit + 1) (drop k all_rows)) in
      rw (fetched after)
        (rw e (rw (more, take-take limit (limit + 1) (drop k all_rows) (omega arith)) refl))

  pub walk_from :
      (pages k : ℕ) (after : Option Position)
      → select (λ r. is_behind before after (position r)) all_rows ≡ drop k all_rows
      → length (drop k all_rows) < pages
      → walk pages (λ at. page before position item test limit at rows) after
        ≡ map item (drop k all_rows)
  unfolding walk
  walk_from zero k after e enough = absurd (omega (arith, enough))
  walk_from (suc pages) k after e enough =
      elim (Bool-cases (ltb limit (length (drop k all_rows)))) [
        | inl more ↦
            let (l, last) = has_last limit (drop k all_rows) some_limit (ground (arith, more)) in
            let left : drop limit (drop k all_rows) ≡ drop (k + limit) all_rows =
              drop-drop limit k (k + limit) all_rows refl in
            let behind =
              behind_last (λ a b. before (position a) (position b)) law limit k all_rows sorted last
              ∙ left in
            let shorter : length (drop (k + limit) all_rows) < pages = omega (
              arith,
              enough,
              some_limit,
              length-drop k all_rows,
              length-drop (k + limit) all_rows,
              ltb→lt limit (length (drop k all_rows)) more,
            ) in
            rw (page_items k after e, page_after k after e, more, last)
              (ap (λ later. map item (take limit (drop k all_rows)) ++ later)
                  (walk_from pages (k + limit) (some (position l)) behind shorter
                    ∙ ap (map item) (sym left))
                ∙ map-append item (take limit (drop k all_rows)) (drop limit (drop k all_rows))
                ∙ ap (map item) (take-append-drop limit (drop k all_rows)))
        | inr over ↦
            rw (page_items k after e, page_after k after e, over)
              (append-nil (map item (take limit (drop k all_rows)))
                ∙ ap (map item) (take_all limit (drop k all_rows) (ground (arith, over))))
      ]

  -- A walk from the first page on.
  pub walk_all :
      (pages : ℕ)
      → length all_rows < pages
      → walk pages (λ at. page before position item test limit at rows) none ≡ map item all_rows
  walk_all pages enough =
      walk_from pages 0 none (select_whole (λ r. true) all_rows (All-true all_rows)) enough
