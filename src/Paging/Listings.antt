-- ===== src/Paging/Listings.antt =====
-- The listing of a tenant's runs, walked page by page.
use agent_runs.Base.{
  ℕ, ◌+◌, ◌<◌, String, ◌≡◌, ◌≢◌, ◌⊎◌, inl, inr, Bool, true, false, none, List, [], ◌∷◌, arith, refl,
  ap, ◌∙◌, map, length, select, sort_by, All-weaken, length-select, insert_by, Bool-cases,
}
use agent_runs.Run.Rows.{RunRow}
use agent_runs.Run.Within.{AllKeyed}
use agent_runs.Run.Keeps.{select-All}
use agent_runs.Paging.{newest_first, RunFilter, in_listing, run_position, list_runs}
use agent_runs.Paging.Order.{IsOrder, AllApart}
use agent_runs.Paging.Walk.{walk, all_rows, walk_all}

-- What the database documents of the order of two texts.
pub record IsTextOrder (id_lt : String → String → Bool) : Type 0 where
  pub irreflexive : (a : String) → id_lt a a ≡ false
  pub transitive : (a b c : String) → id_lt a b ≡ true → id_lt b c ≡ true → id_lt a c ≡ true
  pub total : (a b : String) → a ≢ b → (id_lt a b ≡ true) ⊎ (id_lt b a ≡ true)

-- Newer runs come first.
abbrev pub is_newer : (String → String → Bool) → RunRow → RunRow → Bool
is_newer id_lt a b = newest_first id_lt (run_position a) (run_position b)

module _ (id_lt : String → String → Bool) (law : IsTextOrder id_lt) where
  newer-IsOrder : IsOrder (is_newer id_lt)
  newer-IsOrder = record {
    irreflexive = λ a. ground (arith, law.irreflexive a.run_id);
    transitive = λ a b c ab bc. ground (arith, ab, bc, law.transitive c.run_id b.run_id a.run_id);
  }

  newer-Apart :
      (a b : RunRow)
      → a.run_id ≢ b.run_id
      → (is_newer id_lt a b ≡ true) ⊎ (is_newer id_lt b a ≡ true)
  newer-Apart a b other = elim (Bool-cases (is_newer id_lt a b)) [
    | inl t ↦ inl t
    | inr f ↦ elim (law.total a.run_id b.run_id other) [
      | inl e ↦ inr (ground (arith, e, f))
      | inr e ↦ inr (ground (arith, e, f))
    ]
  ]

  keyed-AllApart :
      (test : RunRow → Bool) (rows : List RunRow)
      → AllKeyed rows
      → AllApart (is_newer id_lt) (select test rows)
  keyed-AllApart test [] keyed = tt
  keyed-AllApart test (x ∷ xs) keyed =
      let rest = keyed-AllApart test xs keyed.1 in
      elim (Bool-cases (test x)) [
        | inl t ↦
            let others =
              All-weaken _ (λ y. x.run_id ≢ y.run_id) (select test xs) (λ y both. both.0)
                (select-All (λ y. x.run_id ≢ y.run_id) test xs keyed.0) in
            rw t (
              All-weaken (λ y. x.run_id ≢ y.run_id)
                  (λ y. (is_newer id_lt x y ≡ true) ⊎ (is_newer id_lt y x ≡ true)) (select test xs)
                  (λ y other. newer-Apart x y other) others,
              rest,
            )
        | inr f ↦ rw f rest
      ]

module _ {A : Type 0} where
  map-same : (xs : List A) → map (λ x. x) xs ≡ xs
  map-same [] = refl
  map-same (x ∷ xs) = ap (λ ys. x ∷ ys) (map-same xs)

  length-insert_by :
      (before : A → A → Bool) (a : A) (xs : List A) → length (insert_by before a xs) ≡ length xs + 1
  length-insert_by before a [] = refl
  length-insert_by before a (x ∷ xs) = ground (arith, length-insert_by before a xs)

  length-sort_by : (before : A → A → Bool) (xs : List A) → length (sort_by before xs) ≡ length xs
  length-sort_by before [] = refl
  length-sort_by before (x ∷ xs) =
      omega (arith, length-insert_by before x (sort_by before xs), length-sort_by before xs)

-- A caller that follows the listing of runs from page to page meets exactly the runs the filter is for,
-- newest first, each once: nothing between two pages is skipped or repeated, whatever the size of a
-- page, which is at least one. The runs' ids differ, as their primary key says, the database orders
-- texts strictly, no run is written meanwhile, and there are pages enough, one more than runs.
pub walk-list_runs :
    (id_lt : String → String → Bool) (filter : RunFilter) (limit pages : ℕ) (rows : List RunRow)
    → IsTextOrder id_lt
    → AllKeyed rows
    → 0 < limit
    → length rows < pages
    → walk pages (λ after. list_runs id_lt filter limit after rows) none
      ≡ sort_by (is_newer id_lt) (select (in_listing filter) rows)
unfolding list_runs all_rows
walk-list_runs id_lt filter limit pages rows law keyed some_limit enough =
    let order = newer-IsOrder id_lt law in
    let apart = keyed-AllApart id_lt law (in_listing filter) rows keyed in
    let fewer : length (sort_by (is_newer id_lt) (select (in_listing filter) rows)) < pages =
      omega (
        arith,
        enough,
        length-sort_by (is_newer id_lt) (select (in_listing filter) rows),
        length-select (in_listing filter) rows,
      ) in
    walk_all (newest_first id_lt) run_position (λ row. row) (in_listing filter) limit rows order
      apart some_limit pages fewer
    ∙ map-same (sort_by (is_newer id_lt) (select (in_listing filter) rows))
