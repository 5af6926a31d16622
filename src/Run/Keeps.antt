-- ===== src/Run/Keeps.antt =====
-- How a property of every row passes through the store's operations: one lemma for each way they
-- read rows and write them back.
use mathlib.Core.Path.{subst}
use agent_runs.Base.{
  ℕ, String, ◌≡◌, Bool, true, false, ◌&&◌, Option, none, some, List, [], ◌∷◌, arith, str_eq, All,
  All-take, All-weaken, Bool-cases, inl, inr, find_first, select, insert_by, sort_by, if◌then◌else◌,
  Result, ok, map_result, >>=-eq-ok,
}
use agent_runs.Run.Rows.{RunRow, Db}
use agent_runs.Run.Moves.{fence}
use agent_runs.Run.Store.{RunRecord, found, locked, put_run, ended, change_run, is_run}
use agent_runs.Run.Sweeps.{swept, put_runs, sweep_end, earlier}

module _ {A : Type 0} (P : A → Type 0) where
  pub find_first-All :
      (test : A → Bool) (xs : List A) {r : A} → All P xs → find_first test xs ≡ some r → P r
  find_first-All test [] h e = cc
  find_first-All test (x ∷ xs) {r} h e = elim (Bool-cases (test x)) [
    | inl t ↦ let same : x ≡ r = ground arith in subst P same h.0
    | inr f ↦
        let later : find_first test xs ≡ some r = ground arith in find_first-All test xs h.1 later
  ]

  pub select-All :
      (test : A → Bool) (xs : List A) → All P xs → All (λ x. P x × (test x ≡ true)) (select test xs)
  select-All test [] h = tt
  select-All test (x ∷ xs) h = elim (Bool-cases (test x)) [
    | inl t ↦ rw t ((h.0, t), select-All test xs h.1)
    | inr f ↦ rw f (select-All test xs h.1)
  ]

  pub insert_by-All :
      (before : A → A → Bool) (a : A) (xs : List A) → P a → All P xs → All P (insert_by before a xs)
  insert_by-All before a [] p h = (p, tt)
  insert_by-All before a (x ∷ xs) p h = elim (Bool-cases (before x a)) [
    | inl t ↦ rw t (h.0, insert_by-All before a xs p h.1)
    | inr f ↦ rw f (p, h)
  ]

  pub sort_by-All : (before : A → A → Bool) (xs : List A) → All P xs → All P (sort_by before xs)
  sort_by-All before [] h = tt
  sort_by-All before (x ∷ xs) h =
      insert_by-All before x (sort_by before xs) h.0 (sort_by-All before xs h.1)

module _ {A B : Type 0} (P : A → Type 0) (Q : B → Type 0) where
  pub map_result-All :
      (step : A → Result B) (xs : List A) (ys : List B)
      → ((x : A) (y : B) → P x → step x ≡ ok y → Q y)
      → All P xs
      → map_result step xs ≡ ok ys
      → All Q ys
  map_result-All step [] ys keep h e = let same : [] ≡ ys = cc in subst (All Q) same tt
  map_result-All step (x ∷ xs) ys keep h e =
      let (y, made, rest) = >>=-eq-ok (step x) _ e in
      let (ys', made_rest, all) = >>=-eq-ok (map_result step xs) _ rest in
      let same : y ∷ ys' ≡ ys = cc in
      subst (All Q) same (keep x y h.0 made, map_result-All step xs ys' keep h.1 made_rest)

-- What finding and fencing a row says of it.
pub found_row :
    (db : Db) (tenant run : String) {row : RunRow}
    → found db tenant run ≡ ok row
    → find_first (is_run tenant run) db.runs ≡ some row
unfolding found
found_row db tenant run e = ground arith

pub locked_found :
    (db : Db) (tenant run : String) (worker : Option String) {row : RunRow}
    → locked db tenant run worker ≡ ok row
    → (find_first (is_run tenant run) db.runs ≡ some row) × (fence row worker ≡ ok tt)
unfolding locked
locked_found db tenant run worker e = ground arith

-- The row `change_run` works on, and what it comes to.
pub change_run_parts :
    (db : Db) (tenant run : String) (now : ℕ) (change : RunRow → Result (RunRow × Bool))
    {answer : RunRecord × Bool} {db' : Db}
    → change_run db tenant run now change ≡ ok (answer, db')
    → (row : RunRow) × (r : RunRow) × (b : Bool) × (locked db tenant run none ≡ ok row)
      × (change row ≡ ok (r, b))
      × (db'.runs ≡ (if b then put_run r db.runs else db.runs))
unfolding change_run ended
change_run_parts db tenant run now change e =
    let (row, got, rest) = >>=-eq-ok (locked db tenant run none) _ e in
    let (rb, made, done) = >>=-eq-ok (change row) _ rest in
    (row, rb.0, rb.1, got, made, ground arith)

module _ (P : RunRow → Type 0) where
  pub put_run-All :
      (row : RunRow) (rows : List RunRow) → P row → All P rows → All P (put_run row rows)
  unfolding put_run
  put_run-All row [] p h = tt
  put_run-All row (r ∷ rs) p h = elim (Bool-cases (str_eq r.run_id row.run_id)) [
    | inl t ↦ rw t (p, put_run-All row rs p h.1)
    | inr f ↦ rw f (h.0, put_run-All row rs p h.1)
  ]

  pub put_runs-All :
      (changed rows : List RunRow) → All P changed → All P rows → All P (put_runs changed rows)
  unfolding put_runs
  put_runs-All [] rows c h = h
  put_runs-All (r ∷ rs) rows c h = put_runs-All rs (put_run r rows) c.1 (put_run-All r rows c.0 h)

  pub locked-All :
      (db : Db) (tenant run : String) (worker : Option String) {row : RunRow}
      → All P db.runs
      → locked db tenant run worker ≡ ok row
      → P row
  locked-All db tenant run worker h e =
      find_first-All P (is_run tenant run) db.runs h (locked_found db tenant run worker e).0

  pub change_run-All :
      (db : Db) (tenant run : String) (now : ℕ) (change : RunRow → Result (RunRow × Bool))
      {answer : RunRecord × Bool} {db' : Db}
      → ((row r : RunRow) (b : Bool) → P row → change row ≡ ok (r, b) → P r)
      → All P db.runs
      → change_run db tenant run now change ≡ ok (answer, db')
      → All P db'.runs
  change_run-All db tenant run now change keep h e =
      let (row, r, b, got, made, runs) = change_run_parts db tenant run now change e in
      rw runs (written b r (keep row r b (locked-All db tenant run none h got) made))
    where
      written : (b : Bool) (r : RunRow) → P r → All P (if b then put_run r db.runs else db.runs)
      written true r p = put_run-All r db.runs p h
      written false r p = h

  pub swept-All :
      (free test : RunRow → Bool) (column : RunRow → Option ℕ) (limit : ℕ) (rows : List RunRow)
      → All P rows
      → All (λ r. P r × (test r ≡ true)) (swept free test column limit rows)
  unfolding swept
  swept-All free test column limit rows h = All-take Picked limit _ (
      sort_by-All Picked (earlier column) _ (
        All-weaken _ Picked _ (λ r both. (both.0, ground (arith, both.1)))
          (select-All P (λ r. test r && free r) rows h)))
    where
      Picked : RunRow → Type 0
      Picked r = P r × (test r ≡ true)

  pub sweep-All :
      (step : RunRow → Result RunRow) (free test : RunRow → Bool) (column : RunRow → Option ℕ)
      (limit now : ℕ) (db : Db) {moved : List RunRow}
      → ((row r : RunRow) → P row × (test row ≡ true) → step row ≡ ok r → P r)
      → All P db.runs
      → map_result step (swept free test column limit db.runs) ≡ ok moved
      → All P (sweep_end moved now db).1.runs
  unfolding sweep_end
  sweep-All step free test column limit now db {moved} keep h e =
      put_runs-All moved db.runs
        (map_result-All (λ r. P r × (test r ≡ true)) P step _ moved keep
          (swept-All free test column limit db.runs h) e)
        h
