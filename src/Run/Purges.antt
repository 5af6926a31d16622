-- ===== src/Run/Purges.antt =====
-- What the retention may take, and what it leaves.
use mathlib.Core.List.{Memᴰ}
use mathlib.Core.List.Memᴰ
use mathlib.Core.Path.{subst}
use agent_runs.Base.{
  ℕ, ◌<◌, ◌≤◌, String, ◌≡◌, Bool, true, false, ◌&&◌, some, List, [], ◌∷◌, map, arith, Bool-cases,
  inl, inr, str_eq, contains, select, length, All, All-weaken, eq_iff, refl, sort_by, length-take,
  ◌⊎◌,
}
use agent_runs.Run.Status.{final}
use agent_runs.Run.Rows.{RunRow, Db}
use agent_runs.Run.Sweeps.{swept, earlier}
use agent_runs.Run.Retention.{has_artifacts, is_purgeable, purged_ids, purge_ended}
use agent_runs.Run.Keeps.{swept-All}

-- A row that the retention may take: ended, changed last before the limit, and without artifacts.
pub record IsOld (db : Db) (before : ℕ) (row : RunRow) : Type 0 where
  pub over : final row.status ≡ true
  pub past : row.updated_at < before
  pub bare : has_artifacts db.artifacts row ≡ false

-- The ids of the purge are of such rows.
pub data IsPurged (db : Db) (before : ℕ) (id : String) : Type 0 where
  purged_row :
      (row : RunRow)
      → Memᴰ row db.runs
      → row.run_id ≡ id
      → IsOld db before row
      → IsPurged db before id

-- A property of every member, list by list.
All-members :
    (P : RunRow → Type 0) (rows : List RunRow)
    → ((row : RunRow) → Memᴰ row rows → P row)
    → All P rows
All-members P [] h = tt
All-members P (x ∷ xs) h = (h x (Memᴰ.head refl), All-members P xs (λ row m. h row (Memᴰ.tail m)))

ids-All :
    (Q : String → Type 0) (rows : List RunRow)
    → All (λ r. Q r.run_id) rows
    → All Q (map (λ r. r.run_id) rows)
ids-All Q [] h = tt
ids-All Q (x ∷ xs) h = (h.0, ids-All Q xs h.1)

contains-All :
    (Q : String → Type 0) (ids : List String) (id : String)
    → All Q ids
    → contains id ids ≡ true
    → Q id
contains-All Q [] id h e = absurd (ground arith)
contains-All Q (x ∷ xs) id h e = elim (Bool-cases (str_eq id x)) [
  | inl t ↦ let same : x ≡ id = ground (arith, eq_iff id x) in subst Q same h.0
  | inr f ↦ let later : contains id xs ≡ true = ground arith in contains-All Q xs id h.1 later
]

select-keeps :
    (test : RunRow → Bool) (rows : List RunRow) {row : RunRow}
    → Memᴰ row rows
    → test row ≡ true
    → Memᴰ row (select test rows)
select-keeps test [] m t = elim m [ ]
select-keeps test (x ∷ xs) {row} m t = elim (Memᴰ.cases_cons m) [
  | inl same ↦ let passes : test x ≡ true = rw (← same) t in rw passes (Memᴰ.head same)
  | inr later ↦ elim (Bool-cases (test x)) [
    | inl p ↦ rw p (Memᴰ.tail (select-keeps test xs later t))
    | inr p ↦ rw p (select-keeps test xs later t)
  ]
]

purgeable-IsOld :
    (db : Db) (before : ℕ) (row : RunRow)
    → is_purgeable db.artifacts before row ≡ true
    → IsOld db before row
unfolding is_purgeable
purgeable-IsOld db before row e = ground arith

purged_ids-All :
    (free : RunRow → Bool) (before limit : ℕ) (db : Db)
    → All (IsPurged db before) (purged_ids free before limit db)
unfolding purged_ids
purged_ids-All free before limit db = ids-All (IsPurged db before) _ (
    All-weaken (λ r. Memᴰ r db.runs × (is_purgeable db.artifacts before r ≡ true))
      (λ r. IsPurged db before r.run_id) _
      (λ r both. purged_row r both.0 refl (purgeable-IsOld db before r both.1))
      (swept-All (λ r. Memᴰ r db.runs) free (is_purgeable db.artifacts before)
        (λ r. some r.updated_at) limit db.runs
        (All-members (λ r. Memᴰ r db.runs) db.runs (λ row m. m))))

length-map_ids : (rows : List RunRow) → length (map (λ r. r.run_id) rows) ≡ length rows
length-map_ids [] = refl
length-map_ids (x ∷ xs) = omega (arith, length-map_ids xs)

purged_ids-length :
    (free : RunRow → Bool) (before limit : ℕ) (db : Db)
    → length (purged_ids free before limit db) ≤ limit
unfolding purged_ids swept
purged_ids-length free before limit db = omega (
  arith,
  length-map_ids
      (swept free (is_purgeable db.artifacts before) (λ r. some r.updated_at) limit db.runs),
  length-take limit (
      sort_by (earlier (λ r. some r.updated_at))
        (select (λ r. is_purgeable db.artifacts before r && free r) db.runs)),
)

-- The retention keeps every run, save one whose id belongs to a run that ended, was changed last
-- before the limit and has no artifact left; it deletes at most as many ids as it is asked to.
pub purge_ended-keeps :
    (free : RunRow → Bool) (before limit : ℕ) (db : Db) (row : RunRow)
    → Memᴰ row db.runs
    → (Memᴰ row (purge_ended free before limit db).1.runs ⊎ IsPurged db before row.run_id)
      × ((purge_ended free before limit db).0 ≤ limit)
unfolding purge_ended
purge_ended-keeps free before limit db row m = (
  elim (Bool-cases (contains row.run_id (purged_ids free before limit db))) [
    | inl gone ↦
        inr (
          contains-All (IsPurged db before) _ row.run_id (purged_ids-All free before limit db) gone)
    | inr kept ↦ inl (select-keeps _ db.runs m (rw kept refl))
  ],
  purged_ids-length free before limit db,
)
