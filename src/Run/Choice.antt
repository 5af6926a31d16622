-- ===== src/Run/Choice.antt =====
-- What the run a claim chooses satisfies, and that the choice always comes to an end.
use mathlib.Core.List.{Memᴰ}
use mathlib.Core.Path.{subst}
use agent_runs.Base.{
  ℕ, zero, suc, ◌<◌, String, ◌≡◌, Bool, true, false, ◌&&◌, Option, none, some, List, [], ◌∷◌, arith,
  Bool-cases, Option-cases, inl, inr, count_if, eq_iff, opt_eq_iff, select-Memᴰ, count_if-lt,
}
use agent_runs.Run.Rows.{RunRow}
use agent_runs.Run.Queue.{
  Limits, ClaimRequest, Passed, tenant_full, key_full, not_passed, none_passed, claimable,
  goes_before, first_by, next_queued,
}
use agent_runs.Run.Claim.{ClaimLock, tenant_has_room, key_has_room, choose}

first_by-Memᴰ :
    (before : RunRow → RunRow → Bool) (rows : List RunRow) {r : RunRow}
    → first_by before rows ≡ some r
    → Memᴰ r rows
unfolding first_by
first_by-Memᴰ before [] e = cc
first_by-Memᴰ before (x ∷ xs) {r} e = elim (Option-cases (first_by before xs)) [
  | inl empty ↦ Memᴰ.head (ground arith)
  | inr (best, found) ↦ elim (Bool-cases (before best x)) [
    | inl t ↦
        let same : best ≡ r = ground arith in
        Memᴰ.tail (subst (λ b. Memᴰ b xs) same (first_by-Memᴰ before xs found))
    | inr f ↦ Memᴰ.head (ground arith)
  ]
]

-- A pass leaves out the row it was made for.
tenant_out : (row : RunRow) → not_passed (tenant_full row.tenant_id) row ≡ false
unfolding not_passed
tenant_out row = ground (arith, eq_iff row.tenant_id row.tenant_id)

key_out : (row : RunRow) → not_passed (key_full row.tenant_id row.concurrency_key) row ≡ false
unfolding not_passed
key_out row =
    ground (
      arith,
      eq_iff row.tenant_id row.tenant_id,
      opt_eq_iff row.concurrency_key row.concurrency_key,
    )

module _ (limits : Limits) (tenant : Option String) (request : ClaimRequest) (now : ℕ)
    (free : RunRow → Bool) (lockable : ClaimLock → Bool) (later rows : List RunRow) where
  -- A row the query may return, after some were passed over.
  abbrev pub is_candidate : List Passed → RunRow → Bool
  is_candidate passed r =
      claimable limits tenant request now rows r && (none_passed passed r && free r)

  next_queued-member :
      (passed : List Passed) {row : RunRow}
      → next_queued limits tenant request now free passed rows ≡ some row
      → Memᴰ row rows × (is_candidate passed row ≡ true)
  unfolding next_queued
  next_queued-member passed e =
      select-Memᴰ (is_candidate passed) rows (first_by-Memᴰ (goes_before request rows) _ e)

  passed_less :
      (p : Passed) (passed : List Passed) {row : RunRow}
      → next_queued limits tenant request now free passed rows ≡ some row
      → not_passed p row ≡ false
      → count_if (is_candidate (p ∷ passed)) rows < count_if (is_candidate passed) rows
  unfolding none_passed
  passed_less p passed {row} e out =
      let (m, t) = next_queued-member passed e in
      count_if-lt (is_candidate passed) (is_candidate (p ∷ passed)) rows (λ x. ground arith) m t
        (ground arith)

  pub choose_total :
      (fuel : ℕ) (passed : List Passed)
      → count_if (is_candidate passed) rows < fuel
      → (chosen : Option RunRow) × (choose fuel limits tenant request now free lockable later rows
            passed
          ≡ some chosen)
  unfolding choose
  choose_total zero passed h = elim h [ ]
  choose_total (suc fuel) passed h =
      elim (Option-cases (next_queued limits tenant request now free passed rows)) [
        | inl e ↦ (none, rw (e, choose))
        | inr (row, e) ↦ elim (Bool-cases (tenant_has_room limits lockable later row)) [
          | inl room ↦ elim (Bool-cases (key_has_room limits lockable later row)) [
            | inl key ↦ (some row, rw (e, choose) (rw room (rw key)))
            | inr full ↦
                let next = key_full row.tenant_id row.concurrency_key in
                let fewer : count_if (is_candidate (next ∷ passed)) rows
                    < count_if (is_candidate passed) rows =
                  passed_less next passed e (key_out row) in
                let (chosen, rest) = choose_total fuel (next ∷ passed) (omega arith) in
                (chosen, rw (e, choose) (rw room (rw full rest)))
          ]
          | inr full ↦
              let next = tenant_full row.tenant_id in
              let fewer : count_if (is_candidate (next ∷ passed)) rows
                  < count_if (is_candidate passed) rows =
                passed_less next passed e (tenant_out row) in
              let (chosen, rest) = choose_total fuel (next ∷ passed) (omega arith) in
              (chosen, rw (e, choose) (rw full rest))
        ]
      ]

  -- A row of the table that the query could return, with room by both counts under their locks.
  abbrev pub IsChosen : RunRow → Type 0
  IsChosen row =
      Memᴰ row rows
      × (claimable limits tenant request now rows row ≡ true)
      × (free row ≡ true)
      × (tenant_has_room limits lockable later row ≡ true)
      × (key_has_room limits lockable later row ≡ true)

  pub choose-IsChosen :
      (fuel : ℕ) (passed : List Passed) {row : RunRow}
      → choose fuel limits tenant request now free lockable later rows passed ≡ some (some row)
      → IsChosen row
  unfolding choose
  choose-IsChosen zero passed e = cc
  choose-IsChosen (suc fuel) passed {row} e =
      elim (Option-cases (next_queued limits tenant request now free passed rows)) [
        | inl none_left ↦ absurd (ground arith)
        | inr (best, found) ↦ elim (Bool-cases (tenant_has_room limits lockable later best)) [
          | inl room ↦ elim (Bool-cases (key_has_room limits lockable later best)) [
            | inl key ↦
                let same : best ≡ row = ground arith in
                let (m, t) = next_queued-member passed found in
                subst IsChosen same (m, ground arith, ground arith, room, key)
            | inr full ↦
                choose-IsChosen fuel (key_full best.tenant_id best.concurrency_key ∷ passed)
                  (ground arith)
          ]
          | inr full ↦ choose-IsChosen fuel (tenant_full best.tenant_id ∷ passed) (ground arith)
        ]
      ]
