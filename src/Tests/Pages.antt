-- ===== src/Tests/Pages.antt =====
-- Three runs listed two at a time, the ids in the order of their characters' code points.
use Prim.Native.Char.{code}
use text.Mathlib.TextEquality.{Char-path}
use agent_runs.Base.{
  String, ◌≡◌, ◌≢◌, ◌⊎◌, inl, inr, Bool, true, false, ◌&&◌, ◌||◌, none, List, [], ◌∷◌, arith, refl,
  ltb, ◌==◌, select, sort_by, Bool-cases, ap, ◌∙◌, str_eq, eq_iff,
}
use agent_runs.Run.Rows.{RunRow}
use agent_runs.Paging.{RunFilter, in_listing, list_runs}
use agent_runs.Paging.Walk.{walk}
use agent_runs.Paging.Listings.{IsTextOrder, is_newer, walk-list_runs}
use agent_runs.Tests.Samples.{held_row}

abbrev text_lt : String → String → Bool
text_lt String.[] String.[] = false
text_lt String.[] (String.◌∷◌ d t) = true
text_lt (String.◌∷◌ c s) String.[] = false
text_lt (String.◌∷◌ c s) (String.◌∷◌ d t) =
    ltb (code c) (code d) || (code c == code d && text_lt s t)

text_lt_irrefl : (s : String) → text_lt s s ≡ false
text_lt_irrefl String.[] = refl
text_lt_irrefl (String.◌∷◌ c s) = ground (arith, text_lt_irrefl s)

text_lt_trans : (s t u : String) → text_lt s t ≡ true → text_lt t u ≡ true → text_lt s u ≡ true
text_lt_trans String.[] String.[] String.[] st tu = st
text_lt_trans String.[] (String.◌∷◌ d t) String.[] st tu = tu
text_lt_trans String.[] t (String.◌∷◌ e u) st tu = refl
text_lt_trans (String.◌∷◌ c s) String.[] u st tu = absurd (ground arith)
text_lt_trans (String.◌∷◌ c s) (String.◌∷◌ d t) String.[] st tu = tu
text_lt_trans (String.◌∷◌ c s) (String.◌∷◌ d t) (String.◌∷◌ e u) st tu =
    ground (arith, text_lt_trans s t u, st, tu)

text_lt_total : (s t : String) → s ≢ t → (text_lt s t ≡ true) ⊎ (text_lt t s ≡ true)
text_lt_total String.[] String.[] other = absurd (other refl)
text_lt_total String.[] (String.◌∷◌ d t) other = inl refl
text_lt_total (String.◌∷◌ c s) String.[] other = inr refl
text_lt_total (String.◌∷◌ c s) (String.◌∷◌ d t) other = elim (Bool-cases (ltb (code c) (code d))) [
  | inl lt ↦ inl (ground arith)
  | inr ge ↦ elim (Bool-cases (ltb (code d) (code c))) [
    | inl gt ↦ inr (ground arith)
    | inr le ↦
        let same : c ≡ d = Char-path c d (ground arith) in
        elim (text_lt_total s t
          (λ e. other (ap (λ x. String.◌∷◌ x s) same ∙ ap (String.◌∷◌ d) e))) [
            | inl before ↦ inl (ground arith)
            | inr behind ↦ inr (ground arith)
          ]
  ]
]

text_lt-IsTextOrder : IsTextOrder text_lt
text_lt-IsTextOrder = record {
  irreflexive = text_lt_irrefl;
  transitive = text_lt_trans;
  total = text_lt_total;
}

abbrev rows : List RunRow
rows =
    held_row
    ∷ record held_row { start = record held_row.start { run_id = "r2" }; created_at = 9 }
    ∷ record held_row { start = record held_row.start { run_id = "r3" } }
    ∷ []

abbrev all_of_t : RunFilter
all_of_t = record {
  tenant_id = "t";
  status = none;
  assignee = none;
  agent_id = none;
  thread_id = none;
  parent_run_id = none;
  top_level = false;
}

ids_differ : (a b : String) → str_eq a b ≡ false → a ≢ b
ids_differ a b f e = ground (arith, f, eq_iff a b, e)

walk-list_runs_example :
    walk 4 (λ after. list_runs text_lt all_of_t 2 after rows) none
    ≡ sort_by (is_newer text_lt) (select (in_listing all_of_t) rows)
walk-list_runs_example =
    walk-list_runs text_lt all_of_t 2 4 rows text_lt-IsTextOrder
      (
        (ids_differ "r1" "r2" refl, (ids_differ "r1" "r3" refl, tt)),
        ((ids_differ "r2" "r3" refl, tt), (tt, tt)),
      )
      (omega arith) (omega arith)
