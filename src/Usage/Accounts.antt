-- ===== src/Usage/Accounts.antt =====
-- core/hotspot_stats.py: the numbers of the usage report agree with its rows.
use mikrotik_bot.Prelude.{
  ℕ, suc, ◌+◌, ◌≤◌, ◌≡◌, refl, ap, Bool, true, false, List, [], ◌∷◌, filter, length, take, All, ℤ,
  pos, negsuc, Bool-cases, inl, inr, arith,
}
use mikrotik_bot.Client.{Row, Texts}
use mikrotik_bot.Hotspot.Purge.{ge_ℤ}
use mikrotik_bot.Usage.{
  UsageRow, rows_of, Counts, no_counts, count_row, count_rows, insert, by_usage, is_used_up,
  UsageReport, report_of,
}

ge_ℤ-flip : (a b : ℤ) → ge_ℤ a b ≡ false → ge_ℤ b a ≡ true
ge_ℤ-flip (pos m) (pos n) h = ground arith
ge_ℤ-flip (pos m) (negsuc n) h = cc h
ge_ℤ-flip (negsuc m) (pos n) h = refl
ge_ℤ-flip (negsuc m) (negsuc n) h = ground arith

ge_ℤ-trans : (a b c : ℤ) → ge_ℤ a b ≡ true → ge_ℤ b c ≡ true → ge_ℤ a c ≡ true
ge_ℤ-trans (pos a) (pos b) (pos c) h k = ground arith
ge_ℤ-trans (pos a) b (negsuc c) h k = refl
ge_ℤ-trans (pos a) (negsuc b) (pos c) h k = cc k
ge_ℤ-trans (negsuc a) (pos b) c h k = cc h
ge_ℤ-trans (negsuc a) (negsuc b) (pos c) h k = cc k
ge_ℤ-trans (negsuc a) (negsuc b) (negsuc c) h k = ground arith

-- a row with at least the bytes of another
abbrev pub uses_as_much : UsageRow → UsageRow → Bool
uses_as_much row other = ge_ℤ row.total_bytes other.total_bytes

-- each row uses at least as much as every later one
abbrev pub IsDescending : List UsageRow → Type 0
IsDescending [] = Unit
IsDescending (row ∷ rows) = All (λ other. uses_as_much row other ≡ true) rows × IsDescending rows

All-weaken :
    (row other : UsageRow) (rows : List UsageRow)
    → uses_as_much row other ≡ true
    → All (λ x. uses_as_much other x ≡ true) rows
    → All (λ x. uses_as_much row x ≡ true) rows
All-weaken row other [] h hs = tt
All-weaken row other (x ∷ rows) h (hx, hs) = (
  ge_ℤ-trans row.total_bytes other.total_bytes x.total_bytes h hx,
  All-weaken row other rows h hs,
)

All-insert :
    (P : UsageRow → Type 0) (row : UsageRow) (rows : List UsageRow)
    → P row
    → All P rows
    → All P (insert row rows)
unfolding insert
All-insert P row [] h hs = (h, tt)
All-insert P row (other ∷ rows) h (ho, hs) = elim (Bool-cases (uses_as_much row other)) [
  | inl first ↦ rw first (h, (ho, hs))
  | inr later ↦ rw later (ho, All-insert P row rows h hs)
]

insert-IsDescending :
    (row : UsageRow) (rows : List UsageRow) → IsDescending rows → IsDescending (insert row rows)
unfolding insert
insert-IsDescending row [] h = (tt, tt)
insert-IsDescending row (other ∷ rows) (ho, hs) = elim (Bool-cases (uses_as_much row other)) [
  | inl first ↦ rw first ((first, All-weaken row other rows first ho), (ho, hs))
  | inr later ↦ rw later (
    All-insert _ row rows (ge_ℤ-flip row.total_bytes other.total_bytes later) ho,
    insert-IsDescending row rows hs,
  )
]

by_usage-IsDescending : (rows : List UsageRow) → IsDescending (by_usage rows)
unfolding by_usage
by_usage-IsDescending [] = tt
by_usage-IsDescending (row ∷ rows) =
    insert-IsDescending row (by_usage rows) (by_usage-IsDescending rows)

-- how many rows a test accepts
abbrev pub times : (UsageRow → Bool) → List UsageRow → ℕ
times p rows = length (filter p rows)

times-insert :
    (p : UsageRow → Bool) (row : UsageRow) (rows : List UsageRow)
    → times p (insert row rows) ≡ times p (row ∷ rows)
unfolding insert
times-insert p row [] = refl
times-insert p row (other ∷ rows) = elim (Bool-cases (uses_as_much row other)) [
  | inl first ↦ rw first refl
  | inr later ↦ rw later ground (arith, times-insert p row rows)
]

times-by_usage :
    (p : UsageRow → Bool) (rows : List UsageRow) → times p (by_usage rows) ≡ times p rows
unfolding by_usage
times-by_usage p [] = refl
times-by_usage p (row ∷ rows) =
    ground (arith, times-insert p row (by_usage rows), times-by_usage p rows)

length-rows_of : (text : Texts) (users : List Row) → length (rows_of text users) ≡ length users
unfolding rows_of
length-rows_of text [] = refl
length-rows_of text (u ∷ users) = ap suc (length-rows_of text users)

-- the counters after the loop, from those before it
counted :
    (rows : List UsageRow) (c : Counts)
    → ((count_rows rows c).active_count + (count_rows rows c).disabled_count
        ≡ c.active_count + c.disabled_count + length rows)
      × ((count_rows rows c).disabled_count
          ≡ c.disabled_count + times (λ row. row.is_disabled) rows)
      × (c.with_limit_count + times is_used_up rows ≤ (count_rows rows c).with_limit_count)
unfolding count_rows count_row
counted [] c = (omega arith, omega arith, omega arith)
counted (row ∷ rows) c = ground (arith, counted rows (count_row row c))

-- how a report fits the users that it is about
abbrev pub IsSound : List Row → ℕ → UsageReport → Type 0
IsSound users top_n r =
    (r.total ≡ length users)
    × (r.counts.active_count + r.counts.disabled_count ≡ r.total)
    × (length r.inactive ≡ r.counts.disabled_count)
    × (length r.expired ≤ r.counts.with_limit_count)
    × ((sorted : List UsageRow) × (r.top_consumers ≡ take top_n sorted)
        × IsDescending sorted
        × ((p : UsageRow → Bool) → times p sorted ≡ times p r.rows))

-- The report counts every user once, as active or as disabled, and lists the disabled ones. It lists
-- no more users with a used-up limit than it counts users with a limit. The top consumers are the
-- first `top_n` rows of a rearrangement of all rows in which each row uses at least as much as
-- every later one.
pub report_of-IsSound :
    (text : Texts) (top_n : ℕ) (users : List Row) → IsSound users top_n (report_of text top_n users)
unfolding report_of
report_of-IsSound text top_n users =
    let rows = rows_of text users in
    let counts = counted rows no_counts in
    (
      length-rows_of text users,
      omega (arith, counts.0),
      omega (arith, counts.1),
      omega (arith, counts.2),
      (by_usage rows, refl, by_usage-IsDescending rows, λ p. times-by_usage p rows),
    )
