-- ===== src/LatePolicy/Summary.antt =====
-- The totals of a window (lateSummaryForOrg of src/services/latePolicy.ts).
use attenda_api.Base.{
  ℕ, ◌+◌, ◌*◌, ◌-◌, ◌≡◌, refl, ◌∙◌, inl, inr, Option, List, [], ◌∷◌, ◌==◌, if◌then◌else◌,
  or_default, filter_by, sum_of, Bool-cases, arith,
}
use attenda_api.LatePolicy.{
  LateTier, LatePolicy, AttendanceRecord, LateSummaryRow, points_for_lateness, add_late, by_user,
  insert_row, sort_rows, comes_before, is_late_since, tiers_of, window_of, late_summary_for_org,
}

-- What the rows hold for one user.
abbrev pub points_of : ℕ → List LateSummaryRow → ℕ
points_of user = sum_of (λ row. if row.user_id == user then row.points else 0)

abbrev pub minutes_of : ℕ → List LateSummaryRow → ℕ
minutes_of user = sum_of (λ row. if row.user_id == user then row.total_late_minutes else 0)

abbrev pub count_of : ℕ → List LateSummaryRow → ℕ
count_of user = sum_of (λ row. if row.user_id == user then row.late_count else 0)

-- A total of the rows that one record raises by an amount of its own.
abbrev pub amount : ℕ → (AttendanceRecord → ℕ) → AttendanceRecord → ℕ
amount user f r = if r.user_id == user then f r else 0

abbrev pub minutes_late : AttendanceRecord → ℕ
minutes_late r = or_default r.late_minutes 0

abbrev pub late_points : Option (List LateTier) → AttendanceRecord → ℕ
late_points tiers r = points_for_lateness (minutes_late r) tiers

add_late_points :
    (user : ℕ) (tiers : Option (List LateTier)) (r : AttendanceRecord) (rows : List LateSummaryRow)
    → (points_of user (add_late tiers r rows)
        ≡ points_of user rows + amount user (late_points tiers) r)
      × (minutes_of user (add_late tiers r rows)
          ≡ minutes_of user rows + amount user minutes_late r)
      × (count_of user (add_late tiers r rows) ≡ count_of user rows + amount user (λ r. 1) r)
unfolding add_late
add_late_points user tiers r [] = (ground arith, ground arith, ground arith)
add_late_points user tiers r (row ∷ rows) =
    let rest = add_late_points user tiers r rows in
    (ground (arith, rest.0), ground (arith, rest.1), ground (arith, rest.2))

by_user_points :
    (user : ℕ) (tiers : Option (List LateTier)) (rs : List AttendanceRecord)
    (rows : List LateSummaryRow)
    → (points_of user (by_user tiers rs rows)
        ≡ points_of user rows + sum_of (amount user (late_points tiers)) rs)
      × (minutes_of user (by_user tiers rs rows)
          ≡ minutes_of user rows + sum_of (amount user minutes_late) rs)
      × (count_of user (by_user tiers rs rows)
          ≡ count_of user rows + sum_of (amount user (λ r. 1)) rs)
unfolding by_user
by_user_points user tiers [] rows = (omega arith, omega arith, omega arith)
by_user_points user tiers (r ∷ rs) rows =
    let rest = by_user_points user tiers rs (add_late tiers r rows) in
    let first = add_late_points user tiers r rows in
    (omega (arith, rest.0, first.0), omega (arith, rest.1, first.1), omega (arith, rest.2, first.2))

by_user_start :
    (user : ℕ) (tiers : Option (List LateTier)) (rs : List AttendanceRecord)
    → (points_of user (by_user tiers rs []) ≡ sum_of (amount user (late_points tiers)) rs)
      × (minutes_of user (by_user tiers rs []) ≡ sum_of (amount user minutes_late) rs)
      × (count_of user (by_user tiers rs []) ≡ sum_of (amount user (λ r. 1)) rs)
by_user_start user tiers rs =
    let totals = by_user_points user tiers rs [] in
    (omega (arith, totals.0), omega (arith, totals.1), omega (arith, totals.2))

sum_of-insert_row :
    (f : LateSummaryRow → ℕ) (a : LateSummaryRow) (rows : List LateSummaryRow)
    → sum_of f (insert_row a rows) ≡ f a + sum_of f rows
unfolding insert_row
sum_of-insert_row f a [] = refl
sum_of-insert_row f a (b ∷ rows) = elim (Bool-cases (comes_before a b)) [
  | inl e ↦ rw e refl
  | inr e ↦ rw e (omega (arith, sum_of-insert_row f a rows))
]

sum_of-sort_rows :
    (f : LateSummaryRow → ℕ) (rows : List LateSummaryRow)
    → sum_of f (sort_rows rows) ≡ sum_of f rows
unfolding sort_rows
sum_of-sort_rows f [] = refl
sum_of-sort_rows f (a ∷ rows) =
    omega (arith, sum_of-insert_row f a (sort_rows rows), sum_of-sort_rows f rows)

-- For each user the summary holds exactly the points, the minutes and the number of the user's late
-- arrivals among the records of the organization within the window.
pub late_summary_for_org_totals :
    (user org : ℕ) (policy : Option LatePolicy) (window : Option ℕ) (ids : Option (List ℕ))
    (now : ℕ) (records : List AttendanceRecord)
    → let rows = late_summary_for_org org policy window ids now records in
      let since = now - or_default window (window_of policy) * 24 * 60 * 60 * 1000 in
      let mine = filter_by (is_late_since org since ids) records in
      (points_of user rows ≡ sum_of (amount user (late_points (tiers_of policy))) mine)
      × (minutes_of user rows ≡ sum_of (amount user minutes_late) mine)
      × (count_of user rows ≡ sum_of (amount user (λ r. 1)) mine)
unfolding late_summary_for_org
late_summary_for_org_totals user org policy window ids now records =
    let since = now - or_default window (window_of policy) * 24 * 60 * 60 * 1000 in
    let totals =
      by_user_start user (tiers_of policy) (filter_by (is_late_since org since ids) records) in
    (
      sum_of-sort_rows _
            (by_user (tiers_of policy) (filter_by (is_late_since org since ids) records) [])
          ∙ totals.0,
      sum_of-sort_rows _
            (by_user (tiers_of policy) (filter_by (is_late_since org since ids) records) [])
          ∙ totals.1,
      sum_of-sort_rows _
            (by_user (tiers_of policy) (filter_by (is_late_since org since ids) records) [])
          ∙ totals.2,
    )
