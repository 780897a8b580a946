-- ===== src/LatePolicy.antt =====
-- src/services/latePolicy.ts: the policy of an organization on lateness, its points, and the totals of
-- a window. Minutes, points and days are whole numbers, though the source takes a fraction of a point
-- too; a raw number is what `Number` gives, `none` where it is not finite or negative. Dates are instants; the name and the department of a row, which
-- are copied from the user, are left out.
pub mod Tiers
pub mod Summary
pub mod Tests
use attenda_api.Base.{
  ℕ, suc, ◌+◌, ◌*◌, ◌-◌, Bool, true, false, ◌&&◌, ◌||◌, not, Option, none, some, List, [], ◌∷◌, ltb,
  leb, ◌==◌, if◌then◌else◌, or_default, is_some, any, filter_by, sort_by, length,
}

pub record LateTier : Type 0 where
  pub after_mins : ℕ
  pub points : ℕ

pub record RawTier : Type 0 where
  pub after_mins : Option ℕ
  pub points : Option ℕ

pub record LatePolicy : Type 0 where
  pub absent_after_mins : Option ℕ
  pub tiers : Option (List LateTier)
  pub points_window_days : Option ℕ
  pub alert_threshold_points : Option ℕ

-- The JSON object; its tiers are `none` where they are not an array, and an entry is `none` where it
-- is not an object.
pub record RawLatePolicy : Type 0 where
  pub absent_after_mins : Option ℕ
  pub tiers : Option (List (Option RawTier))
  pub points_window_days : Option ℕ
  pub alert_threshold_points : Option ℕ

abbrev pub default_points_window_days : ℕ
default_points_window_days = 30

-- A number between two bounds, and nothing otherwise.
abbrev pub in_range : ℕ → ℕ → Option ℕ → Option ℕ
in_range low high none = none
in_range low high (some n) = if leb low n && leb n high then some n else none

abbrev pub at_least : ℕ → Option ℕ → Option ℕ
at_least low none = none
at_least low (some n) = if leb low n then some n else none

abbrev pub valid_tier : Option ℕ → Option ℕ → List LateTier → List LateTier
valid_tier none points rest = rest
valid_tier (some after) none rest = rest
valid_tier (some after) (some points) rest =
    if leb 1 after && (ltb 0 points && leb points 100)
    then record { after_mins = after; points = points } ∷ rest
    else rest

unfoldable pub valid_tiers : List (Option RawTier) → List LateTier
valid_tiers [] = []
valid_tiers (none ∷ rest) = valid_tiers rest
valid_tiers (some t ∷ rest) = valid_tier t.after_mins t.points (valid_tiers rest)

abbrev pub some_tiers : List LateTier → Option (List LateTier)
some_tiers [] = none
some_tiers (t ∷ ts) = some (t ∷ ts)

unfoldable pub parse_tiers : Option (List (Option RawTier)) → Option (List LateTier)
parse_tiers none = none
parse_tiers (some raw) = some_tiers (sort_by (λ t. t.after_mins) (valid_tiers raw))

unfoldable pub parse_late_policy : Option RawLatePolicy → Option LatePolicy
parse_late_policy none = none
parse_late_policy (some p) =
    let absent = in_range 30 720 p.absent_after_mins in
    let tiers = parse_tiers p.tiers in
    let window = in_range 7 365 p.points_window_days in
    let threshold = at_least 1 p.alert_threshold_points in
    if is_some absent || is_some tiers || is_some window || is_some threshold
    then some (record {
      absent_after_mins = absent;
      tiers = tiers;
      points_window_days = window;
      alert_threshold_points = threshold;
    })
    else none

-- The loop keeps the points of the last tier that is reached.
unfoldable pub points_reached : ℕ → List LateTier → ℕ → ℕ
points_reached late [] points = points
points_reached late (t ∷ ts) points =
    points_reached late ts (if leb t.after_mins late then t.points else points)

unfoldable pub points_for_lateness : ℕ → Option (List LateTier) → ℕ
points_for_lateness late none = 0
points_for_lateness late (some tiers) = if late == 0 then 0 else points_reached late tiers 0

pub record AttendanceRecord : Type 0 where
  pub org_id : ℕ
  pub user_id : ℕ
  pub date : ℕ
  pub late_minutes : Option ℕ

pub record LateSummaryRow : Type 0 where
  pub user_id : ℕ
  pub late_count : ℕ
  pub total_late_minutes : ℕ
  pub points : ℕ

abbrev pub bump : ℕ → ℕ → LateSummaryRow → LateSummaryRow
bump late points row = record row {
  late_count = row.late_count + 1;
  total_late_minutes = row.total_late_minutes + late;
  points = row.points + points;
}

-- `byUser`, in the order in which users were first met.
unfoldable pub add_late :
    Option (List LateTier) → AttendanceRecord → List LateSummaryRow → List LateSummaryRow
add_late tiers r [] =
    let late = or_default r.late_minutes 0 in
    bump late (points_for_lateness late tiers)
      (record { user_id = r.user_id; late_count = 0; total_late_minutes = 0; points = 0 })
    ∷ []
add_late tiers r (row ∷ rows) =
    let late = or_default r.late_minutes 0 in
    let rest = add_late tiers r rows in
    if row.user_id == r.user_id
    then bump late (points_for_lateness late tiers) row ∷ rows
    else row ∷ rest

unfoldable pub by_user :
    Option (List LateTier) → List AttendanceRecord → List LateSummaryRow → List LateSummaryRow
by_user tiers [] rows = rows
by_user tiers (r ∷ rs) rows = by_user tiers rs (add_late tiers r rows)

-- More points first, and more late arrivals where the points are equal.
abbrev pub comes_before : LateSummaryRow → LateSummaryRow → Bool
comes_before a b = ltb b.points a.points || (a.points == b.points && leb b.late_count a.late_count)

unfoldable pub insert_row : LateSummaryRow → List LateSummaryRow → List LateSummaryRow
insert_row a [] = a ∷ []
insert_row a (b ∷ rows) =
    let rest = insert_row a rows in if comes_before a b then a ∷ b ∷ rows else b ∷ rest

unfoldable pub sort_rows : List LateSummaryRow → List LateSummaryRow
sort_rows [] = []
sort_rows (a ∷ rows) = insert_row a (sort_rows rows)

abbrev pub is_listed : ℕ → Option (List ℕ) → Bool
is_listed user none = true
is_listed user (some ids) = any (λ i. i == user) ids

abbrev pub is_late_since : ℕ → ℕ → Option (List ℕ) → AttendanceRecord → Bool
is_late_since org since ids r =
    (r.org_id == org && leb since r.date)
    && (ltb 0 (or_default r.late_minutes 0) && is_listed r.user_id ids)

abbrev pub tiers_of : Option LatePolicy → Option (List LateTier)
tiers_of none = none
tiers_of (some p) = p.tiers

abbrev pub window_of : Option LatePolicy → ℕ
window_of none = default_points_window_days
window_of (some p) = or_default p.points_window_days default_points_window_days

-- `window` is the number of days, which is `window_of policy` unless the caller gives one.
unfoldable pub late_summary_for_org :
    ℕ
    → Option LatePolicy
    → Option ℕ
    → Option (List ℕ)
    → ℕ
    → List AttendanceRecord
    → List LateSummaryRow
late_summary_for_org org policy window ids now records =
    let since = now - or_default window (window_of policy) * 24 * 60 * 60 * 1000 in
    sort_rows (by_user (tiers_of policy) (filter_by (is_late_since org since ids) records) [])
