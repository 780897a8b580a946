-- ===== src/LatePolicy/Tests.antt =====
-- Two late arrivals of one employee under a policy of two tiers.
use attenda_api.Base.{
  ◌*◌, ◌-◌, ◌≡◌, some, none, Option, List, [], ◌∷◌, filter_by, sum_of, or_default,
}
use attenda_api.LatePolicy.{
  RawTier, LatePolicy, AttendanceRecord, late_summary_for_org, is_late_since, tiers_of, window_of,
}
use attenda_api.LatePolicy.Summary.{
  points_of, minutes_of, count_of, amount, minutes_late, late_points, late_summary_for_org_totals,
}

abbrev raw_tiers : Option (List (Option RawTier))
raw_tiers = some (
    some (record { after_mins = some 30; points = some 2 })
    ∷ some (record { after_mins = some 5; points = some 1 })
    ∷ none
    ∷ [])

abbrev policy : Option LatePolicy
policy = some (record {
  absent_after_mins = none;
  tiers =
      some (record { after_mins = 5; points = 1 } ∷ record { after_mins = 30; points = 2 } ∷ []);
  points_window_days = none;
  alert_threshold_points = some 3;
})

abbrev arrivals : List AttendanceRecord
arrivals =
    record { org_id = 2; user_id = 7; date = 5000000000; late_minutes = some 12 }
    ∷ record { org_id = 2; user_id = 7; date = 5086400000; late_minutes = some 45 }
    ∷ []

late_summary_for_org_totals_example :
    let rows = late_summary_for_org 2 policy none none 5200000000 arrivals in
    let since = 5200000000 - or_default none (window_of policy) * 24 * 60 * 60 * 1000 in
    let mine = filter_by (is_late_since 2 since none) arrivals in
    (points_of 7 rows ≡ sum_of (amount 7 (late_points (tiers_of policy))) mine)
    × (minutes_of 7 rows ≡ sum_of (amount 7 minutes_late) mine)
    × (count_of 7 rows ≡ sum_of (amount 7 (λ r. 1)) mine)
late_summary_for_org_totals_example =
    late_summary_for_org_totals 7 2 policy none none 5200000000 arrivals
