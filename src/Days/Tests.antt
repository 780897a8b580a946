-- ===== src/Days/Tests.antt =====
-- Two recurring holidays and a fixed one over the turn of a leap year.
use attenda_api.Base.{ℕ, arith, ◌≡◌, refl, true, false, none, List, [], ◌∷◌, ◌+◌, ◌*◌, Bool}
use attenda_api.Days.{
  OrgHoliday, candidates, working_days_from, holiday_set_for_range, expand_holidays, utc_month,
  utc_date, utc_full_year, date_utc, working_days_for_org, working_days_excluding,
}
use attenda_api.Days.Range.{working_days_excluding-weeks}

abbrev holiday : ℕ → Bool → OrgHoliday
holiday date recurring = record {
  org_id = 2;
  location_id = none;
  date = date;
  recurring = recurring;
}

-- 29 February 2024, 1 January 2020 and 25 December 2023.
abbrev holidays : List OrgHoliday
holidays = holiday 19782 true ∷ holiday 18262 true ∷ holiday 19716 false ∷ []

calendar : utc_full_year 19782 * 10000 + utc_month 19782 * 100 + utc_date 19782 ≡ 20240229
unfolding utc_full_year utc_month utc_date
calendar = refl

rolled : date_utc 2023 2 29 ≡ date_utc 2023 3 1
unfolding date_utc
rolled = refl

epoch : date_utc 1970 1 1 ≡ 0
unfolding date_utc
epoch = refl

expanded : expand_holidays holidays 19700 20100 ≡ 19782 ∷ 19723 ∷ 20089 ∷ 19716 ∷ []
unfolding expand_holidays candidates date_utc utc_month utc_date utc_full_year
expanded = refl

first_week : working_days_for_org 2 19723 19729 none holidays ≡ 4
unfolding working_days_for_org holiday_set_for_range working_days_excluding working_days_from
    expand_holidays candidates date_utc utc_month utc_date utc_full_year
first_week = refl

working_days_excluding-weeks_example :
    working_days_excluding 19717 19730 (19723 ∷ 19730 ∷ []) + 2 ≡ 10
working_days_excluding-weeks_example =
    working_days_excluding-weeks 19717 19730 2 (19723 ∷ 19730 ∷ []) refl
      (omega arith, omega arith, refl, refl, (omega arith, omega arith, refl, refl, tt))
