-- ===== src/Days.antt =====
-- src/services/holidays.ts: public holidays and working days. A date is its number of days from
-- 1970-01-01, as the source keeps dates at midnight of UTC, so the order of its keys is that of days;
-- the calendar is the one that Date reads of such a date.
pub mod Range
pub mod Tests
use attenda_api.Base.{
  ℕ, zero, suc, ◌+◌, ◌*◌, ◌-◌, ◌/◌, ◌%◌, Bool, ◌&&◌, ◌||◌, not, Option, none, some, List, [], ◌∷◌,
  ◌++◌, ltb, leb, ◌==◌, if◌then◌else◌, any, filter_by, length, true, false,
}

-- getUTCDay: 0 for Sunday.
abbrev pub utc_day : ℕ → ℕ
utc_day d = (d + 4) % 7

abbrev pub is_weekday : ℕ → Bool
is_weekday d = not (utc_day d == 0) && not (utc_day d == 6)

-- The calendar of a date, by years that start in March and eras of 400 years.
abbrev pub day_of_era : ℕ → ℕ
day_of_era d = (d + 719468) % 146097

abbrev pub year_of_era : ℕ → ℕ
year_of_era doe = (doe - doe / 1460 + doe / 36524 - doe / 146096) / 365

abbrev pub day_of_year : ℕ → ℕ
day_of_year doe = let yoe = year_of_era doe in doe - (365 * yoe + yoe / 4 - yoe / 100)

abbrev pub march_month : ℕ → ℕ
march_month d = (5 * day_of_year (day_of_era d) + 2) / 153

-- getUTCMonth + 1, getUTCDate and getUTCFullYear.
unfoldable pub utc_month : ℕ → ℕ
utc_month d = if ltb (march_month d) 10 then march_month d + 3 else march_month d - 9

unfoldable pub utc_date : ℕ → ℕ
utc_date d = day_of_year (day_of_era d) - (153 * march_month d + 2) / 5 + 1

unfoldable pub utc_full_year : ℕ → ℕ
utc_full_year d =
    year_of_era (day_of_era d)
    + (d + 719468) / 146097 * 400
    + (if ltb (march_month d) 10 then 0 else 1)

abbrev pub march_year : ℕ → ℕ → ℕ
march_year year month = if leb month 2 then year - 1 else year

-- Date.UTC of a year, a month from 1 and a day, which rolls over into the next month.
unfoldable pub date_utc : ℕ → ℕ → ℕ → ℕ
date_utc year month day =
    let y = march_year year month in
    let m = (if leb month 2 then month + 9 else month - 3) in
    y * 365 + y / 4 + y / 400 + (153 * m + 2) / 5 + (day - 1) - y / 100 - 719468

pub record OrgHoliday : Type 0 where
  pub org_id : ℕ
  pub location_id : Option ℕ
  pub date : ℕ
  pub recurring : Bool

abbrev pub in_range : ℕ → ℕ → ℕ → Bool
in_range start stop key = leb start key && leb key stop

abbrev pub keep_in_range : ℕ → ℕ → ℕ → List ℕ
keep_in_range start stop key = if in_range start stop key then key ∷ [] else []

-- One year of a recurring holiday. A day that rolled over into another month is left out.
abbrev pub candidate : ℕ → ℕ → ℕ → ℕ → List ℕ
candidate start stop date year =
    let key = date_utc year (utc_month date) (utc_date date) in
    if utc_month key == utc_month date then keep_in_range start stop key else []

-- The years of a range, `count` of them from `year`.
unfoldable pub candidates : ℕ → ℕ → ℕ → ℕ → ℕ → List ℕ
candidates start stop date year zero = []
candidates start stop date year (suc count) =
    candidate start stop date year ++ candidates start stop date (suc year) count

abbrev pub expand_row : ℕ → ℕ → OrgHoliday → List ℕ
expand_row start stop row =
    if row.recurring
    then candidates start stop row.date (utc_full_year start)
        (suc (utc_full_year stop) - utc_full_year start)
    else keep_in_range start stop row.date

-- expandHolidays. The set is a list that is only searched.
unfoldable pub expand_holidays : List OrgHoliday → ℕ → ℕ → List ℕ
expand_holidays [] start stop = []
expand_holidays (row ∷ rows) start stop =
    expand_row start stop row ++ expand_holidays rows start stop

abbrev pub has_key : List ℕ → ℕ → Bool
has_key keys d = any (λ k. k == d) keys

abbrev pub is_working_day : List ℕ → ℕ → Bool
is_working_day holidays d = is_weekday d && not (has_key holidays d)

-- The loop over the days of a range, `count` of them from `day`.
unfoldable pub working_days_from : List ℕ → ℕ → ℕ → ℕ
working_days_from holidays day zero = 0
working_days_from holidays day (suc count) =
    (if is_working_day holidays day then 1 else 0) + working_days_from holidays (suc day) count

-- workingDaysExcluding
unfoldable pub working_days_excluding : ℕ → ℕ → List ℕ → ℕ
working_days_excluding start stop holidays = working_days_from holidays start (suc stop - start)

abbrev pub location_is : Option ℕ → Option ℕ → Bool
location_is none location = true
location_is (some l) none = false
location_is (some l) (some location) = l == location

-- The holidays of an organization that count at a location: its own and those of no location.
abbrev pub applies_at : ℕ → Option ℕ → OrgHoliday → Bool
applies_at org location row = row.org_id == org && location_is row.location_id location

-- holidaySetForRange, workingDaysForOrg and isOrgHoliday, over the rows of the holidays.
unfoldable pub holiday_set_for_range : ℕ → ℕ → ℕ → Option ℕ → List OrgHoliday → List ℕ
holiday_set_for_range org start stop location rows =
    expand_holidays (filter_by (applies_at org location) rows) start stop

unfoldable pub working_days_for_org : ℕ → ℕ → ℕ → Option ℕ → List OrgHoliday → ℕ
working_days_for_org org start stop location rows =
    working_days_excluding start stop (holiday_set_for_range org start stop location rows)

unfoldable pub is_org_holiday : ℕ → ℕ → Option ℕ → List OrgHoliday → Bool
is_org_holiday org date location rows =
    ltb 0 (length (holiday_set_for_range org date date location rows))
