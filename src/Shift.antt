-- ===== src/Shift.antt =====
-- src/utils/shift.ts: shift times of the organisation's wall clock, lateness, early departure,
-- adherence and the automatic checkout. Instants are milliseconds since the epoch, times of the
-- day are minutes since midnight, and a calendar date is the number of its day.
pub mod Text
pub mod Late
pub mod Tests
use attenda_api.Base.{
  ℕ, ◌+◌, ◌*◌, ◌-◌, min, String, Bool, false, ◌&&◌, not, Option, none, some, List, [], ◌∷◌, length,
  leb, ◌==◌, if◌then◌else◌, or_default, str_eq, ◌<◌,
}
use attenda_api.Base.Int.{ℤ, pos, negsuc, pos_part, sub_ℕ, ltb_ℤ, ◌+ℤ◌, ◌-ℤ◌}

-- A `Date` whose local getters read the wall clock of a zone.
pub record Zoned : Type 0 where
  pub day : ℕ
  pub hours : ℕ
  pub minutes : ℕ

-- date-fns-tz, which is not part of the repository: `toZonedTime` and `fromZonedTime`, and the
-- ranges of `getHours` and `getMinutes`.
pub record DateFnsTz : Type 0 where
  pub to_zoned_time : ℕ → String → Zoned
  -- The instant of a wall-clock time, written as text, on a date.
  pub from_zoned_time : ℕ → List ℕ → String → ℕ
  pub hours-lt : (at : ℕ) (tz : String) → (to_zoned_time at tz).hours < 24
  pub minutes-lt : (at : ℕ) (tz : String) → (to_zoned_time at tz).minutes < 60

pub record ShiftLike : Type 0 where
  pub start_time : List ℕ
  pub end_time : List ℕ
  pub late_tolerance_mins : Option ℕ
  pub auto_checkout : Bool
  pub auto_checkout_buffer_mins : Option ℕ

-- `Number` of one part of a time: its value where it is digits alone (an empty part is 0), and
-- `none`, which is NaN, otherwise. What else `Number` reads (blanks, a sign, a fraction, an exponent,
-- hexadecimal digits) is out of the model: it is no part of a time HH:MM.
number_from : ℕ → List ℕ → Option ℕ
number_from acc [] = some acc
number_from acc (c ∷ cs) =
    let rest = number_from (acc * 10 + (c - b'0')) cs in
    if leb b'0' c && leb c b'9' then rest else none

-- `split(':')`: the first part, and what stands after the first colon.
split_colon : List ℕ → List ℕ × Option (List ℕ)
split_colon [] = ([], none)
split_colon (c ∷ cs) =
    let (part, rest) = split_colon cs in if c == b':' then ([], some cs) else (c ∷ part, rest)

-- The second part of the split, which ends at the next colon.
second_part : Option (List ℕ) → Option ℕ
unfolding split_colon number_from
second_part none = none
second_part (some cs) = number_from 0 (split_colon cs).0

unfoldable pub hhmm_to_mins : List ℕ → ℕ
unfolding second_part split_colon number_from
hhmm_to_mins hhmm =
    or_default (number_from 0 (split_colon hhmm).0) 0 * 60
    + or_default (second_part (split_colon hhmm).1) 0

-- `timezone || 'UTC'`
abbrev pub zone_name : Option String → String
zone_name none = "UTC"
zone_name (some tz) = if str_eq tz "" then "UTC" else tz

unfoldable pub late_threshold_for : Option (Option ℕ) → Option (Option ℕ) → ℕ
late_threshold_for shift org =
    or_default (or_default shift none) (or_default (or_default org none) 15)

-- The wrap that each of the comparisons makes: a difference of more than half a day is taken to
-- the other side of midnight.
unfoldable pub overnight_wrap : ℤ → ℤ
overnight_wrap diff =
    let up = (if ltb_ℤ diff (negsuc 719) then diff +ℤ pos 1440 else diff) in
    if ltb_ℤ (pos 720) up then up -ℤ pos 1440 else up

unfoldable pub adherence_score : ℕ → ℕ → Bool → Option ℕ
adherence_score late_mins early_mins has_shift =
    if has_shift then some (min 100 (100 - min 50 late_mins - min 50 early_mins)) else none

module _ (tz_lib : DateFnsTz) where
  open tz_lib use {to_zoned_time, from_zoned_time}

  unfoldable pub minutes_of_day_in_tz : ℕ → Option String → ℕ
  minutes_of_day_in_tz at timezone =
      (to_zoned_time at (zone_name timezone)).hours * 60
      + (to_zoned_time at (zone_name timezone)).minutes

  unfoldable pub local_date_str : ℕ → Option String → ℕ
  local_date_str at timezone = (to_zoned_time at (zone_name timezone)).day

  -- The UTC midnight of the local date.
  unfoldable pub date_only_in_tz : ℕ → Option String → ℕ
  date_only_in_tz at timezone = local_date_str at timezone * 86400000

  unfoldable pub scheduled_instant : ℕ → List ℕ → Option String → ℕ
  scheduled_instant date hhmm timezone =
      from_zoned_time date (if length hhmm == 4 then b'0' ∷ hhmm else hhmm) (zone_name timezone)

  unfoldable pub scheduled_window : ShiftLike → Option String → ℕ → ℕ × ℕ
  scheduled_window shift timezone at =
      let date = local_date_str at timezone in
      let start = scheduled_instant date shift.start_time timezone in
      let end = scheduled_instant date shift.end_time timezone in
      if leb (hhmm_to_mins shift.end_time) (hhmm_to_mins shift.start_time)
      then (start, end + 24 * 60 * 60 * 1000)
      else (start, end)

  unfoldable pub late_minutes : ℕ → Option ShiftLike → Option String → ℕ
  late_minutes check_in_at none timezone = 0
  late_minutes check_in_at (some shift) timezone = pos_part (
      overnight_wrap
        (sub_ℕ (minutes_of_day_in_tz check_in_at timezone) (hhmm_to_mins shift.start_time)))

  unfoldable pub early_out_minutes : ℕ → Option ShiftLike → Option String → ℕ
  early_out_minutes check_out_at none timezone = 0
  early_out_minutes check_out_at (some shift) timezone = pos_part (
      overnight_wrap
        (sub_ℕ (hhmm_to_mins shift.end_time) (minutes_of_day_in_tz check_out_at timezone)))

  unfoldable pub shift_auto_checkout_due : Option ShiftLike → Option String → ℕ → Bool
  shift_auto_checkout_due none timezone now = false
  shift_auto_checkout_due (some shift) timezone now =
      let end = hhmm_to_mins shift.end_time in
      let buffer = or_default shift.auto_checkout_buffer_mins 30 in
      let diff = overnight_wrap (sub_ℕ (minutes_of_day_in_tz now timezone) (end + buffer)) in
      if not shift.auto_checkout then false else not (ltb_ℤ diff (pos 0)) && ltb_ℤ diff (pos 120)
