-- ===== src/Shift/Tests.antt =====
-- Runs of the shift clock, and instances of its theorems, in a zone whose clock is UTC.
use attenda_api.Base.{ℕ, ◌+◌, ◌*◌, ◌/◌, ◌%◌, ◌≡◌, refl, true, none, some, arith}
use attenda_api.Shift.{
  DateFnsTz, ShiftLike, hhmm_to_mins, minutes_of_day_in_tz, late_minutes, early_out_minutes,
  adherence_score, scheduled_window, local_date_str, scheduled_instant, overnight_wrap,
  late_threshold_for,
}
use attenda_api.Shift.Text.{hhmm_text, hhmm_to_mins-hhmm_text}
use attenda_api.Shift.Late.{counted, late_minutes-forward}

abbrev pub utc_lib : DateFnsTz
unfolding hhmm_to_mins
utc_lib = record {
  to_zoned_time = λ at tz. record {
    day = at / 86400000;
    hours = (at / 3600000) % 24;
    minutes = (at / 60000) % 60;
  };
  from_zoned_time = λ day text tz. day * 86400000 + hhmm_to_mins text * 60000;
  hours-lt = λ at tz. omega arith;
  minutes-lt = λ at tz. omega arith;
}

abbrev pub night_shift : ShiftLike
night_shift = record {
  start_time = hhmm_text 22 0;
  end_time = hhmm_text 6 0;
  late_tolerance_mins = none;
  auto_checkout = true;
  auto_checkout_buffer_mins = none;
}

-- 00:30 on the day after, 150 minutes after the start; and 05:00, an hour before the end.
abbrev half_past : ℕ
half_past = 86400000 + 30 * 60000

abbrev five : ℕ
five = 86400000 + 300 * 60000

runs :
    (late_minutes utc_lib half_past (some night_shift) none ≡ 150)
    × (early_out_minutes utc_lib five (some night_shift) none ≡ 60)
    × (adherence_score 150 60 true ≡ some 0)
    × (late_threshold_for (some (some 0)) none ≡ 0)
    × (scheduled_window utc_lib night_shift none five ≡ (86400000 + 79200000, 86400000 + 108000000))
unfolding late_minutes early_out_minutes minutes_of_day_in_tz hhmm_to_mins adherence_score
    overnight_wrap late_threshold_for scheduled_window local_date_str scheduled_instant
runs = (refl, refl, refl, refl, refl)

hhmm_to_mins-hhmm_text_example : hhmm_to_mins (hhmm_text 9 5) ≡ 545
hhmm_to_mins-hhmm_text_example = hhmm_to_mins-hhmm_text 9 5 (omega arith) (omega arith)

late_minutes-forward_example :
    late_minutes utc_lib half_past (some night_shift) none
    ≡ counted (hhmm_to_mins night_shift.start_time) (minutes_of_day_in_tz utc_lib half_past none)
unfolding hhmm_to_mins
late_minutes-forward_example = late_minutes-forward utc_lib half_past night_shift none (omega arith)
