-- ===== src/Breaks/Tests.antt =====
-- A day with one break still open at the checkout and one break that was not taken.
use attenda_api.Base.{
  ℕ, ◌+◌, ◌*◌, ◌≡◌, ◌≤◌, refl, true, false, none, some, List, [], ◌∷◌, sum_of, list_table,
}
use attenda_api.Shift.{hhmm_to_mins}
use attenda_api.Shift.Text.{hhmm_text}
use attenda_api.Shift.Tests.{utc_lib}
use attenda_api.Breaks.{
  ShiftBreak, BreakRecord, Attendance, BreakSettlement, paid_of, totals_from, wall_instant,
  calc_late_return_mins, eligible_minutes, template_missing, calculate_break_totals, close_breaks,
  deduct_missed, settle_attendance, settle_breaks, unpaid_overlap, net_extra_minutes_after_shift,
}
use attenda_api.Breaks.Result.{settle_breaks-totals}
use attenda_api.Breaks.Again.{settle_breaks_twice}
use attenda_api.Breaks.Extra.{net_extra_minutes-cover}

abbrev clock : ℕ → ℕ → ℕ
clock h m = 20000 * 86400000 + (h * 60 + m) * 60000

abbrev lunch : ShiftBreak
lunch = record {
  id = 1;
  break_kind = "fixed";
  break_minutes = 30;
  after_minutes = 240;
  break_end_time = some (hhmm_text 13 0);
  is_paid = false;
  deduct_extra_time = false;
  deduct_if_skipped = none;
  applies_days = [];
  exception_dates = [];
}

abbrev tea : ShiftBreak
tea = record {
  id = 2;
  break_kind = "flexible";
  break_minutes = 10;
  after_minutes = 60;
  break_end_time = none;
  is_paid = true;
  deduct_extra_time = true;
  deduct_if_skipped = none;
  applies_days = [];
  exception_dates = [];
}

abbrev open_tea : BreakRecord
open_tea = record {
  id = 7;
  attendance_id = 5;
  shift_break = some tea;
  break_start = clock 17 30;
  break_end = none;
  duration_mins = none;
  is_paid = true;
  counted_as_extra = false;
  auto_deducted = false;
  auto_started = false;
  auto_ended = false;
  late_return_minutes = none;
}

abbrev office_day : Attendance
office_day = record {
  id = 5;
  date = 20000;
  check_in_at = some (clock 9 0);
  scheduled_start = some (clock 9 0);
  scheduled_end = some (clock 17 45);
  shift_breaks = some (lunch ∷ tea ∷ []);
  break_minutes = 0;
  paid_break_minutes = 0;
}

abbrev settled : List BreakRecord × BreakSettlement
settled =
    settle_breaks utc_lib (list_table BreakRecord) (list_table Attendance) (λ s. s.id + 100) 5
      (clock 18 0) "UTC" (open_tea ∷ []) (office_day ∷ [])

break_code : Unit {0}
unfolding settle_breaks settle_attendance deduct_missed close_breaks calculate_break_totals
    template_missing eligible_minutes calc_late_return_mins wall_instant totals_from paid_of
    hhmm_to_mins
break_code = tt

-- Ten minutes of the tea are paid; the rest of it and the lunch are not.
settled_run : settled.1 ≡ record { paid_mins = 10; unpaid_mins = 50; total_mins = 60 }
unfolding break_code
settled_run = refl

settle_breaks-totals_example :
    settled.1
    ≡ calculate_break_totals utc_lib (list_table BreakRecord) (list_table Attendance) 5 settled.0
settle_breaks-totals_example =
    settle_breaks-totals utc_lib (list_table BreakRecord) (list_table Attendance) (λ s. s.id + 100)
      5 (clock 18 0) "UTC" (open_tea ∷ []) (office_day ∷ [])

settle_breaks_twice_example :
    settle_breaks utc_lib
      (list_table BreakRecord)
      (list_table Attendance)
      (λ s. s.id + 100)
      5
      (clock 18 0)
      "UTC"
      settled.0
      (office_day ∷ [])
    ≡ settled
settle_breaks_twice_example =
    settle_breaks_twice utc_lib (list_table BreakRecord) (list_table Attendance) (λ s. s.id + 100) 5
      (clock 18 0) "UTC" (open_tea ∷ []) (office_day ∷ [])

abbrev taken_lunch : BreakRecord
taken_lunch = record open_tea {
  shift_break = some lunch;
  break_start = clock 12 30;
  break_end = some (clock 13 0);
  duration_mins = some 30;
  is_paid = false;
}

net_extra_minutes-cover_example :
    (75
      ≤ net_extra_minutes_after_shift utc_lib
          (list_table BreakRecord)
          (list_table Attendance)
          5
          (clock 19 0)
          (some (clock 17 45))
          (taken_lunch ∷ [])
        + sum_of
            (unpaid_overlap utc_lib
              (list_table BreakRecord)
              (list_table Attendance)
              (clock 17 45)
              (clock 19 0))
            (taken_lunch ∷ []))
    × (net_extra_minutes_after_shift utc_lib
          (list_table BreakRecord)
          (list_table Attendance)
          5
          (clock 19 0)
          (some (clock 17 45))
          (taken_lunch ∷ [])
        ≤ 75)
net_extra_minutes-cover_example =
    net_extra_minutes-cover utc_lib (list_table BreakRecord) (list_table Attendance) 5 (clock 19 0)
      (clock 17 45) (taken_lunch ∷ [])
