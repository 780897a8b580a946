-- ===== src/Breaks.antt =====
-- src/utils/attendance.ts: the break accounting that every checkout path shares. Instants are
-- milliseconds since the epoch, dates are day numbers, identifiers are numbers that are only
-- compared. A break row is modelled with the shift break that the query includes.
pub mod Totals
pub mod Settle
pub mod Result
pub mod Again
pub mod Extra
pub mod Tests
use attenda_api.Base.{
  ℕ, ◌+◌, ◌*◌, ◌-◌, ◌/◌, ◌%◌, min, max, String, Bool, true, false, ◌&&◌, ◌||◌, not, Option, none,
  some, List, [], ◌∷◌, length, any, sum_of, ltb, leb, ◌==◌, if◌then◌else◌, or_default, is_some,
  str_eq, Table, find_many, find_first,
}
use attenda_api.Shift.{DateFnsTz}

pub record ShiftBreak : Type 0 where
  pub id : ℕ
  pub break_kind : String
  pub break_minutes : ℕ
  pub after_minutes : ℕ
  pub break_end_time : Option (List ℕ)
  pub is_paid : Bool
  pub deduct_extra_time : Bool
  pub deduct_if_skipped : Option Bool
  pub applies_days : List ℕ
  pub exception_dates : List ℕ

pub record BreakRecord : Type 0 where
  pub id : ℕ
  pub attendance_id : ℕ
  pub shift_break : Option ShiftBreak
  pub break_start : ℕ
  pub break_end : Option ℕ
  pub duration_mins : Option ℕ
  pub is_paid : Bool
  pub counted_as_extra : Bool
  pub auto_deducted : Bool
  pub auto_started : Bool
  pub auto_ended : Bool
  pub late_return_minutes : Option ℕ

pub record Attendance : Type 0 where
  pub id : ℕ
  pub date : ℕ
  pub check_in_at : Option ℕ
  pub scheduled_start : Option ℕ
  pub scheduled_end : Option ℕ
  pub shift_breaks : Option (List ShiftBreak)
  pub break_minutes : ℕ
  pub paid_break_minutes : ℕ

pub record BreakSettlement : Type 0 where
  pub paid_mins : ℕ
  pub unpaid_mins : ℕ
  pub total_mins : ℕ

-- `Math.max(0, Math.round((to - from) / 60000))`
abbrev pub minutes_between : ℕ → ℕ → ℕ
minutes_between from to = (to - from + 30000) / 60000

abbrev pub is_closed : ℕ → BreakRecord → Bool
is_closed attendance_id b = b.attendance_id == attendance_id && is_some b.break_end

abbrev pub is_open : ℕ → BreakRecord → Bool
is_open attendance_id b = b.attendance_id == attendance_id && not (is_some b.break_end)

abbrev pub duration : BreakRecord → ℕ
duration b = or_default b.duration_mins 0

paid_under : Option ShiftBreak → Bool → ℕ → ℕ
paid_under none counted mins = mins
paid_under (some s) counted mins =
    if s.deduct_extra_time && not counted then min mins s.break_minutes else mins

unfoldable pub paid_of : BreakRecord → ℕ
unfolding paid_under
paid_of b = if b.is_paid then paid_under b.shift_break b.counted_as_extra (duration b) else 0

abbrev pub unpaid_of : BreakRecord → ℕ
unpaid_of b = duration b - paid_of b

-- The loop of `calculateBreakTotals`.
unfoldable pub totals_from : ℕ → ℕ → List BreakRecord → BreakSettlement
totals_from paid unpaid [] = record {
  paid_mins = paid;
  unpaid_mins = unpaid;
  total_mins = paid + unpaid;
}
totals_from paid unpaid (b ∷ bs) = totals_from (paid + paid_of b) (unpaid + unpaid_of b) bs

-- `break_end_time` where it is set and not empty.
abbrev pub wall_end : ShiftBreak → Option (List ℕ)
wall_end s = elim s.break_end_time [
  | none ↦ none
  | some text ↦ elim text [ [] ↦ none | c ∷ cs ↦ some (c ∷ cs) ]
]

-- The break applies on the day of the attendance; day 0 of the epoch was a Thursday.
abbrev pub applies_on : ShiftBreak → ℕ → Bool
applies_on s date =
    (length s.applies_days == 0 || any (λ d. d == (date + 4) % 7) s.applies_days)
    && (length s.exception_dates == 0 || any (λ d. d == date) s.exception_dates)

-- `scheduled && scheduled > checkIn ? scheduled : checkIn`, and the same for the end.
abbrev pub work_start : Attendance → ℕ → ℕ
work_start a check_in = elim a.scheduled_start [
  | none ↦ check_in
  | some s ↦ if ltb check_in s then s else check_in
]

abbrev pub work_end : Attendance → ℕ → ℕ
work_end a at = elim a.scheduled_end [ none ↦ at | some s ↦ if ltb s at then s else at ]

module _ (lib : DateFnsTz) where
  -- The instant of a wall-clock time on the local day of `at`.
  unfoldable pub wall_instant : ℕ → List ℕ → String → ℕ
  wall_instant at text tz = lib.from_zoned_time (lib.to_zoned_time at tz).day text tz

  unfoldable pub calc_late_return_mins : Option ShiftBreak → ℕ → String → ℕ → Option ℕ
  calc_late_return_mins none break_end tz mins = none
  calc_late_return_mins (some s) break_end tz mins =
      if str_eq s.break_kind "fixed" && is_some (wall_end s)
      then some (minutes_between (wall_instant break_end (or_default (wall_end s) []) tz) break_end)
      else if str_eq s.break_kind "flexible"
      then some (mins - s.break_minutes)
      else none

  -- The minutes of a scheduled break that fell into the worked time up to `at`, where the break is
  -- due for deduction; 0 where the loop of `settleBreaks` goes on to the next break.
  unfoldable pub eligible_minutes : Attendance → ℕ → ShiftBreak → ℕ → String → ℕ
  eligible_minutes a check_in s at tz =
      if not (applies_on s a.date)
      then 0
      else if str_eq s.break_kind "flexible"
      then 0
      else if not (or_default s.deduct_if_skipped true)
      then 0
      else if s.is_paid
      then 0
      else (elim (wall_end s) [
        | none ↦ if leb (minutes_between check_in at) s.after_minutes then 0 else s.break_minutes
        | some text ↦
            let end = wall_instant at text tz in
            let start = end - s.break_minutes * 60000 in
            let from = work_start a check_in in
            let to = work_end a at in
            if leb at end || leb end from || leb to start
            then 0
            else minutes_between (max start from) (min end to)
      ])

  pub taken_for : ShiftBreak → List BreakRecord → ℕ
  taken_for s closed =
      sum_of
        (λ b. if elim b.shift_break [ none ↦ false | some t ↦ t.id == s.id ] then duration b else 0)
        closed

  unfoldable pub template_missing : Attendance → ℕ → List BreakRecord → ShiftBreak → ℕ → String → ℕ
  unfolding taken_for
  template_missing a check_in closed s at tz =
      eligible_minutes a check_in s at tz - taken_for s closed

  -- The break row that `settleBreaks` writes for a break that was not taken.
  abbrev pub deducted_break : ℕ → ℕ → ShiftBreak → ℕ → ℕ → BreakRecord
  deducted_break fresh attendance_id s missing at = record {
    id = fresh;
    attendance_id = attendance_id;
    shift_break = some s;
    break_start = at - missing * 60000;
    break_end = some at;
    duration_mins = some missing;
    is_paid = false;
    counted_as_extra = false;
    auto_deducted = true;
    auto_started = true;
    auto_ended = true;
    late_return_minutes = none;
  }

  module _ (breaks : Table BreakRecord) (attendances : Table Attendance) where
    open breaks use {State, rows, create, update_many}

    unfoldable pub calculate_break_totals : ℕ → State → BreakSettlement
    calculate_break_totals attendance_id db =
        totals_from 0 0 (find_many breaks (is_closed attendance_id) db)

    -- `none` where the attendance is missing, for which `update` throws.
    unfoldable pub update_attendance_break_summary :
        ℕ → State → attendances.State → Option (attendances.State × BreakSettlement)
    update_attendance_break_summary attendance_id db adb =
        let totals = calculate_break_totals attendance_id db in
        if is_some (find_first attendances (λ a. a.id == attendance_id) adb)
        then some (
          attendances.update_many (λ a. a.id == attendance_id)
              (λ a. record a {
                break_minutes = totals.total_mins;
                paid_break_minutes = totals.paid_mins;
              })
              adb,
          totals,
        )
        else none

    -- The first loop of `settleBreaks`: every open break of the attendance ends at `at`.
    unfoldable pub close_breaks : List BreakRecord → ℕ → String → State → State
    close_breaks [] at tz db = db
    close_breaks (b ∷ bs) at tz db =
        let mins = minutes_between b.break_start at in
        let late = calc_late_return_mins b.shift_break at tz mins in
        close_breaks bs at tz (
          update_many (λ r. r.id == b.id)
            (λ r. record r {
              break_end = some at;
              duration_mins = some mins;
              auto_ended = true;
              late_return_minutes = late;
            })
            db)

    -- The second loop: a row and its minutes for every break that was due and not fully taken.
    -- The identifiers of new rows come from the database.
    unfoldable pub deduct_missed :
        (ShiftBreak → ℕ)
        → Attendance
        → ℕ
        → List BreakRecord
        → List ShiftBreak
        → ℕ
        → String
        → ℕ
        → State
        → State × ℕ
    deduct_missed fresh a check_in closed [] at tz missing db = (db, missing)
    deduct_missed fresh a check_in closed (s ∷ ss) at tz missing db =
        let mins = template_missing a check_in closed s at tz in
        deduct_missed fresh a check_in closed ss at tz (missing + mins)
          (if mins == 0 then db else create (deducted_break (fresh s) a.id s mins at) db)

    unfoldable pub settle_attendance :
        (ShiftBreak → ℕ) → Option Attendance → List BreakRecord → ℕ → String → State → State × ℕ
    settle_attendance fresh none closed at tz db = (db, 0)
    settle_attendance fresh (some a) closed at tz db = elim a.shift_breaks [
      | none ↦ (db, 0)
      | some ss ↦ (elim a.check_in_at [
        | none ↦ (db, 0)
        | some check_in ↦ deduct_missed fresh a check_in closed ss at tz 0 db
      ])
    ]

    unfoldable pub settle_breaks :
        (ShiftBreak → ℕ) → ℕ → ℕ → String → State → attendances.State → State × BreakSettlement
    settle_breaks fresh attendance_id at tz db adb =
        let db' = close_breaks (find_many breaks (is_open attendance_id) db) at tz db in
        let closed = find_many breaks (is_closed attendance_id) db' in
        let totals = calculate_break_totals attendance_id db' in
        let (db'', missing) =
          settle_attendance fresh (find_first attendances (λ a. a.id == attendance_id) adb) closed
            at tz db' in
        (
          db'',
          record {
            paid_mins = totals.paid_mins;
            unpaid_mins = totals.unpaid_mins + missing;
            total_mins = totals.paid_mins + (totals.unpaid_mins + missing);
          },
        )

    -- The unpaid part of one break that lies between the end of the shift and the checkout.
    unfoldable pub unpaid_overlap : ℕ → ℕ → BreakRecord → ℕ
    unpaid_overlap end check_out_at b =
        let unpaid_start = b.break_start + paid_of b * 60000 in
        let start = max unpaid_start end in
        let stop = min (or_default b.break_end check_out_at) check_out_at in
        if ltb start stop then minutes_between start stop else 0

    unfoldable pub net_extra_minutes_after_shift : ℕ → ℕ → Option ℕ → State → ℕ
    net_extra_minutes_after_shift attendance_id check_out_at none db = 0
    net_extra_minutes_after_shift attendance_id check_out_at (some end) db =
        if leb check_out_at end
        then 0
        else minutes_between end check_out_at
          - sum_of (unpaid_overlap end check_out_at) (find_many breaks (is_closed attendance_id) db)

-- Hours are counted in hundredths: `toFixed(2)` of hours less minutes never meets a tie.
unfoldable pub net_hours_worked : ℕ → ℕ → ℕ
net_hours_worked gross_hundredths unpaid_break_mins =
    (gross_hundredths * 60 - unpaid_break_mins * 100 + 30) / 60
