-- ===== src/Reviews/Leave.antt =====
-- The decision on a leave request (reviewApproval of src/services/approval-workflows.ts).
use attenda_api.Base.{
  ℕ, zero, suc, ◌+◌, ◌-◌, String, Bool, true, false, ◌&&◌, ◌||◌, not, Option, none, some, List, ltb,
  leb, ◌==◌, if◌then◌else◌, is_some, find_first, count, Table, str_eq,
}
use attenda_api.Accrual.{LeaveBalance}
use attenda_api.Days.{is_working_day, holiday_set_for_range, utc_full_year}
use attenda_api.Reviews.{
  approved, rejected, LeaveRequest, AttendanceStatus, on_leave, half_leave, AttendanceRecord,
  ShiftAssignment, Tables, Store, Snapshot, Decision, Refusal, forbidden, not_found,
  overlaps_shifts, already_reviewed,
}
use attenda_api.Reviews.Claim.{
  is_pending, is_approve, in_scope, primary_location, or_else, transaction,
}

abbrev pub is_open_leave : ℕ → ℕ → LeaveRequest → Bool
is_open_leave id org r = (r.id == id && r.org_id == org) && is_pending r.status

abbrev pub is_leave_balance : LeaveRequest → LeaveBalance → Bool
is_leave_balance r b =
    (b.user_id == r.user_id && b.leave_type == r.leave_type) && b.year == utc_full_year r.start_date

abbrev pub is_day_of : ℕ → ℕ → AttendanceRecord → Bool
is_day_of user date a = a.user_id == user && a.date == date

-- A text that is there and not empty.
abbrev pub is_text : Option String → Bool
is_text none = false
is_text (some text) = not (str_eq text "")

abbrev pub leave_status : LeaveRequest → AttendanceStatus
leave_status r = if r.is_half_day || is_text r.leave_start_time then half_leave else on_leave

abbrev pub is_half_leave : AttendanceStatus → Bool
is_half_leave half_leave = true
is_half_leave _ = false

abbrev pub set_status : AttendanceStatus → AttendanceRecord → AttendanceRecord
set_status status a = record a { status = status }

abbrev pub leave_record : ℕ → ℕ → Option ℕ → ℕ → AttendanceStatus → ℕ → AttendanceRecord
leave_record org user location date status fresh = record {
  id = fresh;
  org_id = org;
  user_id = user;
  location_id = location;
  date = date;
  check_in_at = none;
  check_out_at = none;
  status = status;
  hours_worked = none;
  overtime_hours = 0;
  extra_office_minutes = 0;
  is_manual = true;
  is_overridden = false;
  override_by = none;
  override_reason = none;
}

module _ (attendance : Table AttendanceRecord) (org user : ℕ) (location : Option ℕ)
    (status : AttendanceStatus) (holidays : List ℕ) where
  -- One working day of the leave, whose record may be there.
  abbrev pub mark_day_with : ℕ → ℕ → Option AttendanceRecord → attendance.State → attendance.State
  mark_day_with fresh date none s =
      attendance.create (leave_record org user location date status fresh) s
  mark_day_with fresh date (some existing) s =
      if is_half_leave status && is_some existing.check_in_at
      then attendance.update_many (λ a. a.id == existing.id) (set_status status) s
      else attendance.update_many (is_day_of user date) (set_status status) s

  unfoldable pub mark_day : ℕ → ℕ → attendance.State → attendance.State
  mark_day fresh date s = mark_day_with fresh date (find_first attendance (is_day_of user date) s) s

  -- The days of the leave, `n` of them from `date`. Each has its own identifier for a new record.
  unfoldable pub mark_days : ℕ → ℕ → ℕ → attendance.State → attendance.State
  mark_days fresh date zero s = s
  mark_days fresh date (suc n) s =
      mark_days (suc fresh) (suc date) n
        (if is_working_day holidays date then mark_day fresh date s else s)

module _ (t : Tables) (snap : Snapshot) (d : Decision) where
  abbrev pub is_scheduled : LeaveRequest → ShiftAssignment → Bool
  is_scheduled r a = a.user_id == r.user_id && (leb r.start_date a.date && leb a.date r.end_date)

  abbrev pub leave_location : LeaveRequest → Option ℕ
  leave_location r = or_else r.location_id (primary_location snap r.user_id)

  abbrev pub leave_holidays : LeaveRequest → List ℕ
  leave_holidays r =
      holiday_set_for_range d.org_id r.start_date r.end_date (leave_location r) snap.holidays

  abbrev pub approve_row : LeaveRequest → LeaveRequest
  approve_row r = record r {
    status = approved;
    reviewed_by = some d.viewer;
    reviewed_at = some d.now;
  }

  abbrev pub reject_row : LeaveRequest → LeaveRequest
  reject_row r = record r {
    status = rejected;
    reviewed_by = some d.viewer;
    reviewed_at = some d.now;
    rejection_reason = some d.reason;
  }

  -- The claim of the pending row, which a transaction checks for the rows it changed.
  abbrev pub leave_claimed : ℕ → (LeaveRequest → LeaveRequest) → Store t → Store t
  leave_claimed id row s = record s {
    leave_requests = t.leave_requests.update_many (is_open_leave id d.org_id) row s.leave_requests;
  }

  -- The state after an approved leave: the request, the balance of its year, and its working days.
  unfoldable pub grant_leave : ℕ → LeaveRequest → Store t → Store t
  grant_leave id r s = record s {
    leave_requests =
        t.leave_requests.update_many (is_open_leave id d.org_id) approve_row s.leave_requests;
    leave_balances =
        t.leave_balances.update_many (is_leave_balance r)
          (λ b. record b { used_days = b.used_days + r.working_days }) s.leave_balances;
    attendance_records =
        mark_days t.attendance_records d.org_id r.user_id (leave_location r) (leave_status r)
          (leave_holidays r) d.fresh r.start_date (suc r.end_date - r.start_date)
          s.attendance_records;
  }

  abbrev pub approve_leave : ℕ → LeaveRequest → Store t → Store t × Option Refusal
  approve_leave id r s =
      if ltb 0 (count t.shift_assignments (is_scheduled r) s.shift_assignments)
      then (s, some overlaps_shifts)
      else transaction s (
          if count t.leave_requests (is_open_leave id d.org_id) s.leave_requests == 0
          then (leave_claimed id approve_row s, some already_reviewed)
          else (grant_leave id r s, none))

  abbrev pub reject_leave : ℕ → Store t → Store t × Option Refusal
  reject_leave id s = transaction s (
      if count t.leave_requests (is_open_leave id d.org_id) s.leave_requests == 0
      then (leave_claimed id reject_row s, some already_reviewed)
      else (leave_claimed id reject_row s, none))

  abbrev pub leave_found : ℕ → Store t → Option LeaveRequest → Store t × Option Refusal
  leave_found id s none = (s, some not_found)
  leave_found id s (some r) =
      if not (in_scope snap d r.user_id)
      then (s, some forbidden)
      else if is_approve d.action
      then approve_leave id r s
      else reject_leave id s

  unfoldable pub review_leave : ℕ → Store t → Store t × Option Refusal
  review_leave id s =
      leave_found id s
        (find_first t.leave_requests (λ r. r.id == id && r.org_id == d.org_id) s.leave_requests)
