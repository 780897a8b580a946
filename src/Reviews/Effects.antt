-- ===== src/Reviews/Effects.antt =====
-- The decisions on overtime and on a shift swap (reviewApproval of
-- src/services/approval-workflows.ts).
use attenda_api.Base.{
  ℕ, ◌+◌, ◌*◌, ◌-◌, ◌/◌, Bool, true, false, ◌&&◌, ◌||◌, not, Option, none, some, leb, ◌==◌,
  if◌then◌else◌, is_some, find_first, count,
}
use attenda_api.Reviews.{
  ReviewStatus, approved, AttendanceRecord, LeaveRequest, OvertimeRequest, ShiftSwap,
  ShiftAssignment, Tables, Store, Snapshot, Decision, Refusal, forbidden, not_found,
  already_reviewed, conflicts_with_leave, row_missing,
}
use attenda_api.Reviews.Claim.{is_pending, is_approve, decided, reason_or, in_scope, transaction}

module _ (t : Tables) (snap : Snapshot) (d : Decision) where
  -- overtime
  abbrev pub is_overtime : ℕ → OvertimeRequest → Bool
  is_overtime id r = r.id == id && r.org_id == d.org_id

  abbrev pub is_open_overtime : ℕ → OvertimeRequest → Bool
  is_open_overtime id r = is_overtime id r && is_pending r.status

  abbrev pub overtime_row : OvertimeRequest → OvertimeRequest
  overtime_row r = record r {
    status = decided d.action;
    reviewed_by = some d.viewer;
    reviewed_at = some d.now;
    rejection_reason = reason_or d none;
  }

  abbrev pub overtime_claimed : ℕ → Store t → Store t
  overtime_claimed id s = record s {
    overtime_requests =
        t.overtime_requests.update_many (is_open_overtime id) overtime_row s.overtime_requests;
  }

  -- `Number((minutes / 60).toFixed(2))`, in hundredths of an hour.
  abbrev pub minutes_as_hours : ℕ → ℕ
  minutes_as_hours minutes = (minutes * 100 + 30) / 60

  -- `a` is the attendance as it was when the request was read.
  abbrev pub overtime_attendance :
      OvertimeRequest → AttendanceRecord → t.attendance_records.State → t.attendance_records.State
  overtime_attendance r a s =
      if is_approve d.action
      then t.attendance_records.update_many (λ x. x.id == r.attendance_id)
          (λ x. record x {
            overtime_hours = minutes_as_hours r.requested_minutes;
            extra_office_minutes = a.extra_office_minutes - r.requested_minutes;
          })
          s
      else s

  abbrev pub overtime_with :
      ℕ → OvertimeRequest → Store t → Option AttendanceRecord → Store t × Option Refusal
  overtime_with id r s none = (s, some row_missing)
  overtime_with id r s (some a) = transaction s (
      if count t.overtime_requests (is_open_overtime id) s.overtime_requests == 0
      then (overtime_claimed id s, some already_reviewed)
      else (
        record s {
          overtime_requests =
              t.overtime_requests.update_many (is_open_overtime id) overtime_row
                s.overtime_requests;
          attendance_records = overtime_attendance r a s.attendance_records;
        },
        none,
      ))

  abbrev pub overtime_found : ℕ → Store t → Option OvertimeRequest → Store t × Option Refusal
  overtime_found id s none = (s, some not_found)
  overtime_found id s (some r) =
      if not (in_scope snap d r.user_id)
      then (s, some forbidden)
      else overtime_with id r s
          (find_first t.attendance_records (λ a. a.id == r.attendance_id) s.attendance_records)

  unfoldable pub review_overtime : ℕ → Store t → Store t × Option Refusal
  review_overtime id s =
      overtime_found id s (find_first t.overtime_requests (is_overtime id) s.overtime_requests)

  -- swap
  abbrev pub is_swap : ℕ → ShiftSwap → Bool
  is_swap id r = r.id == id && r.requester_org_id == d.org_id

  -- The claim does not ask for the organization again.
  abbrev pub is_open_swap : ℕ → ShiftSwap → Bool
  is_open_swap id r = r.id == id && is_pending r.status

  abbrev pub swap_row : ShiftSwap → ShiftSwap
  swap_row r = record r {
    status = decided d.action;
    manager_id = some d.viewer;
    rejection_reason = reason_or d none;
  }

  abbrev pub is_approved : ReviewStatus → Bool
  is_approved approved = true
  is_approved _ = false

  -- An approved leave of a user on a date.
  abbrev pub is_leave_on : ℕ → ℕ → LeaveRequest → Bool
  is_leave_on user date r =
      (is_approved r.status && r.user_id == user) && (leb r.start_date date && leb date r.end_date)

  abbrev pub set_shift : ℕ → ShiftAssignment → ShiftAssignment
  set_shift shift a = record a { shift_id = shift }

  -- The two shifts change places; `a` and `b` are the assignments of requester and target.
  unfoldable pub exchange :
      ShiftAssignment → ShiftAssignment → t.shift_assignments.State → t.shift_assignments.State
  exchange a b s =
      t.shift_assignments.update_many (λ x. x.id == b.id) (set_shift a.shift_id)
        (t.shift_assignments.update_many (λ x. x.id == a.id) (set_shift b.shift_id) s)

  abbrev pub swap_claimed : ℕ → Store t → Store t
  swap_claimed id s = record s {
    shift_swaps = t.shift_swaps.update_many (is_open_swap id) swap_row s.shift_swaps;
  }

  abbrev pub swap_approve :
      ℕ → ShiftSwap → Store t → ShiftAssignment → ShiftAssignment → Store t × Option Refusal
  swap_approve id r s a b =
      if is_some (find_first t.leave_requests (is_leave_on r.requester_id a.date) s.leave_requests)
        || is_some (find_first t.leave_requests (is_leave_on b.user_id b.date) s.leave_requests)
      then (swap_claimed id s, some conflicts_with_leave)
      else (
        record (swap_claimed id s) { shift_assignments = exchange a b s.shift_assignments },
        none,
      )

  abbrev pub swap_with :
      ℕ
      → ShiftSwap
      → Store t
      → Option ShiftAssignment
      → Option ShiftAssignment
      → Store t × Option Refusal
  swap_with id r s none b = (s, some row_missing)
  swap_with id r s (some a) none = (s, some row_missing)
  swap_with id r s (some a) (some b) = transaction s (
      if count t.shift_swaps (is_open_swap id) s.shift_swaps == 0
      then (swap_claimed id s, some already_reviewed)
      else if is_approve d.action
      then swap_approve id r s a b
      else (swap_claimed id s, none))

  abbrev pub assignment : ℕ → Store t → Option ShiftAssignment
  assignment id s = find_first t.shift_assignments (λ a. a.id == id) s.shift_assignments

  abbrev pub swap_found : ℕ → Store t → Option ShiftSwap → Store t × Option Refusal
  swap_found id s none = (s, some not_found)
  swap_found id s (some r) =
      if not (in_scope snap d r.requester_id)
      then (s, some forbidden)
      else swap_with id r s (assignment r.requester_assign_id s) (assignment r.target_assign_id s)

  unfoldable pub review_swap : ℕ → Store t → Store t × Option Refusal
  review_swap id s = swap_found id s (find_first t.shift_swaps (is_swap id) s.shift_swaps)
