-- ===== src/Reviews/Tests.antt =====
-- A leave request, a swap and a manager who decides on them, over list tables.
use attenda_api.Base.{
  ℕ, ◌+◌, ◌*◌, ◌<◌, ◌≡◌, refl, true, false, Option, none, some, List, [], ◌∷◌, list_table, arith,
}
use attenda_api.Access.{
  User, ApprovalType, leave, swap, approve, review_refusal, has_type_permission, can,
  resolve_user_permissions, apply_grants, apply_effect, assert_reviewer_scope,
  reviewable_employee_ids,
}
use attenda_api.Accrual.{LeaveBalance}
use attenda_api.Days.{holiday_set_for_range, expand_holidays}
use attenda_api.Outbox.{OutboxEvent}
use attenda_api.TimeEntries.{TimeEntry, Timesheet}
use attenda_api.Reviews.{
  pending, LeaveRequest, AttendanceRecord, OvertimeRequest, RemoteSession, ShiftSwap,
  ShiftAssignment, LateArrivalNotice, AttendanceCorrection, ExpenseClaim, AuditLog, Tables, Store,
  Snapshot, Decision, conflicts_with_leave, approved,
}
use attenda_api.Reviews.Claim.{in_scope, transaction}
use attenda_api.Reviews.Leave.{review_leave, leave_status}
use attenda_api.Reviews.Effects.{review_swap, assignment}
use attenda_api.Reviews.Review.{review_approval, refusal_first}
use attenda_api.Reviews.Once.{
  review_approval-unchanged, review_approval-admitted, open_requests, request_user,
}
use attenda_api.Reviews.Marked.{IsMarked, review_leave-IsMarked}
use attenda_api.Reviews.Exchanged.{review_swap-exchanges}

abbrev lists : Tables
lists = record {
  leave_requests = list_table LeaveRequest;
  leave_balances = list_table LeaveBalance;
  attendance_records = list_table AttendanceRecord;
  overtime_requests = list_table OvertimeRequest;
  remote_sessions = list_table RemoteSession;
  shift_swaps = list_table ShiftSwap;
  shift_assignments = list_table ShiftAssignment;
  late_arrival_notices = list_table LateArrivalNotice;
  attendance_corrections = list_table AttendanceCorrection;
  timesheets = list_table Timesheet;
  time_entries = list_table TimeEntry;
  expense_claims = list_table ExpenseClaim;
  audit_logs = list_table AuditLog;
  outbox_events = list_table OutboxEvent;
}

abbrev user : ℕ → Option ℕ → User
user id manager = record {
  id = id;
  org_id = 2;
  manager_id = manager;
  primary_location_id = none;
  is_active = true;
  deleted_at = none;
}

abbrev snapshot : Snapshot
snapshot = record {
  access = record {
    users = user 1 none ∷ user 7 (some 1) ∷ user 8 (some 1) ∷ [];
    user_org_roles =
        record {
          user_id = 1;
          permissions = "leave.approve" ∷ "leave.view_all" ∷ "shifts.swaps.approve" ∷ [];
        }
        ∷ [];
    user_permission_grants = [];
    location_managers = [];
  };
  holidays = record { org_id = 2; location_id = none; date = 19723; recurring = false } ∷ [];
  payroll_records = [];
  today = 19700;
  week = λ user week. (week * 86400000, (week + 7) * 86400000);
}

-- From Friday, 29 December 2023, to Wednesday, 3 January 2024.
abbrev request : LeaveRequest
request = record {
  id = 30;
  org_id = 2;
  user_id = 7;
  location_id = none;
  leave_type = 1;
  start_date = 19720;
  end_date = 19725;
  working_days = 300;
  is_half_day = false;
  leave_start_time = none;
  status = pending;
  reviewed_by = none;
  reviewed_at = none;
  rejection_reason = none;
}

abbrev shift : ℕ → ℕ → ℕ → ℕ → ShiftAssignment
shift id user shift_id date = record { id = id; user_id = user; shift_id = shift_id; date = date }

abbrev swap_request : ShiftSwap
swap_request = record {
  id = 31;
  requester_id = 7;
  requester_org_id = 2;
  requester_assign_id = 40;
  target_assign_id = 41;
  status = pending;
  manager_id = none;
  rejection_reason = none;
}

abbrev store : List ShiftAssignment → Store lists
store shifts = record {
  leave_requests = request ∷ [];
  leave_balances = [];
  attendance_records = [];
  overtime_requests = [];
  remote_sessions = [];
  shift_swaps = swap_request ∷ [];
  shift_assignments = shifts;
  late_arrival_notices = [];
  attendance_corrections = [];
  timesheets = [];
  time_entries = [];
  expense_claims = [];
  audit_logs = [];
  outbox_events = [];
}

abbrev quiet : Store lists
quiet = store (shift 40 7 50 19800 ∷ shift 41 8 51 19801 ∷ [])

abbrev decision : ApprovalType → ℕ → Decision
decision type id = record {
  org_id = 2;
  viewer = 1;
  type = type;
  id = some id;
  action = approve;
  reason = "";
  reason_length = 0;
  note = none;
  now = 9000;
  fresh = 60;
}

-- The requester of the swap is on leave on the day of the shift, which the transaction finds out
-- after it has claimed the swap.
abbrev on_leave_then : Store lists
on_leave_then = record quiet {
  leave_requests = record request { status = approved; start_date = 19800; end_date = 19800 } ∷ [];
}

review_approval-unchanged_example :
    (review_approval lists snapshot (decision swap 31) on_leave_then).0 ≡ on_leave_then
unfolding review_approval refusal_first review_refusal has_type_permission can
    resolve_user_permissions apply_grants apply_effect review_swap in_scope assert_reviewer_scope
    reviewable_employee_ids transaction
review_approval-unchanged_example =
    review_approval-unchanged lists snapshot (decision swap 31) on_leave_then conflicts_with_leave
      refl

review_approval-admitted_example :
    (refusal_first lists snapshot (decision leave 30) ≡ none)
    × ((v : ℕ) × (request_user lists snapshot (decision leave 30) leave 30 quiet ≡ some v)
        × (in_scope snapshot (decision leave 30) v ≡ true)
        × (0 < open_requests lists snapshot (decision leave 30) leave 30 quiet))
unfolding review_approval refusal_first review_refusal has_type_permission can
    resolve_user_permissions apply_grants apply_effect review_leave in_scope assert_reviewer_scope
    reviewable_employee_ids transaction
review_approval-admitted_example =
    review_approval-admitted lists snapshot (decision leave 30) quiet 30 refl refl

-- Wednesday: Monday is a holiday, and the days before it are a weekend.
review_leave-IsMarked_example :
    IsMarked 7 19725
      (leave_status request)
      (review_leave lists snapshot (decision leave 30) 30 quiet).0.attendance_records
unfolding can resolve_user_permissions apply_grants apply_effect review_leave in_scope
    assert_reviewer_scope reviewable_employee_ids transaction holiday_set_for_range expand_holidays
review_leave-IsMarked_example =
    review_leave-IsMarked lists snapshot (decision leave 30) 30 quiet request 19725 refl refl refl
      (omega arith) (omega arith) refl

review_swap-exchanges_example :
    let s' = (review_swap lists snapshot (decision swap 31) 31 quiet).0 in
    (assignment lists snapshot (decision swap 31) 40 s' ≡ some (shift 40 7 51 19800))
    × (assignment lists snapshot (decision swap 31) 41 s' ≡ some (shift 41 8 50 19801))
unfolding can resolve_user_permissions apply_grants apply_effect review_swap in_scope
    assert_reviewer_scope reviewable_employee_ids transaction
review_swap-exchanges_example =
    review_swap-exchanges lists snapshot (decision swap 31) 31 quiet swap_request
      (shift 40 7 50 19800) (shift 41 8 51 19801) refl refl refl refl refl refl
