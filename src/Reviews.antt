-- ===== src/Reviews.antt =====
-- reviewApproval of src/services/approval-workflows.ts: the decision on a request of each type. The
-- tables that a decision writes are the parameters, and a transaction is one operation, whose writes
-- are rolled back where its body throws. Dates are days from 1970-01-01, instants milliseconds,
-- identifiers numbers; amounts of leave and hours are hundredths. The snapshot of the tables that are
-- only read is an argument. The notification, the audit entry and the event that follow a decision
-- are left out, but for those that the correction writes in its transaction.
pub mod Claim
pub mod Leave
pub mod Simple
pub mod Effects
pub mod Correction
pub mod Review
pub mod Sound
pub mod SoundLeave
pub mod SoundTypes
pub mod Once
pub mod Marked
pub mod Exchanged
pub mod Tests
use attenda_api.Base.{ℕ, String, Bool, Option, List, Table}
use attenda_api.Base.Int.{ℤ}
use attenda_api.Access.{Db, ApprovalType, ApprovalAction}
use attenda_api.Accrual.{LeaveBalance}
use attenda_api.Days.{OrgHoliday}
use attenda_api.Outbox.{OutboxEvent}
use attenda_api.TimeEntries.{TimeEntry, Timesheet}

pub data ReviewStatus : Type 0 where
  pending approved rejected acknowledged cancelled reimbursed : ReviewStatus

pub record LeaveRequest : Type 0 where
  pub id : ℕ
  pub org_id : ℕ
  pub user_id : ℕ
  pub location_id : Option ℕ
  pub leave_type : ℕ
  pub start_date : ℕ
  pub end_date : ℕ
  pub working_days : ℕ
  pub is_half_day : Bool
  pub leave_start_time : Option String
  pub status : ReviewStatus
  pub reviewed_by : Option ℕ
  pub reviewed_at : Option ℕ
  pub rejection_reason : Option String

-- The statuses of an attendance record that a decision writes, and the others.
pub data AttendanceStatus : Type 0 where
  in_office on_leave half_leave absent : AttendanceStatus
  other : String → AttendanceStatus

pub record AttendanceRecord : Type 0 where
  pub id : ℕ
  pub org_id : ℕ
  pub user_id : ℕ
  pub location_id : Option ℕ
  pub date : ℕ
  pub check_in_at : Option ℕ
  pub check_out_at : Option ℕ
  pub status : AttendanceStatus
  pub hours_worked : Option ℤ
  pub overtime_hours : ℕ
  pub extra_office_minutes : ℕ
  -- `check_in_type` is 'manual'.
  pub is_manual : Bool
  pub is_overridden : Bool
  pub override_by : Option ℕ
  pub override_reason : Option String

pub record OvertimeRequest : Type 0 where
  pub id : ℕ
  pub org_id : ℕ
  pub user_id : ℕ
  pub attendance_id : ℕ
  pub requested_minutes : ℕ
  pub status : ReviewStatus
  pub reviewed_by : Option ℕ
  pub reviewed_at : Option ℕ
  pub rejection_reason : Option String

-- A remote session, with the organization of its user.
pub record RemoteSession : Type 0 where
  pub id : ℕ
  pub user_id : ℕ
  pub user_org_id : ℕ
  pub attendance_id : ℕ
  pub status : ReviewStatus
  pub approved_by : Option ℕ
  pub reviewed_at : Option ℕ
  pub review_note : Option String

-- A shift swap, with the organization of its requester.
pub record ShiftSwap : Type 0 where
  pub id : ℕ
  pub requester_id : ℕ
  pub requester_org_id : ℕ
  pub requester_assign_id : ℕ
  pub target_assign_id : ℕ
  pub status : ReviewStatus
  pub manager_id : Option ℕ
  pub rejection_reason : Option String

pub record ShiftAssignment : Type 0 where
  pub id : ℕ
  pub user_id : ℕ
  pub shift_id : ℕ
  pub date : ℕ

pub record LateArrivalNotice : Type 0 where
  pub id : ℕ
  pub org_id : ℕ
  pub user_id : ℕ
  pub date : ℕ
  pub status : ReviewStatus
  pub acknowledged_by : Option ℕ
  pub acknowledged_at : Option ℕ

pub record AttendanceCorrection : Type 0 where
  pub id : ℕ
  pub org_id : ℕ
  pub user_id : ℕ
  pub attendance_id : Option ℕ
  pub date : ℕ
  pub requested_check_in : Option ℕ
  pub requested_check_out : Option ℕ
  pub reason : String
  pub status : ReviewStatus
  pub reviewed_by : Option ℕ
  pub reviewed_at : Option ℕ
  pub review_note : Option String

pub record ExpenseClaim : Type 0 where
  pub id : ℕ
  pub org_id : ℕ
  pub user_id : ℕ
  pub status : ReviewStatus
  pub reviewed_by : Option ℕ
  pub reviewed_at : Option ℕ
  pub review_note : Option String

pub data AuditAction : Type 0 where
  correction_approve correction_reject : AuditAction

pub record AuditLog : Type 0 where
  pub org_id : ℕ
  pub actor_id : ℕ
  pub action : AuditAction
  pub entity_id : ℕ
  pub reason : String

-- A processed payroll record of a user, which is only read.
pub record PayrollRecord : Type 0 where
  pub org_id : ℕ
  pub user_id : ℕ
  pub period_month : ℕ
  pub period_year : ℕ
  pub is_processed : Bool

pub record Tables : Type 1 where
  pub leave_requests : Table LeaveRequest
  pub leave_balances : Table LeaveBalance
  pub attendance_records : Table AttendanceRecord
  pub overtime_requests : Table OvertimeRequest
  pub remote_sessions : Table RemoteSession
  pub shift_swaps : Table ShiftSwap
  pub shift_assignments : Table ShiftAssignment
  pub late_arrival_notices : Table LateArrivalNotice
  pub attendance_corrections : Table AttendanceCorrection
  pub timesheets : Table Timesheet
  pub time_entries : Table TimeEntry
  pub expense_claims : Table ExpenseClaim
  pub audit_logs : Table AuditLog
  pub outbox_events : Table OutboxEvent

pub record Store (t : Tables) : Type 0 where
  pub leave_requests : t.leave_requests.State
  pub leave_balances : t.leave_balances.State
  pub attendance_records : t.attendance_records.State
  pub overtime_requests : t.overtime_requests.State
  pub remote_sessions : t.remote_sessions.State
  pub shift_swaps : t.shift_swaps.State
  pub shift_assignments : t.shift_assignments.State
  pub late_arrival_notices : t.late_arrival_notices.State
  pub attendance_corrections : t.attendance_corrections.State
  pub timesheets : t.timesheets.State
  pub time_entries : t.time_entries.State
  pub expense_claims : t.expense_claims.State
  pub audit_logs : t.audit_logs.State
  pub outbox_events : t.outbox_events.State

-- The rows that a decision reads and does not write. `today` is the organization's date at the
-- decision, and `week` gives the bounds of the week of a user that starts on a date.
pub record Snapshot : Type 0 where
  pub access : Db
  pub holidays : List OrgHoliday
  pub payroll_records : List PayrollRecord
  pub today : ℕ
  pub week : ℕ → ℕ → ℕ × ℕ

-- A decision: the viewer, the request, what is decided, the instant, and the first of the
-- identifiers for new rows. `reason_length` is the length of the trimmed reason.
pub record Decision : Type 0 where
  pub org_id : ℕ
  pub viewer : ℕ
  pub type : ApprovalType
  pub id : Option ℕ
  pub action : ApprovalAction
  pub reason : String
  pub reason_length : ℕ
  pub note : Option String
  pub now : ℕ
  pub fresh : ℕ

pub data Refusal : Type 0 where
  invalid_request forbidden not_found overlaps_shifts already_reviewed conflicts_with_leave :
      Refusal
  notice_is_past period_processed maker_checker row_missing : Refusal
