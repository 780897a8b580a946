-- ===== src/Reviews/Simple.antt =====
-- The decisions on a remote session, a notice of a late arrival, a timesheet and an expense claim
-- (reviewApproval of src/services/approval-workflows.ts).
use attenda_api.Base.{
  ℕ, Bool, true, false, ◌&&◌, not, Option, none, some, ltb, leb, ◌==◌, if◌then◌else◌, is_some,
  find_first, count,
}
use attenda_api.Access.{is_reject, can, resolve_user_permissions}
use attenda_api.TimeEntries.{EntryStatus, submitted, locked, rejected, TimeEntry, Timesheet}
use attenda_api.Reviews.{
  acknowledged, absent, AttendanceRecord, RemoteSession, LateArrivalNotice, ExpenseClaim, Tables,
  Store, Snapshot, Decision, Refusal, forbidden, not_found, already_reviewed, notice_is_past,
  maker_checker, row_missing,
}
use attenda_api.Reviews.Claim.{is_pending, is_approve, decided, reason_or, in_scope, transaction}
use attenda_api.Reviews.Leave.{set_status}

module _ (t : Tables) (snap : Snapshot) (d : Decision) where
  -- remote
  abbrev pub is_remote : ℕ → RemoteSession → Bool
  is_remote id r = r.id == id && r.user_org_id == d.org_id

  abbrev pub is_open_remote : ℕ → RemoteSession → Bool
  is_open_remote id r = is_remote id r && is_pending r.status

  abbrev pub remote_row : RemoteSession → RemoteSession
  remote_row r = record r {
    status = decided d.action;
    approved_by = some d.viewer;
    reviewed_at = some d.now;
    review_note = reason_or d d.note;
  }

  abbrev pub remote_claimed : ℕ → Store t → Store t
  remote_claimed id s = record s {
    remote_sessions =
        t.remote_sessions.update_many (is_open_remote id) remote_row s.remote_sessions;
  }

  abbrev pub is_not_checked_in : ℕ → AttendanceRecord → Bool
  is_not_checked_in id a = a.id == id && not (is_some a.check_in_at)

  -- The attendance of a rejected session whose user had not checked in; `a` is the record as it was
  -- when the request was read.
  abbrev pub reject_attendance :
      AttendanceRecord → t.attendance_records.State → t.attendance_records.State
  reject_attendance a s =
      if is_reject d.action && not (is_some a.check_in_at)
      then t.attendance_records.update_many (is_not_checked_in a.id) (set_status absent) s
      else s

  abbrev pub remote_with : ℕ → Store t → Option AttendanceRecord → Store t × Option Refusal
  remote_with id s none = (s, some row_missing)
  remote_with id s (some a) = transaction s (
      if count t.remote_sessions (is_open_remote id) s.remote_sessions == 0
      then (remote_claimed id s, some already_reviewed)
      else (
        record s {
          remote_sessions =
              t.remote_sessions.update_many (is_open_remote id) remote_row s.remote_sessions;
          attendance_records = reject_attendance a s.attendance_records;
        },
        none,
      ))

  abbrev pub remote_found : ℕ → Store t → Option RemoteSession → Store t × Option Refusal
  remote_found id s none = (s, some not_found)
  remote_found id s (some r) =
      if not (in_scope snap d r.user_id)
      then (s, some forbidden)
      else remote_with id s
          (find_first t.attendance_records (λ a. a.id == r.attendance_id) s.attendance_records)

  unfoldable pub review_remote : ℕ → Store t → Store t × Option Refusal
  review_remote id s =
      remote_found id s (find_first t.remote_sessions (is_remote id) s.remote_sessions)

  -- late_notice
  abbrev pub is_notice : ℕ → LateArrivalNotice → Bool
  is_notice id r = r.id == id && r.org_id == d.org_id

  abbrev pub is_open_notice : ℕ → LateArrivalNotice → Bool
  is_open_notice id r = is_notice id r && is_pending r.status

  abbrev pub notice_row : LateArrivalNotice → LateArrivalNotice
  notice_row r = record r {
    status = acknowledged;
    acknowledged_by = some d.viewer;
    acknowledged_at = some d.now;
  }

  abbrev pub notice_claimed : ℕ → Store t → Store t
  notice_claimed id s = record s {
    late_arrival_notices =
        t.late_arrival_notices.update_many (is_open_notice id) notice_row s.late_arrival_notices;
  }

  abbrev pub notice_found : ℕ → Store t → Option LateArrivalNotice → Store t × Option Refusal
  notice_found id s none = (s, some not_found)
  notice_found id s (some r) =
      if ltb r.date snap.today
      then (s, some notice_is_past)
      else if not (in_scope snap d r.user_id)
      then (s, some forbidden)
      else transaction s (
          if count t.late_arrival_notices (is_open_notice id) s.late_arrival_notices == 0
          then (notice_claimed id s, some already_reviewed)
          else (
            record s {
              late_arrival_notices =
                  t.late_arrival_notices.update_many (is_open_notice id) notice_row
                    s.late_arrival_notices;
            },
            none,
          ))

  unfoldable pub review_late_notice : ℕ → Store t → Store t × Option Refusal
  review_late_notice id s =
      notice_found id s (find_first t.late_arrival_notices (is_notice id) s.late_arrival_notices)

  -- timesheet
  abbrev pub is_submitted : EntryStatus → Bool
  is_submitted submitted = true
  is_submitted _ = false

  abbrev pub is_open_sheet : ℕ → Timesheet → Bool
  is_open_sheet id r = (r.id == id && r.org_id == d.org_id) && is_submitted r.status

  abbrev pub sheet_status : EntryStatus
  sheet_status = if is_approve d.action then locked else rejected

  abbrev pub sheet_row : Timesheet → Timesheet
  sheet_row r = record r {
    status = sheet_status;
    reviewed_by = some d.viewer;
    reviewed_at = some d.now;
    review_note = reason_or d d.note;
  }

  abbrev pub sheet_claimed : ℕ → Store t → Store t
  sheet_claimed id s = record s {
    timesheets = t.timesheets.update_many (is_open_sheet id) sheet_row s.timesheets;
  }

  -- A submitted entry of the user whose start lies in the week.
  abbrev pub is_week_entry : ℕ → ℕ × ℕ → TimeEntry → Bool
  is_week_entry user week e =
      (e.org_id == d.org_id && e.user_id == user)
      && ((leb week.0 e.started_at && ltb e.started_at week.1) && is_submitted e.status)

  abbrev pub sheet_found : ℕ → Store t → Option Timesheet → Store t × Option Refusal
  sheet_found id s none = (s, some not_found)
  sheet_found id s (some r) =
      if not (in_scope snap d r.user_id)
      then (s, some forbidden)
      else if r.user_id == d.viewer
      then (s, some maker_checker)
      else transaction s (
          if count t.timesheets (is_open_sheet id) s.timesheets == 0
          then (sheet_claimed id s, some already_reviewed)
          else (
            record s {
              timesheets = t.timesheets.update_many (is_open_sheet id) sheet_row s.timesheets;
              time_entries =
                  t.time_entries.update_many
                    (is_week_entry r.user_id (snap.week r.user_id r.week_start))
                    (λ e. record e { status = sheet_status }) s.time_entries;
            },
            none,
          ))

  unfoldable pub review_timesheet : ℕ → Store t → Store t × Option Refusal
  review_timesheet id s = sheet_found id s (find_first t.timesheets (is_open_sheet id) s.timesheets)

  -- expense
  abbrev pub is_claim : ℕ → ExpenseClaim → Bool
  is_claim id r = r.id == id && r.org_id == d.org_id

  abbrev pub is_open_claim : ℕ → ExpenseClaim → Bool
  is_open_claim id r = is_claim id r && is_pending r.status

  abbrev pub claim_row : ExpenseClaim → ExpenseClaim
  claim_row r = record r {
    status = decided d.action;
    reviewed_by = some d.viewer;
    reviewed_at = some d.now;
    review_note = reason_or d d.note;
  }

  abbrev pub expense_claimed : ℕ → Store t → Store t
  expense_claimed id s = record s {
    expense_claims = t.expense_claims.update_many (is_open_claim id) claim_row s.expense_claims;
  }

  abbrev pub claim_found : ℕ → Store t → Option ExpenseClaim → Store t × Option Refusal
  claim_found id s none = (s, some not_found)
  claim_found id s (some r) =
      if not (can (resolve_user_permissions d.viewer d.org_id snap.access) "expenses.manage")
      then (s, some forbidden)
      else if not (in_scope snap d r.user_id)
      then (s, some forbidden)
      else transaction s (
          if count t.expense_claims (is_open_claim id) s.expense_claims == 0
          then (expense_claimed id s, some already_reviewed)
          else (
            record s {
              expense_claims =
                  t.expense_claims.update_many (is_open_claim id) claim_row s.expense_claims;
            },
            none,
          ))

  unfoldable pub review_expense : ℕ → Store t → Store t × Option Refusal
  review_expense id s =
      claim_found id s (find_first t.expense_claims (is_claim id) s.expense_claims)
