-- ===== src/Reviews/Correction.antt =====
-- The decision on a correction of attendance (reviewApproval of src/services/approval-workflows.ts
-- and calcHoursWorked of src/utils/auth.ts).
use attenda_api.Base.{
  ℕ, ◌+◌, ◌-◌, ◌/◌, String, Bool, true, false, ◌&&◌, not, Option, none, some, leb, ◌==◌,
  if◌then◌else◌, find_first, count, any,
}
use attenda_api.Base.Int.{ℤ, pos, sub_ℕ}
use attenda_api.Days.{utc_month, utc_full_year}
use attenda_api.Outbox.{OutboxEvent}
use attenda_api.Reviews.{
  AttendanceRecord, in_office, AttendanceCorrection, AuditAction, AuditLog, correction_approve,
  correction_reject, PayrollRecord, Tables, Store, Snapshot, Decision, Refusal, forbidden,
  not_found, already_reviewed, period_processed,
}
use attenda_api.Reviews.Claim.{
  is_pending, is_approve, decided, reason_or, in_scope, transaction, primary_location, or_else,
}
use attenda_api.Reviews.Leave.{is_day_of}

-- calcHoursWorked, in hundredths of an hour. Math.round takes a tie to the larger number.
abbrev pub calc_hours_worked : ℕ → ℕ → ℤ
calc_hours_worked check_in check_out =
    if leb check_in check_out
    then pos ((check_out - check_in + 18000) / 36000)
    else sub_ℕ 0 ((check_in - check_out + 17999) / 36000)

abbrev pub hours_between : Option ℕ → Option ℕ → Option ℤ → Option ℤ
hours_between none check_out before = before
hours_between (some i) none before = before
hours_between (some i) (some o) before = some (calc_hours_worked i o)

module _ (t : Tables) (snap : Snapshot) (d : Decision) where
  abbrev pub is_correction : ℕ → AttendanceCorrection → Bool
  is_correction id r = r.id == id && r.org_id == d.org_id

  abbrev pub is_open_correction : ℕ → AttendanceCorrection → Bool
  is_open_correction id r = is_correction id r && is_pending r.status

  abbrev pub correction_row : AttendanceCorrection → AttendanceCorrection
  correction_row r = record r {
    status = decided d.action;
    reviewed_by = some d.viewer;
    reviewed_at = some d.now;
    review_note = reason_or d d.note;
  }

  -- The payroll of the month of the correction is processed.
  abbrev pub is_period : AttendanceCorrection → PayrollRecord → Bool
  is_period r p =
      (p.org_id == d.org_id && p.user_id == r.user_id)
      && ((p.period_month == utc_month r.date && p.period_year == utc_full_year r.date)
          && p.is_processed)

  abbrev pub audit_row : AuditAction → ℕ → String → AuditLog
  audit_row action entity reason = record {
    org_id = d.org_id;
    actor_id = d.viewer;
    action = action;
    entity_id = entity;
    reason = reason;
  }

  abbrev pub notification_row : ℕ → OutboxEvent
  notification_row fresh = record {
    id = fresh;
    org_id = d.org_id;
    event_type = "notification_requested";
    created_at = d.now;
    published_at = none;
    claimed_at = none;
    claim_token = none;
    attempts = 0;
    has_error = false;
    next_attempt_at = d.now;
    dead_lettered_at = none;
    schema_version = 1;
  }

  -- The audit entry and the request of a notification that the transaction writes.
  abbrev pub recorded : AuditAction → ℕ → String → Store t → Store t
  recorded action entity reason s = record s {
    audit_logs = t.audit_logs.create (audit_row action entity reason) s.audit_logs;
    outbox_events = t.outbox_events.create (notification_row (d.fresh + 1)) s.outbox_events;
  }

  abbrev pub correction_claimed : ℕ → Store t → Store t
  correction_claimed id s = record s {
    attendance_corrections =
        t.attendance_corrections.update_many (is_open_correction id) correction_row
          s.attendance_corrections;
  }

  -- The times of a record after the correction, and the mark that it was overridden.
  abbrev pub corrected : AttendanceCorrection → AttendanceRecord → AttendanceRecord
  corrected r a =
      let check_in = or_else r.requested_check_in a.check_in_at in
      let check_out = or_else r.requested_check_out a.check_out_at in
      record a {
        check_in_at = check_in;
        check_out_at = check_out;
        hours_worked = hours_between check_in check_out a.hours_worked;
        is_overridden = true;
        override_by = some d.viewer;
        override_reason = some r.reason;
      }

  abbrev pub new_record : AttendanceCorrection → AttendanceRecord
  new_record r = record {
    id = d.fresh;
    org_id = d.org_id;
    user_id = r.user_id;
    location_id = primary_location snap r.user_id;
    date = r.date;
    check_in_at = r.requested_check_in;
    check_out_at = r.requested_check_out;
    status = in_office;
    hours_worked = hours_between r.requested_check_in r.requested_check_out none;
    overtime_hours = 0;
    extra_office_minutes = 0;
    is_manual = true;
    is_overridden = true;
    override_by = some d.viewer;
    override_reason = some r.reason;
  }

  -- The record that the correction is about.
  abbrev pub record_of : AttendanceCorrection → Store t → Option AttendanceRecord
  record_of r s = elim r.attendance_id [
    | none ↦ find_first t.attendance_records (is_day_of r.user_id r.date) s.attendance_records
    | some id ↦
        find_first t.attendance_records (λ a. a.id == id && a.org_id == d.org_id)
          s.attendance_records
  ]

  abbrev pub written :
      AttendanceCorrection
      → Option AttendanceRecord
      → t.attendance_records.State
      → t.attendance_records.State
  written r none s = t.attendance_records.create (new_record r) s
  written r (some a) s = t.attendance_records.update_many (λ x. x.id == a.id) (corrected r) s

  abbrev pub record_id : Option AttendanceRecord → ℕ
  record_id none = d.fresh
  record_id (some a) = a.id

  abbrev pub linked : ℕ → AttendanceCorrection → AttendanceCorrection
  linked record_id r = record r { attendance_id = some record_id }

  -- The state after an approved correction.
  abbrev pub apply_correction :
      ℕ → AttendanceCorrection → Option AttendanceRecord → Store t → Store t
  apply_correction id r found s = recorded correction_approve (record_id found) r.reason (record s {
    attendance_records = written r found s.attendance_records;
    attendance_corrections =
        t.attendance_corrections.update_many (λ c. c.id == id) (linked (record_id found))
          (t.attendance_corrections.update_many (is_open_correction id) correction_row
            s.attendance_corrections);
  })

  abbrev pub correction_found : ℕ → Store t → Option AttendanceCorrection → Store t × Option Refusal
  correction_found id s none = (s, some not_found)
  correction_found id s (some r) =
      if not (in_scope snap d r.user_id)
      then (s, some forbidden)
      else transaction s (
          if is_approve d.action && any (is_period r) snap.payroll_records
          then (s, some period_processed)
          else if count t.attendance_corrections (is_open_correction id) s.attendance_corrections
              == 0
          then (correction_claimed id s, some already_reviewed)
          else if is_approve d.action
          then (apply_correction id r (record_of r s) s, none)
          else (recorded correction_reject id d.reason (correction_claimed id s), none))

  unfoldable pub review_correction : ℕ → Store t → Store t × Option Refusal
  review_correction id s =
      correction_found id s
        (find_first t.attendance_corrections (is_correction id) s.attendance_corrections)
