-- ===== src/Reviews/Marked.antt =====
-- The attendance that an approved leave leaves behind (reviewApproval of
-- src/services/approval-workflows.ts).
use attenda_api.Base.{
  ℕ, zero, suc, ◌+◌, ◌-◌, ◌≤◌, ◌<◌, ◌≡◌, refl, ◌∙◌, sym, subst, Bool, true, false, not, ◌&&◌,
  Option, none, some, List, ◌++◌, Table, find_first, find_by, update_by, find_by-update_by,
  find_by-append, find_by-true, if_keeps, if◌then◌else◌, ltb, count, ◌==◌, ==_refl, arith, is_some,
}
use attenda_api.Days.{is_working_day}
use attenda_api.Reviews.{
  LeaveRequest, AttendanceStatus, AttendanceRecord, Tables, Store, Snapshot, Decision, Refusal,
}
use attenda_api.Reviews.Claim.{is_approve, in_scope, transaction}
use attenda_api.Reviews.Leave.{
  is_open_leave, is_day_of, leave_status, is_half_leave, set_status, leave_record, mark_day_with,
  mark_day, mark_days, is_scheduled, leave_location, leave_holidays, grant_leave, leave_found,
  review_leave,
}

-- The user's attendance record of a date is there, with a status.
abbrev pub IsMarked : ℕ → ℕ → AttendanceStatus → List AttendanceRecord → Type 0
IsMarked user date status rows =
    (a : AttendanceRecord) × (find_by (is_day_of user date) rows ≡ some a) × (a.status ≡ status)

module _ (user date : ℕ) (status : AttendanceStatus) where
  set_status_if :
      (b : Bool) (a : AttendanceRecord)
      → a.status ≡ status
      → (if b then set_status status a else a).status ≡ status
  set_status_if true a h = refl
  set_status_if false a h = h

  update_by-IsMarked :
      (p : AttendanceRecord → Bool) (rows : List AttendanceRecord)
      → IsMarked user date status rows
      → IsMarked user date status (update_by p (set_status status) rows)
  update_by-IsMarked p rows (a, found, h) = (
    if p a then set_status status a else a,
    find_by-update_by (is_day_of user date) p (set_status status) rows (λ x. refl)
        ∙ rw (found) refl,
    set_status_if (p a) a h,
  )

  append-IsMarked :
      (rows new : List AttendanceRecord)
      → IsMarked user date status rows
      → IsMarked user date status (rows ++ new)
  append-IsMarked rows new (a, found, h) =
      (a, find_by-append (is_day_of user date) rows new ∙ rw (found) refl, h)

  updated-IsMarked :
      (p : AttendanceRecord → Bool) (rows : List AttendanceRecord) {a : AttendanceRecord}
      → find_by (is_day_of user date) rows ≡ some a
      → p a ≡ true
      → IsMarked user date status (update_by p (set_status status) rows)
  updated-IsMarked p rows {a} found h = (
    set_status status a,
    find_by-update_by (is_day_of user date) p (set_status status) rows (λ x. refl)
        ∙ rw (found, h) refl,
    refl,
  )

apart : {b : Bool} → b ≡ true → b ≡ false → ⊥
apart h k = cc

none_below : (k : ℕ) → k < 0 → ⊥
none_below k h = omega arith

module _ (attendance : Table AttendanceRecord) (org user : ℕ) (location : Option ℕ)
    (status : AttendanceStatus) (holidays : List ℕ) where
  open attendance use {rows}

  day_with-keeps :
      (fresh date day : ℕ) (s : attendance.State) (found : Option AttendanceRecord)
      → IsMarked user day status (rows s)
      → IsMarked user day status
          (rows (mark_day_with attendance org user location status holidays fresh date found s))
  day_with-keeps fresh date day s none h =
      rw (attendance.rows-create (leave_record org user location date status fresh) s)
        (append-IsMarked user day status (rows s) _ h)
  day_with-keeps fresh date day s (some e) h =
      if_keeps (λ r. IsMarked user day status (rows r))
        (is_half_leave status && is_some e.check_in_at)
        (λ k.
          rw (attendance.rows-update_many (λ a. a.id == e.id) (set_status status) s)
            (update_by-IsMarked user day status (λ a. a.id == e.id) (rows s) h))
        (λ k.
          rw (attendance.rows-update_many (is_day_of user date) (set_status status) s)
            (update_by-IsMarked user day status (is_day_of user date) (rows s) h))

  day_with-marks :
      (fresh date : ℕ) (s : attendance.State) (found : Option AttendanceRecord)
      → find_by (is_day_of user date) (rows s) ≡ found
      → IsMarked user date status
          (rows (mark_day_with attendance org user location status holidays fresh date found s))
  day_with-marks fresh date s none f =
      rw (attendance.rows-create (leave_record org user location date status fresh) s) (
        leave_record org user location date status fresh,
        find_by-append (is_day_of user date) (rows s) _ ∙ rw (f, ==_refl user, ==_refl date) refl,
        refl,
      )
  day_with-marks fresh date s (some e) f =
      if_keeps (λ r. IsMarked user date status (rows r))
        (is_half_leave status && is_some e.check_in_at)
        (λ k.
          rw (attendance.rows-update_many (λ a. a.id == e.id) (set_status status) s)
            (updated-IsMarked user date status (λ a. a.id == e.id) (rows s) f (==_refl e.id)))
        (λ k. rw (attendance.rows-update_many (is_day_of user date) (set_status status) s) (
          updated-IsMarked user date status (is_day_of user date) (rows s) f
            (find_by-true (is_day_of user date) (rows s) f)))

  days-keeps :
      (fresh date n day : ℕ) (s : attendance.State)
      → IsMarked user day status (rows s)
      → IsMarked user day status
          (rows (mark_days attendance org user location status holidays fresh date n s))
  unfolding mark_days mark_day
  days-keeps fresh date zero day s h = h
  days-keeps fresh date (suc n) day s h = days-keeps (suc fresh) (suc date) n day _ (
      if_keeps (λ r. IsMarked user day status (rows r)) (is_working_day holidays date)
        (λ k. day_with-keeps fresh date day s _ h) (λ k. h))

  pub days-marks :
      (fresh date n k : ℕ) (s : attendance.State)
      → k < n
      → is_working_day holidays (date + k) ≡ true
      → IsMarked user
          (date + k)
          status
          (rows (mark_days attendance org user location status holidays fresh date n s))
  unfolding mark_days mark_day
  days-marks fresh date zero k s lt h = elim (none_below k lt) [ ]
  days-marks fresh date (suc n) zero s lt h =
      let here : date + 0 ≡ date = omega arith in
      days-keeps (suc fresh) (suc date) n (date + 0) _ (
        subst
          (λ x. IsMarked user x status (
            rows (
              if is_working_day holidays date
              then mark_day attendance org user location status holidays fresh date s
              else s)))
          (sym here)
          (if_keeps (λ r. IsMarked user date status (rows r)) (is_working_day holidays date)
            (λ t. day_with-marks fresh date s _ refl)
            (λ f. elim (apart (subst (λ x. is_working_day holidays x ≡ true) here h) f) [ ])))
  days-marks fresh date (suc n) (suc k) s lt h =
      let there : suc date + k ≡ date + suc k = omega arith in
      subst
        (λ x. IsMarked user x status (
          rows (
            mark_days attendance org user location status holidays (suc fresh) (suc date) n (
              if is_working_day holidays date
              then mark_day attendance org user location status holidays fresh date s
              else s))))
        there
        (days-marks (suc fresh) (suc date) n k _ (omega (arith, lt))
          (subst (λ x. is_working_day holidays x ≡ true) (sym there) h))

module _ (t : Tables) (snap : Snapshot) (d : Decision) (r : LeaveRequest) (day : ℕ) where
  Granted : Store t × Option Refusal → Type 0
  Granted out =
      out.1 ≡ none
      → IsMarked r.user_id day (leave_status r) (t.attendance_records.rows out.0.attendance_records)

  grant-IsMarked :
      (id : ℕ) (s : Store t)
      → r.start_date ≤ day
      → day ≤ r.end_date
      → is_working_day (leave_holidays t snap d r) day ≡ true
      → IsMarked r.user_id day
          (leave_status r)
          (t.attendance_records.rows (grant_leave t snap d id r s).attendance_records)
  unfolding grant_leave
  grant-IsMarked id s from until h =
      let offset : r.start_date + (day - r.start_date) ≡ day = omega (arith, from) in
      subst
        (λ x.
          IsMarked r.user_id x (leave_status r)
            (t.attendance_records.rows (grant_leave t snap d id r s).attendance_records))
        offset
        (days-marks t.attendance_records d.org_id r.user_id (leave_location t snap d r)
          (leave_status r) (leave_holidays t snap d r) d.fresh r.start_date
          (suc r.end_date - r.start_date) (day - r.start_date) s.attendance_records
          (omega (arith, from, until))
          (subst (λ x. is_working_day (leave_holidays t snap d r) x ≡ true) (sym offset) h))

  approve-Granted :
      (id : ℕ) (s : Store t)
      → r.start_date ≤ day
      → day ≤ r.end_date
      → is_working_day (leave_holidays t snap d r) day ≡ true
      → is_approve d.action ≡ true
      → Granted (leave_found t snap d id s (some r))
  unfolding Granted transaction
  approve-Granted id s from until h approves =
      if_keeps Granted (not (in_scope snap d r.user_id)) (λ k e. cc)
        (λ k.
          if_keeps Granted (is_approve d.action)
            (λ a.
              if_keeps Granted
                (ltb 0 (count t.shift_assignments (is_scheduled t snap d r) s.shift_assignments))
                (λ b e. cc)
                (λ b.
                  if_keeps (λ (x : Store t × Option Refusal). Granted (transaction s x))
                    (count t.leave_requests (is_open_leave id d.org_id) s.leave_requests == 0)
                    (λ c e. cc) (λ c e. grant-IsMarked id s from until h)))
            (λ a. cc))

-- After a leave request was approved, the requester has an attendance record with the status of the
-- leave on every day of the leave that is neither at the weekend nor a holiday at the location.
pub review_leave-IsMarked :
    (t : Tables) (snap : Snapshot) (d : Decision) (id : ℕ) (s : Store t) (r : LeaveRequest)
    (day : ℕ)
    → find_first t.leave_requests (λ r. r.id == id && r.org_id == d.org_id) s.leave_requests
      ≡ some r
    → is_approve d.action ≡ true
    → (review_leave t snap d id s).1 ≡ none
    → r.start_date ≤ day
    → day ≤ r.end_date
    → is_working_day (leave_holidays t snap d r) day ≡ true
    → IsMarked r.user_id day
        (leave_status r)
        (t.attendance_records.rows (review_leave t snap d id s).0.attendance_records)
unfolding review_leave Granted
review_leave-IsMarked t snap d id s r day found approves done from until h =
    subst
      (λ o.
        (leave_found t snap d id s o).1 ≡ none
        → IsMarked r.user_id day (leave_status r)
            (t.attendance_records.rows (leave_found t snap d id s o).0.attendance_records))
      (sym found) (approve-Granted t snap d r day id s from until h approves) done
