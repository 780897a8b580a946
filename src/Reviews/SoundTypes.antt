-- ===== src/Reviews/SoundTypes.antt =====
-- The decisions on the other types of request obey what every decision does
-- (src/services/approval-workflows.ts).
use attenda_api.Base.{
  ℕ, ◌<◌, ◌≡◌, refl, true, not, Option, none, some, ltb, find_first, count, arith, ◌==◌, ◌&&◌, ◌||◌,
  any, is_some, count_by, update_by, List, [], ◌∷◌, ◌∙◌, if_keeps,
}
use attenda_api.Access.{can, resolve_user_permissions}
use attenda_api.TimeEntries.{Timesheet}
use attenda_api.Reviews.{
  AttendanceRecord, RemoteSession, LateArrivalNotice, ExpenseClaim, OvertimeRequest, ShiftSwap,
  ShiftAssignment, AttendanceCorrection, Tables, Store, Snapshot, Decision,
}
use attenda_api.Reviews.Claim.{is_approve, in_scope, transaction}
use attenda_api.Reviews.Simple.{
  is_remote, is_open_remote, remote_row, remote_with, remote_found, review_remote, is_notice,
  is_open_notice, notice_row, notice_found, review_late_notice, is_open_sheet, sheet_row,
  sheet_found, review_timesheet, is_claim, is_open_claim, claim_row, claim_found, review_expense,
}
use attenda_api.Reviews.Effects.{
  is_overtime, is_open_overtime, overtime_row, overtime_with, overtime_found, review_overtime,
  is_swap, is_open_swap, swap_row, swap_claimed, swap_with, swap_found, review_swap, is_leave_on,
}
use attenda_api.Reviews.Correction.{
  is_correction, is_open_correction, correction_row, is_period, correction_found, review_correction,
  linked,
}
use attenda_api.Reviews.Sound.{Sound, Sound-guard, Sound-scope, Sound-claim, closed, requester_of}

module _ (t : Tables) (snap : Snapshot) (d : Decision) where
  abbrev pub open_remotes : ℕ → Store t → ℕ
  open_remotes id s = count t.remote_sessions (is_open_remote t snap d id) s.remote_sessions

  remote_with-Sound :
      (id u : ℕ) (s : Store t) (found : Option AttendanceRecord)
      → in_scope snap d u ≡ true
      → Sound t snap d (open_remotes id) (some u) s (remote_with t snap d id s found)
  remote_with-Sound id u s none admitted = refl
  remote_with-Sound id u s (some a) admitted =
      Sound-claim t snap d (open_remotes id) u s _ _ _ admitted (
        closed t.remote_sessions (is_open_remote t snap d id) (remote_row t snap d)
          s.remote_sessions (λ x. ground arith))

  remote_found-Sound :
      (id : ℕ) (s : Store t) (found : Option RemoteSession)
      → Sound t snap d
          (open_remotes id)
          (requester_of (λ r. r.user_id) found)
          s
          (remote_found t snap d id s found)
  remote_found-Sound id s none = refl
  remote_found-Sound id s (some r) =
      Sound-scope t snap d (open_remotes id) r.user_id s _ _
        (λ admitted. remote_with-Sound id r.user_id s _ admitted)

  pub review_remote-Sound :
      (id : ℕ) (s : Store t)
      → Sound t snap d
          (open_remotes id)
          (requester_of
            (λ r. r.user_id)
            (find_first t.remote_sessions (is_remote t snap d id) s.remote_sessions))
          s
          (review_remote t snap d id s)
  unfolding review_remote
  review_remote-Sound id s = remote_found-Sound id s _

  abbrev pub open_notices : ℕ → Store t → ℕ
  open_notices id s =
      count t.late_arrival_notices (is_open_notice t snap d id) s.late_arrival_notices

  notice_found-Sound :
      (id : ℕ) (s : Store t) (found : Option LateArrivalNotice)
      → Sound t snap d
          (open_notices id)
          (requester_of (λ r. r.user_id) found)
          s
          (notice_found t snap d id s found)
  notice_found-Sound id s none = refl
  notice_found-Sound id s (some r) =
      Sound-guard t snap d (open_notices id) (ltb r.date snap.today) r.user_id s _ _ (
        Sound-scope t snap d (open_notices id) r.user_id s _ _ (λ admitted.
          Sound-claim t snap d (open_notices id) r.user_id s _ _ _ admitted (
            closed t.late_arrival_notices (is_open_notice t snap d id) (notice_row t snap d)
              s.late_arrival_notices (λ x. ground arith))))

  pub review_late_notice-Sound :
      (id : ℕ) (s : Store t)
      → Sound t snap d
          (open_notices id)
          (requester_of
            (λ r. r.user_id)
            (find_first t.late_arrival_notices (is_notice t snap d id) s.late_arrival_notices))
          s
          (review_late_notice t snap d id s)
  unfolding review_late_notice
  review_late_notice-Sound id s = notice_found-Sound id s _

  abbrev pub open_sheets : ℕ → Store t → ℕ
  open_sheets id s = count t.timesheets (is_open_sheet t snap d id) s.timesheets

  sheet_found-Sound :
      (id : ℕ) (s : Store t) (found : Option Timesheet)
      → Sound t snap d
          (open_sheets id)
          (requester_of (λ r. r.user_id) found)
          s
          (sheet_found t snap d id s found)
  sheet_found-Sound id s none = refl
  sheet_found-Sound id s (some r) =
      Sound-scope t snap d (open_sheets id) r.user_id s _ _ (λ admitted.
        Sound-guard t snap d (open_sheets id) (r.user_id == d.viewer) r.user_id s _ _ (
          Sound-claim t snap d (open_sheets id) r.user_id s _ _ _ admitted (
            closed t.timesheets (is_open_sheet t snap d id) (sheet_row t snap d) s.timesheets
              (λ x. ground arith))))

  pub review_timesheet-Sound :
      (id : ℕ) (s : Store t)
      → Sound t snap d
          (open_sheets id)
          (requester_of
            (λ r. r.user_id)
            (find_first t.timesheets (is_open_sheet t snap d id) s.timesheets))
          s
          (review_timesheet t snap d id s)
  unfolding review_timesheet
  review_timesheet-Sound id s = sheet_found-Sound id s _

  abbrev pub open_claims : ℕ → Store t → ℕ
  open_claims id s = count t.expense_claims (is_open_claim t snap d id) s.expense_claims

  claim_found-Sound :
      (id : ℕ) (s : Store t) (found : Option ExpenseClaim)
      → Sound t snap d
          (open_claims id)
          (requester_of (λ r. r.user_id) found)
          s
          (claim_found t snap d id s found)
  claim_found-Sound id s none = refl
  claim_found-Sound id s (some r) =
      Sound-guard t snap d (open_claims id)
        (not (can (resolve_user_permissions d.viewer d.org_id snap.access) "expenses.manage"))
        r.user_id s _ _
        (Sound-scope t snap d (open_claims id) r.user_id s _ _ (λ admitted.
          Sound-claim t snap d (open_claims id) r.user_id s _ _ _ admitted (
            closed t.expense_claims (is_open_claim t snap d id) (claim_row t snap d)
              s.expense_claims (λ x. ground arith))))

  pub review_expense-Sound :
      (id : ℕ) (s : Store t)
      → Sound t snap d
          (open_claims id)
          (requester_of
            (λ r. r.user_id)
            (find_first t.expense_claims (is_claim t snap d id) s.expense_claims))
          s
          (review_expense t snap d id s)
  unfolding review_expense
  review_expense-Sound id s = claim_found-Sound id s _

  abbrev pub open_overtimes : ℕ → Store t → ℕ
  open_overtimes id s = count t.overtime_requests (is_open_overtime t snap d id) s.overtime_requests

  overtime_with-Sound :
      (id : ℕ) (r : OvertimeRequest) (s : Store t) (found : Option AttendanceRecord)
      → in_scope snap d r.user_id ≡ true
      → Sound t snap d (open_overtimes id) (some r.user_id) s (overtime_with t snap d id r s found)
  overtime_with-Sound id r s none admitted = refl
  overtime_with-Sound id r s (some a) admitted =
      Sound-claim t snap d (open_overtimes id) r.user_id s _ _ _ admitted (
        closed t.overtime_requests (is_open_overtime t snap d id) (overtime_row t snap d)
          s.overtime_requests (λ x. ground arith))

  overtime_found-Sound :
      (id : ℕ) (s : Store t) (found : Option OvertimeRequest)
      → Sound t snap d
          (open_overtimes id)
          (requester_of (λ r. r.user_id) found)
          s
          (overtime_found t snap d id s found)
  overtime_found-Sound id s none = refl
  overtime_found-Sound id s (some r) =
      Sound-scope t snap d (open_overtimes id) r.user_id s _ _
        (λ admitted. overtime_with-Sound id r s _ admitted)

  pub review_overtime-Sound :
      (id : ℕ) (s : Store t)
      → Sound t snap d
          (open_overtimes id)
          (requester_of
            (λ r. r.user_id)
            (find_first t.overtime_requests (is_overtime t snap d id) s.overtime_requests))
          s
          (review_overtime t snap d id s)
  unfolding review_overtime
  review_overtime-Sound id s = overtime_found-Sound id s _

  abbrev pub open_swaps : ℕ → Store t → ℕ
  open_swaps id s = count t.shift_swaps (is_open_swap t snap d id) s.shift_swaps

  swap_with-Sound :
      (id : ℕ) (r : ShiftSwap) (s : Store t) (a b : Option ShiftAssignment)
      → in_scope snap d r.requester_id ≡ true
      → Sound t snap d (open_swaps id) (some r.requester_id) s (swap_with t snap d id r s a b)
  unfolding transaction
  swap_with-Sound id r s none b admitted = refl
  swap_with-Sound id r s (some a) none admitted = refl
  swap_with-Sound id r s (some a) (some b) admitted =
      if_keeps (λ x. Sound t snap d (open_swaps id) (some r.requester_id) s (transaction s x))
        (open_swaps id s == 0) (λ k. refl)
        (λ k.
          let gone : open_swaps id (swap_claimed t snap d id s) ≡ 0 =
            (closed t.shift_swaps (is_open_swap t snap d id) (swap_row t snap d) s.shift_swaps
              (λ x. ground arith)) in
          let open_one : 0 < open_swaps id s = ground arith in
          if_keeps (λ x. Sound t snap d (open_swaps id) (some r.requester_id) s (transaction s x))
            (is_approve d.action)
            (λ y.
              if_keeps
                (λ x. Sound t snap d (open_swaps id) (some r.requester_id) s (transaction s x))
                (is_some (
                    find_first t.leave_requests (is_leave_on t snap d r.requester_id a.date)
                      s.leave_requests)
                  || is_some (
                      find_first t.leave_requests (is_leave_on t snap d b.user_id b.date)
                        s.leave_requests))
                (λ l. refl) (λ l. (admitted, open_one, gone)))
            (λ n. (admitted, open_one, gone)))

  swap_found-Sound :
      (id : ℕ) (s : Store t) (found : Option ShiftSwap)
      → Sound t snap d
          (open_swaps id)
          (requester_of (λ r. r.requester_id) found)
          s
          (swap_found t snap d id s found)
  swap_found-Sound id s none = refl
  swap_found-Sound id s (some r) =
      Sound-scope t snap d (open_swaps id) r.requester_id s _ _
        (λ admitted. swap_with-Sound id r s _ _ admitted)

  pub review_swap-Sound :
      (id : ℕ) (s : Store t)
      → Sound t snap d
          (open_swaps id)
          (requester_of
            (λ r. r.requester_id)
            (find_first t.shift_swaps (is_swap t snap d id) s.shift_swaps))
          s
          (review_swap t snap d id s)
  unfolding review_swap
  review_swap-Sound id s = swap_found-Sound id s _

  abbrev pub open_corrections : ℕ → Store t → ℕ
  open_corrections id s =
      count t.attendance_corrections (is_open_correction t snap d id) s.attendance_corrections

  -- The link to the record leaves the status of a correction as it is.
  linked_open :
      (id n : ℕ) (xs : List AttendanceCorrection)
      → count_by
          (is_open_correction t snap d id)
          (update_by (λ c. c.id == id) (linked t snap d n) xs)
        ≡ count_by (is_open_correction t snap d id) xs
  linked_open id n [] = refl
  linked_open id n (x ∷ xs) = ground (arith, linked_open id n xs)

  applied_open :
      (id n : ℕ) (s : t.attendance_corrections.State)
      → count t.attendance_corrections (is_open_correction t snap d id) (
          t.attendance_corrections.update_many
            (λ c. c.id == id)
            (linked t snap d n)
            (t.attendance_corrections.update_many
              (is_open_correction t snap d id)
              (correction_row t snap d)
              s))
        ≡ 0
  applied_open id n s =
      rw
        (t.attendance_corrections.rows-update_many (λ c. c.id == id) (linked t snap d n)
          (t.attendance_corrections.update_many (is_open_correction t snap d id)
            (correction_row t snap d) s))
        (linked_open id n _
          ∙ closed t.attendance_corrections (is_open_correction t snap d id)
              (correction_row t snap d) s (λ x. ground arith))

  correction_found-Sound :
      (id : ℕ) (s : Store t) (found : Option AttendanceCorrection)
      → Sound t snap d
          (open_corrections id)
          (requester_of (λ r. r.user_id) found)
          s
          (correction_found t snap d id s found)
  unfolding transaction
  correction_found-Sound id s none = refl
  correction_found-Sound id s (some r) =
      Sound-scope t snap d (open_corrections id) r.user_id s _ _ (λ admitted.
        if_keeps (λ x. Sound t snap d (open_corrections id) (some r.user_id) s (transaction s x))
          (is_approve d.action && any (is_period t snap d r) snap.payroll_records) (λ k. refl)
          (λ k.
            if_keeps
              (λ x. Sound t snap d (open_corrections id) (some r.user_id) s (transaction s x))
              (open_corrections id s == 0) (λ k. refl)
              (λ k.
                let open_one : 0 < open_corrections id s = ground arith in
                if_keeps
                  (λ x. Sound t snap d (open_corrections id) (some r.user_id) s (transaction s x))
                  (is_approve d.action)
                  (λ y. (admitted, open_one, applied_open id _ s.attendance_corrections))
                  (λ y. (
                    admitted,
                    open_one,
                    closed t.attendance_corrections (is_open_correction t snap d id)
                        (correction_row t snap d) s.attendance_corrections (λ x. ground arith),
                  )))))

  pub review_correction-Sound :
      (id : ℕ) (s : Store t)
      → Sound t snap d
          (open_corrections id)
          (requester_of
            (λ r. r.user_id)
            (find_first t.attendance_corrections
              (is_correction t snap d id)
              s.attendance_corrections))
          s
          (review_correction t snap d id s)
  unfolding review_correction
  review_correction-Sound id s = correction_found-Sound id s _
