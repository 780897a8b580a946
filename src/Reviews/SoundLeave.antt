-- ===== src/Reviews/SoundLeave.antt =====
-- The decision on a leave request obeys what every decision does (src/services/approval-workflows.ts).
use attenda_api.Base.{ℕ, refl, Option, none, some, ltb, find_first, count, arith, ◌==◌, ◌&&◌}
use attenda_api.Reviews.{LeaveRequest, Tables, Store, Snapshot, Decision}
use attenda_api.Reviews.Claim.{is_approve}
use attenda_api.Reviews.Leave.{
  is_open_leave, approve_row, reject_row, grant_leave, leave_found, is_scheduled, review_leave,
}
use attenda_api.Reviews.Sound.{
  Sound, Sound-guard, Sound-scope, Sound-claim, Sound-either, closed, requester_of,
}

module _ (t : Tables) (snap : Snapshot) (d : Decision) where
  abbrev pub open_leaves : ℕ → Store t → ℕ
  open_leaves id s = count t.leave_requests (is_open_leave id d.org_id) s.leave_requests

  leave_found-Sound :
      (id : ℕ) (s : Store t) (found : Option LeaveRequest)
      → Sound t snap d
          (open_leaves id)
          (requester_of (λ r. r.user_id) found)
          s
          (leave_found t snap d id s found)
  unfolding grant_leave
  leave_found-Sound id s none = refl
  leave_found-Sound id s (some r) =
      Sound-scope t snap d (open_leaves id) r.user_id s _ _ (λ admitted.
        Sound-either t snap d (open_leaves id) (is_approve d.action) r.user_id s _ _
          (Sound-guard t snap d (open_leaves id)
            (ltb 0 (count t.shift_assignments (is_scheduled t snap d r) s.shift_assignments))
            r.user_id s _ _
            (Sound-claim t snap d (open_leaves id) r.user_id s (grant_leave t snap d id r s) _ _
              admitted
              (closed t.leave_requests (is_open_leave id d.org_id) (approve_row t snap d)
                s.leave_requests (λ x. ground arith))))
          (Sound-claim t snap d (open_leaves id) r.user_id s _ _ _ admitted (
            closed t.leave_requests (is_open_leave id d.org_id) (reject_row t snap d)
              s.leave_requests (λ x. ground arith))))

  pub review_leave-Sound :
      (id : ℕ) (s : Store t)
      → Sound t snap d
          (open_leaves id)
          (requester_of
            (λ r. r.user_id)
            (find_first t.leave_requests
              (λ r. r.id == id && r.org_id == d.org_id)
              s.leave_requests))
          s
          (review_leave t snap d id s)
  unfolding review_leave
  review_leave-Sound id s = leave_found-Sound id s _
