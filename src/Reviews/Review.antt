-- ===== src/Reviews/Review.antt =====
-- reviewApproval of src/services/approval-workflows.ts: the checks of every review, and the decision
-- by the type of the request.
use attenda_api.Base.{ℕ, Option, none, some, is_some}
use attenda_api.Access as Access
use attenda_api.Access.{
  ApprovalType, leave, overtime, remote, swap, late_notice, expense, correction, timesheet,
  review_refusal,
}
use attenda_api.Reviews.{Tables, Store, Snapshot, Decision, Refusal, invalid_request, forbidden}
use attenda_api.Reviews.Leave.{review_leave}
use attenda_api.Reviews.Simple.{review_remote, review_late_notice, review_timesheet, review_expense}
use attenda_api.Reviews.Effects.{review_overtime, review_swap}
use attenda_api.Reviews.Correction.{review_correction}

abbrev pub check_refusal : Access.Refusal → Refusal
check_refusal Access.approval_id_required = invalid_request
check_refusal Access.forbidden = forbidden
check_refusal Access.reason_required = invalid_request
check_refusal Access.only_acknowledge = invalid_request
check_refusal Access.not_acknowledge = invalid_request

module _ (t : Tables) (snap : Snapshot) (d : Decision) where
  abbrev pub review_of : ApprovalType → ℕ → Store t → Store t × Option Refusal
  review_of leave id s = review_leave t snap d id s
  review_of overtime id s = review_overtime t snap d id s
  review_of remote id s = review_remote t snap d id s
  review_of swap id s = review_swap t snap d id s
  review_of late_notice id s = review_late_notice t snap d id s
  review_of expense id s = review_expense t snap d id s
  review_of correction id s = review_correction t snap d id s
  review_of timesheet id s = review_timesheet t snap d id s

  -- The refusal of a review before its request is read.
  unfoldable pub refusal_first : Option Access.Refusal
  refusal_first =
      review_refusal d.org_id d.viewer d.type d.action (is_some d.id) d.reason_length snap.access

  abbrev pub review_checked : Option Access.Refusal → Option ℕ → Store t → Store t × Option Refusal
  review_checked (some e) id s = (s, some (check_refusal e))
  review_checked none none s = (s, some invalid_request)
  review_checked none (some id) s = review_of d.type id s

  unfoldable pub review_approval : Store t → Store t × Option Refusal
  review_approval s = review_checked refusal_first d.id s
