-- ===== src/Reviews/Once.antt =====
-- A request is decided once, and a refused decision changes nothing (reviewApproval of
-- src/services/approval-workflows.ts).
use attenda_api.Base.{
  ℕ, ◌<◌, ◌≡◌, refl, String, true, Option, none, some, find_first, ◌==◌, ◌&&◌, arith, subst,
}
use attenda_api.Access as Access
use attenda_api.Access.{
  ApprovalType, ApprovalAction, leave, overtime, remote, swap, late_notice, expense, correction,
  timesheet,
}
use attenda_api.Reviews.{Tables, Store, Snapshot, Decision, Refusal}
use attenda_api.Reviews.Claim.{in_scope}
use attenda_api.Reviews.Simple.{is_remote, is_notice, is_open_sheet, is_claim}
use attenda_api.Reviews.Effects.{is_overtime, is_swap}
use attenda_api.Reviews.Correction.{is_correction}
use attenda_api.Reviews.Review.{review_of, refusal_first, review_checked, review_approval}
use attenda_api.Reviews.Sound.{Sound, requester_of}
use attenda_api.Reviews.SoundLeave.{open_leaves, review_leave-Sound}
use attenda_api.Reviews.SoundTypes.{
  open_remotes, review_remote-Sound, open_notices, review_late_notice-Sound, open_sheets,
  review_timesheet-Sound, open_claims, review_expense-Sound, open_overtimes, review_overtime-Sound,
  open_swaps, review_swap-Sound, open_corrections, review_correction-Sound,
}

module _ (t : Tables) (snap : Snapshot) (d : Decision) where
  -- The requests of an identifier that wait for a decision: pending, or submitted for a timesheet.
  abbrev pub open_requests : ApprovalType → ℕ → Store t → ℕ
  open_requests leave id s = open_leaves t snap d id s
  open_requests overtime id s = open_overtimes t snap d id s
  open_requests remote id s = open_remotes t snap d id s
  open_requests swap id s = open_swaps t snap d id s
  open_requests late_notice id s = open_notices t snap d id s
  open_requests expense id s = open_claims t snap d id s
  open_requests correction id s = open_corrections t snap d id s
  open_requests timesheet id s = open_sheets t snap d id s

  -- The user whose request it is.
  abbrev pub request_user : ApprovalType → ℕ → Store t → Option ℕ
  request_user leave id s =
      requester_of (λ r. r.user_id)
        (find_first t.leave_requests (λ r. r.id == id && r.org_id == d.org_id) s.leave_requests)
  request_user overtime id s =
      requester_of (λ r. r.user_id)
        (find_first t.overtime_requests (is_overtime t snap d id) s.overtime_requests)
  request_user remote id s =
      requester_of (λ r. r.user_id)
        (find_first t.remote_sessions (is_remote t snap d id) s.remote_sessions)
  request_user swap id s =
      requester_of (λ r. r.requester_id)
        (find_first t.shift_swaps (is_swap t snap d id) s.shift_swaps)
  request_user late_notice id s =
      requester_of (λ r. r.user_id)
        (find_first t.late_arrival_notices (is_notice t snap d id) s.late_arrival_notices)
  request_user expense id s =
      requester_of (λ r. r.user_id)
        (find_first t.expense_claims (is_claim t snap d id) s.expense_claims)
  request_user correction id s =
      requester_of (λ r. r.user_id)
        (find_first t.attendance_corrections (is_correction t snap d id) s.attendance_corrections)
  request_user timesheet id s =
      requester_of (λ r. r.user_id)
        (find_first t.timesheets (is_open_sheet t snap d id) s.timesheets)

  review_of-Sound :
      (type : ApprovalType) (id : ℕ) (s : Store t)
      → Sound t snap d
          (open_requests type id)
          (request_user type id s)
          s
          (review_of t snap d type id s)
  review_of-Sound leave id s = review_leave-Sound t snap d id s
  review_of-Sound overtime id s = review_overtime-Sound t snap d id s
  review_of-Sound remote id s = review_remote-Sound t snap d id s
  review_of-Sound swap id s = review_swap-Sound t snap d id s
  review_of-Sound late_notice id s = review_late_notice-Sound t snap d id s
  review_of-Sound expense id s = review_expense-Sound t snap d id s
  review_of-Sound correction id s = review_correction-Sound t snap d id s
  review_of-Sound timesheet id s = review_timesheet-Sound t snap d id s

  wrong : 0 < 0 → ⊥
  wrong h = omega arith

  module _ (opens : Store t → ℕ) where
    Sound-unchanged :
        (u : Option ℕ) (s : Store t) (r : Store t × Option Refusal) {e : Refusal}
        → Sound t snap d opens u s r
        → r.1 ≡ some e
        → r.0 ≡ s
    Sound-unchanged u s (s', some x) h e = h
    Sound-unchanged u s (s', none) h e = cc

    Sound-admitted :
        (u : Option ℕ) (s : Store t) (r : Store t × Option Refusal)
        → Sound t snap d opens u s r
        → r.1 ≡ none
        → (v : ℕ) × (u ≡ some v) × (in_scope snap d v ≡ true) × (0 < opens s)
    Sound-admitted u s (s', some x) h e = cc
    Sound-admitted none s (s', none) h e = elim (wrong h) [ ]
    Sound-admitted (some u) s (s', none) h e = (u, refl, h.0, h.1)

  checked-unchanged :
      (first : Option Access.Refusal) (id : Option ℕ) (s : Store t) {e : Refusal}
      → (review_checked t snap d first id s).1 ≡ some e
      → (review_checked t snap d first id s).0 ≡ s
  checked-unchanged (some x) id s e = refl
  checked-unchanged none none s e = refl
  checked-unchanged none (some id) s e =
      Sound-unchanged (open_requests d.type id) _ s _ (review_of-Sound d.type id s) e

  checked-admitted :
      (first : Option Access.Refusal) (id : ℕ) (s : Store t)
      → (review_checked t snap d first (some id) s).1 ≡ none
      → (first ≡ none)
        × ((v : ℕ) × (request_user d.type id s ≡ some v)
            × (in_scope snap d v ≡ true)
            × (0 < open_requests d.type id s))
  checked-admitted (some x) id s e = cc
  checked-admitted none id s e =
      (refl, Sound-admitted (open_requests d.type id) _ s _ (review_of-Sound d.type id s) e)

-- A decision that is refused, at any point of its transaction and for any type of request, leaves
-- every table as it was.
pub review_approval-unchanged :
    (t : Tables) (snap : Snapshot) (d : Decision) (s : Store t) (e : Refusal)
    → (review_approval t snap d s).1 ≡ some e
    → (review_approval t snap d s).0 ≡ s
unfolding review_approval
review_approval-unchanged t snap d s e h = checked-unchanged t snap d _ d.id s h

-- A decision that succeeds passed the checks of every review, was made on a request of the
-- organization that waited for a decision, and its maker may act on requests of that user.
pub review_approval-admitted :
    (t : Tables) (snap : Snapshot) (d : Decision) (s : Store t) (id : ℕ)
    → d.id ≡ some id
    → (review_approval t snap d s).1 ≡ none
    → (refusal_first t snap d ≡ none)
      × ((v : ℕ) × (request_user t snap d d.type id s ≡ some v)
          × (in_scope snap d v ≡ true)
          × (0 < open_requests t snap d d.type id s))
unfolding review_approval
review_approval-admitted t snap d s id given h =
    checked-admitted t snap d _ id s
      (subst (λ i. (review_checked t snap d (refusal_first t snap d) i s).1 ≡ none) given h)

-- Another decision on the request of a decision.
abbrev pub again : Decision → ℕ → ApprovalAction → String → ℕ → Option String → ℕ → ℕ → Decision
again d viewer action reason reason_length note now fresh = record d {
  viewer = viewer;
  action = action;
  reason = reason;
  reason_length = reason_length;
  note = note;
  now = now;
  fresh = fresh;
}
