-- ===== src/Reviews/Claim.antt =====
-- What the decisions on all types of request share (src/services/approval-workflows.ts): the scope,
-- the status and the texts that are written, and the users that a decision looks up.
use attenda_api.Base.{ℕ, String, Bool, true, false, Option, none, some, ◌==◌, find_by}
use attenda_api.Access.{User, assert_reviewer_scope, ApprovalAction, approve, reject, acknowledge}
use attenda_api.Reviews.{ReviewStatus, pending, approved, rejected, Snapshot, Decision}

abbrev pub is_pending : ReviewStatus → Bool
is_pending pending = true
is_pending _ = false

abbrev pub is_approve : ApprovalAction → Bool
is_approve approve = true
is_approve reject = false
is_approve acknowledge = false

-- `action === 'approve' ? 'approved' : 'rejected'`
abbrev pub decided : ApprovalAction → ReviewStatus
decided approve = approved
decided reject = rejected
decided acknowledge = rejected

-- `action === 'reject' ? reason : other`
abbrev pub reason_or : Decision → Option String → Option String
reason_or d other = elim d.action [ reject ↦ some d.reason | _ ↦ other ]

unfoldable pub in_scope : Snapshot → Decision → ℕ → Bool
in_scope snap d requester = assert_reviewer_scope d.org_id d.viewer d.type requester snap.access

abbrev pub location_of : Option User → Option ℕ
location_of none = none
location_of (some u) = u.primary_location_id

abbrev pub primary_location : Snapshot → ℕ → Option ℕ
primary_location snap user = location_of (find_by (λ u. u.id == user) snap.access.users)

-- `a ?? b` on values that may be missing.
abbrev pub or_else {ℓ} : {A : Type ℓ} → Option A → Option A → Option A
or_else none b = b
or_else (some a) b = some a

-- What `$transaction` leaves of a state `s`, from what its body wrote and threw: an error rolls back.
unfoldable pub transaction : {S E : Type 0} → S → S × Option E → S × Option E
transaction s (s', none) = (s', none)
transaction s (s', some e) = (s, some e)
