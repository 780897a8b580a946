-- ===== src/Access/Scope.antt =====
-- Whose requests a reviewer may act on (reviewableEmployeeIds of src/services/locationScope.ts,
-- assertReviewerScope and scopeFor of src/services/approval-workflows.ts).
use attenda_api.Base.{
  ℕ, ◌≡◌, refl, ◌∙◌, String, Bool, true, false, ◌&&◌, ◌||◌, not, List, [], ◌∷◌, ◌++◌, is_some, any,
  filter_by, map, or_default, arith, ◌==◌,
}
use attenda_api.Access.{
  User, Db, can, opt_is, works_at, managed_locations, includes, reviewable_employee_ids,
  is_in_employee_scope, ApprovalType, leave, overtime, remote, swap, late_notice, expense,
  correction, timesheet, scope_for, is_leave, assert_reviewer_scope, resolve_user_permissions,
}

-- The requester is an employee of the organization, not deleted, who reports to the viewer or whose
-- primary location is an active location that the viewer manages and may see.
abbrev pub is_reviewable : ℕ → ℕ → List String → ℕ → Db → User → Bool
is_reviewable org viewer permissions requester db u =
    u.id == requester
    && ((u.org_id == org && not (is_some u.deleted_at))
        && (opt_is viewer u.manager_id || works_at (managed_locations org viewer permissions db) u))

includes-append :
    (id : ℕ) (us vs : List User)
    → includes id (map (λ u. u.id) (us ++ vs))
      ≡ (includes id (map (λ u. u.id) us) || includes id (map (λ u. u.id) vs))
includes-append id [] vs = refl
includes-append id (u ∷ us) vs = ground (arith, includes-append id us vs)

includes-filter_by :
    (id : ℕ) (p : User → Bool) (us : List User)
    → includes id (map (λ u. u.id) (filter_by p us)) ≡ any (λ u. u.id == id && p u) us
includes-filter_by id p [] = refl
includes-filter_by id p (u ∷ us) = ground (arith, includes-filter_by id p us)

any-union :
    (id : ℕ) (p q : User → Bool) (us : List User)
    → (any (λ u. u.id == id && p u) us || any (λ u. u.id == id && q u) us)
      ≡ any (λ u. u.id == id && (p u || q u)) us
any-union id p q [] = refl
any-union id p q (u ∷ us) = ground (arith, any-union id p q us)

any-ext : (p q : User → Bool) (us : List User) → ((u : User) → p u ≡ q u) → any p us ≡ any q us
any-ext p q [] same = refl
any-ext p q (u ∷ us) same = ground (arith, same u, any-ext p q us same)

includes-union :
    (id : ℕ) (p q : User → Bool) (us : List User)
    → includes id (map (λ u. u.id) (filter_by p us ++ filter_by q us))
      ≡ any (λ u. u.id == id && (p u || q u)) us
includes-union id p q us =
    includes-append id (filter_by p us) (filter_by q us)
    ∙ rw (includes-filter_by id p us, includes-filter_by id q us) (any-union id p q us)

-- A reviewer may act on a request exactly in three cases: it is a leave request and the reviewer sees
-- all leave; the reviewer sees all employees; or the requester is a present employee of the
-- organization who reports to the reviewer or works at an active location that the reviewer manages
-- and may see.
pub assert_reviewer_scope_iff :
    (org viewer : ℕ) (type : ApprovalType) (requester : ℕ) (db : Db)
    → let permissions = resolve_user_permissions viewer org db in
      assert_reviewer_scope org viewer type requester db ≡ (
        (is_leave type && can permissions "leave.view_all")
        || (can permissions "employees.view"
            || any (is_reviewable org viewer permissions requester db) db.users))
unfolding assert_reviewer_scope reviewable_employee_ids
assert_reviewer_scope_iff org viewer type requester db =
    let permissions = resolve_user_permissions viewer org db in
    ground (
      arith,
      includes-union requester
            (λ u. (u.org_id == org && opt_is viewer u.manager_id) && not (is_some u.deleted_at))
            (λ u.
              (u.org_id == org && works_at (managed_locations org viewer permissions db) u)
              && not (is_some u.deleted_at))
            db.users
          ∙ any-ext _ (is_reviewable org viewer permissions requester db) db.users
              (λ u. ground arith),
    )

abbrev pub is_expense : ApprovalType → Bool
is_expense expense = true
is_expense _ = false

-- The scope of the inbox and the scope of the review agree, for every type but expenses: an employee
-- is among those whose requests the inbox looks up exactly where the review's scope admits a request
-- of that employee. What else the review asks for is not part of this.
pub scope_for-assert_reviewer_scope :
    (org viewer : ℕ) (type : ApprovalType) (requester : ℕ) (db : Db)
    → is_expense type ≡ false
    → let permissions = resolve_user_permissions viewer org db in
      is_in_employee_scope requester (
        scope_for type permissions
          (or_default (reviewable_employee_ids org viewer permissions "employees.view" db) []))
      ≡ assert_reviewer_scope org viewer type requester db
unfolding assert_reviewer_scope reviewable_employee_ids scope_for
scope_for-assert_reviewer_scope org viewer leave requester db e = ground arith
scope_for-assert_reviewer_scope org viewer overtime requester db e = ground arith
scope_for-assert_reviewer_scope org viewer remote requester db e = ground arith
scope_for-assert_reviewer_scope org viewer swap requester db e = ground arith
scope_for-assert_reviewer_scope org viewer late_notice requester db e = ground arith
scope_for-assert_reviewer_scope org viewer expense requester db e = cc
scope_for-assert_reviewer_scope org viewer correction requester db e = ground arith
scope_for-assert_reviewer_scope org viewer timesheet requester db e = ground arith
