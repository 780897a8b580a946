-- ===== src/Access.antt =====
-- src/services/authorization.ts, src/services/locationScope.ts and the guards of
-- src/services/approval-workflows.ts: who may do what, and whose requests a reviewer may act on. The
-- tables are only read, so a snapshot of their rows is an argument; identifiers are numbers.
pub mod Permissions
pub mod Scope
pub mod Tests
use attenda_api.Base.{
  ℕ, ◌≡◌, String, Bool, true, false, ◌&&◌, ◌||◌, not, Option, none, some, List, [], ◌∷◌, ◌++◌, ltb,
  ◌==◌, if◌then◌else◌, is_some, any, filter_by, find_by, map, str_eq, length,
}

pub record User : Type 0 where
  pub id : ℕ
  pub org_id : ℕ
  pub manager_id : Option ℕ
  pub primary_location_id : Option ℕ
  pub is_active : Bool
  pub deleted_at : Option ℕ

-- `true` for 'allow' and `false` for 'deny'; `none` for another text.
pub record UserPermissionGrant : Type 0 where
  pub user_id : ℕ
  pub org_id : ℕ
  pub permission_key : String
  pub effect : Option Bool

-- A user's role in the organization, with the keys of its permissions.
pub record UserOrgRole : Type 0 where
  pub user_id : ℕ
  pub permissions : List String

pub record LocationManager : Type 0 where
  pub user_id : ℕ
  pub location_id : ℕ
  pub location_org_id : ℕ
  pub location_is_active : Bool

pub record Db : Type 0 where
  pub users : List User
  pub user_org_roles : List UserOrgRole
  pub user_permission_grants : List UserPermissionGrant
  pub location_managers : List LocationManager

-- A `Set` of permission keys: `has`, `add` and `delete`.
unfoldable pub can : List String → String → Bool
can permissions key = any (λ k. str_eq k key) permissions

abbrev pub set_add : String → List String → List String
set_add key keys = if can keys key then keys else keys ++ key ∷ []

abbrev pub set_delete : String → List String → List String
set_delete key keys = filter_by (λ k. not (str_eq k key)) keys

abbrev pub role_keys : Option UserOrgRole → List String
role_keys none = []
role_keys (some role) = role.permissions

abbrev pub role_permission_keys : ℕ → Db → List String
role_permission_keys user db = role_keys (find_by (λ r. r.user_id == user) db.user_org_roles)

unfoldable pub apply_effect : Option Bool → String → List String → List String
apply_effect none key keys = keys
apply_effect (some true) key keys = set_add key keys
apply_effect (some false) key keys = set_delete key keys

unfoldable pub apply_grants : List UserPermissionGrant → List String → List String
apply_grants [] keys = keys
apply_grants (g ∷ gs) keys = apply_grants gs (apply_effect g.effect g.permission_key keys)

abbrev pub grants_of : ℕ → ℕ → Db → List UserPermissionGrant
grants_of user org db =
    filter_by (λ g. g.user_id == user && g.org_id == org) db.user_permission_grants

abbrev pub is_member : ℕ → ℕ → User → Bool
is_member user org u = (u.id == user && u.org_id == org) && not (is_some u.deleted_at)

unfoldable pub resolve_user_permissions : ℕ → ℕ → Db → List String
resolve_user_permissions user org db =
    if is_some (find_by (is_member user org) db.users)
    then apply_grants (grants_of user org db) (role_permission_keys user db)
    else []

abbrev pub opt_is : ℕ → Option ℕ → Bool
opt_is n none = false
opt_is n (some m) = n == m

-- The active locations that a user manages, and whether a user's primary location is one of them.
abbrev pub manages : ℕ → ℕ → LocationManager → Bool
manages org user m = m.user_id == user && (m.location_org_id == org && m.location_is_active)

abbrev pub managed_locations : ℕ → ℕ → List String → Db → List ℕ
managed_locations org user permissions db =
    if can permissions "employees.view_location"
    then map (λ m. m.location_id) (filter_by (manages org user) db.location_managers)
    else []

abbrev pub works_at : List ℕ → User → Bool
works_at locations u = any (λ l. opt_is l u.primary_location_id) locations

abbrev pub includes : ℕ → List ℕ → Bool
includes id ids = any (λ i. i == id) ids

-- The employees that the caller may see; `none` for all of the organization. The duplicates that the
-- source removes are kept, since the list is only searched.
unfoldable pub scoped_employee_ids : ℕ → ℕ → List String → String → Db → Option (List ℕ)
scoped_employee_ids org user permissions org_wide db =
    if can permissions org_wide
    then none
    else some (
        map (λ u. u.id)
          ((if can permissions "employees.view_team"
              then filter_by
                  (λ u.
                    (u.org_id == org && opt_is user u.manager_id)
                    && (u.is_active && not (is_some u.deleted_at)))
                  db.users
              else [])
            ++ filter_by
                (λ u.
                  (u.org_id == org && works_at (managed_locations org user permissions db) u)
                  && (u.is_active && not (is_some u.deleted_at)))
                db.users))

-- The employees whose requests the caller may act on.
unfoldable pub reviewable_employee_ids : ℕ → ℕ → List String → String → Db → Option (List ℕ)
reviewable_employee_ids org user permissions org_wide db =
    if can permissions org_wide
    then none
    else some (
        map (λ u. u.id)
          (filter_by
              (λ u. (u.org_id == org && opt_is user u.manager_id) && not (is_some u.deleted_at))
              db.users
            ++ filter_by
                (λ u.
                  (u.org_id == org && works_at (managed_locations org user permissions db) u)
                  && not (is_some u.deleted_at))
                db.users))

abbrev pub is_in_employee_scope : ℕ → Option (List ℕ) → Bool
is_in_employee_scope user none = true
is_in_employee_scope user (some ids) = includes user ids

pub data ApprovalType : Type 0 where
  leave overtime remote swap late_notice expense correction timesheet : ApprovalType

pub data ApprovalAction : Type 0 where
  approve reject acknowledge : ApprovalAction

unfoldable pub has_type_permission : ApprovalType → List String → Bool
has_type_permission leave p = can p "leave.approve"
has_type_permission overtime p = can p "overtime.manage"
has_type_permission remote p = can p "remote.approve"
has_type_permission swap p = can p "shifts.swaps.approve"
has_type_permission late_notice p = can p "attendance.late_notices.manage"
has_type_permission expense p = can p "expenses.view" || can p "expenses.manage"
has_type_permission correction p = can p "attendance.override"
has_type_permission timesheet p = can p "time.approve"

-- The employees whose requests of a type are listed, `none` for all.
unfoldable pub scope_for : ApprovalType → List String → List ℕ → Option (List ℕ)
scope_for leave p reports =
    if can p "leave.view_all" then none else if can p "employees.view" then none else some reports
scope_for expense p reports =
    if can p "expenses.manage" || can p "employees.view" then none else some reports
scope_for overtime p reports = if can p "employees.view" then none else some reports
scope_for remote p reports = if can p "employees.view" then none else some reports
scope_for swap p reports = if can p "employees.view" then none else some reports
scope_for late_notice p reports = if can p "employees.view" then none else some reports
scope_for correction p reports = if can p "employees.view" then none else some reports
scope_for timesheet p reports = if can p "employees.view" then none else some reports

abbrev pub is_leave : ApprovalType → Bool
is_leave leave = true
is_leave _ = false

-- `true` where the reviewer may act on a request of the requester.
unfoldable pub assert_reviewer_scope : ℕ → ℕ → ApprovalType → ℕ → Db → Bool
assert_reviewer_scope org viewer type requester db =
    let permissions = resolve_user_permissions viewer org db in
    if is_leave type && can permissions "leave.view_all"
    then true
    else is_in_employee_scope requester
        (reviewable_employee_ids org viewer permissions "employees.view" db)

pub data Refusal : Type 0 where
  approval_id_required forbidden reason_required only_acknowledge not_acknowledge : Refusal

abbrev pub is_late_notice : ApprovalType → Bool
is_late_notice late_notice = true
is_late_notice _ = false

abbrev pub is_reject : ApprovalAction → Bool
is_reject reject = true
is_reject _ = false

abbrev pub is_acknowledge : ApprovalAction → Bool
is_acknowledge acknowledge = true
is_acknowledge _ = false

-- The checks that every review makes first; `reason` is the length of the trimmed reason, and
-- `has_id` tells whether an identifier was given.
unfoldable pub review_refusal :
    ℕ → ℕ → ApprovalType → ApprovalAction → Bool → ℕ → Db → Option Refusal
review_refusal org viewer type action has_id reason db =
    if not has_id
    then some approval_id_required
    else if not (has_type_permission type (resolve_user_permissions viewer org db))
    then some forbidden
    else if is_reject action && ltb reason 5
    then some reason_required
    else if is_late_notice type && not (is_acknowledge action)
    then some only_acknowledge
    else if not (is_late_notice type) && is_acknowledge action
    then some not_acknowledge
    else none
