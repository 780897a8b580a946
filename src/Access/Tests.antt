-- ===== src/Access/Tests.antt =====
-- A manager with a role, a denied key, and one employee who reports to him.
use attenda_api.Base.{
  ◌≡◌, refl, true, false, ◌&&◌, ◌||◌, some, none, [], ◌∷◌, is_some, find_by, any, or_default,
}
use attenda_api.Access.{
  Db, can, role_permission_keys, grants_of, is_member, resolve_user_permissions,
  reviewable_employee_ids, is_in_employee_scope, scope_for, assert_reviewer_scope, remote, is_leave,
}
use attenda_api.Access.Permissions.{decided, resolve_user_permissions-can}
use attenda_api.Access.Scope.{
  is_reviewable, assert_reviewer_scope_iff, scope_for-assert_reviewer_scope,
}

abbrev office : Db
office = record {
  users =
      record {
        id = 1;
        org_id = 2;
        manager_id = none;
        primary_location_id = none;
        is_active = true;
        deleted_at = none;
      }
      ∷ record {
        id = 7;
        org_id = 2;
        manager_id = some 1;
        primary_location_id = none;
        is_active = true;
        deleted_at = none;
      }
      ∷ [];
  user_org_roles =
      record { user_id = 1; permissions = "remote.approve" ∷ "leave.approve" ∷ [] } ∷ [];
  user_permission_grants =
      record { user_id = 1; org_id = 2; permission_key = "leave.approve"; effect = some false }
      ∷ [];
  location_managers = [];
}

resolve_user_permissions-can_example : can (resolve_user_permissions 1 2 office) "leave.approve" ≡ (
    is_some (find_by (is_member 1 2) office.users)
    && decided "leave.approve"
        (grants_of 1 2 office)
        (can (role_permission_keys 1 office) "leave.approve"))
resolve_user_permissions-can_example = resolve_user_permissions-can 1 2 "leave.approve" office

assert_reviewer_scope_iff_example : assert_reviewer_scope 2 1 remote 7 office ≡ (
    (is_leave remote && can (resolve_user_permissions 1 2 office) "leave.view_all")
    || (can (resolve_user_permissions 1 2 office) "employees.view"
        || any (is_reviewable 2 1 (resolve_user_permissions 1 2 office) 7 office) office.users))
assert_reviewer_scope_iff_example = assert_reviewer_scope_iff 2 1 remote 7 office

scope_for-assert_reviewer_scope_example :
    is_in_employee_scope 7 (
      scope_for remote (resolve_user_permissions 1 2 office) (
        or_default
          (reviewable_employee_ids 2 1
            (resolve_user_permissions 1 2 office)
            "employees.view"
            office)
          []))
    ≡ assert_reviewer_scope 2 1 remote 7 office
scope_for-assert_reviewer_scope_example = scope_for-assert_reviewer_scope 2 1 remote 7 office refl
