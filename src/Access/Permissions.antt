-- ===== src/Access/Permissions.antt =====
-- Effective permissions (resolveUserPermissions of src/services/authorization.ts), key by key.
use text.Mathlib.TextEquality.{eq_iff}
use attenda_api.Base.{
  ℕ, ◌≡◌, refl, ap, subst, ◌∙◌, inl, inr, String, Bool, true, false, ◌&&◌, ◌||◌, Option, none, some,
  List, [], ◌∷◌, if◌then◌else◌, is_some, any, any-append, find_by, Bool-cases, str_eq, arith,
}
use attenda_api.Access.{
  UserPermissionGrant, Db, can, set_add, set_delete, role_permission_keys, apply_effect,
  apply_grants, grants_of, is_member, resolve_user_permissions,
}

-- What a grant decides for a key that was held or not before it.
abbrev pub effect_on : String → UserPermissionGrant → Bool → Bool
effect_on key g held =
    if str_eq g.permission_key key
    then (elim g.effect [ none ↦ held | some allow ↦ allow ])
    else held

-- The last grant that names a key, and allows or denies it, decides the key.
abbrev pub decided : String → List UserPermissionGrant → Bool → Bool
decided key [] held = held
decided key (g ∷ gs) held = decided key gs (effect_on key g held)

can-delete :
    (key k : String) (keys : List String)
    → can (set_delete k keys) key ≡ (if str_eq k key then false else can keys key)
unfolding can
can-delete key k [] = ground arith
can-delete key k (x ∷ xs) = elim (Bool-cases (str_eq x k)) [
  | inl e ↦ rw e (can-delete key k xs ∙ dropped ((eq_iff x k).0 e))
  | inr e ↦ rw e (ap-or (can-delete key k xs) ∙ kept e)
]
  where
    dropped :
        x ≡ k
        → (if str_eq k key then false else any (λ y. str_eq y key) xs)
          ≡ (if str_eq k key then false else (str_eq x key || any (λ y. str_eq y key) xs))
    dropped same =
        subst
          (λ k.
            (if str_eq k key then false else any (λ y. str_eq y key) xs)
            ≡ (if str_eq k key then false else (str_eq x key || any (λ y. str_eq y key) xs)))
          same (ground arith)

    ap-or : {a b : Bool} → a ≡ b → (str_eq x key || a) ≡ (str_eq x key || b)
    ap-or e = ground (arith, e)

    kept :
        str_eq x k ≡ false
        → (str_eq x key || (if str_eq k key then false else any (λ y. str_eq y key) xs))
          ≡ (if str_eq k key then false else (str_eq x key || any (λ y. str_eq y key) xs))
    kept differ = elim (Bool-cases (str_eq k key)) [
      | inl e ↦
          rw e (subst (λ z. (str_eq x z || false) ≡ false) ((eq_iff k key).0 e) (rw differ refl))
      | inr e ↦ rw e refl
    ]

can-add :
    (key k : String) (keys : List String)
    → can (set_add k keys) key ≡ (if str_eq k key then true else can keys key)
unfolding can
can-add key k keys = elim (Bool-cases (any (λ x. str_eq x k) keys)) [
  | inl e ↦ rw e (present e)
  | inr e ↦ rw e (any-append (λ x. str_eq x key) keys (k ∷ []) ∙ ground arith)
]
  where
    present :
        any (λ x. str_eq x k) keys ≡ true
        → any (λ x. str_eq x key) keys
          ≡ (if str_eq k key then true else any (λ x. str_eq x key) keys)
    present held = elim (Bool-cases (str_eq k key)) [
      | inl e ↦ rw e (subst (λ z. any (λ x. str_eq x z) keys ≡ true) ((eq_iff k key).0 e) held)
      | inr e ↦ rw e refl
    ]

apply_effect-can :
    (key : String) (g : UserPermissionGrant) (keys : List String)
    → can (apply_effect g.effect g.permission_key keys) key ≡ effect_on key g (can keys key)
unfolding apply_effect
apply_effect-can key g keys = by_effect g.effect
  where
    by_effect :
        (effect : Option Bool)
        → can (apply_effect effect g.permission_key keys) key ≡ (
            if str_eq g.permission_key key
            then (elim effect [ none ↦ can keys key | some allow ↦ allow ])
            else can keys key)
    by_effect none = ground arith
    by_effect (some true) = can-add key g.permission_key keys
    by_effect (some false) = can-delete key g.permission_key keys

apply_grants-can :
    (key : String) (gs : List UserPermissionGrant) (keys : List String)
    → can (apply_grants gs keys) key ≡ decided key gs (can keys key)
unfolding apply_grants
apply_grants-can key [] keys = refl
apply_grants-can key (g ∷ gs) keys =
    apply_grants-can key gs (apply_effect g.effect g.permission_key keys)
    ∙ ap (decided key gs) (apply_effect-can key g keys)

-- Each key of a user's effective permissions is decided by itself: nobody outside the organization,
-- or deleted, has any; otherwise the last grant of the user in the organization that names the key
-- decides, and without one the key is held where the user's role holds it.
pub resolve_user_permissions-can :
    (user org : ℕ) (key : String) (db : Db)
    → can (resolve_user_permissions user org db) key ≡ (
        is_some (find_by (is_member user org) db.users)
        && decided key (grants_of user org db) (can (role_permission_keys user db) key))
unfolding resolve_user_permissions
resolve_user_permissions-can user org key db =
    elim (Bool-cases (is_some (find_by (is_member user org) db.users))) [
      | inl e ↦ rw e (apply_grants-can key (grants_of user org db) (role_permission_keys user db))
      | inr e ↦ rw e (unfold can in refl)
    ]
