-- ===== src/Sessions/Families.antt =====
-- The live tokens of a family, through the operations of src/services/refreshTokens.ts.
use attenda_api.Base.{
  ℕ, ◌+◌, ◌≤◌, ◌≡◌, refl, Bool, not, ◌&&◌, some, List, [], ◌∷◌, All, update_by, count_by, is_some,
  if◌then◌else◌, ◌==◌, arith,
}
use attenda_api.Sessions.{RefreshToken, is_live}

-- A token of the family that can still be rotated.
abbrev pub is_live_in : ℕ → RefreshToken → Bool
is_live_in family t = t.family_id == family && is_live t

abbrev pub live_count : ℕ → List RefreshToken → ℕ
live_count family = count_by (is_live_in family)

-- Claiming a live token of the family takes one live token away at least.
pub consume-live_count :
    (id family successor : ℕ) (ts : List RefreshToken)
    → All (λ t. t.id ≡ id → t.family_id ≡ family) ts
    → live_count family (
          update_by
            (λ t. t.id == id && is_live t)
            (λ t. record t { replaced_by = some successor })
            ts)
        + count_by (λ t. t.id == id && is_live t) ts
      ≡ live_count family ts
consume-live_count id family successor [] h = refl
consume-live_count id family successor (t ∷ ts) h =
    ground (arith, consume-live_count id family successor ts h.1, h.0)

pub consume-live_count_other :
    (id family successor : ℕ) (ts : List RefreshToken)
    → live_count family (
        update_by
          (λ t. t.id == id && is_live t)
          (λ t. record t { replaced_by = some successor })
          ts)
      ≤ live_count family ts
consume-live_count_other id family successor [] = omega arith
consume-live_count_other id family successor (t ∷ ts) =
    ground (arith, consume-live_count_other id family successor ts)

-- Revoking a family leaves it no live token, and no other family more of them.
pub revoke_family-live_count_list :
    (family other now : ℕ) (ts : List RefreshToken)
    → live_count other (
        update_by
          (λ t. t.family_id == family && not (is_some t.revoked_at))
          (λ t. record t { revoked_at = some now })
          ts)
      ≤ (if family == other then 0 else live_count other ts)
revoke_family-live_count_list family other now [] = ground arith
revoke_family-live_count_list family other now (t ∷ ts) =
    ground (arith, revoke_family-live_count_list family other now ts)
