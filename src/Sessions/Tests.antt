-- ===== src/Sessions/Tests.antt =====
-- One family with a rotated and a live token, over list tables and a list of Redis keys.
use attenda_api.Base.{
  ℕ, ◌+◌, ◌*◌, ◌≡◌, ◌≤◌, refl, Bool, false, none, some, Option, List, [], ◌∷◌, ltb, ◌==◌,
  if◌then◌else◌, arith, list_table,
}
use attenda_api.Sessions.{
  RefreshToken, UserSession, Claims, Jwt, Redis, Rotated, Result, ok, err, reuse_detected,
  session_revoked, rotate_refresh_token, rotate_row, find_token, consume, issue_refresh_token,
  revoke_session, Store,
}
use attenda_api.Sessions.Families.{live_count}
use attenda_api.Sessions.Reuse.{IsShut, rotate_reused, consume_late}
use attenda_api.Sessions.Rotation.{rotate-live_count}
use attenda_api.Sessions.Revoked.{rotate_ok, rotate_legacy_again, revoke_session-blocks}

abbrev has_key : ℕ → ℕ → List (ℕ × ℕ) → Bool
has_key now key [] = false
has_key now key ((k, until) ∷ s) = if key == k then ltb now until else has_key now key s

abbrev key_list : Redis
key_list = record {
  State = List (ℕ × ℕ);
  has = has_key;
  setex = λ at k secs s. (k, at + secs * 1000) ∷ s;
  has-setex = λ now key at k secs s. refl;
}

-- Tokens as their claims: 1 is the rotated one, 2 the live one, and any other text has no row.
abbrev plain_jwt : Jwt
plain_jwt = record {
  Token = Claims;
  sign = λ c. c;
  verify = some;
  decode = λ c. c;
  decode-sign = λ c. refl;
}

abbrev claims_of : Option ℕ → Claims
claims_of jti = record { sub = 4; jti = jti; fam = some 9 }

abbrev token : ℕ → Option ℕ → RefreshToken
token id next = record {
  id = id;
  user_id = 4;
  family_id = 9;
  expires_at = 5000000;
  revoked_at = none;
  replaced_by = next;
}

abbrev world : Store (list_table RefreshToken) (list_table UserSession) key_list plain_jwt
world = record {
  tokens_state = token 1 (some 2) ∷ token 2 none ∷ [];
  sessions_state =
      record {
        id = 9;
        user_id = 4;
        metadata = "phone";
        created_at = 0;
        last_seen_at = 0;
        expires_at = 5000000;
        revoked_at = none;
      }
      ∷ [];
  redis_state = [];
}

abbrev rotate :
    Option ℕ
    → Store (list_table RefreshToken) (list_table UserSession) key_list plain_jwt × Result Claims
rotate jti =
    rotate_refresh_token (list_table RefreshToken) (list_table UserSession) key_list plain_jwt
      (claims_of jti) 1000000 3 30 world

rotate_reused_example :
    ((rotate (some 1)).1 ≡ err reuse_detected)
    × IsShut
        (list_table RefreshToken)
        (list_table UserSession)
        key_list
        plain_jwt
        9
        (rotate (some 1)).0
rotate_reused_example =
    rotate_reused (list_table RefreshToken) (list_table UserSession) key_list plain_jwt
      (claims_of (some 1)) 1000000 3 30 world (claims_of (some 1)) (token 1 (some 2)) refl refl refl
      refl

consume_late_example :
    let first =
      (consume
        (list_table RefreshToken)
        (list_table UserSession)
        key_list
        plain_jwt
        (token 2 none)
        5
        (claims_of (some 5))
        1000000
        world).0 in
    let issued =
      issue_refresh_token
        (list_table RefreshToken)
        (list_table UserSession)
        key_list
        plain_jwt
        4
        (some 9)
        none
        1000100
        6
        30
        first in
    let second =
      consume
        (list_table RefreshToken)
        (list_table UserSession)
        key_list
        plain_jwt
        (token 2 none)
        6
        issued.1
        1000100
        issued.0 in
    (second.1 ≡ err reuse_detected)
    × IsShut (list_table RefreshToken) (list_table UserSession) key_list plain_jwt 9 second.0
unfolding consume
consume_late_example =
    consume_late (list_table RefreshToken) (list_table UserSession) key_list plain_jwt
      (token 2 none) 5 1000000 1000100 6 30 (claims_of (some 5)) world
      (record { user_id = 4; refresh_token = claims_of (some 5); session_id = 9 }) refl refl

rotate-live_count_example : live_count 9 (rotate (some 2)).0.tokens_state ≤ 1
rotate-live_count_example =
    rotate-live_count (list_table RefreshToken) (list_table UserSession) key_list plain_jwt
      (claims_of (some 2)) 1000000 3 30 9 world (refl, (refl, tt)) refl (omega arith)

rotate_ok_example :
    ((rotate (some 2)).1
      ≡ ok (record { user_id = 4; refresh_token = claims_of (some 3); session_id = 9 }))
    × (find_token
          (list_table RefreshToken)
          (list_table UserSession)
          key_list
          plain_jwt
          (some 2)
          (rotate (some 2)).0
        ≡ some (token 2 (some 3)))
rotate_ok_example =
    rotate_ok (list_table RefreshToken) (list_table UserSession) key_list plain_jwt
      (claims_of (some 2)) 1000000 3 30 world (claims_of (some 2)) (token 2 none) refl refl refl
      refl (omega arith)

rotate_legacy_again_example :
    let r' =
      rotate_refresh_token
        (list_table RefreshToken)
        (list_table UserSession)
        key_list
        plain_jwt
        (claims_of none)
        2000000
        6
        60
        (rotate none).0 in
    ((x : Rotated Claims) × ((rotate none).1 ≡ ok x) × (x.user_id ≡ 4))
    × ((x : Rotated Claims) × (r'.1 ≡ ok x) × (x.user_id ≡ 4) × (x.session_id ≡ 60))
rotate_legacy_again_example =
    rotate_legacy_again (list_table RefreshToken) (list_table UserSession) key_list plain_jwt
      (claims_of none) 1000000 3 30 2000000 6 60 world (claims_of none) refl refl (λ e. cc)

abbrev signed_out :
    Store (list_table RefreshToken) (list_table UserSession) key_list plain_jwt × Bool
signed_out =
    revoke_session (list_table RefreshToken) (list_table UserSession) key_list plain_jwt 4 9 1000000
      world

revoke_session-blocks_example :
    rotate_row
      (list_table RefreshToken)
      (list_table UserSession)
      key_list
      plain_jwt
      (token 2 none)
      9000000
      3
      30
      signed_out.0
    ≡ (signed_out.0, err session_revoked)
unfolding revoke_session
revoke_session-blocks_example =
    revoke_session-blocks (list_table RefreshToken) (list_table UserSession) key_list plain_jwt 4 9
      1000000 9000000 3 30 world (token 2 none) (λ e. refl, tt) refl refl
