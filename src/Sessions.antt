-- ===== src/Sessions.antt =====
-- src/services/refreshTokens.ts: rotating refresh tokens with reuse detection. Instants are
-- milliseconds, identifiers are numbers that are only compared. The clock and the identifiers that
-- `uuidv4` makes are arguments; JSON web tokens, the database and Redis are parameters. A rotation is
-- one step, though the source awaits between the lookup, the new token and the mark on the old one:
-- `consume` on its own is the last of these, for a rotation that another one has overtaken.
pub mod Families
pub mod Reuse
pub mod Rotation
pub mod Revoked
pub mod Tests
use attenda_api.Base.{
  ℕ, ◌+◌, ◌*◌, ◌-◌, ◌/◌, max, String, Bool, true, false, ◌&&◌, ◌||◌, not, Option, none, some, List,
  [], ◌∷◌, length, ltb, leb, ◌==◌, if◌then◌else◌, or_default, is_some, any, filter_by, Table,
  find_many, find_first, count, ◌≡◌,
}

pub record RefreshToken : Type 0 where
  pub id : ℕ
  pub user_id : ℕ
  pub family_id : ℕ
  pub expires_at : ℕ
  pub revoked_at : Option ℕ
  pub replaced_by : Option ℕ

pub record UserSession : Type 0 where
  pub id : ℕ
  pub user_id : ℕ
  pub metadata : String
  pub created_at : ℕ
  pub last_seen_at : ℕ
  pub expires_at : ℕ
  pub revoked_at : Option ℕ

-- The payload of a refresh token: `sub`, `jti` and `fam`.
pub record Claims : Type 0 where
  pub sub : ℕ
  pub jti : Option ℕ
  pub fam : Option ℕ

-- jsonwebtoken: `sign`, `verify` (`none` where it throws) and `decode`, which reads back what was
-- signed.
pub record Jwt : Type 1 where
  pub Token : Type 0
  pub sign : Claims → Token
  pub verify : Token → Option Claims
  pub decode : Token → Claims
  pub decode-sign : (c : Claims) → decode (sign c) ≡ c

-- Redis: a key is there from `SETEX` on until its seconds have passed.
pub record Redis : Type 1 where
  pub State : Type 0
  pub has : ℕ → ℕ → State → Bool
  pub setex : ℕ → ℕ → ℕ → State → State
  pub has-setex :
      (now key at k secs : ℕ) (s : State)
      → has now key (setex at k secs s)
        ≡ (if key == k then ltb now (at + secs * 1000) else has now key s)

pub data AuthError : Type 0 where
  invalid_token session_revoked reuse_detected token_expired : AuthError

pub record Rotated (Token : Type 0) : Type 0 where
  pub user_id : ℕ
  pub refresh_token : Token
  pub session_id : ℕ

pub data Result (Token : Type 0) : Type 0 where
  ok : Rotated Token → Result Token
  err : AuthError → Result Token

abbrev pub refresh_ttl_ms : ℕ
refresh_ttl_ms = 30 * 24 * 60 * 60 * 1000

pub record Db (tokens : Table RefreshToken) (sessions : Table UserSession) (redis : Redis)
    : Type 0 where
  pub tokens_state : tokens.State
  pub sessions_state : sessions.State
  pub redis_state : redis.State

-- A token that was neither rotated nor revoked.
abbrev pub is_live : RefreshToken → Bool
is_live t = not (is_some t.revoked_at) && not (is_some t.replaced_by)

-- A session that can still be used and shown.
abbrev pub is_active : ℕ → UserSession → Bool
is_active now s = not (is_some s.revoked_at) && ltb now s.expires_at

-- `Math.max(1, Math.ceil((expires - now) / 1000))`
abbrev pub seconds_left : ℕ → ℕ → ℕ
seconds_left expires now = max 1 ((expires - now + 999) / 1000)

module _ (tokens : Table RefreshToken) (sessions : Table UserSession) (redis : Redis)
    (jwt : Jwt) where
  abbrev pub Store : Type 0
  Store = Db tokens sessions redis

  -- The session row of a family is made, or kept alive by the two throttled updates.
  unfoldable pub touch_session : ℕ → ℕ → Option String → ℕ → sessions.State → sessions.State
  touch_session user family metadata now s = elim (find_first sessions (λ r. r.id == family) s) [
    | none ↦
        sessions.create
          (record {
            id = family;
            user_id = user;
            metadata = or_default metadata "";
            created_at = now;
            last_seen_at = now;
            expires_at = now + refresh_ttl_ms;
            revoked_at = none;
          })
          s
    | some _ ↦
        sessions.update_many
          (λ r.
            (r.id == family && r.user_id == user && not (is_some r.revoked_at))
            && ltb r.last_seen_at (now - 5 * 60000))
          (λ r. record r { last_seen_at = now })
          (sessions.update_many
            (λ r. r.id == family && r.user_id == user && not (is_some r.revoked_at))
            (λ r. record r {
              metadata = or_default metadata r.metadata;
              expires_at = now + refresh_ttl_ms;
            })
            s)
  ]

  -- `jti` and `fresh_family` are the identifiers that `uuidv4` makes.
  unfoldable pub issue_refresh_token :
      ℕ → Option ℕ → Option String → ℕ → ℕ → ℕ → Store → Store × jwt.Token
  issue_refresh_token user family_id metadata now jti fresh_family db =
      let family = or_default family_id fresh_family in
      (
        record {
          tokens_state =
              tokens.create
                (record {
                  id = jti;
                  user_id = user;
                  family_id = family;
                  expires_at = now + refresh_ttl_ms;
                  revoked_at = none;
                  replaced_by = none;
                })
                db.tokens_state;
          sessions_state = touch_session user family metadata now db.sessions_state;
          redis_state = db.redis_state;
        },
        jwt.sign (record { sub = user; jti = some jti; fam = some family }),
      )

  abbrev pub revoke_tokens : (RefreshToken → Bool) → ℕ → tokens.State → tokens.State
  revoke_tokens which now =
      tokens.update_many (λ t. which t && not (is_some t.revoked_at))
        (λ t. record t { revoked_at = some now })

  abbrev pub revoke_sessions : (UserSession → Bool) → ℕ → sessions.State → sessions.State
  revoke_sessions which now =
      sessions.update_many (λ s. which s && not (is_some s.revoked_at))
        (λ s. record s { revoked_at = some now })

  unfoldable pub revoke_family : ℕ → ℕ → Store → Store
  revoke_family family now db =
      let session = find_first sessions (λ s. s.id == family) db.sessions_state in
      record {
        tokens_state = revoke_tokens (λ t. t.family_id == family) now db.tokens_state;
        sessions_state = revoke_sessions (λ s. s.id == family) now db.sessions_state;
        redis_state = (elim session [
          | none ↦ db.redis_state
          | some s ↦ redis.setex now family (seconds_left s.expires_at now) db.redis_state
        ]);
      }

  -- The marks that `Promise.all` sets for a list of sessions.
  mark_sessions : ℕ → List UserSession → redis.State → redis.State
  mark_sessions now [] r = r
  mark_sessions now (s ∷ ss) r = mark_sessions now ss (redis.setex now s.id (30 * 24 * 60 * 60) r)

  unfoldable pub revoke_all_for_user : ℕ → ℕ → Store → Store
  unfolding mark_sessions
  revoke_all_for_user user now db =
      let found =
        find_many sessions (λ s. s.user_id == user && not (is_some s.revoked_at))
          db.sessions_state in
      record {
        sessions_state = revoke_sessions (λ s. s.user_id == user) now db.sessions_state;
        tokens_state = revoke_tokens (λ t. t.user_id == user) now db.tokens_state;
        redis_state = mark_sessions now found db.redis_state;
      }

  abbrev pub chosen : List UserSession → ℕ → Bool
  chosen found id = any (λ s. s.id == id) found

  unfoldable pub revoke_other_sessions_for_user : ℕ → Option ℕ → ℕ → Store → Store
  unfolding mark_sessions
  revoke_other_sessions_for_user user keep now db =
      let found =
        find_many sessions
          (λ s.
            (s.user_id == user && not (is_some s.revoked_at))
            && (elim keep [ none ↦ true | some k ↦ not (s.id == k) ]))
          db.sessions_state in
      if length found == 0 then db else record {
        sessions_state =
            revoke_sessions (λ s. chosen found s.id && s.user_id == user) now db.sessions_state;
        tokens_state = revoke_tokens (λ t. chosen found t.family_id) now db.tokens_state;
        redis_state = mark_sessions now found db.redis_state;
      }

  unfoldable pub revoke_session : ℕ → ℕ → ℕ → Store → Store × Bool
  revoke_session user family now db =
      elim (find_first sessions
        (λ s. (s.id == family && s.user_id == user) && not (is_some s.revoked_at))
        db.sessions_state) [
          | none ↦ (db, false)
          | some s ↦ (
            record {
              sessions_state =
                  revoke_sessions (λ r. r.id == family && r.user_id == user) now db.sessions_state;
              tokens_state = revoke_tokens (λ t. t.family_id == family) now db.tokens_state;
              redis_state = redis.setex now family (seconds_left s.expires_at now) db.redis_state;
            },
            true,
          )
        ]

  unfoldable pub list_active_sessions : ℕ → ℕ → Store → List UserSession
  list_active_sessions user now db =
      find_many sessions (λ s. s.user_id == user && is_active now s) db.sessions_state

  abbrev pub before : Option ℕ → ℕ → Bool
  before none cutoff = false
  before (some at) cutoff = ltb at cutoff

  unfoldable pub purge_refresh_tokens : ℕ → Store → Store × ℕ
  purge_refresh_tokens now db =
      let cutoff = now - 30 * 24 * 60 * 60 * 1000 in
      let old_token = λ (t : RefreshToken). ltb t.expires_at now || before t.revoked_at cutoff in
      let old_session =
        λ (s : UserSession). ltb s.expires_at cutoff || before s.revoked_at cutoff in
      (
        record db {
          tokens_state = tokens.delete_many old_token db.tokens_state;
          sessions_state = sessions.delete_many old_session db.sessions_state;
        },
        count tokens old_token db.tokens_state + count sessions old_session db.sessions_state,
      )

  -- The conditional update of `rotateRefreshToken`: it claims the token if nobody else did since
  -- it was read, and otherwise revokes the family.
  unfoldable pub consume : RefreshToken → ℕ → jwt.Token → ℕ → Store → Store × Result jwt.Token
  consume row successor refresh_token now db =
      let free = λ (t : RefreshToken). t.id == row.id && is_live t in
      if count tokens free db.tokens_state == 0
      then (revoke_family row.family_id now db, err reuse_detected)
      else (
        record db {
          tokens_state =
              tokens.update_many free (λ t. record t { replaced_by = some successor })
                db.tokens_state;
        },
        ok (record {
          user_id = row.user_id;
          refresh_token = refresh_token;
          session_id = row.family_id;
        }),
      )

  -- `session?.revoked_at || await redis.get(...)`
  abbrev pub is_blocked : ℕ → ℕ → Store → Bool
  is_blocked family now db =
      (elim (find_first sessions (λ s. s.id == family) db.sessions_state) [
        | none ↦ false
        | some s ↦ is_some s.revoked_at
      ])
      || redis.has now family db.redis_state

  unfoldable pub rotate_row : RefreshToken → ℕ → ℕ → ℕ → Store → Store × Result jwt.Token
  rotate_row row now jti fresh_family db =
      if is_blocked row.family_id now db
      then (db, err session_revoked)
      else if is_some row.revoked_at || is_some row.replaced_by
      then (revoke_family row.family_id now db, err reuse_detected)
      else if ltb row.expires_at now
      then (db, err token_expired)
      else (let (db', refresh_token) =
            issue_refresh_token row.user_id (some row.family_id) none now jti fresh_family db in
          consume row (or_default (jwt.decode refresh_token).jti 0) refresh_token now db')

  -- A token that no row knows starts a new family.
  unfoldable pub rotate_legacy : Claims → ℕ → ℕ → ℕ → Store → Store × Result jwt.Token
  rotate_legacy claims now jti fresh_family db =
      let (db', refresh_token) = issue_refresh_token claims.sub none none now jti fresh_family db in
      (
        db',
        ok (record {
          user_id = claims.sub;
          refresh_token = refresh_token;
          session_id = or_default (jwt.decode refresh_token).fam 0;
        }),
      )

  abbrev pub find_token : Option ℕ → Store → Option RefreshToken
  find_token none db = none
  find_token (some jti) db = find_first tokens (λ t. t.id == jti) db.tokens_state

  unfoldable pub rotate_refresh_token : jwt.Token → ℕ → ℕ → ℕ → Store → Store × Result jwt.Token
  rotate_refresh_token token now jti fresh_family db = elim (jwt.verify token) [
    | none ↦ (db, err invalid_token)
    | some claims ↦ (elim (find_token claims.jti db) [
      | none ↦ rotate_legacy claims now jti fresh_family db
      | some row ↦ rotate_row row now jti fresh_family db
    ])
  ]
