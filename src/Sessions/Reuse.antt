-- ===== src/Sessions/Reuse.antt =====
-- Reuse detection: what a token that was already rotated or revoked sets off
-- (rotateRefreshToken and revokeFamily of src/services/refreshTokens.ts).
use attenda_api.Base.{
  ℕ, ◌≤◌, ◌<◌, ◌≡◌, refl, String, Bool, true, false, not, ◌&&◌, ◌||◌, Option, none, some, List, [],
  ◌∷◌, All, update_by, filter_by, find_many, is_some, ◌==◌, ltb, or_default, arith, Table, count,
  if_keeps, count_by-updated, count_by-append,
}
use attenda_api.Sessions.{
  RefreshToken, UserSession, Result, Rotated, ok, Claims, Jwt, Redis, Store, err, reuse_detected,
  session_revoked, token_expired, is_live, is_blocked, issue_refresh_token, revoke_family, consume,
  rotate_row, rotate_refresh_token, find_token,
}

-- Revoking by a condition on rows leaves no row that meets it unrevoked.
pub revoked-All {ℓ} :
    {A : Type ℓ} (which : A → Bool) (revoked : A → Bool) (f : A → A) (xs : List A)
    → ((x : A) → which (f x) ≡ which x)
    → ((x : A) → revoked (f x) ≡ true)
    → All
        (λ x. revoked x ≡ true)
        (filter_by which (update_by (λ x. which x && not (revoked x)) f xs))
revoked-All which revoked f [] same done = tt
revoked-All which revoked f (x ∷ xs) same done =
    ground (arith, revoked-All which revoked f xs same done, same x, done x)

module _ (tokens : Table RefreshToken) (sessions : Table UserSession) (redis : Redis)
    (jwt : Jwt) where
  -- The tokens and the sessions of a family, and whether Redis blocks it.
  abbrev pub IsShut : ℕ → Store tokens sessions redis jwt → Type 0
  IsShut family db =
      All (λ t. is_some t.revoked_at ≡ true)
        (find_many tokens (λ t. t.family_id == family) db.tokens_state)
      × All (λ s. is_some s.revoked_at ≡ true)
          (find_many sessions (λ s. s.id == family) db.sessions_state)

  pub revoke_family-IsShut :
      (family now : ℕ) (db : Store tokens sessions redis jwt)
      → IsShut family (revoke_family tokens sessions redis jwt family now db)
  unfolding revoke_family
  revoke_family-IsShut family now db = rw (tokens.rows-update_many _ _ db.tokens_state) (
      rw (sessions.rows-update_many _ _ db.sessions_state) (
        revoked-All (λ t. t.family_id == family) (λ t. is_some t.revoked_at) _
            (tokens.rows db.tokens_state) (λ x. refl) (λ x. refl),
        revoked-All (λ s. s.id == family) (λ s. is_some s.revoked_at) _
            (sessions.rows db.sessions_state) (λ x. refl) (λ x. refl),
      ))

  pub issue-decode :
      (user : ℕ) (family : Option ℕ) (metadata : Option String) (now jti fresh : ℕ)
      (db : Store tokens sessions redis jwt)
      → jwt.decode
          (issue_refresh_token tokens sessions redis jwt user family metadata now jti fresh db).1
        ≡ record { sub = user; jti = some jti; fam = some (or_default family fresh) }
  unfolding issue_refresh_token
  issue-decode user family metadata now jti fresh db = jwt.decode-sign _

  module _ (row : RefreshToken) (now jti fresh : ℕ) (db : Store tokens sessions redis jwt) where
    pub rotate_row-blocked :
        is_blocked tokens sessions redis jwt row.family_id now db ≡ true
        → rotate_row tokens sessions redis jwt row now jti fresh db ≡ (db, err session_revoked)
    unfolding rotate_row
    rotate_row-blocked b = rw (b) refl

    pub rotate_row-reused :
        is_blocked tokens sessions redis jwt row.family_id now db ≡ false
        → is_live row ≡ false
        → rotate_row tokens sessions redis jwt row now jti fresh db
          ≡ (revoke_family tokens sessions redis jwt row.family_id now db, err reuse_detected)
    unfolding rotate_row
    rotate_row-reused b u = rw (b) (ground (arith, u))

    pub rotate_row-live :
        is_blocked tokens sessions redis jwt row.family_id now db ≡ false
        → is_live row ≡ true
        → now ≤ row.expires_at
        → let r =
            issue_refresh_token tokens sessions redis jwt row.user_id
              (some row.family_id)
              none
              now
              jti
              fresh
              db in
          rotate_row tokens sessions redis jwt row now jti fresh db
          ≡ consume tokens sessions redis jwt row jti r.1 now r.0
    unfolding rotate_row
    rotate_row-live b u h =
        rw (b, used, early)
          (rw (issue-decode row.user_id (some row.family_id) none now jti fresh db) refl)
      where
        used : (is_some row.revoked_at || is_some row.replaced_by) ≡ false
        used = ground (arith, u)

        early : ltb row.expires_at now ≡ false
        early = ground (arith, h)

    pub rotate_row-expired :
        is_blocked tokens sessions redis jwt row.family_id now db ≡ false
        → is_live row ≡ true
        → row.expires_at < now
        → rotate_row tokens sessions redis jwt row now jti fresh db ≡ (db, err token_expired)
    unfolding rotate_row
    rotate_row-expired b u h = rw (b, used, late) refl
      where
        used : (is_some row.revoked_at || is_some row.replaced_by) ≡ false
        used = ground (arith, u)

        late : ltb row.expires_at now ≡ true
        late = ground (arith, h)

  pub rotate-found :
      (token : jwt.Token) (now jti fresh : ℕ) (db : Store tokens sessions redis jwt)
      (claims : Claims) (row : RefreshToken)
      → jwt.verify token ≡ some claims
      → find_token tokens sessions redis jwt claims.jti db ≡ some row
      → rotate_refresh_token tokens sessions redis jwt token now jti fresh db
        ≡ rotate_row tokens sessions redis jwt row now jti fresh db
  unfolding rotate_refresh_token
  rotate-found token now jti fresh db claims row v f =
      rw (v, rotate_refresh_token) (rw (f, rotate_refresh_token) refl)

  -- A verified token whose row was already rotated or revoked, in a family that is not blocked yet,
  -- is refused as reused, and every token and every session of its family is revoked.
  pub rotate_reused :
      (token : jwt.Token) (now jti fresh : ℕ) (db : Store tokens sessions redis jwt)
      (claims : Claims) (row : RefreshToken)
      → jwt.verify token ≡ some claims
      → find_token tokens sessions redis jwt claims.jti db ≡ some row
      → is_blocked tokens sessions redis jwt row.family_id now db ≡ false
      → is_live row ≡ false
      → let r = rotate_refresh_token tokens sessions redis jwt token now jti fresh db in
        (r.1 ≡ err reuse_detected) × IsShut row.family_id r.0
  rotate_reused token now jti fresh db claims row v f b u =
      rw (rotate-found token now jti fresh db claims row v f) (
        rw (rotate_row-reused row now jti fresh db b u)
          (refl, revoke_family-IsShut row.family_id now db))

  refused_late :
      (row : RefreshToken) (successor now : ℕ) (refresh_token : jwt.Token)
      (db : Store tokens sessions redis jwt)
      → count tokens (λ t. t.id == row.id && is_live t) db.tokens_state ≡ 0
      → let r = consume tokens sessions redis jwt row successor refresh_token now db in
        (r.1 ≡ err reuse_detected) × IsShut row.family_id r.0
  unfolding consume
  refused_late row successor now refresh_token db h =
      rw (h) (refl, revoke_family-IsShut row.family_id now db)

  -- A rotation that claimed its token leaves no live row of it.
  consume-none_live :
      (row : RefreshToken) (successor now : ℕ) (refresh_token : jwt.Token)
      (db : Store tokens sessions redis jwt) (x : Rotated jwt.Token)
      → (consume tokens sessions redis jwt row successor refresh_token now db).1 ≡ ok x
      → count tokens
          (λ t. t.id == row.id && is_live t)
          (consume tokens sessions redis jwt row successor refresh_token now db).0.tokens_state
        ≡ 0
  unfolding consume
  consume-none_live row successor now refresh_token db x =
      if_keeps
        (λ (r : Store tokens sessions redis jwt × Result jwt.Token).
          r.1 ≡ ok x → count tokens (λ t. t.id == row.id && is_live t) r.0.tokens_state ≡ 0)
        (count tokens (λ t. t.id == row.id && is_live t) db.tokens_state == 0) (λ e h. cc)
        (λ e h. rw (tokens.rows-update_many _ _ db.tokens_state) (
          count_by-updated (λ t. t.id == row.id && is_live t) (λ t. t.id == row.id && is_live t)
            (λ t. record t { replaced_by = some successor }) (tokens.rows db.tokens_state)
            (λ x. ground arith) (λ x k. k)))

  issued-none_live :
      (id user : ℕ) (family : Option ℕ) (metadata : Option String) (now jti fresh : ℕ)
      (db : Store tokens sessions redis jwt)
      → (jti == id) ≡ false
      → count tokens (λ t. t.id == id && is_live t) db.tokens_state ≡ 0
      → count tokens
          (λ t. t.id == id && is_live t)
          (issue_refresh_token tokens sessions redis jwt user family metadata now jti fresh
            db).0.tokens_state
        ≡ 0
  unfolding issue_refresh_token
  issued-none_live id user family metadata now jti fresh db apart h =
      rw
        (
          tokens.rows-create _ db.tokens_state,
          count_by-append (λ t. t.id == id && is_live t) (tokens.rows db.tokens_state) _,
          apart,
          h,
        )
        refl

  -- Two requests read the same row of a token. Whichever claims it first and succeeds, the other,
  -- which issues a successor of its own after that and then claims the row that it read, is refused
  -- as reused, and every token and every session of the family is revoked, the successor of the
  -- first among them.
  pub consume_late :
      (row : RefreshToken) (successor now now' jti fresh : ℕ) (refresh_token : jwt.Token)
      (db : Store tokens sessions redis jwt) (x : Rotated jwt.Token)
      → (jti == row.id) ≡ false
      → (consume tokens sessions redis jwt row successor refresh_token now db).1 ≡ ok x
      → let first = (consume tokens sessions redis jwt row successor refresh_token now db).0 in
        let issued =
          issue_refresh_token tokens sessions redis jwt row.user_id
            (some row.family_id)
            none
            now'
            jti
            fresh
            first in
        let second = consume tokens sessions redis jwt row jti issued.1 now' issued.0 in
        (second.1 ≡ err reuse_detected) × IsShut row.family_id second.0
  consume_late row successor now now' jti fresh refresh_token db x apart won =
      refused_late row jti now' _ _ (
        issued-none_live row.id row.user_id (some row.family_id) none now' jti fresh _ apart
          (consume-none_live row successor now refresh_token db x won))
