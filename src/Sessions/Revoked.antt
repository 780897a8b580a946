-- ===== src/Sessions/Revoked.antt =====
-- A token that rotates, a session that was revoked, and tokens that no row knows
-- (src/services/refreshTokens.ts).
use attenda_api.Base.{
  ℕ, ◌≤◌, ◌<◌, ◌≡◌, ◌≢◌, refl, ◌∙◌, sym, ap, subst, true, false, not, ◌&&◌, Option, none, some, inl,
  inr, List, [], ◌∷◌, All, update_by, count_by, find_by, is_some, ◌==◌, arith, Table, Bool-cases,
  Option-cases, ==_iff, ==_refl, count, find_by-update_by, find_by-append,
}
use mathlib.Core.Bool.{false≢true}
use attenda_api.Sessions.{
  RefreshToken, UserSession, Claims, Jwt, Redis, Store, Rotated, ok, err, session_revoked, is_live,
  is_blocked, consume, issue_refresh_token, revoke_session, rotate_row, rotate_legacy,
  rotate_refresh_token, find_token,
}
use attenda_api.Sessions.Reuse.{rotate-found, rotate_row-live, rotate_row-blocked, issue-decode}
use attenda_api.Sessions.Rotation.{found-key}

count_found :
    (row : RefreshToken) (ts : List RefreshToken)
    → find_by (λ t. t.id == row.id) ts ≡ some row
    → is_live row ≡ true
    → 0 < count_by (λ t. t.id == row.id && is_live t) ts
count_found row [] f u = cc
count_found row (t ∷ ts) f u = elim (Bool-cases (t.id == row.id)) [
  | inl e ↦ ground (arith, f, u, e)
  | inr e ↦ ground (arith, e, count_found row ts (rw (e) at f) u)
]

session_shut :
    (family user now : ℕ) (ss : List UserSession)
    → All (λ s. s.id ≡ family → s.user_id ≡ user) ss
    → find_by (λ s. (s.id == family && s.user_id == user) && not (is_some s.revoked_at)) ss ≢ none
    → (elim (find_by
        (λ s. s.id == family)
        (update_by
          (λ s. (s.id == family && s.user_id == user) && not (is_some s.revoked_at))
          (λ s. record s { revoked_at = some now })
          ss)) [ none ↦ false | some s ↦ is_some s.revoked_at ])
      ≡ true
session_shut family user now [] keys f = absurd (f refl)
session_shut family user now (s ∷ ss) keys f = elim (Bool-cases (s.id == family)) [
  | inl e ↦ ground (arith, e, keys.0 ((==_iff s.id family).0 e), ==_refl user)
  | inr e ↦ ground (arith, e, session_shut family user now ss keys.1 (rw (e) at f))
]

module _ (tokens : Table RefreshToken) (sessions : Table UserSession) (redis : Redis)
    (jwt : Jwt) where
  consume-found :
      (row : RefreshToken) (successor now : ℕ) (refresh_token : jwt.Token)
      (db : Store tokens sessions redis jwt)
      → find_by (λ t. t.id == row.id) (tokens.rows db.tokens_state) ≡ some row
      → is_live row ≡ true
      → let r = consume tokens sessions redis jwt row successor refresh_token now db in
        (r.1
          ≡ ok (record {
            user_id = row.user_id;
            refresh_token = refresh_token;
            session_id = row.family_id;
          }))
        × (find_token tokens sessions redis jwt (some row.id) r.0
            ≡ some (record row { replaced_by = some successor }))
  unfolding consume
  consume-found row successor now refresh_token db f u = rw (taken) (
    refl,
    rw (tokens.rows-update_many _ _ db.tokens_state) (
        find_by-update_by (λ t. t.id == row.id) (λ t. t.id == row.id && is_live t) _
          (tokens.rows db.tokens_state) (λ t. refl)
        ∙ rw (f) (ground (arith, u, ==_refl row.id))),
  )
    where
      taken : (count tokens (λ t. t.id == row.id && is_live t) db.tokens_state == 0) ≡ false
      taken = ground (arith, count_found row (tokens.rows db.tokens_state) f u)

  issue-find :
      (row : RefreshToken) (now jti fresh : ℕ) (db : Store tokens sessions redis jwt)
      → find_by (λ t. t.id == row.id) (tokens.rows db.tokens_state) ≡ some row
      → find_by
          (λ t. t.id == row.id)
          (tokens.rows
            (issue_refresh_token tokens sessions redis jwt row.user_id
              (some row.family_id)
              none
              now
              jti
              fresh
              db).0.tokens_state)
        ≡ some row
  unfolding issue_refresh_token
  issue-find row now jti fresh db f =
      rw (tokens.rows-create _ db.tokens_state)
        (find_by-append (λ t. t.id == row.id) (tokens.rows db.tokens_state) _ ∙ rw (f) refl)

  -- A verified token whose row is live and not past its expiry, in a family that is not blocked, is
  -- rotated: the caller gets a new token of the same user and family, and from then on the row of
  -- the presented one names the new one as its successor.
  pub rotate_ok :
      (token : jwt.Token) (now jti fresh : ℕ) (db : Store tokens sessions redis jwt)
      (claims : Claims) (row : RefreshToken)
      → jwt.verify token ≡ some claims
      → find_token tokens sessions redis jwt claims.jti db ≡ some row
      → is_blocked tokens sessions redis jwt row.family_id now db ≡ false
      → is_live row ≡ true
      → now ≤ row.expires_at
      → let r = rotate_refresh_token tokens sessions redis jwt token now jti fresh db in
        (r.1
          ≡ ok (record {
            user_id = row.user_id;
            refresh_token =
                jwt.sign (record { sub = row.user_id; jti = some jti; fam = some row.family_id });
            session_id = row.family_id;
          }))
        × (find_token tokens sessions redis jwt (some row.id) r.0
            ≡ some (record row { replaced_by = some jti }))
  rotate_ok token now jti fresh db claims row v f b u h =
      rw (rotate-found tokens sessions redis jwt token now jti fresh db claims row v f) (
        rw (rotate_row-live tokens sessions redis jwt row now jti fresh db b u h) (
          unfold issue_refresh_token in
          consume-found row jti now _ _
            (issue-find row now jti fresh db
              (found-key tokens sessions redis jwt claims.jti db row f))
            u))

  rotate-missing :
      (token : jwt.Token) (now jti fresh : ℕ) (db : Store tokens sessions redis jwt)
      (claims : Claims)
      → jwt.verify token ≡ some claims
      → find_token tokens sessions redis jwt claims.jti db ≡ none
      → rotate_refresh_token tokens sessions redis jwt token now jti fresh db
        ≡ rotate_legacy tokens sessions redis jwt claims now jti fresh db
  unfolding rotate_refresh_token
  rotate-missing token now jti fresh db claims v f =
      rw (v, rotate_refresh_token) (rw (f, rotate_refresh_token) refl)

  -- A token that verifies and has no row is accepted each time it is presented: after it was
  -- accepted once, under new identifiers other than its own, it is accepted again.
  pub rotate_legacy_again :
      (token : jwt.Token) (now jti fresh later jti' fresh' : ℕ)
      (db : Store tokens sessions redis jwt) (claims : Claims)
      → jwt.verify token ≡ some claims
      → find_token tokens sessions redis jwt claims.jti db ≡ none
      → claims.jti ≢ some jti
      → let r = rotate_refresh_token tokens sessions redis jwt token now jti fresh db in
        let r' = rotate_refresh_token tokens sessions redis jwt token later jti' fresh' r.0 in
        ((x : Rotated jwt.Token) × (r.1 ≡ ok x) × (x.user_id ≡ claims.sub))
        × ((x : Rotated jwt.Token) × (r'.1 ≡ ok x)
            × (x.user_id ≡ claims.sub)
            × (x.session_id ≡ fresh'))
  rotate_legacy_again token now jti fresh later jti' fresh' db claims v f ne =
      rw (rotate-missing token now jti fresh db claims v f) (
        rw (rotate-missing token later jti' fresh' _ claims v still) (
          unfold rotate_legacy in
          (
            (_, refl, refl),
            (
              _,
              refl,
              refl,
              rw
                  (issue-decode tokens sessions redis jwt claims.sub none none later jti' fresh'
                    (rotate_legacy tokens sessions redis jwt claims now jti fresh db).0)
                  refl,
            ),
          )))
    where
      unknown :
          (key : Option ℕ)
          → find_token tokens sessions redis jwt key db ≡ none
          → key ≢ some jti
          → find_token tokens sessions redis jwt key
              (issue_refresh_token tokens sessions redis jwt claims.sub none none now jti fresh
                db).0
            ≡ none
      unknown none g n = refl
      unknown (some k) g n =
          unfold issue_refresh_token in
          rw (tokens.rows-create _ db.tokens_state) (
            find_by-append (λ t. t.id == k) (tokens.rows db.tokens_state) _
            ∙ rw (g) (ground (arith, ==_iff jti k, λ (e : jti ≡ k). n (ap some (sym e)))))

      still :
          find_token tokens sessions redis jwt claims.jti
            (rotate_legacy tokens sessions redis jwt claims now jti fresh db).0
          ≡ none
      still = unfold rotate_legacy in unknown claims.jti f ne

  blocks :
      (user family now later : ℕ) (db : Store tokens sessions redis jwt)
      → All (λ s. s.id ≡ family → s.user_id ≡ user) (sessions.rows db.sessions_state)
      → (revoke_session tokens sessions redis jwt user family now db).1 ≡ true
      → is_blocked tokens sessions redis jwt family later
          (revoke_session tokens sessions redis jwt user family now db).0
        ≡ true
  unfolding revoke_session
  blocks user family now later db keys done =
      elim (Option-cases (
        find_by (λ s. (s.id == family && s.user_id == user) && not (is_some s.revoked_at))
          (sessions.rows db.sessions_state))) [
            | inl f ↦ absurd (false≢true (rw (f, revoke_session) at done))
            | inr (s, f) ↦
                rw (f, revoke_session)
                  (rw (sessions.rows-update_many _ _ db.sessions_state) (
                    ground (
                      arith,
                      session_shut family user now (sessions.rows db.sessions_state) keys
                          (rw (f) (λ n. cc)),
                    )))
          ]

  -- Revoking a session of a user succeeds only if it finds it unrevoked; and then, where the
  -- identifier is the session's key, no token of its family rotates any more: the request is
  -- refused and changes nothing.
  pub revoke_session-blocks :
      (user family now later jti fresh : ℕ) (db : Store tokens sessions redis jwt)
      (row : RefreshToken)
      → All (λ s. s.id ≡ family → s.user_id ≡ user) (sessions.rows db.sessions_state)
      → row.family_id ≡ family
      → (revoke_session tokens sessions redis jwt user family now db).1 ≡ true
      → let db' = (revoke_session tokens sessions redis jwt user family now db).0 in
        rotate_row tokens sessions redis jwt row later jti fresh db' ≡ (db', err session_revoked)
  revoke_session-blocks user family now later jti fresh db row keys own done =
      rotate_row-blocked tokens sessions redis jwt row later jti fresh _ (
        subst
          (λ k.
            is_blocked tokens sessions redis jwt k later
              (revoke_session tokens sessions redis jwt user family now db).0
            ≡ true)
          (sym own) (blocks user family now later db keys done))
