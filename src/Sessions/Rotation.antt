-- ===== src/Sessions/Rotation.antt =====
-- A successful rotation, and the one live token of a family (rotateRefreshToken of
-- src/services/refreshTokens.ts).
use attenda_api.Base.{
  ℕ, ◌+◌, ◌-◌, ◌≤◌, ◌≡◌, refl, ◌∙◌, sym, ap, subst, String, ◌&&◌, Option, none, some, inl, inr,
  List, [], ◌∷◌, All, All-append, find_by, if◌then◌else◌, ◌==◌, arith, Table, Bool-cases,
  Option-cases, ltb, ltb→lt, ==_iff, count_by-append, count, find_by-true, or_default,
}
use attenda_api.Sessions.{
  RefreshToken, UserSession, Claims, Jwt, Redis, Store, is_live, is_blocked, revoke_family, consume,
  issue_refresh_token, rotate_row, rotate_legacy, rotate_refresh_token, find_token,
}
use attenda_api.Sessions.Families.{
  is_live_in, live_count, consume-live_count, consume-live_count_other,
  revoke_family-live_count_list,
}
use attenda_api.Sessions.Reuse.{
  rotate_row-live, rotate_row-reused, rotate_row-blocked, rotate_row-expired,
}

-- The identifier is the key of the token table: a lookup by a row's identifier finds that row.
abbrev pub HasKeys : List RefreshToken → Type 0
HasKeys ts = All (λ t. find_by (λ u. u.id == t.id) ts ≡ some t) ts

same_family :
    (row : RefreshToken) (ts us : List RefreshToken)
    → find_by (λ u. u.id == row.id) us ≡ some row
    → All (λ t. find_by (λ u. u.id == t.id) us ≡ some t) ts
    → All (λ t. t.id ≡ row.id → t.family_id ≡ row.family_id) ts
same_family row [] us f h = tt
same_family row (t ∷ ts) us f h = (
  λ e.
      ap (λ (u : RefreshToken). u.family_id)
        (some_injective (sym (h.0) ∙ ap (λ k. find_by (λ (u : RefreshToken). u.id == k) us) e ∙ f)),
  same_family row ts us f h.1,
)
  where
    some_injective : {a b : RefreshToken} → some a ≡ some b → a ≡ b
    some_injective e = cc

module _ (tokens : Table RefreshToken) (sessions : Table UserSession) (redis : Redis)
    (jwt : Jwt) where
  issue-live_count :
      (family user : ℕ) (given : Option ℕ) (metadata : Option String) (now jti fresh : ℕ)
      (db : Store tokens sessions redis jwt)
      → live_count family (
          tokens.rows
            (issue_refresh_token tokens sessions redis jwt user given metadata now jti fresh
              db).0.tokens_state)
        ≡ live_count family (tokens.rows db.tokens_state)
          + (if or_default given fresh == family then 1 else 0)
  unfolding issue_refresh_token
  issue-live_count family user given metadata now jti fresh db =
      rw (tokens.rows-create _ db.tokens_state)
        (count_by-append (is_live_in family) (tokens.rows db.tokens_state) _ ∙ ground arith)

  revoke_family-live_count :
      (family other now : ℕ) (db : Store tokens sessions redis jwt)
      → live_count other
          (tokens.rows (revoke_family tokens sessions redis jwt family now db).tokens_state)
        ≤ (if family == other then 0 else live_count other (tokens.rows db.tokens_state))
  unfolding revoke_family
  revoke_family-live_count family other now db =
      rw (tokens.rows-update_many _ _ db.tokens_state)
        (revoke_family-live_count_list family other now (tokens.rows db.tokens_state))

  consume-live_count_after :
      (row : RefreshToken) (successor now family : ℕ) (refresh_token : jwt.Token)
      (db : Store tokens sessions redis jwt)
      → All (λ t. t.id ≡ row.id → t.family_id ≡ row.family_id) (tokens.rows db.tokens_state)
      → live_count family (
          tokens.rows
            (consume tokens sessions redis jwt row successor refresh_token now db).0.tokens_state)
        ≤ live_count family (tokens.rows db.tokens_state)
          - (if row.family_id == family then 1 else 0)
  unfolding consume
  consume-live_count_after row successor now family refresh_token db keys =
      elim (Bool-cases (count tokens (λ t. t.id == row.id && is_live t) db.tokens_state == 0)) [
        | inl e ↦ rw e (ground (arith, revoke_family-live_count row.family_id family now db))
        | inr e ↦ rw e (
            rw (tokens.rows-update_many _ _ db.tokens_state)
              (elim (Bool-cases (row.family_id == family)) [
                | inl f ↦ ground (
                  arith,
                  consume-live_count row.id row.family_id successor (tokens.rows db.tokens_state)
                      keys,
                )
                | inr f ↦ ground (
                  arith,
                  consume-live_count_other row.id family successor (tokens.rows db.tokens_state),
                )
              ]))
      ]

  issue-keys :
      (row : RefreshToken) (now jti fresh : ℕ) (db : Store tokens sessions redis jwt)
      → All (λ t. t.id ≡ row.id → t.family_id ≡ row.family_id) (tokens.rows db.tokens_state)
      → All
          (λ t. t.id ≡ row.id → t.family_id ≡ row.family_id)
          (tokens.rows
            (issue_refresh_token tokens sessions redis jwt row.user_id
              (some row.family_id)
              none
              now
              jti
              fresh
              db).0.tokens_state)
  unfolding issue_refresh_token
  issue-keys row now jti fresh db keys =
      rw (tokens.rows-create _ db.tokens_state)
        (All-append _ (tokens.rows db.tokens_state) _ keys (λ e. refl, tt))

  pub found-key :
      (jti : Option ℕ) (db : Store tokens sessions redis jwt) (row : RefreshToken)
      → find_token tokens sessions redis jwt jti db ≡ some row
      → find_by (λ u. u.id == row.id) (tokens.rows db.tokens_state) ≡ some row
  found-key none db row f = cc
  found-key (some jti) db row f =
      subst
        (λ k. find_by (λ (u : RefreshToken). u.id == k) (tokens.rows db.tokens_state) ≡ some row)
        (sym
          ((==_iff row.id jti).0 (find_by-true (λ u. u.id == jti) (tokens.rows db.tokens_state) f)))
        f

  rotate_row-live_count :
      (row : RefreshToken) (now jti fresh family : ℕ) (db : Store tokens sessions redis jwt)
      → All (λ t. t.id ≡ row.id → t.family_id ≡ row.family_id) (tokens.rows db.tokens_state)
      → live_count family
          (tokens.rows (rotate_row tokens sessions redis jwt row now jti fresh db).0.tokens_state)
        ≤ live_count family (tokens.rows db.tokens_state)
  rotate_row-live_count row now jti fresh family db keys =
      elim (Bool-cases (is_blocked tokens sessions redis jwt row.family_id now db)) [
        | inl b ↦
            rw (rotate_row-blocked tokens sessions redis jwt row now jti fresh db b) (omega arith)
        | inr b ↦ (elim (Bool-cases (is_live row)) [
          | inr u ↦
              rw (rotate_row-reused tokens sessions redis jwt row now jti fresh db b u)
                (ground (arith, revoke_family-live_count row.family_id family now db))
          | inl u ↦ (elim (Bool-cases (ltb row.expires_at now)) [
            | inl e ↦
                rw
                  (rotate_row-expired tokens sessions redis jwt row now jti fresh db b u
                    (ltb→lt _ _ e))
                  (omega arith)
            | inr e ↦
                rw
                  (rotate_row-live tokens sessions redis jwt row now jti fresh db b u
                    (ground (arith, e)))
                  (ground (
                    arith,
                    consume-live_count_after row jti now family
                        (issue_refresh_token tokens sessions redis jwt row.user_id
                          (some row.family_id) none now jti fresh db).1
                        (issue_refresh_token tokens sessions redis jwt row.user_id
                          (some row.family_id) none now jti fresh db).0
                        (issue-keys row now jti fresh db keys),
                    issue-live_count family row.user_id (some row.family_id) none now jti fresh db,
                  ))
          ])
        ])
      ]

  -- At most one token of a family is live: where that holds of every family's tokens before a
  -- rotation, the identifiers are keys, and no token carries the new family's identifier, it holds
  -- after it, whichever token was presented and whatever the outcome.
  pub rotate-live_count :
      (token : jwt.Token) (now jti fresh family : ℕ) (db : Store tokens sessions redis jwt)
      → HasKeys (tokens.rows db.tokens_state)
      → live_count fresh (tokens.rows db.tokens_state) ≡ 0
      → live_count family (tokens.rows db.tokens_state) ≤ 1
      → live_count family (
          tokens.rows
            (rotate_refresh_token tokens sessions redis jwt token now jti fresh db).0.tokens_state)
        ≤ 1
  unfolding rotate_refresh_token
  rotate-live_count token now jti fresh family db keys unused one =
      elim (Option-cases (jwt.verify token)) [
        | inl v ↦ rw (v, rotate_refresh_token) one
        | inr (claims, v) ↦
            (elim (Option-cases (find_token tokens sessions redis jwt claims.jti db)) [
              | inl f ↦ rw (v, rotate_refresh_token) (rw (f, rotate_refresh_token) (legacy claims))
              | inr (row, f) ↦
                  rw (v, rotate_refresh_token)
                    (rw (f, rotate_refresh_token)
                      (omega (
                        arith,
                        rotate_row-live_count row now jti fresh family db (
                            same_family row (tokens.rows db.tokens_state)
                              (tokens.rows db.tokens_state) (found-key claims.jti db row f) keys),
                      )))
            ])
      ]
    where
      legacy :
          (claims : Claims)
          → live_count family (
              tokens.rows
                (rotate_legacy tokens sessions redis jwt claims now jti fresh db).0.tokens_state)
            ≤ 1
      legacy claims =
          unfold rotate_legacy in
          ground (
            arith,
            issue-live_count family claims.sub none none now jti fresh db,
            ==_iff fresh family,
            λ (e : fresh ≡ family).
                subst (λ k. live_count k (tokens.rows db.tokens_state) ≡ 0) e unused,
          )
