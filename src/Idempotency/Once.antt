-- ===== src/Idempotency/Once.antt =====
-- Two requests with one key do not run their handlers at once (src/middleware/idempotency.ts): the
-- second finds the record of the first.
use attenda_api.Base.{
  leb, ltb, ◌-◌, ◌*◌, ◌==◌, ℕ, ◌+◌, ◌≤◌, ◌≡◌, refl, ◌∙◌, inl, inr, String, Bool, true, false, ◌&&◌,
  Option, none, some, List, [], ◌∷◌, if◌then◌else◌, Bool-cases, Option-cases, ==_refl, Table,
  find_first, find_by-append, str_eq, arith,
}
use attenda_api.Idempotency.{
  State, processing, completed, unknown, IdempotencyRecord, Outcome, refused, in_progress,
  key_reused, proceed, Claim, key_eq, is_for, is_processing, stored_response, by_state,
  existing_outcome, new_record, claim_with, claim, met_record, begin_with, begin,
}

abbrev pub is_proceed : Outcome → Bool
is_proceed (proceed id) = true
is_proceed _ = false

pub key_eq_refl : (key : List ℕ) → key_eq key key ≡ true
unfolding key_eq
key_eq_refl [] = refl
key_eq_refl (c ∷ cs) = ground (arith, ==_refl c, key_eq_refl cs)

existing_outcome-refuses :
    (decrypt : String → Option String) (hash : String) (r : IdempotencyRecord)
    → is_proceed (existing_outcome decrypt hash r) ≡ false
unfolding existing_outcome
existing_outcome-refuses decrypt hash r = elim (Bool-cases (str_eq r.request_hash hash)) [
  | inl e ↦ rw e (by_state-refuses r.state r.status_code)
  | inr e ↦ rw e refl
]
  where
    stored-refuses :
        (code : Option ℕ) → is_proceed (stored_response decrypt code r.response_body) ≡ false
    stored-refuses none = refl
    stored-refuses (some n) = elim (Bool-cases (n == 0)) [
      | inl e ↦ rw e refl
      | inr e ↦ rw e (elim (Option-cases (decrypt r.response_body)) [
        | inl d ↦ rw d refl
        | inr (t, d) ↦ rw d refl
      ])
    ]

    by_state-refuses :
        (state : State) (code : Option ℕ)
        → is_proceed (by_state decrypt state code r.response_body) ≡ false
    by_state-refuses processing code = refl
    by_state-refuses completed code = stored-refuses code
    by_state-refuses unknown code = refl

module _ (records : Table IdempotencyRecord) (decrypt : String → Option String) where
  open records use {rows}

  claim_with-found :
      (c : Claim) (hash : String) (now fresh : ℕ) (s : records.State)
      (found : Option IdempotencyRecord)
      → find_first records (is_for c) s ≡ found
      → is_proceed (claim_with records decrypt c hash now fresh s found).1 ≡ true
      → find_first records (is_for c) (claim_with records decrypt c hash now fresh s found).0
        ≡ some (new_record records decrypt c hash now fresh)
  claim_with-found c hash now fresh s none f p =
      rw (records.rows-create (new_record records decrypt c hash now fresh) s) (
        find_by-append (is_for c) (rows s) (new_record records decrypt c hash now fresh ∷ [])
        ∙ rw (f) (ground (arith, ==_refl c.org_id, ==_refl c.user_id, key_eq_refl c.key)))
  claim_with-found c hash now fresh s (some r) f p = cc (existing_outcome-refuses decrypt hash r, p)

  begin_with-found :
      (c : Claim) (hash : String) (now fresh : ℕ) (s : records.State)
      (met : Option IdempotencyRecord)
      → is_proceed (begin_with records decrypt c hash now fresh (s, met)).1 ≡ true
      → find_first records (is_for c) (begin_with records decrypt c hash now fresh (s, met)).0
        ≡ some (new_record records decrypt c hash now fresh)
  unfolding claim
  begin_with-found c hash now fresh s none p =
      claim_with-found c hash now fresh s (find_first records (is_for c) s) refl p
  begin_with-found c hash now fresh s (some r) p = cc (existing_outcome-refuses decrypt hash r, p)

  pub begin_alive :
      (c : Claim) (hash : String) (now fresh : ℕ) (s : records.State) (r : IdempotencyRecord)
      → find_first records (is_for c) s ≡ some r
      → leb r.expires_at now ≡ false
      → (is_processing r.state && ltb r.updated_at (now - 5 * 60000)) ≡ false
      → begin records decrypt c hash now fresh s ≡ (s, existing_outcome decrypt hash r)
  unfolding begin
  begin_alive c hash now fresh s r f alive busy = rw (f) (rw (alive) (rw (busy) refl))

  -- A request does not run its handler while another request with its key is in work: once a request
  -- was let through, and as long as its outcome was not written, any request with the same key within
  -- the next five minutes changes nothing and is refused, as still processing where it has the same
  -- content, and as a reused key otherwise.
  pub begin_twice :
      (c : Claim) (hash hash' : String) (now now' fresh fresh' : ℕ) (s : records.State)
      → is_proceed (begin records decrypt c hash now fresh s).1 ≡ true
      → now' ≤ now + 300000
      → let s' = (begin records decrypt c hash now fresh s).0 in
        begin records decrypt c hash' now' fresh' s'
        ≡ (s', if str_eq hash hash' then refused in_progress else refused key_reused)
  begin_twice c hash hash' now now' fresh fresh' s p soon =
      held (begin records decrypt c hash now fresh s).0 (
        unfold begin in
        begin_with-found c hash now fresh _
          (met_record records decrypt c now s (find_first records (is_for c) s)).1 p)
    where
      held :
          (s' : records.State)
          → find_first records (is_for c) s' ≡ some (new_record records decrypt c hash now fresh)
          → begin records decrypt c hash' now' fresh' s'
            ≡ (s', if str_eq hash hash' then refused in_progress else refused key_reused)
      held s' f =
          begin_alive c hash' now' fresh' s' (new_record records decrypt c hash now fresh) f
            (ground arith) (ground (arith, soon))
          ∙ unfold existing_outcome in ground arith
