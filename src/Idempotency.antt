-- ===== src/Idempotency.antt =====
-- src/middleware/idempotency.ts: an Idempotency-Key makes a mutation run once. Keys are lists of
-- character codes, already trimmed; bodies and hashes are texts, instants milliseconds. The hash of a
-- request, the anonymous identity, and the decryption of a stored body are arguments.
pub mod Once
pub mod Replay
pub mod Tests
use attenda_api.Base.{
  ℕ, suc, ◌⊎◌, inl, inr, ◌+◌, ◌*◌, ◌-◌, String, Bool, true, false, ◌&&◌, ◌||◌, not, Option, none,
  some, List, [], ◌∷◌, length, all, ltb, leb, ◌==◌, if◌then◌else◌, is_some, find_by, Table,
  find_first, str_eq,
}

pub data State : Type 0 where
  processing completed unknown : State

pub record IdempotencyRecord : Type 0 where
  pub id : ℕ
  pub org_id : ℕ
  pub user_id : ℕ
  pub key : List ℕ
  pub request_hash : String
  pub state : State
  pub status_code : Option ℕ
  pub response_body : String
  pub expires_at : ℕ
  pub updated_at : ℕ

pub data Refusal : Type 0 where
  key_mismatch invalid_key actor_required unauthenticated encryption_unavailable key_reused :
      Refusal
  outcome_unknown in_progress response_unavailable : Refusal

-- What the middleware does with a request: it lets it pass, refuses it, replays a response, or runs
-- the handler under the record with an identifier.
pub data Outcome : Type 0 where
  pass : Outcome
  refused : Refusal → Outcome
  replayed : ℕ → String → Outcome
  proceed : ℕ → Outcome

-- Who sends a request, and its record's key.
pub record Claim : Type 0 where
  pub org_id : ℕ
  pub user_id : ℕ
  pub key : List ℕ

pub record Request : Type 0 where
  -- POST, PUT, PATCH or DELETE.
  pub is_mutation : Bool
  pub header_key : Option (List ℕ)
  pub body_key : Option (List ℕ)
  -- The organization and the user of the session.
  pub user : Option (ℕ × ℕ)
  -- The actor of a public route, trimmed.
  pub anonymous_actor : Option (List ℕ)
  pub hash : String

abbrev pub retention_ms : ℕ
retention_ms = 24 * 60 * 60 * 1000

-- Equality of keys.
unfoldable pub key_eq : List ℕ → List ℕ → Bool
key_eq [] [] = true
key_eq [] (d ∷ ds) = false
key_eq (c ∷ cs) [] = false
key_eq (c ∷ cs) (d ∷ ds) = c == d && key_eq cs ds

-- A letter, a digit, a dot, an underscore, a colon or a hyphen.
abbrev pub is_key_char : ℕ → Bool
is_key_char c =
    (leb 65 c && leb c 90)
    || (leb 97 c && leb c 122)
    || (leb 48 c && leb c 57)
    || c == 46
    || c == 95
    || c == 58
    || c == 45

abbrev pub is_valid_key : List ℕ → Bool
is_valid_key key = leb 8 (length key) && (leb (length key) 128 && all is_key_char key)

abbrev pub is_empty : List ℕ → Bool
is_empty [] = true
is_empty (c ∷ cs) = false

-- `headerKey ?? bodyKey`, after the check that the two agree where both are given and not empty.
abbrev pub keys_clash : Option (List ℕ) → Option (List ℕ) → Bool
keys_clash none b = false
keys_clash (some h) none = false
keys_clash (some h) (some b) = not (is_empty h) && (not (is_empty b) && not (key_eq h b))

abbrev pub raw_key : Option (List ℕ) → Option (List ℕ) → Option (List ℕ)
raw_key (some h) b = some h
raw_key none b = b

-- The identity of a request, or its refusal; `anon` gives the user of an anonymous actor, in the
-- organization `public_org`.
abbrev pub identity : ℕ → (List ℕ → ℕ) → Option (ℕ × ℕ) → Option (List ℕ) → List ℕ → Refusal ⊎ Claim
identity public_org anon (some (org, user)) actor key =
    inr (record { org_id = org; user_id = user; key = key })
identity public_org anon none none key = inl unauthenticated
identity public_org anon none (some []) key = inl actor_required
identity public_org anon none (some (c ∷ cs)) key =
    inr (record { org_id = public_org; user_id = anon (c ∷ cs); key = key })

abbrev pub is_processing : State → Bool
is_processing processing = true
is_processing completed = false
is_processing unknown = false

abbrev pub is_for : Claim → IdempotencyRecord → Bool
is_for c r = (r.org_id == c.org_id && r.user_id == c.user_id) && key_eq r.key c.key

-- The answer to a request whose key has a record already.
abbrev pub stored_response : (String → Option String) → Option ℕ → String → Outcome
stored_response decrypt none body = refused in_progress
stored_response decrypt (some code) body =
    if code == 0 then refused in_progress else (elim (decrypt body) [
      | none ↦ refused response_unavailable
      | some text ↦ replayed code text
    ])

abbrev pub by_state : (String → Option String) → State → Option ℕ → String → Outcome
by_state decrypt unknown code body = refused outcome_unknown
by_state decrypt processing code body = refused in_progress
by_state decrypt completed code body = stored_response decrypt code body

unfoldable pub existing_outcome : (String → Option String) → String → IdempotencyRecord → Outcome
existing_outcome decrypt hash r =
    if not (str_eq r.request_hash hash)
    then refused key_reused
    else by_state decrypt r.state r.status_code r.response_body

abbrev pub unknown_row : ℕ → IdempotencyRecord → IdempotencyRecord
unknown_row now r = record r { state = unknown; updated_at = now }

module _ (records : Table IdempotencyRecord) (decrypt : String → Option String) where
  abbrev pub new_record : Claim → String → ℕ → ℕ → IdempotencyRecord
  new_record c hash now fresh = record {
    id = fresh;
    org_id = c.org_id;
    user_id = c.user_id;
    key = c.key;
    request_hash = hash;
    state = processing;
    status_code = none;
    response_body = "";
    expires_at = now + retention_ms;
    updated_at = now;
  }

  abbrev pub claim_with :
      Claim → String → ℕ → ℕ → records.State → Option IdempotencyRecord → records.State × Outcome
  claim_with c hash now fresh s none =
      (records.create (new_record c hash now fresh) s, proceed fresh)
  claim_with c hash now fresh s (some r) = (s, existing_outcome decrypt hash r)

  -- The creation of the record, which its unique key refuses where another request was faster.
  unfoldable pub claim : Claim → String → ℕ → ℕ → records.State → records.State × Outcome
  claim c hash now fresh s = claim_with c hash now fresh s (find_first records (is_for c) s)

  -- The record that a request meets: an expired one is deleted, and one that has been processing for
  -- more than five minutes is marked as unknown first.
  abbrev pub met_record :
      Claim
      → ℕ
      → records.State
      → Option IdempotencyRecord
      → records.State × Option IdempotencyRecord
  met_record c now s none = (s, none)
  met_record c now s (some r) =
      if leb r.expires_at now
      then (records.delete_many (λ x. x.id == r.id) s, none)
      else if is_processing r.state && ltb r.updated_at (now - 5 * 60000)
      then (let s' =
            records.update_many
              (λ x. (x.id == r.id && is_processing x.state) && x.updated_at == r.updated_at)
              (unknown_row now) s in
          (s', find_first records (is_for c) s'))
      else (s, some r)

  abbrev pub begin_with :
      Claim → String → ℕ → ℕ → records.State × Option IdempotencyRecord → records.State × Outcome
  begin_with c hash now fresh (s, none) = claim c hash now fresh s
  begin_with c hash now fresh (s, some r) = (s, existing_outcome decrypt hash r)

  -- The middleware before the handler, for a claim that is well formed.
  unfoldable pub begin : Claim → String → ℕ → ℕ → records.State → records.State × Outcome
  begin c hash now fresh s =
      begin_with c hash now fresh (met_record c now s (find_first records (is_for c) s))

  abbrev pub begin_for :
      Bool → String → ℕ → ℕ → records.State → Refusal ⊎ Claim → records.State × Outcome
  begin_for available hash now fresh s (inl e) = (s, refused e)
  begin_for available hash now fresh s (inr c) =
      if available then begin c hash now fresh s else (s, refused encryption_unavailable)

  abbrev pub begin_keyed :
      ℕ
      → (List ℕ → ℕ)
      → Bool
      → ℕ
      → ℕ
      → Request
      → records.State
      → Option (List ℕ)
      → records.State × Outcome
  begin_keyed public_org anon available now fresh req s none = (s, pass)
  begin_keyed public_org anon available now fresh req s (some key) =
      if is_empty key
      then (s, pass)
      else if not (is_valid_key key)
      then (s, refused invalid_key)
      else begin_for available req.hash now fresh s
          (identity public_org anon req.user req.anonymous_actor key)

  -- The middleware; `available` is false where a response has to be encrypted and no key is set.
  unfoldable pub apply_idempotency :
      ℕ → (List ℕ → ℕ) → Bool → ℕ → ℕ → Request → records.State → records.State × Outcome
  apply_idempotency public_org anon available now fresh req s =
      if not req.is_mutation
      then (s, pass)
      else if keys_clash req.header_key req.body_key
      then (s, refused key_mismatch)
      else begin_keyed public_org anon available now fresh req s
          (raw_key req.header_key req.body_key)

  -- The response of the handler. `stored` is the body as it is stored, `none` where its encryption
  -- failed or it is larger than 256 KiB.
  unfoldable pub finish : ℕ → ℕ → Option String → ℕ → ℕ → records.State → records.State
  finish id status stored expires now s =
      if ltb status 200 || leb 300 status
      then if ltb status 500
        then records.delete_many (λ x. x.id == id && is_processing x.state) s
        else records.update_many (λ x. x.id == id && is_processing x.state) (unknown_row now) s
      else (elim stored [
        | none ↦ records.update_many (λ x. x.id == id && is_processing x.state) (unknown_row now) s
        | some body ↦
            records.update_many (λ x. x.id == id)
              (λ x. record x {
                state = completed;
                status_code = some status;
                response_body = body;
                expires_at = expires;
                updated_at = now;
              })
              s
      ])
