-- ===== src/Idempotency/Replay.antt =====
-- What a retry is answered once the handler has responded (src/middleware/idempotency.ts).
use attenda_api.Base.{
  ℕ, ◌<◌, ◌≤◌, ◌≡◌, refl, ◌∙◌, String, Bool, true, false, ◌&&◌, ◌||◌, Option, some, ◌==◌, ltb, leb,
  ==_refl, Table, find_first, find_by-update_by, str_eq, arith,
}
use attenda_api.Idempotency.Once.{begin_alive}
use attenda_api.Idempotency.{
  completed, IdempotencyRecord, refused, outcome_unknown, replayed, Claim, is_for, is_processing,
  existing_outcome, begin, finish, unknown_row,
}

module _ (records : Table IdempotencyRecord) (decrypt : String → Option String) where
  open records use {rows}

  updated_find :
      (c : Claim) (p : IdempotencyRecord → Bool) (f : IdempotencyRecord → IdempotencyRecord)
      (s : records.State) (r : IdempotencyRecord)
      → ((x : IdempotencyRecord) → is_for c (f x) ≡ is_for c x)
      → find_first records (is_for c) s ≡ some r
      → p r ≡ true
      → find_first records (is_for c) (records.update_many p f s) ≡ some (f r)
  updated_find c p f s r same e h =
      rw (records.rows-update_many p f s)
        (find_by-update_by (is_for c) p f (rows s) same ∙ rw (e) (rw (h) refl))

  -- After a successful response every retry of the same request, until the record expires, is
  -- answered with the same status and body, and changes nothing.
  pub finish-begin_replays :
      (c : Claim) (hash body text : String) (status expires now now' fresh : ℕ) (s : records.State)
      (r : IdempotencyRecord)
      → find_first records (is_for c) s ≡ some r
      → str_eq r.request_hash hash ≡ true
      → 200 ≤ status
      → status < 300
      → decrypt body ≡ some text
      → now' < expires
      → let s' = finish records decrypt r.id status (some body) expires now s in
        begin records decrypt c hash now' fresh s' ≡ (s', replayed status text)
  finish-begin_replays c hash body text status expires now now' fresh s r f same low high readable
        alive =
      completed_begin (finish records decrypt r.id status (some body) expires now s) (
        unfold finish in
        rw (bad_status) (updated_find c (λ x. x.id == r.id) _ s r (λ x. refl) f (==_refl r.id)))
    where
      bad_status : (ltb status 200 || leb 300 status) ≡ false
      bad_status = ground (arith, low, high)

      nonzero : (status == 0) ≡ false
      nonzero = ground (arith, low)

      completed_begin :
          (s' : records.State)
          → find_first records (is_for c) s'
            ≡ some (record r {
              state = completed;
              status_code = some status;
              response_body = body;
              expires_at = expires;
              updated_at = now;
            })
          → begin records decrypt c hash now' fresh s' ≡ (s', replayed status text)
      completed_begin s' g =
          begin_alive records decrypt c hash now' fresh s' _ g (ground (arith, alive)) refl
          ∙ unfold existing_outcome in rw (same, nonzero, readable) refl

  -- After a server error the outcome stays unknown: every retry until the record expires is refused
  -- and changes nothing.
  pub finish-begin_unknown :
      (c : Claim) (hash : String) (stored : Option String) (status expires now now' fresh : ℕ)
      (s : records.State) (r : IdempotencyRecord)
      → find_first records (is_for c) s ≡ some r
      → str_eq r.request_hash hash ≡ true
      → is_processing r.state ≡ true
      → 500 ≤ status
      → now' < r.expires_at
      → let s' = finish records decrypt r.id status stored expires now s in
        begin records decrypt c hash now' fresh s' ≡ (s', refused outcome_unknown)
  finish-begin_unknown c hash stored status expires now now' fresh s r f same busy failed alive =
      unknown_begin (finish records decrypt r.id status stored expires now s) (
        unfold finish in
        rw (bad_status, server_error)
          (updated_find c (λ x. x.id == r.id && is_processing x.state) (unknown_row now) s r
            (λ x. refl) f (ground (arith, ==_refl r.id, busy))))
    where
      bad_status : (ltb status 200 || leb 300 status) ≡ true
      bad_status = ground (arith, failed)

      server_error : ltb status 500 ≡ false
      server_error = ground (arith, failed)

      unknown_begin :
          (s' : records.State)
          → find_first records (is_for c) s' ≡ some (unknown_row now r)
          → begin records decrypt c hash now' fresh s' ≡ (s', refused outcome_unknown)
      unknown_begin s' g =
          begin_alive records decrypt c hash now' fresh s' (unknown_row now r) g
            (ground (arith, alive)) refl
          ∙ unfold existing_outcome in rw (same) refl
