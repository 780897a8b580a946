-- ===== src/Outbox/Outcome.antt =====
-- What a worker writes after an event (publishOutboxBatch of src/services/outbox.ts): the outcome
-- of a claim that stands, and nothing without one.
use attenda_api.Base.{
  ℕ, ◌+◌, ◌*◌, ◌-◌, ◌^◌, min, ◌≡◌, refl, ◌∙◌, Bool, true, false, ◌&&◌, not, ◌==◌, if◌then◌else◌,
  none, some, is_some, leb, ltb, Table, find_first, find_by-true, find_by-update_by, arith,
}
use attenda_api.Outbox.{
  OutboxEvent, retry_delay, is_claimable, is_held, has_token, published_row, failed_row, settle,
}

module _ (events : Table OutboxEvent) where
  open events use {rows}

  update-find :
      (id : ℕ) (p : OutboxEvent → Bool) (f : OutboxEvent → OutboxEvent) (s : events.State)
      (e : OutboxEvent)
      → ((x : OutboxEvent) → (f x).id ≡ x.id)
      → find_first events (λ r. r.id == id) s ≡ some e
      → find_first events (λ r. r.id == id) (events.update_many p f s)
        ≡ some (if p e then f e else e)
  update-find id p f s e same h =
      rw (events.rows-update_many p f s)
        (find_by-update_by (λ r. r.id == id) p f (rows s) (λ x. rw (same x) refl) ∙ rw (h) refl)

  -- The outcome is written exactly where the worker's claim still stands and the event
  -- is not published: it is then published, or given the time of its next attempt. Where the claim
  -- was taken by another worker the event is left as it is.
  settle-outcome :
      (token now at : ℕ) (published : Bool) (e r : OutboxEvent) (s : events.State)
      → find_first events (λ x. x.id == e.id) s ≡ some r
      → find_first events (λ x. x.id == e.id) (settle events token now at published e s)
        ≡ some (
            if has_token r.claim_token token && not (is_some r.published_at)
            then (if published then published_row at r else failed_row e.attempts now at r)
            else r)
  unfolding settle
  settle-outcome token now at true e r s f =
      update-find e.id (is_held e.id token) (published_row at) s r (λ x. refl) f
      ∙ rw (find_by-true (λ x. x.id == e.id) (rows s) f) refl
  settle-outcome token now at false e r s f =
      update-find e.id (is_held e.id token) (failed_row e.attempts now at) s r (λ x. refl) f
      ∙ rw (find_by-true (λ x. x.id == e.id) (rows s) f) refl

  -- An event that a worker with a standing claim published is never claimable again, and an event
  -- whose eighth attempt it failed neither. An event that failed its n-th attempt before that is
  -- claimable again from 30 seconds times 2 to the power of n - 1 after the claim on, and in any case
  -- from an hour after it, and not earlier.
  pub settle-claimable :
      (token now at now' : ℕ) (published : Bool) (e r : OutboxEvent) (s : events.State)
      → find_first events (λ x. x.id == e.id) s ≡ some r
      → is_held e.id token r ≡ true
      → r.dead_lettered_at ≡ none
      → r.attempts ≡ e.attempts
      → (r' : OutboxEvent) × (find_first events
            (λ x. x.id == e.id)
            (settle events token now at published e s)
          ≡ some r')
        × (is_claimable now' r' ≡ (
            not published
            && (ltb e.attempts 8 && leb (now + min 3600000 (30000 * 2 ^ (e.attempts - 1))) now')))
  unfolding retry_delay
  settle-claimable token now at now' true e r s f held alive same =
      (_, settle-outcome token now at true e r s f, ground (arith, held, alive, same))
  settle-claimable token now at now' false e r s f held alive same =
      (_, settle-outcome token now at false e r s f, ground (arith, held, alive, same))
