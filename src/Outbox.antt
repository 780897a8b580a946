-- ===== src/Outbox.antt =====
-- src/services/outbox.ts: publication of the transactional outbox. Whether the notifications, and
-- the bus with the webhooks, take an event is an argument, `true` where they do. The instants are
-- milliseconds, the identifiers numbers.
pub mod Batch
pub mod Outcome
pub mod Tests
use attenda_api.Base.{
  ℕ, ◌+◌, ◌*◌, ◌-◌, ◌^◌, min, max, String, Bool, true, false, ◌&&◌, not, Option, none, some, List,
  [], ◌∷◌, ltb, leb, ◌==◌, if◌then◌else◌, is_some, any, Table, find_many, sort_by, take, str_eq,
  map, length, count,
}

pub record OutboxEvent : Type 0 where
  pub id : ℕ
  pub org_id : ℕ
  pub event_type : String
  pub created_at : ℕ
  pub published_at : Option ℕ
  pub claimed_at : Option ℕ
  pub claim_token : Option ℕ
  pub attempts : ℕ
  pub has_error : Bool
  pub next_attempt_at : ℕ
  pub dead_lettered_at : Option ℕ
  pub schema_version : ℕ

abbrev pub max_attempts : ℕ
max_attempts = 8

-- `claimed_at < now - 5 minutes`, or never claimed.
abbrev pub claim_is_free : ℕ → Option ℕ → Bool
claim_is_free now none = true
claim_is_free now (some at) = ltb at (now - 5 * 60000)

abbrev pub is_pending : OutboxEvent → Bool
is_pending e = not (is_some e.published_at) && not (is_some e.dead_lettered_at)

-- The condition of the claim.
abbrev pub is_claimable : ℕ → OutboxEvent → Bool
is_claimable now e =
    (is_pending e && ltb e.attempts max_attempts)
    && (leb e.next_attempt_at now && claim_is_free now e.claimed_at)

abbrev pub has_token : Option ℕ → ℕ → Bool
has_token none token = false
has_token (some t) token = t == token

abbrev pub claim_row : ℕ → ℕ → OutboxEvent → OutboxEvent
claim_row token now e = record e {
  claimed_at = some now;
  claim_token = some token;
  attempts = e.attempts + 1;
}

-- The condition under which a worker writes an outcome: its claim still stands.
abbrev pub is_held : ℕ → ℕ → OutboxEvent → Bool
is_held id token e = (e.id == id && has_token e.claim_token token) && not (is_some e.published_at)

abbrev pub published_row : ℕ → OutboxEvent → OutboxEvent
published_row at e = record e {
  published_at = some at;
  claimed_at = none;
  claim_token = none;
  has_error = false;
}

unfoldable pub retry_delay : ℕ → ℕ
retry_delay attempts = min (60 * 60000) (30000 * 2 ^ (attempts - 1))

-- `attempts` is the count that the claim returned.
abbrev pub failed_row : ℕ → ℕ → ℕ → OutboxEvent → OutboxEvent
failed_row attempts now at e = record e {
  claimed_at = none;
  claim_token = none;
  has_error = true;
  next_attempt_at = now + retry_delay attempts;
  dead_lettered_at = if leb max_attempts attempts then some at else e.dead_lettered_at;
}

abbrev pub allowed_events : List String
allowed_events =
    "attendance_changed" ∷ "leave_changed" ∷ "overtime_changed" ∷ "remote_changed" ∷ "swap_changed"
    ∷ "expense_changed" ∷ "project_changed" ∷ "shift_changed" ∷ "timesheet_changed" ∷ []

-- The publication of one event, by the notifications or by the bus and the webhooks: `true` where
-- nothing was thrown.
unfoldable pub publish_event : (OutboxEvent → Bool) → (OutboxEvent → Bool) → OutboxEvent → Bool
publish_event notify fan_out e =
    if str_eq e.event_type "notification_requested"
    then notify e
    else if any (λ t. str_eq t e.event_type) allowed_events
    then fan_out e
    else false

module _ (events : Table OutboxEvent) where
  -- The identifiers of the batch, the oldest first.
  abbrev pub picked : ℕ → ℕ → events.State → List OutboxEvent
  picked limit now s =
      take (max 1 (min 500 limit))
        (sort_by (λ e. e.created_at) (find_many events (is_claimable now) s))

  unfoldable pub claim_batch : ℕ → ℕ → ℕ → events.State → events.State × List OutboxEvent
  claim_batch limit token now s =
      let ids = map (λ e. e.id) (picked limit now s) in
      (
        events.update_many (λ e. any (λ id. id == e.id) ids) (claim_row token now) s,
        map (claim_row token now) (picked limit now s),
      )

  -- What the worker writes after one event, `at` being the time of the outcome.
  unfoldable pub settle : ℕ → ℕ → ℕ → Bool → OutboxEvent → events.State → events.State
  settle token now at published e s =
      if published
      then events.update_many (is_held e.id token) (published_row at) s
      else events.update_many (is_held e.id token) (failed_row e.attempts now at) s

  unfoldable pub settle_all :
      ℕ
      → ℕ
      → (OutboxEvent → ℕ)
      → (OutboxEvent → Bool)
      → List OutboxEvent
      → events.State
      → events.State
  settle_all token now clock publish [] s = s
  settle_all token now clock publish (e ∷ batch) s =
      settle_all token now clock publish batch (settle token now (clock e) (publish e) e s)

  unfoldable pub publish_outbox_batch :
      ℕ
      → ℕ
      → ℕ
      → (OutboxEvent → ℕ)
      → (OutboxEvent → Bool)
      → (OutboxEvent → Bool)
      → events.State
      → events.State × ℕ
  publish_outbox_batch limit token now clock notify fan_out s =
      let (s', batch) = claim_batch limit token now s in
      (settle_all token now clock (publish_event notify fan_out) batch s', length batch)
