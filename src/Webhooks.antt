-- ===== src/Webhooks.antt =====
-- src/services/webhookDelivery.ts: the queue of outbound webhook deliveries. What an endpoint
-- answered is an argument: a status, or `none` for a network error or a timeout. Instants are
-- milliseconds; identifiers are numbers that are only compared.
pub mod Attempts
pub mod Dispatch
pub mod Hooks
pub mod Tests
use attenda_api.Base.{
  ℕ, suc, ◌+◌, ◌*◌, ◌-◌, ◌^◌, min, String, Bool, true, false, ◌&&◌, ◌||◌, not, Option, none, some,
  List, [], ◌∷◌, ltb, leb, ◌==◌, if◌then◌else◌, or_default, is_some, any, Table, find_many,
  find_first, count, str_eq, sort_by, take, length,
}

pub record OrgWebhook : Type 0 where
  pub id : ℕ
  pub org_id : ℕ
  pub url : String
  pub secret : String
  pub previous_secret : Option String
  pub previous_secret_expires_at : Option ℕ
  pub events : List String
  pub is_active : Bool
  pub last_success_at : Option ℕ
  pub last_failure_at : Option ℕ
  pub failure_count : ℕ

pub data Status : Type 0 where
  queued retrying delivering delivered dead_letter : Status

pub record Delivery : Type 0 where
  pub id : ℕ
  pub webhook_id : Option ℕ
  pub outbox_event_id : Option ℕ
  pub org_id : ℕ
  pub event : String
  pub schema_version : ℕ
  pub endpoint_url : String
  pub payload : String
  pub signature : String
  pub previous_signature : Option String
  pub previous_signature_expires_at : Option ℕ
  pub status : Status
  pub attempts : ℕ
  pub next_attempt_at : ℕ
  pub last_attempt_at : Option ℕ
  pub delivered_at : Option ℕ
  pub response_status : Option ℕ
  pub failed : Bool
  pub updated_at : ℕ

abbrev pub auto_disable_threshold : ℕ
auto_disable_threshold = 20

abbrev pub max_delivery_attempts : ℕ
max_delivery_attempts = 8

abbrev pub max_retry_delay_ms : ℕ
max_retry_delay_ms = 6 * 60 * 60 * 1000

unfoldable pub should_auto_disable : ℕ → Bool
should_auto_disable failures = leb auto_disable_threshold failures

abbrev pub streak_reached : Option OrgWebhook → Bool
streak_reached none = false
streak_reached (some h) = should_auto_disable h.failure_count

abbrev pub is_success : Option ℕ → Bool
is_success none = false
is_success (some status) = leb 200 status && ltb status 300

abbrev pub is_waiting : Status → Bool
is_waiting queued = true
is_waiting retrying = true
is_waiting delivering = false
is_waiting delivered = false
is_waiting dead_letter = false

abbrev pub is_delivering : Status → Bool
is_delivering delivering = true
is_delivering _ = false

abbrev pub is_dead : Status → Bool
is_dead dead_letter = true
is_dead _ = false

abbrev pub is_due : ℕ → Delivery → Bool
is_due now d = is_waiting d.status && leb d.next_attempt_at now

-- The backoff after a failed attempt.
unfoldable pub retry_delay : ℕ → ℕ
retry_delay attempts = min (30000 * 2 ^ (attempts - 1)) max_retry_delay_ms

-- The previous secret while it is still accepted; an empty text is falsy.
abbrev pub still_valid : Option String → Option ℕ → ℕ → Option String
still_valid none until now = none
still_valid (some secret) none now = none
still_valid (some secret) (some until) now =
    if not (str_eq secret "") && ltb now until then some secret else none

abbrev pub opt_eq : Option ℕ → Option ℕ → Bool
opt_eq none none = true
opt_eq none (some b) = false
opt_eq (some a) none = false
opt_eq (some a) (some b) = a == b

module _ (hooks : Table OrgWebhook) (deliveries : Table Delivery) where
  abbrev pub Store : Type 0
  Store = hooks.State × deliveries.State

  abbrev pub failed_hook : ℕ → OrgWebhook → OrgWebhook
  failed_hook now h = record h { failure_count = h.failure_count + 1; last_failure_at = some now }

  -- The bookkeeping of a hook whose delivery failed; `true` where the hook is disabled by it and
  -- the administrators are notified.
  unfoldable pub note_failure : Option ℕ → ℕ → hooks.State → hooks.State × Bool
  note_failure none now hs = (hs, false)
  note_failure (some hook) now hs =
      let hs' = hooks.update_many (λ h. h.id == hook) (failed_hook now) hs in
      if streak_reached (find_first hooks (λ h. h.id == hook) hs')
      then (
        hooks.update_many (λ h. h.id == hook && h.is_active) (λ h. record h { is_active = false })
            hs',
        not (count hooks (λ h. h.id == hook && h.is_active) hs' == 0),
      )
      else (hs', false)

  unfoldable pub note_success : Option ℕ → ℕ → hooks.State → hooks.State
  note_success none now hs = hs
  note_success (some hook) now hs =
      hooks.update_many (λ h. h.id == hook)
        (λ h. record h { failure_count = 0; last_success_at = some now }) hs

  abbrev pub claimed_row : ℕ → Delivery → Delivery
  claimed_row now d = record d {
    status = delivering;
    attempts = d.attempts + 1;
    last_attempt_at = some now;
    updated_at = now;
  }

  abbrev pub delivered_row : ℕ → Option ℕ → Delivery → Delivery
  delivered_row now response d = record d {
    status = delivered;
    delivered_at = some now;
    response_status = response;
    failed = false;
    updated_at = now;
  }

  -- `attempts` is the count of the row that was read after the claim.
  abbrev pub failed_row : ℕ → ℕ → Option ℕ → Delivery → Delivery
  failed_row attempts now response d = record d {
    status = if leb max_delivery_attempts attempts then dead_letter else retrying;
    next_attempt_at = now + retry_delay attempts;
    response_status = response;
    failed = true;
    updated_at = now;
  }

  unfoldable pub finish_attempt : Delivery → ℕ → Option ℕ → Store → Store × Bool
  finish_attempt d now response (hs, ds) =
      if is_success response
      then (
        (
          note_success d.webhook_id now hs,
          deliveries.update_many (λ r. r.id == d.id) (delivered_row now response) ds,
        ),
        false,
      )
      else (let (hs', notified) = note_failure d.webhook_id now hs in
          (
            (
              hs',
              deliveries.update_many (λ r. r.id == d.id) (failed_row d.attempts now response) ds,
            ),
            notified,
          ))

  unfoldable pub attempt_queued_delivery : ℕ → ℕ → Option ℕ → Store → Store × Bool
  attempt_queued_delivery id now response (hs, ds) =
      if count deliveries (λ d. d.id == id && is_due now d) ds == 0
      then ((hs, ds), false)
      else (let ds' =
            deliveries.update_many (λ d. d.id == id && is_due now d) (claimed_row now) ds in
          elim (find_first deliveries (λ d. d.id == id) ds') [
            | none ↦ ((hs, ds'), false)
            | some d ↦ finish_attempt d now response (hs, ds')
          ])

  attempt_all : List Delivery → ℕ → (ℕ → Option ℕ) → Store → Store
  attempt_all [] now answers s = s
  attempt_all (d ∷ due) now answers s =
      attempt_all due now answers (attempt_queued_delivery d.id now (answers d.id) s).0

  -- Claims older than ten minutes are taken back first.
  unfoldable pub retry_due_webhook_deliveries : ℕ → (ℕ → Option ℕ) → Store → Store × ℕ
  unfolding attempt_all
  retry_due_webhook_deliveries now answers (hs, ds) =
      let ds' =
        deliveries.update_many (λ d. is_delivering d.status && ltb d.updated_at (now - 10 * 60000))
          (λ d. record d {
            status = retrying;
            next_attempt_at = now;
            failed = true;
            updated_at = now;
          })
          ds in
      let due =
        take 100 (sort_by (λ d. d.next_attempt_at) (find_many deliveries (is_due now) ds')) in
      (attempt_all due now answers (hs, ds'), length due)

  unfoldable pub replay_webhook_delivery : ℕ → ℕ → ℕ → ℕ → Option ℕ → Store → Store × Bool
  replay_webhook_delivery org hook id now response (hs, ds) =
      elim (find_first deliveries
        (λ d.
          ((d.id == id && opt_eq d.webhook_id (some hook)) && d.org_id == org) && is_dead d.status)
        ds) [
          | none ↦ ((hs, ds), false)
          | some d ↦ (
            (attempt_queued_delivery d.id now response (
              hs,
              deliveries.update_many (λ r. r.id == d.id)
                  (λ r. record r {
                    status = queued;
                    attempts = 0;
                    next_attempt_at = now;
                    last_attempt_at = none;
                    failed = false;
                    response_status = none;
                    updated_at = now;
                  })
                  ds,
            )).0,
            true,
          )
        ]

  -- The hooks that a dispatch writes to, and the row that it writes for one of them. `body` is the
  -- JSON text of the event, `sign` the HMAC; new identifiers come from `randomUUID`.
  abbrev pub subscribed : ℕ → String → OrgWebhook → Bool
  subscribed org type h = (h.org_id == org && h.is_active) && any (λ e. str_eq e type) h.events

  abbrev pub new_delivery :
      (String → String → String) → String → Option ℕ → String → ℕ → ℕ → ℕ → OrgWebhook → Delivery
  new_delivery sign body outbox type version now fresh h = record {
    id = fresh;
    webhook_id = some h.id;
    outbox_event_id = outbox;
    org_id = h.org_id;
    event = type;
    schema_version = version;
    endpoint_url = h.url;
    payload = body;
    signature = sign h.secret body;
    previous_signature = (elim (still_valid h.previous_secret h.previous_secret_expires_at now) [
      | none ↦ none
      | some old ↦ some (sign old body)
    ]);
    previous_signature_expires_at =
        (elim (still_valid h.previous_secret h.previous_secret_expires_at now) [
          | none ↦ none
          | some old ↦ h.previous_secret_expires_at
        ]);
    status = queued;
    attempts = 0;
    next_attempt_at = now;
    last_attempt_at = none;
    delivered_at = none;
    response_status = none;
    failed = false;
    updated_at = now;
  }

  -- The unique key of the table: an outbox event and a hook. Null events never collide.
  abbrev pub same_event : Option ℕ → Option ℕ → Delivery → Bool
  same_event outbox hook d =
      is_some outbox && (opt_eq d.outbox_event_id outbox && opt_eq d.webhook_id hook)

  -- `createMany` with `skipDuplicates`.
  unfoldable pub create_skipping :
      (OrgWebhook → Delivery) → List OrgWebhook → deliveries.State → deliveries.State
  create_skipping make [] ds = ds
  create_skipping make (h ∷ hs) ds =
      let d = make h in
      create_skipping make hs (
        if any (same_event d.outbox_event_id d.webhook_id) (deliveries.rows ds)
        then ds
        else deliveries.create d ds)

  unfoldable pub dispatch_org_webhooks :
      (String → String → String)
      → (OrgWebhook → String)
      → (OrgWebhook → ℕ)
      → ℕ
      → String
      → Option ℕ
      → ℕ
      → ℕ
      → Store
      → Store
  dispatch_org_webhooks sign body fresh org type outbox version now (hs, ds) = (
    hs,
    create_skipping (λ h. new_delivery sign (body h) outbox type version now (fresh h) h)
        (find_many hooks (subscribed org type) hs) ds,
  )

  -- The direct delivery: success clears the failures, failure counts one and may disable.
  unfoldable pub deliver_to_webhook : OrgWebhook → ℕ → Option ℕ → hooks.State → hooks.State × Bool
  deliver_to_webhook hook now response hs =
      if is_success response
      then (
        hooks.update_many (λ h. h.id == hook.id)
            (λ h. record h { failure_count = 0; last_success_at = some now }) hs,
        true,
      )
      else (
        hooks.update_many (λ h. h.id == hook.id)
            (λ h. record h {
              failure_count = hook.failure_count + 1;
              last_failure_at = some now;
              is_active =
                  if should_auto_disable (hook.failure_count + 1) then false else h.is_active;
            })
            hs,
        false,
      )
