-- ===== src/Webhooks/Tests.antt =====
-- A hook at the edge of being disabled, with a delivery that is due, over list tables.
use attenda_api.Base.{
  ℕ, ◌≡◌, refl, true, false, not, ◌&&◌, none, some, [], ◌∷◌, String, ◌==◌, leb, list_table,
  find_first,
}
use attenda_api.Webhooks.{
  dead_letter, OrgWebhook, Delivery, queued, attempt_queued_delivery, note_failure,
  dispatch_org_webhooks, Store,
}
use attenda_api.Webhooks.Attempts.{attempt-outcome, attempt_again}
use attenda_api.Webhooks.Dispatch.{dispatch_again}
use attenda_api.Webhooks.Hooks.{note_failure-hook}

abbrev shaky : OrgWebhook
shaky = record {
  id = 5;
  org_id = 2;
  url = "https://example.test/hook";
  secret = "s";
  previous_secret = none;
  previous_secret_expires_at = none;
  events = "leave_changed" ∷ [];
  is_active = true;
  last_success_at = none;
  last_failure_at = none;
  failure_count = 19;
}

abbrev waiting : Delivery
waiting = record {
  id = 1;
  webhook_id = some 5;
  outbox_event_id = none;
  org_id = 2;
  event = "leave_changed";
  schema_version = 1;
  endpoint_url = "https://example.test/hook";
  payload = "{}";
  signature = "sig";
  previous_signature = none;
  previous_signature_expires_at = none;
  status = queued;
  attempts = 7;
  next_attempt_at = 900000;
  last_attempt_at = none;
  delivered_at = none;
  response_status = none;
  failed = false;
  updated_at = 900000;
}

abbrev world : Store (list_table OrgWebhook) (list_table Delivery)
world = (shaky ∷ [], waiting ∷ [])

attempt-outcome_example :
    (r : Delivery) × (find_first
        (list_table Delivery)
        (λ r. r.id == 1)
        (attempt_queued_delivery
          (list_table OrgWebhook)
          (list_table Delivery)
          1
          1000000
          (some 503)
          world).0.1
      ≡ some r)
    × (r.attempts ≡ 8)
    × (r.response_status ≡ some 503)
    × (r.status ≡ dead_letter)
    × (r.delivered_at ≡ none)
    × (r.next_attempt_at ≡ 4840000)
attempt-outcome_example =
    attempt-outcome (list_table OrgWebhook) (list_table Delivery) waiting 1000000 (some 503)
      (shaky ∷ []) (waiting ∷ []) refl refl

attempt_again_example :
    let s' =
      (attempt_queued_delivery
        (list_table OrgWebhook)
        (list_table Delivery)
        1
        1000000
        none
        world).0 in
    attempt_queued_delivery (list_table OrgWebhook) (list_table Delivery) 1 1000000 (some 200) s'
    ≡ (s', false)
attempt_again_example =
    attempt_again (list_table OrgWebhook) (list_table Delivery) 1 1000000 none (some 200) world

abbrev plain_sign : String → String → String
plain_sign secret body = body

abbrev dispatched :
    ℕ
    → ℕ
    → Store (list_table OrgWebhook) (list_table Delivery)
    → Store (list_table OrgWebhook) (list_table Delivery)
dispatched fresh now s =
    dispatch_org_webhooks (list_table OrgWebhook) (list_table Delivery) plain_sign (λ h. "{}")
      (λ h. fresh) 2 "leave_changed" (some 70) 1 now s

dispatch_again_example :
    dispatched 12 2000000 (dispatched 11 1000000 world) ≡ dispatched 11 1000000 world
dispatch_again_example =
    dispatch_again (list_table OrgWebhook) (list_table Delivery) 70 plain_sign (λ h. "{}")
      (λ h. "{}") (λ h. 11) (λ h. 12) 2 "leave_changed" 1 1 1000000 2000000 world

note_failure-hook_example :
    (h' : OrgWebhook) × (find_first
        (list_table OrgWebhook)
        (λ r. r.id == 5)
        (note_failure (list_table OrgWebhook) (list_table Delivery) (some 5) 1000000 (shaky ∷ [])).0
      ≡ some h')
    × (h'.failure_count ≡ 20)
    × (h'.is_active ≡ (true && not (leb 20 20)))
note_failure-hook_example =
    note_failure-hook (list_table OrgWebhook) (list_table Delivery) 5 1000000 (shaky ∷ []) shaky
      refl
