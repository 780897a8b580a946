-- ===== src/Usage/Tests.antt =====
-- The last message of a month of ten, over a list table.
use attenda_api.Base.{refl, some, none, [], ◌∷◌, list_table, arith}
use attenda_api.Usage.{WhatsAppPolicy, WhatsAppUsagePeriod, reserve_whats_app_attempt}
use attenda_api.Usage.Limit.{IsWithin, reserve_whats_app_attempt-IsWithin}

abbrev plan : WhatsAppPolicy
plan = record {
  id = 2;
  wa_monthly_message_limit = some 10;
  wa_alert_threshold_percent = 80;
  wa_estimated_cost_per_message = none;
}

abbrev month : WhatsAppUsagePeriod
month = record {
  org_id = 2;
  period_start = 500;
  messages_reserved = 9;
  priced_messages = 0;
  estimated_cost = 0;
  threshold_alerted_at = none;
  quota_alerted_at = none;
}

reserve_whats_app_attempt-IsWithin_example :
    IsWithin
      (list_table WhatsAppUsagePeriod)
      plan
      10
      500
      (reserve_whats_app_attempt (list_table WhatsAppUsagePeriod) plan 500 1000000 (month ∷ [])).0
reserve_whats_app_attempt-IsWithin_example =
    reserve_whats_app_attempt-IsWithin (list_table WhatsAppUsagePeriod) plan 10 500 1000000
      (month ∷ []) refl (omega arith, tt)
