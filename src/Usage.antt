-- ===== src/Usage.antt =====
-- src/services/whatsappUsage.ts: the reservation of outbound messages against a monthly limit. The
-- local month's start, from date-fns-tz, is an argument; costs count ten-thousandths.
pub mod Limit
pub mod Tests
use attenda_api.Base.{
  ℕ, ◌+◌, ◌*◌, ◌-◌, ◌/◌, min, max, Bool, true, false, ◌&&◌, not, Option, none, some, ltb, leb, ◌==◌,
  if◌then◌else◌, is_some, or_default, Table, find_first, count,
}

pub record WhatsAppPolicy : Type 0 where
  pub id : ℕ
  pub wa_monthly_message_limit : Option ℕ
  pub wa_alert_threshold_percent : ℕ
  pub wa_estimated_cost_per_message : Option ℕ

pub record WhatsAppUsagePeriod : Type 0 where
  pub org_id : ℕ
  pub period_start : ℕ
  pub messages_reserved : ℕ
  pub priced_messages : ℕ
  pub estimated_cost : ℕ
  pub threshold_alerted_at : Option ℕ
  pub quota_alerted_at : Option ℕ

pub data AlertKind : Type 0 where
  threshold limit : AlertKind

pub record Reservation : Type 0 where
  pub allowed : Bool
  pub messages_reserved : ℕ
  pub remaining : Option ℕ

abbrev pub is_period : ℕ → ℕ → WhatsAppUsagePeriod → Bool
is_period org start p = p.org_id == org && p.period_start == start

-- `Math.ceil` of the percentage, which is brought between 1 and 100.
unfoldable pub alert_threshold : ℕ → ℕ → ℕ
alert_threshold max_messages percent =
    min max_messages ((max_messages * max 1 (min 100 percent) + 99) / 100)

abbrev pub below : Option ℕ → ℕ → Bool
below none messages = true
below (some max_messages) messages = ltb messages max_messages

abbrev pub add_message : Option ℕ → WhatsAppUsagePeriod → WhatsAppUsagePeriod
add_message none p = record p { messages_reserved = p.messages_reserved + 1 }
add_message (some cost) p = record p {
  messages_reserved = p.messages_reserved + 1;
  priced_messages = p.priced_messages + 1;
  estimated_cost = p.estimated_cost + cost;
}

abbrev pub messages_of : Option WhatsAppUsagePeriod → ℕ
messages_of none = 0
messages_of (some p) = p.messages_reserved

abbrev pub has_alerted : AlertKind → WhatsAppUsagePeriod → Bool
has_alerted threshold p = is_some p.threshold_alerted_at
has_alerted limit p = is_some p.quota_alerted_at

abbrev pub set_alerted : AlertKind → ℕ → WhatsAppUsagePeriod → WhatsAppUsagePeriod
set_alerted threshold now p = record p { threshold_alerted_at = some now }
set_alerted limit now p = record p { quota_alerted_at = some now }

module _ (periods : Table WhatsAppUsagePeriod) where
  -- The alert is claimed by the period that has none yet; the notifications are left out.
  unfoldable pub notify_whats_app_admins : ℕ → ℕ → AlertKind → ℕ → periods.State → periods.State
  notify_whats_app_admins org start kind now s =
      periods.update_many (λ p. is_period org start p && not (has_alerted kind p))
        (set_alerted kind now) s

  -- The upsert, which leaves a period that exists as it is.
  unfoldable pub open_period : ℕ → ℕ → periods.State → periods.State
  open_period org start s =
      if is_some (find_first periods (is_period org start) s)
      then s
      else periods.create
          (record {
            org_id = org;
            period_start = start;
            messages_reserved = 0;
            priced_messages = 0;
            estimated_cost = 0;
            threshold_alerted_at = none;
            quota_alerted_at = none;
          })
          s

  abbrev pub may_reserve : WhatsAppPolicy → ℕ → WhatsAppUsagePeriod → Bool
  may_reserve policy start p =
      is_period policy.id start p && below policy.wa_monthly_message_limit p.messages_reserved

  -- The transaction: the period opened and one message added where the limit allows it.
  unfoldable pub reserve_message : WhatsAppPolicy → ℕ → periods.State → periods.State
  reserve_message policy start s =
      periods.update_many (may_reserve policy start)
        (add_message policy.wa_estimated_cost_per_message) (open_period policy.id start s)

  unfoldable pub alert_admins :
      WhatsAppPolicy → ℕ → ℕ → Option ℕ → ℕ → periods.State → periods.State
  alert_admins policy start now none used s = s
  alert_admins policy start now (some max_messages) used s =
      let warn = alert_threshold max_messages policy.wa_alert_threshold_percent in
      let s' =
        if ltb warn max_messages && leb warn used
        then notify_whats_app_admins policy.id start threshold now s
        else s in
      if leb max_messages used then notify_whats_app_admins policy.id start limit now s' else s'

  abbrev pub remaining_of : Option ℕ → ℕ → Option ℕ
  remaining_of none used = none
  remaining_of (some max_messages) used = some (max_messages - used)

  unfoldable pub reserve_whats_app_attempt :
      WhatsAppPolicy → ℕ → ℕ → periods.State → periods.State × Reservation
  reserve_whats_app_attempt policy start now s =
      let s' = reserve_message policy start s in
      let used = messages_of (find_first periods (is_period policy.id start) s') in
      (
        alert_admins policy start now policy.wa_monthly_message_limit used s',
        record {
          allowed = count periods (may_reserve policy start) (open_period policy.id start s) == 1;
          messages_reserved = used;
          remaining = remaining_of policy.wa_monthly_message_limit used;
        },
      )
