-- ===== src/Usage/Limit.antt =====
-- The monthly limit (reserveWhatsAppAttempt of src/services/whatsappUsage.ts) is never exceeded.
use attenda_api.Base.{
  ℕ, ◌+◌, ◌≤◌, ◌≡◌, inl, inr, Bool, true, false, ◌&&◌, Option, none, some, if◌then◌else◌, is_some,
  All, All-append, All-update_by, Bool-cases, ltb, leb, Table, find_first, arith,
}
use attenda_api.Usage.{
  WhatsAppPolicy, WhatsAppUsagePeriod, AlertKind, threshold, limit, is_period, set_alerted,
  add_message, may_reserve, open_period, reserve_message, messages_of, notify_whats_app_admins,
  alert_admins, alert_threshold, reserve_whats_app_attempt,
}

module _ (periods : Table WhatsAppUsagePeriod) (policy : WhatsAppPolicy)
    (max_messages start : ℕ) where
  open periods use {rows}

  abbrev pub IsWithin : periods.State → Type 0
  IsWithin s =
      All (λ p. (if is_period policy.id start p then p.messages_reserved else 0) ≤ max_messages)
        (rows s)

  open_period-IsWithin :
      (s : periods.State) → IsWithin s → IsWithin (open_period periods policy.id start s)
  unfolding open_period
  open_period-IsWithin s h =
      elim (Bool-cases (is_some (find_first periods (is_period policy.id start) s))) [
        | inl e ↦ rw e h
        | inr e ↦ rw e (rw (periods.rows-create _ s) (All-append _ (rows s) _ h (ground arith, tt)))
      ]

  notify-IsWithin :
      (kind : AlertKind) (now : ℕ) (s : periods.State)
      → IsWithin s
      → IsWithin (notify_whats_app_admins periods policy.id start kind now s)
  unfolding notify_whats_app_admins
  notify-IsWithin threshold now s h =
      rw (periods.rows-update_many _ _ s)
        (All-update_by _ _ (set_alerted threshold now) (rows s) (λ p w e. w) h)
  notify-IsWithin limit now s h =
      rw (periods.rows-update_many _ _ s)
        (All-update_by _ _ (set_alerted limit now) (rows s) (λ p w e. w) h)

  alert_admins-IsWithin :
      (now : ℕ) (o : Option ℕ) (used : ℕ) (s : periods.State)
      → IsWithin s
      → IsWithin (alert_admins periods policy start now o used s)
  unfolding alert_admins
  alert_admins-IsWithin now none used s h = h
  alert_admins-IsWithin now (some n) used s h = chosen (leb n used) limit _ (
      chosen
        (ltb (alert_threshold n policy.wa_alert_threshold_percent) n
          && leb (alert_threshold n policy.wa_alert_threshold_percent) used)
        threshold s h)
    where
      chosen :
          (b : Bool) (kind : AlertKind) (s : periods.State)
          → IsWithin s
          → IsWithin (if b then notify_whats_app_admins periods policy.id start kind now s else s)
      chosen true kind s h = notify-IsWithin kind now s h
      chosen false kind s h = h

  reserve_message-IsWithin :
      (s : periods.State)
      → policy.wa_monthly_message_limit ≡ some max_messages
      → IsWithin s
      → IsWithin (reserve_message periods policy start s)
  unfolding reserve_message
  reserve_message-IsWithin s e h =
      rw
        (periods.rows-update_many (may_reserve periods policy start)
          (add_message policy.wa_estimated_cost_per_message)
          (open_period periods policy.id start s))
        (All-update_by _ (may_reserve periods policy start)
          (add_message policy.wa_estimated_cost_per_message)
          (rows (open_period periods policy.id start s))
          (λ p w m. added policy.wa_estimated_cost_per_message p (room p m))
          (open_period-IsWithin s h))
    where
      room :
          (p : WhatsAppUsagePeriod)
          → may_reserve periods policy start p ≡ true
          → p.messages_reserved + 1 ≤ max_messages
      room p m = ground (arith, e, m)

      added :
          (cost : Option ℕ) (p : WhatsAppUsagePeriod)
          → p.messages_reserved + 1 ≤ max_messages
          → (if is_period policy.id start (add_message cost p)
              then (add_message cost p).messages_reserved
              else 0)
            ≤ max_messages
      added none p r = ground (arith, r)
      added (some c) p r = ground (arith, r)

  -- The monthly limit holds: where an organization's month has at most as many messages as its limit,
  -- it has so after any attempt to reserve a message too, alerts included.
  pub reserve_whats_app_attempt-IsWithin :
      (now : ℕ) (s : periods.State)
      → policy.wa_monthly_message_limit ≡ some max_messages
      → IsWithin s
      → IsWithin (reserve_whats_app_attempt periods policy start now s).0
  unfolding reserve_whats_app_attempt
  reserve_whats_app_attempt-IsWithin now s e h =
      alert_admins-IsWithin now policy.wa_monthly_message_limit
        (messages_of
          (find_first periods (is_period policy.id start) (reserve_message periods policy start s)))
        (reserve_message periods policy start s) (reserve_message-IsWithin s e h)
