-- ===== src/Notify/Tests.antt =====
-- A batch with a push, a muted type and a digest, over a list table.
use attenda_api.Base.{
  ℕ, ◌+◌, ◌*◌, ◌/◌, ◌%◌, ◌≡◌, refl, String, Bool, true, false, none, some, List, [], ◌∷◌, map, All,
  list_table, arith,
}
use attenda_api.Notify.{
  Channel, push, email, Category, attendance, requests, payroll, queued, NotificationDelivery,
  QuietHours, Profile, Zone, World, delivered, category_for, quiet_hours_end, send_one,
  send_email_digest, deliver_item, deliver_all, deliver_notification_batch,
}
use attenda_api.Notify.Send.{send_one_twice}
use attenda_api.Notify.Allowed.{is_allowed, deliver_notification_batch-allowed}

abbrev utc : Zone
utc = record {
  local_day = λ at. at / 86400000;
  local_minute = λ at. at / 60000 % 1440;
  from_local = λ day minute. day * 86400000 + minute * 60000;
}

-- From ten in the evening to eight in the morning.
abbrev night : QuietHours
night = record { enabled = true; start = 1320; end = 480 }

evening :
    quiet_hours_end utc night (20 * 86400000 + 1400 * 60000) ≡ some (21 * 86400000 + 480 * 60000)
unfolding quiet_hours_end
evening = refl

morning : quiet_hours_end utc night (20 * 86400000 + 60000) ≡ some (20 * 86400000 + 480 * 60000)
unfolding quiet_hours_end
morning = refl

noon : quiet_hours_end utc night (20 * 86400000 + 720 * 60000) ≡ none
unfolding quiet_hours_end
noon = refl

nudge : category_for "midday_nudge" ≡ some attendance
unfolding category_for
nudge = refl

override : category_for "leave_checkin_override" ≡ some attendance
unfolding category_for
override = refl

leave_type : category_for "leave_approved" ≡ some requests
unfolding category_for
leave_type = refl

other_type : category_for "kudos_received" ≡ none
unfolding category_for
other_type = refl

abbrev is_not_payroll : Category → Bool
is_not_payroll payroll = false
is_not_payroll _ = true

abbrev profile : Profile
profile = record {
  is_active = true;
  has_email = true;
  has_whatsapp = false;
  prefs = record {
    channels = λ c. true;
    categories = is_not_payroll;
    has_digest = true;
    quiet_hours = night;
  };
}

abbrev world : World
world = record {
  profile = λ user. profile;
  zone = λ org. utc;
  is_push_configured = true;
  answer = λ id. delivered;
  digest_sent = λ user. true;
}

abbrev delivery : ℕ → String → Channel → NotificationDelivery
delivery id type channel = record {
  id = id;
  org_id = 2;
  user_id = 7;
  event_type = type;
  channel = channel;
  status = queued;
  attempts = 0;
  available_at = 1000;
  has_error = false;
  sent_at = none;
  created_at = id;
  updated_at = 1000;
}

abbrev deliveries : List NotificationDelivery
deliveries =
    delivery 1 "leave_approved" push
    ∷ delivery 2 "payslip_ready" push
    ∷ delivery 3 "shift_changed" email
    ∷ delivery 4 "payslip_ready" email
    ∷ []

abbrev noon_ms : ℕ
noon_ms = 43200000

delivered_ids :
    map
      (λ d. d.id)
      (deliver_notification_batch (list_table NotificationDelivery) world noon_ms deliveries).1
    ≡ 1 ∷ 3 ∷ []
unfolding deliver_notification_batch deliver_all deliver_item send_one send_email_digest
    quiet_hours_end category_for
delivered_ids = refl

deliver_notification_batch-allowed_example :
    All
      (λ d. is_allowed world noon_ms d ≡ true)
      (deliver_notification_batch (list_table NotificationDelivery) world noon_ms deliveries).1
deliver_notification_batch-allowed_example =
    deliver_notification_batch-allowed (list_table NotificationDelivery) world noon_ms deliveries

-- The push is sent; an hour later a worker that still holds the row does not send it again.
send_one_twice_example :
    let s' =
      (send_one
        (list_table NotificationDelivery)
        world
        noon_ms
        (delivery 1 "leave_approved" push)
        deliveries).0 in
    send_one
      (list_table NotificationDelivery)
      world
      (noon_ms + 3600000)
      (delivery 1 "leave_approved" push)
      s'
    ≡ (s', [])
send_one_twice_example =
    send_one_twice (list_table NotificationDelivery) world world noon_ms (noon_ms + 3600000)
      (delivery 1 "leave_approved" push) (delivery 1 "leave_approved" push) deliveries refl
      (omega arith) refl
