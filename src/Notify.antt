-- ===== src/Notify.antt =====
-- src/services/notificationDelivery.ts: the queue of notifications to deliver, by push, WhatsApp and
-- mail. What a user prefers, the zone of the organization, and the answers of the providers are
-- arguments. Instants are milliseconds, identifiers numbers. Beside the rows, an operation returns
-- the deliveries that it handed to a provider. The clock of a batch is the instant that it was given.
pub mod Send
pub mod Allowed
pub mod Tests
use attenda_api.Base.{
  ℕ, ◌+◌, ◌*◌, ◌-◌, ◌^◌, min, String, Bool, true, false, ◌&&◌, ◌||◌, not, Option, none, some, List,
  [], ◌∷◌, ◌++◌, ltb, leb, ◌==◌, if◌then◌else◌, is_some, any, map, Table, find_many, count,
  filter_by, sort_by, take, str_eq,
}
use Prim.Native.String.{len, slice}
use text.Mathlib.Text.{starts_with}

pub data Channel : Type 0 where
  push whatsapp email : Channel

pub data Category : Type 0 where
  security attendance requests shifts projects documents payroll announcements : Category

pub data DeliveryStatus : Type 0 where
  queued sending sent failed suppressed : DeliveryStatus

pub record NotificationDelivery : Type 0 where
  pub id : ℕ
  pub org_id : ℕ
  pub user_id : ℕ
  pub event_type : String
  pub channel : Channel
  pub status : DeliveryStatus
  pub attempts : ℕ
  pub available_at : ℕ
  pub has_error : Bool
  pub sent_at : Option ℕ
  pub created_at : ℕ
  pub updated_at : ℕ

-- The hours in which nothing is delivered, in minutes of the day.
pub record QuietHours : Type 0 where
  pub enabled : Bool
  pub start : ℕ
  pub end : ℕ

-- The preferences of a user: a channel or a category is on where it is not set to false.
pub record Prefs : Type 0 where
  pub channels : Channel → Bool
  pub categories : Category → Bool
  pub has_digest : Bool
  pub quiet_hours : QuietHours

pub record Profile : Type 0 where
  pub is_active : Bool
  pub has_email : Bool
  pub has_whatsapp : Bool
  pub prefs : Prefs

-- What date-fns-tz tells of an instant in a zone: its local day and minute, and the instant of a
-- local time.
pub record Zone : Type 0 where
  pub local_day : ℕ → ℕ
  pub local_minute : ℕ → ℕ
  pub from_local : ℕ → ℕ → ℕ

pub data Answer : Type 0 where
  delivered temporary permanent : Answer

-- What surrounds a batch: the users, the zones of organizations, whether push is set up, and the
-- providers' answers to a delivery and to the digest of a user.
pub record World : Type 0 where
  pub profile : ℕ → Profile
  pub zone : ℕ → Zone
  pub is_push_configured : Bool
  pub answer : ℕ → Answer
  pub digest_sent : ℕ → Bool

abbrev pub max_attempts : ℕ
max_attempts = 8

-- `endsWith`
abbrev pub ends_with : String → String → Bool
ends_with s t = leb (len t) (len s) && str_eq (slice s (len s - len t) (len s)) t

-- categoryFor
unfoldable pub category_for : String → Option Category
category_for type =
    if str_eq type "account_locked"
      || (str_eq type "webhook_disabled" || str_eq type "offboarding_access_revoked")
    then some security
    else if starts_with type "attendance_"
        || (starts_with type "late_"
            || (ends_with type "_nudge" || str_eq type "leave_checkin_override"))
    then some attendance
    else if starts_with type "leave_"
        || (starts_with type "remote_"
            || (starts_with type "correction_"
                || (starts_with type "expense_"
                    || (starts_with type "overtime_" || starts_with type "shift_swap_"))))
    then some requests
    else if starts_with type "shift_" || starts_with type "emergency_shift_"
    then some shifts
    else if starts_with type "project_" || starts_with type "timesheet_"
    then some projects
    else if starts_with type "document_" || starts_with type "onboarding_"
    then some documents
    else if str_eq type "payslip_ready"
    then some payroll
    else if str_eq type "announcement"
    then some announcements
    else none

-- Whether an instant lies in the quiet hours, which may go over midnight.
abbrev pub is_quiet : QuietHours → ℕ → Bool
is_quiet q minute =
    if ltb q.start q.end
    then leb q.start minute && ltb minute q.end
    else leb q.start minute || ltb minute q.end

-- quietHoursEnd
unfoldable pub quiet_hours_end : Zone → QuietHours → ℕ → Option ℕ
quiet_hours_end zone q now =
    let minute = zone.local_minute now in
    if not q.enabled
    then none
    else if not (is_quiet q minute)
    then none
    else some (
        zone.from_local
          (if leb q.end q.start && leb q.start minute
            then zone.local_day now + 1
            else zone.local_day now)
          q.end)

abbrev pub category_is_on : Prefs → Option Category → Bool
category_is_on prefs none = true
category_is_on prefs (some c) = prefs.categories c

-- The user takes a notification of this type on this channel.
abbrev pub is_wanted : Profile → NotificationDelivery → Bool
is_wanted u d = category_is_on u.prefs (category_for d.event_type) && u.prefs.channels d.channel

abbrev pub is_queued : DeliveryStatus → Bool
is_queued queued = true
is_queued _ = false

abbrev pub is_sending : DeliveryStatus → Bool
is_sending sending = true
is_sending _ = false

abbrev pub is_email : Channel → Bool
is_email email = true
is_email push = false
is_email whatsapp = false

-- Half a minute, doubled with each attempt, and an hour at most; `n` attempts came before.
abbrev pub backoff : ℕ → ℕ
backoff n = min (60 * 60000) (30000 * 2 ^ min n 7)

abbrev pub is_due : ℕ → NotificationDelivery → Bool
is_due now d = is_queued d.status && leb d.available_at now

abbrev pub is_queued_id : ℕ → NotificationDelivery → Bool
is_queued_id id d = d.id == id && is_queued d.status

abbrev pub claimed_row : ℕ → NotificationDelivery → NotificationDelivery
claimed_row now d = record d { status = sending; attempts = d.attempts + 1; updated_at = now }

abbrev pub sent_row : ℕ → NotificationDelivery → NotificationDelivery
sent_row now d = record d { status = sent; sent_at = some now; has_error = false; updated_at = now }

-- A failed attempt of a delivery that had `attempts` before it.
abbrev pub failed_row : Bool → ℕ → ℕ → NotificationDelivery → NotificationDelivery
failed_row is_permanent attempts now d = record d {
  status = (if is_permanent || leb max_attempts (attempts + 1) then failed else queued);
  available_at = now + backoff attempts;
  has_error = true;
  updated_at = now;
}

abbrev pub suppressed_row : ℕ → NotificationDelivery → NotificationDelivery
suppressed_row now d = record d { status = suppressed; updated_at = now }

abbrev pub deferred_row : ℕ → ℕ → NotificationDelivery → NotificationDelivery
deferred_row now at d = record d { available_at = at; updated_at = now }

-- Whether a delivery gets as far as its provider, and what comes of it.
abbrev pub can_reach : World → NotificationDelivery → Bool
can_reach w d = elim d.channel [
  | push ↦ w.is_push_configured
  | whatsapp ↦ (w.profile d.user_id).has_whatsapp
  | email ↦ (w.profile d.user_id).has_email
]

abbrev pub outcome_row :
    World → NotificationDelivery → ℕ → NotificationDelivery → NotificationDelivery
outcome_row w item now d =
    if can_reach w item
    then (elim (w.answer item.id) [
      | delivered ↦ sent_row now d
      | temporary ↦ failed_row false item.attempts now d
      | permanent ↦ failed_row true item.attempts now d
    ])
    else failed_row true item.attempts now d

module _ (deliveries : Table NotificationDelivery) (w : World) (now : ℕ) where
  abbrev pub is_claimable : ℕ → NotificationDelivery → Bool
  is_claimable id d = d.id == id && is_due now d

  -- sendOne; `item` is the row as the batch read it.
  unfoldable pub send_one :
      NotificationDelivery → deliveries.State → deliveries.State × List NotificationDelivery
  send_one item s = if count deliveries (is_claimable item.id) s == 0 then (s, []) else (
    deliveries.update_many (λ d. d.id == item.id) (outcome_row w item now)
        (deliveries.update_many (is_claimable item.id) (claimed_row now) s),
    if can_reach w item then item ∷ [] else [],
  )

  abbrev pub is_one_of : List NotificationDelivery → NotificationDelivery → Bool
  is_one_of items d = any (λ i. i.id == d.id) items

  abbrev pub is_digest_row : ℕ → ℕ → NotificationDelivery → Bool
  is_digest_row user org d =
      ((d.user_id == user && d.org_id == org) && is_email d.channel) && is_due now d

  abbrev pub update_queued :
      List NotificationDelivery
      → (NotificationDelivery → NotificationDelivery)
      → deliveries.State
      → deliveries.State
  update_queued items f s =
      deliveries.update_many (λ d. is_one_of items d && is_queued d.status) f s

  abbrev pub digest_failed_row : NotificationDelivery → NotificationDelivery
  digest_failed_row d = record d { status = failed; has_error = true; updated_at = now }

  -- The rows of a digest that failed, each by the attempts that it had.
  unfoldable pub fail_digest : List NotificationDelivery → deliveries.State → deliveries.State
  fail_digest [] s = s
  fail_digest (i ∷ is) s = fail_digest is (
      deliveries.update_many (λ d. d.id == i.id && is_sending d.status)
        (failed_row false i.attempts now) s)

  abbrev pub mail_digest :
      ℕ
      → List NotificationDelivery
      → deliveries.State
      → deliveries.State × List NotificationDelivery
  mail_digest user eligible s =
      if count deliveries (λ d. is_one_of eligible d && is_queued d.status) s == 0
      then (s, [])
      else (
        (let claimed = update_queued eligible (claimed_row now) s in
            if w.digest_sent user
            then deliveries.update_many (λ d. is_one_of eligible d && is_sending d.status)
                (sent_row now) claimed
            else fail_digest eligible claimed),
        eligible,
      )

  -- The digest of the rows that the user takes, and the end of the quiet hours where they last.
  abbrev pub digest_at :
      ℕ
      → List NotificationDelivery
      → deliveries.State
      → Option ℕ
      → deliveries.State × List NotificationDelivery
  digest_at user eligible s (some at) = (update_queued eligible (deferred_row now at) s, [])
  digest_at user eligible s none =
      if (w.profile user).has_email
      then mail_digest user eligible s
      else (update_queued eligible digest_failed_row s, [])

  abbrev pub digest_eligible :
      ℕ
      → ℕ
      → List NotificationDelivery
      → deliveries.State
      → deliveries.State × List NotificationDelivery
  digest_eligible user org [] s = (s, [])
  digest_eligible user org (e ∷ es) s =
      digest_at user (e ∷ es) s
        (quiet_hours_end (w.zone org) (w.profile user).prefs.quiet_hours now)

  -- sendEmailDigest
  unfoldable pub send_email_digest :
      ℕ → ℕ → deliveries.State → deliveries.State × List NotificationDelivery
  send_email_digest user org s =
      let rows =
        take 100 (sort_by (λ d. d.created_at) (find_many deliveries (is_digest_row user org) s)) in
      let eligible = filter_by (is_wanted (w.profile user)) rows in
      let unwanted = filter_by (λ d. not (is_one_of eligible d)) rows in
      digest_eligible user org eligible (update_queued unwanted (suppressed_row now) s)

  -- One delivery of a batch, with the users whose digests the batch has processed.
  abbrev pub Step : Type 0
  Step = (deliveries.State × List NotificationDelivery) × List ℕ

  abbrev pub deliver_ready : NotificationDelivery → List ℕ → deliveries.State → Step
  deliver_ready item users s =
      if is_email item.channel && (w.profile item.user_id).prefs.has_digest
      then (if any (λ u. u == item.user_id) users
          then ((s, []), users)
          else (send_email_digest item.user_id item.org_id s, item.user_id ∷ users))
      else (send_one item s, users)

  abbrev pub deliver_at : NotificationDelivery → List ℕ → deliveries.State → Option ℕ → Step
  deliver_at item users s (some at) =
      ((deliveries.update_many (is_queued_id item.id) (deferred_row now at) s, []), users)
  deliver_at item users s none = deliver_ready item users s

  unfoldable pub deliver_item : NotificationDelivery → List ℕ → deliveries.State → Step
  deliver_item item users s =
      let u = w.profile item.user_id in
      if not (u.is_active && is_wanted u item)
      then ((deliveries.update_many (is_queued_id item.id) (suppressed_row now) s, []), users)
      else deliver_at item users s (quiet_hours_end (w.zone item.org_id) u.prefs.quiet_hours now)

  unfoldable pub deliver_all :
      List NotificationDelivery
      → List ℕ
      → deliveries.State
      → deliveries.State × List NotificationDelivery
  deliver_all [] users s = (s, [])
  deliver_all (item ∷ items) users s =
      let one = deliver_item item users s in
      let rest = deliver_all items one.1 one.0.0 in (rest.0, one.0.1 ++ rest.1)

  abbrev pub is_interrupted : NotificationDelivery → Bool
  is_interrupted d = is_sending d.status && leb d.updated_at (now - 10 * 60000)

  abbrev pub recovered_row : NotificationDelivery → NotificationDelivery
  recovered_row d = record d {
    status = queued;
    available_at = now;
    has_error = true;
    updated_at = now;
  }

  -- deliverNotificationBatch
  unfoldable pub deliver_notification_batch :
      deliveries.State → deliveries.State × List NotificationDelivery
  deliver_notification_batch s =
      let recovered = deliveries.update_many is_interrupted recovered_row s in
      deliver_all
        (take 100 (sort_by (λ d. d.available_at) (find_many deliveries (is_due now) recovered))) []
        recovered
