-- ===== src/Webhooks/Attempts.antt =====
-- One attempt of a queued delivery (attemptQueuedDelivery of src/services/webhookDelivery.ts): its
-- outcome, its backoff, and that it is not made twice.
use native.Mathlib.Nat.{one-le-pow, pow-succ'}
use attenda_api.Base.{
  ℕ, suc, ◌+◌, ◌*◌, ◌-◌, ◌^◌, ◌≤◌, ◌≡◌, refl, ◌∙◌, ap, subst, Bool, true, false, ◌&&◌, Option, none,
  some, inl, inr, find_by, find_first, count, min, if◌then◌else◌, ◌==◌, arith, Table, Bool-cases,
  if_keeps, leb, ==_iff, ==_refl, find_by-true, count_by-found, count_by-updated, count_by-missing,
  &&-left, find_by-update_by,
}
use attenda_api.Webhooks.{
  OrgWebhook, Delivery, delivered, dead_letter, retrying, is_success, is_due, retry_delay,
  claimed_row, delivered_row, failed_row, finish_attempt, attempt_queued_delivery, Store,
}

delay_step :
    (n : ℕ) → min (30000 * 2 ^ suc n) 21600000 ≡ min (2 * min (30000 * 2 ^ n) 21600000) 21600000
delay_step n = rw (pow-succ' 2 n) (omega arith)

-- The backoff of an attempt is at least 30 seconds and at most six hours, and from the first
-- attempt on it doubles with each further attempt until it reaches the six hours.
pub retry_delay_bounds :
    (attempts : ℕ)
    → (30000 ≤ retry_delay attempts)
      × (retry_delay attempts ≤ 21600000)
      × (retry_delay (suc (suc attempts)) ≡ min (2 * retry_delay (suc attempts)) 21600000)
unfolding retry_delay
retry_delay_bounds attempts = (
  omega (arith, one-le-pow (attempts - 1) 2 (omega arith)),
  omega arith,
  cc (
    ap (λ k. min (30000 * 2 ^ k) 21600000) (less (suc attempts)),
    ap (λ k. min (2 * min (30000 * 2 ^ k) 21600000) 21600000) (less attempts),
    delay_step attempts,
  ),
)
  where
    less : (n : ℕ) → suc n - 1 ≡ n
    less n = omega arith

-- An answer with a status from 200 to 299.
abbrev pub answered_200 : Option ℕ → Bool
answered_200 none = false
answered_200 (some status) = leb 200 status && leb status 299

answered : (response : Option ℕ) → answered_200 response ≡ is_success response
answered none = refl
answered (some status) = ground arith

module _ (hooks : Table OrgWebhook) (deliveries : Table Delivery) where
  open deliveries use {rows}

  finish-find :
      (d : Delivery) (now : ℕ) (response : Option ℕ) (s : Store hooks deliveries)
      → find_by (λ r. r.id == d.id) (rows s.1) ≡ some d
      → find_by (λ r. r.id == d.id) (rows (finish_attempt hooks deliveries d now response s).0.1)
        ≡ some (
            if is_success response
            then delivered_row hooks deliveries now response d
            else failed_row hooks deliveries d.attempts now response d)
  unfolding finish_attempt
  finish-find d now response (hs, ds) f = elim (Bool-cases (is_success response)) [
    | inl e ↦ rw e (
        rw (deliveries.rows-update_many _ _ ds) (
          find_by-update_by (λ r. r.id == d.id) (λ r. r.id == d.id) _ (rows ds) (λ x. refl)
          ∙ rw (f) (ground (arith, ==_refl d.id))))
    | inr e ↦ rw e (
        rw (deliveries.rows-update_many _ _ ds) (
          find_by-update_by (λ r. r.id == d.id) (λ r. r.id == d.id) _ (rows ds) (λ x. refl)
          ∙ rw (f) (ground (arith, ==_refl d.id))))
  ]

  claim-find :
      (d : Delivery) (now : ℕ) (ds : deliveries.State)
      → find_by (λ r. r.id == d.id) (rows ds) ≡ some d
      → is_due now d ≡ true
      → find_first deliveries
          (λ r. r.id == d.id)
          (deliveries.update_many
            (λ r. r.id == d.id && is_due now r)
            (claimed_row hooks deliveries now)
            ds)
        ≡ some (claimed_row hooks deliveries now d)
  claim-find d now ds f due = rw (deliveries.rows-update_many _ _ ds) (
      find_by-update_by (λ r. r.id == d.id) (λ r. r.id == d.id && is_due now r) _ (rows ds)
        (λ x. refl)
      ∙ rw (f) (ground (arith, ==_refl d.id, due)))

  attempt-due :
      (d : Delivery) (now : ℕ) (response : Option ℕ) (hs : hooks.State) (ds : deliveries.State)
      → find_by (λ r. r.id == d.id) (rows ds) ≡ some d
      → is_due now d ≡ true
      → attempt_queued_delivery hooks deliveries d.id now response (hs, ds)
        ≡ finish_attempt hooks deliveries (claimed_row hooks deliveries now d) now response (
          hs,
          deliveries.update_many
              (λ r. r.id == d.id && is_due now r)
              (claimed_row hooks deliveries now)
              ds,
        )
  unfolding attempt_queued_delivery
  attempt-due d now response hs ds f due =
      rw (some_due) (rw (claim-find d now ds f due, attempt_queued_delivery) refl)
    where
      some_due : (count deliveries (λ r. r.id == d.id && is_due now r) ds == 0) ≡ false
      some_due = ground (
        arith,
        count_by-found (λ r. r.id == d.id) (λ r. r.id == d.id && is_due now r) (rows ds) f
            (ground (arith, ==_refl d.id, due)),
      )

  attempted :
      (d : Delivery) (now : ℕ) (response : Option ℕ) (hs : hooks.State) (ds : deliveries.State)
      → find_first deliveries (λ r. r.id == d.id) ds ≡ some d
      → is_due now d ≡ true
      → find_first deliveries
          (λ r. r.id == d.id)
          (attempt_queued_delivery hooks deliveries d.id now response (hs, ds)).0.1
        ≡ some (
            if is_success response
            then delivered_row hooks deliveries now response (claimed_row hooks deliveries now d)
            else failed_row hooks deliveries
                (d.attempts + 1)
                now
                response
                (claimed_row hooks deliveries now d))
  attempted d now response hs ds f due =
      rw (attempt-due d now response hs ds f due) (
        finish-find (claimed_row hooks deliveries now d) now response _ (claim-find d now ds f due))

  -- An attempt of a due delivery counts one attempt, and keeps the answer of the endpoint. If the
  -- answer was a status from 200 to 299 the delivery is delivered, at this instant. Otherwise it is a
  -- dead letter if this was the eighth attempt or a later one, and else is due again 30 seconds times
  -- 2 to the power of the attempts made before, but six hours at most, after this instant.
  pub attempt-outcome :
      (d : Delivery) (now : ℕ) (response : Option ℕ) (hs : hooks.State) (ds : deliveries.State)
      → find_first deliveries (λ r. r.id == d.id) ds ≡ some d
      → is_due now d ≡ true
      → (r : Delivery) × (find_first deliveries
            (λ r. r.id == d.id)
            (attempt_queued_delivery hooks deliveries d.id now response (hs, ds)).0.1
          ≡ some r)
        × (r.attempts ≡ d.attempts + 1)
        × (r.response_status ≡ response)
        × (r.status ≡ (
            if answered_200 response
            then delivered
            else if leb 7 d.attempts
            then dead_letter
            else retrying))
        × (r.delivered_at ≡ (if answered_200 response then some now else d.delivered_at))
        × (r.next_attempt_at ≡ (
            if answered_200 response
            then d.next_attempt_at
            else now + min (30000 * 2 ^ d.attempts) 21600000))
  unfolding retry_delay
  attempt-outcome d now response hs ds f due = (
    _,
    attempted d now response hs ds f due,
    if_keeps (λ (r : Delivery). r.attempts ≡ d.attempts + 1) (is_success response) (λ e. refl)
        (λ e. refl),
    if_keeps (λ (r : Delivery). r.response_status ≡ response) (is_success response) (λ e. refl)
        (λ e. refl),
    if_keeps
        (λ (r : Delivery). r.status ≡ (
          if answered_200 response
          then delivered
          else if leb 7 d.attempts
          then dead_letter
          else retrying))
        (is_success response) (λ e. rw (same ∙ e) refl) (λ e. rw (same ∙ e) (dead d.attempts)),
    if_keeps
        (λ (r : Delivery).
          r.delivered_at ≡ (if answered_200 response then some now else d.delivered_at))
        (is_success response) (λ e. rw (same ∙ e) refl) (λ e. rw (same ∙ e) refl),
    if_keeps
        (λ (r : Delivery). r.next_attempt_at ≡ (
          if answered_200 response
          then d.next_attempt_at
          else now + min (30000 * 2 ^ d.attempts) 21600000))
        (is_success response) (λ e. rw (same ∙ e) refl) (λ e. rw (same ∙ e) (later d.attempts)),
  )
    where
      same : answered_200 response ≡ is_success response
      same = answered response

      dead :
          (n : ℕ)
          → (if leb 8 (n + 1) then dead_letter else retrying)
            ≡ (if leb 7 n then dead_letter else retrying)
      dead n = ground arith

      later : (n : ℕ) → now + retry_delay (n + 1) ≡ now + min (30000 * 2 ^ n) 21600000
      later n =
          let before : n + 1 - 1 ≡ n = omega arith in
          ap (λ k. now + min (30000 * 2 ^ k) 21600000) before

  due_id : (id now : ℕ) (r : Delivery) → (r.id == id && is_due now r) ≡ true → (r.id == id) ≡ true
  due_id id now r h = &&-left _ _ h

  finish-undue :
      (d : Delivery) (now : ℕ) (response : Option ℕ) (s : Store hooks deliveries)
      → count deliveries
          (λ r. r.id == d.id && is_due now r)
          (finish_attempt hooks deliveries d now response s).0.1
        ≡ 0
  unfolding finish_attempt
  finish-undue d now response (hs, ds) = elim (Bool-cases (is_success response)) [
    | inl e ↦ rw e (
        rw (deliveries.rows-update_many _ _ ds)
          (count_by-updated _ _ _ (rows ds) (λ x. ground arith) (due_id d.id now)))
    | inr e ↦ rw e (
        rw (deliveries.rows-update_many _ _ ds)
          (count_by-updated _ _ _ (rows ds) (λ x. later x) (due_id d.id now)))
  ]
    where
      later :
          (x : Delivery)
          → (x.id == d.id && is_due now (failed_row hooks deliveries d.attempts now response x))
            ≡ false
      later x = ground (arith, (retry_delay_bounds d.attempts).0)

  attempt-undue :
      (id now : ℕ) (response : Option ℕ) (s : Store hooks deliveries)
      → count deliveries
          (λ r. r.id == id && is_due now r)
          (attempt_queued_delivery hooks deliveries id now response s).0.1
        ≡ 0
  unfolding attempt_queued_delivery
  attempt-undue id now response (hs, ds) =
      elim (Bool-cases (count deliveries (λ d. d.id == id && is_due now d) ds == 0)) [
        | inl e ↦ rw e ((==_iff _ 0).0 e)
        | inr e ↦ rw e (claimed (find_first deliveries (λ d. d.id == id) ds') refl)
      ]
    where
      ds' : deliveries.State
      ds' =
          deliveries.update_many (λ d. d.id == id && is_due now d)
            (claimed_row hooks deliveries now) ds

      claimed :
          (found : Option Delivery)
          → find_first deliveries (λ d. d.id == id) ds' ≡ found
          → count deliveries
              (λ r. r.id == id && is_due now r)
              (elim found as (λ f. Store hooks deliveries × Bool) [
                | none ↦ ((hs, ds'), false)
                | some d ↦ finish_attempt hooks deliveries d now response (hs, ds')
              ]).0.1
            ≡ 0
      claimed none f = count_by-missing _ (λ d. d.id == id) (rows ds') f (due_id id now)
      claimed (some d) f =
          subst
            (λ k.
              count deliveries (λ r. r.id == k && is_due now r)
                (finish_attempt hooks deliveries d now response (hs, ds')).0.1
              ≡ 0)
            ((==_iff d.id id).0 (find_by-true (λ d. d.id == id) (rows ds') f))
            (finish-undue d now response (hs, ds'))

  -- A delivery is not sent twice at one instant: an attempt that comes after another attempt of the
  -- same delivery claims nothing and changes nothing, whatever the two answers.
  pub attempt_again :
      (id now : ℕ) (response response' : Option ℕ) (s : Store hooks deliveries)
      → let s' = (attempt_queued_delivery hooks deliveries id now response s).0 in
        attempt_queued_delivery hooks deliveries id now response' s' ≡ (s', false)
  attempt_again id now response response' s =
      unclaimed id now response' _ (attempt-undue id now response s)
    where
      unclaimed :
          (id now : ℕ) (response : Option ℕ) (s : Store hooks deliveries)
          → count deliveries (λ r. r.id == id && is_due now r) s.1 ≡ 0
          → attempt_queued_delivery hooks deliveries id now response s ≡ (s, false)
      unclaimed id now response (hs, ds) e = unfold attempt_queued_delivery in rw e refl
