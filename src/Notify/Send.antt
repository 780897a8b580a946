-- ===== src/Notify/Send.antt =====
-- A delivery is handed to its provider once for each attempt (sendOne of
-- src/services/notificationDelivery.ts).
use native.Mathlib.Nat.{one-le-pow}
use attenda_api.Base.{
  ℕ, ◌+◌, ◌≤◌, ◌<◌, ◌≡◌, refl, min, subst, sym, Bool, true, false, ◌&&◌, List, [], leb, ◌==◌,
  if_keeps, Table, count, count_by-updated, arith,
}
use attenda_api.Notify.{
  NotificationDelivery, World, Answer, delivered, temporary, permanent, backoff, is_due,
  is_claimable, claimed_row, sent_row, failed_row, can_reach, outcome_row, send_one,
}

backoff_bound : (n : ℕ) → 30000 ≤ backoff n
backoff_bound n = omega (arith, one-le-pow (min n 7) 2 (omega arith))

abbrev pub is_temporary : Answer → Bool
is_temporary temporary = true
is_temporary delivered = false
is_temporary permanent = false

-- The provider was reached and failed for the time being.
abbrev pub fails_for_now : World → NotificationDelivery → Bool
fails_for_now w item = can_reach w item && is_temporary (w.answer item.id)

module _ (w : World) (item d : NotificationDelivery) (now now' : ℕ) where
  retried_later :
      leb (now + 30000) now' ≡ false → is_due now' (failed_row false item.attempts now d) ≡ false
  retried_later h = ground (arith, backoff_bound item.attempts, h)

  answered :
      (a : Answer)
      → (is_temporary a && leb (now + 30000) now') ≡ false
      → is_due now' (elim a [
        | delivered ↦ sent_row now d
        | temporary ↦ failed_row false item.attempts now d
        | permanent ↦ failed_row true item.attempts now d
      ])
        ≡ false
  answered delivered h = refl
  answered temporary h = retried_later h
  answered permanent h = refl

  outcome_later :
      (fails_for_now w item && leb (now + 30000) now') ≡ false
      → is_due now' (outcome_row w item now d) ≡ false
  outcome_later h =
      if_keeps (λ (r : NotificationDelivery). is_due now' r ≡ false) (can_reach w item)
        (λ e. answered (w.answer item.id) (ground (arith, e, h))) (λ e. refl)

module _ (deliveries : Table NotificationDelivery) (w w' : World) (now now' : ℕ) where
  open deliveries use {rows}

  nothing_left :
      (item : NotificationDelivery) (s : deliveries.State)
      → (fails_for_now w item && leb (now + 30000) now') ≡ false
      → 0 < count deliveries (is_claimable deliveries w now item.id) s
      → count deliveries
          (is_claimable deliveries w' now' item.id)
          (send_one deliveries w now item s).0
        ≡ 0
  unfolding send_one
  nothing_left item s soon claims =
      if_keeps
        (λ (r : deliveries.State × List NotificationDelivery).
          count deliveries (is_claimable deliveries w' now' item.id) r.0 ≡ 0)
        (count deliveries (is_claimable deliveries w now item.id) s == 0)
        (λ e. ground (arith, e, claims))
        (λ e.
          rw
            (deliveries.rows-update_many (λ d. d.id == item.id) (outcome_row w item now)
              (deliveries.update_many (is_claimable deliveries w now item.id) (claimed_row now) s))
            (count_by-updated (is_claimable deliveries w' now' item.id) (λ d. d.id == item.id)
              (outcome_row w item now) _
              (λ d. off (outcome_row w item now d) (outcome_later w item d now now' soon))
              (λ d h. ground (arith, h))))
    where
      off :
          (d : NotificationDelivery)
          → is_due now' d ≡ false
          → is_claimable deliveries w' now' item.id d ≡ false
      off d h = ground (arith, h)

  -- After a worker made an attempt, a second worker that read the same row in its batch hands nothing
  -- to a provider and changes nothing: within half a minute of the attempt in any case, and at any
  -- later time where the attempt did not fail for the time being, that is, where the delivery was
  -- sent or failed for good.
  pub send_one_twice :
      (item other : NotificationDelivery) (s : deliveries.State)
      → other.id ≡ item.id
      → 0 < count deliveries (is_claimable deliveries w now item.id) s
      → (fails_for_now w item && leb (now + 30000) now') ≡ false
      → let s' = (send_one deliveries w now item s).0 in
        send_one deliveries w' now' other s' ≡ (s', [])
  unfolding send_one
  send_one_twice item other s same claims soon = refused (
      subst
        (λ id.
          count deliveries (is_claimable deliveries w' now' id) (send_one deliveries w now item s).0
          ≡ 0)
        (sym same) (nothing_left item s soon claims))
    where
      refused :
          {s' : deliveries.State}
          → count deliveries (is_claimable deliveries w' now' other.id) s' ≡ 0
          → send_one deliveries w' now' other s' ≡ (s', [])
      refused e = rw (e) refl
