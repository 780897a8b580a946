-- ===== src/Webhooks/Hooks.antt =====
-- The health of an endpoint (attemptQueuedDelivery and deliverToWebhook of
-- src/services/webhookDelivery.ts): its failures are counted, and it is disabled at the threshold.
use attenda_api.Base.{
  ℕ, ◌+◌, ◌≡◌, refl, ◌∙◌, inl, inr, Bool, true, false, not, ◌&&◌, some, ◌==◌, if◌then◌else◌,
  Bool-cases, Table, find_first, find_by-true, find_by-update_by, leb, arith,
}
use attenda_api.Webhooks.{OrgWebhook, Delivery, should_auto_disable, failed_hook, note_failure}

module _ (hooks : Table OrgWebhook) (deliveries : Table Delivery) where
  open hooks use {rows}

  update-find :
      (id : ℕ) (p : OrgWebhook → Bool) (f : OrgWebhook → OrgWebhook) (hs : hooks.State)
      (h : OrgWebhook)
      → ((x : OrgWebhook) → (f x).id ≡ x.id)
      → find_first hooks (λ r. r.id == id) hs ≡ some h
      → find_first hooks (λ r. r.id == id) (hooks.update_many p f hs)
        ≡ some (if p h then f h else h)
  update-find id p f hs h same e =
      rw
        (
          hooks.rows-update_many p f hs,
          find_by-update_by (λ r. r.id == id) p f (rows hs) (λ x. rw (same x) refl),
          e,
        )
        refl

  -- A failed attempt adds one to the hook's count of consecutive failures, and the hook stays active
  -- only below the threshold of twenty.
  pub note_failure-hook :
      (id now : ℕ) (hs : hooks.State) (h : OrgWebhook)
      → find_first hooks (λ r. r.id == id) hs ≡ some h
      → (h' : OrgWebhook) × (find_first hooks
            (λ r. r.id == id)
            (note_failure hooks deliveries (some id) now hs).0
          ≡ some h')
        × (h'.failure_count ≡ h.failure_count + 1)
        × (h'.is_active ≡ (h.is_active && not (leb 20 (h.failure_count + 1))))
  unfolding note_failure should_auto_disable
  note_failure-hook id now hs h e = elim (Bool-cases (leb 20 (h.failure_count + 1))) [
    | inl t ↦
        rw (counted, t)
          (
            (if h.id == id && h.is_active
                then record (failed_hook hooks deliveries now h) { is_active = false }
                else failed_hook hooks deliveries now h),
            update-find id (λ r. r.id == id && r.is_active) (λ r. record r { is_active = false })
                (hooks.update_many (λ r. r.id == id) (failed_hook hooks deliveries now) hs)
                (failed_hook hooks deliveries now h) (λ x. refl) counted,
            ground arith,
            ground (arith, is_id),
          )
    | inr f ↦ rw (counted, f) (failed_hook hooks deliveries now h, counted, refl, ground arith)
  ]
    where
      is_id : (h.id == id) ≡ true
      is_id = find_by-true (λ r. r.id == id) (rows hs) e

      counted :
          find_first hooks
            (λ r. r.id == id)
            (hooks.update_many (λ r. r.id == id) (failed_hook hooks deliveries now) hs)
          ≡ some (failed_hook hooks deliveries now h)
      counted =
          update-find id (λ r. r.id == id) (failed_hook hooks deliveries now) hs h (λ x. refl) e
          ∙ rw (is_id) refl
