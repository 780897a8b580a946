-- ===== src/Webhooks/Dispatch.antt =====
-- The fan-out of an event (dispatchOrgWebhooks of src/services/webhookDelivery.ts): an outbox event
-- that is published again adds no delivery.
use attenda_api.Base.{
  any-create, ℕ, String, ◌≡◌, refl, subst, sym, ◌∙◌, inl, inr, Bool, true, some, List, [], ◌∷◌,
  if◌then◌else◌, Bool-cases, ==_refl, any, All, Table, find_many, arith,
}
use attenda_api.Webhooks.{
  OrgWebhook, Delivery, Store, same_event, create_skipping, dispatch_org_webhooks, subscribed,
  new_delivery,
}

module _ (hooks : Table OrgWebhook) (deliveries : Table Delivery) (o : ℕ) where
  open deliveries use {rows}

  same_event_self :
      (o w : ℕ) (d : Delivery)
      → d.outbox_event_id ≡ some o
      → d.webhook_id ≡ some w
      → same_event hooks deliveries (some o) (some w) d ≡ true
  same_event_self o w d e f = rw (e, f) (ground (arith, ==_refl o, ==_refl w))

  -- A hook has a delivery of the event.
  abbrev Served : deliveries.State → OrgWebhook → Type 0
  Served ds h = any (same_event hooks deliveries (some o) (some h.id)) (rows ds) ≡ true

  -- A maker of deliveries of the event.
  abbrev IsMaker : (OrgWebhook → Delivery) → Type 0
  IsMaker make =
      (h : OrgWebhook) → ((make h).outbox_event_id ≡ some o) × ((make h).webhook_id ≡ some h.id)

  create_skipping-any :
      (make : OrgWebhook → Delivery) (p : Delivery → Bool) (hs : List OrgWebhook)
      (ds : deliveries.State)
      → any p (rows ds) ≡ true
      → any p (rows (create_skipping hooks deliveries make hs ds)) ≡ true
  unfolding create_skipping
  create_skipping-any make p [] ds t = t
  create_skipping-any make p (h ∷ hs) ds t =
      elim (Bool-cases (
        any (same_event hooks deliveries (make h).outbox_event_id (make h).webhook_id) (rows ds))) [
          | inl e ↦ rw e (create_skipping-any make p hs ds t)
          | inr e ↦ rw e (
              create_skipping-any make p hs (deliveries.create (make h) ds)
                (rw (any-create deliveries p (make h) ds, t) refl))
        ]

  guarded :
      (w : ℕ) (d : Delivery) (ds : deliveries.State)
      → same_event hooks deliveries (some o) (some w) d ≡ true
      → any (same_event hooks deliveries (some o) (some w)) (
          rows (
            if any (same_event hooks deliveries (some o) (some w)) (rows ds)
            then ds
            else deliveries.create d ds))
        ≡ true
  guarded w d ds t =
      elim (Bool-cases (any (same_event hooks deliveries (some o) (some w)) (rows ds))) [
        | inl e ↦ rw e e
        | inr e ↦ rw e (any-create deliveries _ d ds ∙ rw (e, t) refl)
      ]

  create_skipping-Served :
      (make : OrgWebhook → Delivery)
      → IsMaker make
      → (hs : List OrgWebhook) (ds : deliveries.State)
      → All (Served (create_skipping hooks deliveries make hs ds)) hs
  unfolding create_skipping
  create_skipping-Served make made [] ds = tt
  create_skipping-Served make made (h ∷ hs) ds =
      (create_skipping-any make _ hs _ first, create_skipping-Served make made hs _)
    where
      first :
          Served
            (if any
                (same_event hooks deliveries (make h).outbox_event_id (make h).webhook_id)
                (rows ds)
              then ds
              else deliveries.create (make h) ds)
            h
      first =
          subst
            (λ a.
              Served
                (if any (same_event hooks deliveries a (make h).webhook_id) (rows ds)
                  then ds
                  else deliveries.create (make h) ds)
                h)
            (sym (made h).0)
            (subst
              (λ b.
                Served
                  (if any (same_event hooks deliveries (some o) b) (rows ds)
                    then ds
                    else deliveries.create (make h) ds)
                  h)
              (sym (made h).1)
              (guarded h.id (make h) ds (same_event_self o h.id (make h) (made h).0 (made h).1)))

  create_skipping-none :
      (make : OrgWebhook → Delivery)
      → IsMaker make
      → (hs : List OrgWebhook) (ds : deliveries.State) → All (Served ds) hs
      → create_skipping hooks deliveries make hs ds ≡ ds
  unfolding create_skipping
  create_skipping-none make made [] ds t = refl
  create_skipping-none make made (h ∷ hs) ds t =
      rw ((made h).0, (made h).1, t.0) (create_skipping-none make made hs ds t.1)

  -- An outbox event is fanned out to a hook at most once: dispatching the same event again, whatever
  -- its text, its time and the identifiers drawn for it, changes no hook and no delivery.
  pub dispatch_again :
      (sign : String → String → String) (body body' : OrgWebhook → String)
      (fresh fresh' : OrgWebhook → ℕ) (org : ℕ) (type : String) (version version' now now' : ℕ)
      (s : Store hooks deliveries)
      → let s' =
          dispatch_org_webhooks hooks deliveries sign body fresh org type (some o) version now s in
        dispatch_org_webhooks hooks deliveries sign body' fresh' org type (some o) version' now' s'
        ≡ s'
  unfolding dispatch_org_webhooks
  dispatch_again sign body body' fresh fresh' org type version version' now now' (hs, ds) =
      rw
        (create_skipping-none
          (λ h.
            new_delivery hooks deliveries sign (body' h) (some o) type version' now' (fresh' h) h)
          (λ h. (refl, refl)) (find_many hooks (subscribed hooks deliveries org type) hs) _
          (create_skipping-Served
            (λ h. new_delivery hooks deliveries sign (body h) (some o) type version now (fresh h) h)
            (λ h. (refl, refl)) (find_many hooks (subscribed hooks deliveries org type) hs) ds))
        refl

  -- Every active hook of the organization that subscribes to an outbox event has a delivery of it
  -- after the event was dispatched.
  pub dispatch-served :
      (sign : String → String → String) (body : OrgWebhook → String) (fresh : OrgWebhook → ℕ)
      (org : ℕ) (type : String) (version now : ℕ) (hs : hooks.State) (ds : deliveries.State)
      → All
          (λ h.
            any (same_event hooks deliveries (some o) (some h.id)) (
              rows
                (dispatch_org_webhooks hooks deliveries sign body fresh org type
                  (some o)
                  version
                  now
                  (hs, ds)).1)
            ≡ true)
          (find_many hooks (subscribed hooks deliveries org type) hs)
  unfolding dispatch_org_webhooks
  dispatch-served sign body fresh org type version now hs ds =
      create_skipping-Served
        (λ h. new_delivery hooks deliveries sign (body h) (some o) type version now (fresh h) h)
        (λ h. (refl, refl)) (find_many hooks (subscribed hooks deliveries org type) hs) ds
