-- ===== src/Notify/Allowed.antt =====
-- Whom a batch of notifications reaches (deliverNotificationBatch of
-- src/services/notificationDelivery.ts).
use attenda_api.Base.{
  ℕ, ◌≡◌, refl, subst, sym, Bool, true, not, ◌&&◌, Option, none, some, List, [], ◌∷◌, ◌==◌,
  if_keeps, is_some, any, All, All-append, All-imp, All-both, All-filter_by, filter_by-All, sort_by,
  sort_by-All, take, take-All, Table, find_many, filter_by, count, arith,
}
use attenda_api.Notify.{
  NotificationDelivery, World, Profile, is_wanted, quiet_hours_end, is_email, is_claimable,
  can_reach, is_queued, send_one, is_one_of, is_digest_row, digest_eligible, send_email_digest,
  Step, deliver_at, digest_at, deliver_item, deliver_all, deliver_notification_batch,
}

-- The user is active, takes the type and the channel, and is not in quiet hours.
abbrev pub is_allowed : World → ℕ → NotificationDelivery → Bool
is_allowed w now d =
    (w.profile d.user_id).is_active
    && (is_wanted (w.profile d.user_id) d
        && not (
            is_some
              (quiet_hours_end (w.zone d.org_id) (w.profile d.user_id).prefs.quiet_hours now)))

module _ (deliveries : Table NotificationDelivery) (w : World) (now : ℕ) where
  Allowed : deliveries.State × List NotificationDelivery → Type 0
  Allowed r = All (λ d. is_allowed w now d ≡ true) r.1

  send_one-Allowed :
      (item : NotificationDelivery) (s : deliveries.State)
      → is_allowed w now item ≡ true
      → Allowed (send_one deliveries w now item s)
  unfolding send_one Allowed
  send_one-Allowed item s h =
      if_keeps Allowed (count deliveries (is_claimable deliveries w now item.id) s == 0) (λ e. tt)
        (λ e.
          if_keeps (All (λ d. is_allowed w now d ≡ true)) (can_reach w item) (λ t. (h, tt))
            (λ t. tt))

  -- A row of the digest of a user that the user takes.
  IsListed : ℕ → ℕ → NotificationDelivery → Type 0
  IsListed user org d =
      (d.user_id ≡ user) × ((d.org_id ≡ org) × (is_wanted (w.profile user) d ≡ true))

  listed :
      (user org : ℕ) (d : NotificationDelivery)
      → (w.profile user).is_active ≡ true
      → quiet_hours_end (w.zone org) (w.profile user).prefs.quiet_hours now ≡ none
      → IsListed user org d
      → is_allowed w now d ≡ true
  unfolding IsListed
  listed user org d active loud l =
      subst
        (λ u.
          ((w.profile u).is_active
            && (is_wanted (w.profile u) d
                && not (
                    is_some
                      (quiet_hours_end (w.zone d.org_id) (w.profile u).prefs.quiet_hours now))))
          ≡ true)
        (sym l.0)
        (subst
          (λ o.
            ((w.profile user).is_active
              && (is_wanted (w.profile user) d
                  && not (
                      is_some (quiet_hours_end (w.zone o) (w.profile user).prefs.quiet_hours now))))
            ≡ true)
          (sym l.1.0) (rw (active, loud, l.1.1) refl))

  digest_at-Allowed :
      (user org : ℕ) (eligible : List NotificationDelivery) (s : deliveries.State) (at : Option ℕ)
      → quiet_hours_end (w.zone org) (w.profile user).prefs.quiet_hours now ≡ at
      → (w.profile user).is_active ≡ true
      → All (IsListed user org) eligible
      → Allowed (digest_at deliveries w now user eligible s at)
  unfolding Allowed
  digest_at-Allowed user org eligible s (some at) late active h = tt
  digest_at-Allowed user org eligible s none loud active h =
      if_keeps Allowed (w.profile user).has_email
        (λ t.
          if_keeps Allowed
            (count deliveries (λ d. is_one_of deliveries w now eligible d && is_queued d.status) s
              == 0)
            (λ c. tt) (λ c. All-imp _ _ eligible (λ d l. listed user org d active loud l) h))
        (λ t. tt)

  eligible-Allowed :
      (user org : ℕ) (eligible : List NotificationDelivery) (s : deliveries.State)
      → (w.profile user).is_active ≡ true
      → All (IsListed user org) eligible
      → Allowed (digest_eligible deliveries w now user org eligible s)
  unfolding Allowed
  eligible-Allowed user org [] s active h = tt
  eligible-Allowed user org (e ∷ es) s active h =
      digest_at-Allowed user org (e ∷ es) s _ refl active h

  digest_rows :
      (user org : ℕ) (s : deliveries.State)
      → All (IsListed user org) (
          filter_by (is_wanted (w.profile user)) (
            take 100 (
              sort_by
                (λ d. d.created_at)
                (find_many deliveries (is_digest_row deliveries w now user org) s))))
  unfolding IsListed
  digest_rows user org s =
      let ordered : List NotificationDelivery = take 100 (
        sort_by (λ d. d.created_at)
          (find_many deliveries (is_digest_row deliveries w now user org) s)) in
      All-imp
        (λ d.
          (is_digest_row deliveries w now user org d ≡ true)
          × (is_wanted (w.profile user) d ≡ true))
        (IsListed user org) (filter_by (is_wanted (w.profile user)) ordered)
        (λ d h. (ground (arith, h.0), (ground (arith, h.0), h.1)))
        (All-both (λ d. is_digest_row deliveries w now user org d ≡ true)
          (λ d. is_wanted (w.profile user) d ≡ true)
          (filter_by (is_wanted (w.profile user)) ordered)
          (All-filter_by (λ d. is_digest_row deliveries w now user org d ≡ true)
            (is_wanted (w.profile user)) ordered
            (take-All _ 100 _ (
              sort_by-All (λ d. is_digest_row deliveries w now user org d ≡ true)
                (λ d. d.created_at) _
                (filter_by-All (is_digest_row deliveries w now user org) (deliveries.rows s)))))
          (filter_by-All (is_wanted (w.profile user)) ordered))

  digest-Allowed :
      (user org : ℕ) (s : deliveries.State)
      → (w.profile user).is_active ≡ true
      → Allowed (send_email_digest deliveries w now user org s)
  unfolding send_email_digest
  digest-Allowed user org s active = eligible-Allowed user org _ _ active (digest_rows user org s)

  AllowedStep : Step deliveries w now → Type 0
  AllowedStep r = Allowed r.0

  ready-Allowed :
      (item : NotificationDelivery) (users : List ℕ) (s : deliveries.State) (at : Option ℕ)
      → quiet_hours_end (w.zone item.org_id) (w.profile item.user_id).prefs.quiet_hours now ≡ at
      → (w.profile item.user_id).is_active ≡ true
      → is_wanted (w.profile item.user_id) item ≡ true
      → AllowedStep (deliver_at deliveries w now item users s at)
  unfolding AllowedStep Allowed
  ready-Allowed item users s (some at) late active wanted = tt
  ready-Allowed item users s none loud active wanted =
      if_keeps AllowedStep (is_email item.channel && (w.profile item.user_id).prefs.has_digest)
        (λ t.
          if_keeps AllowedStep (any (λ u. u == item.user_id) users) (λ k. tt)
            (λ k. digest-Allowed item.user_id item.org_id s active))
        (λ t. send_one-Allowed item s (rw (active, wanted, loud) refl))

  item-Allowed :
      (item : NotificationDelivery) (users : List ℕ) (s : deliveries.State)
      → AllowedStep (deliver_item deliveries w now item users s)
  unfolding deliver_item AllowedStep Allowed
  item-Allowed item users s =
      let u : Profile = w.profile item.user_id in
      if_keeps AllowedStep (not (u.is_active && is_wanted u item)) (λ t. tt)
        (λ t. ready-Allowed item users s _ refl (ground (arith, t)) (ground (arith, t)))

  all-Allowed :
      (items : List NotificationDelivery) (users : List ℕ) (s : deliveries.State)
      → Allowed (deliver_all deliveries w now items users s)
  unfolding deliver_all AllowedStep Allowed
  all-Allowed [] users s = tt
  all-Allowed (item ∷ items) users s =
      All-append _ _ _ (item-Allowed item users s) (all-Allowed items _ _)

  -- Whatever a batch hands to a provider, alone or in a digest, goes to a user who is active, takes
  -- the type and the channel, and is not in quiet hours.
  pub deliver_notification_batch-allowed :
      (s : deliveries.State)
      → All (λ d. is_allowed w now d ≡ true) (deliver_notification_batch deliveries w now s).1
  unfolding deliver_notification_batch Allowed
  deliver_notification_batch-allowed s = all-Allowed _ [] _
