-- ===== src/PayRates/Apart.antt =====
-- Two rates stay apart when one is rewritten, closed or added (src/services/payRates.ts).
use attenda_api.Base.{
  ℕ, ◌≡◌, refl, Bool, true, false, not, ◌&&◌, ◌||◌, Option, none, some, ltb, ◌==◌, if◌then◌else◌,
  if_keeps, Table, arith, ==_refl,
}
use attenda_api.PayRates.{
  PayRate, RateInput, previous_day, end_before, is_same_day, is_following, is_previous, rewritten,
  new_rate, close_on,
}
use attenda_api.PayRates.Timeline.{ends_before, are_apart, are_apart_sym}
use attenda_api.PayRates.Pick.{not_before, not_after}

-- The row is of another employee, or of the organization.
abbrev pub is_own : RateInput → PayRate → Bool
is_own input r = not (r.user_id == input.user_id) || r.org_id == input.org_id

-- The row is of another employee, over before the new start, or starts after it.
abbrev pub leaves_start : RateInput → PayRate → Bool
leaves_start input r =
    not (r.user_id == input.user_id)
    || ((ltb r.effective_from input.effective_from
          && ends_before r.effective_to input.effective_from)
        || ltb input.effective_from r.effective_from)

module _ (rates : Table PayRate) (input : RateInput) where
  -- A row from the new start to the day before the next rate is apart from every row that leaves
  -- room for it.
  pub starts_apart :
      (z y : PayRate) (following : Option PayRate)
      → (z.user_id == input.user_id) ≡ true
      → (z.effective_from == input.effective_from) ≡ true
      → z.effective_to ≡ end_before following
      → (z.id == y.id) ≡ false
      → leaves_start input y ≡ true
      → is_own input y ≡ true
      → not_before (is_following rates input) following y ≡ true
      → are_apart z y ≡ true
  starts_apart z y none user from stop id room own next =
      ground (arith, user, from, stop, id, room, own, next)
  starts_apart z y (some g) user from stop id room own next =
      ground (arith, user, from, stop, id, room, own, next)

  unfoldable pub Own : PayRate → Type 0
  Own r = is_own input r ≡ true

  unfoldable pub Next : Option PayRate → PayRate → Type 0
  Next following r = not_before (is_following rates input) following r ≡ true

  -- The row of the day, rewritten, stays apart from the others.
  unfoldable pub Rewritten : PayRate → Option PayRate → PayRate → Type 0
  Rewritten same following r =
      ((not (r.id == same.id) || is_same_day rates input r) ≡ true)
      × ((is_own input r ≡ true) × (not_before (is_following rates input) following r ≡ true))

  rewritten_apart :
      (same x y : PayRate) (following : Option PayRate)
      → (x.id == same.id) ≡ true
      → (not (x.id == same.id) || is_same_day rates input x) ≡ true
      → is_own input y ≡ true
      → not_before (is_following rates input) following y ≡ true
      → are_apart x y ≡ true
      → are_apart (rewritten rates input (end_before following) x) y ≡ true
  rewritten_apart same x y following e day own next a =
      starts_apart (rewritten rates input (end_before following) x) y following (ground arith)
        (ground arith) refl (ground arith) (ground arith) own next

  pub rewrite_keeps :
      (same : PayRate) (following : Option PayRate) (x y : PayRate)
      → Rewritten same following x
      → Rewritten same following y
      → are_apart x y ≡ true
      → are_apart
          (if x.id == same.id then rewritten rates input (end_before following) x else x)
          (if y.id == same.id then rewritten rates input (end_before following) y else y)
        ≡ true
  unfolding Rewritten
  rewrite_keeps same following x y qx qy a =
      if_keeps
        (λ x'.
          are_apart x'
            (if y.id == same.id then rewritten rates input (end_before following) y else y)
          ≡ true)
        (x.id == same.id)
        (λ e.
          if_keeps (λ y'. are_apart (rewritten rates input (end_before following) x) y' ≡ true)
            (y.id == same.id) (λ f. ground (arith, e, f, a))
            (λ f. rewritten_apart same x y following e qx.0 qy.1.0 qy.1.1 a))
        (λ e.
          if_keeps (λ y'. are_apart x y' ≡ true) (y.id == same.id)
            (λ f.
              are_apart_sym (rewritten rates input (end_before following) y) x
                (rewritten_apart same y x following f qy.0 qx.1.0 qx.1.1 (are_apart_sym x y a)))
            (λ f. a))

  -- The rate that holds over the new start is closed on the day before.
  unfoldable pub Closed : PayRate → PayRate → Type 0
  Closed previous r =
      ((not (r.id == previous.id) || is_previous rates input r) ≡ true)
      × ((r.id == previous.id || are_apart previous r) ≡ true)

  close_apart :
      (previous x y : PayRate)
      → (x.id == previous.id) ≡ true
      → (not (x.id == previous.id) || is_previous rates input x) ≡ true
      → are_apart x y ≡ true
      → are_apart (close_on rates input (previous_day input.effective_from) x) y ≡ true
  close_apart previous x y e over a = stopped x.effective_to refl
    where
      stopped :
          (stop : Option ℕ)
          → x.effective_to ≡ stop
          → are_apart (close_on rates input (previous_day input.effective_from) x) y ≡ true
      stopped none k = ground (arith, e, over, a, k)
      stopped (some n) k = ground (arith, e, over, a, k)

  pub close_keeps :
      (previous x y : PayRate)
      → Closed previous x
      → Closed previous y
      → are_apart x y ≡ true
      → are_apart
          (if x.id == previous.id
            then close_on rates input (previous_day input.effective_from) x
            else x)
          (if y.id == previous.id
            then close_on rates input (previous_day input.effective_from) y
            else y)
        ≡ true
  unfolding Closed
  close_keeps previous x y qx qy a =
      if_keeps
        (λ x'.
          are_apart x' (
            if y.id == previous.id
            then close_on rates input (previous_day input.effective_from) y
            else y)
          ≡ true)
        (x.id == previous.id)
        (λ e.
          if_keeps
            (λ y'. are_apart (close_on rates input (previous_day input.effective_from) x) y' ≡ true)
            (y.id == previous.id) (λ f. ground (arith, e, f, a))
            (λ f. close_apart previous x y e qx.0 a))
        (λ e.
          if_keeps (λ y'. are_apart x y' ≡ true) (y.id == previous.id)
            (λ f.
              are_apart_sym (close_on rates input (previous_day input.effective_from) y) x
                (close_apart previous y x f qy.0 (are_apart_sym x y a)))
            (λ f. a))

  next_closed :
      (following : Option PayRate) (r : PayRate)
      → not_before (is_following rates input) following r ≡ true
      → not_before
          (is_following rates input)
          following
          (close_on rates input (previous_day input.effective_from) r)
        ≡ true
  next_closed none r h = h
  next_closed (some g) r h = h

  unfoldable pub Ready : Option PayRate → ℕ → PayRate → PayRate → Type 0
  Ready following fresh previous r =
      ((r.id == fresh) ≡ false)
      × ((is_same_day rates input r ≡ false)
          × ((not_after (is_previous rates input) (some previous) r ≡ true)
              × (Closed previous r × (Own r × Next following r))))

  -- After that every row leaves room for the new one.
  pub closed_room :
      (following : Option PayRate) (fresh : ℕ) (previous r : PayRate)
      → is_previous rates input previous ≡ true
      → Ready following fresh previous r
      → are_apart
          (if r.id == previous.id
            then close_on rates input (previous_day input.effective_from) r
            else r)
          (new_rate rates input (end_before following) fresh)
        ≡ true
  unfolding Ready Closed Own Next
  closed_room following fresh previous r over q =
      let new : PayRate = new_rate rates input (end_before following) fresh in
      if_keeps (λ r'. are_apart r' new ≡ true) (r.id == previous.id)
        (λ e. are_apart_sym new (close_on rates input (previous_day input.effective_from) r) (
          starts_apart new (close_on rates input (previous_day input.effective_from) r) following
            (==_refl input.user_id) (==_refl input.effective_from) refl (ground (arith, q.0))
            (ground (arith, e, q.1.1.1.0.0)) q.1.1.1.1.0 (next_closed following r q.1.1.1.1.1)))
        (λ e. are_apart_sym new r (
          starts_apart new r following (==_refl input.user_id) (==_refl input.effective_from) refl
            (ground (arith, q.0)) (room r.effective_to refl previous.effective_to refl e)
            q.1.1.1.1.0 q.1.1.1.1.1))
    where
      room :
          (stop : Option ℕ)
          → r.effective_to ≡ stop
          → (held : Option ℕ) → previous.effective_to ≡ held
          → (r.id == previous.id) ≡ false
          → leaves_start input r ≡ true
      room none k none l e = ground (arith, over, e, q.1.0, q.1.1.0, q.1.1.1.0.1, q.1.1.1.1.0, k, l)
      room none k (some m) l e =
          ground (arith, over, e, q.1.0, q.1.1.0, q.1.1.1.0.1, q.1.1.1.1.0, k, l)
      room (some n) k none l e =
          ground (arith, over, e, q.1.0, q.1.1.0, q.1.1.1.0.1, q.1.1.1.1.0, k, l)
      room (some n) k (some m) l e =
          ground (arith, over, e, q.1.0, q.1.1.0, q.1.1.1.0.1, q.1.1.1.1.0, k, l)
