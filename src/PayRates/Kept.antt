-- ===== src/PayRates/Kept.antt =====
-- A rate that is set keeps the rates of an employee apart (src/services/payRates.ts).
use attenda_api.Base.{
  ℕ, ◌≡◌, refl, sym, subst, inl, inr, true, false, not, ◌||◌, Option, none, some, ltb, ◌==◌,
  if_keeps, All, All-imp, All-both, Table, find_by, update_by, arith, ==_refl,
}
use attenda_api.PayRates.{
  PayRate, RateInput, Refusal, previous_day, end_before, is_same_day, is_following, is_previous,
  rewritten, new_rate, close_on, create_after, set_with, set_effective_pay_rate, earliest,
}
use attenda_api.PayRates.Timeline.{
  are_apart, are_apart_sym, Timeline, Timeline-append_one, Timeline-update_by, Timeline-others,
  All-updated, Has,
}
use attenda_api.PayRates.Pick.{
  not_after, earliest-first, latest-last, latest-HasIt, find_by-HasIt, find_by-missing, HasIt,
}
use attenda_api.PayRates.Apart.{
  is_own, Own, Next, Rewritten, Closed, Ready, starts_apart, rewrite_keeps, close_keeps,
  closed_room,
}

module _ (rates : Table PayRate) (input : RateInput) where
  open rates use {rows}

  same_case :
      (same : PayRate) (following : Option PayRate) (s : rates.State)
      → (is_same_day rates input same ≡ true) × Has same (rows s)
      → All (Own rates input) (rows s)
      → All ((Next rates input) following) (rows s)
      → Timeline (rows s)
      → Timeline (
          rows (
            rates.update_many
              (λ r. r.id == same.id)
              (rewritten rates input (end_before following))
              s))
  unfolding Own Next Rewritten
  same_case same following s found own next line =
      rw
        (rates.rows-update_many (λ r. r.id == same.id)
          (rewritten rates input (end_before following)) s)
        (Timeline-update_by ((Rewritten rates input) same following) (λ r. r.id == same.id)
          (rewritten rates input (end_before following)) (rows s)
          ((rewrite_keeps rates input) same following)
          (All-both (λ r. (not (r.id == same.id) || is_same_day rates input r) ≡ true) _ (rows s)
            (All-imp _ _ (rows s)
              (λ r h. elim h [
                | inl e ↦
                    subst (λ r. (not (r.id == same.id) || is_same_day rates input r) ≡ true) (sym e)
                      (ground (arith, found.0))
                | inr e ↦ ground (arith, e)
              ])
              (Timeline-others same (rows s) line found.1))
            (All-both _ _ (rows s) own next))
          line)

  -- A new row where no row starts on its day and none holds over it.
  first_case :
      (following : Option PayRate) (fresh : ℕ) (s : rates.State)
      → All (λ r. (r.id == fresh) ≡ false) (rows s)
      → All (λ r. is_same_day rates input r ≡ false) (rows s)
      → All (λ r. is_previous rates input r ≡ false) (rows s)
      → All (Own rates input) (rows s)
      → All ((Next rates input) following) (rows s)
      → Timeline (rows s)
      → Timeline (rows (rates.create (new_rate rates input (end_before following) fresh) s))
  unfolding Own Next
  first_case following fresh s new day over own next line =
      rw (rates.rows-create (new_rate rates input (end_before following) fresh) s) (
        Timeline-append_one (rows s) _ line (
          All-imp _ _ (rows s)
            (λ r h. are_apart_sym (new_rate rates input (end_before following) fresh) r (
              (starts_apart rates input) (new_rate rates input (end_before following) fresh) r
                following (==_refl input.user_id) (==_refl input.effective_from) refl
                (ground (arith, h.0)) (ground (arith, h.1.0, h.1.1.0, h.1.1.1.0)) h.1.1.1.0
                h.1.1.1.1))
            (All-both _ _ (rows s) new (
              All-both _ _ (rows s) day
                (All-both _ _ (rows s) over (All-both _ _ (rows s) own next))))))

  closing_case :
      (following : Option PayRate) (fresh : ℕ) (s : rates.State) (previous : PayRate)
      → is_previous rates input previous ≡ true
      → All ((Ready rates input) following fresh previous) (rows s)
      → All ((Closed rates input) previous) (rows s)
      → Timeline (rows s)
      → Timeline (
          rows (
            rates.create (new_rate rates input (end_before following) fresh) (
              rates.update_many
                (λ r. r.id == previous.id)
                (close_on rates input (previous_day input.effective_from))
                s)))
  closing_case following fresh s previous over ready closed line =
      let close : PayRate → PayRate = close_on rates input (previous_day input.effective_from) in
      rw
        (
          rates.rows-create (new_rate rates input (end_before following) fresh)
              (rates.update_many (λ r. r.id == previous.id) close s),
          rates.rows-update_many (λ r. r.id == previous.id) close s,
        )
        (Timeline-append_one (update_by (λ r. r.id == previous.id) close (rows s)) _
          (Timeline-update_by ((Closed rates input) previous) (λ r. r.id == previous.id) close
            (rows s) ((close_keeps rates input) previous) closed line)
          (All-updated ((Ready rates input) following fresh previous)
            (λ r. are_apart r (new_rate rates input (end_before following) fresh) ≡ true)
            (λ r. r.id == previous.id) close (rows s)
            (λ r q. (closed_room rates input) following fresh previous r over q) ready))

  Kept : rates.State × Option Refusal → Type 0
  Kept out = Timeline (rows out.0)

  create_case :
      (following : Option PayRate) (fresh : ℕ) (s : rates.State) (previous : Option PayRate)
      → HasIt (is_previous rates input) previous (rows s)
      → All (λ r. not_after (is_previous rates input) previous r ≡ true) (rows s)
      → All (λ r. (r.id == fresh) ≡ false) (rows s)
      → All (λ r. is_same_day rates input r ≡ false) (rows s)
      → All (Own rates input) (rows s)
      → All ((Next rates input) following) (rows s)
      → Timeline (rows s)
      → Kept (create_after rates input (end_before following) fresh s previous)
  unfolding Kept Ready Closed
  create_case following fresh s none has last new day own next line =
      first_case following fresh s new day (All-imp _ _ (rows s) (λ r h. ground (arith, h)) last)
        own next line
  create_case following fresh s (some previous) has last new day own next line =
      let closed : All ((Closed rates input) previous) (rows s) =
        All-imp _ _ (rows s)
          (λ r h. elim h [
            | inl e ↦
                subst
                  (λ r.
                    ((not (r.id == previous.id) || is_previous rates input r) ≡ true)
                    × ((r.id == previous.id || are_apart previous r) ≡ true))
                  (sym e) (ground (arith, has.0, ==_refl previous.id))
            | inr e ↦ ground (arith, e)
          ])
          (Timeline-others previous (rows s) line has.1) in
      if_keeps Kept (ltb (previous_day input.effective_from) previous.effective_from) (λ t. line)
        (λ t.
          closing_case following fresh s previous has.0
            (All-both _ _ (rows s) new (
              All-both _ _ (rows s) day (
                All-both _ _ (rows s) last (
                  All-both ((Closed rates input) previous) _ (rows s) closed (
                    All-both (Own rates input) ((Next rates input) following) (rows s) own next)))))
            closed line)

  set_case :
      (following : Option PayRate) (fresh : ℕ) (s : rates.State) (found : Option PayRate)
      → find_by (is_same_day rates input) (rows s) ≡ found
      → HasIt (is_same_day rates input) found (rows s)
      → All (λ r. (r.id == fresh) ≡ false) (rows s)
      → All (Own rates input) (rows s)
      → All ((Next rates input) following) (rows s)
      → Timeline (rows s)
      → Kept (set_with rates input (end_before following) fresh s found)
  unfolding Kept
  set_case following fresh s none e has new own next line =
      create_case following fresh s _ (latest-HasIt (is_previous rates input) (rows s))
        (latest-last (is_previous rates input) (rows s)) new
        (find_by-missing (is_same_day rates input) (rows s) e) own next line
  set_case following fresh s (some same) e has new own next line =
      same_case same following s has own next line

  -- A rate that is set leaves no day on which two rates of one employee hold, whether it rewrites the
  -- rate of its day, closes the rate before it, or comes before or after all others, where the rates
  -- of the employee are the organization's and the new identifier is not in use.
  pub set_effective_pay_rate-Timeline :
      (fresh : ℕ) (s : rates.State)
      → All (λ r. (r.id == fresh) ≡ false) (rows s)
      → All (λ r. is_own input r ≡ true) (rows s)
      → Timeline (rows s)
      → Timeline (rows (set_effective_pay_rate rates input fresh s).0)
  unfolding set_effective_pay_rate Kept Own Next
  set_effective_pay_rate-Timeline fresh s new own line =
      set_case (earliest (is_following rates input) (rows s)) fresh s _ refl
        (find_by-HasIt (is_same_day rates input) (rows s)) new own
        (earliest-first (is_following rates input) (rows s)) line
