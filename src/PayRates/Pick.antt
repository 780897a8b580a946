-- ===== src/PayRates/Pick.antt =====
-- The rows that the ordered queries of src/services/payRates.ts find.
use attenda_api.Base.{
  ◌≡◌, refl, inl, inr, Bool, true, false, not, ◌||◌, Option, none, some, List, [], ◌∷◌, leb, ltb,
  All, All-imp, find_by, Bool-cases, arith, if_keeps,
}
use attenda_api.PayRates.{PayRate, earlier, later, earliest, latest}
use attenda_api.PayRates.Timeline.{Has}

module _ (p : PayRate → Bool) where
  -- Every row with the property starts no earlier than the one that was found.
  abbrev pub not_before : Option PayRate → PayRate → Bool
  not_before none r = not (p r)
  not_before (some best) r = not (p r) || leb best.effective_from r.effective_from

  abbrev pub not_after : Option PayRate → PayRate → Bool
  not_after none r = not (p r)
  not_after (some best) r = not (p r) || leb r.effective_from best.effective_from

  abbrev pub HasIt : Option PayRate → List PayRate → Type 0
  HasIt none rs = Unit
  HasIt (some a) rs = (p a ≡ true) × Has a rs

  earlier_step :
      (r : PayRate) (best : Option PayRate) (rs : List PayRate)
      → p r ≡ true
      → All (λ x. not_before best x ≡ true) rs
      → All (λ x. not_before (some (earlier r best)) x ≡ true) rs
  earlier_step r none rs e h = All-imp _ _ rs (λ x k. ground arith) h
  earlier_step r (some b) rs e h = All-imp _ _ rs (λ x k. ground arith) h

  pub earliest-first : (rs : List PayRate) → All (λ x. not_before (earliest p rs) x ≡ true) rs
  earliest-first [] = tt
  earliest-first (r ∷ rs) =
      if_keeps (λ best. All (λ x. not_before best x ≡ true) (r ∷ rs)) (p r)
        (λ e. (own (earliest p rs) e, earlier_step r (earliest p rs) rs e (earliest-first rs)))
        (λ e. (skipped (earliest p rs) e, earliest-first rs))
    where
      own : (best : Option PayRate) → p r ≡ true → not_before (some (earlier r best)) r ≡ true
      own none e = ground arith
      own (some b) e = ground arith

      skipped : (best : Option PayRate) → p r ≡ false → not_before best r ≡ true
      skipped none e = ground arith
      skipped (some b) e = ground arith

  later_step :
      (r : PayRate) (best : Option PayRate) (rs : List PayRate)
      → p r ≡ true
      → All (λ x. not_after best x ≡ true) rs
      → All (λ x. not_after (some (later r best)) x ≡ true) rs
  later_step r none rs e h = All-imp _ _ rs (λ x k. ground arith) h
  later_step r (some b) rs e h = All-imp _ _ rs (λ x k. ground arith) h

  pub latest-last : (rs : List PayRate) → All (λ x. not_after (latest p rs) x ≡ true) rs
  latest-last [] = tt
  latest-last (r ∷ rs) =
      if_keeps (λ best. All (λ x. not_after best x ≡ true) (r ∷ rs)) (p r)
        (λ e. (own (latest p rs) e, later_step r (latest p rs) rs e (latest-last rs)))
        (λ e. (skipped (latest p rs) e, latest-last rs))
    where
      own : (best : Option PayRate) → p r ≡ true → not_after (some (later r best)) r ≡ true
      own none e = ground arith
      own (some b) e = ground arith

      skipped : (best : Option PayRate) → p r ≡ false → not_after best r ≡ true
      skipped none e = ground arith
      skipped (some b) e = ground arith

  pub latest-HasIt : (rs : List PayRate) → HasIt (latest p rs) rs
  latest-HasIt [] = tt
  latest-HasIt (r ∷ rs) = elim (Bool-cases (p r)) [
    | inl e ↦ rw e (chosen (latest p rs) (latest-HasIt rs) e)
    | inr e ↦ rw e (carried (latest p rs) (latest-HasIt rs))
  ]
    where
      carried : (best : Option PayRate) → HasIt best rs → HasIt best (r ∷ rs)
      carried none h = tt
      carried (some b) h = (h.0, inr h.1)

      chosen :
          (best : Option PayRate)
          → HasIt best rs
          → p r ≡ true
          → HasIt (some (later r best)) (r ∷ rs)
      chosen none h e = (e, inl refl)
      chosen (some b) h e =
          if_keeps (λ (x : PayRate). (p x ≡ true) × Has x (r ∷ rs))
            (ltb r.effective_from b.effective_from) (λ t. (h.0, inr h.1)) (λ t. (e, inl refl))

  pub find_by-HasIt : (rs : List PayRate) → HasIt (find_by p rs) rs
  find_by-HasIt [] = tt
  find_by-HasIt (r ∷ rs) = elim (Bool-cases (p r)) [
    | inl e ↦ rw e (e, inl refl)
    | inr e ↦ rw e (carried (find_by p rs) (find_by-HasIt rs))
  ]
    where
      carried : (best : Option PayRate) → HasIt best rs → HasIt best (r ∷ rs)
      carried none h = tt
      carried (some b) h = (h.0, inr h.1)

  pub find_by-missing : (rs : List PayRate) → find_by p rs ≡ none → All (λ r. p r ≡ false) rs
  find_by-missing [] e = tt
  find_by-missing (r ∷ rs) e = elim (Bool-cases (p r)) [
    | inl t ↦ ground (arith, t, e)
    | inr f ↦ (f, find_by-missing rs (rw (f) at e))
  ]
