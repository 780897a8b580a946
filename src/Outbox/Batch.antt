-- ===== src/Outbox/Batch.antt =====
-- The claim of a batch (publishOutboxBatch of src/services/outbox.ts): two workers do not hold one
-- event.
use attenda_api.Base.{
  ℕ, ◌+◌, ◌≤◌, ◌≡◌, refl, ◌&&◌, ◌==◌, any, map, length, take, count_by-updated, List, [], ◌∷◌, suc,
  zero, &&-left, Table, count, arith, max, min,
}
use attenda_api.Outbox.{OutboxEvent, is_claimable, claim_row, picked, claim_batch}

length-take : (n : ℕ) (xs : List OutboxEvent) → length (take n xs) ≤ n
length-take zero xs = omega arith
length-take (suc n) [] = omega arith
length-take (suc n) (x ∷ xs) = omega (arith, length-take n xs)

length-map : (f : OutboxEvent → OutboxEvent) (xs : List OutboxEvent) → length (map f xs) ≡ length xs
length-map f [] = refl
length-map f (x ∷ xs) = omega (arith, length-map f xs)

module _ (events : Table OutboxEvent) where
  open events use {rows}

  -- A claim takes at most the limit, which is brought between 1 and 500, and as long as nothing was
  -- written since, as no outcome of the batch, no event of the batch can be claimed again within five
  -- minutes, by any worker.
  pub claim_batch-held :
      (limit token now now' : ℕ) (s : events.State)
      → now' ≤ now + 300000
      → let r = claim_batch events limit token now s in
        (length r.1 ≤ max 1 (min 500 limit))
        × (count events
              (λ e.
                any (λ id. id == e.id) (map (λ e. e.id) (picked events limit now s))
                && is_claimable now' e)
              r.0
            ≡ 0)
  unfolding claim_batch
  claim_batch-held limit token now now' s soon = (
    rw (length-map (claim_row token now) (picked events limit now s)) (length-take _ _),
    rw
        (events.rows-update_many
          (λ e. any (λ id. id == e.id) (map (λ e. e.id) (picked events limit now s)))
          (claim_row token now) s)
        (count_by-updated
          (λ e.
            any (λ id. id == e.id) (map (λ e. e.id) (picked events limit now s))
            && is_claimable now' e)
          (λ e. any (λ id. id == e.id) (map (λ e. e.id) (picked events limit now s)))
          (claim_row token now) (rows s) (λ x. ground (arith, soon)) (λ x h. &&-left _ _ h)),
  )
