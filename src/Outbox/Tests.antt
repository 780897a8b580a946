-- ===== src/Outbox/Tests.antt =====
-- One event before and after its claim by the worker with token 6, over a list table.
use attenda_api.Base.{
  ◌≤◌, ◌≡◌, refl, true, false, ◌&&◌, some, none, [], ◌∷◌, ◌==◌, any, map, length, max, min, arith,
  list_table, count, find_first,
}
use attenda_api.Outbox.{OutboxEvent, is_claimable, claim_row, picked, claim_batch, settle}
use attenda_api.Outbox.Batch.{claim_batch-held}
use attenda_api.Outbox.Outcome.{settle-claimable}

abbrev fresh_event : OutboxEvent
fresh_event = record {
  id = 3;
  org_id = 2;
  event_type = "leave_changed";
  created_at = 100;
  published_at = none;
  claimed_at = none;
  claim_token = none;
  attempts = 0;
  has_error = false;
  next_attempt_at = 100;
  dead_lettered_at = none;
  schema_version = 1;
}

abbrev claimed : OutboxEvent
claimed = claim_row 6 1000000 fresh_event

claim_batch-held_example :
    let r = claim_batch (list_table OutboxEvent) 100 6 1000000 (fresh_event ∷ []) in
    (length r.1 ≤ max 1 (min 500 100))
    × (count
          (list_table OutboxEvent)
          (λ e.
            any
              (λ id. id == e.id)
              (map (λ e. e.id) (picked (list_table OutboxEvent) 100 1000000 (fresh_event ∷ [])))
            && is_claimable 1200000 e)
          r.0
        ≡ 0)
claim_batch-held_example =
    claim_batch-held (list_table OutboxEvent) 100 6 1000000 1200000 (fresh_event ∷ []) (omega arith)

-- Its first attempt failed: half a minute after the claim it is claimable again.
settle-claimable_example :
    (r' : OutboxEvent) × (find_first
        (list_table OutboxEvent)
        (λ x. x.id == 3)
        (settle (list_table OutboxEvent) 6 1000000 1000500 false claimed (claimed ∷ []))
      ≡ some r')
    × (is_claimable 1030000 r' ≡ true)
settle-claimable_example =
    settle-claimable (list_table OutboxEvent) 6 1000000 1000500 1030000 false claimed claimed
      (claimed ∷ []) refl refl refl refl
