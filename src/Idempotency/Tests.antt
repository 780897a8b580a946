-- ===== src/Idempotency/Tests.antt =====
-- A fresh key, and its record while the handler runs, over a list table.
use attenda_api.Base.{◌≡◌, refl, none, some, [], ◌∷◌, if◌then◌else◌, list_table, str_eq, arith}
use attenda_api.Idempotency.{
  IdempotencyRecord, Claim, refused, in_progress, key_reused, outcome_unknown, replayed, new_record,
  begin, claim, finish, key_eq,
}
use attenda_api.Idempotency.Once.{begin_twice}
use attenda_api.Idempotency.Replay.{finish-begin_replays, finish-begin_unknown}

abbrev caller : Claim
caller = record {
  org_id = 2;
  user_id = 7;
  key = b'k' ∷ b'e' ∷ b'y' ∷ b'-' ∷ b'0' ∷ b'0' ∷ b'0' ∷ b'1' ∷ [];
}

abbrev running : IdempotencyRecord
running = new_record (list_table IdempotencyRecord) some caller "h" 1000000 5

begin_twice_example :
    let s' = (begin (list_table IdempotencyRecord) some caller "h" 1000000 5 []).0 in
    begin (list_table IdempotencyRecord) some caller "other" 1200000 6 s'
    ≡ (s', if str_eq "h" "other" then refused in_progress else refused key_reused)
unfolding begin key_eq claim
begin_twice_example =
    begin_twice (list_table IdempotencyRecord) some caller "h" "other" 1000000 1200000 5 6 [] refl
      (omega arith)

finish-begin_replays_example :
    let s' =
      finish
        (list_table IdempotencyRecord)
        some
        5
        201
        (some "done")
        87400000
        1000900
        (running ∷ []) in
    begin (list_table IdempotencyRecord) some caller "h" 1200000 6 s' ≡ (s', replayed 201 "done")
unfolding key_eq
finish-begin_replays_example =
    finish-begin_replays (list_table IdempotencyRecord) some caller "h" "done" "done" 201 87400000
      1000900 1200000 6 (running ∷ []) running refl refl (omega arith) (omega arith) refl
      (omega arith)

finish-begin_unknown_example :
    let s' =
      finish (list_table IdempotencyRecord) some 5 503 none 87400000 1000900 (running ∷ []) in
    begin (list_table IdempotencyRecord) some caller "h" 1200000 6 s'
    ≡ (s', refused outcome_unknown)
unfolding key_eq
finish-begin_unknown_example =
    finish-begin_unknown (list_table IdempotencyRecord) some caller "h" none 503 87400000 1000900
      1200000 6 (running ∷ []) running refl refl refl (omega arith) (omega arith)
