-- ===== src/Markers/Tests.antt =====
-- A reminder that two instances claim, over a list table.
use attenda_api.Base.{ℕ, ◌≤◌, ◌≡◌, refl, none, some, List, [], ◌∷◌, list_table, arith, count, ◌==◌}
use attenda_api.Markers.{
  clean_up_markers, MarkerKey, SchedulerJobMarker, claim_scheduler_marker, new_marker, sent_row,
}
use attenda_api.Markers.Phases.{claim, retry, spec_step, step, phase, step-spec_step}
use attenda_api.Markers.Sent.{here, next, cleaned, claim-done}

abbrev key : MarkerKey
key = record { org_id = 2; job_key = 3; subject_id = 7; period_key = 20240101 }

abbrev started : List SchedulerJobMarker
started = (claim_scheduler_marker (list_table SchedulerJobMarker) key 1000 50 []).0

first_wins : (claim_scheduler_marker (list_table SchedulerJobMarker) key 2000 51 started).1 ≡ none
unfolding claim_scheduler_marker
first_wins = refl

lease_over :
    (claim_scheduler_marker (list_table SchedulerJobMarker) key 901001 51 started).1 ≡ some 50
unfolding claim_scheduler_marker
lease_over = refl

one_id :
    (id : ℕ)
    → count (list_table SchedulerJobMarker) (λ r. r.id == id) (new_marker key 1000 50 ∷ []) ≤ 1
one_id id = ground arith

step-spec_step_example :
    (
      phase
          (list_table SchedulerJobMarker)
          key
          (step
            (list_table SchedulerJobMarker)
            key
            (claim 901001 51)
            (new_marker key 1000 50 ∷ [])).0,
      (step (list_table SchedulerJobMarker) key (claim 901001 51) (new_marker key 1000 50 ∷ [])).1,
    )
    ≡ spec_step
        (claim 901001 51)
        (phase (list_table SchedulerJobMarker) key (new_marker key 1000 50 ∷ []))
step-spec_step_example =
    step-spec_step (list_table SchedulerJobMarker) key (claim 901001 51)
      (new_marker key 1000 50 ∷ []) one_id

abbrev finished : List SchedulerJobMarker
finished = sent_row 3000 (new_marker key 1000 50) ∷ []

claim-done_example :
    claim_scheduler_marker (list_table SchedulerJobMarker) key 9000000 52 (
      clean_up_markers
        (list_table SchedulerJobMarker)
        7000000000
        (step (list_table SchedulerJobMarker) key (retry 50) finished).0)
    ≡ (
      clean_up_markers
          (list_table SchedulerJobMarker)
          7000000000
          (step (list_table SchedulerJobMarker) key (retry 50) finished).0,
      none,
    )
claim-done_example =
    claim-done (list_table SchedulerJobMarker) 7000000000 key 9000000 52
      (cleaned (next here key (retry 50)) 7000000000 (omega arith))
      (sent_row 3000 (new_marker key 1000 50), refl, refl, omega arith)
