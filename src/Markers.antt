-- ===== src/Markers.antt =====
-- src/services/schedulerState.ts: the markers that let a job run once for a subject and a period,
-- whichever instance of the scheduler comes first. Instants are milliseconds, identifiers and keys
-- numbers; the unique constraint on the key refuses a second row.
pub mod Phases
pub mod Sent
pub mod Tests
use attenda_api.Base.{
  ℕ, ◌+◌, ◌*◌, ◌-◌, Bool, true, false, ◌&&◌, ◌||◌, not, Option, none, some, ltb, ◌==◌,
  if◌then◌else◌, Table, find_first, count,
}

pub data MarkerStatus : Type 0 where
  processing sent pending : MarkerStatus

-- The organization, the job, the subject and the period of a marker.
pub record MarkerKey : Type 0 where
  pub org_id : ℕ
  pub job_key : ℕ
  pub subject_id : ℕ
  pub period_key : ℕ

pub record SchedulerJobMarker : Type 0 where
  pub id : ℕ
  pub key : MarkerKey
  pub status : MarkerStatus
  pub attempts : ℕ
  pub locked_at : ℕ
  pub sent_at : Option ℕ
  pub created_at : ℕ

abbrev pub marker_lease_ms : ℕ
marker_lease_ms = 15 * 60000

abbrev pub marker_age_ms : ℕ
marker_age_ms = 90 * 86400000

-- `created_at < now - 90 days`
abbrev pub is_old : ℕ → SchedulerJobMarker → Bool
is_old now m = ltb (m.created_at + marker_age_ms) now

abbrev pub is_key : MarkerKey → SchedulerJobMarker → Bool
is_key k m =
    (m.key.org_id == k.org_id && m.key.job_key == k.job_key)
    && (m.key.subject_id == k.subject_id && m.key.period_key == k.period_key)

abbrev pub is_processing : MarkerStatus → Bool
is_processing processing = true
is_processing sent = false
is_processing pending = false

abbrev pub is_sent : MarkerStatus → Bool
is_sent sent = true
is_sent processing = false
is_sent pending = false

-- A marker that can be taken over: not sent, and not in the work of another within its lease.
abbrev pub is_free : ℕ → ℕ → SchedulerJobMarker → Bool
is_free id now m =
    m.id == id
    && (not (is_sent m.status)
        && (not (is_processing m.status) || ltb m.locked_at (now - marker_lease_ms)))

abbrev pub is_running : ℕ → SchedulerJobMarker → Bool
is_running id m = m.id == id && is_processing m.status

abbrev pub new_marker : MarkerKey → ℕ → ℕ → SchedulerJobMarker
new_marker k now fresh = record {
  id = fresh;
  key = k;
  status = processing;
  attempts = 1;
  locked_at = now;
  sent_at = none;
  created_at = now;
}

abbrev pub taken_row : ℕ → SchedulerJobMarker → SchedulerJobMarker
taken_row now m = record m { status = processing; attempts = m.attempts + 1; locked_at = now }

abbrev pub sent_row : ℕ → SchedulerJobMarker → SchedulerJobMarker
sent_row now m = record m { status = sent; sent_at = some now }

abbrev pub pending_row : SchedulerJobMarker → SchedulerJobMarker
pending_row m = record m { status = pending; locked_at = 0 }

module _ (markers : Table SchedulerJobMarker) where
  abbrev pub take_over : ℕ → SchedulerJobMarker → markers.State → markers.State × Option ℕ
  take_over now m s = if is_sent m.status then (s, none) else (
    markers.update_many (is_free m.id now) (taken_row now) s,
    if count markers (is_free m.id now) s == 1 then some m.id else none,
  )

  abbrev pub claim_with :
      MarkerKey → ℕ → ℕ → markers.State → Option SchedulerJobMarker → markers.State × Option ℕ
  claim_with k now fresh s none = (markers.create (new_marker k now fresh) s, some fresh)
  claim_with k now fresh s (some m) = take_over now m s

  -- claimSchedulerMarker
  unfoldable pub claim_scheduler_marker :
      MarkerKey → ℕ → ℕ → markers.State → markers.State × Option ℕ
  claim_scheduler_marker k now fresh s = claim_with k now fresh s (find_first markers (is_key k) s)

  -- completeSchedulerMarker
  unfoldable pub complete_scheduler_marker : ℕ → ℕ → markers.State → markers.State
  complete_scheduler_marker id now s = markers.update_many (is_running id) (sent_row now) s

  -- retrySchedulerMarker
  unfoldable pub retry_scheduler_marker : ℕ → markers.State → markers.State
  retry_scheduler_marker id s = markers.update_many (is_running id) pending_row s

  -- What the timer of startSchedulerMarkerCleanup runs.
  unfoldable pub clean_up_markers : ℕ → markers.State → markers.State
  clean_up_markers now s = markers.delete_many (is_old now) s
