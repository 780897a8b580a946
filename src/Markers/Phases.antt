-- ===== src/Markers/Phases.antt =====
-- What the markers promise, as a machine of one key, and that the rows implement it
-- (src/services/schedulerState.ts).
use attenda_api.Base.{
  ℕ, ◌-◌, ◌≤◌, ◌≡◌, refl, sym, subst, Bool, true, Option, none, some, List, [], ◌∷◌, ltb, ◌==◌,
  if◌then◌else◌, Table, find_first, find_by, find_by-update_by, find_by-append, count, count_by,
  ==_refl, arith, Bool-cases, inl, inr, count_by-found,
}
use attenda_api.Markers.{
  MarkerStatus, processing, sent, pending, MarkerKey, SchedulerJobMarker, marker_lease_ms, is_key,
  is_free, is_running, new_marker, taken_row, sent_row, pending_row, claim_with,
  claim_scheduler_marker, complete_scheduler_marker, retry_scheduler_marker,
}

-- What is known of a key: nothing, a marker in work since an instant, one that waits for another
-- attempt, or one whose work is done.
pub data Phase : Type 0 where
  absent : Phase
  held : ℕ → ℕ → Phase
  waiting done : ℕ → Phase

abbrev pub phase_of_status : ℕ → ℕ → MarkerStatus → Phase
phase_of_status id at processing = held id at
phase_of_status id at sent = done id
phase_of_status id at pending = waiting id

abbrev pub phase_of : Option SchedulerJobMarker → Phase
phase_of none = absent
phase_of (some m) = phase_of_status m.id m.locked_at m.status

-- The requests of one key, with the clock, and the identifier that a new marker would get.
pub data Op : Type 0 where
  claim : ℕ → ℕ → Op
  complete : ℕ → ℕ → Op
  retry : ℕ → Op

-- A claim is granted to the first, to whoever comes after a failed attempt, and after the lease of an
-- attempt ran out; only the attempt in work can complete or fail.
abbrev pub spec_step : Op → Phase → Phase × Option ℕ
spec_step (claim now fresh) absent = (held fresh now, some fresh)
spec_step (claim now fresh) (held id at) =
    if ltb at (now - marker_lease_ms) then (held id now, some id) else (held id at, none)
spec_step (claim now fresh) (waiting id) = (held id now, some id)
spec_step (claim now fresh) (done id) = (done id, none)
spec_step (complete id now) absent = (absent, none)
spec_step (complete id now) (held i at) = (if i == id then done i else held i at, none)
spec_step (complete id now) (waiting i) = (waiting i, none)
spec_step (complete id now) (done i) = (done i, none)
spec_step (retry id) absent = (absent, none)
spec_step (retry id) (held i at) = (if i == id then waiting i else held i at, none)
spec_step (retry id) (waiting i) = (waiting i, none)
spec_step (retry id) (done i) = (done i, none)

module _ (markers : Table SchedulerJobMarker) where
  unfoldable pub step : MarkerKey → Op → markers.State → markers.State × Option ℕ
  step k (claim now fresh) s = claim_scheduler_marker markers k now fresh s
  step k (complete id now) s = (complete_scheduler_marker markers id now s, none)
  step k (retry id) s = (retry_scheduler_marker markers id s, none)

  unfoldable pub phase : MarkerKey → markers.State → Phase
  phase k s = phase_of (find_first markers (is_key k) s)

  pub updated_phase :
      (k : MarkerKey) (p : SchedulerJobMarker → Bool) (f : SchedulerJobMarker → SchedulerJobMarker)
      (s : markers.State)
      → ((m : SchedulerJobMarker) → is_key k (f m) ≡ is_key k m)
      → find_first markers (is_key k) (markers.update_many p f s)
        ≡ (elim (find_first markers (is_key k) s) [
          | none ↦ none
          | some m ↦ some (if p m then f m else m)
        ])
  updated_phase k p f s same =
      rw (markers.rows-update_many p f s) (find_by-update_by (is_key k) p f (markers.rows s) same)

  -- At most one row has an identifier, so a row that can be taken over is the only one counted.
  count_free :
      (id now : ℕ) (xs : List SchedulerJobMarker)
      → count_by (is_free id now) xs ≤ count_by (λ r. r.id == id) xs
  count_free id now [] = omega arith
  count_free id now (x ∷ xs) = ground (arith, count_free id now xs)

  free_only :
      (q : SchedulerJobMarker → Bool) (now : ℕ) (m : SchedulerJobMarker)
      (xs : List SchedulerJobMarker)
      → find_by q xs ≡ some m
      → count_by (λ r. r.id == m.id) xs ≤ 1
      → count_by (is_free m.id now) xs ≡ (if is_free m.id now m then 1 else 0)
  free_only q now m [] f unique = cc
  free_only q now m (x ∷ xs) f unique = elim (Bool-cases (q x)) [
    | inl t ↦ first x (head_is t f) unique
    | inr e ↦ ground (
      arith,
      free_only q now m xs (rw (e) at f),
      count_by-found q (λ r. r.id == m.id) xs (rw (e) at f) (==_refl m.id),
    )
  ]
    where
      head_is : q x ≡ true → find_by q (x ∷ xs) ≡ some m → x ≡ m
      head_is t f = ground (arith, t)

      first :
          (x : SchedulerJobMarker)
          → x ≡ m
          → count_by (λ r. r.id == m.id) (x ∷ xs) ≤ 1
          → count_by (is_free m.id now) (x ∷ xs) ≡ (if is_free m.id now m then 1 else 0)
      first x e u =
          subst
            (λ y.
              count_by (λ r. r.id == m.id) (y ∷ xs) ≤ 1
              → count_by (is_free m.id now) (y ∷ xs) ≡ (if is_free m.id now m then 1 else 0))
            (sym e) (λ u. ground (arith, count_free m.id now xs, u)) u

  claim_case :
      (k : MarkerKey) (now fresh : ℕ) (s : markers.State) (found : Option SchedulerJobMarker)
      → find_first markers (is_key k) s ≡ found
      → ((id : ℕ) → count markers (λ r. r.id == id) s ≤ 1)
      → (
        phase k (claim_with markers k now fresh s found).0,
        (claim_with markers k now fresh s found).1,
      )
        ≡ spec_step (claim now fresh) (phase_of found)
  unfolding phase
  claim_case k now fresh s none f unique =
      rw
        (
          markers.rows-create (new_marker k now fresh) s,
          find_by-append (is_key k) (markers.rows s) (new_marker k now fresh ∷ []),
          f,
          ==_refl k.org_id,
          ==_refl k.job_key,
          ==_refl k.subject_id,
          ==_refl k.period_key,
        )
        refl
  claim_case k now fresh s (some m) f unique = ground (
    arith,
    updated_phase k (is_free m.id now) (taken_row now) s (λ m. refl),
    free_only (is_key k) now m (markers.rows s) f (unique m.id),
    f,
    ==_refl m.id,
  )

  -- The rows implement the machine of their key: a request changes the phase as the machine does, and
  -- is granted exactly when the machine grants it, where identifiers are unique.
  pub step-spec_step :
      (k : MarkerKey) (op : Op) (s : markers.State)
      → ((id : ℕ) → count markers (λ r. r.id == id) s ≤ 1)
      → (phase k (step k op s).0, (step k op s).1) ≡ spec_step op (phase k s)
  unfolding step phase claim_scheduler_marker complete_scheduler_marker retry_scheduler_marker
  step-spec_step k (claim now fresh) s unique = claim_case k now fresh s _ refl unique
  step-spec_step k (complete id now) s unique =
      rw (updated_phase k (is_running id) (sent_row now) s (λ m. refl)) (ground arith)
  step-spec_step k (retry id) s unique =
      rw (updated_phase k (is_running id) pending_row s (λ m. refl)) (ground arith)
