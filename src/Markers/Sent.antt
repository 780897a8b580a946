-- ===== src/Markers/Sent.antt =====
-- A period whose work is done is not claimed again while its marker is kept
-- (src/services/schedulerState.ts).
use attenda_api.Base.{
  ap, ◌≤◌, ◌+◌, not, filter_by, find_by, Bool-cases, inl, inr, ℕ, ◌≡◌, refl, ◌∙◌, subst, sym, Bool,
  true, false, Option, none, some, List, [], ◌∷◌, Table, find_first, find_by-append, arith,
  if_keeps,
}
use attenda_api.Markers.{
  is_old, clean_up_markers, MarkerKey, SchedulerJobMarker, is_key, is_free, is_running, is_sent,
  new_marker, taken_row, sent_row, pending_row, claim_with, claim_scheduler_marker,
  complete_scheduler_marker, retry_scheduler_marker,
}
use attenda_api.Markers.Phases.{Op, claim, complete, retry, step, updated_phase}

module _ (markers : Table SchedulerJobMarker) where
  -- The marker of a key is there, its work is done, and it is at most 90 days old at an
  -- instant.
  abbrev pub IsDone : ℕ → MarkerKey → markers.State → Type 0
  IsDone last k s =
      (m : SchedulerJobMarker) × (find_first markers (is_key k) s ≡ some m)
      × (is_sent m.status ≡ true)
      × (last ≤ m.created_at + 7776000000)

  -- The states that requests of any keys lead to, in any order, with cleanups up to an instant.
  pub data Reach (last : ℕ) : markers.State → markers.State → Type 0 where
    here : {s : markers.State} → Reach last s s
    next :
        {s s' : markers.State}
        → Reach last s s'
        → (k : MarkerKey) (op : Op) → Reach last s (step markers k op s').0
    cleaned :
        {s s' : markers.State}
        → Reach last s s'
        → (now : ℕ) → now ≤ last
        → Reach last s (clean_up_markers markers now s')

  update-IsDone :
      (last : ℕ) (k : MarkerKey) (p : SchedulerJobMarker → Bool)
      (f : SchedulerJobMarker → SchedulerJobMarker) (s : markers.State)
      → ((m : SchedulerJobMarker) → is_key k (f m) ≡ is_key k m)
      → ((m : SchedulerJobMarker) → is_sent m.status ≡ true → p m ≡ false)
      → IsDone last k s
      → IsDone last k (markers.update_many p f s)
  update-IsDone last k p f s same keeps (m, e, d, young) =
      (m, updated_phase markers k p f s same ∙ rw (e, keeps m d) refl, d, young)

  claim-IsDone :
      (last : ℕ) (k other : MarkerKey) (now fresh : ℕ) (s : markers.State)
      (found : Option SchedulerJobMarker)
      → IsDone last k s
      → IsDone last k (claim_with markers other now fresh s found).0
  claim-IsDone last k other now fresh s none (m, e, d, young) = (
    m,
    rw
        (
          markers.rows-create (new_marker other now fresh) s,
          find_by-append (is_key k) (markers.rows s) (new_marker other now fresh ∷ []),
          e,
        )
        refl,
    d,
    young,
  )
  claim-IsDone last k other now fresh s (some x) h =
      if_keeps (λ (r : markers.State × Option ℕ). IsDone last k r.0) (is_sent x.status) (λ t. h)
        (λ t.
          update-IsDone last k (is_free x.id now) (taken_row now) s (λ m. refl)
            (λ m e. ground arith) h)

  -- A row that is not deleted is found as before.
  kept :
      (q p : SchedulerJobMarker → Bool) (m : SchedulerJobMarker) (xs : List SchedulerJobMarker)
      → find_by q xs ≡ some m
      → p m ≡ false
      → find_by q (filter_by (λ r. not (p r)) xs) ≡ some m
  kept q p m [] f h = cc
  kept q p m (x ∷ xs) f h = elim (Bool-cases (q x)) [
    | inl t ↦ found x (ground (arith, t, f)) t
    | inr e ↦
        if_keeps (λ (ys : List SchedulerJobMarker). find_by q ys ≡ some m) (not (p x))
          (λ k. rw e (kept q p m xs (rw (e) at f) h)) (λ k. kept q p m xs (rw (e) at f) h)
  ]
    where
      found :
          (x : SchedulerJobMarker)
          → x ≡ m
          → q x ≡ true
          → find_by q (filter_by (λ r. not (p r)) (x ∷ xs)) ≡ some m
      found x e t = rw (subst (λ y. p y ≡ false) (sym e) h, t) (ap some e)

  cleanup-IsDone :
      (last : ℕ) (k : MarkerKey) (now : ℕ) (s : markers.State)
      → now ≤ last
      → IsDone last k s
      → IsDone last k (clean_up_markers markers now s)
  unfolding clean_up_markers
  cleanup-IsDone last k now s early (m, e, d, young) = (
    m,
    rw (markers.rows-delete_many (is_old now) s)
        (kept (is_key k) (is_old now) m (markers.rows s) e (ground (arith, early, young))),
    d,
    young,
  )

  step-IsDone :
      (last : ℕ) (k other : MarkerKey) (op : Op) (s : markers.State)
      → IsDone last k s
      → IsDone last k (step markers other op s).0
  unfolding step claim_scheduler_marker complete_scheduler_marker retry_scheduler_marker
  step-IsDone last k other (claim now fresh) s h = claim-IsDone last k other now fresh s _ h
  step-IsDone last k other (complete id now) s h =
      update-IsDone last k (is_running id) (sent_row now) s (λ m. refl) (λ m e. ground arith) h
  step-IsDone last k other (retry id) s h =
      update-IsDone last k (is_running id) pending_row s (λ m. refl) (λ m e. ground arith) h

  Reach-IsDone :
      (last : ℕ) (k : MarkerKey) {s s' : markers.State}
      → Reach last s s'
      → IsDone last k s
      → IsDone last k s'
  Reach-IsDone last k here h = h
  Reach-IsDone last k (next {s} {s'} r other op) h =
      step-IsDone last k other op s' (Reach-IsDone last k r h)
  Reach-IsDone last k (cleaned {s} {s'} r now early) h =
      cleanup-IsDone last k now s' early (Reach-IsDone last k r h)

  -- Once the work of a key is done, no request of the key is granted, and it changes nothing, after
  -- whatever claims, completions and retries of any keys, and whatever cleanups up to an instant at
  -- which the marker was at most 90 days old.
  pub claim-done :
      (last : ℕ) (k : MarkerKey) (now fresh : ℕ) {s s' : markers.State}
      → Reach last s s'
      → IsDone last k s
      → claim_scheduler_marker markers k now fresh s' ≡ (s', none)
  unfolding claim_scheduler_marker
  claim-done last k now fresh {s} {s'} r h =
      let found : IsDone last k s' = Reach-IsDone last k r h in
      subst (λ o. claim_with markers k now fresh s' o ≡ (s', none)) (sym found.1)
        (rw (found.2) refl)
