-- ===== src/TimeEntries/Reach.antt =====
-- The states that the operations of src/routes/time-tracking.ts reach, in any order.
use attenda_api.Base.{
  ℕ, ◌≤◌, Bool, Option, inl, inr, if_keeps, Table, is_some, ◌&&◌, find_first, count, ◌==◌,
  Option-cases,
}
use attenda_api.TimeEntries.{
  TimeEntry, EntryStatus, Timesheet, EntryInput, Refusal, start_timer, stop_timer, create_entry,
  edit_entry, submit_timesheet, submitted, is_own, is_running, in_week, sheet_refusal, is_sheet,
  is_submittable,
}
use attenda_api.TimeEntries.Disjoint.{Disjoint}
use attenda_api.TimeEntries.Steps.{
  IsFresh, start_timer-Disjoint, stop_timer-Disjoint, create_entry-Disjoint, edit_entry-Disjoint,
  status-Disjoint,
}

module _ (entries : Table TimeEntry) (timesheets : Table Timesheet) where
  open entries use {rows}

  -- One request of any user of any organization, with whatever input; a review of a week changes the
  -- status of entries. New identifiers are fresh, and the clock does not go back within a request.
  pub data Step (s : entries.State) : entries.State → Type 0 where
    timer_started :
        (org user : ℕ) (input : EntryInput) (refusal : Option Refusal) (attendance : Option ℕ)
        (now started_at fresh : ℕ)
        → now ≤ started_at
        → IsFresh fresh (rows s)
        → Step s (start_timer entries org user input refusal attendance now started_at fresh s).0
    timer_stopped :
        (org user : ℕ) (attendance : ℕ → Option ℕ) (now : ℕ)
        → Step s (stop_timer entries org user attendance now s).0
    entry_created :
        (org user : ℕ) (input : EntryInput) (refusal : Option Refusal) (attendance : Option ℕ)
        (start stop fresh : ℕ)
        → IsFresh fresh (rows s)
        → Step s (create_entry entries org user input refusal attendance start stop fresh s).0
    entry_edited :
        (org user id : ℕ) (input : EntryInput) (refusal : Option Refusal)
        (attendance start stop : Option ℕ)
        → Step s (edit_entry entries org user id input refusal attendance start stop s).0
    week_submitted :
        (org user week start stop now fresh : ℕ) (ts : timesheets.State)
        → Step s
            (submit_timesheet entries timesheets org user week start stop now fresh (s, ts)).0.0
    week_reviewed :
        (p : TimeEntry → Bool) (status : EntryStatus)
        → Step s (entries.update_many p (λ e. record e { status = status }) s)

  pub data Reach (s : entries.State) : entries.State → Type 0 where
    here : Reach s s
    next : {t u : entries.State} → Reach s t → Step t u → Reach s u

  submitted-Disjoint :
      (org user week start stop now fresh : ℕ) (s : entries.State) (ts : timesheets.State)
      → Disjoint (rows s)
      → Disjoint (
          rows (submit_timesheet entries timesheets org user week start stop now fresh (s, ts)).0.0)
  unfolding submit_timesheet
  submitted-Disjoint org user week start stop now fresh s ts d =
      if_keeps Kept
        (is_some (
          find_first entries
            (λ e. is_own org user e && (is_running e && in_week entries start stop e)) s))
        (λ t. d)
        (λ f.
          elim (Option-cases (
            sheet_refusal entries timesheets
              (find_first timesheets (is_sheet entries timesheets org user week) ts))) [
                | inl n ↦ rw n (
                    if_keeps Kept
                      (count entries (is_submittable entries org user start stop) s == 0) (λ t. d)
                      (λ f.
                        status-Disjoint entries (is_submittable entries org user start stop)
                          (λ e. submitted) s d))
                | inr (e, n) ↦ rw n d
              ])
    where
      Kept : (entries.State × timesheets.State) × Option Refusal → Type 0
      Kept r = Disjoint (rows r.0.0)

  Step-Disjoint : {s t : entries.State} → Step s t → Disjoint (rows s) → Disjoint (rows t)
  Step-Disjoint {s} (timer_started org user input refusal attendance now started_at fresh later new)
        d =
      start_timer-Disjoint entries org user input refusal attendance now started_at fresh s later
        new d
  Step-Disjoint {s} (timer_stopped org user attendance now) d =
      stop_timer-Disjoint entries org user attendance now s d
  Step-Disjoint {s} (entry_created org user input refusal attendance start stop fresh new) d =
      create_entry-Disjoint entries org user input refusal attendance start stop fresh s new d
  Step-Disjoint {s} (entry_edited org user id input refusal attendance start stop) d =
      edit_entry-Disjoint entries org user id input refusal attendance start stop s d
  Step-Disjoint {s} (week_submitted org user week start stop now fresh ts) d =
      submitted-Disjoint org user week start stop now fresh s ts d
  Step-Disjoint {s} (week_reviewed p status) d = status-Disjoint entries p (λ e. status) s d

  -- A user's time is never booked twice: from entries that do not overlap, any sequence of starting
  -- and stopping timers, creating and editing entries, and submitting and reviewing weeks, by any
  -- users, leads to entries of which no two of one user overlap, a running timer lasting without end.
  pub Reach-Disjoint : {s t : entries.State} → Reach s t → Disjoint (rows s) → Disjoint (rows t)
  Reach-Disjoint here d = d
  Reach-Disjoint (next r step) d = Step-Disjoint step (Reach-Disjoint r d)
