-- ===== src/TimeEntries/Submit.antt =====
-- The submission of a week (src/routes/time-tracking.ts).
use attenda_api.Base.{
  ℕ, Bool, true, false, ◌≡◌, refl, if_keeps, inl, inr, ◌&&◌, Option, none, some, is_some,
  Option-cases, Table, List, [], ◌∷◌, find_first, count, ◌==◌, arith, ltb, leb, find_by, count_by,
  update_by, Bool-cases, find_by-append, find_by-update_by, find_by-true,
}
use attenda_api.TimeEntries.{
  EntryStatus, draft, submitted, approved, rejected, locked, TimeEntry, Timesheet, Refusal, is_own,
  is_running, in_week, is_submittable, is_sheet, sheet_refusal, submit_sheet, submit_timesheet,
}

-- A status with which the user may still change an entry.
abbrev pub is_unsubmitted : EntryStatus → Bool
is_unsubmitted draft = true
is_unsubmitted rejected = true
is_unsubmitted submitted = false
is_unsubmitted approved = false
is_unsubmitted locked = false

-- An entry that a user began in a week and may still change, whether it runs or is complete.
abbrev pub is_left_over : ℕ → ℕ → ℕ → ℕ → TimeEntry → Bool
is_left_over org user start stop e =
    (e.org_id == org && e.user_id == user)
    && ((leb start e.started_at && ltb e.started_at stop) && is_unsubmitted e.status)

module _ (entries : Table TimeEntry) (timesheets : Table Timesheet) where
  open entries use {rows}

  abbrev runs_in_week : ℕ → ℕ → ℕ → ℕ → TimeEntry → Bool
  runs_in_week org user start stop e =
      is_own org user e && (is_running e && in_week entries start stop e)

  -- Without a running entry, the update of the complete ones leaves no entry over.
  none_left :
      (org user start stop : ℕ) (xs : List TimeEntry)
      → is_some (find_by (runs_in_week org user start stop) xs) ≡ false
      → count_by (is_left_over org user start stop) (
          update_by
            (is_submittable entries org user start stop)
            (λ e. record e { status = submitted })
            xs)
        ≡ 0
  none_left org user start stop [] f = refl
  none_left org user start stop (x ∷ xs) f =
      elim (Bool-cases (runs_in_week org user start stop x)) [
        | inl t ↦ ground (arith, t, f)
        | inr n ↦
            let rest = none_left org user start stop xs (rw (n) at f) in
            elim (Bool-cases (is_submittable entries org user start stop x)) [
              | inl t ↦ ground (arith, t, rest)
              | inr e ↦ ground (arith, n, e, rest)
            ]
      ]

  submit_sheet-submitted :
      (org user week now fresh : ℕ) (ts : timesheets.State)
      → (t : Timesheet) × (find_first timesheets
            (is_sheet entries timesheets org user week)
            (submit_sheet entries timesheets org user week now fresh ts)
          ≡ some t)
        × (t.status ≡ submitted)
  submit_sheet-submitted org user week now fresh ts =
      let q : Timesheet → Bool = is_sheet entries timesheets org user week in
      elim (Option-cases (find_by q (timesheets.rows ts))) [
        | inl n ↦ rw n (
          made,
          rw (timesheets.rows-create made ts, find_by-append q (timesheets.rows ts) (made ∷ []), n)
              (ground arith),
          refl,
        )
        | inr (t, e) ↦ rw e (
          sent t,
          rw
              (
                timesheets.rows-update_many q sent ts,
                find_by-update_by q q sent (timesheets.rows ts) (λ x. refl),
                e,
                find_by-true q (timesheets.rows ts) e,
              )
              refl,
          refl,
        )
      ]
    where
      sent : Timesheet → Timesheet
      sent t = record t {
        status = submitted;
        submitted_at = some now;
        reviewed_by = none;
        reviewed_at = none;
        review_note = none;
      }

      made : Timesheet
      made = record {
        id = fresh;
        org_id = org;
        user_id = user;
        week_start = week;
        status = submitted;
        submitted_at = some now;
        reviewed_by = none;
        reviewed_at = none;
        review_note = none;
      }

  -- After a week was submitted with success, its user has no entry of the week that is still a
  -- draft or rejected, be it complete or running, and the timesheet of the week is submitted.
  pub submit_timesheet-closes :
      (org user week start stop now fresh : ℕ) (s : entries.State) (ts : timesheets.State)
      → (submit_timesheet entries timesheets org user week start stop now fresh (s, ts)).1 ≡ none
      → (count entries
            (is_left_over org user start stop)
            (submit_timesheet entries timesheets org user week start stop now fresh (s, ts)).0.0
          ≡ 0)
        × ((t : Timesheet) × (find_first timesheets
                (is_sheet entries timesheets org user week)
                (submit_timesheet entries timesheets org user week start stop now fresh (s, ts)).0.1
              ≡ some t)
            × (t.status ≡ submitted))
  unfolding submit_timesheet
  submit_timesheet-closes org user week start stop now fresh s ts done =
      if_keeps Closed (is_some (find_first entries (runs_in_week org user start stop) s))
        (λ t h. cc)
        (λ f.
          elim (Option-cases (
            sheet_refusal entries timesheets
              (find_first timesheets (is_sheet entries timesheets org user week) ts))) [
                | inl n ↦ rw n (
                    if_keeps Closed
                      (count entries (is_submittable entries org user start stop) s == 0)
                      (λ t h. cc)
                      (λ g h. (
                        rw
                            (entries.rows-update_many (is_submittable entries org user start stop)
                              (λ e. record e { status = submitted }) s)
                            (none_left org user start stop (rows s) f),
                        submit_sheet-submitted org user week now fresh ts,
                      )))
                | inr (e, n) ↦ rw n (λ h. cc)
              ])
        done
    where
      Closed : (entries.State × timesheets.State) × Option Refusal → Type 0
      Closed r =
          r.1 ≡ none
          → (count entries (is_left_over org user start stop) r.0.0 ≡ 0)
            × ((t : Timesheet) × (find_first timesheets (is_sheet entries timesheets org user week)
                    r.0.1
                  ≡ some t)
                × (t.status ≡ submitted))
