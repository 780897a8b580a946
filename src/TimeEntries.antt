-- ===== src/TimeEntries.antt =====
-- src/routes/time-tracking.ts: timers, time entries and the submission of a week. The rows of the
-- attendance and the bounds of a week, which other files compute, are arguments; a request's dates
-- have been read already. Instants are milliseconds, identifiers numbers; each operation runs under
-- the user's lock and returns what it throws, `none` where it throws nothing.
pub mod Disjoint
pub mod Steps
pub mod Reach
pub mod Submit
pub mod Tests
use attenda_api.Base.{
  ℕ, ◌+◌, ◌*◌, ◌-◌, ◌/◌, max, String, Bool, true, false, ◌&&◌, ◌||◌, not, Option, none, some, List,
  [], ◌∷◌, ltb, leb, ◌==◌, if◌then◌else◌, or_default, is_some, any, Table, find_first, count,
  find_by,
}

pub data EntryStatus : Type 0 where
  draft submitted rejected approved locked : EntryStatus

pub record TimeEntry : Type 0 where
  pub id : ℕ
  pub org_id : ℕ
  pub user_id : ℕ
  pub project_id : Option ℕ
  pub task_id : Option ℕ
  pub attendance_id : Option ℕ
  pub started_at : ℕ
  pub ended_at : Option ℕ
  pub minutes : ℕ
  pub status : EntryStatus
  -- `source` is 'timer', and otherwise 'manual'.
  pub from_timer : Bool
  pub billable : Bool
  pub description : Option String

pub record Timesheet : Type 0 where
  pub id : ℕ
  pub org_id : ℕ
  pub user_id : ℕ
  pub week_start : ℕ
  pub status : EntryStatus
  pub submitted_at : Option ℕ
  pub reviewed_by : Option ℕ
  pub reviewed_at : Option ℕ
  pub review_note : Option String

pub data Refusal : Type 0 where
  timer_already_running overlaps no_running_timer timer_already_stopped end_before_start too_long :
      Refusal
  entry_not_found not_editable time_entry_conflict timer_in_week already_approved : Refusal
  already_submitted nothing_to_submit task_not_found project_not_found : Refusal

-- A project task, and the rows that decide who may book time on a project.
pub record ProjectTask : Type 0 where
  pub id : ℕ
  pub project_id : ℕ
  pub project_org_id : ℕ
  pub assignee_id : Option ℕ

pub record Projects : Type 0 where
  pub tasks : List ProjectTask
  -- Projects with their organization, and members of projects.
  pub projects : List (ℕ × ℕ)
  pub project_members : List (ℕ × ℕ)

abbrev pub is_pair : ℕ → ℕ → ℕ × ℕ → Bool
is_pair a b p = p.0 == a && p.1 == b

abbrev pub opt_is : ℕ → Option ℕ → Bool
opt_is n none = false
opt_is n (some m) = n == m

abbrev pub assignee_of : Option ProjectTask → Option ℕ
assignee_of none = none
assignee_of (some t) = t.assignee_id

-- Whether the user may book on the project; `manages` is the permission projects.manage.
abbrev pub check_project : ℕ → ℕ → Bool → Projects → ℕ → Option ProjectTask → Option Refusal
check_project org user manages db project task =
    if not (any (is_pair project org) db.projects)
    then some project_not_found
    else if manages
        || any (is_pair project user) db.project_members
        || opt_is user (assignee_of task)
    then none
    else some project_not_found

abbrev pub check_task : ℕ → ℕ → Bool → Projects → Option ProjectTask → Option Refusal
check_task org user manages db none = some task_not_found
check_task org user manages db (some t) = check_project org user manages db t.project_id (some t)

unfoldable pub validate_project_task :
    ℕ → ℕ → Bool → Projects → Option ℕ → Option ℕ → Option Refusal
validate_project_task org user manages db none none = none
validate_project_task org user manages db (some project) none =
    check_project org user manages db project none
validate_project_task org user manages db project (some task) =
    check_task org user manages db (find_by (λ t. t.id == task && t.project_org_id == org) db.tasks)

-- `Math.round` of a span of milliseconds in minutes.
abbrev pub minutes_between : ℕ → ℕ → ℕ
minutes_between start stop = (stop - start + 30000) / 60000

abbrev pub is_own : ℕ → ℕ → TimeEntry → Bool
is_own org user e = e.org_id == org && e.user_id == user

abbrev pub is_running : TimeEntry → Bool
is_running e = not (is_some e.ended_at)

-- Still running, or ended after an instant.
abbrev pub lasts_beyond : ℕ → Option ℕ → Bool
lasts_beyond at none = true
lasts_beyond at (some ended) = ltb at ended

abbrev pub is_editable : EntryStatus → Bool
is_editable draft = true
is_editable rejected = true
is_editable submitted = false
is_editable approved = false
is_editable locked = false

abbrev pub is_draft : EntryStatus → Bool
is_draft draft = true
is_draft _ = false

abbrev pub is_except : Option ℕ → TimeEntry → Bool
is_except none e = true
is_except (some id) e = not (e.id == id)

-- intervalOverlapWhere
abbrev pub interval_overlap : ℕ → ℕ → ℕ → ℕ → Option ℕ → TimeEntry → Bool
interval_overlap org user start stop except e =
    (is_own org user e && is_except except e)
    && (ltb e.started_at stop && lasts_beyond start e.ended_at)

-- The condition that keeps a timer from starting.
abbrev pub timer_overlap : ℕ → ℕ → ℕ → TimeEntry → Bool
timer_overlap org user now e =
    is_own org user e
    && ((leb e.started_at now && lasts_beyond now e.ended_at) || ltb now e.started_at)

pub record EntryInput : Type 0 where
  pub project_id : Option ℕ
  pub task_id : Option ℕ
  pub billable : Bool
  pub description : Option String

module _ (entries : Table TimeEntry) where
  abbrev pub new_entry : ℕ → ℕ → EntryInput → Option ℕ → ℕ → Option ℕ → ℕ → Bool → ℕ → TimeEntry
  new_entry org user input attendance start stop minutes timer fresh = record {
    id = fresh;
    org_id = org;
    user_id = user;
    project_id = input.project_id;
    task_id = input.task_id;
    attendance_id = attendance;
    started_at = start;
    ended_at = stop;
    minutes = minutes;
    status = draft;
    from_timer = timer;
    billable = input.billable;
    description = input.description;
  }

  abbrev pub start_unless :
      ℕ
      → ℕ
      → EntryInput
      → Option ℕ
      → ℕ
      → ℕ
      → entries.State
      → Option TimeEntry
      → entries.State × Option Refusal
  start_unless org user input attendance started_at fresh s none =
      (entries.create (new_entry org user input attendance started_at none 0 true fresh) s, none)
  start_unless org user input attendance started_at fresh s (some e) =
      (s, some (if is_running e then timer_already_running else overlaps))

  -- POST /timer/start. The clock is read for the check before it is read for the start.
  unfoldable pub start_timer :
      ℕ
      → ℕ
      → EntryInput
      → Option Refusal
      → Option ℕ
      → ℕ
      → ℕ
      → ℕ
      → entries.State
      → entries.State × Option Refusal
  start_timer org user input (some e) attendance now started_at fresh s = (s, some e)
  start_timer org user input none attendance now started_at fresh s =
      start_unless org user input attendance started_at fresh s
        (find_first entries (timer_overlap org user now) s)

  abbrev pub is_stoppable : ℕ → ℕ → ℕ → TimeEntry → Bool
  is_stoppable org user id e =
      (e.id == id && is_own org user e) && (is_running e && is_draft e.status)

  -- The row after a timer is stopped; `e` is the timer that was found.
  abbrev pub stopped_row : TimeEntry → Option ℕ → ℕ → TimeEntry → TimeEntry
  stopped_row e attendance now r = record r {
    ended_at = some now;
    minutes = max 1 (minutes_between e.started_at now);
    attendance_id = (elim attendance [ none ↦ e.attendance_id | some a ↦ some a ]);
  }

  abbrev pub stop_found :
      ℕ → ℕ → (ℕ → Option ℕ) → ℕ → entries.State → Option TimeEntry → entries.State × Option Refusal
  stop_found org user attendance now s none = (s, some no_running_timer)
  stop_found org user attendance now s (some e) =
      if count entries (is_stoppable org user e.id) s == 0
      then (s, some timer_already_stopped)
      else (
        entries.update_many (is_stoppable org user e.id)
            (stopped_row e (attendance e.started_at) now) s,
        none,
      )

  -- POST /timer/stop
  unfoldable pub stop_timer :
      ℕ → ℕ → (ℕ → Option ℕ) → ℕ → entries.State → entries.State × Option Refusal
  stop_timer org user attendance now s =
      stop_found org user attendance now s
        (find_first entries (λ e. is_own org user e && is_running e) s)

  -- POST /entries
  unfoldable pub create_entry :
      ℕ
      → ℕ
      → EntryInput
      → Option Refusal
      → Option ℕ
      → ℕ
      → ℕ
      → ℕ
      → entries.State
      → entries.State × Option Refusal
  create_entry org user input refusal attendance start stop fresh s =
      if leb stop start
      then (s, some end_before_start)
      else if ltb (24 * 60) (minutes_between start stop)
      then (s, some too_long)
      else if is_some refusal
      then (s, refusal)
      else if is_some (find_first entries (interval_overlap org user start stop none) s)
      then (s, some overlaps)
      else (
        entries.create
            (new_entry org user input attendance start (some stop) (minutes_between start stop)
              false fresh)
            s,
        none,
      )

  abbrev pub is_movable : ℕ → ℕ → ℕ → TimeEntry → Bool
  is_movable org user id e =
      (e.id == id && is_own org user e) && (is_editable e.status && is_some e.ended_at)

  abbrev pub moved_row : ℕ → ℕ → EntryInput → Option ℕ → TimeEntry → TimeEntry
  moved_row start stop input attendance e = record e {
    status = draft;
    started_at = start;
    ended_at = some stop;
    minutes = minutes_between start stop;
    project_id = input.project_id;
    task_id = input.task_id;
    attendance_id = attendance;
    description = input.description;
    billable = input.billable;
  }

  -- The edit of an entry that was found and is complete; `ended` is its end. The fields of the input
  -- that the request leaves out are those of the entry.
  abbrev pub edit_found :
      ℕ
      → ℕ
      → EntryInput
      → Option Refusal
      → Option ℕ
      → Option ℕ
      → Option ℕ
      → entries.State
      → TimeEntry
      → ℕ
      → entries.State × Option Refusal
  edit_found org user input refusal attendance start stop s e ended =
      let from = or_default start e.started_at in
      let until = or_default stop ended in
      if leb until from
      then (s, some end_before_start)
      else if ltb (24 * 60 * 60 * 1000) (until - from)
      then (s, some too_long)
      else if is_some refusal
      then (s, refusal)
      else if is_some (find_first entries (interval_overlap org user from until (some e.id)) s)
      then (s, some overlaps)
      else if count entries (is_movable org user e.id) s == 0
      then (s, some time_entry_conflict)
      else (
        entries.update_many (is_movable org user e.id) (moved_row from until input attendance) s,
        none,
      )

  abbrev pub edit_checked :
      ℕ
      → ℕ
      → EntryInput
      → Option Refusal
      → Option ℕ
      → Option ℕ
      → Option ℕ
      → entries.State
      → Option TimeEntry
      → entries.State × Option Refusal
  edit_checked org user input refusal attendance start stop s none = (s, some entry_not_found)
  edit_checked org user input refusal attendance start stop s (some e) =
      if is_editable e.status
      then (elim e.ended_at [
        | none ↦ (s, some not_editable)
        | some ended ↦ edit_found org user input refusal attendance start stop s e ended
      ])
      else (s, some not_editable)

  -- PUT /entries/:id
  unfoldable pub edit_entry :
      ℕ
      → ℕ
      → ℕ
      → EntryInput
      → Option Refusal
      → Option ℕ
      → Option ℕ
      → Option ℕ
      → entries.State
      → entries.State × Option Refusal
  edit_entry org user id input refusal attendance start stop s =
      edit_checked org user input refusal attendance start stop s
        (find_first entries (λ e. e.id == id && is_own org user e) s)

  abbrev pub in_week : ℕ → ℕ → TimeEntry → Bool
  in_week start stop e = leb start e.started_at && ltb e.started_at stop

  abbrev pub is_submittable : ℕ → ℕ → ℕ → ℕ → TimeEntry → Bool
  is_submittable org user start stop e =
      (is_own org user e && in_week start stop e) && (is_editable e.status && is_some e.ended_at)

  module _ (timesheets : Table Timesheet) where
    abbrev pub is_sheet : ℕ → ℕ → ℕ → Timesheet → Bool
    is_sheet org user week t = (t.org_id == org && t.user_id == user) && t.week_start == week

    abbrev pub sheet_refusal : Option Timesheet → Option Refusal
    sheet_refusal none = none
    sheet_refusal (some t) = elim t.status [
      | draft ↦ none
      | submitted ↦ some already_submitted
      | rejected ↦ none
      | approved ↦ some already_approved
      | locked ↦ some already_approved
    ]

    abbrev pub submit_sheet : ℕ → ℕ → ℕ → ℕ → ℕ → timesheets.State → timesheets.State
    submit_sheet org user week now fresh ts =
        if is_some (find_first timesheets (is_sheet org user week) ts)
        then timesheets.update_many (is_sheet org user week)
            (λ t. record t {
              status = submitted;
              submitted_at = some now;
              reviewed_by = none;
              reviewed_at = none;
              review_note = none;
            })
            ts
        else timesheets.create
            (record {
              id = fresh;
              org_id = org;
              user_id = user;
              week_start = week;
              status = submitted;
              submitted_at = some now;
              reviewed_by = none;
              reviewed_at = none;
              review_note = none;
            })
            ts

    -- POST /timesheets/submit, the week being from `start` to `stop`.
    unfoldable pub submit_timesheet :
        ℕ
        → ℕ
        → ℕ
        → ℕ
        → ℕ
        → ℕ
        → ℕ
        → entries.State × timesheets.State
        → (entries.State × timesheets.State) × Option Refusal
    submit_timesheet org user week start stop now fresh (s, ts) =
        if is_some
          (find_first entries (λ e. is_own org user e && (is_running e && in_week start stop e)) s)
        then ((s, ts), some timer_in_week)
        else (elim (sheet_refusal (find_first timesheets (is_sheet org user week) ts)) [
          | some e ↦ ((s, ts), some e)
          | none ↦
              if count entries (is_submittable org user start stop) s == 0
              then ((s, ts), some nothing_to_submit)
              else (
                (
                  entries.update_many (is_submittable org user start stop)
                      (λ e. record e { status = submitted }) s,
                  submit_sheet org user week now fresh ts,
                ),
                none,
              )
        ])
