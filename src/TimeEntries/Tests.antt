-- ===== src/TimeEntries/Tests.antt =====
-- A timer that is started and stopped, and a completed entry that is submitted, over list tables.
use attenda_api.Base.{
  ◌≡◌, refl, false, some, none, List, [], ◌∷◌, list_table, count, arith, find_first, Option,
}
use attenda_api.TimeEntries.{
  TimeEntry, Timesheet, EntryInput, start_timer, stop_timer, submit_timesheet, is_sheet, Refusal,
  submitted, new_entry,
}
use attenda_api.TimeEntries.Disjoint.{Disjoint}
use attenda_api.TimeEntries.Reach.{here, next, timer_started, timer_stopped, Reach-Disjoint}
use attenda_api.TimeEntries.Submit.{is_left_over, submit_timesheet-closes}

abbrev input : EntryInput
input = record { project_id = none; task_id = none; billable = false; description = none }

abbrev running : List TimeEntry
running = (start_timer (list_table TimeEntry) 2 7 input none none 5000 5001 31 []).0

abbrev worked : List TimeEntry
worked = (stop_timer (list_table TimeEntry) 2 7 (λ at. none) 9000000 running).0

Reach-Disjoint_example : Disjoint worked
Reach-Disjoint_example =
    Reach-Disjoint (list_table TimeEntry) (list_table Timesheet)
      (next (next here (timer_started 2 7 input none none 5000 5001 31 (omega arith) tt))
        (timer_stopped 2 7 (λ at. none) 9000000))
      tt

abbrev morning : TimeEntry
morning = new_entry (list_table TimeEntry) 2 7 input none 1000 (some 3601000) 60 false 30

abbrev submission : (List TimeEntry × List Timesheet) × Option Refusal
submission =
    submit_timesheet (list_table TimeEntry) (list_table Timesheet) 2 7 0 0 604800000 8000000 40
      (morning ∷ [], [])

submit_timesheet-closes_example :
    (count (list_table TimeEntry) (is_left_over 2 7 0 604800000) submission.0.0 ≡ 0)
    × ((t : Timesheet) × (find_first
            (list_table Timesheet)
            (is_sheet (list_table TimeEntry) (list_table Timesheet) 2 7 0)
            submission.0.1
          ≡ some t)
        × (t.status ≡ submitted))
unfolding submit_timesheet
submit_timesheet-closes_example =
    submit_timesheet-closes (list_table TimeEntry) (list_table Timesheet) 2 7 0 0 604800000 8000000
      40 (morning ∷ []) [] refl
