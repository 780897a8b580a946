-- ===== src/Breaks/Result.antt =====
-- What a checkout gets from settleBreaks in src/utils/attendance.ts.
use attenda_api.Base.{
  ℕ, ◌+◌, ◌≡◌, refl, String, Option, none, some, List, sum_of, find_first, ◌==◌, arith, Table,
  find_by-true, ==_iff,
}
use attenda_api.Breaks.{
  BreakRecord, ShiftBreak, Attendance, paid_of, unpaid_of, close_breaks, settle_attendance,
  settle_breaks, calculate_break_totals,
}
use attenda_api.Breaks.Totals.{calculate_break_totals-sums}
use attenda_api.Breaks.Settle.{open_rows, closed_rows, deduct_missed-unpaid, deduct_missed-paid}
use attenda_api.Shift.{DateFnsTz}

module _ (lib : DateFnsTz) (breaks : Table BreakRecord) (attendances : Table Attendance) where
  open breaks use {State, rows}

  module _ (fresh : ShiftBreak → ℕ) where
    -- The deductions, seen from the attendance's rows, whichever attendance was found.
    pub settle_attendance-sums :
        (id : ℕ) (found : Option Attendance) (closed : List BreakRecord) (at : ℕ) (tz : String)
        (db : State)
        → ((a : Attendance) → found ≡ some a → a.id ≡ id)
        → let r = settle_attendance lib breaks attendances fresh found closed at tz db in
          (sum_of unpaid_of (closed_rows lib breaks attendances id r.0)
            ≡ sum_of unpaid_of (closed_rows lib breaks attendances id db) + r.1)
          × (sum_of paid_of (closed_rows lib breaks attendances id r.0)
              ≡ sum_of paid_of (closed_rows lib breaks attendances id db))
    unfolding settle_attendance
    settle_attendance-sums id none closed at tz db own = (omega arith, refl)
    settle_attendance-sums id (some a) closed at tz db own =
        go a.shift_breaks a.check_in_at refl refl
      where
        go :
            (ss : Option (List ShiftBreak)) (check_in : Option ℕ)
            → a.shift_breaks ≡ ss
            → a.check_in_at ≡ check_in
            → let r = settle_attendance lib breaks attendances fresh (some a) closed at tz db in
              (sum_of unpaid_of (closed_rows lib breaks attendances id r.0)
                ≡ sum_of unpaid_of (closed_rows lib breaks attendances id db) + r.1)
              × (sum_of paid_of (closed_rows lib breaks attendances id r.0)
                  ≡ sum_of paid_of (closed_rows lib breaks attendances id db))
        go none c e f = rw (e, settle_attendance) (omega arith, refl)
        go (some ss) none e f =
            rw (e, settle_attendance) (rw (f, settle_attendance) (omega arith, refl))
        go (some ss) (some c) e f =
            rw (e, settle_attendance)
              (rw (f, settle_attendance)
                (rw (← own a refl) (
                  omega (
                    arith,
                    deduct_missed-unpaid lib breaks attendances fresh a c closed at tz ss 0 db,
                  ),
                  deduct_missed-paid lib breaks attendances fresh a c closed at tz ss 0 db,
                )))

    -- The settlement that a checkout gets is the break totals of the rows that it leaves behind:
    -- the deducted breaks that were written count exactly once.
    pub settle_breaks-totals :
        (id at : ℕ) (tz : String) (db : State) (adb : attendances.State)
        → let r = settle_breaks lib breaks attendances fresh id at tz db adb in
          r.1 ≡ calculate_break_totals lib breaks attendances id r.0
    unfolding settle_breaks
    settle_breaks-totals id at tz db adb =
        let db' =
          close_breaks lib breaks attendances (open_rows lib breaks attendances id db) at tz db in
        let found = find_first attendances (λ a. a.id == id) adb in
        let closed = closed_rows lib breaks attendances id db' in
        let s =
          settle_attendance-sums id found closed at tz db'
            (λ a e. (==_iff a.id id).0 (find_by-true (λ a. a.id == id) (attendances.rows adb) e)) in
        rw (calculate_break_totals-sums lib breaks attendances id db') (
          rw
            (calculate_break_totals-sums lib breaks attendances id
              (settle_attendance lib breaks attendances fresh found closed at tz db').0)
            (ground (arith, s.0, s.1)))
