-- ===== src/Breaks/Totals.antt =====
-- The sums of calculateBreakTotals in src/utils/attendance.ts.
use attenda_api.Base.{ℕ, ◌+◌, ◌≤◌, ◌≡◌, refl, ◌∙◌, List, [], ◌∷◌, sum_of, find_many, arith, Table}
use attenda_api.Breaks.{
  BreakRecord, Attendance, BreakSettlement, duration, paid_of, unpaid_of, totals_from, is_closed,
  calculate_break_totals,
}
use attenda_api.Shift.{DateFnsTz}

pub paid_of-le : (b : BreakRecord) → paid_of b ≤ duration b
unfolding paid_of
paid_of-le b = ground arith

abbrev pub sums : List BreakRecord → BreakSettlement
sums bs = record {
  paid_mins = sum_of paid_of bs;
  unpaid_mins = sum_of unpaid_of bs;
  total_mins = sum_of paid_of bs + sum_of unpaid_of bs;
}

totals_from-sums :
    (p u : ℕ) (bs : List BreakRecord)
    → totals_from p u bs ≡ record {
      paid_mins = p + sum_of paid_of bs;
      unpaid_mins = u + sum_of unpaid_of bs;
      total_mins = p + sum_of paid_of bs + (u + sum_of unpaid_of bs);
    }
unfolding totals_from
totals_from-sums p u [] = ground arith
totals_from-sums p u (b ∷ bs) = totals_from-sums (p + paid_of b) (u + unpaid_of b) bs ∙ ground arith

pub sums-duration : (bs : List BreakRecord) → (sums bs).total_mins ≡ sum_of duration bs
sums-duration [] = omega arith
sums-duration (b ∷ bs) = omega (arith, paid_of-le b, sums-duration bs)

module _ (lib : DateFnsTz) (breaks : Table BreakRecord) (attendances : Table Attendance) where
  pub calculate_break_totals-sums :
      (attendance_id : ℕ) (db : breaks.State)
      → calculate_break_totals lib breaks attendances attendance_id db
        ≡ sums (find_many breaks (is_closed attendance_id) db)
  unfolding calculate_break_totals
  calculate_break_totals-sums attendance_id db =
      totals_from-sums 0 0 (find_many breaks (is_closed attendance_id) db) ∙ ground arith

  -- The total of the breaks of a day is the sum of the durations of its ended breaks, the paid and
  -- the unpaid minutes add up to it, and no break counts for more paid minutes than it lasted.
  pub calculate_break_totals-duration :
      (attendance_id : ℕ) (db : breaks.State)
      → let t = calculate_break_totals lib breaks attendances attendance_id db in
        (t.total_mins ≡ sum_of duration (find_many breaks (is_closed attendance_id) db))
        × (t.paid_mins + t.unpaid_mins ≡ t.total_mins)
        × (t.paid_mins ≡ sum_of paid_of (find_many breaks (is_closed attendance_id) db))
  calculate_break_totals-duration attendance_id db =
      rw (calculate_break_totals-sums attendance_id db) (sums-duration _, refl, refl)
