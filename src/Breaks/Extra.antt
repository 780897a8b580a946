-- ===== src/Breaks/Extra.antt =====
-- Minutes past the shift and net hours (netExtraMinutesAfterShift and netHoursWorked of
-- src/utils/attendance.ts).
use attenda_api.Base.{
  ℕ, ◌+◌, ◌*◌, ◌≤◌, ◌<◌, ◌≡◌, refl, some, List, [], ◌∷◌, All, sum_of, find_many, or_default, arith,
  Table,
}
use attenda_api.Breaks.{
  BreakRecord, Attendance, is_closed, minutes_between, unpaid_overlap,
  net_extra_minutes_after_shift, net_hours_worked,
}
use attenda_api.Shift.{DateFnsTz}

module _ (lib : DateFnsTz) (breaks : Table BreakRecord) (attendances : Table Attendance) where
  open breaks use {State, rows}

  overlap_before :
      (end out : ℕ) (bs : List BreakRecord)
      → All (λ b. or_default b.break_end out ≤ end) bs
      → sum_of (unpaid_overlap lib breaks attendances end out) bs ≡ 0
  unfolding unpaid_overlap
  overlap_before end out [] h = refl
  overlap_before end out (b ∷ bs) h = ground (arith, overlap_before end out bs h.1)

  -- Where every ended break of the day was over by the end of the shift, and the checkout comes
  -- after it, the extra time is the whole time from the end of the shift to the checkout.
  pub net_extra_minutes-full :
      (id out end : ℕ) (db : State)
      → end < out
      → All (λ b. or_default b.break_end out ≤ end) (find_many breaks (is_closed id) db)
      → net_extra_minutes_after_shift lib breaks attendances id out (some end) db
        ≡ minutes_between end out
  unfolding net_extra_minutes_after_shift
  net_extra_minutes-full id out end db late h =
      ground (arith, overlap_before end out (find_many breaks (is_closed id) db) h)

  -- The extra time of a checkout and the unpaid time of its breaks past the end of the shift cover
  -- the time past the end; a checkout by the end has none.
  pub net_extra_minutes-cover :
      (id out end : ℕ) (db : State)
      → (minutes_between end out
          ≤ net_extra_minutes_after_shift lib breaks attendances id out (some end) db
            + sum_of
                (unpaid_overlap lib breaks attendances end out)
                (find_many breaks (is_closed id) db))
        × (net_extra_minutes_after_shift lib breaks attendances id out (some end) db
            ≤ minutes_between end out)
  unfolding net_extra_minutes_after_shift
  net_extra_minutes-cover id out end db = (ground arith, ground arith)

-- Net hours are the gross hours less the unpaid minutes, to the nearest hundredth of an hour (a
-- hundredth is 36 seconds), and 0 where the breaks are longer.
pub net_hours_worked_nearest :
    (gross unpaid : ℕ)
    → unpaid * 100 ≤ gross * 60
    → (net_hours_worked gross unpaid * 60 + unpaid * 100 ≤ gross * 60 + 30)
      × (gross * 60 < net_hours_worked gross unpaid * 60 + unpaid * 100 + 30)
unfolding net_hours_worked
net_hours_worked_nearest gross unpaid h = omega arith
