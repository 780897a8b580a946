-- ===== src/Breaks/Again.antt =====
-- A second settlement at the same instant (settleBreaks of src/utils/attendance.ts).
use attenda_api.Base.{
  ℕ, ◌+◌, ◌≤◌, ◌≡◌, refl, ◌∙◌, ◌⊎◌, sym, String, false, Option, none, some, inl, inr, List, [], ◌∷◌,
  All, filter_by, find_first, if◌then◌else◌, ◌==◌, arith, Table, Bool-cases, Option-cases,
  find_by-true, ==_iff, ==_refl, filter_by-append,
}
use mathlib.Core.List.{append-nil}
use attenda_api.Breaks.{
  BreakRecord, ShiftBreak, Attendance, deducted_break, template_missing, taken_for,
  eligible_minutes, close_breaks, deduct_missed, settle_attendance, settle_breaks,
  calculate_break_totals, is_open, duration,
}
use attenda_api.Breaks.Totals.{calculate_break_totals-sums}
use attenda_api.Breaks.Settle.{
  OpenIn-find, open_rows, closed_rows, close_breaks-none_open, deduct_missed-taken, deduct_one,
  deduct_one-sum,
}
use attenda_api.Breaks.Result.{settle_breaks-totals}
use attenda_api.Shift.{DateFnsTz}

module _ (lib : DateFnsTz) (breaks : Table BreakRecord) (attendances : Table Attendance)
    (fresh : ShiftBreak → ℕ) where
  open breaks use {State, rows}

  module _ (a : Attendance) (check_in : ℕ) (closed : List BreakRecord) (at : ℕ) (tz : String) where
    deduct_one-open :
        (s : ShiftBreak) (mins : ℕ) (db : State)
        → open_rows lib breaks attendances a.id
            (deduct_one lib breaks attendances fresh a check_in closed at tz s mins db)
          ≡ open_rows lib breaks attendances a.id db
    deduct_one-open s mins db = elim (Bool-cases (mins == 0)) [
      | inl e ↦ rw e refl
      | inr e ↦ rw e (
          rw (breaks.rows-create (deducted_break lib (fresh s) a.id s mins at) db) (
            filter_by-append (is_open a.id) (rows db) _
            ∙ ground (arith, ==_refl a.id, append-nil (filter_by (is_open a.id) (rows db)))))
    ]

    deduct_missed-open :
        (ss : List ShiftBreak) (missing : ℕ) (db : State)
        → open_rows lib breaks attendances a.id
            (deduct_missed lib breaks attendances fresh a check_in closed ss at tz missing db).0
          ≡ open_rows lib breaks attendances a.id db
    unfolding deduct_missed
    deduct_missed-open [] missing db = refl
    deduct_missed-open (s ∷ ss) missing db =
        let mins = template_missing lib a check_in closed s at tz in
        deduct_missed-open ss (missing + mins)
          (deduct_one lib breaks attendances fresh a check_in closed at tz s mins db)
        ∙ deduct_one-open s mins db

    -- Where nothing is missing nothing is written.
    deduct_missed-none :
        (ss : List ShiftBreak) (missing : ℕ) (db : State)
        → All (λ s. template_missing lib a check_in closed s at tz ≡ 0) ss
        → deduct_missed lib breaks attendances fresh a check_in closed ss at tz missing db
          ≡ (db, missing)
    unfolding deduct_missed
    deduct_missed-none [] missing db h = refl
    deduct_missed-none (s ∷ ss) missing db h =
        rw (h.0) (deduct_missed-none ss (missing + 0) db h.1 ∙ ground arith)

    deduct_one-grows :
        (t s : ShiftBreak) (mins : ℕ) (db : State)
        → taken_for lib t (closed_rows lib breaks attendances a.id db)
          ≤ taken_for lib t (
              closed_rows lib breaks attendances a.id
                (deduct_one lib breaks attendances fresh a check_in closed at tz s mins db))
    unfolding taken_for
    deduct_one-grows t s mins db =
        omega
          (arith, deduct_one-sum lib breaks attendances fresh a check_in closed at tz _ s mins db)

    deduct_one-covers :
        (s : ShiftBreak) (db : State)
        → taken_for lib s closed ≤ taken_for lib s (closed_rows lib breaks attendances a.id db)
        → eligible_minutes lib a check_in s at tz
          ≤ taken_for lib s (
              closed_rows lib breaks attendances a.id (
                deduct_one lib breaks attendances fresh a check_in closed at tz s
                  (template_missing lib a check_in closed s at tz)
                  db))
    unfolding template_missing
    deduct_one-covers s db h = ground (
      arith,
      deduct_one-sum lib breaks attendances fresh a check_in closed at tz
          (λ b.
            if elim b.shift_break [ none ↦ false | some t ↦ t.id == s.id ] then duration b else 0)
          s (template_missing lib a check_in closed s at tz) db,
      ==_refl s.id,
    )

    covered-zero :
        (s : ShiftBreak) (all : List BreakRecord)
        → eligible_minutes lib a check_in s at tz ≤ taken_for lib s all
        → template_missing lib a check_in all s at tz ≡ 0
    unfolding template_missing
    covered-zero s all h = omega arith

    -- After the loop every break is covered by the rows.
    deduct_missed-covers :
        (ss : List ShiftBreak) (missing : ℕ) (db : State)
        → ((s : ShiftBreak)
            → taken_for lib s closed ≤ taken_for lib s (closed_rows lib breaks attendances a.id db))
        → let r =
            deduct_missed lib breaks attendances fresh a check_in closed ss at tz missing db in
          All
            (λ s.
              template_missing lib a check_in (closed_rows lib breaks attendances a.id r.0) s at tz
              ≡ 0)
            ss
    unfolding deduct_missed
    deduct_missed-covers [] missing db h = tt
    deduct_missed-covers (s ∷ ss) missing db h = (
      covered-zero s _ (
          omega (
            arith,
            deduct_one-covers s db (h s),
            deduct_missed-taken lib breaks attendances fresh a check_in closed at tz s ss
                (missing + template_missing lib a check_in closed s at tz)
                (deduct_one lib breaks attendances fresh a check_in closed at tz s
                  (template_missing lib a check_in closed s at tz) db),
          )),
      deduct_missed-covers ss _ _ (λ t.
          omega
            (arith, h t, deduct_one-grows t s (template_missing lib a check_in closed s at tz) db)),
    )

  -- The deductions leave no break open, and are not repeated.
  settle_attendance-open :
      (id : ℕ) (found : Option Attendance) (closed : List BreakRecord) (at : ℕ) (tz : String)
      (db : State)
      → ((a : Attendance) → found ≡ some a → a.id ≡ id)
      → open_rows lib breaks attendances id
          (settle_attendance lib breaks attendances fresh found closed at tz db).0
        ≡ open_rows lib breaks attendances id db
  unfolding settle_attendance
  settle_attendance-open id none closed at tz db own = refl
  settle_attendance-open id (some a) closed at tz db own = elim (Option-cases a.shift_breaks) [
    | inl e ↦ rw (e, settle_attendance) refl
    | inr (ss, e) ↦ (elim (Option-cases a.check_in_at) [
      | inl f ↦ rw (e, settle_attendance) (rw (f, settle_attendance) refl)
      | inr (c, f) ↦
          rw (e, settle_attendance)
            (rw (f, settle_attendance)
              (rw (← own a refl) (deduct_missed-open a c closed at tz ss 0 db)))
    ])
  ]

  settle_skips :
      (a : Attendance) (closed : List BreakRecord) (at : ℕ) (tz : String) (db : State)
      → (a.shift_breaks ≡ none) ⊎ (a.check_in_at ≡ none)
      → settle_attendance lib breaks attendances fresh (some a) closed at tz db ≡ (db, 0)
  unfolding settle_attendance
  settle_skips a closed at tz db h = ground arith

  settle_deducts :
      (a : Attendance) (ss : List ShiftBreak) (c : ℕ) (closed : List BreakRecord) (at : ℕ)
      (tz : String) (db : State)
      → a.shift_breaks ≡ some ss
      → a.check_in_at ≡ some c
      → settle_attendance lib breaks attendances fresh (some a) closed at tz db
        ≡ deduct_missed lib breaks attendances fresh a c closed ss at tz 0 db
  unfolding settle_attendance
  settle_deducts a ss c closed at tz db e f = ground arith

  settle_attendance-again :
      (id : ℕ) (found : Option Attendance) (at : ℕ) (tz : String) (db : State)
      → ((a : Attendance) → found ≡ some a → a.id ≡ id)
      → let r =
          settle_attendance lib breaks attendances fresh found
            (closed_rows lib breaks attendances id db)
            at
            tz
            db in
        settle_attendance lib breaks attendances fresh found
          (closed_rows lib breaks attendances id r.0)
          at
          tz
          r.0
        ≡ (r.0, 0)
  settle_attendance-again id none at tz db own = unfold settle_attendance in refl
  settle_attendance-again id (some a) at tz db own = go a.shift_breaks a.check_in_at refl refl
    where
      skip :
          (a.shift_breaks ≡ none) ⊎ (a.check_in_at ≡ none)
          → let r =
              settle_attendance lib breaks attendances fresh
                (some a)
                (closed_rows lib breaks attendances id db)
                at
                tz
                db in
            settle_attendance lib breaks attendances fresh
              (some a)
              (closed_rows lib breaks attendances id r.0)
              at
              tz
              r.0
            ≡ (r.0, 0)
      skip h = cc (settle_skips a (closed_rows lib breaks attendances id db) at tz db h)

      go :
          (ss : Option (List ShiftBreak)) (c : Option ℕ)
          → a.shift_breaks ≡ ss
          → a.check_in_at ≡ c
          → let r =
              settle_attendance lib breaks attendances fresh
                (some a)
                (closed_rows lib breaks attendances id db)
                at
                tz
                db in
            settle_attendance lib breaks attendances fresh
              (some a)
              (closed_rows lib breaks attendances id r.0)
              at
              tz
              r.0
            ≡ (r.0, 0)
      go none c e f = skip (inl e)
      go (some ss) none e f = skip (inr f)
      go (some ss) (some c) e f =
          rw (settle_deducts a ss c (closed_rows lib breaks attendances id db) at tz db e f) (
            settle_deducts a ss c _ at tz _ e f
            ∙ rw (← own a refl) (
                deduct_missed-none a c _ at tz ss 0 _ (
                  deduct_missed-covers a c (closed_rows lib breaks attendances a.id db) at tz ss 0
                    db (λ s. omega arith))))

  owns :
      (id : ℕ) (adb : attendances.State) (a : Attendance)
      → find_first attendances (λ a. a.id == id) adb ≡ some a
      → a.id ≡ id
  owns id adb a e = (==_iff a.id id).0 (find_by-true (λ a. a.id == id) (attendances.rows adb) e)

  -- After a settlement no break of the attendance is open.
  pub settle_breaks-none_open :
      (id at : ℕ) (tz : String) (db : State) (adb : attendances.State)
      → open_rows lib breaks attendances id
          (settle_breaks lib breaks attendances fresh id at tz db adb).0
        ≡ []
  unfolding settle_breaks
  settle_breaks-none_open id at tz db adb =
      settle_attendance-open id (find_first attendances (λ a. a.id == id) adb) _ at tz _
        (owns id adb)
      ∙ close_breaks-none_open lib breaks attendances id _ at tz db (OpenIn-find id (rows db))

  close_breaks-nil :
      (id at : ℕ) (tz : String) (db : State)
      → open_rows lib breaks attendances id db ≡ []
      → close_breaks lib breaks attendances (open_rows lib breaks attendances id db) at tz db ≡ db
  unfolding close_breaks
  close_breaks-nil id at tz db e = rw e refl

  resettle :
      (id at : ℕ) (tz : String) (db : State) (adb : attendances.State)
      → open_rows lib breaks attendances id db ≡ []
      → settle_attendance lib breaks attendances fresh
          (find_first attendances (λ a. a.id == id) adb)
          (closed_rows lib breaks attendances id db)
          at
          tz
          db
        ≡ (db, 0)
      → settle_breaks lib breaks attendances fresh id at tz db adb
        ≡ (db, calculate_break_totals lib breaks attendances id db)
  unfolding settle_breaks
  resettle id at tz db adb e f =
      rw (close_breaks-nil id at tz db e)
        (rw f (rw (calculate_break_totals-sums lib breaks attendances id db) (ground arith)))

  -- Settling a second time at the same instant writes nothing and gives the same settlement.
  pub settle_breaks_twice :
      (id at : ℕ) (tz : String) (db : State) (adb : attendances.State)
      → let r = settle_breaks lib breaks attendances fresh id at tz db adb in
        settle_breaks lib breaks attendances fresh id at tz r.0 adb ≡ r
  settle_breaks_twice id at tz db adb =
      resettle id at tz _ adb (settle_breaks-none_open id at tz db adb) (
        unfold settle_breaks in
        settle_attendance-again id (find_first attendances (λ a. a.id == id) adb) at tz
          (close_breaks lib breaks attendances (open_rows lib breaks attendances id db) at tz db)
          (owns id adb))
      ∙ (λ i. (
        (settle_breaks lib breaks attendances fresh id at tz db adb).0,
        sym (settle_breaks-totals lib breaks attendances fresh id at tz db adb) i,
      ))
