-- ===== src/Breaks/Settle.antt =====
-- settleBreaks of src/utils/attendance.ts: no break stays open, its result is what the rows say
-- afterwards, and settling again changes nothing.
use attenda_api.Base.{
  ℕ, ◌+◌, ◌≤◌, ◌≡◌, refl, ◌∙◌, sym, subst, String, Bool, true, false, Option, some, inl, inr, List,
  [], ◌∷◌, ◌++◌, All, sum_of, any, filter_by, update_by, find_many, if◌then◌else◌, ◌==◌, arith,
  Table, Bool-cases, ==_refl, filter_by-append, sum_of-append,
}
use attenda_api.Breaks.{
  BreakRecord, ShiftBreak, Attendance, paid_of, unpaid_of, is_closed, is_open, deducted_break,
  template_missing, taken_for, close_breaks, deduct_missed,
}
use attenda_api.Shift.{DateFnsTz}

-- Every row that is still open is one of the breaks that are left to close.
abbrev pub OpenIn : ℕ → List BreakRecord → BreakRecord → Type 0
OpenIn a bs r = is_open a r ≡ true → any (λ b. r.id == b.id) bs ≡ true

OpenIn-weaken :
    (a : ℕ) (x : BreakRecord) (bs rows : List BreakRecord)
    → All (OpenIn a bs) rows
    → All (OpenIn a (x ∷ bs)) rows
OpenIn-weaken a x bs [] h = tt
OpenIn-weaken a x bs (r ∷ rs) h = (λ o. ground (arith, h.0 o), OpenIn-weaken a x bs rs h.1)

OpenIn-cons :
    (a : ℕ) (r : BreakRecord) (bs rs : List BreakRecord) (b : Bool)
    → is_open a r ≡ b
    → All (OpenIn a bs) rs
    → All (OpenIn a (if b then r ∷ bs else bs)) (r ∷ rs)
OpenIn-cons a r bs rs true e h = (λ o. ground (arith, ==_refl r.id), OpenIn-weaken a r bs rs h)
OpenIn-cons a r bs rs false e h = (λ o. cc, h)

pub OpenIn-find :
    (a : ℕ) (rows : List BreakRecord) → All (OpenIn a (filter_by (is_open a) rows)) rows
OpenIn-find a [] = tt
OpenIn-find a (r ∷ rs) = OpenIn-cons a r _ rs (is_open a r) refl (OpenIn-find a rs)

module _ (lib : DateFnsTz) (breaks : Table BreakRecord) (attendances : Table Attendance) where
  open breaks use {State, rows}

  abbrev pub open_rows : ℕ → State → List BreakRecord
  open_rows a db = find_many breaks (is_open a) db

  abbrev pub closed_rows : ℕ → State → List BreakRecord
  closed_rows a db = find_many breaks (is_closed a) db

  pub none_open :
      (a : ℕ) (rs : List BreakRecord) → All (OpenIn a []) rs → filter_by (is_open a) rs ≡ []
  none_open a [] h = refl
  none_open a (r ∷ rs) h = elim (Bool-cases (is_open a r)) [
    | inl e ↦ cc (h.0 e)
    | inr e ↦ rw e (none_open a rs h.1)
  ]

  close_step :
      (a : ℕ) (b : BreakRecord) (bs rs : List BreakRecord) (at mins : ℕ) (late : Option ℕ)
      → All (OpenIn a (b ∷ bs)) rs
      → All (OpenIn a bs) (
          update_by
            (λ r. r.id == b.id)
            (λ r. record r {
              break_end = some at;
              duration_mins = some mins;
              auto_ended = true;
              late_return_minutes = late;
            })
            rs)
  close_step a b bs [] at mins late h = tt
  close_step a b bs (r ∷ rs) at mins late h = elim (Bool-cases (r.id == b.id)) [
    | inl e ↦ rw e (λ o. ground arith, close_step a b bs rs at mins late h.1)
    | inr e ↦ rw e (λ o. ground (arith, h.0 o), close_step a b bs rs at mins late h.1)
  ]

  pub close_breaks-none_open :
      (a : ℕ) (bs : List BreakRecord) (at : ℕ) (tz : String) (db : State)
      → All (OpenIn a bs) (rows db)
      → open_rows a (close_breaks lib breaks attendances bs at tz db) ≡ []
  unfolding close_breaks
  close_breaks-none_open a [] at tz db h = none_open a (rows db) h
  close_breaks-none_open a (b ∷ bs) at tz db h = close_breaks-none_open a bs at tz _ (
      subst (All (OpenIn a bs)) (sym (breaks.rows-update_many _ _ db))
        (close_step a b bs (rows db) at _ _ h))

  -- What one deducted break adds to the rows that count.
  pub create_step :
      (a : ℕ) (s : ShiftBreak) (n mins at : ℕ) (db : State)
      → closed_rows a (breaks.create (deducted_break lib n a s mins at) db)
        ≡ closed_rows a db ++ deducted_break lib n a s mins at ∷ []
  create_step a s n mins at db =
      rw (breaks.rows-create (deducted_break lib n a s mins at) db)
        (filter_by-append (is_closed a) (rows db) _ ∙ ground (arith, ==_refl a))

  pub unpaid_deducted :
      (n a mins at : ℕ) (s : ShiftBreak) → unpaid_of (deducted_break lib n a s mins at) ≡ mins
  unfolding paid_of
  unpaid_deducted n a mins at s = omega arith

  paid_deducted :
      (n a mins at : ℕ) (s : ShiftBreak) → paid_of (deducted_break lib n a s mins at) ≡ 0
  unfolding paid_of
  paid_deducted n a mins at s = refl

  module _ (fresh : ShiftBreak → ℕ) (a : Attendance) (check_in : ℕ) (closed : List BreakRecord)
      (at : ℕ) (tz : String) where
    abbrev pub deduct_one : ShiftBreak → ℕ → State → State
    deduct_one s mins db =
        if mins == 0 then db else breaks.create (deducted_break lib (fresh s) a.id s mins at) db

    -- A sum over the rows that count grows by what the written row contributes.
    pub deduct_one-sum :
        (f : BreakRecord → ℕ) (s : ShiftBreak) (mins : ℕ) (db : State)
        → sum_of f (closed_rows a.id (deduct_one s mins db))
          ≡ sum_of f (closed_rows a.id db)
            + (if mins == 0 then 0 else f (deducted_break lib (fresh s) a.id s mins at))
    deduct_one-sum f s mins db = elim (Bool-cases (mins == 0)) [
      | inl e ↦ rw e (omega arith)
      | inr e ↦ rw e (
          rw (create_step a.id s (fresh s) mins at db)
            (sum_of-append f (closed_rows a.id db) _ ∙ omega arith))
    ]

    pub deduct_missed-unpaid :
        (ss : List ShiftBreak) (missing : ℕ) (db : State)
        → let r =
            deduct_missed lib breaks attendances fresh a check_in closed ss at tz missing db in
          sum_of unpaid_of (closed_rows a.id r.0) + missing
          ≡ sum_of unpaid_of (closed_rows a.id db) + r.1
    unfolding deduct_missed
    deduct_missed-unpaid [] missing db = refl
    deduct_missed-unpaid (s ∷ ss) missing db =
        let mins = template_missing lib a check_in closed s at tz in
        ground (
          arith,
          deduct_missed-unpaid ss (missing + mins) (deduct_one s mins db),
          deduct_one-sum unpaid_of s mins db,
          unpaid_deducted (fresh s) a.id mins at s,
        )

    pub deduct_missed-paid :
        (ss : List ShiftBreak) (missing : ℕ) (db : State)
        → let r =
            deduct_missed lib breaks attendances fresh a check_in closed ss at tz missing db in
          sum_of paid_of (closed_rows a.id r.0) ≡ sum_of paid_of (closed_rows a.id db)
    unfolding deduct_missed
    deduct_missed-paid [] missing db = refl
    deduct_missed-paid (s ∷ ss) missing db =
        let mins = template_missing lib a check_in closed s at tz in
        ground (
          arith,
          deduct_missed-paid ss (missing + mins) (deduct_one s mins db),
          deduct_one-sum paid_of s mins db,
          paid_deducted (fresh s) a.id mins at s,
        )

    -- The rows that count for a break only grow.
    pub deduct_missed-taken :
        (t : ShiftBreak) (ss : List ShiftBreak) (missing : ℕ) (db : State)
        → let r =
            deduct_missed lib breaks attendances fresh a check_in closed ss at tz missing db in
          taken_for lib t (closed_rows a.id db) ≤ taken_for lib t (closed_rows a.id r.0)
    unfolding deduct_missed taken_for
    deduct_missed-taken t [] missing db = omega arith
    deduct_missed-taken t (s ∷ ss) missing db =
        let mins = template_missing lib a check_in closed s at tz in
        omega (
          arith,
          deduct_missed-taken t ss (missing + mins) (deduct_one s mins db),
          deduct_one-sum _ s mins db,
        )
