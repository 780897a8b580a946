-- ===== src/TimeEntries/Steps.antt =====
-- A user's time never overlaps: the operations of src/routes/time-tracking.ts as steps, and the
-- invariant of every state that they reach.
use attenda_api.Base.{
  ℕ, ◌≤◌, ◌≡◌, refl, inl, inr, Bool, true, false, Option, none, some, List, ltb, leb, ◌*◌, ◌==◌,
  if◌then◌else◌, or_default, is_some, All, All-imp, All-both, if_keeps, ◌-◌, Bool-cases,
  Option-cases, Table, find_first, count, arith,
}
use attenda_api.TimeEntries.{
  EntryStatus, minutes_between, TimeEntry, EntryInput, Refusal, interval_overlap, timer_overlap,
  new_entry, start_unless, start_timer, is_stoppable, stopped_row, stop_found, stop_timer,
  create_entry, is_movable, moved_row, edit_found, edit_checked, edit_entry, is_editable,
}
use attenda_api.TimeEntries.Disjoint.{
  are_apart, Disjoint, Disjoint-append_one, Disjoint-update_by, find_by-none, All-true,
}

-- No entry has an identifier yet.
abbrev pub IsFresh : ℕ → List TimeEntry → Type 0
IsFresh fresh xs = All (λ e. (e.id == fresh) ≡ false) xs

module _ (entries : Table TimeEntry) where
  open entries use {rows}

  abbrev Kept : entries.State × Option Refusal → Type 0
  Kept r = Disjoint (rows r.0)

  created_timer :
      (org user : ℕ) (input : EntryInput) (attendance : Option ℕ) (now started_at fresh : ℕ)
      (s : entries.State) (found : Option TimeEntry)
      → find_first entries (timer_overlap org user now) s ≡ found
      → now ≤ started_at
      → IsFresh fresh (rows s)
      → Disjoint (rows s)
      → Disjoint (rows (start_unless entries org user input attendance started_at fresh s found).0)
  created_timer org user input attendance now started_at fresh s none f later new d =
      rw
        (entries.rows-create
          (new_entry entries org user input attendance started_at none 0 true fresh) s)
        (Disjoint-append_one (rows s) _ d (
          All-imp _ _ (rows s) (λ x h. ground (arith, h.0, h.1, later))
            (All-both _ _ (rows s) new
              (find_by-none (timer_overlap org user now) (rows s) (rw (f) refl)))))
  created_timer org user input attendance now started_at fresh s (some e) f later new d = d

  pub start_timer-Disjoint :
      (org user : ℕ) (input : EntryInput) (refusal : Option Refusal) (attendance : Option ℕ)
      (now started_at fresh : ℕ) (s : entries.State)
      → now ≤ started_at
      → IsFresh fresh (rows s)
      → Disjoint (rows s)
      → Disjoint
          (rows (start_timer entries org user input refusal attendance now started_at fresh s).0)
  unfolding start_timer
  start_timer-Disjoint org user input none attendance now started_at fresh s later new d =
      created_timer org user input attendance now started_at fresh s _ refl later new d
  start_timer-Disjoint org user input (some e) attendance now started_at fresh s later new d = d

  stopped-Disjoint :
      (org user : ℕ) (attendance : ℕ → Option ℕ) (now : ℕ) (s : entries.State)
      (found : Option TimeEntry)
      → Disjoint (rows s)
      → Disjoint (rows (stop_found entries org user attendance now s found).0)
  stopped-Disjoint org user attendance now s none d = d
  stopped-Disjoint org user attendance now s (some e) d =
      elim (Bool-cases (count entries (is_stoppable entries org user e.id) s == 0)) [
        | inl t ↦ rw t d
        | inr f ↦ rw f (
            rw
              (entries.rows-update_many (is_stoppable entries org user e.id)
                (stopped_row entries e (attendance e.started_at) now) s)
              (Disjoint-update_by (λ x. x.id ≡ x.id) (is_stoppable entries org user e.id)
                (stopped_row entries e (attendance e.started_at) now) (rows s)
                (λ x y q r a. ground (arith, a)) (All-true (λ x. x.id ≡ x.id) (rows s) (λ x. refl))
                d))
      ]

  pub stop_timer-Disjoint :
      (org user : ℕ) (attendance : ℕ → Option ℕ) (now : ℕ) (s : entries.State)
      → Disjoint (rows s)
      → Disjoint (rows (stop_timer entries org user attendance now s).0)
  unfolding stop_timer
  stop_timer-Disjoint org user attendance now s d = stopped-Disjoint org user attendance now s _ d

  pub create_entry-Disjoint :
      (org user : ℕ) (input : EntryInput) (refusal : Option Refusal) (attendance : Option ℕ)
      (start stop fresh : ℕ) (s : entries.State)
      → IsFresh fresh (rows s)
      → Disjoint (rows s)
      → Disjoint
          (rows (create_entry entries org user input refusal attendance start stop fresh s).0)
  unfolding create_entry
  create_entry-Disjoint org user input refusal attendance start stop fresh s new d =
      if_keeps Kept (leb stop start) (λ t. d)
        (λ ordered.
          if_keeps Kept (ltb (24 * 60) (minutes_between start stop)) (λ t. d)
            (λ short.
              if_keeps Kept (is_some refusal) (λ t. d)
                (λ allowed.
                  if_keeps Kept
                    (is_some (find_first entries (interval_overlap org user start stop none) s))
                    (λ t. d)
                    (λ free. rw (entries.rows-create _ s) (
                      Disjoint-append_one (rows s) _ d (
                        All-imp _ _ (rows s) (λ x h. ground (arith, h.0, h.1))
                          (All-both _ _ (rows s) new (
                            find_by-none (interval_overlap org user start stop none) (rows s)
                              free))))))))

  moved-apart :
      (org user id from until : ℕ) (input : EntryInput) (attendance : Option ℕ) (x y : TimeEntry)
      → interval_overlap org user from until (some id) x ≡ false
      → interval_overlap org user from until (some id) y ≡ false
      → are_apart x y ≡ true
      → are_apart
          (if is_movable entries org user id x
            then moved_row entries from until input attendance x
            else x)
          (if is_movable entries org user id y
            then moved_row entries from until input attendance y
            else y)
        ≡ true
  moved-apart org user id from until input attendance x y fx fy a =
      elim (Bool-cases (is_movable entries org user id x)) [
        | inl mx ↦ elim (Bool-cases (is_movable entries org user id y)) [
          | inl my ↦ ground (arith, mx, my, a)
          | inr my ↦ rw (mx, my) (ground (arith, mx, my, a, fy))
        ]
        | inr mx ↦ elim (Bool-cases (is_movable entries org user id y)) [
          | inl my ↦ rw (mx, my) (ground (arith, mx, my, a, fx))
          | inr my ↦ rw (mx, my) a
        ]
      ]

  found_moved :
      (org user : ℕ) (input : EntryInput) (refusal : Option Refusal)
      (attendance start stop : Option ℕ) (s : entries.State) (e : TimeEntry) (ended : ℕ)
      → Disjoint (rows s)
      → Disjoint
          (rows (edit_found entries org user input refusal attendance start stop s e ended).0)
  found_moved org user input refusal attendance start stop s e ended d =
      let from = or_default start e.started_at in
      let until = or_default stop ended in
      if_keeps Kept (leb until from) (λ t. d)
        (λ ordered.
          if_keeps Kept (ltb (24 * 60 * 60 * 1000) (until - from)) (λ t. d)
            (λ short.
              if_keeps Kept (is_some refusal) (λ t. d)
                (λ allowed.
                  if_keeps Kept
                    (is_some
                      (find_first entries (interval_overlap org user from until (some e.id)) s))
                    (λ t. d)
                    (λ free.
                      if_keeps Kept (count entries (is_movable entries org user e.id) s == 0)
                        (λ t. d)
                        (λ present.
                          rw
                            (entries.rows-update_many (is_movable entries org user e.id)
                              (moved_row entries from until input attendance) s)
                            (Disjoint-update_by
                              (λ x. interval_overlap org user from until (some e.id) x ≡ false)
                              (is_movable entries org user e.id)
                              (moved_row entries from until input attendance) (rows s)
                              (λ x y fx fy a.
                                moved-apart org user e.id from until input attendance x y fx fy a)
                              (find_by-none (interval_overlap org user from until (some e.id))
                                (rows s) free)
                              d))))))

  checked_moved :
      (org user : ℕ) (input : EntryInput) (refusal : Option Refusal)
      (attendance start stop : Option ℕ) (s : entries.State) (found : Option TimeEntry)
      → Disjoint (rows s)
      → Disjoint
          (rows (edit_checked entries org user input refusal attendance start stop s found).0)
  checked_moved org user input refusal attendance start stop s none d = d
  checked_moved org user input refusal attendance start stop s (some e) d =
      if_keeps Kept (is_editable e.status)
        (λ t. elim (Option-cases e.ended_at) [
          | inl n ↦ rw n d
          | inr (ended, n) ↦
              rw n (found_moved org user input refusal attendance start stop s e ended d)
        ])
        (λ f. d)

  pub edit_entry-Disjoint :
      (org user id : ℕ) (input : EntryInput) (refusal : Option Refusal)
      (attendance start stop : Option ℕ) (s : entries.State)
      → Disjoint (rows s)
      → Disjoint (rows (edit_entry entries org user id input refusal attendance start stop s).0)
  unfolding edit_entry
  edit_entry-Disjoint org user id input refusal attendance start stop s d =
      checked_moved org user input refusal attendance start stop s _ d

  -- A change of status alone, as by a submission or a review.
  pub status-Disjoint :
      (p : TimeEntry → Bool) (f : TimeEntry → EntryStatus) (s : entries.State)
      → Disjoint (rows s)
      → Disjoint (rows (entries.update_many p (λ e. record e { status = f e }) s))
  status-Disjoint p f s d = rw (entries.rows-update_many p (λ e. record e { status = f e }) s) (
      Disjoint-update_by (λ x. x.id ≡ x.id) p (λ e. record e { status = f e }) (rows s)
        (λ x y q r a.
          if_keeps
            (λ (u : TimeEntry). are_apart u (if p y then record y { status = f y } else y) ≡ true)
            (p x)
            (λ t.
              if_keeps (λ (v : TimeEntry). are_apart (record x { status = f x }) v ≡ true) (p y)
                (λ t. a) (λ t. a))
            (λ t. if_keeps (λ (v : TimeEntry). are_apart x v ≡ true) (p y) (λ t. a) (λ t. a)))
        (All-true (λ x. x.id ≡ x.id) (rows s) (λ x. refl)) d)
