-- ===== src/Reviews/Exchanged.antt =====
-- What an approved swap and a timesheet's decision leave behind (reviewApproval of
-- src/services/approval-workflows.ts).
use attenda_api.Base.{
  ℕ, ◌≡◌, refl, ◌∙◌, sym, subst, Bool, true, false, not, ◌||◌, Option, none, some, List, find_first,
  find_by, update_by, find_by-update_by, find_by-true, if_keeps, is_some, count, ◌==◌, arith,
  if◌then◌else◌,
}
use attenda_api.Reviews.{ShiftSwap, ShiftAssignment, Tables, Store, Snapshot, Decision, Refusal}
use attenda_api.Reviews.Claim.{is_approve, in_scope, transaction}
use attenda_api.Reviews.Effects.{
  is_swap, is_open_swap, set_shift, exchange, is_leave_on, assignment, swap_found, review_swap,
}

module _ (t : Tables) (snap : Snapshot) (d : Decision) where
  abbrev pub assignments : Store t → List ShiftAssignment
  assignments s = t.shift_assignments.rows s.shift_assignments

  abbrev pub with_id : ℕ → ShiftAssignment → Bool
  with_id id a = a.id == id

  exchange-rows :
      (a b : ShiftAssignment) (s : t.shift_assignments.State)
      → t.shift_assignments.rows (exchange t snap d a b s)
        ≡ update_by
            (with_id b.id)
            (set_shift t snap d a.shift_id)
            (update_by (with_id a.id) (set_shift t snap d b.shift_id) (t.shift_assignments.rows s))
  unfolding exchange
  exchange-rows a b s =
      t.shift_assignments.rows-update_many (with_id b.id) (set_shift t snap d a.shift_id) _
      ∙ rw (t.shift_assignments.rows-update_many (with_id a.id) (set_shift t snap d b.shift_id) s)
          refl

  find_by-twice :
      (i p q m n : ℕ) (x : ShiftAssignment) (rows : List ShiftAssignment)
      → find_by (with_id i) rows ≡ some x
      → find_by (with_id i) (
          update_by
            (with_id q)
            (set_shift t snap d n)
            (update_by (with_id p) (set_shift t snap d m) rows))
        ≡ some
            (record x { shift_id = (if x.id == q then n else if x.id == p then m else x.shift_id) })
  find_by-twice i p q m n x rows f =
      find_by-update_by (with_id i) (with_id q) (set_shift t snap d n) _ (λ x. refl)
      ∙ rw (find_by-update_by (with_id i) (with_id p) (set_shift t snap d m) rows (λ x. refl), f)
          (ground arith)

  Exchanged : ℕ → ℕ → ShiftAssignment → ShiftAssignment → List ShiftAssignment → Type 0
  Exchanged i j a b rows =
      (find_by (with_id i) rows ≡ some (set_shift t snap d b.shift_id a))
      × (find_by (with_id j) rows ≡ some (set_shift t snap d a.shift_id b))

  exchange-Exchanged :
      (i j : ℕ) (a b : ShiftAssignment) (s : t.shift_assignments.State)
      → find_by (with_id i) (t.shift_assignments.rows s) ≡ some a
      → find_by (with_id j) (t.shift_assignments.rows s) ≡ some b
      → (i == j) ≡ false
      → Exchanged i j a b (t.shift_assignments.rows (exchange t snap d a b s))
  unfolding Exchanged
  exchange-Exchanged i j a b s f g apart =
      let at_i : (a.id == i) ≡ true = find_by-true (with_id i) _ f in
      let at_j : (b.id == j) ≡ true = find_by-true (with_id j) _ g in
      rw (exchange-rows a b s) (
        find_by-twice i a.id b.id b.shift_id a.shift_id a _ f ∙ ground arith,
        find_by-twice j a.id b.id b.shift_id a.shift_id b _ g ∙ ground arith,
      )

  module _ (id : ℕ) (s : Store t) (r : ShiftSwap) (a b : ShiftAssignment) where
    Swapped : Store t × Option Refusal → Type 0
    Swapped out =
        out.1 ≡ none → Exchanged r.requester_assign_id r.target_assign_id a b (assignments out.0)

    found-Swapped :
        assignment t snap d r.requester_assign_id s ≡ some a
        → assignment t snap d r.target_assign_id s ≡ some b
        → (r.requester_assign_id == r.target_assign_id) ≡ false
        → is_approve d.action ≡ true
        → Swapped (swap_found t snap d id s (some r))
    unfolding Swapped transaction
    found-Swapped f g apart approves =
        if_keeps Swapped (not (in_scope snap d r.requester_id)) (λ k e. cc)
          (λ k.
            rw (f, g)
              (if_keeps (λ (x : Store t × Option Refusal). Swapped (transaction s x))
                (count t.shift_swaps (is_open_swap t snap d id) s.shift_swaps == 0) (λ c e. cc)
                (λ c.
                  if_keeps (λ (x : Store t × Option Refusal). Swapped (transaction s x))
                    (is_approve d.action)
                    (λ y.
                      if_keeps (λ (x : Store t × Option Refusal). Swapped (transaction s x))
                        (is_some (
                            find_first t.leave_requests (is_leave_on t snap d r.requester_id a.date)
                              s.leave_requests)
                          || is_some (
                              find_first t.leave_requests (is_leave_on t snap d b.user_id b.date)
                                s.leave_requests))
                        (λ l e. cc)
                        (λ l e.
                          exchange-Exchanged r.requester_assign_id r.target_assign_id a b
                            s.shift_assignments f g apart))
                    (λ n. cc))))

FoundSwapped :
    (t : Tables) (snap : Snapshot) (d : Decision)
    → ℕ
    → Store t
    → ShiftSwap
    → ShiftAssignment
    → ShiftAssignment
    → Option ShiftSwap
    → Type 0
FoundSwapped t snap d id s r a b o = Swapped t snap d id s r a b (swap_found t snap d id s o)

-- After a swap of two different assignments was approved, the requester's assignment has the shift
-- that the target's had, the target's has the shift that the requester's had, and nothing else of
-- the two has changed.
pub review_swap-exchanges :
    (t : Tables) (snap : Snapshot) (d : Decision) (id : ℕ) (s : Store t) (r : ShiftSwap)
    (a b : ShiftAssignment)
    → find_first t.shift_swaps (is_swap t snap d id) s.shift_swaps ≡ some r
    → assignment t snap d r.requester_assign_id s ≡ some a
    → assignment t snap d r.target_assign_id s ≡ some b
    → (r.requester_assign_id == r.target_assign_id) ≡ false
    → is_approve d.action ≡ true
    → (review_swap t snap d id s).1 ≡ none
    → let s' = (review_swap t snap d id s).0 in
      (assignment t snap d r.requester_assign_id s' ≡ some (record a { shift_id = b.shift_id }))
      × (assignment t snap d r.target_assign_id s' ≡ some (record b { shift_id = a.shift_id }))
unfolding review_swap Swapped Exchanged FoundSwapped
review_swap-exchanges t snap d id s r a b found f g apart approves done =
    subst (FoundSwapped t snap d id s r a b) (sym found)
      (found-Swapped t snap d id s r a b f g apart approves) done
