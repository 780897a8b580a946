-- ===== src/TimeEntries/Disjoint.antt =====
-- Entries that do not overlap: the relation between two entries, and lists whose entries stand in it
-- pairwise, under the additions and updates of src/routes/time-tracking.ts.
use attenda_api.Base.{
  ℕ, ◌≡◌, inl, inr, Bool, true, false, ◌&&◌, ◌||◌, not, Option, none, some, List, [], ◌∷◌, ◌++◌,
  leb, ◌==◌, if◌then◌else◌, is_some, find_by, update_by, All, Bool-cases, arith,
}
use attenda_api.TimeEntries.{TimeEntry, is_own}

-- The entry is over by an instant.
abbrev pub is_over : Option ℕ → ℕ → Bool
is_over none at = false
is_over (some ended) at = leb ended at

-- Two entries with different identifiers, which do not overlap where they are of one user.
abbrev pub are_apart : TimeEntry → TimeEntry → Bool
are_apart x y =
    not (x.id == y.id)
    && (not (is_own x.org_id x.user_id y)
        || (is_over x.ended_at y.started_at || is_over y.ended_at x.started_at))

abbrev pub Disjoint : List TimeEntry → Type 0
Disjoint [] = Unit
Disjoint (x ∷ xs) = All (λ y. are_apart x y ≡ true) xs × Disjoint xs

pub Disjoint-append_one :
    (xs : List TimeEntry) (z : TimeEntry)
    → Disjoint xs
    → All (λ x. are_apart x z ≡ true) xs
    → Disjoint (xs ++ z ∷ [])
Disjoint-append_one [] z d a = (tt, tt)
Disjoint-append_one (x ∷ xs) z d a = (later xs d.0 a.0, Disjoint-append_one xs z d.1 a.1)
  where
    later :
        (ys : List TimeEntry)
        → All (λ y. are_apart x y ≡ true) ys
        → are_apart x z ≡ true
        → All (λ y. are_apart x y ≡ true) (ys ++ z ∷ [])
    later [] h l = (l, tt)
    later (y ∷ ys) h l = (h.0, later ys h.1 l)

-- An update keeps the entries apart where it keeps apart any two entries with a property that all of
-- them have.
pub Disjoint-update_by {κ} :
    (Q : TimeEntry → Type κ) (p : TimeEntry → Bool) (f : TimeEntry → TimeEntry)
    (xs : List TimeEntry)
    → ((x y : TimeEntry)
        → Q x
        → Q y
        → are_apart x y ≡ true
        → are_apart (if p x then f x else x) (if p y then f y else y) ≡ true)
    → All Q xs
    → Disjoint xs
    → Disjoint (update_by p f xs)
Disjoint-update_by Q p f [] keep q d = tt
Disjoint-update_by Q p f (x ∷ xs) keep q d =
    (row xs q.1 d.0, Disjoint-update_by Q p f xs keep q.1 d.1)
  where
    row :
        (ys : List TimeEntry)
        → All Q ys
        → All (λ y. are_apart x y ≡ true) ys
        → All (λ y. are_apart (if p x then f x else x) y ≡ true) (update_by p f ys)
    row [] qs h = tt
    row (y ∷ ys) qs h = (keep x y q.0 qs.0 h.0, row ys qs.1 h.1)

pub find_by-none :
    (p : TimeEntry → Bool) (xs : List TimeEntry)
    → is_some (find_by p xs) ≡ false
    → All (λ x. p x ≡ false) xs
find_by-none p [] e = tt
find_by-none p (x ∷ xs) e = elim (Bool-cases (p x)) [
  | inl t ↦ ground (arith, t, e)
  | inr f ↦ (f, find_by-none p xs (rw (f) at e))
]

pub All-true {κ} :
    (P : TimeEntry → Type κ) (xs : List TimeEntry) → ((x : TimeEntry) → P x) → All P xs
All-true P [] h = tt
All-true P (x ∷ xs) h = (h x, All-true P xs h)
