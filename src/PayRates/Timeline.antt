-- ===== src/PayRates/Timeline.antt =====
-- Rates that follow each other: two rates of an employee never hold on one day, and lists of rates
-- that stand in this relation, for src/services/payRates.ts.
use attenda_api.Base.{
  ℕ, ◌≡◌, subst, ◌⊎◌, inl, inr, Bool, true, false, not, ◌&&◌, ◌||◌, Option, none, some, List, [],
  ◌∷◌, ◌++◌, ltb, ◌==◌, if◌then◌else◌, update_by, All, arith,
}
use attenda_api.PayRates.{PayRate}

abbrev pub ends_before : Option ℕ → ℕ → Bool
ends_before none date = false
ends_before (some stop) date = ltb stop date

abbrev pub precedes : PayRate → PayRate → Bool
precedes x y = ltb x.effective_from y.effective_from && ends_before x.effective_to y.effective_from

-- Two rows, of which one ends before the other starts where they are of one employee.
abbrev pub are_apart : PayRate → PayRate → Bool
are_apart x y =
    not (x.id == y.id) && (not (x.user_id == y.user_id) || (precedes x y || precedes y x))

abbrev pub Timeline : List PayRate → Type 0
Timeline [] = Unit
Timeline (x ∷ xs) = All (λ y. are_apart x y ≡ true) xs × Timeline xs

abbrev pub Has : PayRate → List PayRate → Type 0
Has a [] = ⊥
Has a (x ∷ xs) = (x ≡ a) ⊎ Has a xs

pub Timeline-append_one :
    (xs : List PayRate) (z : PayRate)
    → Timeline xs
    → All (λ x. are_apart x z ≡ true) xs
    → Timeline (xs ++ z ∷ [])
Timeline-append_one [] z d a = (tt, tt)
Timeline-append_one (x ∷ xs) z d a = (end xs d.0 a.0, Timeline-append_one xs z d.1 a.1)
  where
    end :
        (ys : List PayRate)
        → All (λ y. are_apart x y ≡ true) ys
        → are_apart x z ≡ true
        → All (λ y. are_apart x y ≡ true) (ys ++ z ∷ [])
    end [] h l = (l, tt)
    end (y ∷ ys) h l = (h.0, end ys h.1 l)

-- An update keeps a timeline where it keeps apart any two rows with a property that all rows have.
pub Timeline-update_by {κ} :
    (Q : PayRate → Type κ) (p : PayRate → Bool) (f : PayRate → PayRate) (xs : List PayRate)
    → ((x y : PayRate)
        → Q x
        → Q y
        → are_apart x y ≡ true
        → are_apart (if p x then f x else x) (if p y then f y else y) ≡ true)
    → All Q xs
    → Timeline xs
    → Timeline (update_by p f xs)
Timeline-update_by Q p f [] keep q d = tt
Timeline-update_by Q p f (x ∷ xs) keep q d =
    (row xs q.1 d.0, Timeline-update_by Q p f xs keep q.1 d.1)
  where
    row :
        (ys : List PayRate)
        → All Q ys
        → All (λ y. are_apart x y ≡ true) ys
        → All (λ y. are_apart (if p x then f x else x) y ≡ true) (update_by p f ys)
    row [] qs h = tt
    row (y ∷ ys) qs h = (keep x y q.0 qs.0 h.0, row ys qs.1 h.1)

pub All-updated {κ κ'} :
    (Q : PayRate → Type κ) (R : PayRate → Type κ') (p : PayRate → Bool) (f : PayRate → PayRate)
    (xs : List PayRate)
    → ((x : PayRate) → Q x → R (if p x then f x else x))
    → All Q xs
    → All R (update_by p f xs)
All-updated Q R p f [] keep q = tt
All-updated Q R p f (x ∷ xs) keep q = (keep x q.0, All-updated Q R p f xs keep q.1)

pub are_apart_sym : (x y : PayRate) → are_apart x y ≡ true → are_apart y x ≡ true
are_apart_sym x y h = ground (arith, h)

-- A row of a timeline is apart from every other.
pub Timeline-others :
    (a : PayRate) (xs : List PayRate)
    → Timeline xs
    → Has a xs
    → All (λ y. (y ≡ a) ⊎ (are_apart a y ≡ true)) xs
Timeline-others a [] d h = tt
Timeline-others a (x ∷ xs) d (inl e) =
    (inl e, subst (λ x. All (λ y. (y ≡ a) ⊎ (are_apart a y ≡ true)) xs) e (rest xs d.0))
  where
    rest :
        (ys : List PayRate)
        → All (λ y. are_apart x y ≡ true) ys
        → All (λ y. (y ≡ a) ⊎ (are_apart a y ≡ true)) ys
    rest [] h = tt
    rest (y ∷ ys) h = (inr (subst (λ x. are_apart x y ≡ true) e h.0), rest ys h.1)
Timeline-others a (x ∷ xs) d (inr m) =
    (inr (are_apart_sym x a (member xs d.0 m)), Timeline-others a xs d.1 m)
  where
    member :
        (ys : List PayRate) → All (λ y. are_apart x y ≡ true) ys → Has a ys → are_apart x a ≡ true
    member [] h m = elim m [ ]
    member (y ∷ ys) h (inl e) = subst (λ y. are_apart x y ≡ true) e h.0
    member (y ∷ ys) h (inr m) = member ys h.1 m
