-- ===== src/Base/Lists.antt =====
-- Lists measured by native numbers, and filtered by Boolean tests.
use Prim.Native.Nat.{ℕ, zero, suc, ◌+◌, ◌<◌}
use mathlib.Core.Path.{◌≡◌, refl, ap}
use mathlib.Core.Bool.{Bool, true, false, ◌&&◌, ◌||◌}
use mathlib.Core.Option.{Option, none, some}
use mathlib.Core.List.{List, [], ◌∷◌, ◌++◌}
use native.Mathlib.Omega.{arith}
use mathlib.Core.Logic.{inl, inr}
use attenda_api.Base.Tests.{leb, if◌then◌else◌, Bool-cases, if_keeps}

module _ {ℓ} {A : Type ℓ} where
  abbrev pub length : List A → ℕ
  length [] = 0
  length (x ∷ xs) = suc (length xs)

  abbrev pub filter_by : (A → Bool) → List A → List A
  filter_by p [] = []
  filter_by p (x ∷ xs) = if p x then x ∷ filter_by p xs else filter_by p xs

  abbrev pub find_by : (A → Bool) → List A → Option A
  find_by p [] = none
  find_by p (x ∷ xs) = if p x then some x else find_by p xs

  abbrev pub any : (A → Bool) → List A → Bool
  any p [] = false
  any p (x ∷ xs) = p x || any p xs

  abbrev pub all : (A → Bool) → List A → Bool
  all p [] = true
  all p (x ∷ xs) = p x && all p xs

  abbrev pub sum_of : (A → ℕ) → List A → ℕ
  sum_of f [] = 0
  sum_of f (x ∷ xs) = f x + sum_of f xs

  abbrev pub count_by : (A → Bool) → List A → ℕ
  count_by p [] = 0
  count_by p (x ∷ xs) = if p x then suc (count_by p xs) else count_by p xs

  -- `{ ...row, data }` on the rows that a condition selects.
  abbrev pub update_by : (A → Bool) → (A → A) → List A → List A
  update_by p f [] = []
  update_by p f (x ∷ xs) = (if p x then f x else x) ∷ update_by p f xs

  abbrev pub All {κ} : (A → Type κ) → List A → Type κ
  All P [] = Unit
  All P (x ∷ xs) = P x × All P xs

  pub length-append : (xs ys : List A) → length (xs ++ ys) ≡ length xs + length ys
  length-append [] ys = omega arith
  length-append (x ∷ xs) ys = omega (arith, length-append xs ys)

  pub sum_of-append : (f : A → ℕ) (xs ys : List A) → sum_of f (xs ++ ys) ≡ sum_of f xs + sum_of f ys
  sum_of-append f [] ys = omega arith
  sum_of-append f (x ∷ xs) ys = omega (arith, sum_of-append f xs ys)

  pub count_by-append :
      (p : A → Bool) (xs ys : List A) → count_by p (xs ++ ys) ≡ count_by p xs + count_by p ys
  count_by-append p [] ys = omega arith
  count_by-append p (x ∷ xs) ys = ground (arith, count_by-append p xs ys)

  pub filter_by-append :
      (p : A → Bool) (xs ys : List A) → filter_by p (xs ++ ys) ≡ filter_by p xs ++ filter_by p ys
  filter_by-append p [] ys = refl
  filter_by-append p (x ∷ xs) ys = ground (arith, filter_by-append p xs ys)

  pub length-filter_by : (p : A → Bool) (xs : List A) → length (filter_by p xs) ≡ count_by p xs
  length-filter_by p [] = refl
  length-filter_by p (x ∷ xs) = ground (arith, length-filter_by p xs)

  pub All-append {κ} : (P : A → Type κ) (xs ys : List A) → All P xs → All P ys → All P (xs ++ ys)
  All-append P [] ys h k = k
  All-append P (x ∷ xs) ys h k = (h.0, All-append P xs ys h.1 k)

  pub All-append-left {κ} : (P : A → Type κ) (xs ys : List A) → All P (xs ++ ys) → All P xs
  All-append-left P [] ys h = tt
  All-append-left P (x ∷ xs) ys h = (h.0, All-append-left P xs ys h.1)

  pub All-append-right {κ} : (P : A → Type κ) (xs ys : List A) → All P (xs ++ ys) → All P ys
  All-append-right P [] ys h = h
  All-append-right P (x ∷ xs) ys h = All-append-right P xs ys h.1

  -- What holds of every row before an update, and of every row it writes, holds after it.
  pub All-update_by {κ} :
      (P : A → Type κ) (p : A → Bool) (f : A → A) (xs : List A)
      → ((x : A) → P x → p x ≡ true → P (f x))
      → All P xs
      → All P (update_by p f xs)
  All-update_by P p f [] keep h = tt
  All-update_by P p f (x ∷ xs) keep h = elim (Bool-cases (p x)) [
    | inl e ↦ rw e (keep x h.0 e, All-update_by P p f xs keep h.1)
    | inr e ↦ rw e (h.0, All-update_by P p f xs keep h.1)
  ]

  pub All-filter_by {κ} :
      (P : A → Type κ) (p : A → Bool) (xs : List A) → All P xs → All P (filter_by p xs)
  All-filter_by P p [] h = tt
  All-filter_by P p (x ∷ xs) h = elim (Bool-cases (p x)) [
    | inl e ↦ rw e (h.0, All-filter_by P p xs h.1)
    | inr e ↦ rw e (All-filter_by P p xs h.1)
  ]

  pub length-update_by :
      (p : A → Bool) (f : A → A) (xs : List A) → length (update_by p f xs) ≡ length xs
  length-update_by p f [] = refl
  length-update_by p f (x ∷ xs) = ap suc (length-update_by p f xs)

  -- A lookup after an update finds the updated row, where the update keeps what is looked for.
  pub find_by-update_by :
      (q p : A → Bool) (f : A → A) (xs : List A)
      → ((x : A) → q (f x) ≡ q x)
      → find_by q (update_by p f xs)
        ≡ (elim (find_by q xs) [ none ↦ none | some x ↦ some (if p x then f x else x) ])
  find_by-update_by q p f [] same = refl
  find_by-update_by q p f (x ∷ xs) same = ground (arith, find_by-update_by q p f xs same, same x)

  pub find_by-append :
      (q : A → Bool) (xs ys : List A)
      → find_by q (xs ++ ys) ≡ (elim (find_by q xs) [ none ↦ find_by q ys | some x ↦ some x ])
  find_by-append q [] ys = refl
  find_by-append q (x ∷ xs) ys = ground (arith, find_by-append q xs ys)

  -- A row that was found and meets a condition is counted.
  pub count_by-found :
      (q p : A → Bool) (xs : List A) {a : A}
      → find_by q xs ≡ some a
      → p a ≡ true
      → 0 < count_by p xs
  count_by-found q p [] e h = cc
  count_by-found q p (x ∷ xs) {a} e h = elim (Bool-cases (q x)) [
    | inl t ↦ ground (arith, t, h, e)
    | inr f ↦ ground (arith, count_by-found q p xs (rw (f) at e) h)
  ]

  -- An update that takes away the condition of every row that it may meet leaves none that meets it.
  pub count_by-updated :
      (p q : A → Bool) (f : A → A) (xs : List A)
      → ((x : A) → p (f x) ≡ false)
      → ((x : A) → p x ≡ true → q x ≡ true)
      → count_by p (update_by q f xs) ≡ 0
  count_by-updated p q f [] gone covers = refl
  count_by-updated p q f (x ∷ xs) gone covers = elim (Bool-cases (q x)) [
    | inl e ↦ rw (e, gone x) (count_by-updated p q f xs gone covers)
    | inr e ↦ ground (arith, e, covers x, count_by-updated p q f xs gone covers)
  ]

  pub count_by-missing :
      (p q : A → Bool) (xs : List A)
      → find_by q xs ≡ none
      → ((x : A) → p x ≡ true → q x ≡ true)
      → count_by p xs ≡ 0
  count_by-missing p q [] e covers = refl
  count_by-missing p q (x ∷ xs) e covers = elim (Bool-cases (q x)) [
    | inl t ↦ ground (arith, t, e)
    | inr f ↦ ground (arith, f, covers x, count_by-missing p q xs (rw (f) at e) covers)
  ]

  pub find_by-true : (p : A → Bool) (xs : List A) {a : A} → find_by p xs ≡ some a → p a ≡ true
  find_by-true p [] e = cc
  find_by-true p (x ∷ xs) e = elim (Bool-cases (p x)) [
    | inl t ↦ ground (arith, t)
    | inr f ↦ find_by-true p xs (rw (f) at e)
  ]

  pub any-append : (p : A → Bool) (xs ys : List A) → any p (xs ++ ys) ≡ (any p xs || any p ys)
  any-append p [] ys = refl
  any-append p (x ∷ xs) ys = ground (arith, any-append p xs ys)

  pub All-imp {κ κ'} :
      (P : A → Type κ) (Q : A → Type κ') (xs : List A) → ((x : A) → P x → Q x) → All P xs → All Q xs
  All-imp P Q [] imp h = tt
  All-imp P Q (x ∷ xs) imp h = (imp x h.0, All-imp P Q xs imp h.1)

  pub All-both {κ κ'} :
      (P : A → Type κ) (Q : A → Type κ') (xs : List A)
      → All P xs
      → All Q xs
      → All (λ x. P x × Q x) xs
  All-both P Q [] p q = tt
  All-both P Q (x ∷ xs) p q = ((p.0, q.0), All-both P Q xs p.1 q.1)

-- `orderBy` on a number, ascending and stable, and `take`.
module _ {ℓ} {A : Type ℓ} where
  abbrev pub insert_by : (A → ℕ) → A → List A → List A
  insert_by key a [] = a ∷ []
  insert_by key a (x ∷ xs) = if leb (key a) (key x) then a ∷ x ∷ xs else x ∷ insert_by key a xs

  abbrev pub sort_by : (A → ℕ) → List A → List A
  sort_by key [] = []
  sort_by key (x ∷ xs) = insert_by key x (sort_by key xs)

  abbrev pub take : ℕ → List A → List A
  take zero xs = []
  take (suc n) [] = []
  take (suc n) (x ∷ xs) = x ∷ take n xs

  insert_by-All {κ} :
      (P : A → Type κ) (key : A → ℕ) (a : A) (xs : List A)
      → P a
      → All P xs
      → All P (insert_by key a xs)
  insert_by-All P key a [] p h = (p, tt)
  insert_by-All P key a (x ∷ xs) p h =
      if_keeps (All P) (leb (key a) (key x)) (λ t. (p, h))
        (λ t. (h.0, insert_by-All P key a xs p h.1))

  pub sort_by-All {κ} :
      (P : A → Type κ) (key : A → ℕ) (xs : List A) → All P xs → All P (sort_by key xs)
  sort_by-All P key [] h = tt
  sort_by-All P key (x ∷ xs) h =
      insert_by-All P key x (sort_by key xs) h.0 (sort_by-All P key xs h.1)

  pub take-All {κ} : (P : A → Type κ) (n : ℕ) (xs : List A) → All P xs → All P (take n xs)
  take-All P zero xs h = tt
  take-All P (suc n) [] h = tt
  take-All P (suc n) (x ∷ xs) h = (h.0, take-All P n xs h.1)

module _ {ℓ} {A : Type ℓ} where
  -- What a filter lets through meets its condition.
  pub filter_by-All : (p : A → Bool) (xs : List A) → All (λ x. p x ≡ true) (filter_by p xs)
  filter_by-All p [] = tt
  filter_by-All p (x ∷ xs) = elim (Bool-cases (p x)) [
    | inl e ↦ rw e (e, filter_by-All p xs)
    | inr e ↦ rw e (filter_by-All p xs)
  ]
