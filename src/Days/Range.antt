-- ===== src/Days/Range.antt =====
-- The holidays of a range and the working days that they leave (src/services/holidays.ts).
use attenda_api.Base.{
  ◌<◌, ◌≤◌, length, false, subst, if◌then◌else◌, ap, ◌∙◌, refl, not, ◌&&◌, ◌*◌, ℕ, zero, suc, ◌+◌,
  ◌-◌, ◌≡◌, true, List, [], ◌∷◌, ◌++◌, ◌==◌, any-append, arith, inl, inr, Bool-cases,
}
use attenda_api.Days.{
  OrgHoliday, in_range, keep_in_range, candidate, candidates, expand_row, expand_holidays, has_key,
  working_days_from, working_days_excluding, utc_full_year, is_weekday, utc_day, is_working_day,
}

working_days_from-split :
    (holidays : List ℕ) (day m n : ℕ)
    → working_days_from holidays day (m + n)
      ≡ working_days_from holidays day m + working_days_from holidays (day + m) n
unfolding working_days_from
working_days_from-split holidays day zero n =
    let left : 0 + n ≡ n = omega arith in
    let right : day + 0 ≡ day = omega arith in
    omega (
      arith,
      ap (working_days_from holidays day) left,
      ap (λ k. working_days_from holidays k n) right,
    )
working_days_from-split holidays day (suc m) n =
    let left : suc m + n ≡ suc (m + n) = omega arith in
    let right : day + suc m ≡ suc day + m = omega arith in
    omega (
      arith,
      working_days_from-split holidays (suc day) m n,
      ap (working_days_from holidays day) left,
      ap (λ k. working_days_from holidays k n) right,
    )

weekday_again : (d : ℕ) → is_weekday (d + 7) ≡ is_weekday d
weekday_again d =
    let again : utc_day (d + 7) ≡ utc_day d = omega arith in
    ap (λ w. not (w == 0) && not (w == 6)) again

next_week : (d : ℕ) → working_days_from [] (suc d) 7 ≡ working_days_from [] d 7
unfolding working_days_from
next_week d = ground (arith, weekday_again d)

week_of_five : (d : ℕ) → working_days_from [] d 7 ≡ 5
unfolding working_days_from
week_of_five zero = refl
week_of_five (suc d) = next_week d ∙ week_of_five d

weeks_of_five : (d n : ℕ) → working_days_from [] d (7 * n) ≡ 5 * n
unfolding working_days_from
weeks_of_five d zero = refl
weeks_of_five d (suc n) =
    let whole : 7 * suc n ≡ 7 + 7 * n = omega arith in
    omega (
      arith,
      ap (working_days_from [] d) whole,
      working_days_from-split [] d 7 (7 * n),
      week_of_five d,
      weeks_of_five (d + 7) n,
    )

other_day :
    (key d : ℕ) (keys : List ℕ)
    → (key == d) ≡ false
    → is_working_day (key ∷ keys) d ≡ is_working_day keys d
other_day key d keys e = rw e refl

same_day : (key d : ℕ) (keys : List ℕ) → (key == d) ≡ true → is_working_day (key ∷ keys) d ≡ false
same_day key d keys e = rw e (ground arith)

-- A holiday before a range changes nothing.
none_less :
    (key : ℕ) (keys : List ℕ) (d n : ℕ)
    → key < d
    → working_days_from (key ∷ keys) d n ≡ working_days_from keys d n
unfolding working_days_from
none_less key keys d zero h = refl
none_less key keys d (suc n) h =
    rw (other_day key d keys (ground (arith, h)), none_less key keys (suc d) n (omega (arith, h)))
      refl

-- A further holiday on a working day of a range takes that day off.
one_less :
    (key : ℕ) (keys : List ℕ) (d n : ℕ)
    → d ≤ key
    → key < d + n
    → is_working_day keys key ≡ true
    → suc (working_days_from (key ∷ keys) d n) ≡ working_days_from keys d n
unfolding working_days_from
one_less key keys d zero early late w = omega (arith, early, late)
one_less key keys d (suc n) early late w = elim (Bool-cases (key == d)) [
  | inl t ↦
      let here : key ≡ d = ground (arith, t) in
      rw
        (
          same_day key d keys t,
          subst (λ k. is_working_day keys k ≡ true) here w,
          none_less key keys (suc d) n (omega (arith, here)),
        )
        (omega arith)
  | inr e ↦
      let rest = one_less key keys (suc d) n (ground (arith, e, early)) (omega (arith, late)) w in
      omega (arith, ap {B = ℕ} (λ b. if b then 1 else 0) (other_day key d keys e), rest)
]

-- Holidays on different working days of a range.
abbrev pub Apart : ℕ → ℕ → List ℕ → Type 0
Apart start stop [] = Unit
Apart start stop (key ∷ keys) =
    (start ≤ key)
    × (key ≤ stop)
    × (is_weekday key ≡ true)
    × (has_key keys key ≡ false)
    × Apart start stop keys

holidays_off :
    (keys : List ℕ) (start stop n : ℕ)
    → suc stop ≡ start + n
    → Apart start stop keys
    → working_days_from keys start n + length keys ≡ working_days_from [] start n
holidays_off [] start stop n h apart = omega arith
holidays_off (key ∷ keys) start stop n h (early, late, weekday, other, apart) = omega (
  arith,
  one_less key keys start n early (omega (arith, h, late)) (rw (weekday, other) refl),
  holidays_off keys start stop n h apart,
)

-- A range of whole weeks has five working days for each of its weeks, whichever day it starts on,
-- less its holidays, where these are on different weekdays of the range.
pub working_days_excluding-weeks :
    (start stop n : ℕ) (holidays : List ℕ)
    → suc stop ≡ start + 7 * n
    → Apart start stop holidays
    → working_days_excluding start stop holidays + length holidays ≡ 5 * n
unfolding working_days_excluding
working_days_excluding-weeks start stop n holidays h apart =
    let days : suc stop - start ≡ 7 * n = omega (arith, h) in
    omega (
      arith,
      ap (working_days_from holidays start) days,
      holidays_off holidays start stop (7 * n) h apart,
      weeks_of_five start n,
    )

module _ (start stop d : ℕ) where
  keep_in_range-in_range :
      (key : ℕ) → has_key (keep_in_range start stop key) d ≡ true → in_range start stop d ≡ true
  keep_in_range-in_range key h = ground arith

  candidate-in_range :
      (date year : ℕ)
      → has_key (candidate start stop date year) d ≡ true
      → in_range start stop d ≡ true
  candidate-in_range date year h = ground arith

  both :
      (xs ys : List ℕ)
      → (has_key xs d ≡ true → in_range start stop d ≡ true)
      → (has_key ys d ≡ true → in_range start stop d ≡ true)
      → has_key (xs ++ ys) d ≡ true
      → in_range start stop d ≡ true
  both xs ys f g h = elim (Bool-cases (has_key xs d)) [
    | inl t ↦ f t
    | inr e ↦ g (ground (arith, any-append (λ k. k == d) xs ys, e, h))
  ]

  candidates-in_range :
      (date year n : ℕ)
      → has_key (candidates start stop date year n) d ≡ true
      → in_range start stop d ≡ true
  unfolding candidates
  candidates-in_range date year zero h = cc
  candidates-in_range date year (suc n) h =
      both (candidate start stop date year) (candidates start stop date (suc year) n)
        (candidate-in_range date year) (candidates-in_range date (suc year) n) h

  expand_row-in_range :
      (row : OrgHoliday)
      → has_key (expand_row start stop row) d ≡ true
      → in_range start stop d ≡ true
  expand_row-in_range row h = elim (Bool-cases row.recurring) [
    | inl t ↦
        candidates-in_range row.date (utc_full_year start)
          (suc (utc_full_year stop) - utc_full_year start) (ground (arith, t, h))
    | inr e ↦ keep_in_range-in_range row.date (ground (arith, e, h))
  ]

  -- A holiday of a range is a day of the range, whatever years its rows recur in.
  pub expand_holidays-in_range :
      (rows : List OrgHoliday)
      → has_key (expand_holidays rows start stop) d ≡ true
      → in_range start stop d ≡ true
  unfolding expand_holidays
  expand_holidays-in_range [] h = cc
  expand_holidays-in_range (row ∷ rows) h =
      both (expand_row start stop row) (expand_holidays rows start stop) (expand_row-in_range row)
        (expand_holidays-in_range rows) h
