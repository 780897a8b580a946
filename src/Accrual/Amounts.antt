-- ===== src/Accrual/Amounts.antt =====
-- The amounts of an accrual and its configuration (monthlyIncrement, carryOver and
-- parseAccrualConfig of src/services/leaveAccrual.ts).
use attenda_api.Base.{
  ℕ, ◌+◌, ◌*◌, ◌≤◌, ◌<◌, ◌≡◌, refl, inl, inr, Option, Option-cases, subst, none, some, List, [],
  ◌∷◌, All, length, arith, ◌==◌, if◌then◌else◌,
}
use attenda_api.Accrual.{
  AccrualPolicy, RawPolicy, monthly_increment, parse_accrual_config, parse_entries, parse_policy,
  with_policy,
}

-- Twelve monthly accruals differ from the annual rate by at most six hundredths of a day.
pub monthly_increment_year :
    (policy : AccrualPolicy)
    → (12 * monthly_increment policy ≤ policy.days_per_year + 6)
      × (policy.days_per_year ≤ 12 * monthly_increment policy + 6)
unfolding monthly_increment
monthly_increment_year policy = (ground arith, ground arith)

abbrev pub ValidPolicy : ℕ × AccrualPolicy → Type 0
ValidPolicy e = (0 < e.1.days_per_year) × (e.1.days_per_year ≤ 36600)

parse_policy-ValidPolicy :
    (type : ℕ) (raw : RawPolicy) (p : AccrualPolicy)
    → parse_policy (some raw) ≡ some p
    → ValidPolicy (type, p)
parse_policy-ValidPolicy type raw p e = elim (Option-cases raw.days_per_year) [
  | inl n ↦ ground (arith, n, e)
  | inr (d, n) ↦ ground (arith, n, e)
]

with_policy-ValidPolicy :
    (type : ℕ) (o : Option AccrualPolicy) (rest : List (ℕ × AccrualPolicy))
    → ((p : AccrualPolicy) → o ≡ some p → ValidPolicy (type, p))
    → All ValidPolicy rest
    → All ValidPolicy (with_policy type o rest)
with_policy-ValidPolicy type none rest valid h = h
with_policy-ValidPolicy type (some p) rest valid h = (valid p refl, h)

parse_entries-ValidPolicy :
    (entries : List (ℕ × Option RawPolicy)) → All ValidPolicy (parse_entries entries)
unfolding parse_entries
parse_entries-ValidPolicy [] = tt
parse_entries-ValidPolicy ((type, none) ∷ rest) = parse_entries-ValidPolicy rest
parse_entries-ValidPolicy ((type, some raw) ∷ rest) =
    with_policy-ValidPolicy type (parse_policy (some raw)) (parse_entries rest)
      (λ p e. parse_policy-ValidPolicy type raw p e) (parse_entries-ValidPolicy rest)

-- A configuration that is accepted names at least one type of leave, and each of its types accrues
-- more than nothing and at most 366 days a year.
pub parse_accrual_config-ValidPolicy :
    (raw : Option (List (ℕ × Option RawPolicy))) (config : List (ℕ × AccrualPolicy))
    → parse_accrual_config raw ≡ some config
    → (0 < length config) × All ValidPolicy config
unfolding parse_accrual_config
parse_accrual_config-ValidPolicy none config e = cc
parse_accrual_config-ValidPolicy (some entries) config e =
    accepted (parse_entries entries) (parse_entries-ValidPolicy entries) e
  where
    accepted :
        (out : List (ℕ × AccrualPolicy))
        → All ValidPolicy out
        → (if length out == 0 then none else some out) ≡ some config
        → (0 < length config) × All ValidPolicy config
    accepted [] h e = cc
    accepted (x ∷ xs) h e =
        let same : x ∷ xs ≡ config = ground (arith, e) in
        subst (λ c. (0 < length c) × All ValidPolicy c) same (omega arith, h)
