-- ===== src/Accrual/Grants.antt =====
-- What one accrual does to the balances (the transaction of runMonthlyAccrual of
-- src/services/leaveAccrual.ts).
use attenda_api.Base.{
  ℕ, ◌+◌, ◌≡◌, refl, ◌∙◌, inl, inr, Bool, true, false, Option, none, some, [], ◌∷◌, if◌then◌else◌,
  is_some, any, Option-cases, ==_refl, Table, find_first, find_by-update_by, find_by-append,
  find_by-true, arith, ◌-◌, ◌/◌, ◌&&◌, ◌==◌, not, min, or_default,
}
use attenda_api.Accrual.{
  AccrualPolicy, Period, LeaveAccrualGrant, LeaveBalance, LeaveAccrualRun, Run, is_grant,
  is_balance, accrue_type, accrue_balance, monthly_increment, prior_carry, carry_over,
}

abbrev pub total_of : Option LeaveBalance → ℕ
total_of none = 0
total_of (some b) = b.total_days

abbrev pub used_of : Option LeaveBalance → ℕ
used_of none = 0
used_of (some b) = b.used_days

module _ (grants : Table LeaveAccrualGrant) (balances : Table LeaveBalance)
    (runs : Table LeaveAccrualRun) where
  open balances use {rows}

  abbrev pub balance : ℕ → ℕ → ℕ → balances.State → Option LeaveBalance
  balance user type year bs = find_first balances (is_balance user type year) bs

  created :
      (p : LeaveBalance → Bool) (b : LeaveBalance) (bs : balances.State)
      → find_first balances p bs ≡ none
      → p b ≡ true
      → find_first balances p (balances.create b bs) ≡ some b
  created p b bs f t =
      rw (balances.rows-create b bs) (find_by-append p (rows bs) (b ∷ []) ∙ rw (f) (rw (t) refl))

  -- An accrual that was not granted before adds a twelfth of the year's days, to the nearest
  -- hundredth, to the employee's balance of the year. A balance that it opens has in January, and in
  -- no other month, also what was left of the year before, up to the limit of the policy and nothing
  -- without one. The days used stay as they are.
  pub accrue_type-balance :
      (org user : ℕ) (period : Period) (type : ℕ) (policy : AccrualPolicy)
      (r : Run grants balances runs)
      → any (is_grant org user type period) (grants.rows r.grants_state) ≡ false
      → let old = balance user type period.year r.balances_state in
        let prior = balance user type (period.year - 1) r.balances_state in
        (b : LeaveBalance) × (balance user type period.year
            (accrue_type grants balances runs org user period (type, policy) r).balances_state
          ≡ some b)
        × (b.total_days
            ≡ total_of old
              + (policy.days_per_year + 6) / 12
              + (if not (is_some old) && period.month == 1
                  then min (total_of prior - used_of prior) (or_default policy.carry_over_max 0)
                  else 0))
        × (b.used_days ≡ used_of old)
  unfolding accrue_type accrue_balance monthly_increment carry_over
  accrue_type-balance org user period type policy r fresh =
      elim (Option-cases (balance user type period.year r.balances_state)) [
        | inl e ↦
            rw (fresh, e)
              (
                opened,
                created (is_balance user type period.year) opened r.balances_state e
                    (ground (arith, ==_refl user, ==_refl type, ==_refl period.year)),
                carried (balance user type (period.year - 1) r.balances_state),
                refl,
              )
        | inr (b, e) ↦
            rw (fresh, e)
              (
                record b { total_days = b.total_days + monthly_increment policy },
                rw
                    (balances.rows-update_many (is_balance user type period.year)
                      (λ b. record b { total_days = b.total_days + monthly_increment policy })
                      r.balances_state)
                    (find_by-update_by (is_balance user type period.year)
                        (is_balance user type period.year) _ (rows r.balances_state) (λ x. refl)
                      ∙ rw (e) (
                          rw
                            (find_by-true (is_balance user type period.year) (rows r.balances_state)
                              e)
                            refl)),
                omega arith,
                refl,
              )
      ]
    where
      opened : LeaveBalance
      opened = record {
        user_id = user;
        org_id = org;
        leave_type = type;
        year = period.year;
        total_days =
            monthly_increment policy
            + prior_carry grants balances runs policy period
                (balance user type (period.year - 1) r.balances_state);
        used_days = 0;
      }

      carried :
          (prior : Option LeaveBalance)
          → monthly_increment policy + prior_carry grants balances runs policy period prior
            ≡ 0
              + (policy.days_per_year + 6) / 12
              + (if true && period.month == 1
                  then min (total_of prior - used_of prior) (or_default policy.carry_over_max 0)
                  else 0)
      carried none = ground arith
      carried (some b) = ground arith
