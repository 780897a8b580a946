-- ===== src/Accrual/Tests.antt =====
-- One organization with one employee on the first of January, over list tables.
use attenda_api.Base.{ℕ, ◌≡◌, refl, true, Option, some, none, String, List, [], ◌∷◌, list_table}
use attenda_api.Base.Int.{pos}
use attenda_api.Accrual.{
  AccrualPolicy, RawPolicy, CivilDate, Period, Organisation, User, LeaveAccrualGrant, LeaveBalance,
  LeaveAccrualRun, Run, accrue_type, run_monthly_accrual,
}
use attenda_api.Accrual.Grants.{balance, accrue_type-balance}
use attenda_api.Accrual.Once.{run_monthly_accrual_twice}

abbrev annual : AccrualPolicy
annual = record { days_per_year = 2000; carry_over_max = some 500 }

abbrev raw_config : Option (List (ℕ × Option RawPolicy))
raw_config = some (
    (1, some (record { days_per_year = some (pos 2000); carry_over_max = some (some (pos 500)) }))
    ∷ [])

abbrev acme : Organisation
acme = record { id = 2; timezone = none; leave_accrual = raw_config }

abbrev employee : User
employee = record {
  id = 7;
  org_id = 2;
  is_active = true;
  deleted_at = none;
  location_timezone = none;
}

abbrev new_year : ℕ → String → CivilDate
new_year at tz = record { year = 2026; month = 1; day = 1 }

abbrev january : Period
january = record { year = 2026; month = 1 }

abbrev last_year : LeaveBalance
last_year = record {
  user_id = 7;
  org_id = 2;
  leave_type = 1;
  year = 2025;
  total_days = 2000;
  used_days = 1200;
}

abbrev first_run :
    Run (list_table LeaveAccrualGrant) (list_table LeaveBalance) (list_table LeaveAccrualRun)
first_run =
    run_monthly_accrual (list_table LeaveAccrualGrant) (list_table LeaveBalance)
      (list_table LeaveAccrualRun) new_year 0 (employee ∷ []) (acme ∷ []) [] (last_year ∷ []) []

abbrev start :
    Run (list_table LeaveAccrualGrant) (list_table LeaveBalance) (list_table LeaveAccrualRun)
start = record {
  grants_state = [];
  balances_state = last_year ∷ [];
  runs_state = [];
  orgs_processed = 0;
  balances_touched = 0;
  skipped = 0;
}

run_monthly_accrual_twice_example :
    let second =
      run_monthly_accrual
        (list_table LeaveAccrualGrant)
        (list_table LeaveBalance)
        (list_table LeaveAccrualRun)
        new_year
        0
        (employee ∷ [])
        (acme ∷ [])
        first_run.grants_state
        first_run.balances_state
        first_run.runs_state in
    (second.grants_state ≡ first_run.grants_state)
    × (second.balances_state ≡ first_run.balances_state)
    × (second.runs_state ≡ first_run.runs_state)
    × (second.balances_touched ≡ 0)
run_monthly_accrual_twice_example =
    run_monthly_accrual_twice (list_table LeaveAccrualGrant) (list_table LeaveBalance)
      (list_table LeaveAccrualRun) new_year 0 (employee ∷ []) (acme ∷ []) [] (last_year ∷ []) []

accrue_type-balance_example :
    (b : LeaveBalance) × (balance
        (list_table LeaveAccrualGrant)
        (list_table LeaveBalance)
        (list_table LeaveAccrualRun)
        7
        1
        2026
        (accrue_type
          (list_table LeaveAccrualGrant)
          (list_table LeaveBalance)
          (list_table LeaveAccrualRun)
          2
          7
          january
          (1, annual)
          start).balances_state
      ≡ some b)
    × (b.total_days ≡ 667)
    × (b.used_days ≡ 0)
accrue_type-balance_example =
    accrue_type-balance (list_table LeaveAccrualGrant) (list_table LeaveBalance)
      (list_table LeaveAccrualRun) 2 7 january 1 annual start refl
