-- ===== src/Accrual.antt =====
-- src/services/leaveAccrual.ts: the monthly accrual of leave. Days are counted in hundredths, the
-- scale of the DECIMAL(6,2) columns, so that a policy with a finer rate or carry-over is out of
-- reach; a raw number is what `Number` gives, in hundredths, `none` where
-- it is not finite. Users, organisations and leave types are numbers that are only compared.
pub mod Amounts
pub mod Once
pub mod Grants
pub mod Tests
use attenda_api.Base.{
  ℕ, ◌+◌, ◌*◌, ◌-◌, ◌/◌, min, String, Bool, true, false, ◌&&◌, not, Option, none, some, List, [],
  ◌∷◌, ltb, leb, ◌==◌, if◌then◌else◌, or_default, is_some, any, Table, find_first, filter_by,
  str_eq, length, ◌≤◌,
}
use attenda_api.Base.Int.{ℤ, pos, negsuc, pos_part}

pub record AccrualPolicy : Type 0 where
  pub days_per_year : ℕ
  pub carry_over_max : Option ℕ

pub record RawPolicy : Type 0 where
  pub days_per_year : Option ℤ
  pub carry_over_max : Option (Option ℤ)

-- A calendar date; months count from 1.
pub record CivilDate : Type 0 where
  pub year : ℕ
  pub month : ℕ
  pub day : ℕ

pub record Period : Type 0 where
  pub year : ℕ
  pub month : ℕ

pub record Organisation : Type 0 where
  pub id : ℕ
  pub timezone : Option String
  -- The entries of the JSON object, `none` where it is not one or an entry is not one.
  pub leave_accrual : Option (List (ℕ × Option RawPolicy))

pub record User : Type 0 where
  pub id : ℕ
  pub org_id : ℕ
  pub is_active : Bool
  pub deleted_at : Option ℕ
  pub location_timezone : Option String

pub record LeaveAccrualGrant : Type 0 where
  pub org_id : ℕ
  pub user_id : ℕ
  pub leave_type : ℕ
  pub year : ℕ
  pub month : ℕ
  pub days : ℕ

pub record LeaveBalance : Type 0 where
  pub user_id : ℕ
  pub org_id : ℕ
  pub leave_type : ℕ
  pub year : ℕ
  pub total_days : ℕ
  pub used_days : ℕ

pub record LeaveAccrualRun : Type 0 where
  pub org_id : ℕ
  pub year : ℕ
  pub month : ℕ

unfoldable pub accrual_period_for_location : CivilDate → Option Period
accrual_period_for_location local =
    if ltb 2 local.day then none else some (record { year = local.year; month = local.month })

abbrev pub valid_carry : Option (Option ℤ) → Option ℕ
valid_carry none = none
valid_carry (some none) = none
valid_carry (some (some (pos n))) = some n
valid_carry (some (some (negsuc n))) = none

-- One entry of the configuration: at most 366 days a year, and more than none.
abbrev pub parse_policy : Option RawPolicy → Option AccrualPolicy
parse_policy none = none
parse_policy (some raw) = elim raw.days_per_year [
  | none ↦ none
  | some d ↦
      if ltb 0 (pos_part d) && leb (pos_part d) 36600
      then some
          (record { days_per_year = pos_part d; carry_over_max = valid_carry raw.carry_over_max })
      else none
]

abbrev pub with_policy :
    ℕ → Option AccrualPolicy → List (ℕ × AccrualPolicy) → List (ℕ × AccrualPolicy)
with_policy type none rest = rest
with_policy type (some p) rest = (type, p) ∷ rest

pub parse_entries : List (ℕ × Option RawPolicy) → List (ℕ × AccrualPolicy)
parse_entries [] = []
parse_entries ((type, raw) ∷ rest) = with_policy type (parse_policy raw) (parse_entries rest)

unfoldable pub parse_accrual_config :
    Option (List (ℕ × Option RawPolicy)) → Option (List (ℕ × AccrualPolicy))
unfolding parse_entries
parse_accrual_config none = none
parse_accrual_config (some entries) =
    let out = parse_entries entries in if length out == 0 then none else some out

-- `Math.round`: half a hundredth goes up.
unfoldable pub monthly_increment : AccrualPolicy → ℕ
monthly_increment policy = (policy.days_per_year + 6) / 12

unfoldable pub carry_over : AccrualPolicy → ℕ → ℕ → ℕ
carry_over policy prior_total prior_used =
    min (prior_total - prior_used) (or_default policy.carry_over_max 0)

-- `a || b || 'UTC'`.
abbrev pub non_empty : Option String → Option String
non_empty none = none
non_empty (some s) = if str_eq s "" then none else some s

abbrev pub zone_of : Option String → Option String → String
zone_of a b = or_default (non_empty a) (or_default (non_empty b) "UTC")

abbrev pub is_grant : ℕ → ℕ → ℕ → Period → LeaveAccrualGrant → Bool
is_grant org user type period g =
    (g.org_id == org && g.user_id == user)
    && (g.leave_type == type && (g.year == period.year && g.month == period.month))

-- The unique key of the balances, by which `update` finds the row again.
abbrev pub is_balance : ℕ → ℕ → ℕ → LeaveBalance → Bool
is_balance user type year b = b.user_id == user && (b.leave_type == type && b.year == year)

abbrev pub is_run : ℕ → CivilDate → LeaveAccrualRun → Bool
is_run org date r = r.org_id == org && (r.year == date.year && r.month == date.month)

module _ (grants : Table LeaveAccrualGrant) (balances : Table LeaveBalance)
    (runs : Table LeaveAccrualRun) where
  -- The tables, and the counters of a run.
  pub record Run : Type 0 where
    pub grants_state : grants.State
    pub balances_state : balances.State
    pub runs_state : runs.State
    pub orgs_processed : ℕ
    pub balances_touched : ℕ
    pub skipped : ℕ

  abbrev pub prior_carry : AccrualPolicy → Period → Option LeaveBalance → ℕ
  prior_carry policy period none = 0
  prior_carry policy period (some prior) =
      if period.month == 1 then carry_over policy prior.total_days prior.used_days else 0

  -- The balance after an accrual.
  unfoldable pub accrue_balance :
      ℕ → ℕ → ℕ → AccrualPolicy → Period → balances.State → balances.State
  accrue_balance org user type policy period bs =
      let inc = monthly_increment policy in
      if is_some (find_first balances (is_balance user type period.year) bs)
      then balances.update_many (is_balance user type period.year)
          (λ b. record b { total_days = b.total_days + inc }) bs
      else balances.create
          (record {
            user_id = user;
            org_id = org;
            leave_type = type;
            year = period.year;
            total_days =
                inc
                + prior_carry policy period
                    (find_first balances (is_balance user type (period.year - 1)) bs);
            used_days = 0;
          })
          bs

  -- One transaction: the grant is the idempotency key of the accrual.
  unfoldable pub accrue_type : ℕ → ℕ → Period → ℕ × AccrualPolicy → Run → Run
  accrue_type org user period (type, policy) r =
      if any (is_grant org user type period) (grants.rows r.grants_state)
      then record r { skipped = r.skipped + 1 }
      else record r {
        grants_state =
            grants.create
              (record {
                org_id = org;
                user_id = user;
                leave_type = type;
                year = period.year;
                month = period.month;
                days = monthly_increment policy;
              })
              r.grants_state;
        balances_state = accrue_balance org user type policy period r.balances_state;
        balances_touched = r.balances_touched + 1;
      }

  pub accrue_types : ℕ → ℕ → Period → List (ℕ × AccrualPolicy) → Run → Run
  accrue_types org user period [] r = r
  accrue_types org user period (entry ∷ config) r =
      accrue_types org user period config (accrue_type org user period entry r)

  -- A user whose local date is past the first two days of a month has no period.
  pub accrue_period : ℕ → ℕ → List (ℕ × AccrualPolicy) → Option Period → Run → Run
  unfolding accrue_types
  accrue_period org user config none r = r
  accrue_period org user config (some period) r = accrue_types org user period config r

  -- The calendar date of an instant in a zone, from date-fns-tz, is `local_date`.
  module _ (local_date : ℕ → String → CivilDate) where
    abbrev pub period_of : ℕ → Organisation → User → Option Period
    period_of now org user =
        accrual_period_for_location (local_date now (zone_of user.location_timezone org.timezone))

    pub accrue_user : ℕ → Organisation → List (ℕ × AccrualPolicy) → User → Run → Run
    unfolding accrue_period
    accrue_user now org config user r =
        accrue_period org.id user.id config (period_of now org user) r

    pub accrue_users : ℕ → Organisation → List (ℕ × AccrualPolicy) → List User → Run → Run
    unfolding accrue_user
    accrue_users now org config [] r = r
    accrue_users now org config (user ∷ users) r =
        accrue_users now org config users (accrue_user now org config user r)

    -- The row of the run, which an upsert leaves as it is.
    pub record_run : ℕ → Organisation → Bool → Run → Run
    record_run now org eligible r =
        let date = local_date now (zone_of org.timezone none) in
        if eligible
        then record r {
          runs_state =
              if any (is_run org.id date) (runs.rows r.runs_state)
              then r.runs_state
              else runs.create (record { org_id = org.id; year = date.year; month = date.month })
                  r.runs_state;
          orgs_processed = r.orgs_processed + 1;
        }
        else r

    abbrev pub members : Organisation → List User → List User
    members org users =
        filter_by (λ u. u.org_id == org.id && (u.is_active && not (is_some u.deleted_at))) users

    pub accrue_config : ℕ → List User → Organisation → Option (List (ℕ × AccrualPolicy)) → Run → Run
    unfolding accrue_users record_run
    accrue_config now users org none r = r
    accrue_config now users org (some config) r =
        record_run now org (any (λ u. is_some (period_of now org u)) (members org users))
          (accrue_users now org config (members org users) r)

    pub accrue_org : ℕ → List User → Organisation → Run → Run
    unfolding accrue_config
    accrue_org now users org r =
        accrue_config now users org (parse_accrual_config org.leave_accrual) r

    pub accrue_orgs : ℕ → List User → List Organisation → Run → Run
    unfolding accrue_org
    accrue_orgs now users [] r = r
    accrue_orgs now users (org ∷ orgs) r = accrue_orgs now users orgs (accrue_org now users org r)

    -- `orgs` are the organisations that the run is for.
    unfoldable pub run_monthly_accrual :
        ℕ → List User → List Organisation → grants.State → balances.State → runs.State → Run
    unfolding accrue_orgs
    run_monthly_accrual now users orgs gs bs rs = accrue_orgs now users orgs (record {
      grants_state = gs;
      balances_state = bs;
      runs_state = rs;
      orgs_processed = 0;
      balances_touched = 0;
      skipped = 0;
    })
