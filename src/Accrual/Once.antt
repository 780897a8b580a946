-- ===== src/Accrual/Once.antt =====
-- The idempotency of a run (runMonthlyAccrual of src/services/leaveAccrual.ts): the grants that a
-- run creates keep the same run from accruing again.
use attenda_api.Base.{
  ℕ, ◌≡◌, refl, ◌∙◌, inl, inr, ◌⊎◌, Bool, true, false, Option, none, some, List, [], ◌∷◌, ◌++◌,
  String, is_some, any, All, All-imp, All-append, All-append-left, All-append-right, Bool-cases,
  ==_refl, Table, any-create, arith,
}
use attenda_api.Accrual.{
  AccrualPolicy, CivilDate, Period, Organisation, User, LeaveAccrualGrant, LeaveBalance,
  LeaveAccrualRun, Run, is_grant, is_run, accrue_period, accrue_type, accrue_types, accrue_user,
  accrue_users, accrue_config, record_run, accrue_org, accrue_orgs, run_monthly_accrual, period_of,
  members, zone_of, parse_accrual_config,
}

-- A row that a run needs, by the condition that it meets.
abbrev Fact : Type 0
Fact = (LeaveAccrualGrant → Bool) ⊎ (LeaveAccrualRun → Bool)

module _ (grants : Table LeaveAccrualGrant) (balances : Table LeaveBalance)
    (runs : Table LeaveAccrualRun) where
  abbrev R : Type 0
  R = Run grants balances runs

  holds : Fact → R → Bool
  holds (inl p) r = any p (grants.rows r.grants_state)
  holds (inr q) r = any q (runs.rows r.runs_state)

  abbrev Holds : List Fact → R → Type 0
  Holds fs r = All (λ f. holds f r ≡ true) fs

  -- Equal but for the counters of organisations and of skipped accruals.
  abbrev Same : R → R → Type 0
  Same r r' =
      (r.grants_state ≡ r'.grants_state)
      × (r.balances_state ≡ r'.balances_state)
      × (r.runs_state ≡ r'.runs_state)
      × (r.balances_touched ≡ r'.balances_touched)

  -- A run that starts over from the tables of another.
  abbrev restarted : R → R
  restarted r = record r { orgs_processed = 0; balances_touched = 0; skipped = 0 }

  holds-restarted : (f : Fact) (r : R) → holds f r ≡ true → holds f (restarted r) ≡ true
  unfolding holds
  holds-restarted (inl p) r h = h
  holds-restarted (inr q) r h = h

  Same-trans : (r r' r'' : R) → Same r r' → Same r' r'' → Same r r''
  Same-trans r r' r'' a b = (a.0 ∙ b.0, a.1 ∙ b.1, a.2 ∙ b.2, a.3 ∙ b.3)

  accrue_type-keeps :
      (org user : ℕ) (period : Period) (e : ℕ × AccrualPolicy) (f : Fact) (r : R)
      → holds f r ≡ true
      → holds f (accrue_type grants balances runs org user period e r) ≡ true
  unfolding holds accrue_type
  accrue_type-keeps org user period (type, policy) (inl p) r h =
      elim (Bool-cases (any (is_grant org user type period) (grants.rows r.grants_state))) [
        | inl e ↦ rw e h
        | inr e ↦ rw e (any-create grants p _ r.grants_state ∙ rw h refl)
      ]
  accrue_type-keeps org user period (type, policy) (inr q) r h =
      elim (Bool-cases (any (is_grant org user type period) (grants.rows r.grants_state))) [
        | inl e ↦ rw e h
        | inr e ↦ rw e h
      ]

  accrue_types-keeps :
      (org user : ℕ) (period : Period) (config : List (ℕ × AccrualPolicy)) (f : Fact) (r : R)
      → holds f r ≡ true
      → holds f (accrue_types grants balances runs org user period config r) ≡ true
  unfolding accrue_types
  accrue_types-keeps org user period [] f r h = h
  accrue_types-keeps org user period (e ∷ config) f r h =
      accrue_types-keeps org user period config f _ (accrue_type-keeps org user period e f r h)

  accrue_type-granted :
      (org user : ℕ) (period : Period) (e : ℕ × AccrualPolicy) (r : R)
      → holds
          (inl (is_grant org user e.0 period))
          (accrue_type grants balances runs org user period e r)
        ≡ true
  unfolding holds accrue_type
  accrue_type-granted org user period (type, policy) r =
      elim (Bool-cases (any (is_grant org user type period) (grants.rows r.grants_state))) [
        | inl e ↦ rw e e
        | inr e ↦ rw e (
            any-create grants (is_grant org user type period) _ r.grants_state
            ∙ rw e (
                ground (
                  arith,
                  ==_refl org,
                  ==_refl user,
                  ==_refl type,
                  ==_refl period.year,
                  ==_refl period.month,
                )))
      ]

  accrue_type-rests :
      (org user : ℕ) (period : Period) (e : ℕ × AccrualPolicy) (r : R)
      → holds (inl (is_grant org user e.0 period)) r ≡ true
      → Same (accrue_type grants balances runs org user period e r) r
  unfolding holds accrue_type
  accrue_type-rests org user period (type, policy) r h = rw h (refl, refl, refl, refl)

  facts_types : ℕ → ℕ → Period → List (ℕ × AccrualPolicy) → List Fact
  facts_types org user period [] = []
  facts_types org user period (e ∷ config) =
      inl (is_grant org user e.0 period) ∷ facts_types org user period config

  accrue_types-granted :
      (org user : ℕ) (period : Period) (config : List (ℕ × AccrualPolicy)) (r : R)
      → Holds
          (facts_types org user period config)
          (accrue_types grants balances runs org user period config r)
  unfolding accrue_types facts_types
  accrue_types-granted org user period [] r = tt
  accrue_types-granted org user period (e ∷ config) r = (
    accrue_types-keeps org user period config _ _ (accrue_type-granted org user period e r),
    accrue_types-granted org user period config _,
  )

  accrue_types-rests :
      (org user : ℕ) (period : Period) (config : List (ℕ × AccrualPolicy)) (r : R)
      → Holds (facts_types org user period config) r
      → Same (accrue_types grants balances runs org user period config r) r
  unfolding accrue_types facts_types
  accrue_types-rests org user period [] r h = (refl, refl, refl, refl)
  accrue_types-rests org user period (e ∷ config) r h =
      Same-trans
        (accrue_types grants balances runs org user period config
          (accrue_type grants balances runs org user period e r))
        (accrue_type grants balances runs org user period e r) r
        (accrue_types-rests org user period config _ (
          All-imp _ _ (facts_types org user period config)
            (λ f k. accrue_type-keeps org user period e f r k) h.1))
        (accrue_type-rests org user period e r h.0)

  facts_period : ℕ → ℕ → List (ℕ × AccrualPolicy) → Option Period → List Fact
  unfolding facts_types
  facts_period org user config none = []
  facts_period org user config (some period) = facts_types org user period config

  period-keeps :
      (org user : ℕ) (config : List (ℕ × AccrualPolicy)) (period : Option Period) (f : Fact) (r : R)
      → holds f r ≡ true
      → holds f (accrue_period grants balances runs org user config period r) ≡ true
  unfolding accrue_period
  period-keeps org user config none f r h = h
  period-keeps org user config (some period) f r h = accrue_types-keeps org user period config f r h

  period-granted :
      (org user : ℕ) (config : List (ℕ × AccrualPolicy)) (period : Option Period) (r : R)
      → Holds
          (facts_period org user config period)
          (accrue_period grants balances runs org user config period r)
  unfolding accrue_period facts_period
  period-granted org user config none r = tt
  period-granted org user config (some period) r = accrue_types-granted org user period config r

  period-rests :
      (org user : ℕ) (config : List (ℕ × AccrualPolicy)) (period : Option Period) (r : R)
      → Holds (facts_period org user config period) r
      → Same (accrue_period grants balances runs org user config period r) r
  unfolding accrue_period facts_period
  period-rests org user config none r h = (refl, refl, refl, refl)
  period-rests org user config (some period) r h = accrue_types-rests org user period config r h

  module _ (local_date : ℕ → String → CivilDate) (now : ℕ) where
    abbrev period_for : Organisation → User → Option Period
    period_for org user = period_of grants balances runs local_date now org user

    facts_user : Organisation → List (ℕ × AccrualPolicy) → User → List Fact
    facts_user org config user = facts_period org.id user.id config (period_for org user)

    abbrev users_run : Organisation → List (ℕ × AccrualPolicy) → List User → R → R
    users_run = accrue_users grants balances runs local_date now

    abbrev user_run : Organisation → List (ℕ × AccrualPolicy) → User → R → R
    user_run = accrue_user grants balances runs local_date now

    user-keeps :
        (org : Organisation) (config : List (ℕ × AccrualPolicy)) (user : User) (f : Fact) (r : R)
        → holds f r ≡ true
        → holds f (user_run org config user r) ≡ true
    unfolding accrue_user
    user-keeps org config user f r h =
        period-keeps org.id user.id config (period_for org user) f r h

    user-granted :
        (org : Organisation) (config : List (ℕ × AccrualPolicy)) (user : User) (r : R)
        → Holds (facts_user org config user) (user_run org config user r)
    unfolding accrue_user facts_user
    user-granted org config user r = period-granted org.id user.id config (period_for org user) r

    user-rests :
        (org : Organisation) (config : List (ℕ × AccrualPolicy)) (user : User) (r : R)
        → Holds (facts_user org config user) r
        → Same (user_run org config user r) r
    unfolding accrue_user facts_user
    user-rests org config user r h = period-rests org.id user.id config (period_for org user) r h

    facts_users : Organisation → List (ℕ × AccrualPolicy) → List User → List Fact
    unfolding facts_user
    facts_users org config [] = []
    facts_users org config (user ∷ users) =
        facts_user org config user ++ facts_users org config users

    users-keeps :
        (org : Organisation) (config : List (ℕ × AccrualPolicy)) (users : List User) (f : Fact)
        (r : R)
        → holds f r ≡ true
        → holds f (accrue_users grants balances runs local_date now org config users r) ≡ true
    unfolding accrue_users
    users-keeps org config [] f r h = h
    users-keeps org config (user ∷ users) f r h =
        users-keeps org config users f _ (user-keeps org config user f r h)

    users-granted :
        (org : Organisation) (config : List (ℕ × AccrualPolicy)) (users : List User) (r : R)
        → Holds
            (facts_users org config users)
            (accrue_users grants balances runs local_date now org config users r)
    unfolding accrue_users facts_users
    users-granted org config [] r = tt
    users-granted org config (user ∷ users) r =
        All-append _ (facts_user org config user) (facts_users org config users)
          (All-imp _ _ (facts_user org config user) (λ f k. users-keeps org config users f _ k)
            (user-granted org config user r))
          (users-granted org config users _)

    users-rests :
        (org : Organisation) (config : List (ℕ × AccrualPolicy)) (users : List User) (r : R)
        → Holds (facts_users org config users) r
        → Same (accrue_users grants balances runs local_date now org config users r) r
    unfolding accrue_users facts_users
    users-rests org config [] r h = (refl, refl, refl, refl)
    users-rests org config (user ∷ users) r h =
        Same-trans (users_run org config users (user_run org config user r))
          (user_run org config user r) r
          (users-rests org config users _ (
            All-imp _ _ (facts_users org config users) (λ f k. user-keeps org config user f r k)
              (All-append-right _ (facts_user org config user) (facts_users org config users) h)))
          (user-rests org config user r
            (All-append-left _ (facts_user org config user) (facts_users org config users) h))

    abbrev org_run : List User → Organisation → R → R
    org_run = accrue_org grants balances runs local_date now

    abbrev eligible : List User → Organisation → Bool
    eligible users org =
        any (λ u. is_some (period_for org u)) (members grants balances runs local_date org users)

    abbrev run_fact : Organisation → Fact
    run_fact org = inr (is_run org.id (local_date now (zone_of org.timezone none)))

    facts_run : Organisation → Bool → List Fact
    facts_run org true = run_fact org ∷ []
    facts_run org false = []

    record-keeps :
        (org : Organisation) (b : Bool) (f : Fact) (r : R)
        → holds f r ≡ true
        → holds f (record_run grants balances runs local_date now org b r) ≡ true
    unfolding record_run holds
    record-keeps org false f r h = h
    record-keeps org true (inl p) r h = h
    record-keeps org true (inr q) r h =
        elim (Bool-cases (
          any (is_run org.id (local_date now (zone_of org.timezone none)))
            (runs.rows r.runs_state))) [
              | inl e ↦ rw e h
              | inr e ↦ rw e (any-create runs q _ r.runs_state ∙ rw h refl)
            ]

    record-granted :
        (org : Organisation) (b : Bool) (r : R)
        → Holds (facts_run org b) (record_run grants balances runs local_date now org b r)
    unfolding record_run holds facts_run
    record-granted org false r = tt
    record-granted org true r =
        elim (Bool-cases (
          any (is_run org.id (local_date now (zone_of org.timezone none)))
            (runs.rows r.runs_state))) [
              | inl e ↦ rw e (e, tt)
              | inr e ↦ rw e (
                any-create runs (is_run org.id (local_date now (zone_of org.timezone none))) _
                      r.runs_state
                    ∙ rw e (
                        ground (
                          arith,
                          ==_refl org.id,
                          ==_refl (local_date now (zone_of org.timezone none)).year,
                          ==_refl (local_date now (zone_of org.timezone none)).month,
                        )),
                tt,
              )
            ]

    record-rests :
        (org : Organisation) (b : Bool) (r : R)
        → Holds (facts_run org b) r
        → Same (record_run grants balances runs local_date now org b r) r
    unfolding record_run holds facts_run
    record-rests org false r h = (refl, refl, refl, refl)
    record-rests org true r h = rw (h.0) (refl, refl, refl, refl)

    facts_config : List User → Organisation → Option (List (ℕ × AccrualPolicy)) → List Fact
    unfolding facts_users facts_run
    facts_config users org none = []
    facts_config users org (some config) =
        facts_run org (eligible users org)
        ++ facts_users org config (members grants balances runs local_date org users)

    abbrev config_run : List User → Organisation → Option (List (ℕ × AccrualPolicy)) → R → R
    config_run = accrue_config grants balances runs local_date now

    config-keeps :
        (users : List User) (org : Organisation) (config : Option (List (ℕ × AccrualPolicy)))
        (f : Fact) (r : R)
        → holds f r ≡ true
        → holds f (config_run users org config r) ≡ true
    unfolding accrue_config
    config-keeps users org none f r h = h
    config-keeps users org (some config) f r h =
        record-keeps org (eligible users org) f _
          (users-keeps org config (members grants balances runs local_date org users) f r h)

    config-granted :
        (users : List User) (org : Organisation) (config : Option (List (ℕ × AccrualPolicy)))
        (r : R)
        → Holds (facts_config users org config) (config_run users org config r)
    unfolding accrue_config facts_config
    config-granted users org none r = tt
    config-granted users org (some config) r =
        All-append _ (facts_run org (eligible users org))
          (facts_users org config (members grants balances runs local_date org users))
          (record-granted org (eligible users org) _)
          (All-imp _ _ (facts_users org config (members grants balances runs local_date org users))
            (λ f k. record-keeps org (eligible users org) f _ k)
            (users-granted org config (members grants balances runs local_date org users) r))

    config-rests :
        (users : List User) (org : Organisation) (config : Option (List (ℕ × AccrualPolicy)))
        (r : R)
        → Holds (facts_config users org config) r
        → Same (config_run users org config r) r
    unfolding accrue_config facts_config
    config-rests users org none r h = (refl, refl, refl, refl)
    config-rests users org (some config) r h =
        Same-trans
          (record_run grants balances runs local_date now org (eligible users org)
            (users_run org config mine r))
          (users_run org config mine r) r
          (record-rests org (eligible users org) _ (
            All-imp _ _ (facts_run org (eligible users org))
              (λ f k. users-keeps org config mine f r k)
              (All-append-left _ (facts_run org (eligible users org)) (facts_users org config mine)
                h)))
          (users-rests org config mine r (
            All-append-right _ (facts_run org (eligible users org)) (facts_users org config mine)
              h))
      where
        mine : List User
        mine = members grants balances runs local_date org users

    facts_orgs : List User → List Organisation → List Fact
    unfolding facts_config
    facts_orgs users [] = []
    facts_orgs users (org ∷ orgs) =
        facts_config users org (parse_accrual_config org.leave_accrual) ++ facts_orgs users orgs

    abbrev orgs_run : List User → List Organisation → R → R
    orgs_run = accrue_orgs grants balances runs local_date now

    orgs-keeps :
        (users : List User) (orgs : List Organisation) (f : Fact) (r : R)
        → holds f r ≡ true
        → holds f (orgs_run users orgs r) ≡ true
    unfolding accrue_orgs accrue_org
    orgs-keeps users [] f r h = h
    orgs-keeps users (org ∷ orgs) f r h =
        orgs-keeps users orgs f _
          (config-keeps users org (parse_accrual_config org.leave_accrual) f r h)

    orgs-granted :
        (users : List User) (orgs : List Organisation) (r : R)
        → Holds (facts_orgs users orgs) (orgs_run users orgs r)
    unfolding accrue_orgs accrue_org facts_orgs
    orgs-granted users [] r = tt
    orgs-granted users (org ∷ orgs) r =
        All-append _ (facts_config users org (parse_accrual_config org.leave_accrual))
          (facts_orgs users orgs)
          (All-imp _ _ (facts_config users org (parse_accrual_config org.leave_accrual))
            (λ f k. orgs-keeps users orgs f _ k)
            (config-granted users org (parse_accrual_config org.leave_accrual) r))
          (orgs-granted users orgs _)

    orgs-rests :
        (users : List User) (orgs : List Organisation) (r : R)
        → Holds (facts_orgs users orgs) r
        → Same (orgs_run users orgs r) r
    unfolding accrue_orgs accrue_org facts_orgs
    orgs-rests users [] r h = (refl, refl, refl, refl)
    orgs-rests users (org ∷ orgs) r h =
        Same-trans (orgs_run users orgs (config_run users org config r))
          (config_run users org config r) r
          (orgs-rests users orgs _ (
            All-imp _ _ (facts_orgs users orgs) (λ f k. config-keeps users org config f r k)
              (All-append-right _ (facts_config users org config) (facts_orgs users orgs) h)))
          (config-rests users org config r
            (All-append-left _ (facts_config users org config) (facts_orgs users orgs) h))
      where
        config : Option (List (ℕ × AccrualPolicy))
        config = parse_accrual_config org.leave_accrual

    -- The monthly accrual runs once: a second run at the same instant, over the same users and
    -- organisations and the tables that the first left, changes no grant, no balance and no record of
    -- a run, and reports that it touched no balance.
    pub run_monthly_accrual_twice :
        (users : List User) (orgs : List Organisation) (gs : grants.State) (bs : balances.State)
        (rs : runs.State)
        → let first = run_monthly_accrual grants balances runs local_date now users orgs gs bs rs in
          let second =
            run_monthly_accrual grants balances runs local_date now users orgs first.grants_state
              first.balances_state first.runs_state in
          (second.grants_state ≡ first.grants_state)
          × (second.balances_state ≡ first.balances_state)
          × (second.runs_state ≡ first.runs_state)
          × (second.balances_touched ≡ 0)
    unfolding run_monthly_accrual
    run_monthly_accrual_twice users orgs gs bs rs =
        orgs-rests users orgs (restarted (orgs_run users orgs start)) (
          All-imp _ _ (facts_orgs users orgs) (λ f k. holds-restarted f _ k)
            (orgs-granted users orgs start))
      where
        start : R
        start = record {
          grants_state = gs;
          balances_state = bs;
          runs_state = rs;
          orgs_processed = 0;
          balances_touched = 0;
          skipped = 0;
        }
