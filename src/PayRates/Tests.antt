-- ===== src/PayRates/Tests.antt =====
-- A raise between two rates, over a list table.
use attenda_api.Base.{ℕ, ◌≡◌, refl, Option, none, some, List, [], ◌∷◌, list_table}
use attenda_api.PayRates.{
  PayRate, RateInput, hourly, set_effective_pay_rate, get_effective_hourly_rate,
}
use attenda_api.PayRates.Timeline.{Timeline}
use attenda_api.PayRates.Kept.{set_effective_pay_rate-Timeline}

abbrev rate : ℕ → ℕ → ℕ → Option ℕ → PayRate
rate id amount start stop = record {
  id = id;
  org_id = 2;
  user_id = 7;
  amount = amount;
  basis = hourly;
  currency = "USD";
  effective_from = start;
  effective_to = stop;
  created_by = 1;
}

abbrev rates : List PayRate
rates = rate 1 2000 19000 (some 19499) ∷ rate 2 2500 19500 none ∷ []

abbrev raise : RateInput
raise = record {
  org_id = 2;
  user_id = 7;
  amount = 2200;
  basis = hourly;
  currency = "USD";
  effective_from = 19300;
  actor_id = 1;
}

raised :
    (set_effective_pay_rate (list_table PayRate) raise 3 rates).0
    ≡ rate 1 2000 19000 (some 19299) ∷ rate 2 2500 19500 none ∷ rate 3 2200 19300 (some 19499) ∷ []
unfolding set_effective_pay_rate
raised = refl

on_a_day :
    get_effective_hourly_rate 2 7 19400 1500
      (set_effective_pay_rate (list_table PayRate) raise 3 rates).0
    ≡ 2200
unfolding set_effective_pay_rate get_effective_hourly_rate
on_a_day = refl

set_effective_pay_rate-Timeline_example :
    Timeline (set_effective_pay_rate (list_table PayRate) raise 3 rates).0
set_effective_pay_rate-Timeline_example =
    set_effective_pay_rate-Timeline (list_table PayRate) raise 3 rates (refl, (refl, tt))
      (refl, (refl, tt)) ((refl, tt), (tt, tt))
