-- ===== src/PayRates.antt =====
-- src/services/payRates.ts: the rates of pay of an employee, each from a date to a date or without an
-- end. Dates are days from 1970-01-01, amounts hundredths, identifiers numbers; the operation runs
-- under the employee's lock.
pub mod Timeline
pub mod Pick
pub mod Apart
pub mod Kept
pub mod Tests
use attenda_api.Base.{
  ℕ, ◌-◌, String, Bool, true, false, ◌&&◌, ◌||◌, not, Option, none, some, List, [], ◌∷◌, ltb, leb,
  ◌==◌, if◌then◌else◌, Table, find_first,
}

pub data PayRateBasis : Type 0 where
  hourly daily monthly : PayRateBasis

pub record PayRate : Type 0 where
  pub id : ℕ
  pub org_id : ℕ
  pub user_id : ℕ
  pub amount : ℕ
  pub basis : PayRateBasis
  pub currency : String
  pub effective_from : ℕ
  pub effective_to : Option ℕ
  pub created_by : ℕ

pub record RateInput : Type 0 where
  pub org_id : ℕ
  pub user_id : ℕ
  pub amount : ℕ
  pub basis : PayRateBasis
  pub currency : String
  pub effective_from : ℕ
  pub actor_id : ℕ

pub data Refusal : Type 0 where
  ranges_overlap : Refusal

-- `findFirst` with an order on the start: the earliest and the latest of the rows with a property.
abbrev pub earlier : PayRate → Option PayRate → PayRate
earlier r none = r
earlier r (some best) = if leb r.effective_from best.effective_from then r else best

abbrev pub later : PayRate → Option PayRate → PayRate
later r none = r
later r (some best) = if ltb r.effective_from best.effective_from then best else r

abbrev pub earliest : (PayRate → Bool) → List PayRate → Option PayRate
earliest p [] = none
earliest p (r ∷ rs) = if p r then some (earlier r (earliest p rs)) else earliest p rs

abbrev pub latest : (PayRate → Bool) → List PayRate → Option PayRate
latest p [] = none
latest p (r ∷ rs) = if p r then some (later r (latest p rs)) else latest p rs

abbrev pub is_rate_of : ℕ → ℕ → PayRate → Bool
is_rate_of org user r = r.org_id == org && r.user_id == user

-- The end of a rate is open, or not before a date.
abbrev pub lasts_to : ℕ → Option ℕ → Bool
lasts_to date none = true
lasts_to date (some stop) = leb date stop

abbrev pub previous_day : ℕ → ℕ
previous_day date = date - 1

abbrev pub end_before : Option PayRate → Option ℕ
end_before none = none
end_before (some following) = some (previous_day following.effective_from)

module _ (rates : Table PayRate) (input : RateInput) where
  abbrev pub is_same_day : PayRate → Bool
  is_same_day r = r.user_id == input.user_id && r.effective_from == input.effective_from

  abbrev pub is_following : PayRate → Bool
  is_following r =
      is_rate_of input.org_id input.user_id r && ltb input.effective_from r.effective_from

  abbrev pub is_previous : PayRate → Bool
  is_previous r =
      is_rate_of input.org_id input.user_id r
      && (ltb r.effective_from input.effective_from && lasts_to input.effective_from r.effective_to)

  abbrev pub rewritten : Option ℕ → PayRate → PayRate
  rewritten stop r = record r {
    amount = input.amount;
    basis = input.basis;
    currency = input.currency;
    effective_to = stop;
    created_by = input.actor_id;
  }

  abbrev pub new_rate : Option ℕ → ℕ → PayRate
  new_rate stop fresh = record {
    id = fresh;
    org_id = input.org_id;
    user_id = input.user_id;
    amount = input.amount;
    basis = input.basis;
    currency = input.currency;
    effective_from = input.effective_from;
    effective_to = stop;
    created_by = input.actor_id;
  }

  abbrev pub close_on : ℕ → PayRate → PayRate
  close_on date r = record r { effective_to = some date }

  abbrev pub create_after :
      Option ℕ → ℕ → rates.State → Option PayRate → rates.State × Option Refusal
  create_after stop fresh s none = (rates.create (new_rate stop fresh) s, none)
  create_after stop fresh s (some previous) =
      if ltb (previous_day input.effective_from) previous.effective_from
      then (s, some ranges_overlap)
      else (
        rates.create (new_rate stop fresh) (
            rates.update_many (λ r. r.id == previous.id)
              (close_on (previous_day input.effective_from)) s),
        none,
      )

  abbrev pub set_with : Option ℕ → ℕ → rates.State → Option PayRate → rates.State × Option Refusal
  set_with stop fresh s (some same) =
      (rates.update_many (λ r. r.id == same.id) (rewritten stop) s, none)
  set_with stop fresh s none = create_after stop fresh s (latest is_previous (rates.rows s))

  -- setEffectivePayRate
  unfoldable pub set_effective_pay_rate : ℕ → rates.State → rates.State × Option Refusal
  set_effective_pay_rate fresh s =
      set_with (end_before (earliest is_following (rates.rows s))) fresh s
        (find_first rates is_same_day s)

-- The rate of an employee on a date.
abbrev pub is_effective : ℕ → ℕ → ℕ → PayRate → Bool
is_effective org user at r =
    is_rate_of org user r && (leb r.effective_from at && lasts_to at r.effective_to)

abbrev pub amount_or : ℕ → Option PayRate → ℕ
amount_or fallback none = fallback
amount_or fallback (some r) = r.amount

-- The hourly rate of getEffectiveHourlyRate, over the rows of the rates.
unfoldable pub get_effective_hourly_rate : ℕ → ℕ → ℕ → ℕ → List PayRate → ℕ
get_effective_hourly_rate org user at fallback rates =
    amount_or fallback (latest (is_effective org user at) rates)
