-- ===== src/Shift/Late.antt =====
-- Lateness, early departure, adherence and the automatic checkout of src/utils/shift.ts, against
-- the distance round the clock.
use attenda_api.Base.{
  ℕ, ◌+◌, ◌-◌, ◌%◌, ◌<◌, ◌≤◌, ◌≡◌, refl, ◌↔◌, String, true, ◌&&◌, ◌||◌, Option, some, arith, ltb,
  leb, ◌==◌, if◌then◌else◌, or_default,
}
use attenda_api.Base.Int.{pos_part, sub_ℕ}
use attenda_api.Shift.{
  DateFnsTz, ShiftLike, hhmm_to_mins, overnight_wrap, adherence_score, minutes_of_day_in_tz,
  late_minutes, early_out_minutes, shift_auto_checkout_due,
}

-- The minutes from one time of the day forward to another.
abbrev pub forward : ℕ → ℕ → ℕ
forward from to = (to + 1440 - from) % 1440

-- The distance counts where it is under half a day; at half a day exactly, where the times of the
-- day stand in order.
abbrev pub counted : ℕ → ℕ → ℕ
counted from to =
    if ltb (forward from to) 720 || (forward from to == 720 && leb from to)
    then forward from to
    else 0

pub wrap_forward :
    (a s : ℕ) → a < 1440 → s < 1440 → pos_part (overnight_wrap (sub_ℕ a s)) ≡ counted s a
unfolding overnight_wrap
wrap_forward a s ha hs = ground arith

module _ (lib : DateFnsTz) where
  pub minutes_of_day_in_tz-lt :
      (at : ℕ) (tz : Option String) → minutes_of_day_in_tz lib at tz < 1440
  unfolding minutes_of_day_in_tz
  minutes_of_day_in_tz-lt at tz = omega (arith, lib.hours-lt at _, lib.minutes-lt at _)

  module _ (at : ℕ) (shift : ShiftLike) (tz : Option String) where
    -- For a shift that starts within the day, the late minutes of a check-in are the minutes on
    -- the clock from the start forward to the check-in, also across midnight, where these are
    -- under 720 (or are 720 and the check-in's time of the day is not before the start's), and 0
    -- otherwise.
    pub late_minutes-forward :
        hhmm_to_mins shift.start_time < 1440
        → late_minutes lib at (some shift) tz
          ≡ counted (hhmm_to_mins shift.start_time) (minutes_of_day_in_tz lib at tz)
    unfolding late_minutes
    late_minutes-forward hs = wrap_forward _ _ (minutes_of_day_in_tz-lt at tz) hs

    -- For a shift that ends within the day, the early minutes of a checkout are the minutes on the
    -- clock from the checkout forward to the end, also across midnight, where these are under 720
    -- (or are 720 and the end's time of the day is not before the checkout's), and 0 otherwise.
    pub early_out_minutes-forward :
        hhmm_to_mins shift.end_time < 1440
        → early_out_minutes lib at (some shift) tz
          ≡ counted (minutes_of_day_in_tz lib at tz) (hhmm_to_mins shift.end_time)
    unfolding early_out_minutes
    early_out_minutes-forward hs = wrap_forward _ _ hs (minutes_of_day_in_tz-lt at tz)

    -- Where the end and the buffer of a shift are together at most 2760 minutes, the automatic
    -- checkout is due exactly where the shift asks for it and the clock is less than 120 minutes
    -- past the end and the buffer, counted round the clock.
    pub shift_auto_checkout_due_forward :
        hhmm_to_mins shift.end_time + or_default shift.auto_checkout_buffer_mins 30 ≤ 2760
        → shift_auto_checkout_due lib (some shift) tz at ≡ (
            shift.auto_checkout
            && ltb
                ((minutes_of_day_in_tz lib at tz
                    + 2880
                    - (hhmm_to_mins shift.end_time + or_default shift.auto_checkout_buffer_mins 30))
                  % 1440)
                120)
    unfolding shift_auto_checkout_due overnight_wrap
    shift_auto_checkout_due_forward h = ground (arith, minutes_of_day_in_tz-lt at tz)

-- A score lies between 0 and 100, and it is 100 exactly where there is neither lateness nor early
-- departure.
pub adherence_score_range :
    (late early : ℕ)
    → (s : ℕ) × (adherence_score late early true ≡ some s)
      × (s ≤ 100)
      × ((s ≡ 100) ↔ (late + early ≡ 0))
unfolding adherence_score
adherence_score_range late early = (_, refl, ground arith, (λ h. ground arith, λ h. ground arith))

-- More minutes of lateness or of early departure never raise a score.
pub adherence_score_antitone :
    (late early late' early' s s' : ℕ)
    → late ≤ late'
    → early ≤ early'
    → adherence_score late early true ≡ some s
    → adherence_score late' early' true ≡ some s'
    → s' ≤ s
unfolding adherence_score
adherence_score_antitone late early late' early' s s' h k e e' = ground arith
