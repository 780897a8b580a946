-- ===== src/Shift/Text.antt =====
-- Reading a wall-clock time back from its text (hhmmToMins of src/utils/shift.ts).
use attenda_api.Base.{ℕ, ◌+◌, ◌*◌, ◌/◌, ◌%◌, ◌<◌, ◌≡◌, List, [], ◌∷◌, ◌++◌, arith}
use attenda_api.Shift.{hhmm_to_mins}

-- A number below 100 as two digits, and the "HH:MM" text that the schemas accept.
abbrev pub two_digits : ℕ → List ℕ
two_digits n = (b'0' + n / 10) ∷ (b'0' + n % 10) ∷ []

abbrev pub hhmm_text : ℕ → ℕ → List ℕ
hhmm_text h m = two_digits h ++ b':' ∷ two_digits m

-- Parsing the two-digit text of an hour h and a minute m, both below 100, gives h * 60 + m.
pub hhmm_to_mins-hhmm_text :
    (h m : ℕ) → h < 100 → m < 100 → hhmm_to_mins (hhmm_text h m) ≡ h * 60 + m
unfolding hhmm_to_mins
hhmm_to_mins-hhmm_text h m hh hm = ground arith
