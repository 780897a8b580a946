-- ===== src/Reviews/Sound.antt =====
-- What every decision obeys, for each type of request (src/services/approval-workflows.ts).
use attenda_api.Base.{
  ℕ, ◌<◌, ◌≡◌, refl, Bool, true, false, not, Option, none, some, ◌==◌, if◌then◌else◌, if_keeps,
  count, count_by-updated, arith, Table,
}
use attenda_api.Reviews.{Tables, Store, Snapshot, Decision, Refusal}
use attenda_api.Reviews.Claim.{in_scope, transaction}

module _ (t : Tables) (snap : Snapshot) (d : Decision) (opens : Store t → ℕ) where
  -- The outcome of a decision on a request of `requester`, where `opens` counts the requests that can
  -- still be decided: an error changes nothing; a success was admitted and decided an open request,
  -- and leaves none.
  abbrev pub Sound : Option ℕ → Store t → Store t × Option Refusal → Type 0
  Sound requester s (s', some e) = s' ≡ s
  Sound none s (s', none) = 0 < 0
  Sound (some u) s (s', none) = (in_scope snap d u ≡ true) × (0 < opens s) × (opens s' ≡ 0)

  pub Sound-guard :
      (b : Bool) (u : ℕ) (s : Store t) (x : Store t × Option Refusal) (e : Refusal)
      → Sound (some u) s x
      → Sound (some u) s (if b then (s, some e) else x)
  Sound-guard true u s x e h = refl
  Sound-guard false u s x e h = h

  pub Sound-scope :
      (u : ℕ) (s : Store t) (x : Store t × Option Refusal) (e : Refusal)
      → (in_scope snap d u ≡ true → Sound (some u) s x)
      → Sound (some u) s (if not (in_scope snap d u) then (s, some e) else x)
  Sound-scope u s x e h =
      if_keeps (Sound (some u) s) (not (in_scope snap d u)) (λ k. refl) (λ k. h (ground arith))

  -- A claim that leaves no open request.
  pub Sound-claim :
      (u : ℕ) (s s' s'' : Store t) (e : Refusal)
      → in_scope snap d u ≡ true
      → opens s' ≡ 0
      → Sound (some u) s (transaction s (if opens s == 0 then (s'', some e) else (s', none)))
  unfolding transaction
  Sound-claim u s s' s'' e admitted gone =
      if_keeps (λ x. Sound (some u) s (transaction s x)) (opens s == 0) (λ h. refl)
        (λ h. (admitted, ground arith, gone))

  pub Sound-either :
      (b : Bool) (u : ℕ) (s : Store t) (x y : Store t × Option Refusal)
      → Sound (some u) s x
      → Sound (some u) s y
      → Sound (some u) s (if b then x else y)
  Sound-either true u s x y h k = h
  Sound-either false u s x y h k = k

-- Rows that an update closes are counted no longer.
pub closed :
    {Row : Type 0} (table : Table Row) (p : Row → Bool) (f : Row → Row) (s : table.State)
    → ((x : Row) → p (f x) ≡ false)
    → count table p (table.update_many p f s) ≡ 0
closed table p f s gone =
    rw (table.rows-update_many p f s) (count_by-updated p p f (table.rows s) gone (λ x h. h))

abbrev pub requester_of : {Row : Type 0} → (Row → ℕ) → Option Row → Option ℕ
requester_of user none = none
requester_of user (some r) = some (user r)
