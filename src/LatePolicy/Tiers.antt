-- ===== src/LatePolicy/Tiers.antt =====
-- The tiers of a policy (parseLatePolicy and pointsForLateness of src/services/latePolicy.ts).
use attenda_api.Base.{
  ℕ, ◌≤◌, ◌<◌, ◌≡◌, refl, inl, inr, ◌&&◌, Option, none, some, List, [], ◌∷◌, ltb, leb, sort_by,
  insert_by, All, Bool-cases, arith,
}
use attenda_api.LatePolicy.{
  LateTier, RawTier, valid_tier, valid_tiers, some_tiers, parse_tiers, points_reached,
  points_for_lateness,
}

abbrev pub ValidTier : LateTier → Type 0
ValidTier t = (1 ≤ t.after_mins) × (0 < t.points) × (t.points ≤ 100)

valid_tier-ValidTier :
    (after points : Option ℕ) (rest : List LateTier)
    → All ValidTier rest
    → All ValidTier (valid_tier after points rest)
valid_tier-ValidTier none points rest h = h
valid_tier-ValidTier (some after) none rest h = h
valid_tier-ValidTier (some after) (some points) rest h =
    elim (Bool-cases (leb 1 after && (ltb 0 points && leb points 100))) [
      | inl e ↦ rw e ((ground (arith, e), ground (arith, e), ground (arith, e)), h)
      | inr e ↦ rw e h
    ]

valid_tiers-ValidTier : (raw : List (Option RawTier)) → All ValidTier (valid_tiers raw)
unfolding valid_tiers
valid_tiers-ValidTier [] = tt
valid_tiers-ValidTier (none ∷ rest) = valid_tiers-ValidTier rest
valid_tiers-ValidTier (some t ∷ rest) =
    valid_tier-ValidTier t.after_mins t.points _ (valid_tiers-ValidTier rest)

insert-ValidTier :
    (t : LateTier) (ts : List LateTier)
    → ValidTier t
    → All ValidTier ts
    → All ValidTier (insert_by (λ t. t.after_mins) t ts)
insert-ValidTier t [] v h = (v, tt)
insert-ValidTier t (x ∷ ts) v h = elim (Bool-cases (leb t.after_mins x.after_mins)) [
  | inl e ↦ rw e (v, h)
  | inr e ↦ rw e (h.0, insert-ValidTier t ts v h.1)
]

sort-ValidTier :
    (ts : List LateTier) → All ValidTier ts → All ValidTier (sort_by (λ t. t.after_mins) ts)
sort-ValidTier [] h = tt
sort-ValidTier (t ∷ ts) h =
    insert-ValidTier t (sort_by (λ t. t.after_mins) ts) h.0 (sort-ValidTier ts h.1)

points_reached_bound :
    (late : ℕ) (ts : List LateTier) (points : ℕ)
    → All ValidTier ts
    → points ≤ 100
    → points_reached late ts points ≤ 100
unfolding points_reached
points_reached_bound late [] points h b = b
points_reached_bound late (t ∷ ts) points h b =
    points_reached_bound late ts _ h.1 (ground (arith, b, h.0.2))

-- A late arrival costs at most 100 points under any policy that the parser accepts, and none where
-- the arrival is not late.
pub parse_tiers_points :
    (raw : Option (List (Option RawTier))) (late : ℕ)
    → (points_for_lateness late (parse_tiers raw) ≤ 100)
      × (points_for_lateness 0 (parse_tiers raw) ≡ 0)
parse_tiers_points none late = unfold parse_tiers points_for_lateness in (omega arith, refl)
parse_tiers_points (some raw) late =
    unfold parse_tiers in
    costs (sort_by (λ t. t.after_mins) (valid_tiers raw))
      (sort-ValidTier (valid_tiers raw) (valid_tiers-ValidTier raw))
  where
    costs :
        (ts : List LateTier)
        → All ValidTier ts
        → (points_for_lateness late (some_tiers ts) ≤ 100)
          × (points_for_lateness 0 (some_tiers ts) ≡ 0)
    costs [] h = unfold points_for_lateness in (omega arith, refl)
    costs (t ∷ ts) h =
        unfold points_for_lateness in
        (ground (arith, points_reached_bound late (t ∷ ts) 0 h (omega arith)), refl)
