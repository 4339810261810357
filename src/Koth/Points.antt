-- ===== src/Koth/Points.antt =====
-- The points of the places of a division: strictly decreasing, from 40 to 1.
use msg_backend.Prelude.{
  ℕ, zero, suc, ◌+◌, ◌-◌, ◌/◌, ◌≤◌, ◌<◌, max, ◌≡◌, false, refl, sym, ap, ◌∙◌, subst, some, List, [],
  ◌∷◌, All, length, ltb, ◌==◌, arith,
}
use msg_backend.Koth.{Curve, sum, increment, add_remainders, points_after, extras, rank_points}

-- What floating-point arithmetic gives for `n` places: a floor for each gap, which together do not
-- exceed the drop that is left, and for what remains of it enough indices of gaps.
pub record IsCurve (curve : Curve) (n : ℕ) : Type 0 where
  pub gaps : length (curve.floors n) + 1 ≡ n
  pub within : sum (curve.floors n) ≤ 40 - n
  pub enough : 40 - n - sum (curve.floors n) ≤ length (curve.remainder_order n)
  pub indices : All (λ i. i < length (curve.floors n)) (curve.remainder_order n)

length-increment : (i : ℕ) (xs : List ℕ) → length (increment i xs) ≡ length xs
length-increment i [] = refl
length-increment zero (x ∷ xs) = refl
length-increment (suc i) (x ∷ xs) = ap suc (length-increment i xs)

sum-increment : (i : ℕ) (xs : List ℕ) → i < length xs → sum (increment i xs) ≡ suc (sum xs)
sum-increment i [] h = absurd (omega (arith, h))
sum-increment zero (x ∷ xs) h = omega arith
sum-increment (suc i) (x ∷ xs) h = omega (arith, sum-increment i xs (omega (arith, h)))

length-add_remainders : (n : ℕ) (order xs : List ℕ) → length (add_remainders n order xs) ≡ length xs
length-add_remainders zero order xs = refl
length-add_remainders (suc n) [] xs = refl
length-add_remainders (suc n) (i ∷ order) xs =
    length-add_remainders n order (increment i xs) ∙ length-increment i xs

sum-add_remainders :
    (n : ℕ) (order xs : List ℕ)
    → n ≤ length order
    → All (λ i. i < length xs) order
    → sum (add_remainders n order xs) ≡ n + sum xs
sum-add_remainders zero order xs h k = omega arith
sum-add_remainders (suc n) [] xs h k = absurd (omega (arith, h))
sum-add_remainders (suc n) (i ∷ order) xs h k =
    let kept = subst (λ m. All (λ i. i < m) order) (sym (length-increment i xs)) k.1 in
    omega (
      arith,
      sum-add_remainders n order (increment i xs) (omega (arith, h)) kept,
      sum-increment i xs k.0,
    )

-- Each point is less than the one before it.
abbrev pub IsFalling : ℕ → List ℕ → Type 0
IsFalling p [] = Unit
IsFalling p (q ∷ points) = (q < p) × IsFalling q points

abbrev pub last_from : ℕ → List ℕ → ℕ
last_from p [] = p
last_from p (q ∷ points) = last_from q points

points_after-lem :
    (p : ℕ) (xs : List ℕ)
    → length xs + sum xs < p
    → (length (points_after p xs) ≡ length xs)
      × IsFalling p (points_after p xs)
      × (last_from p (points_after p xs) + length xs + sum xs ≡ p)
points_after-lem p [] h = (refl, tt, omega arith)
points_after-lem p (x ∷ xs) h =
    let (len, falling, last) = points_after-lem (p - 1 - x) xs (omega (arith, h)) in
    (ap suc len, (omega (arith, h), falling), omega (arith, last, h))

extras-lem :
    (curve : Curve) (n : ℕ)
    → IsCurve curve n
    → (length (extras curve n) + 1 ≡ n) × (sum (extras curve n) ≡ 40 - n)
unfolding extras
extras-lem curve n c =
    let floors = curve.floors n in
    let order = curve.remainder_order n in
    let left = 40 - n - sum floors in
    (
      ap (λ m. m + 1) (length-add_remainders left order floors) ∙ c.gaps,
      omega (arith, sum-add_remainders left order floors c.enough c.indices, c.within),
    )

-- For a group of 4 to 81 teams, and with a curve as floating-point arithmetic gives it for half of
-- them, rank_points gives the first place 40 points, each later place of the half less than the one
-- before, and the last one a single point.
pub rank_points_lem :
    (curve : Curve) (teams : ℕ)
    → 4 ≤ teams
    → teams ≤ 81
    → IsCurve curve (teams / 2)
    → (points : List ℕ) × (rank_points curve teams ≡ some (40 ∷ points))
      × (length (40 ∷ points) ≡ teams / 2)
      × IsFalling 40 points
      × (last_from 40 points ≡ 1)
unfolding rank_points
rank_points_lem curve zero lo hi c = absurd (omega (arith, lo))
rank_points_lem curve (suc n) lo hi c =
    let awarded = suc n / 2 in
    let two : 2 ≤ awarded = omega (arith, lo) in
    let most : awarded ≤ 40 = omega (arith, hi) in
    let counted : max 1 awarded ≡ awarded = omega (arith, two) in
    let (len, exact) = extras-lem curve awarded c in
    let gaps = extras curve awarded in
    let small : ltb 40 awarded ≡ false = ground (arith, most) in
    let several : awarded == 1 ≡ false = ground (arith, two) in
    let (l, f, z) = points_after-lem 40 gaps (omega (arith, len, exact, most, two)) in
    (
      points_after 40 gaps,
      rw counted (rw small (rw several refl)),
      omega (arith, l, len),
      f,
      omega (arith, z, len, exact, most),
    )
