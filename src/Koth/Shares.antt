-- ===== src/Koth/Shares.antt =====
-- What the awards of one period add up to: teams that share a rank divide the points of the places
-- that they occupy.
use native.Mathlib.Nat.{div-mul-le_self}
use msg_backend.Prelude.{
  ℕ, zero, suc, ◌+◌, ◌-◌, ◌*◌, ◌/◌, ◌≤◌, ◌≡◌, refl, sym, ap, ◌∙◌, inl, inr, List, [], ◌∷◌, ◌++◌,
  map, ltb, ◌==◌, length, select, Bool-cases, arith,
}
use msg_backend.Prelude.Sort.{sort}
use msg_backend.Koth.{
  PeriodResult, Award, sum, point_at, occupied_points, share, keys, award_ranks, award_division,
}

abbrev pub total : List Award → ℕ
total [] = 0
total (a ∷ awards) = a.amount + total awards

total-append : (xs ys : List Award) → total (xs ++ ys) ≡ total xs + total ys
total-append [] ys = omega arith
total-append (x ∷ xs) ys = omega (arith, total-append xs ys)

total-map :
    (amount : ℕ) (teams : List PeriodResult)
    → total (map (λ r. record { team_id = r.team.team_id; amount = amount }) teams)
      ≡ amount * length teams
total-map amount [] = omega arith
total-map amount (r ∷ teams) =
    let ih = total-map amount teams in
    let next : amount * suc (length teams) ≡ amount + amount * length teams = omega arith in
    ap (λ n. amount + n) ih ∙ sym next

-- The shares of a rank are within the points of its places.
total-share :
    (points : ℕ) (teams : List PeriodResult) → total (share (points / length teams) teams) ≤ points
total-share points teams = elim (Bool-cases (ltb 0 (points / length teams))) [
  | inl e ↦
      rw e (rw (total-map (points / length teams) teams) (div-mul-le_self points (length teams)))
  | inr e ↦ rw e (omega arith)
]

occupied-add :
    (points : List ℕ) (d m n : ℕ)
    → occupied_points points d (m + n)
      ≡ occupied_points points d m + occupied_points points (d + m) n
occupied-add points d zero n =
    let none_left : zero + n ≡ n = omega arith in
    let here : d + zero ≡ d = omega arith in rw none_left (rw here (omega arith))
occupied-add points d (suc m) n =
    let ih = occupied-add points (d + 1) m n in
    let next : suc m + n ≡ suc (m + n) = omega arith in
    let place : d + suc m ≡ d + 1 + m = omega arith in rw next (rw place (omega (arith, ih)))

-- The first of the points aside, a place counts from the second.
occupied-tail :
    (p : ℕ) (points : List ℕ) (d n : ℕ)
    → 1 ≤ d
    → occupied_points (p ∷ points) (d + 1) n ≡ occupied_points points d n
occupied-tail p points d zero h = refl
occupied-tail p points d (suc n) h =
    let ih = occupied-tail p points (d + 1) n (omega arith) in
    let later : point_at (p ∷ points) (d + 1) ≡ point_at points d =
      let place : d + 1 - 1 ≡ d = omega arith in ground (arith, h, ap (point_at points) place) in
    rw later (rw ih refl)

occupied-none : (d n : ℕ) → occupied_points [] d n ≡ 0
occupied-none d zero = refl
occupied-none d (suc n) = omega (arith, occupied-none (d + 1) n)

occupied-le-sum : (points : List ℕ) (n : ℕ) → occupied_points points 1 n ≤ sum points
occupied-le-sum [] n = rw (occupied-none 1 n) (omega arith)
occupied-le-sum (p ∷ points) zero = omega arith
occupied-le-sum (p ∷ points) (suc n) =
    omega (arith, occupied-tail p points 1 n (omega arith), occupied-le-sum points n)

-- How many teams have one of these ranks.
teams_at : List PeriodResult → List ℕ → ℕ
teams_at results [] = 0
teams_at results (rank ∷ ranks) =
    length (select (λ r. r.rank == rank) results) + teams_at results ranks

award_ranks-le :
    (points : List ℕ) (results : List PeriodResult) (d : ℕ) (ranks : List ℕ)
    → total (award_ranks points results d ranks) ≤ occupied_points points d (teams_at results ranks)
unfolding teams_at
award_ranks-le points results d [] = omega arith
award_ranks-le points results d (rank ∷ ranks) =
    let teams = select (λ r. r.rank == rank) results in
    let here = occupied_points points d (length teams) in
    let later = award_ranks points results (d + length teams) ranks in
    let ih = award_ranks-le points results (d + length teams) ranks in
    rw (total-append (share (here / length teams) teams) later) (
      rw (occupied-add points d (length teams) (teams_at results ranks))
        (omega (arith, ih, total-share here teams)))

-- The awards of a division, with any points of its places and any results, add up to at most the
-- points of its places.
pub total-award_division :
    (points : List ℕ) (results : List PeriodResult)
    → total (award_division points results) ≤ sum points
unfolding award_division
total-award_division points results =
    let ranks = sort ltb (keys (map (λ r. r.rank) results)) in
    omega (
      arith,
      award_ranks-le points results 1 ranks,
      occupied-le-sum points (teams_at results ranks),
    )
