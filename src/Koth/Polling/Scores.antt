-- ===== src/Koth/Polling/Scores.antt =====
-- What the second transaction of a poll does to the score of each team (poll_challenge_period and
-- _locked_awards_and_snapshot of apps/koth/services.py).
use msg_backend.Prelude.{
  ℕ, suc, ◌+◌, ◌≡◌, ◌⊎◌, inl, inr, refl, ap, ◌∙◌, subst, Bool, true, false, ◌&&◌, Option, none,
  some, some-injective, List, [], ◌∷◌, ◌++◌, ◌==◌, map, All, All-select, Bool-cases, if_cases,
  if◌then◌else◌, exists, exists-first, ltb, arith,
}
use msg_backend.Prelude.Options.{◌>>=◌}
use msg_backend.Ranking.Sources.{KothSolve}
use msg_backend.Koth.{
  Curve, Division, internal, external, Team, PeriodResult, Award, share, award_ranks,
  award_division, paid_in, award_divisions, awards, rank_points,
}
use msg_backend.Koth.Polling.{
  Rows, is_eligible, find_team, group_counts, with_current, current_results, locked_awards,
  with_award, new_solve, is_row, add_award, add_awards, apply_poll,
}
use msg_backend.Koth.Polling.Once.{is_closed, IsApplied, apply-cases}

-- The score of a team in a challenge, and what a list of awards pays to it.
abbrev pub score : ℕ → ℕ → List KothSolve → ℕ
score team challenge [] = 0
score team challenge (k ∷ solves) =
    (if is_row team challenge k then k.earned_score else 0) + score team challenge solves

abbrev pub paid : ℕ → List Award → ℕ
paid team [] = 0
paid team (a ∷ awards) = (if a.team_id == team then a.amount else 0) + paid team awards

-- What an award is for a team in a challenge: nothing, where either is another.
abbrev due : ℕ → ℕ → ℕ → Award → ℕ
due challenge team c a = if c == challenge then (if a.team_id == team then a.amount else 0) else 0

new_row :
    (challenge now team c : ℕ) (a : Award)
    → score team c (with_award a.amount now (new_solve a.team_id challenge) ∷ [])
      ≡ due challenge team c a
new_row challenge now team c a = ground arith

changed_row :
    (challenge now team c : ℕ) (a : Award) (k : KothSolve) (solves : List KothSolve)
    → is_row a.team_id challenge k ≡ true
    → score team c (with_award a.amount now k ∷ solves)
      ≡ score team c (k ∷ solves) + due challenge team c a
changed_row challenge now team c a k solves y = ground (arith, y)

score-add_award :
    (challenge now team c : ℕ) (a : Award) (solves : List KothSolve)
    → score team c (add_award challenge now a solves) ≡ score team c solves + due challenge team c a
score-add_award challenge now team c a [] =
    let row = new_row challenge now team c a in omega (arith, row)
score-add_award challenge now team c a (k ∷ solves) =
    let ih = score-add_award challenge now team c a solves in
    elim (Bool-cases (is_row a.team_id challenge k)) [
      | inl y ↦ rw y (changed_row challenge now team c a k solves y)
      | inr n ↦ rw n (omega (arith, ih))
    ]

score-add_awards :
    (challenge : ℕ) (clock : ℕ → ℕ) (team c : ℕ) (granted : List Award) (solves : List KothSolve)
    → score team c (add_awards challenge clock granted solves)
      ≡ score team c solves + (if c == challenge then paid team granted else 0)
score-add_awards challenge clock team c [] solves = ground arith
score-add_awards challenge clock team c (a ∷ granted) solves =
    let first_one = score-add_award challenge (clock 0) team c a solves in
    let rest =
      score-add_awards challenge (λ n. clock (suc n)) team c granted
        (add_award challenge (clock 0) a solves) in
    elim (Bool-cases (c == challenge)) [
      | inl y ↦ rw y (
          omega (
            arith,
            subst
                (λ b.
                  score team c (
                    add_awards challenge (λ n. clock (suc n)) granted
                      (add_award challenge (clock 0) a solves))
                  ≡ score team c (add_award challenge (clock 0) a solves)
                    + (if b then paid team granted else 0))
                y rest,
            subst
                (λ b.
                  score team c (add_award challenge (clock 0) a solves)
                  ≡ score team c solves
                    + (if b then (if a.team_id == team then a.amount else 0) else 0))
                y first_one,
          ))
      | inr n ↦ ground (arith, n, rest, first_one)
    ]

clash : (b : Bool) → b ≡ true → b ≡ false → ⊥
clash b y n = ground (arith, y, n)

itself : (n : ℕ) (b : Bool) → b ≡ true → (n == n && b) ≡ true
itself n b e = ground (arith, e)

found :
    {A B : Type 0} (o : Option A) (f : A → Option B) (b : B)
    → (o >>= f) ≡ some b
    → (a : A) × (o ≡ some a) × (f a ≡ some b)
found none f b e = absurd (ground (arith, e))
found (some a) f b e = (a, refl, e)

-- Only teams of the results have awards.
module _ (P : ℕ → Type 0) where
  abbrev IsOf : PeriodResult → Type 0
  IsOf x = P x.team.team_id

  abbrev IsFor : Award → Type 0
  IsFor a = P a.team_id

  All-append : (xs ys : List Award) → All IsFor xs → All IsFor ys → All IsFor (xs ++ ys)
  All-append [] ys h k = k
  All-append (x ∷ xs) ys h k = (h.0, All-append xs ys h.1 k)

  All-shared :
      (amount : ℕ) (teams : List PeriodResult)
      → All IsOf teams
      → All IsFor (map (λ r. record { team_id = r.team.team_id; amount = amount }) teams)
  All-shared amount [] h = tt
  All-shared amount (r ∷ teams) h = (h.0, All-shared amount teams h.1)

  All-share :
      (amount : ℕ) (teams : List PeriodResult) → All IsOf teams → All IsFor (share amount teams)
  All-share amount teams h =
      if_cases (All IsFor) (ltb 0 amount)
        (map (λ r. record { team_id = r.team.team_id; amount = amount }) teams) []
        (λ _. All-shared amount teams h) (λ _. tt)

  All-award_ranks :
      (points : List ℕ) (results : List PeriodResult) (ranks : List ℕ) (place : ℕ)
      → All IsOf results
      → All IsFor (award_ranks points results place ranks)
  All-award_ranks points results [] place h = tt
  All-award_ranks points results (rank ∷ ranks) place h =
      All-append _ _ (All-share _ _ (All-select IsOf (λ r. r.rank == rank) results h))
        (All-award_ranks points results ranks _ h)

  All-award_division :
      (points : List ℕ) (results : List PeriodResult)
      → All IsOf results
      → All IsFor (award_division points results)
  unfolding award_division
  All-award_division points results h = All-award_ranks points results _ 1 h

  All-award_divisions :
      (curve : Curve) (counts : Division → ℕ) (results : List PeriodResult)
      (divisions : List Division) (granted : List Award)
      → All IsOf results
      → award_divisions curve counts results divisions ≡ some granted
      → All IsFor granted
  All-award_divisions curve counts results [] granted h e =
      subst (All IsFor) (some-injective [] granted e) tt
  All-award_divisions curve counts results (division ∷ divisions) granted h e =
      let (points, _, e1) = found (rank_points curve (counts division)) _ granted e in
      let (rest, e2, e3) = found (award_divisions curve counts results divisions) _ granted e1 in
      subst (All IsFor) (some-injective _ granted e3) (
        All-append _ _
          (All-award_division points (paid_in division results) (All-select IsOf _ results h))
          (All-award_divisions curve counts results divisions rest h e2))

-- The team is there under the lock, and neither banned nor a test team.
abbrev pub is_entitled : Rows → ℕ → Bool
is_entitled r team = exists (λ t. t.team_id == team && is_eligible r t) r.teams

entitled :
    (r : Rows) (id : ℕ) (t : Team)
    → find_team r.teams id ≡ some t
    → is_eligible r t ≡ true
    → is_entitled r t.team_id ≡ true
entitled r id t e eligible =
    exists-first (λ u. u.team_id == t.team_id && is_eligible r u) (λ u. u.team_id == id) r.teams t e
      (itself t.team_id (is_eligible r t) eligible)

abbrev IsEntitled : Rows → ℕ → Type 0
IsEntitled r id = is_entitled r id ≡ true

with_current-IsEntitled :
    (r : Rows) (x : PeriodResult) (rest : List PeriodResult) (o : Option Team)
    → find_team r.teams x.team.team_id ≡ o
    → All (λ y. IsEntitled r y.team.team_id) rest
    → All (λ y. IsEntitled r y.team.team_id) (with_current r x rest o)
with_current-IsEntitled r x rest none e h = h
with_current-IsEntitled r x rest (some t) e h =
    if_cases (All (λ y. IsEntitled r y.team.team_id)) (is_eligible r t)
      (record x { team = t } ∷ rest) rest (λ y. (entitled r x.team.team_id t e y, h)) (λ _. h)

current_results-IsEntitled :
    (r : Rows) (results : List PeriodResult)
    → All (λ x. IsEntitled r x.team.team_id) (current_results r results)
unfolding current_results
current_results-IsEntitled r [] = tt
current_results-IsEntitled r (x ∷ results) =
    with_current-IsEntitled r x (current_results r results) (find_team r.teams x.team.team_id) refl
      (current_results-IsEntitled r results)

locked_awards-IsEntitled :
    (curve : Curve) (r : Rows) (results : List PeriodResult) (granted : List Award)
    → locked_awards curve r results ≡ some granted
    → All (λ a. IsEntitled r a.team_id) granted
unfolding locked_awards awards
locked_awards-IsEntitled curve r results granted e =
    let (g, e1, e2) =
      found (awards curve (group_counts r) (current_results r results)) _ granted e in
    let (p, _, e3) = found (rank_points curve (group_counts r internal)) _ granted e2 in
    let (q, _, e4) = found (rank_points curve (group_counts r external)) _ granted e3 in
    subst (All (λ a. IsEntitled r a.team_id)) (some-injective g granted e4) (
      All-award_divisions (IsEntitled r) curve (group_counts r) (current_results r results) _ g
        (current_results-IsEntitled r results) e1)

unpaid :
    (r : Rows) (team : ℕ) (granted : List Award)
    → All (λ a. IsEntitled r a.team_id) granted
    → is_entitled r team ≡ false
    → paid team granted ≡ 0
unpaid r team [] h n = refl
unpaid r team (a ∷ granted) h n =
    let ih = unpaid r team granted h.1 n in
    elim (Bool-cases (a.team_id == team)) [
      | inl y ↦
          let same : a.team_id ≡ team = ground (arith, y) in
          absurd (clash (is_entitled r team) (subst (IsEntitled r) same h.0) n)
      | inr m ↦ rw m (omega (arith, ih))
    ]

closing :
    (curve : Curve) (challenge : ℕ) (clock : ℕ → ℕ) (results : List PeriodResult) (r : Rows)
    → is_closed r ≡ false
    → is_closed (apply_poll curve challenge clock results r).0 ≡ true
    → IsApplied curve challenge clock results r (apply_poll curve challenge clock results r).0
unfolding apply_poll
closing curve challenge clock results r before after =
    elim (apply-cases curve challenge clock results r r.period refl) [
      | inl u ↦ absurd (clash _ after (u.0 ∙ before))
      | inr a ↦ a
    ]

-- What a transaction that has closed the period does for one team, with its score in any challenge.
pub record IsCredited (curve : Curve) (challenge : ℕ) (results : List PeriodResult) (r s : Rows)
    (team c : ℕ) : Type 0 where
  pub granted : List Award
  pub computed : locked_awards curve r results ≡ some granted
  pub credited :
      score team c s.solves
      ≡ score team c r.solves + (if c == challenge then paid team granted else 0)
  pub lawful : (is_entitled r team ≡ true) ⊎ (score team c s.solves ≡ score team c r.solves)

unchanged : (b : Bool) (n m k : ℕ) → m ≡ n + (if b then k else 0) → k ≡ 0 → m ≡ n
unchanged b n m k e z = ground (arith, e, z)

-- Where a poll's second transaction closes an open period, the score of each team grows in the poll's
-- challenge by the sum of the team's awards, and in no other challenge; a team that is gone, banned or
-- a test team under the lock keeps its score.
pub poll_credits :
    (curve : Curve) (challenge : ℕ) (clock : ℕ → ℕ) (results : List PeriodResult) (r : Rows)
    (team c : ℕ)
    → is_closed r ≡ false
    → is_closed (apply_poll curve challenge clock results r).0 ≡ true
    → IsCredited curve challenge results r (apply_poll curve challenge clock results r).0 team c
poll_credits curve challenge clock results r team c before after =
    let a = closing curve challenge clock results r before after in
    let s = (apply_poll curve challenge clock results r).0 in
    let grows =
      ap (score team c) a.added ∙ score-add_awards challenge clock team c a.granted r.solves in
    record {
      granted = a.granted;
      computed = a.computed;
      credited = grows;
      lawful = elim (Bool-cases (is_entitled r team)) [
        | inl y ↦ inl y
        | inr n ↦ inr (
            unchanged (c == challenge) (score team c r.solves) (score team c s.solves)
              (paid team a.granted) grows
              (unpaid r team a.granted
                (locked_awards-IsEntitled curve r results a.granted a.computed) n))
      ];
    }
