-- ===== src/Challenges/Cache.antt =====
-- The score that each team's row keeps is the sum of the current scores of its solves.
use msg_backend.Prelude.{
  ℕ, ◌+◌, ◌≡◌, refl, sym, ap, ◌∙◌, inl, inr, Bool, true, false, not, ◌&&◌, ◌||◌, none, some, List,
  [], ◌∷◌, if◌then◌else◌, ◌==◌, select, update, All, All_imp, Bool-cases, arith,
}
use msg_backend.Challenges.{
  Challenge, Solve, TeamScore, Rows, Curve, score_of, team_total, has_solved, save_score,
  is_affected, update_dynamic_score_and_team_scores, record_solve, revoke_solve,
}

abbrev pub IsCached : Rows → Type 0
IsCached r = All (λ t. t.team_score ≡ team_total r.challenges r.solves t.team_id) r.teams

score_of-save_score :
    (id other score : ℕ) (challenges : List Challenge)
    → other == id ≡ false
    → score_of other (save_score id score challenges) ≡ score_of other challenges
score_of-save_score id other score [] h = refl
score_of-save_score id other score (c ∷ challenges) h =
    let ih = score_of-save_score id other score challenges h in
    elim (Bool-cases (c.challenge_id == id)) [
      | inl e ↦ rw e (ground (arith, e, h, ih))
      | inr e ↦ rw e (ground (arith, ih))
    ]

-- A new score of a challenge does not change the total of a team that has not solved it.
team_total-save_score :
    (id score team : ℕ) (challenges : List Challenge) (solves : List Solve)
    → has_solved solves id team ≡ false
    → team_total (save_score id score challenges) solves team ≡ team_total challenges solves team
team_total-save_score id score team challenges [] h = refl
team_total-save_score id score team challenges (s ∷ solves) h =
    let ih = team_total-save_score id score team challenges solves (ground (arith, h)) in
    elim (Bool-cases (s.team_id == team)) [
      | inl e ↦
          let other : s.challenge_id == id ≡ false = ground (arith, h, e) in
          rw e (
            rw (score_of-save_score id s.challenge_id score challenges other)
              (ap (λ n. score_of s.challenge_id challenges + n) ih))
      | inr e ↦ rw e (ap (λ n. 0 + n) ih)
    ]

-- The rows that are updated are right, and the others still are.
update-IsCached :
    (affected : TeamScore → Bool) (total : ℕ → ℕ) (teams : List TeamScore)
    → All (λ t. affected t ≡ false → t.team_score ≡ total t.team_id) teams
    → All
        (λ t. t.team_score ≡ total t.team_id)
        (update affected (λ t. record t { team_score = total t.team_id }) teams)
update-IsCached affected total [] h = tt
update-IsCached affected total (t ∷ teams) h =
    let rest = update-IsCached affected total teams h.1 in
    elim (Bool-cases (affected t)) [ inl e ↦ rw e (refl, rest) | inr e ↦ rw e (h.0 e, rest) ]

module _ (c : Challenge) (team : ℕ) (r : Rows) where
  abbrev solves_after : List Solve
  solves_after = record { team_id = team; challenge_id = c.challenge_id } ∷ r.solves

  -- The rows after a solve, whether the challenge's score is unchanged or not.
  rescored :
      (score : ℕ) (unchanged : Bool)
      → IsCached r
      → let challenges =
          if not unchanged || not true
          then save_score c.challenge_id score r.challenges
          else r.challenges in
        All
          (λ t. t.team_score ≡ team_total challenges solves_after t.team_id)
          (update
            (is_affected unchanged (some team) solves_after c.challenge_id)
            (λ t. record t { team_score = team_total challenges solves_after t.team_id })
            r.teams)
  rescored score true h =
      update-IsCached _ (team_total r.challenges solves_after) r.teams
        (All_imp _ _ r.teams (λ t cached other. ground (arith, cached, other)) h)
  rescored score false h =
      let challenges = save_score c.challenge_id score r.challenges in
      update-IsCached _ (team_total challenges solves_after) r.teams (
        All_imp _ _ r.teams
          (λ t cached other.
            let before : has_solved r.solves c.challenge_id t.team_id ≡ false =
              ground (arith, other) in
            ground (
              arith,
              cached,
              other,
              team_total-save_score c.challenge_id score t.team_id r.challenges r.solves before,
            ))
          h)

-- The same, for the teams of which `K` holds.
update-but :
    (K : ℕ → Type 0) (affected : TeamScore → Bool) (total : ℕ → ℕ) (teams : List TeamScore)
    → All (λ t. affected t ≡ false → K t.team_id → t.team_score ≡ total t.team_id) teams
    → All
        (λ t. K t.team_id → t.team_score ≡ total t.team_id)
        (update affected (λ t. record t { team_score = total t.team_id }) teams)
update-but K affected total [] h = tt
update-but K affected total (t ∷ teams) h =
    let rest = update-but K affected total teams h.1 in
    elim (Bool-cases (affected t)) [
      | inl e ↦ rw e (λ k. refl, rest)
      | inr e ↦ rw e (λ k. h.0 e k, rest)
    ]

-- A team that has not solved the challenge keeps its total.
still_cached :
    (K : ℕ → Type 0) (c : Challenge) (r : Rows) (score : ℕ)
    → All (λ t. K t.team_id → t.team_score ≡ team_total r.challenges r.solves t.team_id) r.teams
    → All
        (λ t.
          has_solved r.solves c.challenge_id t.team_id ≡ false
          → K t.team_id
          → t.team_score
            ≡ team_total (save_score c.challenge_id score r.challenges) r.solves t.team_id)
        r.teams
still_cached K c r score h =
    All_imp _ _ r.teams
      (λ t cached other k.
        cached k
        ∙ sym (team_total-save_score c.challenge_id score t.team_id r.challenges r.solves other))
      h

-- The rows after a recalculation for all teams that have solved the challenge.
all_rescored :
    (K : ℕ → Type 0) (c : Challenge) (r : Rows) (score : ℕ) (unchanged : Bool)
    → All (λ t. K t.team_id → t.team_score ≡ team_total r.challenges r.solves t.team_id) r.teams
    → let challenges =
        if not unchanged || not false
        then save_score c.challenge_id score r.challenges
        else r.challenges in
      All
        (λ t. K t.team_id → t.team_score ≡ team_total challenges r.solves t.team_id)
        (update
          (is_affected unchanged none r.solves c.challenge_id)
          (λ t. record t { team_score = team_total challenges r.solves t.team_id })
          r.teams)
all_rescored K c r score true h =
    update-but K _ (team_total (save_score c.challenge_id score r.challenges) r.solves) r.teams
      (still_cached K c r score h)
all_rescored K c r score false h =
    update-but K _ (team_total (save_score c.challenge_id score r.challenges) r.solves) r.teams
      (still_cached K c r score h)

-- A revoked solve changes no other team's total.
team_total-revoked :
    (challenges : List Challenge) (id team other : ℕ) (solves : List Solve)
    → other == team ≡ false
    → team_total challenges
        (select (λ s. not (s.challenge_id == id && s.team_id == team)) solves)
        other
      ≡ team_total challenges solves other
team_total-revoked challenges id team other [] h = refl
team_total-revoked challenges id team other (s ∷ solves) h =
    ground (arith, h, team_total-revoked challenges id team other solves h)

-- What changes the scores: a correct submission of a team to a challenge, a recalculation of a
-- challenge by the administration, or a revoked solve, each with the challenge as it is then.
pub data Change : Type 0 where
  solve : Challenge → ℕ → Change
  recalculate : Challenge → Change
  revoke : Challenge → ℕ → Change

abbrev pub change : Curve → Change → Rows → Rows
change curve (solve c team) r = record_solve curve c team r
change curve (recalculate c) r = update_dynamic_score_and_team_scores curve c none r
change curve (revoke c team) r = revoke_solve curve c team r

abbrev pub run : Curve → List Change → Rows → Rows
run curve [] r = r
run curve (x ∷ changes) r = run curve changes (change curve x r)

pub change-IsCached :
    (curve : Curve) (x : Change) (r : Rows) → IsCached r → IsCached (change curve x r)
unfolding record_solve revoke_solve update_dynamic_score_and_team_scores
change-IsCached curve (solve c team) r h = rescored c team r _ _ h
change-IsCached curve (recalculate c) r h =
    All_imp _ _ _ (λ t cached. cached tt)
      (all_rescored (λ id. Unit) c r _ _ (All_imp _ _ r.teams (λ t cached k. cached) h))
change-IsCached curve (revoke c team) r h =
    let left = select (λ s. not (s.challenge_id == c.challenge_id && s.team_id == team)) r.solves in
    update-IsCached (λ t. t.team_id == team) _ _
      (All_imp _ _ _ (λ t cached other. cached other)
        (all_rescored (λ id. id == team ≡ false) c (record r { solves = left }) _ _
          (All_imp _ _ r.teams
            (λ t cached other.
              cached
              ∙ sym (team_total-revoked r.challenges c.challenge_id team t.team_id r.solves other))
            h)))

-- Where each team's row keeps the sum of the current scores of its solves, it does so after any
-- history of correct submissions, recalculations by the administration and revoked solves.
pub run-IsCached :
    (curve : Curve) (changes : List Change) (r : Rows) → IsCached r → IsCached (run curve changes r)
run-IsCached curve [] r h = h
run-IsCached curve (x ∷ changes) r h =
    run-IsCached curve changes (change curve x r) (change-IsCached curve x r h)
