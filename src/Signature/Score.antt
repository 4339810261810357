-- ===== src/Signature/Score.antt =====
-- The score that a correct flag is answered with; and that it is what the ranking shows.
use msg_backend.Prelude.{
  ℕ, ◌+◌, ◌≡◌, refl, sym, ap, ◌∙◌, some, Bool-cases, inl, inr, leb, suc, arith,
}
use msg_backend.Ranking.{team_row}
use msg_backend.Ranking.Sources.{Team, Tables, collect_team, get_team_total_score}
use msg_backend.Signature.{
  Hashing, Settings, Request, Challenge, Rows, Response, solved, passed, or_new, unlocked,
  add_solve, save_lock, submit_wrong, submit_correct, signature_submit,
}
use msg_backend.Signature.Branches.{Branch, repeated, refused, accepted, rejected, submit-Passed}

-- The score of the submission's answer is the score of the ranking's row.
total-team_score :
    (tables : Tables) (team : Team)
    → get_team_total_score tables team.team_id ≡ (team_row (collect_team tables team)).team_score
unfolding get_team_total_score team_row collect_team
total-team_score tables team = refl

abbrev ScoredIf : Rows → Challenge → Response → Rows → Type 0
ScoredIf r c (solved earned total at) r' =
    (total ≡ get_team_total_score r'.tables r.team_id)
    × (total ≡ get_team_total_score r.tables r.team_id + earned)
    × (earned ≡ c.score)
ScoredIf r c _ r' = Unit

added-score :
    (r : Rows) (c : Challenge) (now : ℕ)
    → get_team_total_score (add_solve c now r).tables r.team_id
      ≡ get_team_total_score r.tables r.team_id + c.score
unfolding get_team_total_score
added-score r c now = ground arith

Branch-scored :
    (h : Hashing) (settings : Settings) (q : Request) (c : Challenge) (flag : ℕ) (r : Rows)
    (x : Response × Rows)
    → Branch h settings q c flag (or_new r.lock) (save_lock (or_new r.lock) r) x
    → ScoredIf r c x.0 x.1
unfolding submit_wrong submit_correct
Branch-scored h settings q c flag r x (repeated e) = tt
Branch-scored h settings q c flag r x (refused t e e') = tt
Branch-scored h settings q c flag r x (accepted e e' y) = (refl, added-score r c q.created, refl)
Branch-scored h settings q c flag r x (rejected e e' n) =
    elim (Bool-cases (leb settings.max_attempts (suc (unlocked (or_new r.lock)).failed_count))) [
      | inl full ↦ rw full tt
      | inr few ↦ rw few tt
    ]

-- The score that a correct flag is answered with is the score that the ranking shows of the team, and
-- it is the score before and the points that the answer names; these are the challenge's.
pub solved_score :
    (h : Hashing) (settings : Settings) (q : Request) (r r' : Rows) (earned total at : ℕ)
    (team : Team)
    → team.team_id ≡ r.team_id
    → signature_submit h settings q r ≡ passed (solved earned total at, r')
    → (total ≡ (team_row (collect_team r'.tables team)).team_score)
      × (total ≡ get_team_total_score r.tables r.team_id + earned)
      × (c : Challenge) × (r.challenge ≡ some c)
      × (earned ≡ c.score)
solved_score h settings q r r' earned total at team same e =
    let p = submit-Passed h settings q r (solved earned total at, r') e in
    let (shown, more, points) = Branch-scored h settings q p.challenge p.flag r _ p.branch in
    (
      shown ∙ ap (get_team_total_score r'.tables) (sym same) ∙ total-team_score r'.tables team,
      more,
      p.challenge,
      p.found,
      points,
    )
