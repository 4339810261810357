-- ===== src/Jeopardy/Once.antt =====
-- A team solves a challenge once.
use msg_backend.Prelude.{
  ℕ, ◌≡◌, refl, Bool, true, false, not, ◌&&◌, ◌||◌, List, [], ◌∷◌, ◌==◌, select, first_passes,
  Bool-cases, inl, inr, All, arith,
}
use msg_backend.Prelude.Result.{Result, failed, ok, committed, Ensures}
use msg_backend.Board.Model.{Shared}
use msg_backend.Challenges.{
  Curve, Solve, has_solved, record_solve, update_dynamic_score_and_team_scores, revoke_solve,
}
use msg_backend.Challenges.Cache.{solve, recalculate, revoke}
use msg_backend.Signature.{Hashing, Settings}
use msg_backend.Jeopardy.{Error, Rows, Request, Response, post}
use msg_backend.Jeopardy.Outcomes.{
  Operation, submit, play, edit, elsewhere, serve, run, IsLeft, is_solved_answer, Outcome, kept,
  won, post-Outcome,
}

abbrev IsDone : ℕ → ℕ → Rows → Type 0
IsDone team id r = (r.team_id ≡ team) × (has_solved r.scores.solves id team ≡ true)

later : (a b : Bool) → b ≡ true → a || b ≡ true
later a b e = ground (arith, e)

-- A revoked solve of another team leaves this team's.
left_solved :
    (id team challenge other : ℕ) (solves : List Solve)
    → other == team ≡ false
    → has_solved solves id team ≡ true
    → has_solved
        (select (λ s. not (s.challenge_id == challenge && s.team_id == other)) solves)
        id
        team
      ≡ true
left_solved id team challenge other [] n e = e
left_solved id team challenge other (s ∷ solves) n e =
    ground (arith, n, e, left_solved id team challenge other solves n)

Outcome-IsDone :
    (curve : Curve) (sh : Shared) (q : Request) (r : Rows) (team id : ℕ) (x : Response × Rows)
    → Outcome curve sh q r x
    → IsDone team id r
    → IsDone team id x.1
unfolding record_solve update_dynamic_score_and_team_scores
Outcome-IsDone curve sh q r team id _ (kept answer locks submissions e) h = h
Outcome-IsDone curve sh q r team id _ (won hash amount c granted b answer locks new found done) h =
    (h.0, later _ _ h.1)

serve-IsDone :
    (team id : ℕ) (o : Operation) (r : Rows)
    → IsLeft team o
    → IsDone team id r
    → IsDone team id (serve o r)
unfolding record_solve update_dynamic_score_and_team_scores revoke_solve
serve-IsDone team id (submit h settings curve sh q before) r left done =
    kept_by (post h settings curve sh q before r) (post-Outcome h settings curve sh q r before)
  where
    kept_by :
        (m : Result Error (Response × Rows))
        → Ensures (Outcome curve sh q r) m
        → IsDone team id (committed r m)
    kept_by (failed e) o = done
    kept_by (ok x) o = Outcome-IsDone curve sh q r team id x (o.at x refl) done
serve-IsDone team id (play q) r left done = done
serve-IsDone team id (edit details) r left done = done
serve-IsDone team id (elsewhere curve (solve c other)) r left done = (done.0, later _ _ done.1)
serve-IsDone team id (elsewhere curve (recalculate c)) r left done = done
serve-IsDone team id (elsewhere curve (revoke c other)) r left done =
    (done.0, left_solved id team c.challenge_id other r.scores.solves left done.1)

run-IsDone :
    (team id : ℕ) (operations : List Operation) (r : Rows)
    → All (IsLeft team) operations
    → IsDone team id r
    → IsDone team id (run operations r)
run-IsDone team id [] r left done = done
run-IsDone team id (o ∷ operations) r left done =
    run-IsDone team id operations (serve o r) left.1 (serve-IsDone team id o r left.0 done)

here :
    (given id team : ℕ) (rest : Bool)
    → given == id ≡ true
    → (given == id && team == team) || rest ≡ true
here given id team rest e = ground (arith, e)

-- An answer that the flag was correct leaves a solve of a challenge that had none.
Outcome-solved :
    (curve : Curve) (sh : Shared) (q : Request) (r : Rows) (x : Response × Rows)
    → Outcome curve sh q r x
    → is_solved_answer x.0 ≡ true
    → IsDone r.team_id q.challenge_id x.1
      × (has_solved r.scores.solves q.challenge_id r.team_id ≡ false)
unfolding record_solve update_dynamic_score_and_team_scores
Outcome-solved curve sh q r _ (kept answer locks submissions e) yes' =
    absurd (ground (arith, e, yes'))
Outcome-solved curve sh q r _ (won hash amount c granted b answer locks new found done) yes' = (
  (
    refl,
    here c.challenge_id q.challenge_id r.team_id _
        (first_passes (λ c. c.challenge_id == q.challenge_id) r.scores.challenges c found),
  ),
  new,
)

moved_to :
    (id' id team' team : ℕ) (solves : List Solve)
    → id' ≡ id
    → team' ≡ team
    → has_solved solves id team ≡ true
    → has_solved solves id' team' ≡ true
moved_to id' id team' team solves e e' h = rw e (rw e' h)

-- After a submission that was answered as correct, and any history of submissions, board requests,
-- edits of challenges and changes of scores elsewhere, no submission to the same challenge is answered
-- as correct, as long as no solve of the team is revoked.
pub solve_once :
    (h h' : Hashing) (settings settings' : Settings) (curve curve' : Curve) (sh sh' : Shared)
    (q q' : Request) (before before' r : Rows) (x y : Response × Rows) (operations : List Operation)
    → post h settings curve sh q before r ≡ ok x
    → is_solved_answer x.0 ≡ true
    → All (IsLeft r.team_id) operations
    → q'.challenge_id ≡ q.challenge_id
    → post h' settings' curve' sh' q' before' (run operations x.1) ≡ ok y
    → is_solved_answer y.0 ≡ false
solve_once h h' settings settings' curve curve' sh sh' q q' before before' r x y operations
      first_time solved left same again =
    let first_one =
      Outcome-solved curve sh q r x ((post-Outcome h settings curve sh q r before).at x first_time)
        solved in
    let done = run-IsDone r.team_id q.challenge_id operations x.1 left first_one.0 in
    elim (Bool-cases (is_solved_answer y.0)) [
      | inl repeated ↦
          let second_one =
            Outcome-solved curve' sh' q' (run operations x.1) y
              ((post-Outcome h' settings' curve' sh' q' (run operations x.1) before').at y again)
              repeated in
          absurd (
            ground (
              arith,
              second_one.1,
              moved_to q'.challenge_id q.challenge_id _ _ _ same done.0 done.1,
            ))
      | inr n ↦ n
    ]
