-- ===== src/Jeopardy/Outcomes.antt =====
-- What a submission leaves, with what led to it, and histories of submissions and other changes.
use msg_backend.Prelude.{
  ℕ, suc, leb, ◌≡◌, refl, Bool, true, false, Option, none, some, List, [], ◌∷◌, ◌==◌, if◌then◌else◌,
  if_cases,
}
use msg_backend.Prelude.Result.{
  committed, Ensures, Ensures-bind, Ensures-found, Ensures-pass, Ensures-ok,
}
use msg_backend.Board.Model.{Shared}
use msg_backend.Board.Model as Model
use msg_backend.Board.Monad
use msg_backend.Board.Invariant.Histories as Histories
use msg_backend.Challenges.{Curve, Challenge, has_solved}
use msg_backend.Challenges.Cache.{Change, revoke, change}
use msg_backend.Signature.{Hashing, Settings, hash_flag}
use msg_backend.Jeopardy.{
  Rows, Request, Response, incorrect_flag, too_many_attempts, solved, Detail, FlagSubmissionLock,
  FlagSubmission, challenge_of, add_solve, answer_solve, answer_unassigned, submit_wrong, unlocked,
  submit_correct, submit_flag, post, complete_and_reward, judge_flag, check_active_team,
}

-- What happens to a team's rows: a submission, with what it read before its transaction; a request to
-- the board; an edit of the challenges' columns by the administration; a change of scores elsewhere.
pub data Operation : Type 0 where
  submit : Hashing → Settings → Curve → Shared → Request → (before : Rows) → Operation
  play : Histories.Request → Operation
  edit : List Detail → Operation
  elsewhere : Curve → Change → Operation

abbrev pub serve : Operation → Rows → Rows
serve (submit h settings curve sh q before) r = committed r (post h settings curve sh q before r)
serve (play q) r = record r { board = Histories.serve r.board (q ∷ []) }
serve (edit details) r = record r { details = details }
serve (elsewhere curve x) r = record r { scores = change curve x r.scores }

abbrev pub run : List Operation → Rows → Rows
run [] r = r
run (o ∷ operations) r = run operations (serve o r)

-- No solve of this team is revoked.
abbrev pub IsLeft : ℕ → Operation → Type 0
IsLeft team (elsewhere curve (revoke c other)) = other == team ≡ false
IsLeft team _ = Unit

-- Whether the answer is that the flag was correct.
abbrev pub is_solved_answer : Response → Bool
is_solved_answer (solved earned_score earned_mileage granted team_score team) = true
is_solved_answer _ = false

-- A submission changes the team's locks and submissions, or it solves the challenge.
pub data Outcome (curve : Curve) (sh : Shared) (q : Request) (r : Rows)
    : Response × Rows → Type 0 where
  kept :
      (answer : Response) (locks : List FlagSubmissionLock) (submissions : List FlagSubmission)
      → is_solved_answer answer ≡ false
      → Outcome curve sh q r (answer, record r { locks = locks; submissions = submissions })
  won :
      (hash amount : ℕ) (c : Challenge) (granted : Bool) (b : Model.Rows) (answer : Response)
      (locks : List FlagSubmissionLock)
      → has_solved r.scores.solves q.challenge_id r.team_id ≡ false
      → challenge_of q.challenge_id r ≡ some c
      → complete_and_reward sh q.challenge_id q.now amount r.board ≡ Monad.ok (granted, b)
      → Outcome curve sh q r
          (answer, add_solve curve sh q hash amount c granted b (record r { locks = locks }))

wrong_answer :
    (b : Bool) (n : ℕ)
    → is_solved_answer (if b then too_many_attempts n else incorrect_flag) ≡ false
wrong_answer true n = refl
wrong_answer false n = refl

module _ (h : Hashing) (settings : Settings) (curve : Curve) (sh : Shared) (q : Request)
    (r : Rows) where
  answer_solve-Outcome :
      (hash amount : ℕ) (c : Challenge) (locks : List FlagSubmissionLock)
      (x : Monad.Result (Bool × Model.Rows))
      → has_solved r.scores.solves q.challenge_id r.team_id ≡ false
      → challenge_of q.challenge_id r ≡ some c
      → complete_and_reward sh q.challenge_id q.now amount r.board ≡ x
      → Ensures
          (Outcome curve sh q r)
          (answer_solve curve sh q hash amount c (record r { locks = locks }) x)
  answer_solve-Outcome hash amount c locks (Monad.err e) new found done = record { at = λ b e. cc }
  answer_solve-Outcome hash amount c locks (Monad.ok (granted, b)) new found done =
      Ensures-ok _ (won hash amount c granted b _ locks new found done)

  answer_unassigned-Outcome :
      (x : Monad.Result (Bool × Model.Rows)) → Ensures (Outcome curve sh q r) (answer_unassigned x)
  answer_unassigned-Outcome (Monad.err e) = record { at = λ b e. cc }
  answer_unassigned-Outcome (Monad.ok x) = record { at = λ b e. cc }

  submit_correct-Outcome :
      (hash : ℕ) (amount : Option ℕ) (c : Challenge) (locks : List FlagSubmissionLock)
      → has_solved r.scores.solves q.challenge_id r.team_id ≡ false
      → challenge_of q.challenge_id r ≡ some c
      → Ensures
          (Outcome curve sh q r)
          (submit_correct curve sh q hash amount c (record r { locks = locks }))
  unfolding submit_correct
  submit_correct-Outcome hash none c locks new found = answer_unassigned-Outcome _
  submit_correct-Outcome hash (some amount) c locks new found =
      answer_solve-Outcome hash amount c locks _ new found refl

  submit_flag-Outcome :
      (flag initial : ℕ) (d : Detail) (c : Challenge) (lock : FlagSubmissionLock) (until : Option ℕ)
      (locks : List FlagSubmissionLock)
      → challenge_of q.challenge_id r ≡ some c
      → Ensures (Outcome curve sh q r) (
          submit_flag h settings curve sh q flag initial d c lock until
            (record r { locks = locks }))
  unfolding submit_flag submit_wrong
  submit_flag-Outcome flag initial d c lock (some t) locks found = Ensures-ok _ (kept _ _ _ refl)
  submit_flag-Outcome flag initial d c lock none locks found =
      if_cases (Ensures (Outcome curve sh q r))
        (has_solved r.scores.solves q.challenge_id r.team_id) _ _
        (λ y. Ensures-ok _ (kept _ _ _ refl))
        (λ n.
          if_cases (Ensures (Outcome curve sh q r)) (judge_flag h flag initial d.flag_hash) _ _
            (λ y. submit_correct-Outcome (hash_flag h flag) _ c locks n found)
            (λ w. Ensures-ok _ (
              kept _ _ _ (
                wrong_answer (leb settings.max_attempts (suc (unlocked lock).failed_count))
                  settings.lock_seconds))))

  pub post-Outcome :
      (before : Rows) → Ensures (Outcome curve sh q r) (post h settings curve sh q before r)
  unfolding post
  post-Outcome before = Ensures-pass _ _ _ λ _. Ensures-found _ _ _ λ flag _.
      Ensures-found _ _ _ λ (seen : Detail) _. Ensures-pass _ _ _ λ _.
        Ensures-found _ _ _ λ (d : Detail) _. Ensures-found _ _ _ λ c found.
          Ensures-bind {A = Unit} (check_active_team r.board.team) _
            λ _ _. Ensures-pass _ _ _ λ _. submit_flag-Outcome flag seen.flag_hash d c _ _ _ found
