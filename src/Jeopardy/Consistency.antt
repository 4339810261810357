-- ===== src/Jeopardy/Consistency.antt =====
-- What holds of a team's board, of all scores and of its line monopolies through any history.
use msg_backend.Prelude.{
  ℕ, ◌≡◌, refl, sym, subst, Option, none, some, List, [], ◌∷◌, if_cases, first, contains, ◌==◌,
  IsDistinct, All, All_imp,
}
use msg_backend.Prelude.Result.{Result, failed, ok, committed, Ensures}
use msg_backend.Board.Model.{Shared, Dice, Cell, other_mileage}
use msg_backend.Board.Model as Model
use msg_backend.Board.Keeps.{Keeps, Keeps-bind, Keeps-modify, Keeps-pure, Keeps-ok}
use msg_backend.Board.Closed.{IsClosed}
use msg_backend.Board.Closed.Cells.{complete_challenge-Keeps}
use msg_backend.Board.Lines.{is_line_monopoly_completed}
use msg_backend.Board.Lines.Complete.{IsCompleted, IsCompleted-IsClosed}
use msg_backend.Board.Invariant.Histories as Histories
use msg_backend.Board.Invariant.{IsValid, IsSeeded}
use msg_backend.Board.Invariant.Closure.{IsValid-IsClosed}
use msg_backend.Board.Invariant.Lasting.{IsBalanced, IsBalanced-IsClosed}
use msg_backend.Board.Movement.Walk.{IsOnBoard}
use msg_backend.Challenges.{Curve}
use msg_backend.Challenges.Cache.{IsCached, change-IsCached, solve}
use msg_backend.Jeopardy.{
  Error, Rows, Request, Response, complete_and_reward, post, line_of_access, record_line,
  check_and_record_line_monopoly,
}
use msg_backend.Jeopardy.Outcomes.{
  Operation, submit, play, edit, elsewhere, serve, run, Outcome, kept, won, post-Outcome,
}

-- What a predicate on the board's rows needs of the settings that an operation reads.
abbrev pub Allows : (Model.Rows → Type 0) → (ℕ → Type 0) → Operation → Type 0
Allows P Q (submit h settings curve sh q before) = IsClosed sh P Q
Allows P Q (play q) = IsClosed q.shared P Q
Allows P Q _ = Unit

complete_and_reward-Keeps :
    (sh : Shared) (P : Model.Rows → Type 0) (Q : ℕ → Type 0) (id t amount : ℕ)
    → IsClosed sh P Q
    → Keeps P (complete_and_reward sh id t amount)
unfolding complete_and_reward
complete_and_reward-Keeps sh P Q id t amount closed =
    Keeps-bind _ _ (complete_challenge-Keeps sh closed id t) λ granted.
      Keeps-bind _ _ (Keeps-modify _ λ r h. closed.game.mileage r amount other_mileage tt h)
        λ _. Keeps-pure _

-- A property of rows that each outcome and each other change keeps.
committed_keeps :
    (P : Rows → Type 0) (r : Rows) (m : Result Error (Response × Rows))
    → P r
    → Ensures (λ x. P x.1) m
    → P (committed r m)
committed_keeps P r (failed e) h k = h
committed_keeps P r (ok x) h k = k.at x refl

-- The board's rows keep what every write of the board's operations keeps.
module _ (P : Model.Rows → Type 0) (Q : ℕ → Type 0) where
  Outcome-board :
      (curve : Curve) (sh : Shared) (q : Request) (r : Rows) (x : Response × Rows)
      → IsClosed sh P Q
      → Outcome curve sh q r x
      → P r.board
      → P x.1.board
  Outcome-board curve sh q r _ closed (kept answer locks submissions e) h = h
  Outcome-board curve sh q r _ closed (won hash amount c granted b answer locks new found done) h =
      Keeps-ok (complete_and_reward-Keeps sh P Q q.challenge_id q.now _ closed) r.board b granted
        done h

  serve_board : (o : Operation) (r : Rows) → Allows P Q o → P r.board → P (serve o r).board
  serve_board (submit h settings curve sh q before) r closed p =
      committed_keeps (λ s. P s.board) r (post h settings curve sh q before r) p
        (record {
          at = λ x e.
              Outcome-board curve sh q r x closed
                ((post-Outcome h settings curve sh q r before).at x e) p;
        })
  serve_board (play q) r closed p = Histories.serve_closed P Q (q ∷ []) r.board (closed, tt) p
  serve_board (edit details) r closed p = p
  serve_board (elsewhere curve x) r closed p = p

-- The scores of all teams.
Outcome-scores :
    (curve : Curve) (sh : Shared) (q : Request) (r : Rows) (x : Response × Rows)
    → Outcome curve sh q r x
    → IsCached r.scores
    → IsCached x.1.scores
Outcome-scores curve sh q r _ (kept answer locks submissions e) h = h
Outcome-scores curve sh q r _ (won hash amount c granted b answer locks new found done) h =
    change-IsCached curve (solve c r.team_id) r.scores h

serve_scores : (o : Operation) (r : Rows) → IsCached r.scores → IsCached (serve o r).scores
serve_scores (submit h settings curve sh q before) r p =
    committed_keeps (λ s. IsCached s.scores) r (post h settings curve sh q before r) p
      (record {
        at = λ x e.
            Outcome-scores curve sh q r x ((post-Outcome h settings curve sh q r before).at x e) p;
      })
serve_scores (play q) r p = p
serve_scores (edit details) r p = p
serve_scores (elsewhere curve x) r p = change-IsCached curve x r.scores p

-- The lines: distinct, and completed on the board.
abbrev AreLines : List Cell → List ℕ → Model.Rows → Type 0
AreLines cells lines b = IsDistinct lines × All (λ l. IsCompleted cells l b) lines

record_line-AreLines :
    (cells : List Cell) (b : Model.Rows) (o : Option ℕ) (lines : List ℕ)
    → AreLines cells lines b
    → AreLines cells (record_line cells b o lines) b
record_line-AreLines cells b none lines h = h
record_line-AreLines cells b (some line) lines h =
    if_cases (λ ls. AreLines cells ls b) (is_line_monopoly_completed cells line b.accesses) _ lines
      (λ complete.
        if_cases (λ ls. AreLines cells ls b) (contains line lines) lines _ (λ y. h)
          (λ n. ((n, h.0), (complete, h.1))))
      (λ n. h)

Outcome-lines :
    (curve : Curve) (sh : Shared) (q : Request) (r : Rows) (x : Response × Rows)
    → Outcome curve sh q r x
    → AreLines sh.cells r.lines r.board
    → AreLines sh.cells x.1.lines x.1.board
unfolding check_and_record_line_monopoly
Outcome-lines curve sh q r _ (kept answer locks submissions e) h = h
Outcome-lines curve sh q r _ (won hash amount c granted b answer locks new found done) h =
    let after : All (λ l. IsCompleted sh.cells l b) r.lines =
      All_imp (λ l. IsCompleted sh.cells l r.board) (λ l. IsCompleted sh.cells l b) r.lines
        (λ l complete.
          Keeps-ok
            (complete_and_reward-Keeps sh (IsCompleted sh.cells l) (λ i. Unit) q.challenge_id q.now
              _ (IsCompleted-IsClosed sh.cells l sh))
            r.board b granted done complete)
        h.1 in
    record_line-AreLines sh.cells b
      (line_of_access sh.cells (first (λ a. a.challenge_id == q.challenge_id) b.accesses)) r.lines
      (h.0, after)

-- The settings of an operation: the seeded cells, the dice settings and the times.
abbrev pub Uses : Dice → List Cell → Operation → Type 0
Uses dice cells (submit h settings curve sh q before) =
    IsSeeded sh × (sh.dice ≡ dice) × (sh.cells ≡ cells)
Uses dice cells (play q) = IsSeeded q.shared × (q.shared.dice ≡ dice)
Uses dice cells _ = Unit

serve_lines :
    (dice : Dice) (cells : List Cell) (o : Operation) (r : Rows)
    → Uses dice cells o
    → AreLines cells r.lines r.board
    → AreLines cells (serve o r).lines (serve o r).board
serve_lines dice cells (submit h settings curve sh q before) r uses lines =
    committed_keeps (λ s. AreLines cells s.lines s.board) r (post h settings curve sh q before r)
      lines
      (record {
        at = λ x e.
            subst (λ cs. AreLines cs x.1.lines x.1.board) uses.2
              (Outcome-lines curve sh q r x ((post-Outcome h settings curve sh q r before).at x e)
                (subst (λ cs. AreLines cs r.lines r.board) (sym uses.2) lines));
      })
serve_lines dice cells (play q) r uses lines = (
  lines.0,
  All_imp (λ l. IsCompleted cells l r.board) (λ l. IsCompleted cells l (serve (play q) r).board)
      r.lines
      (λ l complete.
        serve_board (IsCompleted cells l) (λ i. Unit) (play q) r
          (IsCompleted-IsClosed cells l q.shared) complete)
      lines.1,
)
serve_lines dice cells (edit details) r uses lines = lines
serve_lines dice cells (elsewhere curve x) r uses lines = lines

allowed_valid :
    (dice : Dice) (cells : List Cell) (o : Operation)
    → Uses dice cells o
    → Allows (IsValid dice) IsOnBoard o
allowed_valid dice cells (submit h settings curve sh q before) uses =
    subst (λ d. IsClosed sh (IsValid d) IsOnBoard) uses.1 (IsValid-IsClosed sh uses.0)
allowed_valid dice cells (play q) uses =
    subst (λ d. IsClosed q.shared (IsValid d) IsOnBoard) uses.1 (IsValid-IsClosed q.shared uses.0)
allowed_valid dice cells (edit details) uses = tt
allowed_valid dice cells (elsewhere curve x) uses = tt

allowed_balance : (base : ℕ) (o : Operation) → Allows (IsBalanced base) (λ i. Unit) o
allowed_balance base (submit h settings curve sh q before) = IsBalanced-IsClosed base sh
allowed_balance base (play q) = IsBalanced-IsClosed base q.shared
allowed_balance base (edit details) = tt
allowed_balance base (elsewhere curve x) = tt

-- The board's rows are valid, the mileage is a base and the sum of its history, each team's score is
-- the sum of the current scores of its solves, and the lines are distinct and completed.
pub record IsConsistent (dice : Dice) (cells : List Cell) (base : ℕ) (r : Rows) : Type 0 where
  pub board : IsValid dice r.board
  pub mileage : IsBalanced base r.board
  pub scores : IsCached r.scores
  pub lines : AreLines cells r.lines r.board

serve-IsConsistent :
    (dice : Dice) (cells : List Cell) (base : ℕ) (o : Operation) (r : Rows)
    → Uses dice cells o
    → IsConsistent dice cells base r
    → IsConsistent dice cells base (serve o r)
serve-IsConsistent dice cells base o r uses h = record {
  board = serve_board (IsValid dice) IsOnBoard o r (allowed_valid dice cells o uses) h.board;
  mileage = serve_board (IsBalanced base) (λ i. Unit) o r (allowed_balance base o) h.mileage;
  scores = serve_scores o r h.scores;
  lines = serve_lines dice cells o r uses h.lines;
}

-- Where the board is seeded and its cells and dice settings stay the same: from consistent rows (valid rows
-- of the board, mileage that is a base and the sum of its history, scores that are the sums of the
-- current scores of the solves, and distinct and completed lines), any history of submissions, board
-- requests, edits of challenges and changes of scores elsewhere leaves consistent rows.
pub run-IsConsistent :
    (dice : Dice) (cells : List Cell) (base : ℕ) (operations : List Operation) (r : Rows)
    → All (Uses dice cells) operations
    → IsConsistent dice cells base r
    → IsConsistent dice cells base (run operations r)
run-IsConsistent dice cells base [] r uses h = h
run-IsConsistent dice cells base (o ∷ operations) r uses h =
    run-IsConsistent dice cells base operations (serve o r) uses.1
      (serve-IsConsistent dice cells base o r uses.0 h)
