-- ===== src/Koth/Polling/Times.antt =====
-- The times of the solves through histories of polls (poll_challenge_period of apps/koth/services.py).
use msg_backend.Prelude.{
  ℕ, suc, ◌≡◌, inl, inr, refl, sym, subst, List, [], ◌∷◌, All, Bool-cases, arith,
}
use msg_backend.Ranking.Sources.{KothSolve}
use msg_backend.Ranking.Sources.Agreement.{IsScored}
use msg_backend.Koth.{Award}
use msg_backend.Koth.Polling.{with_award, new_solve, is_row, add_award, add_awards}
use msg_backend.Koth.Polling.Histories.{Event, System, Setting, run}
use msg_backend.Koth.Polling.Once.{poll_once}

module _ (challenge : ℕ) where
  -- A row with a score has a time, before and after an award.
  with_award-IsScored :
      (amount now : ℕ) (k : KothSolve) → IsScored k → IsScored (with_award amount now k)
  with_award-IsScored amount now k h = ground (arith, h)

  add_award-IsScored :
      (now : ℕ) (award : Award) (solves : List KothSolve)
      → All IsScored solves
      → All IsScored (add_award challenge now award solves)
  add_award-IsScored now award [] h =
      (with_award-IsScored award.amount now (new_solve award.team_id challenge) refl, tt)
  add_award-IsScored now award (k ∷ solves) h =
      let rest = add_award-IsScored now award solves h.1 in
      elim (Bool-cases (is_row award.team_id challenge k)) [
        | inl e ↦ rw e (with_award-IsScored award.amount now k h.0, h.1)
        | inr e ↦ rw e (h.0, rest)
      ]

  add_awards-IsScored :
      (clock : ℕ → ℕ) (awards : List Award) (solves : List KothSolve)
      → All IsScored solves
      → All IsScored (add_awards challenge clock awards solves)
  add_awards-IsScored clock [] solves h = h
  add_awards-IsScored clock (award ∷ awards) solves h =
      add_awards-IsScored (λ n. clock (suc n)) awards (add_award challenge (clock 0) award solves)
        (add_award-IsScored (clock 0) award solves h)

-- Where every row of KothSolve without a time has no score, it is so after any history of polls.
poll-IsScored :
    (x : Setting) (events : List Event) (s : System)
    → s.waiting ≡ []
    → All IsScored s.rows.solves
    → All IsScored (run x events s).rows.solves
poll-IsScored x events s e h = elim (poll_once x events s e) [
  | inl u ↦ subst (All IsScored) (sym u.1) h
  | inr a ↦
      subst (All IsScored) (sym a.added)
        (add_awards-IsScored x.challenge a.clock a.granted s.rows.solves h)
]
