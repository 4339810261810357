-- ===== src/Signature/Once.antt =====
-- A challenge that is solved stays solved, over the histories of submissions.
use msg_backend.Prelude.{ℕ, ◌≡◌, refl, subst, true, false, some, List, [], ◌∷◌, arith}
use msg_backend.Signature.{
  Hashing, Settings, Request, Challenge, Rows, Response, already_solved, solved, Checked, raised,
  passed, or_new, is_solved, save_lock, add_solve, submit_wrong, submit_correct, signature_submit,
}
use msg_backend.Signature.Branches.{
  is_solved_answer, Branch, repeated, refused, accepted, rejected, submit-Passed,
}
use msg_backend.Signature.Limit.{
  Action, submit, edit, rows_after, act, run, solved_in, has_solved, edited-solved,
}

unsolved :
    (r : Rows) (c : Challenge)
    → r.challenge ≡ some c
    → has_solved r ≡ true
    → is_solved c r ≡ false
    → ⊥
unsolved r c found s e =
    let solved : is_solved c r ≡ true =
      subst (λ o. solved_in o r.team_id r.tables.signatures ≡ true) found s in
    ground (arith, solved, e)

added-solved :
    (r : Rows) (c : Challenge) (now : ℕ)
    → r.challenge ≡ some c
    → has_solved (add_solve c now r) ≡ true
added-solved r c now found = rw found (ground arith)

module _ (h : Hashing) where
  Branch-accepted :
      (settings : Settings) (q : Request) (c : Challenge) (flag : ℕ) (r : Rows)
      (x : Response × Rows)
      → r.challenge ≡ some c
      → Branch h settings q c flag (or_new r.lock) (save_lock (or_new r.lock) r) x
      → is_solved_answer x.0 ≡ true
      → has_solved x.1 ≡ true
  unfolding submit_wrong submit_correct
  Branch-accepted settings q c flag r x found (repeated e) s = absurd (ground (arith, s))
  Branch-accepted settings q c flag r x found (refused t e e') s = absurd (ground (arith, s))
  Branch-accepted settings q c flag r x found (accepted e e' y) s = added-solved r c q.created found
  Branch-accepted settings q c flag r x found (rejected e e' n) s = absurd (ground (arith, s))

  Branch-solved :
      (settings : Settings) (q : Request) (c : Challenge) (flag : ℕ) (r : Rows)
      (x : Response × Rows)
      → r.challenge ≡ some c
      → Branch h settings q c flag (or_new r.lock) (save_lock (or_new r.lock) r) x
      → has_solved r ≡ true
      → (x.0 ≡ already_solved) × (has_solved x.1 ≡ true)
  Branch-solved settings q c flag r x found (repeated e) s = (refl, s)
  Branch-solved settings q c flag r x found (refused t e e') s = absurd (unsolved r c found s e)
  Branch-solved settings q c flag r x found (accepted e e' y) s = absurd (unsolved r c found s e)
  Branch-solved settings q c flag r x found (rejected e e' n) s = absurd (unsolved r c found s e)

  act-solved : (a : Action) (r : Rows) → has_solved r ≡ true → has_solved (act h a r) ≡ true
  act-solved (submit settings q) r s = by_answer (signature_submit h settings q r) refl
    where
      by_answer :
          (m : Checked (Response × Rows))
          → signature_submit h settings q r ≡ m
          → has_solved (rows_after r m) ≡ true
      by_answer (raised e) same = s
      by_answer (passed x) same =
          let p = submit-Passed h settings q r x same in
          (Branch-solved settings q p.challenge p.flag r x p.found p.branch s).1
  act-solved (edit banned members score flag_hash published) r s =
      rw (edited-solved score flag_hash published r.challenge r.team_id r.tables.signatures) s

  run-solved :
      (actions : List Action) (r : Rows) → has_solved r ≡ true → has_solved (run h actions r) ≡ true
  run-solved [] r s = s
  run-solved (a ∷ actions) r s = run-solved actions (act h a r) (act-solved a r s)

  -- After a solve and any history of submissions and changes by the administration, a submission
  -- that is answered is answered that the challenge is already solved.
  pub solved_once :
      (settings settings' : Settings) (q q' : Request) (actions : List Action) (r r' : Rows)
      (earned total at : ℕ) (y : Response × Rows)
      → signature_submit h settings q r ≡ passed (solved earned total at, r')
      → signature_submit h settings' q' (run h actions r') ≡ passed y
      → y.0 ≡ already_solved
  solved_once settings settings' q q' actions r r' earned total at y first again =
      let p = submit-Passed h settings q r (solved earned total at, r') first in
      let done = Branch-accepted settings q p.challenge p.flag r _ p.found p.branch refl in
      let later = run-solved actions r' done in
      let p' = submit-Passed h settings' q' (run h actions r') y again in
      (Branch-solved settings' q' p'.challenge p'.flag (run h actions r') y p'.found p'.branch
        later).0
