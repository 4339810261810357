-- ===== src/Signature/Limit.antt =====
-- Histories of submissions, and what each leaves: at most one solve, and fewer wrong flags in a row
-- than the limit unless the lock is set.
use msg_backend.Prelude.{
  ℕ, suc, ◌≤◌, ◌<◌, ◌≡◌, ◌⊎◌, refl, inl, inr, Bool, true, false, Option, none, some, List, [], ◌∷◌,
  All, leb, length, select, exists, is_some, Bool-cases, arith,
}
use msg_backend.Ranking.Sources.{SignatureSolve}
use msg_backend.Signature.{
  Hashing, Settings, Request, Challenge, SubmissionLock, Rows, Response, Checked, raised, passed,
  or_new, is_solve_of, is_solved, unlocked, save_lock, fail_lock, add_solve, submit_wrong,
  submit_correct, signature_submit,
}
use msg_backend.Signature.Branches.{Branch, repeated, refused, accepted, rejected, submit-Passed}

-- What happens to the rows: a submission, with the settings at that time, or a change of the team,
-- its users and the challenge by the administration. A challenge keeps its identifier.
pub data Action : Type 0 where
  submit : Settings → Request → Action
  edit :
      (is_banned : Option Bool) (members : List ℕ) (score flag_hash : ℕ) (published : Bool) → Action

abbrev pub edited : ℕ → ℕ → Bool → Option Challenge → Option Challenge
edited score flag_hash published none = none
edited score flag_hash published (some c) =
    some (record c { score = score; flag_hash = flag_hash; is_published = published })

-- The rows after a request: a request that raises leaves no write.
abbrev pub rows_after : Rows → Checked (Response × Rows) → Rows
rows_after r (raised e) = r
rows_after r (passed x) = x.1

abbrev pub act : Hashing → Action → Rows → Rows
act h (submit settings q) r = rows_after r (signature_submit h settings q r)
act h (edit banned members score flag_hash published) r = record r {
  is_banned = banned;
  members = members;
  challenge = edited score flag_hash published r.challenge;
}

abbrev pub run : Hashing → List Action → Rows → Rows
run h [] r = r
run h (a ∷ actions) r = run h actions (act h a r)

-- Whether the team has solved the challenge, and how often.
abbrev pub solved_in : Option Challenge → ℕ → List SignatureSolve → Bool
solved_in none team rows = false
solved_in (some c) team rows = exists (is_solve_of team c) rows

abbrev pub solves_in : Option Challenge → ℕ → List SignatureSolve → ℕ
solves_in none team rows = 0
solves_in (some c) team rows = length (select (is_solve_of team c) rows)

abbrev pub has_solved : Rows → Bool
has_solved r = solved_in r.challenge r.team_id r.tables.signatures

abbrev pub solve_count : Rows → ℕ
solve_count r = solves_in r.challenge r.team_id r.tables.signatures

none_selected :
    {A : Type 0} (p : A → Bool) (xs : List A) → exists p xs ≡ false → length (select p xs) ≡ 0
none_selected p [] e = refl
none_selected p (x ∷ xs) e = ground (arith, e, none_selected p xs)

abbrev pub IsBelow : ℕ → SubmissionLock → Type 0
IsBelow limit lock = (is_some lock.locked_until ≡ true) ⊎ (lock.failed_count < limit)

-- At most one solve, and fewer wrong flags in a row than the limit unless the lock is set.
pub record IsSound (limit : ℕ) (r : Rows) : Type 0 where
  pub once : solve_count r ≤ 1
  pub below : IsBelow limit (or_new r.lock)

pub edited-count :
    (score flag_hash : ℕ) (published : Bool) (o : Option Challenge) (team : ℕ)
    (rows : List SignatureSolve)
    → solves_in (edited score flag_hash published o) team rows ≡ solves_in o team rows
edited-count score flag_hash published none team rows = refl
edited-count score flag_hash published (some c) team rows = refl

pub edited-solved :
    (score flag_hash : ℕ) (published : Bool) (o : Option Challenge) (team : ℕ)
    (rows : List SignatureSolve)
    → solved_in (edited score flag_hash published o) team rows ≡ solved_in o team rows
edited-solved score flag_hash published none team rows = refl
edited-solved score flag_hash published (some c) team rows = refl

module _ (h : Hashing) (limit : ℕ) (positive : 1 ≤ limit) where
  fail_lock-IsBelow :
      (settings : Settings) (now : ℕ) (lock : SubmissionLock)
      → settings.max_attempts ≤ limit
      → IsBelow limit (fail_lock settings now lock)
  fail_lock-IsBelow settings now lock most =
      elim (Bool-cases (leb settings.max_attempts (suc lock.failed_count))) [
        | inl e ↦ inl (rw e refl)
        | inr e ↦ inr (ground (arith, e, most))
      ]

  first_solve :
      (r : Rows) (c : Challenge) (now : ℕ)
      → r.challenge ≡ some c
      → is_solved c r ≡ false
      → solve_count (add_solve c now r) ≤ 1
  first_solve r c now found e =
      rw found (ground (arith, none_selected (is_solve_of r.team_id c) r.tables.signatures e))

  Branch-IsSound :
      (settings : Settings) (q : Request) (c : Challenge) (flag : ℕ) (r : Rows)
      (x : Response × Rows)
      → settings.max_attempts ≤ limit
      → r.challenge ≡ some c
      → Branch h settings q c flag (or_new r.lock) (save_lock (or_new r.lock) r) x
      → IsSound limit r
      → IsSound limit x.1
  unfolding submit_wrong submit_correct
  Branch-IsSound settings q c flag r x most found (repeated e) s = record {
    once = s.once;
    below = s.below;
  }
  Branch-IsSound settings q c flag r x most found (refused t e e') s = record {
    once = s.once;
    below = s.below;
  }
  Branch-IsSound settings q c flag r x most found (accepted e e' y) s = record {
    once = first_solve r c q.created found e;
    below = inr positive;
  }
  Branch-IsSound settings q c flag r x most found (rejected e e' n) s = record {
    once = s.once;
    below = fail_lock-IsBelow settings q.now (unlocked (or_new r.lock)) most;
  }

  -- The settings of a submission are within the limit.
  abbrev pub IsWithin : Action → Type 0
  IsWithin (submit settings q) = settings.max_attempts ≤ limit
  IsWithin (edit banned members score flag_hash published) = Unit

  act-IsSound : (a : Action) (r : Rows) → IsWithin a → IsSound limit r → IsSound limit (act h a r)
  act-IsSound (submit settings q) r most s = by_answer (signature_submit h settings q r) refl
    where
      by_answer :
          (m : Checked (Response × Rows))
          → signature_submit h settings q r ≡ m
          → IsSound limit (rows_after r m)
      by_answer (raised e) same = s
      by_answer (passed x) same =
          let p = submit-Passed h settings q r x same in
          Branch-IsSound settings q p.challenge p.flag r x most p.found p.branch s
  act-IsSound (edit banned members score flag_hash published) r most s = record {
    once =
        rw (edited-count score flag_hash published r.challenge r.team_id r.tables.signatures)
          s.once;
    below = s.below;
  }

  -- From rows with at most one solve, and fewer wrong flags in a row than the limit unless the lock
  -- is set, any history of submissions, with settings of at most the limit of attempts, and of
  -- changes by the administration leaves such rows.
  pub run-IsSound :
      (actions : List Action) (r : Rows)
      → All IsWithin actions
      → IsSound limit r
      → IsSound limit (run h actions r)
  run-IsSound [] r w s = s
  run-IsSound (a ∷ actions) r w s = run-IsSound actions (act h a r) w.1 (act-IsSound a r w.0 s)
