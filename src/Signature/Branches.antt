-- ===== src/Signature/Branches.antt =====
-- The branches of a submission, each with what led to it.
use msg_backend.Prelude.{
  ℕ, ◌≡◌, refl, ap, subst, inl, inr, Bool, true, false, Option, none, some, if◌then◌else◌,
  Bool-cases, arith,
}
use msg_backend.Signature.{
  Hashing, Settings, Request, Challenge, SubmissionLock, SubmissionResult, Rows, Response,
  already_solved, too_many_attempts, solved, Checked, raised, passed, ◌>>=◌, or_new, is_solved,
  held, retry_after, unlocked, log, save_lock, hash_flag, is_correct_flag, submit_wrong,
  submit_correct, submit_flag, check_request, signature_submit,
}

-- Whether the answer is that the flag was correct.
abbrev pub is_solved_answer : Response → Bool
is_solved_answer (solved earned_score team_score solved_at) = true
is_solved_answer _ = false

value : {A : Type 0} → A → Checked A → A
value a (raised e) = a
value a (passed b) = b

passed-injective : {A : Type 0} (a b : A) → passed a ≡ passed b → a ≡ b
unfolding value
passed-injective a b e = ap (value a) e

pub check_request-passed :
    (q : Request) (r : Rows) (flag : ℕ) (c : Challenge)
    → check_request q r ≡ passed (flag, c)
    → (q.flag ≡ some flag) × (r.challenge ≡ some c)
unfolding check_request
check_request-passed q r flag c e = ground (arith, e)

module _ (h : Hashing) (settings : Settings) (q : Request) where
  pub data Branch (c : Challenge) (flag : ℕ) (lock : SubmissionLock) (r : Rows)
      : Response × Rows → Type 0 where
    repeated :
        is_solved c r ≡ true
        → Branch c flag lock r
            (already_solved, log q.user (hash_flag h flag) SubmissionResult.already_solved r)
    refused :
        (t : ℕ)
        → is_solved c r ≡ false
        → held q.now lock.locked_until ≡ some t
        → Branch c flag lock r (
          too_many_attempts (retry_after q.now t),
          log q.user (hash_flag h flag) SubmissionResult.too_many_attempts r,
        )
    accepted :
        is_solved c r ≡ false
        → held q.now lock.locked_until ≡ none
        → is_correct_flag h flag c.flag_hash ≡ true
        → Branch c flag lock r (submit_correct q c (hash_flag h flag) r)
    rejected :
        is_solved c r ≡ false
        → held q.now lock.locked_until ≡ none
        → is_correct_flag h flag c.flag_hash ≡ false
        → Branch c flag lock r (submit_wrong settings q (hash_flag h flag) (unlocked lock) r)

  pub submit_flag-Branch :
      (c : Challenge) (flag : ℕ) (lock : SubmissionLock) (r : Rows)
      → Branch c flag lock r (submit_flag h settings q c flag lock r)
  unfolding submit_flag
  submit_flag-Branch c flag lock r = elim (Bool-cases (is_solved c r)) [
    | inl e ↦ rw e (repeated e)
    | inr e ↦ rw e (by_lock e (held q.now lock.locked_until) refl)
  ]
    where
      by_lock :
          is_solved c r ≡ false
          → (o : Option ℕ) → held q.now lock.locked_until ≡ o
          → Branch c flag lock r (elim o [
            | some t ↦ (
              too_many_attempts (retry_after q.now t),
              log q.user (hash_flag h flag) SubmissionResult.too_many_attempts r,
            )
            | none ↦
                if is_correct_flag h flag c.flag_hash
                then submit_correct q c (hash_flag h flag) r
                else submit_wrong settings q (hash_flag h flag) (unlocked lock) r
          ])
      by_lock e (some t) e' = refused t e e'
      by_lock e none e' = elim (Bool-cases (is_correct_flag h flag c.flag_hash)) [
        | inl y ↦ rw y (accepted e e' y)
        | inr n ↦ rw n (rejected e e' n)
      ]

  -- What a request that is answered has passed, and the branch that it took.
  pub record Passed (r : Rows) (x : Response × Rows) : Type 0 where
    pub challenge : Challenge
    pub flag : ℕ
    pub found : r.challenge ≡ some challenge
    pub sent : q.flag ≡ some flag
    pub branch : Branch challenge flag (or_new r.lock) (save_lock (or_new r.lock) r) x

  pub submit-Passed :
      (r : Rows) (x : Response × Rows) → signature_submit h settings q r ≡ passed x → Passed r x
  unfolding signature_submit
  submit-Passed r x e = by_checked (check_request q r) refl e
    where
      by_checked :
          (m : Checked (ℕ × Challenge))
          → check_request q r ≡ m
          → (m >>= λ p.
              passed
                (submit_flag h settings q p.1 p.0 (or_new r.lock) (save_lock (or_new r.lock) r)))
            ≡ passed x
          → Passed r x
      by_checked (raised error) e1 e2 = absurd (ground (arith, e2))
      by_checked (passed (flag, c)) e1 e2 =
          let fields = check_request-passed q r flag c e1 in
          record {
            challenge = c;
            flag = flag;
            found = fields.1;
            sent = fields.0;
            branch =
                subst (Branch c flag (or_new r.lock) (save_lock (or_new r.lock) r))
                  (passed-injective _ x e2)
                  (submit_flag-Branch c flag (or_new r.lock) (save_lock (or_new r.lock) r));
          }
