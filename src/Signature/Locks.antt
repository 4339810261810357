-- ===== src/Signature/Locks.antt =====
-- The lock of a team's submissions to a challenge: how long it holds and when it ends.
use msg_backend.Prelude.{
  ℕ, suc, ◌+◌, ◌*◌, ◌≤◌, ◌<◌, ◌≡◌, refl, sym, ap, ◌∙◌, subst, inl, inr, true, false, Option, none,
  some, some-injective, leb, Bool-cases, arith,
}
use msg_backend.Signature.{
  second, Hashing, Settings, Request, Challenge, Rows, Response, too_many_attempts, passed, or_new,
  is_solved, held, retry_after, unlocked, save_lock, hash_flag, is_correct_flag, submit_wrong,
  submit_correct, submit_flag, check_request, signature_submit,
}
use msg_backend.Signature.Branches.{
  is_solved_answer, check_request-passed, Branch, repeated, refused, accepted, rejected,
  submit-Passed,
}

-- The time that an answer names covers what is left, and no whole second more.
retry_after-covers :
    (now t : ℕ)
    → now < t
    → (t ≤ now + retry_after now t * second) × (now + retry_after now t * second < t + second)
retry_after-covers now t later = omega arith

held-some : (now t : ℕ) (o : Option ℕ) → held now o ≡ some t → (o ≡ some t) × (now < t)
held-some now t o e = ground (arith, e)

held-before : (now t : ℕ) → now < t → held now (some t) ≡ some t
held-before now t later = ground (arith, later)

held-after : (now t : ℕ) → t ≤ now → held now (some t) ≡ none
held-after now t over = ground (arith, over)

-- The lock that a refusal leaves: it holds at the time of the request, it holds no longer than the
-- answer says, and not a whole second less; and the challenge is not solved.
pub record IsHeld (now seconds : ℕ) (c : Challenge) (r : Rows) : Type 0 where
  pub until : ℕ
  pub locked : (or_new r.lock).locked_until ≡ some until
  pub later : now < until
  pub covered : until ≤ now + seconds * second
  pub tight : now + seconds * second < until + second
  pub open_challenge : is_solved c r ≡ false
  pub kept : r.challenge ≡ some c

abbrev HeldIf : ℕ → Challenge → Response → Rows → Type 0
HeldIf now c (too_many_attempts seconds) r = IsHeld now seconds c r
HeldIf now c _ r = Unit

module _ (h : Hashing) (settings : Settings) (lasting : 1 ≤ settings.lock_seconds) where
  Branch-held :
      (q : Request) (c : Challenge) (flag : ℕ) (r : Rows) (x : Response × Rows)
      → r.challenge ≡ some c
      → Branch h settings q c flag (or_new r.lock) (save_lock (or_new r.lock) r) x
      → HeldIf q.now c x.0 x.1
  unfolding submit_wrong submit_correct
  Branch-held q c flag r x found (repeated e) = tt
  Branch-held q c flag r x found (refused t e e') =
      let (locked, later) = held-some q.now t (or_new r.lock).locked_until e' in
      let (covered, tight) = retry_after-covers q.now t later in
      record {
        until = t;
        locked = locked;
        later = later;
        covered = covered;
        tight = tight;
        open_challenge = e;
        kept = found;
      }
  Branch-held q c flag r x found (accepted e e' y) = tt
  Branch-held q c flag r x found (rejected e e' n) =
      elim (Bool-cases (leb settings.max_attempts (suc (unlocked (or_new r.lock)).failed_count))) [
        | inl full ↦ rw full (record {
          until = q.now + settings.lock_seconds * second;
          locked = refl;
          later = omega (arith, lasting);
          covered = omega arith;
          tight = omega arith;
          open_challenge = e;
          kept = found;
        })
        | inr few ↦ rw few tt
      ]

-- A request that is answered while the lock holds, of a challenge that is not solved.
Branch-refused :
    (h : Hashing) (settings : Settings) (q : Request) (c : Challenge) (flag : ℕ) (r : Rows) (t : ℕ)
    (x : Response × Rows)
    → is_solved c r ≡ false
    → held q.now (or_new r.lock).locked_until ≡ some t
    → Branch h settings q c flag (or_new r.lock) (save_lock (or_new r.lock) r) x
    → (x.0 ≡ too_many_attempts (retry_after q.now t)) × (x.1.tables ≡ r.tables)
Branch-refused h settings q c flag r t x fresh locked (repeated e) =
    absurd (ground (arith, fresh, e))
Branch-refused h settings q c flag r t x fresh locked (refused t' e e') = (
  ap (λ n. too_many_attempts (retry_after q.now n)) (some-injective t' t (sym e' ∙ locked)),
  refl,
)
Branch-refused h settings q c flag r t x fresh locked (accepted e e' y) =
    absurd (ground (arith, sym e' ∙ locked))
Branch-refused h settings q c flag r t x fresh locked (rejected e e' n) =
    absurd (ground (arith, sym e' ∙ locked))

-- With a lock time of at least one second: after a request that is refused for `n` seconds, a request
-- that is answered and comes more than a second before these have passed is refused too, whatever its
-- flag and the settings are then, and no score changes.
pub lock_refuses :
    (h : Hashing) (settings settings' : Settings) (q q' : Request) (r r' : Rows) (n : ℕ)
    (y : Response × Rows)
    → 1 ≤ settings.lock_seconds
    → signature_submit h settings q r ≡ passed (too_many_attempts n, r')
    → q'.now + second ≤ q.now + n * second
    → signature_submit h settings' q' r' ≡ passed y
    → (m : ℕ) × (y.0 ≡ too_many_attempts m) × (y.1.tables ≡ r'.tables)
lock_refuses h settings settings' q q' r r' n y lasting first early again =
    let p = submit-Passed h settings q r (too_many_attempts n, r') first in
    let lock = Branch-held h settings lasting q p.challenge p.flag r _ p.found p.branch in
    let p' = submit-Passed h settings' q' r' y again in
    let same : p.challenge ≡ p'.challenge = some-injective _ _ (sym lock.kept ∙ p'.found) in
    let fresh : is_solved p'.challenge r' ≡ false =
      subst (λ c. is_solved c r' ≡ false) same lock.open_challenge in
    let shut : held q'.now (or_new r'.lock).locked_until ≡ some lock.until =
      rw lock.locked (held-before q'.now lock.until (omega (arith, lock.tight, early))) in
    let (answered, kept) =
      Branch-refused h settings' q' p'.challenge p'.flag r' lock.until y fresh shut p'.branch in
    (retry_after q'.now lock.until, answered, kept)

submit_free :
    (h : Hashing) (settings : Settings) (q : Request) (c : Challenge) (flag : ℕ) (r : Rows)
    → check_request q r ≡ passed (flag, c)
    → is_solved c r ≡ false
    → held q.now (or_new r.lock).locked_until ≡ none
    → is_correct_flag h flag c.flag_hash ≡ true
    → signature_submit h settings q r
      ≡ passed (submit_correct q c (hash_flag h flag) (save_lock (or_new r.lock) r))
unfolding signature_submit submit_flag
submit_free h settings q c flag r checked fresh free right =
    rw checked (rw fresh (rw free (rw right refl)))

-- With a lock time of at least one second: after a request that is refused for `n` seconds, a request
-- with the correct flag that comes when these have passed, and passes the checks of the team and the
-- challenge, solves the challenge.
pub retry_succeeds :
    (h : Hashing) (settings settings' : Settings) (q q' : Request) (r r' : Rows) (n flag : ℕ)
    (c : Challenge)
    → 1 ≤ settings.lock_seconds
    → signature_submit h settings q r ≡ passed (too_many_attempts n, r')
    → q.now + n * second ≤ q'.now
    → check_request q' r' ≡ passed (flag, c)
    → is_correct_flag h flag c.flag_hash ≡ true
    → (x : Response × Rows) × (signature_submit h settings' q' r' ≡ passed x)
      × (is_solved_answer x.0 ≡ true)
      × (is_solved c x.1 ≡ true)
unfolding submit_correct
retry_succeeds h settings settings' q q' r r' n flag c lasting first late checked right =
    let p = submit-Passed h settings q r (too_many_attempts n, r') first in
    let lock = Branch-held h settings lasting q p.challenge p.flag r _ p.found p.branch in
    let same : p.challenge ≡ c =
      some-injective _ _ (sym lock.kept ∙ (check_request-passed q' r' flag c checked).1) in
    let fresh : is_solved c r' ≡ false =
      subst (λ c. is_solved c r' ≡ false) same lock.open_challenge in
    let free : held q'.now (or_new r'.lock).locked_until ≡ none =
      rw lock.locked (held-after q'.now lock.until (omega (arith, lock.covered, late))) in
    (
      submit_correct q' c (hash_flag h flag) (save_lock (or_new r'.lock) r'),
      submit_free h settings' q' c flag r' checked fresh free right,
      refl,
      ground arith,
    )
