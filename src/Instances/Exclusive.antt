-- ===== src/Instances/Exclusive.antt =====
-- The writes that block another one of their user, through histories
-- (apps/instances/write_recovery.py).
use msg_backend.Prelude.{
  ℕ, ◌≤◌, ◌≡◌, refl, sym, subst, ◌∙◌, inl, inr, Bool, true, false, none, some, some-injective, List,
  [], ◌∷◌, ◌==◌, Bool-cases, first, select, length, update_first, length-update_first, arith,
}
use msg_backend.Prelude.Options.{found_cases}
use msg_backend.Instances.{
  InstanceWriteOperation, Rows, Uuid, Write, new_operation, has_id, find_operation, is_blocking,
  is_blocking_of, is_violated,
}
use msg_backend.Instances.Histories.{Operation, run}
use msg_backend.Instances.Changes.{Change, stay, add, revise, IsRevision}
use msg_backend.Instances.Steps.{run_keeps}

-- At most one operation of each user is started, waits for a recovery or needs a review.
abbrev pub IsExclusive : Rows → Type 0
IsExclusive r = (user : ℕ) → length (select (is_blocking_of user) r.operations) ≤ 1

none_selected :
    {A : Type 0} (p : A → Bool) (xs : List A) → first p xs ≡ none → length (select p xs) ≡ 0
none_selected p [] e = refl
none_selected p (x ∷ xs) e = elim (Bool-cases (p x)) [
  | inl y ↦ absurd (ground (arith, y, e))
  | inr n ↦ rw n (none_selected p xs (sym (rw n refl) ∙ e))
]

begun :
    (w : Write) (now user : ℕ) (rows : List InstanceWriteOperation)
    → first (is_blocking_of w.user_id) rows ≡ none
    → length (select (is_blocking_of user) rows) ≤ 1
    → length (select (is_blocking_of user) (new_operation w now ∷ rows)) ≤ 1
begun w now user rows free h = elim (Bool-cases (w.user_id == user)) [
  | inl y ↦
      let same : w.user_id ≡ user = ground (arith, y) in
      let empty =
        none_selected (is_blocking_of user) rows
          (subst (λ n. first (is_blocking_of n) rows ≡ none) same free) in
      rw y (omega (arith, empty))
  | inr n ↦ rw n h
]

still_blocking :
    (o p : InstanceWriteOperation) (user : ℕ)
    → p.user_id ≡ o.user_id
    → (is_blocking p.status ≡ true → is_blocking o.status ≡ true)
    → is_blocking_of user p ≡ true
    → is_blocking_of user o ≡ true
still_blocking o p user same keep h =
    let blocking : is_blocking p.status ≡ true = ground (arith, h) in
    ground (arith, h, same, keep blocking)

another_user :
    (o p : InstanceWriteOperation) (user : ℕ)
    → p.user_id ≡ o.user_id
    → o.user_id == user ≡ false
    → is_blocking_of user p ≡ true
    → is_blocking_of user o ≡ true
another_user o p user same other h = absurd (ground (arith, h, same, other))

one_at_most :
    (user : ℕ) (s : Rows)
    → is_violated user s ≡ false
    → length (select (is_blocking_of user) s.operations) ≤ 1
one_at_most user s e = ground (arith, e)

module _ (id : ℕ) (f : InstanceWriteOperation → InstanceWriteOperation) (r : Rows) (user : ℕ)
    (h : length (select (is_blocking_of user) r.operations) ≤ 1) where
  shrinks :
      ((a : InstanceWriteOperation)
        → find_operation id r ≡ some a
        → is_blocking_of user (f a) ≡ true
        → is_blocking_of user a ≡ true)
      → length (select (is_blocking_of user) (update_first (has_id id) f r.operations)) ≤ 1
  shrinks k =
      let less = length-update_first (is_blocking_of user) (has_id id) f r.operations k in
      omega (arith, less, h)

  only :
      (o : InstanceWriteOperation)
      → find_operation id r ≡ some o
      → (is_blocking_of user (f o) ≡ true → is_blocking_of user o ≡ true)
      → length (select (is_blocking_of user) (update_first (has_id id) f r.operations)) ≤ 1
  only o found k = shrinks λ a there.
      subst (λ b. is_blocking_of user (f b) ≡ true → is_blocking_of user b ≡ true)
        (some-injective o a (sym found ∙ there)) k

  revised :
      (o : InstanceWriteOperation) (s : Rows)
      → s.operations ≡ update_first (has_id id) f r.operations
      → find_operation id r ≡ some o
      → IsRevision o (f o) r s
      → length (select (is_blocking_of user) (update_first (has_id id) f r.operations)) ≤ 1
  revised o s e found revision = elim revision.exclusive [
    | inl keep ↦ only o found (still_blocking o (f o) user revision.user keep)
    | inr allowed ↦ elim (Bool-cases (o.user_id == user)) [
      | inl y ↦
          let same : o.user_id ≡ user = ground (arith, y) in
          subst (λ l. length (select (is_blocking_of user) l) ≤ 1) e
            (one_at_most user s (subst (λ n. is_violated n s ≡ false) same allowed))
      | inr n ↦ only o found (another_user o (f o) user revision.user n)
    ]
  ]

Change-IsExclusive : (r s : Rows) → Change r s → IsExclusive r → IsExclusive s
Change-IsExclusive r s (stay e keep) h user =
    subst (λ l. length (select (is_blocking_of user) l) ≤ 1) (sym e) (h user)
Change-IsExclusive r s (add w now free fresh e keep) h user =
    subst (λ l. length (select (is_blocking_of user) l) ≤ 1) (sym e)
      (begun w now user r.operations free (h user))
Change-IsExclusive r s (revise id f e keep revision) h user =
    subst (λ l. length (select (is_blocking_of user) l) ≤ 1) (sym e)
      (elim (found_cases (find_operation id r)) [
        | inl n ↦ shrinks id f r user (h user) λ a there _. absurd (ground (arith, n, there))
        | inr (o, found) ↦ revised id f r user (h user) o s e found (revision o found)
      ])

same_operations : (r s : Rows) → s.operations ≡ r.operations → IsExclusive r → IsExclusive s
same_operations r s e h user =
    subst (λ l. length (select (is_blocking_of user) l) ≤ 1) (sym e) (h user)

-- Where each user has at most one operation that is started, waits for a recovery or needs a review,
-- this is so after any history of requests, answers, recoveries and other changes.
pub run-IsExclusive :
    (u : Uuid) (operations : List Operation) (r : Rows)
    → IsExclusive r
    → IsExclusive (run u operations r)
run-IsExclusive u operations r h =
    run_keeps IsExclusive Change-IsExclusive same_operations u operations r h
