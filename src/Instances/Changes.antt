-- ===== src/Instances/Changes.antt =====
-- What each step of a history does to the rows: it adds an operation, or revises one, and takes no
-- instance away from its owner.
use msg_backend.Prelude.{
  ℕ, ◌≡◌, refl, sym, subst, ◌∙◌, ◌⊎◌, inl, inr, Bool, true, false, ◌&&◌, ◌||◌, Option, none, some,
  some-injective, List, ◌∷◌, if_cases, first, exists, update_first, exists-update_first, arith,
}
use msg_backend.Prelude.Options.{found_cases}
use msg_backend.Prelude.Result.{ok, Ensures, Ensures-bind, Ensures-pass, Ensures-ok}
use msg_backend.Instances.{
  Instance, Status, ErrorCode, InstanceWriteOperation, Rows, Failure, Write, new_operation,
  begin_write, require_no_pending_write, is_blocking, is_blocking_of, is_completed, is_violated,
  has_id, find_operation, save_operation, record_write_failure, with_failure, failure_status,
  write_failure,
}
use msg_backend.Instances.Creation.{has_instance_id, is_owned}

-- `id` is an instance of this user, team and challenge.
abbrev pub is_instance : ℕ → ℕ → ℕ → ℕ → Instance → Bool
is_instance id user team challenge i = has_instance_id id i && is_owned user team challenge i

abbrev pub IsKept : List Instance → List Instance → Type 0
IsKept is js =
    (id user team challenge : ℕ)
    → exists (is_instance id user team challenge) is ≡ true
    → exists (is_instance id user team challenge) js ≡ true

-- A completed operation has its instance, of its user, team and challenge.
abbrev pub IsBacked : List Instance → InstanceWriteOperation → Type 0
IsBacked is o =
    is_completed o.status ≡ true
    → (id : ℕ) × (o.remote_instance_id ≡ some id)
      × (exists (is_instance id o.user_id o.team_id o.challenge_id) is ≡ true)

-- How the row `o` becomes `p` while the rows `r` become `s`.
pub record IsRevision (o p : InstanceWriteOperation) (r s : Rows) : Type 0 where
  pub user : p.user_id ≡ o.user_id
  pub team : p.team_id ≡ o.team_id
  pub challenge : p.challenge_id ≡ o.challenge_id
  pub key : p.operation_id ≡ o.operation_id
  pub final : is_completed o.status ≡ true → is_completed p.status ≡ true
  pub exclusive :
      (is_blocking p.status ≡ true → is_blocking o.status ≡ true)
      ⊎ (is_violated o.user_id s ≡ false)
  pub backed : IsBacked r.instances o → IsBacked s.instances p

pub data Change (r s : Rows) : Type 0 where
  stay : s.operations ≡ r.operations → IsKept r.instances s.instances → Change r s
  add :
      (w : Write) (now : ℕ)
      → first (is_blocking_of w.user_id) r.operations ≡ none
      → exists (has_id w.operation_id) r.operations ≡ false
      → s.operations ≡ new_operation w now ∷ r.operations
      → IsKept r.instances s.instances
      → Change r s
  revise :
      (id : ℕ) (f : InstanceWriteOperation → InstanceWriteOperation)
      → s.operations ≡ update_first (has_id id) f r.operations
      → IsKept r.instances s.instances
      → ((o : InstanceWriteOperation) → find_operation id r ≡ some o → IsRevision o (f o) r s)
      → Change r s

pub kept : (is : List Instance) → IsKept is is
kept is id user team challenge h = h

pub update_first-IsKept :
    (p : Instance → Bool) (f : Instance → Instance) (is : List Instance)
    → ((a : Instance) (id user team challenge : ℕ)
        → first p is ≡ some a
        → is_instance id user team challenge a ≡ true
        → is_instance id user team challenge (f a) ≡ true)
    → IsKept is (update_first p f is)
update_first-IsKept p f is k id user team challenge h =
    exists-update_first (is_instance id user team challenge) p f is
      (λ a. k a id user team challenge) h

none_pending :
    (user : ℕ) (r : Rows) (t : Unit {0})
    → require_no_pending_write user r ≡ ok t
    → first (is_blocking_of user) r.operations ≡ none
unfolding require_no_pending_write
none_pending user r t e = elim (found_cases (first (is_blocking_of user) r.operations)) [
  | inl n ↦ n
  | inr (a, h) ↦ absurd (ground (arith, e, h))
]

pub begin_write-Change :
    (w : Write) (now : ℕ) (r : Rows) → Ensures (λ x. Change r x.1) (begin_write w now r)
unfolding begin_write
begin_write-Change w now r = Ensures-bind (require_no_pending_write w.user_id r) _ λ t free.
    Ensures-pass _ _ _ λ fresh.
      Ensures-ok _ (add w now (none_pending w.user_id r t free) fresh refl (kept r.instances))

failure_status-open :
    (o : InstanceWriteOperation) (e : Failure) (sent : Bool)
    → is_completed (failure_status o e sent).0 ≡ false
failure_status-open o e sent = ground arith

-- A status that is not completed makes no claim.
pub unfinished-IsBacked :
    (is : List Instance) (o : InstanceWriteOperation)
    → is_completed o.status ≡ false
    → IsBacked is o
unfinished-IsBacked is o n c = absurd (ground (arith, n, c))

write_failure-Change :
    (o : InstanceWriteOperation) (outcome : Status × ErrorCode) (now : ℕ) (r : Rows)
    (found : Option InstanceWriteOperation)
    → is_completed outcome.0 ≡ false
    → find_operation o.operation_id r ≡ found
    → Change r (write_failure o outcome now r found)
write_failure-Change o outcome now r none unfinished h = stay refl (kept r.instances)
write_failure-Change o outcome now r (some row) unfinished h =
    let f = with_failure o outcome now in
    let written = save_operation o.operation_id f r in
    if_cases (Change r) (is_completed row.status || is_violated row.user_id written) r written
      (λ _. stay refl (kept r.instances))
      (λ n. revise o.operation_id f refl (kept r.instances) λ a found.
        subst (λ b. IsRevision b (f b) r written) (some-injective row a (sym h ∙ found))
          (record {
            user = refl;
            team = refl;
            challenge = refl;
            key = refl;
            final = λ c. absurd (ground (arith, n, c));
            exclusive = inr (ground (arith, n));
            backed = λ _. unfinished-IsBacked _ (f row) unfinished;
          }))

pub record_write_failure-Change :
    (o : InstanceWriteOperation) (e : Failure) (sent : Bool) (now : ℕ) (r : Rows)
    → Change r (record_write_failure o e sent now r)
unfolding record_write_failure
record_write_failure-Change o e sent now r =
    write_failure-Change o (failure_status o e sent) now r (find_operation o.operation_id r)
      (failure_status-open o e sent) refl
