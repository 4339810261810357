-- ===== src/Instances/Concluded.antt =====
-- The step that a recovery takes.
use msg_backend.Prelude.{
  ℕ, ◌≡◌, refl, sym, ap, subst, ◌∙◌, ◌⊎◌, inl, inr, Bool, true, false, Option, none, some,
  some-injective, if◌then◌else◌, if_cases, exists, update_first, update_first_twice, is_some, arith,
}
use msg_backend.Prelude.Result.{
  Result, failed, ok, Ensures, Ensures-bind, Ensures-found, Ensures-pass, Ensures-ok,
}
use msg_backend.Instances.{
  Instance, Status, ErrorCode, completed, no_error, InstanceWriteOperation, ChallengeRelease, Rows,
  SchedulerError, SchedulerData, Failure, scheduler, reset_source_closed, team_banned,
  user_has_no_team, database, value_error, Uuid, is_active, is_blocking, is_completed, has_id,
  find_operation, bound_to, save_binding,
}
use msg_backend.Instances.Creation.{
  mark_instance_replaced, scheduler_delete_reason, validate_scheduler_response_scope, raise_values,
}
use msg_backend.Instances.Requests.{Answers, Settings}
use msg_backend.Instances.Attempt.{
  source_of, keep_or_restore, settle, Attempt, prepare, attempt, attempt_from, replace_active,
  find_source,
}
use msg_backend.Instances.Recovery.{
  update_instance_from_scheduler, check_own_release, validate_failed_cleanup_transition, status_or,
  after_scheduler_error, save_outcome, as_outcome, after_source_closed, conclude,
}
use msg_backend.Instances.Changes.{
  Change, revise, IsRevision, IsKept, is_instance, kept, update_first-IsKept, unfinished-IsBacked,
}
use msg_backend.Instances.Owned.{IsStored, marked-IsStored}
use msg_backend.Instances.Recovered.{same_write, prepare-IsSameWrite, keep_or_restore-IsStored}
use msg_backend.Instances.Sent.{IsSameWrite, owner_of}

ended : (s : Status) → is_completed s ≡ true → is_blocking s ≡ true → ⊥
ended s c b = ground (arith, c, b)

-- The rows of an attempt that succeeds: the operation is bound at most, and its instance is there.
pub record IsSettled (o : InstanceWriteOperation) (now : ℕ) (r s : Rows) : Type 0 where
  pub operations :
      (s.operations ≡ r.operations)
      ⊎ (s.operations ≡ update_first (has_id o.operation_id) (bound_to o now) r.operations)
  pub kept : IsKept r.instances s.instances
  pub remote : ℕ
  pub bound : o.remote_instance_id ≡ some remote
  pub stored : exists (is_instance remote o.user_id o.team_id o.challenge_id) s.instances ≡ true

replace_active-IsStored :
    (source : Option Instance) (id : ℕ) (o : InstanceWriteOperation) (r s : Rows)
    → IsStored id o r s
    → IsStored id o r (replace_active source s)
replace_active-IsStored none id o r s h = h
replace_active-IsStored (some i) id o r s h =
    if_cases (IsStored id o r) (is_active i.status) (mark_instance_replaced (some i.instance_id) s)
      s (λ _. marked-IsStored (some i.instance_id) id o r s h) (λ _. h)

saved_operations :
    (o : InstanceWriteOperation) (now : ℕ) (b : Bool) (r s : Rows)
    → s.operations ≡ (if b then save_binding o now r else r).operations
    → (s.operations ≡ r.operations)
      ⊎ (s.operations ≡ update_first (has_id o.operation_id) (bound_to o now) r.operations)
saved_operations o now true r s e = inr e
saved_operations o now false r s e = inl e

saved-IsKept :
    (o : InstanceWriteOperation) (now : ℕ) (b : Bool) (r s : Rows)
    → IsKept (if b then save_binding o now r else r).instances s.instances
    → IsKept r.instances s.instances
saved-IsKept o now true r s h = h
saved-IsKept o now false r s h = h

settle-IsSettled :
    (u : Uuid) (o : InstanceWriteOperation) (release : Option ChallengeRelease)
    (given : Option SchedulerData) (a : Answers) (now : ℕ) (r : Rows)
    → Ensures (IsSettled o now r) (settle u o release given a now r)
unfolding settle
settle-IsSettled u o release given a now r =
    let saved = if is_some given then save_binding o now r else r in
    Ensures-bind (source_of o (find_source o.source_instance_id r)) _ λ source _.
      Ensures-bind (keep_or_restore u o o.remote_instance_id source release given a saved) _ λ s e.
        let (id, remote, h) =
          (keep_or_restore-IsStored u o o.remote_instance_id source release given a saved).at s e in
        let after = replace_active-IsStored source id o saved s h in
        let t = replace_active source s in
        Ensures-ok _ (record {
          operations = saved_operations o now (is_some given) r t after.operations;
          kept = saved-IsKept o now (is_some given) r t after.kept;
          remote = id;
          bound = remote;
          stored = after.stored;
        })

-- An attempt keeps the identity of the operation, and what it leaves is settled.
pub record IsTried (o : InstanceWriteOperation) (now : ℕ) (r : Rows) (t : Attempt) : Type 0 where
  pub same : IsSameWrite o t.operation
  pub settled : Ensures (IsSettled t.operation now r) t.result

attempt_from-IsTried :
    (u : Uuid) (o : InstanceWriteOperation) (a : Answers) (fails : Bool) (now : ℕ) (r : Rows)
    (m : Result Failure (InstanceWriteOperation × (Option ChallengeRelease × Option SchedulerData)))
    → Ensures (λ x. IsSameWrite o x.0) m
    → IsTried o now r (attempt_from u o a fails now r m)
attempt_from-IsTried u o a fails now r (failed e) h = record {
  same = same_write o;
  settled = record { at = λ b e. cc };
}
attempt_from-IsTried u o a fails now r (ok x) h = record {
  same = h.at x refl;
  settled = Ensures-bind (settle u x.0 x.1.0 x.1.1 a now r) _ λ left e.
      Ensures-pass _ _ _ λ _. Ensures-ok _ ((settle-IsSettled u x.0 x.1.0 x.1.1 a now r).at left e);
}

pub attempt-IsTried :
    (u : Uuid) (o : InstanceWriteOperation) (a : Answers) (fails : Bool) (now : ℕ) (r : Rows)
    → IsTried o now r (attempt u o a fails now r)
unfolding attempt
attempt-IsTried u o a fails now r =
    attempt_from-IsTried u o a fails now r (prepare u o a r) (prepare-IsSameWrite u o a r)

outcome-Change :
    (o row : InstanceWriteOperation) (outcome : Status × ErrorCode) (now : ℕ) (r s : Rows)
    → s.operations ≡ r.operations
    → IsKept r.instances s.instances
    → is_completed outcome.0 ≡ false
    → find_operation o.operation_id r ≡ some row
    → is_blocking row.status ≡ true
    → Change r (save_outcome o outcome now s)
outcome-Change o row outcome now r s operations keep unfinished found blocking =
    let f = as_outcome o outcome now in
    revise o.operation_id f (ap (update_first (has_id o.operation_id) f) operations) keep λ a e.
      subst (λ b. IsRevision b (f b) r (save_outcome o outcome now s))
        (some-injective row a (sym found ∙ e))
        (record {
          user = refl;
          team = refl;
          challenge = refl;
          key = refl;
          final = λ c. absurd (ended row.status c blocking);
          exclusive = inl (λ _. blocking);
          backed = λ _. unfinished-IsBacked s.instances (f row) unfinished;
        })

success-Change :
    (o row : InstanceWriteOperation) (now : ℕ) (r s : Rows)
    → IsSameWrite row o
    → IsSettled o now r s
    → find_operation o.operation_id r ≡ some row
    → Change r (save_outcome o (completed, no_error) now s)
success-Change o row now r s same h found =
    let f = as_outcome o (completed, no_error) now in
    let key = has_id o.operation_id in
    let operations : update_first key f s.operations ≡ update_first key f r.operations =
      elim h.operations [
        | inl e ↦ ap (update_first key f) e
        | inr e ↦
            ap (update_first key f) e
            ∙ update_first_twice key (bound_to o now) f r.operations (λ a. refl)
      ] in
    revise o.operation_id f operations h.kept λ a e.
      subst (λ b. IsRevision b (f b) r (save_outcome o (completed, no_error) now s))
        (some-injective row a (sym found ∙ e))
        (record {
          user = refl;
          team = refl;
          challenge = refl;
          key = refl;
          final = λ _. refl;
          exclusive = inl (λ c. absurd (ground (arith, c)));
          backed = λ _ _. (h.remote, h.bound, owner_of row o h.remote s.instances same h.stored);
        })

update_instance-IsKept :
    (u : Uuid) (i : Instance) (info : SchedulerData) (r : Rows)
    → Ensures
        (λ s. (s.operations ≡ r.operations) × IsKept r.instances s.instances)
        (update_instance_from_scheduler u i info r)
unfolding update_instance_from_scheduler
update_instance-IsKept u i info r = Ensures-pass _ _ _ λ _.
    Ensures-bind (validate_scheduler_response_scope u info i.user_id i.team_id i.challenge_id) _
      λ _ _. Ensures-bind (check_own_release u i.release_id info r) _ λ _ _.
        Ensures-bind (validate_failed_cleanup_transition i.status (status_or i.status info.status))
          _
          λ _ _. Ensures-bind (scheduler_delete_reason info) _ λ reason _.
            Ensures-bind (raise_values info.values_error) _ λ _ _.
              Ensures-ok _
                (refl, update_first-IsKept _ _ r.instances λ a n user team challenge _ e. e)

after_scheduler_error-unfinished :
    (settings : Settings) (now : ℕ) (o : InstanceWriteOperation) (waiting : Bool)
    (e : SchedulerError)
    → is_completed (after_scheduler_error settings now o waiting e).0 ≡ false
unfolding after_scheduler_error
after_scheduler_error-unfinished settings now o waiting e = ground arith

pub conclude-Change :
    (u : Uuid) (settings : Settings) (now : ℕ) (o row : InstanceWriteOperation)
    (m : Result Failure Rows) (r : Rows)
    → IsSameWrite row o
    → Ensures (IsSettled o now r) m
    → find_operation o.operation_id r ≡ some row
    → is_blocking row.status ≡ true
    → Ensures (λ x. Change r x.1) (conclude u settings now o m r)
unfolding conclude after_source_closed
conclude-Change u settings now o row (ok left) r same h found blocking =
    Ensures-ok _ (success-Change o row now r left same (h.at left refl) found)
conclude-Change u settings now o row (failed (scheduler waiting e)) r same h found blocking =
    Ensures-ok _ (
      outcome-Change o row _ now r r refl (kept r.instances)
        (after_scheduler_error-unfinished settings now o waiting e) found blocking)
conclude-Change u settings now o row (failed (reset_source_closed info)) r same h found blocking =
    Ensures-found _ _ _ λ id _. Ensures-found _ _ _ λ source _.
      Ensures-bind (update_instance_from_scheduler u source info r) _ λ s e.
        let keep = (update_instance-IsKept u source info r).at s e in
        Ensures-ok _ (outcome-Change o row _ now r s keep.0 keep.1 refl found blocking)
conclude-Change u settings now o row (failed database) r same h found blocking =
    Ensures-ok _ (outcome-Change o row _ now r r refl (kept r.instances) refl found blocking)
conclude-Change u settings now o row (failed value_error) r same h found blocking =
    Ensures-ok _ (outcome-Change o row _ now r r refl (kept r.instances) refl found blocking)
conclude-Change u settings now o row (failed team_banned) r same h found blocking = record {
  at = λ b e. cc;
}
conclude-Change u settings now o row (failed user_has_no_team) r same h found blocking = record {
  at = λ b e. cc;
}
