-- ===== src/Instances/Recovery.antt =====
-- The recovery of a write whose result is not known (recover_write and resume_matching_write of
-- apps/instances/write_recovery.py).
use msg_backend.Prelude.{
  ℕ, suc, ◌+◌, ◌*◌, Bool, true, false, not, ◌&&◌, ◌||◌, Option, none, some, ◌==◌, ltb, leb,
  if◌then◌else◌, first, is_some, update_first,
}
use msg_backend.Prelude.Result.{Result, failed, ok, ◌>>=◌, ◌>>◌, fail_if, or_fail}
use msg_backend.Signature.{second}
use msg_backend.Instances.{
  InstanceStatus, cleaned, failed_status, cleanup_pending, DeleteReason, Instance, Status, started,
  recovery_pending, completed, rejected, review_required, ErrorCode, no_error, db_write_failed,
  owner_changed, reset_source_cleaned, scheduler_unavailable, request_result_not_found,
  remote_state_unconfirmed, recovery_scope_mismatch, InstanceWriteOperation, Rows, ErrorKind,
  instance_request_not_found, reset_owner_banned, SchedulerError, SchedulerData, Failure, scheduler,
  reset_source_closed, team_banned, user_has_no_team, database, value_error, Uuid, find_operation,
  has_owner, is_compatible, is_started, save_operation,
}
use msg_backend.Instances.Creation.{
  unavailable_failure, validate_scheduler_response_scope, scheduler_delete_reason, has_instance_id,
  raise_values, check_release,
}
use msg_backend.Instances.Requests.{Answers, Settings}
use msg_backend.Instances.Attempt.{attempt}

abbrev may_follow_failed : InstanceStatus → Bool
may_follow_failed failed_status = true
may_follow_failed cleanup_pending = true
may_follow_failed cleaned = true
may_follow_failed _ = false

abbrev pub validate_failed_cleanup_transition :
    InstanceStatus → InstanceStatus → Result Failure (Unit {0})
validate_failed_cleanup_transition failed_status s =
    fail_if (not (may_follow_failed s)) unavailable_failure
validate_failed_cleanup_transition _ s = ok tt

abbrev pub status_or : InstanceStatus → Option InstanceStatus → InstanceStatus
status_or s none = s
status_or s (some t) = t

abbrev pub reason_or : Option DeleteReason → Option DeleteReason → Option DeleteReason
reason_or none new = new
reason_or (some reason) new = some reason

-- The checks of an instance with a release.
unfoldable pub check_own_release :
    Uuid → Option ℕ → SchedulerData → Rows → Result Failure (Unit {0})
check_own_release u none info r = ok tt
check_own_release u (some id) info r = do
  x ← or_fail (first (λ x. x.release_id == id) r.releases) value_error
  check_release u x info

unfoldable pub update_instance_from_scheduler :
    Uuid → Instance → SchedulerData → Rows → Result Failure Rows
update_instance_from_scheduler u i info r = do
  fail_if (not (is_compatible (some (u.str i.instance_id)) info.instance_id)) unavailable_failure
  validate_scheduler_response_scope u info i.user_id i.team_id i.challenge_id
  check_own_release u i.release_id info r
  validate_failed_cleanup_transition i.status (status_or i.status info.status)
  reason ← scheduler_delete_reason info
  raise_values info.values_error
  ok (record r {
    instances =
        update_first (has_instance_id i.instance_id)
          (λ row. record row {
            delete_reason = reason_or i.delete_reason reason;
            status = status_or i.status info.status;
          })
          r.instances;
  })

-- The statuses from which a recovery may start, as the row was read before the lock.
abbrev pub is_eligible : Settings → Bool → ℕ → InstanceWriteOperation → Status → Bool
is_eligible settings review now o recovery_pending = true
is_eligible settings review now o started =
    o.request_id_used
    && is_started o.status
    && leb (o.updated_at + (settings.write_timeout + 5 * second)) now
is_eligible settings review now o review_required =
    review && (is_some o.remote_instance_id || o.request_id_used)
is_eligible settings review now o _ = false

abbrev is_request_not_found : ErrorKind → Bool
is_request_not_found instance_request_not_found = true
is_request_not_found _ = false

abbrev is_owner_banned : ErrorKind → Bool
is_owner_banned reset_owner_banned = true
is_owner_banned _ = false

abbrev is_not_yet_found : Settings → ℕ → InstanceWriteOperation → Bool → SchedulerError → Bool
is_not_yet_found settings now o waiting e =
    waiting
    && o.request_id_used
    && is_request_not_found e.code
    && ltb now (o.created_at + settings.request_recovery_wait_seconds * second)

unfoldable pub after_scheduler_error :
    Settings → ℕ → InstanceWriteOperation → Bool → SchedulerError → Status × ErrorCode
after_scheduler_error settings now o waiting e = (
  if is_owner_banned e.code
      then rejected
      else if waiting && leb 500 e.status_code || is_not_yet_found settings now o waiting e
      then recovery_pending
      else review_required,
  if waiting && leb 500 e.status_code
      then scheduler_unavailable
      else if is_not_yet_found settings now o waiting e
      then request_result_not_found
      else remote_state_unconfirmed,
)

abbrev pub as_outcome :
    InstanceWriteOperation
    → Status × ErrorCode
    → ℕ
    → InstanceWriteOperation
    → InstanceWriteOperation
as_outcome o outcome now row = record row {
  status = outcome.0;
  attempts = o.attempts;
  last_error_code = outcome.1;
  remote_instance_id = o.remote_instance_id;
  source_instance_id = o.source_instance_id;
  updated_at = now;
}

abbrev pub save_outcome : InstanceWriteOperation → Status × ErrorCode → ℕ → Rows → Rows
save_outcome o outcome now r = save_operation o.operation_id (as_outcome o outcome now) r

abbrev pub with_outcome : InstanceWriteOperation → Status × ErrorCode → ℕ → Rows → Status × Rows
with_outcome o outcome now r = (outcome.0, save_outcome o outcome now r)

-- A source that the Scheduler has cleaned is marked so.
unfoldable pub after_source_closed :
    Uuid → InstanceWriteOperation → SchedulerData → ℕ → Rows → Result Failure (Status × Rows)
after_source_closed u o info now r = do
  id ← or_fail o.source_instance_id value_error
  source ←
      or_fail
        (first
          (λ i.
            i.instance_id == id
            && i.user_id == o.user_id
            && i.team_id == o.team_id
            && i.challenge_id == o.challenge_id)
          r.instances)
        value_error
  updated ← update_instance_from_scheduler u source info r
  ok (with_outcome o (rejected, reset_source_cleaned) now updated)

-- An attempt that fails leaves the rows as they were, and the row of the operation says why. The two
-- exceptions of teams are not caught.
unfoldable pub conclude :
    Uuid
    → Settings
    → ℕ
    → InstanceWriteOperation
    → Result Failure Rows
    → Rows
    → Result Failure (Status × Rows)
conclude u settings now o (ok left) r = ok (with_outcome o (completed, no_error) now left)
conclude u settings now o (failed (scheduler waiting e)) r =
    ok (with_outcome o (after_scheduler_error settings now o waiting e) now r)
conclude u settings now o (failed (reset_source_closed info)) r = after_source_closed u o info now r
conclude u settings now o (failed database) r =
    ok (with_outcome o (recovery_pending, db_write_failed) now r)
conclude u settings now o (failed value_error) r =
    ok (with_outcome o (review_required, recovery_scope_mismatch) now r)
conclude u settings now o (failed team_banned) r = failed team_banned
conclude u settings now o (failed user_has_no_team) r = failed user_has_no_team

-- The transaction under the user's lock.
unfoldable pub recover_locked :
    Uuid
    → Settings
    → (Status → Bool)
    → Answers
    → Bool
    → ℕ
    → ℕ
    → Rows
    → Result Failure (Status × Rows)
recover_locked u settings eligible a database_fails id now r = do
  o ← or_fail (find_operation id r) value_error
  let begun = record o { status = recovery_pending; attempts = suc o.attempts }
  let tried = attempt u begun a database_fails now r
  if eligible o.status
      then conclude u settings now tried.operation tried.result r
      else ok (o.status, r)

abbrev pub change_owner : (Status → Bool) → ℕ → InstanceWriteOperation → InstanceWriteOperation
change_owner eligible now row =
    if eligible row.status
    then record row { status = review_required; last_error_code = owner_changed; updated_at = now }
    else row

-- `before` are the rows that are read before the lock.
unfoldable pub recover_write :
    Uuid → Settings → Bool → Answers → Bool → ℕ → ℕ → Rows → Rows → Result Failure (Status × Rows)
recover_write u settings review a database_fails id now before r = do
  snapshot ← or_fail (find_operation id before) value_error
  let eligible = is_eligible settings review now snapshot
  if not (eligible snapshot.status)
      then ok (snapshot.status, r)
      else if has_owner snapshot before
      then recover_locked u settings eligible a database_fails id now r
      else ok (review_required, save_operation id (change_owner eligible now) r)
