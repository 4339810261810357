-- ===== src/Instances.antt =====
-- The journal of the writes to instances (apps/instances/write_recovery.py): a row is written before
-- the Scheduler is called, and after a failure the recovery finds out what became of the call.
mod Tables
unfoldable pub use Tables.*
pub mod Creation
pub mod Sending
pub mod Requests
pub mod Attempt
pub mod Recovery
pub mod Histories
pub mod Changes
pub mod Owned
pub mod Sent
pub mod Recovered
pub mod Concluded
pub mod Steps
pub mod Lasting
pub mod Exclusive
mod Tests
use msg_backend.Prelude.{
  ℕ, suc, ◌+◌, Bool, true, false, ◌&&◌, ◌||◌, Option, none, some, List, [], ◌∷◌, ◌==◌, leb,
  if◌then◌else◌, first, exists, is_some, update_first, select, length, ltb, not,
}
use msg_backend.Prelude.Result.{Result, failed, ok, ◌>>=◌, ◌>>◌, fail_if, or_fail}

abbrev pub is_blocking_of : ℕ → InstanceWriteOperation → Bool
is_blocking_of user o = o.user_id == user && is_blocking o.status

abbrev is_review_required : Status → Bool
is_review_required review_required = true
is_review_required _ = false

abbrev pub pending_error : InstanceWriteOperation → Failure
pending_error o =
    if o.request_id_used && not (is_review_required o.status)
    then scheduler false (record { code = instance_operation_pending; status_code = 409 })
    else scheduler false (record { code = instance_review_required; status_code = 409 })

unfoldable pub require_no_pending_write : ℕ → Rows → Result Failure (Unit {0})
require_no_pending_write user r = elim (first (is_blocking_of user) r.operations) [
  | none ↦ ok tt
  | some pending ↦ failed (pending_error pending)
]

-- What a request asks for, with the new primary key and whether request identifiers are in use.
pub record Write : Type 0 where
  pub action : Action
  pub operation_id : ℕ
  pub user_id : ℕ
  pub team_id : ℕ
  pub challenge_id : ℕ
  pub release_id : Option ℕ
  pub source_instance_id : Option ℕ
  pub recovery_enabled : Bool

abbrev pub new_operation : Write → ℕ → InstanceWriteOperation
new_operation w now = record {
  operation_id = w.operation_id;
  action = w.action;
  status = started;
  user_id = w.user_id;
  team_id = w.team_id;
  challenge_id = w.challenge_id;
  release_id = w.release_id;
  source_instance_id = w.source_instance_id;
  remote_instance_id = none;
  request_id_used = w.recovery_enabled;
  attempts = 0;
  last_error_code = no_error;
  created_at = now;
  updated_at = now;
}

-- A primary key that is taken is refused by the database.
unfoldable pub begin_write : Write → ℕ → Rows → Result Failure (InstanceWriteOperation × Rows)
begin_write w now r = do
  require_no_pending_write w.user_id r
  fail_if (exists (has_id w.operation_id) r.operations) database
  ok (new_operation w now, record r { operations = new_operation w now ∷ r.operations })

abbrev pub save_operation : ℕ → (InstanceWriteOperation → InstanceWriteOperation) → Rows → Rows
save_operation id f r = record r { operations = update_first (has_id id) f r.operations }

-- The user of the operation is there, and in its team.
abbrev pub has_owner : InstanceWriteOperation → Rows → Bool
has_owner o r = exists (λ u. u.user_id == o.user_id && is_same (some o.team_id) u.team_id) r.users

unfoldable pub validate_write_owner : InstanceWriteOperation → Rows → Result Failure (Unit {0})
validate_write_owner o r = do
  fail_if (not (has_owner o r)) (scheduler false (record { code = forbidden; status_code = 403 }))
  team ← or_fail (find_team o.team_id r) user_has_no_team
  fail_if team.is_banned team_banned

abbrev pub parse_given : Uuid → Field → Option ℕ
parse_given u (given text) = u.parse text
parse_given u _ = none

-- The identifier of a source that the answer names: none, or what uuid.UUID makes of it. An empty text
-- is `null`.
abbrev pub parse_source : Uuid → Field → Result Failure (Option ℕ)
parse_source u absent = ok none
parse_source u null = ok none
parse_source u f = elim (parse_given u f) [
  | none ↦ failed (scheduler false unavailable_error)
  | some id ↦ ok (some id)
]

abbrev pub text_of : Uuid → Option ℕ → Option ℕ
text_of u none = none
text_of u (some id) = some (u.str id)

abbrev is_other_source : Option ℕ → Option ℕ → Bool
is_other_source (some a) (some b) = not (a == b)
is_other_source _ _ = false

abbrev pub with_default : Option ℕ → Option ℕ → Option ℕ
with_default none b = b
with_default (some a) b = some a

-- The operation in memory after the answer, whose identifiers are then saved.
unfoldable pub bind_remote_instance :
    Uuid → InstanceWriteOperation → SchedulerData → Result Failure InstanceWriteOperation
bind_remote_instance u o info = do
  let error = scheduler false unavailable_error
  remote ← or_fail (parse_given u info.instance_id) error
  source ← parse_source u info.replaced_instance_id
  fail_if (remote == 0 || is_same (some remote) o.source_instance_id) error
  fail_if
      (not (
        is_compatible (some (u.str o.user_id)) info.user_id
        && is_compatible (some (u.str o.team_id)) info.team_id
        && is_compatible (some (u.str o.challenge_id)) info.challenge_id
        && is_compatible (text_of u o.release_id) info.release_id))
      error
  fail_if (is_other_source source o.source_instance_id) error
  ok (record o {
    remote_instance_id = some remote;
    source_instance_id = with_default source o.source_instance_id;
  })

abbrev pub bound_to : InstanceWriteOperation → ℕ → InstanceWriteOperation → InstanceWriteOperation
bound_to o now row = record row {
  remote_instance_id = o.remote_instance_id;
  source_instance_id = o.source_instance_id;
  updated_at = now;
}

abbrev pub save_binding : InstanceWriteOperation → ℕ → Rows → Rows
save_binding o now r = save_operation o.operation_id (bound_to o now) r

abbrev pub as_completed : ℕ → InstanceWriteOperation → InstanceWriteOperation
as_completed now row = record row {
  status = completed;
  last_error_code = no_error;
  updated_at = now;
}

abbrev pub complete_write : InstanceWriteOperation → ℕ → Rows → Rows
complete_write o now r = save_operation o.operation_id (as_completed now) r

-- Not a SchedulerError, or one of the server.
abbrev pub is_unknown : Failure → Bool
is_unknown (scheduler waiting e) = leb 500 e.status_code
is_unknown (reset_source_closed info) = false
is_unknown _ = true

abbrev is_database : Failure → Bool
is_database database = true
is_database _ = false

abbrev pub failure_status : InstanceWriteOperation → Failure → Bool → Status × ErrorCode
failure_status o e sent =
    if is_some o.remote_instance_id
    then (recovery_pending, if is_database e then db_write_failed else local_result_rejected)
    else if sent && o.request_id_used && is_unknown e
    then (recovery_pending, request_result_pending)
    else if sent && is_unknown e
    then (review_required, remote_result_unknown)
    else (rejected, request_rejected)

-- uq_instance_write_pending_user: two rows of the user would be blocking.
abbrev pub is_violated : ℕ → Rows → Bool
is_violated user r = ltb 1 (length (select (is_blocking_of user) r.operations))

abbrev pub with_failure :
    InstanceWriteOperation
    → Status × ErrorCode
    → ℕ
    → InstanceWriteOperation
    → InstanceWriteOperation
with_failure o outcome now row = record row {
  status = outcome.0;
  remote_instance_id = o.remote_instance_id;
  source_instance_id = o.source_instance_id;
  last_error_code = outcome.1;
  updated_at = now;
}

-- A row that is completed is not touched, and an update that the database refuses is only logged.
abbrev pub write_failure :
    InstanceWriteOperation → Status × ErrorCode → ℕ → Rows → Option InstanceWriteOperation → Rows
write_failure o outcome now r none = r
write_failure o outcome now r (some row) =
    let written = save_operation o.operation_id (with_failure o outcome now) r in
    if is_completed row.status || is_violated row.user_id written then r else written

unfoldable pub record_write_failure : InstanceWriteOperation → Failure → Bool → ℕ → Rows → Rows
record_write_failure o e sent now r =
    write_failure o (failure_status o e sent) now r (find_operation o.operation_id r)
