-- ===== src/Instances/Requests.antt =====
-- What the Scheduler keeps of a request, checked against the operation (verified_request_result and
-- replay_unaccepted_reset of apps/instances/write_recovery.py), on the answers that it gives to the
-- calls of one recovery.
use msg_backend.Prelude.{
  ℕ, Bool, true, false, not, ◌&&◌, Option, none, some, ◌==◌, if◌then◌else◌, first, exists,
}
use msg_backend.Prelude.Result.{Result, failed, ok, ◌>>=◌, ◌>>◌, fail_if, or_fail}
use msg_backend.Instances.{
  InstanceStatus, cleaned, unlisted, Action, create, reset, InstanceWriteOperation,
  ChallengeRelease, Rows, Field, null, given, ErrorKind, instance_request_not_found,
  instance_not_found, reset_owner_banned, SchedulerError, SchedulerData, Failure, scheduler,
  reset_source_closed, value_error, Uuid, find_team, is_resettable, is_same, is_given, agrees,
  is_compatible, text_of,
}
use msg_backend.Instances.Creation.{is_missing}
use msg_backend.Instances.Sending.{Answer}

-- What the Scheduler keeps of a request.
pub record RequestResult : Type 0 where
  pub request_id : Field
  pub user_id : Field
  pub action : Option Action
  pub source_instance_id : Field
  pub instance : Option SchedulerData

-- The answers to the calls of one recovery, in the order in which it may call.
pub record Answers : Type 0 where
  pub request_result : Result SchedulerError (Option RequestResult)
  pub source_detail : Answer
  pub active : Result SchedulerError (Unit {0})
  pub reset_answer : Result SchedulerError (Unit {0})
  pub second_result : Result SchedulerError (Option RequestResult)
  pub detail : Answer

-- The timeout of a write is in microseconds, as a time is.
pub record Settings : Type 0 where
  pub write_timeout : ℕ
  pub request_recovery_wait_seconds : ℕ

-- A call of the Scheduler, which is waited for.
abbrev pub called : {A : Type 0} → Result SchedulerError A → Result Failure A
called (failed e) = failed (scheduler true e)
called (ok a) = ok a

abbrev is_reset : Action → Bool
is_reset reset = true
is_reset create = false

abbrev is_cleaned : Option InstanceStatus → Bool
is_cleaned (some cleaned) = true
is_cleaned _ = false

abbrev is_running : Option InstanceStatus → Bool
is_running none = false
is_running (some s) = is_resettable s

abbrev pub is_listed : Option InstanceStatus → Bool
is_listed none = false
is_listed (some unlisted) = false
is_listed (some s) = true

abbrev is_not_found : SchedulerError → ErrorKind → Bool
is_not_found e instance_not_found = e.status_code == 404
is_not_found e _ = false

-- Nothing is active any more: the source is closed.
unfoldable pub close_source :
    SchedulerData → Result SchedulerError (Unit {0}) → Result Failure (Unit {0})
close_source info (ok active) = failed value_error
close_source info (failed e) =
    if is_not_found e e.code then failed (reset_source_closed info) else failed (scheduler true e)

unfoldable pub replay_unaccepted_reset :
    Uuid → InstanceWriteOperation → Answers → Rows → Result Failure (Unit {0})
replay_unaccepted_reset u o a r = do
  fail_if (not (is_reset o.action && o.request_id_used)) value_error
  team ← or_fail (find_team o.team_id r) value_error
  fail_if team.is_banned (scheduler true (record { code = reset_owner_banned; status_code = 403 }))
  id ← or_fail o.source_instance_id value_error
  source ←
      or_fail
        (first
          (λ i.
            i.instance_id == id
            && i.user_id == o.user_id
            && i.team_id == o.team_id
            && i.challenge_id == o.challenge_id
            && is_same i.release_id o.release_id)
          r.instances)
        value_error
  answer ← called a.source_detail
  info ← or_fail answer value_error
  fail_if
      (not (
        is_given (u.str source.instance_id) info.instance_id
        && is_given (u.str o.team_id) info.team_id
        && is_given (u.str o.challenge_id) info.challenge_id
        && is_compatible (some (u.str o.user_id)) info.user_id))
      value_error
  if is_cleaned info.status
      then close_source info a.active
      else if is_running info.status
      then called a.reset_answer
      else failed (scheduler true (record { code = instance_request_not_found; status_code = 404 }))

abbrev is_unaccepted : SchedulerError → ErrorKind → Bool
is_unaccepted e instance_request_not_found = e.status_code == 404
is_unaccepted e _ = false

-- The request's result, asked for again after a reset was sent again.
unfoldable pub request_result :
    Uuid
    → InstanceWriteOperation
    → Answers
    → Rows
    → Result SchedulerError (Option RequestResult)
    → Result Failure (Option RequestResult)
request_result u o a r (ok result) = ok result
request_result u o a r (failed e) =
    if is_unaccepted e e.code && is_reset o.action
    then (do replay_unaccepted_reset u o a r; called a.second_result)
    else failed (scheduler true e)

abbrev is_action : Action → Option Action → Bool
is_action create (some create) = true
is_action reset (some reset) = true
is_action _ _ = false

-- A source of before the releases' identifiers were kept.
abbrev is_legacy_source :
    InstanceWriteOperation → Option ChallengeRelease → SchedulerData → Rows → Bool
is_legacy_source o none info r = false
is_legacy_source o (some x) info r =
    is_reset o.action
    && not x.is_derived
    && is_missing info.release_id
    && is_given x.registry_revision info.registry_revision
    && exists
        (λ i.
          is_same (some i.instance_id) o.source_instance_id
          && i.user_id == o.user_id
          && i.team_id == o.team_id
          && i.challenge_id == o.challenge_id
          && is_same i.release_id o.release_id)
        r.instances

abbrev field_of : Option ℕ → Field
field_of none = null
field_of (some text) = given text

unfoldable pub verified_request_result :
    Uuid
    → InstanceWriteOperation
    → Option ChallengeRelease
    → Answers
    → Rows
    → Result Failure SchedulerData
verified_request_result u o release a r = do
  answer ← request_result u o a r a.request_result
  result ← or_fail answer value_error
  fail_if
      (not (
        is_given (u.str o.operation_id) result.request_id
        && is_given (u.str o.user_id) result.user_id
        && is_action o.action result.action))
      value_error
  fail_if (not (agrees (text_of u o.source_instance_id) result.source_instance_id)) value_error
  info ← or_fail result.instance value_error
  fail_if
      (not (
        is_given (u.str o.team_id) info.team_id
        && is_given (u.str o.challenge_id) info.challenge_id
        && is_listed info.status))
      value_error
  fail_if (not (is_compatible (some (u.str o.user_id)) info.user_id)) value_error
  fail_if
      (not (agrees (text_of u o.release_id) info.release_id)
        && not (is_legacy_source o release info r))
      value_error
  ok (record info {
    user_id = given (u.str o.user_id);
    replaced_instance_id = field_of (text_of u o.source_instance_id);
    release_id =
        if agrees (text_of u o.release_id) info.release_id
        then info.release_id
        else field_of (text_of u o.release_id);
  })
