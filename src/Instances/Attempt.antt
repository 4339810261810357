-- ===== src/Instances/Attempt.antt =====
-- One attempt to find out what became of a write, and to restore its instance: the inner transaction
-- of recover_write (apps/instances/write_recovery.py).
use msg_backend.Prelude.{
  ℕ, Bool, true, not, ◌&&◌, Option, none, some, ◌==◌, if◌then◌else◌, first, contains, is_some,
  update_first,
}
use msg_backend.Prelude.Result.{Result, failed, ok, ◌>>=◌, ◌>>◌, fail_if, or_fail}
use msg_backend.Instances.{
  DeleteReason, Instance, InstanceWriteOperation, ChallengeRelease, Rows, SchedulerData, Failure,
  database, value_error, Uuid, find_instance, find_team, is_active, is_same, is_given,
  is_compatible, bind_remote_instance, save_binding,
}
use msg_backend.Instances.Creation.{
  validate_scheduler_instance_scope, scheduler_delete_reason, has_instance_id,
  create_instance_from_scheduler, mark_instance_replaced,
}
use msg_backend.Instances.Requests.{Answers, called, is_listed, verified_request_result}

-- A release that the operation names is there and of its challenge.
unfoldable pub release_of :
    InstanceWriteOperation → Option ℕ → Rows → Result Failure (Option ChallengeRelease)
release_of o none r = ok none
release_of o (some id) r = do
  x ←
      or_fail (first (λ x. x.release_id == id && x.challenge_id == o.challenge_id) r.releases)
        value_error
  ok (some x)

-- The owner, the challenge and the release are as they were.
unfoldable pub check_scope :
    InstanceWriteOperation → Rows → Result Failure (Option ChallengeRelease)
check_scope o r = do
  user ← or_fail (first (λ x. x.user_id == o.user_id) r.users) value_error
  fail_if (not (is_same user.team_id (some o.team_id))) value_error
  team ← or_fail (find_team o.team_id r) value_error
  fail_if (not (contains o.challenge_id r.challenges)) value_error
  release_of o o.release_id r

-- The request's result, where the operation has no instance and used a request identifier.
unfoldable pub asked :
    Uuid
    → InstanceWriteOperation
    → Option ChallengeRelease
    → Answers
    → Rows
    → Result Failure (Option SchedulerData)
asked u o release a r =
    if not (is_some o.remote_instance_id) && o.request_id_used
    then (do info ← verified_request_result u o release a r; ok (some info))
    else ok none

unfoldable pub bound_by :
    Uuid → InstanceWriteOperation → Option SchedulerData → Result Failure InstanceWriteOperation
bound_by u o none = ok o
bound_by u o (some info) = bind_remote_instance u o info

-- The source, which may be gone; its own challenge is compared with itself.
unfoldable pub source_of :
    InstanceWriteOperation → Option Instance → Result Failure (Option Instance)
source_of o none = ok none
source_of o (some i) = do
  validate_scheduler_instance_scope (some i) o.user_id o.team_id i.challenge_id
  ok (some i)

abbrev is_replacement_of : Option ℕ → Instance → Bool
is_replacement_of none source = true
is_replacement_of (some id) source = id == source.instance_id

unfoldable pub link_source : Instance → Option Instance → Rows → Result Failure Rows
link_source i none r = ok r
link_source i (some source) r = do
  fail_if (not (is_replacement_of i.replaced_instance source)) value_error
  ok (record r {
    instances =
        update_first (has_instance_id i.instance_id)
          (λ row. record row { replaced_instance = some source.instance_id }) r.instances;
  })

-- An instance that is there already: its release and its source must be the operation's.
unfoldable pub keep_existing :
    InstanceWriteOperation → Option Instance → Instance → Rows → Result Failure Rows
keep_existing o source i r = do
  validate_scheduler_instance_scope (some i) o.user_id o.team_id o.challenge_id
  fail_if (not (is_same i.release_id o.release_id)) value_error
  link_source i source r

abbrev pub find_source : Option ℕ → Rows → Option Instance
find_source none r = none
find_source (some id) r = find_instance id r

abbrev pub instance_id_of : Option Instance → Option ℕ
instance_id_of none = none
instance_id_of (some i) = some i.instance_id

unfoldable pub data_for : Answers → Option SchedulerData → Result Failure (Option SchedulerData)
data_for a (some info) = ok (some info)
data_for a none = called a.detail

abbrev pub with_reason : ℕ → Option DeleteReason → Rows → Rows
with_reason id none r = r
with_reason id (some reason) r = record r {
  instances =
      update_first (has_instance_id id) (λ row. record row { delete_reason = some reason })
        r.instances;
}

-- `operation.release_id` is compared where there is one.
abbrev is_release_given : Uuid → Option ℕ → SchedulerData → Bool
is_release_given u none info = true
is_release_given u (some id) info = is_given (u.str id) info.release_id

-- An instance that is not there is restored from the Scheduler's data.
unfoldable pub restore :
    Uuid
    → InstanceWriteOperation
    → ℕ
    → Option Instance
    → Option ChallengeRelease
    → Option SchedulerData
    → Rows
    → Result Failure Rows
restore u o id source release given r = do
  info ← or_fail given value_error
  fail_if
      (not (
        is_given (u.str id) info.instance_id
        && is_given (u.str o.team_id) info.team_id
        && is_given (u.str o.challenge_id) info.challenge_id))
      value_error
  fail_if (not (is_release_given u o.release_id info)) value_error
  fail_if (not (is_listed info.status)) value_error
  fail_if (not (is_compatible (some (u.str o.user_id)) info.user_id)) value_error
  reason ← scheduler_delete_reason info
  restored ← create_instance_from_scheduler u id info o (instance_id_of source) release r
  ok (with_reason id reason restored)

abbrev pub replace_active : Option Instance → Rows → Rows
replace_active none r = r
replace_active (some i) r =
    if is_active i.status then mark_instance_replaced (some i.instance_id) r else r

abbrev pub keep_or_restore_at :
    Uuid
    → InstanceWriteOperation
    → ℕ
    → Option Instance
    → Option ChallengeRelease
    → Option SchedulerData
    → Answers
    → Rows
    → Option Instance
    → Result Failure Rows
keep_or_restore_at u o id source release given a r (some i) = keep_existing o source i r
keep_or_restore_at u o id source release given a r none =
    data_for a given >>= λ info. restore u o id source release info r

unfoldable pub keep_or_restore :
    Uuid
    → InstanceWriteOperation
    → Option ℕ
    → Option Instance
    → Option ChallengeRelease
    → Option SchedulerData
    → Answers
    → Rows
    → Result Failure Rows
keep_or_restore u o none source release given a r = do info ← data_for a given; failed value_error
keep_or_restore u o (some id) source release given a r =
    keep_or_restore_at u o id source release given a r (find_instance id r)

-- What is written once the operation is bound.
unfoldable pub settle :
    Uuid
    → InstanceWriteOperation
    → Option ChallengeRelease
    → Option SchedulerData
    → Answers
    → ℕ
    → Rows
    → Result Failure Rows
settle u o release given a now r = do
  let saved = if is_some given then save_binding o now r else r
  source ← source_of o (find_source o.source_instance_id r)
  kept ← keep_or_restore u o o.remote_instance_id source release given a saved
  ok (replace_active source kept)

-- The operation in memory, with the rows that the attempt leaves or what it raises.
pub record Attempt : Type 0 where
  pub operation : InstanceWriteOperation
  pub result : Result Failure Rows

-- What the operation is found out to be before its rows are touched.
unfoldable pub prepare :
    Uuid
    → InstanceWriteOperation
    → Answers
    → Rows
    → Result Failure (InstanceWriteOperation × (Option ChallengeRelease × Option SchedulerData))
prepare u o a r = do
  release ← check_scope o r
  info ← asked u o release a r
  bound ← bound_by u o info
  ok (bound, (release, info))

abbrev pub attempt_from :
    Uuid
    → InstanceWriteOperation
    → Answers
    → Bool
    → ℕ
    → Rows
    → Result Failure (InstanceWriteOperation × (Option ChallengeRelease × Option SchedulerData))
    → Attempt
attempt_from u o a database_fails now r (failed e) = record { operation = o; result = failed e }
attempt_from u o a database_fails now r (ok x) = record {
  operation = x.0;
  result = do
    left ← settle u x.0 x.1.0 x.1.1 a now r
    fail_if database_fails database
    ok left;
}

-- `database_fails` says whether the database fails in the attempt.
unfoldable pub attempt : Uuid → InstanceWriteOperation → Answers → Bool → ℕ → Rows → Attempt
attempt u o a database_fails now r = attempt_from u o a database_fails now r (prepare u o a r)
