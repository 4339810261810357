-- ===== src/Instances/Sending.antt =====
-- The second transactions of a creation and of a reset: the Scheduler is called, and its answer is
-- stored with the operation (InstanceCreateView.post and InstanceResetView.post of
-- apps/instances/views.py).
use msg_backend.Prelude.{
  ℕ, Bool, true, false, not, ◌&&◌, Option, none, some, ◌==◌, first, exists, ◌||◌, contains, not,
}
use msg_backend.Prelude.Result.{Result, failed, ok, ◌>>=◌, ◌>>◌, fail_if, or_fail}
use msg_backend.Instances.{
  InstanceWriteOperation, ChallengeRelease, Rows, SchedulerError, forbidden, instance_not_found,
  invalid_state_transition, SchedulerData, Failure, scheduler, team_banned, database, Uuid,
  find_instance, is_resettable, bind_remote_instance, save_binding, complete_write,
  record_write_failure, validate_write_owner,
}
use msg_backend.Instances.Creation.{
  unavailable_failure, create_instance_from_scheduler, mark_instance_replaced,
}

-- `none` is an answer that is no JSON object.
abbrev pub Answer : Type 0
Answer = Result SchedulerError (Option SchedulerData)

unfoldable pub reject_if_team_banned : ℕ → Rows → Result Failure (Unit {0})
reject_if_team_banned team r =
    fail_if (exists (λ t. t.team_id == team && t.is_banned) r.teams) team_banned

unfoldable pub received :
    Uuid → InstanceWriteOperation → Answer → Result Failure (InstanceWriteOperation × SchedulerData)
received u o (failed e) = failed (scheduler true e)
received u o (ok none) = failed unavailable_failure
received u o (ok (some info)) = do bound ← bind_remote_instance u o info; ok (bound, info)

-- `.filter(instance_id=source, user=user, team=team).first()`
abbrev owned_source : InstanceWriteOperation → Rows → Option ℕ → Option ℕ
owned_source o r none = none
owned_source o r (some id) =
    elim (first (λ i. i.instance_id == id && i.user_id == o.user_id && i.team_id == o.team_id)
      r.instances) [ none ↦ none | some i ↦ some i.instance_id ]

-- A challenge that is gone meanwhile is a foreign key that the database refuses.
unfoldable pub store_answer :
    Uuid
    → InstanceWriteOperation
    → SchedulerData
    → Option ℕ
    → Option ChallengeRelease
    → Bool
    → ℕ
    → Rows
    → Result Failure Rows
store_answer u o info replaced release database_fails now r = do
  id ← or_fail o.remote_instance_id unavailable_failure
  created ← create_instance_from_scheduler u id info o replaced release (save_binding o now r)
  fail_if (database_fails || not (contains o.challenge_id r.challenges)) database
  ok (complete_write o now (mark_instance_replaced replaced created))

-- A failure undoes the transaction and is written to the journal, with the operation in memory.
abbrev pub stored_or_failure : InstanceWriteOperation → ℕ → Rows → Result Failure Rows → Rows
stored_or_failure o now r (failed e) = record_write_failure o e true now r
stored_or_failure o now r (ok stored) = stored

abbrev pub finish_received :
    Uuid
    → InstanceWriteOperation
    → (InstanceWriteOperation → Option ℕ)
    → Option ChallengeRelease
    → Bool
    → ℕ
    → Rows
    → Result Failure (InstanceWriteOperation × SchedulerData)
    → Rows
finish_received u o source release database_fails now r (failed e) =
    record_write_failure o e true now r
finish_received u o source release database_fails now r (ok x) =
    stored_or_failure x.0 now r (store_answer u x.0 x.1 (source x.0) release database_fails now r)

abbrev pub finish :
    Uuid
    → InstanceWriteOperation
    → (InstanceWriteOperation → Option ℕ)
    → Option ChallengeRelease
    → Answer
    → Bool
    → ℕ
    → Rows
    → Result Failure (Unit {0})
    → Rows
finish u o source release answer database_fails now r (failed e) =
    record_write_failure o e false now r
finish u o source release answer database_fails now r (ok checked) =
    finish_received u o source release database_fails now r (received u o answer)

unfoldable pub before_create : InstanceWriteOperation → Rows → Result Failure (Unit {0})
before_create o r = do reject_if_team_banned o.team_id r; validate_write_owner o r

-- `database_fails` says whether the database fails while the answer is stored.
unfoldable pub finish_create :
    Uuid → InstanceWriteOperation → Option ChallengeRelease → Answer → Bool → ℕ → Rows → Rows
finish_create u o release answer database_fails now r =
    finish u o (λ bound. owned_source bound r bound.source_instance_id) release answer
      database_fails now r (before_create o r)

unfoldable pub before_reset : InstanceWriteOperation → ℕ → Rows → Result Failure (Unit {0})
before_reset o instance_id r = do
  i ←
      or_fail (find_instance instance_id r)
        (scheduler false (record { code = instance_not_found; status_code = 404 }))
  fail_if (not (i.user_id == o.user_id && i.team_id == o.team_id))
      (scheduler false (record { code = forbidden; status_code = 403 }))
  fail_if (not (is_resettable i.status))
      (scheduler false (record { code = invalid_state_transition; status_code = 400 }))
  reject_if_team_banned i.team_id r
  validate_write_owner o r

unfoldable pub finish_reset :
    Uuid → InstanceWriteOperation → ℕ → Option ChallengeRelease → Answer → Bool → ℕ → Rows → Rows
finish_reset u o instance_id release answer database_fails now r =
    finish u o (λ bound. some instance_id) release answer database_fails now r
      (before_reset o instance_id r)
