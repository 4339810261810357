-- ===== src/Instances/Creation.antt =====
-- The transactions that send a creation or a reset to the Scheduler and store its answer
-- (apps/instances/views.py, apps/instances/services.py).
use msg_backend.Prelude.{
  ℕ, suc, Bool, true, false, not, ◌&&◌, Option, none, some, List, [], ◌∷◌, ◌==◌, if◌then◌else◌,
  first, exists, select, update_first,
}
use msg_backend.Prelude.Result.{Result, failed, ok, ◌>>=◌, ◌>>◌, fail_if, or_fail}
use msg_backend.Instances.{
  InstanceStatus, requested, stopping, stopped, failed_status, expired, cleanup_pending, cleaned,
  DeleteReason, replaced_by_new_instance, Instance, InstanceWriteOperation, ChallengeRelease, Rows,
  Field, absent, null, given, SchedulerError, SchedulerData, Failure, scheduler, Uuid,
  find_instance, unavailable_error, is_given, is_compatible,
}

abbrev pub unavailable_failure : Failure
unavailable_failure = scheduler false unavailable_error

abbrev pub is_owned : ℕ → ℕ → ℕ → Instance → Bool
is_owned user team challenge i =
    i.user_id == user && i.team_id == team && i.challenge_id == challenge

unfoldable pub validate_scheduler_instance_scope :
    Option Instance → ℕ → ℕ → ℕ → Result Failure (Unit {0})
validate_scheduler_instance_scope none user team challenge = ok tt
validate_scheduler_instance_scope (some i) user team challenge =
    fail_if (not (is_owned user team challenge i)) unavailable_failure

abbrev is_ended : Option InstanceStatus → Bool
is_ended (some stopping) = true
is_ended (some cleanup_pending) = true
is_ended (some expired) = true
is_ended (some stopped) = true
is_ended (some cleaned) = true
is_ended (some failed_status) = true
is_ended _ = false

abbrev delete_reason_of :
    Option (Option DeleteReason) → Option InstanceStatus → Result Failure (Option DeleteReason)
delete_reason_of none status = ok none
delete_reason_of (some none) status = failed unavailable_failure
delete_reason_of (some (some reason)) status =
    if is_ended status then ok (some reason) else failed unavailable_failure

unfoldable pub scheduler_delete_reason : SchedulerData → Result Failure (Option DeleteReason)
scheduler_delete_reason info = delete_reason_of info.delete_reason info.status

unfoldable pub validate_scheduler_response_scope :
    Uuid → SchedulerData → ℕ → ℕ → ℕ → Result Failure (Unit {0})
validate_scheduler_response_scope u info user team challenge =
    fail_if
      (not (
        is_compatible (some (u.str user)) info.user_id
        && is_compatible (some (u.str team)) info.team_id
        && is_compatible (some (u.str challenge)) info.challenge_id))
      unavailable_failure

abbrev positive : Field → Option ℕ
positive (given (suc n)) = some (suc n)
positive _ = none

abbrev only : List ChallengeRelease → Option ChallengeRelease
only (release ∷ []) = some release
only _ = none

-- A text that is not the usual spelling of an identifier names no release.
abbrev chosen : Uuid → Field → List ChallengeRelease → Option ChallengeRelease
chosen u absent releases = only releases
chosen u null releases = only releases
chosen u f releases = first (λ x. is_given (u.str x.release_id) f) releases

unfoldable pub get_release_from_scheduler_data :
    Uuid → ℕ → SchedulerData → Rows → Result Failure ChallengeRelease
get_release_from_scheduler_data u challenge info r = do
  revision ← or_fail (positive info.registry_revision) unavailable_failure
  or_fail
      (chosen u info.release_id
        (select (λ x. x.challenge_id == challenge && x.registry_revision == revision) r.releases))
      unavailable_failure

-- A value that is None passes, as an absent key does.
abbrev is_none_or : ℕ → Field → Bool
is_none_or n absent = true
is_none_or n null = true
is_none_or n f = is_given n f

abbrev pub is_missing : Field → Bool
is_missing absent = true
is_missing null = true
is_missing _ = false

unfoldable pub check_release : Uuid → ChallengeRelease → SchedulerData → Result Failure (Unit {0})
check_release u x info = do
  fail_if (not (is_none_or (u.str x.release_id) info.release_id)) unavailable_failure
  fail_if (x.is_derived && is_missing info.release_id) unavailable_failure

unfoldable pub release_for :
    Uuid → Option ChallengeRelease → ℕ → SchedulerData → Rows → Result Failure ChallengeRelease
release_for u none challenge info r = get_release_from_scheduler_data u challenge info r
release_for u (some x) challenge info r = do
  check_release u x info
  fail_if (not (is_none_or x.registry_revision info.registry_revision)) unavailable_failure
  ok x

abbrev status_or_requested : Option InstanceStatus → InstanceStatus
status_or_requested none = requested
status_or_requested (some s) = s

abbrev pub has_instance_id : ℕ → Instance → Bool
has_instance_id id i = i.instance_id == id

-- `update_or_create`: a row that is there keeps its reason of deletion.
abbrev pub update_or_create : Instance → List Instance → List Instance
update_or_create i instances =
    if exists (has_instance_id i.instance_id) instances
    then update_first (has_instance_id i.instance_id)
        (λ row. record i { delete_reason = row.delete_reason }) instances
    else i ∷ instances

abbrev pub raise_values : Option SchedulerError → Result Failure (Unit {0})
raise_values none = ok tt
raise_values (some e) = failed (scheduler false e)

-- The instance gets the identifier `id`, which the data names.
unfoldable pub create_instance_from_scheduler :
    Uuid
    → ℕ
    → SchedulerData
    → InstanceWriteOperation
    → Option ℕ
    → Option ChallengeRelease
    → Rows
    → Result Failure Rows
create_instance_from_scheduler u id info o replaced release r = do
  validate_scheduler_response_scope u info o.user_id o.team_id o.challenge_id
  x ← release_for u release o.challenge_id info r
  raise_values info.values_error
  validate_scheduler_instance_scope (find_instance id r) o.user_id o.team_id o.challenge_id
  ok (record r {
    instances =
        update_or_create
          (record {
            instance_id = id;
            user_id = o.user_id;
            team_id = o.team_id;
            challenge_id = o.challenge_id;
            status = status_or_requested info.status;
            replaced_instance = replaced;
            release_id = some x.release_id;
            delete_reason = none;
          })
          r.instances;
  })

abbrev as_replaced : Instance → Instance
as_replaced i = record i { status = stopping; delete_reason = some replaced_by_new_instance }

abbrev pub mark_instance_replaced : Option ℕ → Rows → Rows
mark_instance_replaced none r = r
mark_instance_replaced (some id) r = record r {
  instances = update_first (has_instance_id id) as_replaced r.instances;
}
