-- ===== src/Instances/Tables.antt =====
-- The rows of apps/instances/models.py that the journal of writes needs, the answers of the Scheduler
-- and the exceptions (apps/instances/services.py).
use msg_backend.Prelude.{ℕ, Bool, true, false, Option, none, some, List, ◌==◌, first}

-- Any value that is no status stands as `unlisted`.
pub data InstanceStatus : Type 0 where
  requested scheduling provisioning running restarting resetting : InstanceStatus
  stopping stopped failed_status expired cleanup_pending cleaned unlisted : InstanceStatus

pub data DeleteReason : Type 0 where
  user_requested replaced_by_new_instance ttl_expired idle_expired : DeleteReason
  hard_timeout admin_forced create_failed_cleanup : DeleteReason

pub record Instance : Type 0 where
  pub instance_id : ℕ
  pub user_id : ℕ
  pub team_id : ℕ
  pub challenge_id : ℕ
  pub status : InstanceStatus
  pub replaced_instance : Option ℕ
  pub release_id : Option ℕ
  pub delete_reason : Option DeleteReason

pub data Action : Type 0 where
  create reset : Action

pub data Status : Type 0 where
  started recovery_pending completed rejected review_required : Status

pub data ErrorCode : Type 0 where
  no_error db_write_failed local_result_rejected request_result_pending : ErrorCode
  remote_result_unknown request_rejected owner_changed reset_source_cleaned : ErrorCode
  scheduler_unavailable request_result_not_found remote_state_unconfirmed : ErrorCode
  recovery_scope_mismatch : ErrorCode

pub record InstanceWriteOperation : Type 0 where
  pub operation_id : ℕ
  pub action : Action
  pub status : Status
  pub user_id : ℕ
  pub team_id : ℕ
  pub challenge_id : ℕ
  pub release_id : Option ℕ
  pub source_instance_id : Option ℕ
  pub remote_instance_id : Option ℕ
  pub request_id_used : Bool
  pub attempts : ℕ
  pub last_error_code : ErrorCode
  pub created_at : ℕ
  pub updated_at : ℕ

pub record ChallengeRelease : Type 0 where
  pub release_id : ℕ
  pub challenge_id : ℕ
  pub registry_revision : ℕ
  pub is_derived : Bool

pub record User : Type 0 where
  pub user_id : ℕ
  pub team_id : Option ℕ

pub record Team : Type 0 where
  pub team_id : ℕ
  pub is_banned : Bool

pub record Rows : Type 0 where
  pub operations : List InstanceWriteOperation
  pub instances : List Instance
  pub releases : List ChallengeRelease
  pub users : List User
  pub teams : List Team
  pub challenges : List ℕ

-- A value of a JSON object: a text or a whole number by its number, or `odd`, a value of another kind.
pub data Field : Type 0 where
  absent null odd : Field
  given : ℕ → Field

-- The Scheduler's data of an instance. `delete_reason` is `some none` for a value that is no reason,
-- `status` is `none` where the key is absent, and `values_error` is what reading the addresses and the
-- times raises.
pub data ErrorKind : Type 0 where
  instance_request_not_found instance_not_found reset_owner_banned unavailable : ErrorKind
  instance_operation_pending instance_review_required forbidden : ErrorKind
  invalid_state_transition other_kind : ErrorKind

pub record SchedulerError : Type 0 where
  pub code : ErrorKind
  pub status_code : ℕ

pub record SchedulerData : Type 0 where
  pub instance_id : Field
  pub user_id : Field
  pub team_id : Field
  pub challenge_id : Field
  pub release_id : Field
  pub replaced_instance_id : Field
  pub registry_revision : Field
  pub status : Option InstanceStatus
  pub delete_reason : Option (Option DeleteReason)
  pub values_error : Option SchedulerError

-- What an operation raises: a SchedulerError, with whether the Scheduler was waited for,
-- ResetSourceClosed with the data of the source, the ban or the loss of the team, a DatabaseError, or a ValueError
-- or a row that does not exist.
pub data Failure : Type 0 where
  scheduler : (waiting : Bool) → SchedulerError → Failure
  reset_source_closed : SchedulerData → Failure
  team_banned user_has_no_team database value_error : Failure

-- `str` of an identifier as the number of its text, and uuid.UUID of a text.
pub record Uuid : Type 0 where
  pub str : ℕ → ℕ
  pub parse : ℕ → Option ℕ

abbrev pub has_id : ℕ → InstanceWriteOperation → Bool
has_id id o = o.operation_id == id

abbrev pub find_operation : ℕ → Rows → Option InstanceWriteOperation
find_operation id r = first (has_id id) r.operations

abbrev pub find_instance : ℕ → Rows → Option Instance
find_instance id r = first (λ i. i.instance_id == id) r.instances

abbrev pub find_team : ℕ → Rows → Option Team
find_team id r = first (λ t. t.team_id == id) r.teams

abbrev pub unavailable_error : SchedulerError
unavailable_error = record { code = unavailable; status_code = 503 }

-- BLOCKING_STATUSES
abbrev pub is_blocking : Status → Bool
is_blocking started = true
is_blocking recovery_pending = true
is_blocking review_required = true
is_blocking _ = false

abbrev pub is_completed : Status → Bool
is_completed completed = true
is_completed _ = false

-- ACTIVE_INSTANCE_STATUSES
abbrev pub is_active : InstanceStatus → Bool
is_active requested = true
is_active scheduling = true
is_active provisioning = true
is_active running = true
is_active restarting = true
is_active resetting = true
is_active _ = false

abbrev pub is_started : Status → Bool
is_started started = true
is_started _ = false

-- RESETTABLE_INSTANCE_STATUSES
abbrev pub is_resettable : InstanceStatus → Bool
is_resettable running = true
is_resettable _ = false

abbrev pub is_same : Option ℕ → Option ℕ → Bool
is_same none none = true
is_same (some a) (some b) = a == b
is_same _ _ = false

-- `data.get(key) == text`
abbrev pub is_given : ℕ → Field → Bool
is_given text (given n) = n == text
is_given text _ = false

-- `data.get(key) == value` for a value that may be None.
abbrev pub agrees : Option ℕ → Field → Bool
agrees none absent = true
agrees none null = true
agrees none _ = false
agrees (some text) f = is_given text f

-- A key that is not there, or `data[key] == value`.
abbrev pub is_compatible : Option ℕ → Field → Bool
is_compatible value absent = true
is_compatible value f = agrees value f
