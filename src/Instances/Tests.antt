-- ===== src/Instances/Tests.antt =====
-- A creation whose answer is lost and that the recovery completes, and the theorems at such rows.
use msg_backend.Prelude.{ℕ, ◌≡◌, refl, true, false, none, some, List, [], ◌∷◌, arith}
use msg_backend.Prelude.Result.{failed, ok, fail_if, or_fail}
use msg_backend.Instances.{
  Instance, running, stopped, create, completed, no_error, InstanceWriteOperation, ChallengeRelease,
  Rows, absent, given, unavailable, SchedulerError, SchedulerData, Uuid, Write,
  require_no_pending_write, begin_write, validate_write_owner, bind_remote_instance,
  record_write_failure,
}
use msg_backend.Instances.Creation.{
  validate_scheduler_instance_scope, scheduler_delete_reason, validate_scheduler_response_scope,
  check_release, release_for, create_instance_from_scheduler,
}
use msg_backend.Instances.Sending.{reject_if_team_banned, received, before_create, finish_create}
use msg_backend.Instances.Requests.{Answers, Settings, request_result, verified_request_result}
use msg_backend.Instances.Attempt.{
  release_of, check_scope, asked, bound_by, source_of, data_for, restore, keep_or_restore, settle,
  prepare, attempt,
}
use msg_backend.Instances.Recovery.{conclude, recover_locked, recover_write}
use msg_backend.Instances.Histories as Histories
use msg_backend.Instances.Histories.{Operation, begin, recover, change, elsewhere, run}
use msg_backend.Instances.Lasting.{IsLasting, completed_lasts}
use msg_backend.Instances.Exclusive.{IsExclusive, run-IsExclusive}

abbrev uuid : Uuid
uuid = record { str = λ n. n; parse = λ n. some n }

abbrev settings : Settings
settings = record { write_timeout = 10000000; request_recovery_wait_seconds = 600 }

abbrev release : ChallengeRelease
release = record { release_id = 3; challenge_id = 9; registry_revision = 4; is_derived = false }

abbrev write : ℕ → Write
write id = record {
  action = create;
  operation_id = id;
  user_id = 5;
  team_id = 7;
  challenge_id = 9;
  release_id = some 3;
  source_instance_id = none;
  recovery_enabled = true;
}

abbrev empty_rows : Rows
empty_rows = record {
  operations = [];
  instances = [];
  releases = release ∷ [];
  users = record { user_id = 5; team_id = some 7 } ∷ [];
  teams = record { team_id = 7; is_banned = false } ∷ [];
  challenges = 9 ∷ [];
}

abbrev answer : SchedulerData
answer = record {
  instance_id = given 100;
  user_id = absent;
  team_id = given 7;
  challenge_id = given 9;
  release_id = given 3;
  replaced_instance_id = absent;
  registry_revision = given 4;
  status = some running;
  delete_reason = none;
  values_error = none;
}

abbrev lost : SchedulerError
lost = record { code = unavailable; status_code = 503 }

abbrev answers : Answers
answers = record {
  request_result = ok (
      some (record {
        request_id = given 1;
        user_id = given 5;
        action = some create;
        source_instance_id = absent;
        instance = some answer;
      }));
  source_detail = failed lost;
  active = failed lost;
  reset_answer = failed lost;
  second_result = failed lost;
  detail = failed lost;
}

-- The creation is sent, and its answer does not arrive.
abbrev sent : Rows
sent =
    run uuid
      (begin (write 1) 0 ∷ Histories.create 1 none (some release) (failed lost) false 10 ∷ [])
      empty_rows

abbrev recovered : Rows
recovered = run uuid (recover settings false answers false 1 30 sent ∷ []) sent

abbrev done_operation : InstanceWriteOperation
done_operation = record {
  operation_id = 1;
  action = create;
  status = completed;
  user_id = 5;
  team_id = 7;
  challenge_id = 9;
  release_id = some 3;
  source_instance_id = none;
  remote_instance_id = some 100;
  request_id_used = true;
  attempts = 1;
  last_error_code = no_error;
  created_at = 0;
  updated_at = 30;
}

abbrev done_instance : Instance
done_instance = record {
  instance_id = 100;
  user_id = 5;
  team_id = 7;
  challenge_id = 9;
  status = running;
  replaced_instance = none;
  release_id = some 3;
  delete_reason = none;
}

abbrev done : Rows
done = record empty_rows { operations = done_operation ∷ []; instances = done_instance ∷ [] }

recovery_completes : recovered ≡ done
unfolding begin_write require_no_pending_write validate_write_owner bind_remote_instance
    record_write_failure validate_scheduler_instance_scope scheduler_delete_reason
    validate_scheduler_response_scope check_release release_for create_instance_from_scheduler
    reject_if_team_banned received before_create finish_create request_result
    verified_request_result release_of check_scope asked bound_by source_of data_for restore
    keep_or_restore settle prepare attempt conclude recover_locked recover_write fail_if or_fail
recovery_completes = refl

-- Afterwards a second creation begins and is answered late, and the first one is recovered again.
abbrev later : List Operation
later =
    begin (write 2) 40
    ∷ Histories.create 1 none (some release) (failed lost) false 50
    ∷ recover settings true answers false 1 60 sent
    ∷ change 100 stopped none
    ∷ elsewhere (record { user_id = 5; team_id = none } ∷ [])
        (record { team_id = 7; is_banned = true } ∷ []) (9 ∷ []) []
    ∷ []

completed_lasts_example : IsLasting 1 done_operation (run uuid later done)
completed_lasts_example =
    completed_lasts uuid later done 1 done_operation (tt, (tt, (tt, (tt, (refl, tt)))))
      (done_operation, (refl, refl, refl, refl, (λ c. c), (λ c. (100, refl, refl))))

-- The deletion of the team takes the instance, and leaves the operation.
deleted_team : (run uuid (elsewhere [] [] (9 ∷ []) [] ∷ []) done).instances ≡ []
deleted_team = refl

nothing_blocks : IsExclusive empty_rows
nothing_blocks user = ground arith

run-IsExclusive_example : IsExclusive (run uuid (begin (write 1) 0 ∷ later) empty_rows)
run-IsExclusive_example = run-IsExclusive uuid (begin (write 1) 0 ∷ later) empty_rows nothing_blocks
