-- ===== src/Instances/Recovered.antt =====
-- What an attempt to recover leaves: the instance of the operation, and no other changed hands.
use msg_backend.Prelude.{ℕ, ◌≡◌, refl, true, Option, none, some, exists, exists-first, first_passes}
use msg_backend.Prelude.Result.{Ensures, Ensures-bind, Ensures-found, Ensures-pass, Ensures-ok}
use msg_backend.Instances.{
  Instance, InstanceWriteOperation, ChallengeRelease, Rows, SchedulerData, Uuid, DeleteReason,
  find_instance,
}
use msg_backend.Instances.Creation.{
  has_instance_id, is_owned, create_instance_from_scheduler, scheduler_delete_reason,
  validate_scheduler_instance_scope,
}
use msg_backend.Instances.Requests.{Answers}
use msg_backend.Instances.Attempt.{
  check_scope, asked, bound_by, link_source, keep_existing, restore, keep_or_restore_at,
  keep_or_restore, prepare, data_for, with_reason, instance_id_of,
}
use msg_backend.Instances.Changes.{is_instance, kept, update_first-IsKept}
use msg_backend.Instances.Owned.{IsStored, in_scope, create_instance_from_scheduler-IsStored}
use msg_backend.Instances.Sent.{IsSameWrite, bind_remote_instance-IsSameWrite}

pub same_write : (o : InstanceWriteOperation) → IsSameWrite o o
same_write o = record { key = refl; user = refl; team = refl; challenge = refl }

bound_by-IsSameWrite :
    (u : Uuid) (o : InstanceWriteOperation) (info : Option SchedulerData)
    → Ensures (IsSameWrite o) (bound_by u o info)
unfolding bound_by
bound_by-IsSameWrite u o none = Ensures-ok _ (same_write o)
bound_by-IsSameWrite u o (some info) = bind_remote_instance-IsSameWrite u o info

pub prepare-IsSameWrite :
    (u : Uuid) (o : InstanceWriteOperation) (a : Answers) (r : Rows)
    → Ensures (λ x. IsSameWrite o x.0) (prepare u o a r)
unfolding prepare
prepare-IsSameWrite u o a r = Ensures-bind (check_scope o r) _ λ release _.
    Ensures-bind (asked u o release a r) _ λ info _.
      Ensures-bind (bound_by u o info) _
        λ b e. Ensures-ok _ ((bound_by-IsSameWrite u o info).at b e)

module _ (id : ℕ) (o : InstanceWriteOperation) (r : Rows) where
  link_source-IsStored :
      (i : Instance) (source : Option Instance)
      → exists (is_instance id o.user_id o.team_id o.challenge_id) r.instances ≡ true
      → Ensures (IsStored id o r) (link_source i source r)
  unfolding link_source
  link_source-IsStored i none h =
      Ensures-ok _ (record { operations = refl; kept = kept r.instances; stored = h })
  link_source-IsStored i (some source) h = Ensures-pass _ _ _ λ _.
      let linked = update_first-IsKept _ _ r.instances λ a n user team challenge _ e. e in
      Ensures-ok _ (record {
        operations = refl;
        kept = linked;
        stored = linked id o.user_id o.team_id o.challenge_id h;
      })

  with_reason-IsStored :
      (reason : Option DeleteReason) (s : Rows)
      → IsStored id o r s
      → IsStored id o r (with_reason id reason s)
  with_reason-IsStored none s h = h
  with_reason-IsStored (some reason) s h =
      let given = update_first-IsKept _ _ s.instances λ a n user team challenge _ e. e in
      record {
        operations = h.operations;
        kept =
            λ n user team challenge e. given n user team challenge (h.kept n user team challenge e);
        stored = given id o.user_id o.team_id o.challenge_id h.stored;
      }

  named :
      (i : Instance)
      → has_instance_id id i ≡ true
      → is_owned o.user_id o.team_id o.challenge_id i ≡ true
      → is_instance id o.user_id o.team_id o.challenge_id i ≡ true
  named i at own = rw at own

  keep_existing-IsStored :
      (i : Instance) (source : Option Instance)
      → find_instance id r ≡ some i
      → Ensures (IsStored id o r) (keep_existing o source i r)
  unfolding keep_existing
  keep_existing-IsStored i source found =
      Ensures-bind (validate_scheduler_instance_scope (some i) o.user_id o.team_id o.challenge_id) _
        λ t scope. Ensures-pass _ _ _ λ _. link_source-IsStored i source (
          exists-first (is_instance id o.user_id o.team_id o.challenge_id) (has_instance_id id)
            r.instances i found
            (named i (first_passes (has_instance_id id) r.instances i found)
              (in_scope i o.user_id o.team_id o.challenge_id t scope)))

  restore-IsStored :
      (u : Uuid) (source : Option Instance) (release : Option ChallengeRelease)
      (given : Option SchedulerData)
      → Ensures (IsStored id o r) (restore u o id source release given r)
  unfolding restore
  restore-IsStored u source release given = Ensures-found _ _ _ λ info _. Ensures-pass _ _ _ λ _.
      Ensures-pass _ _ _ λ _. Ensures-pass _ _ _ λ _. Ensures-pass _ _ _ λ _.
        Ensures-bind (scheduler_delete_reason info) _ λ reason _.
          Ensures-bind
            (create_instance_from_scheduler u id info o (instance_id_of source) release r) _
            λ s e. Ensures-ok _ (
              with_reason-IsStored reason s (
                (create_instance_from_scheduler-IsStored u id info o (instance_id_of source) release
                    r).at
                  s e))

  keep_or_restore_at-IsStored :
      (u : Uuid) (source : Option Instance) (release : Option ChallengeRelease)
      (given : Option SchedulerData) (a : Answers) (found : Option Instance)
      → find_instance id r ≡ found
      → Ensures (IsStored id o r) (keep_or_restore_at u o id source release given a r found)
  keep_or_restore_at-IsStored u source release given a none e =
      Ensures-bind (data_for a given) _ λ info _. restore-IsStored u source release info
  keep_or_restore_at-IsStored u source release given a (some i) e =
      keep_existing-IsStored i source e

pub keep_or_restore-IsStored :
    (u : Uuid) (o : InstanceWriteOperation) (remote : Option ℕ) (source : Option Instance)
    (release : Option ChallengeRelease) (given : Option SchedulerData) (a : Answers) (r : Rows)
    → Ensures
        (λ s. (id : ℕ) × (remote ≡ some id) × IsStored id o r s)
        (keep_or_restore u o remote source release given a r)
unfolding keep_or_restore
keep_or_restore-IsStored u o none source release given a r =
    Ensures-bind (data_for a given) _ λ info _. record { at = λ b e. cc }
keep_or_restore-IsStored u o (some id) source release given a r = record {
  at = λ s e. (
    id,
    refl,
    (keep_or_restore_at-IsStored id o r u source release given a (find_instance id r) refl).at s e,
  );
}
