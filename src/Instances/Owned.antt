-- ===== src/Instances/Owned.antt =====
-- What the storing of an instance does to the owners of the instances
-- (create_instance_from_scheduler and mark_instance_replaced of apps/instances/services.py).
use msg_backend.Prelude.{
  ℕ, ◌≡◌, refl, subst, ◌∙◌, Bool, true, false, not, Option, none, some, List, ◌∷◌, if_cases, first,
  exists, update_first, exists-updated, first_passes, arith,
}
use msg_backend.Prelude.Result.{ok, Ensures, Ensures-bind, Ensures-ok, fail_if-passes}
use msg_backend.Instances.{
  Instance, InstanceWriteOperation, ChallengeRelease, Rows, SchedulerData, Uuid, find_instance,
}
use msg_backend.Instances.Creation.{
  unavailable_failure, has_instance_id, update_or_create, create_instance_from_scheduler,
  mark_instance_replaced, validate_scheduler_response_scope, validate_scheduler_instance_scope,
  release_for, raise_values, is_owned,
}
use msg_backend.Instances.Changes.{is_instance, IsKept, kept, update_first-IsKept}

-- The instances of another writer's rows: the same operations, none lost, and this one there.
pub record IsStored (id : ℕ) (o : InstanceWriteOperation) (r s : Rows) : Type 0 where
  pub operations : s.operations ≡ r.operations
  pub kept : IsKept r.instances s.instances
  pub stored : exists (is_instance id o.user_id o.team_id o.challenge_id) s.instances ≡ true

negated : (b : Bool) → not b ≡ false → b ≡ true
negated b e = ground (arith, e)

pub in_scope :
    (i : Instance) (user team challenge : ℕ) (t : Unit {0})
    → validate_scheduler_instance_scope (some i) user team challenge ≡ ok t
    → is_owned user team challenge i ≡ true
unfolding validate_scheduler_instance_scope
in_scope i user team challenge t e =
    negated _ (fail_if-passes (not (is_owned user team challenge i)) unavailable_failure t e)

mark_instance_replaced-IsKept :
    (id : Option ℕ) (r : Rows) → IsKept r.instances (mark_instance_replaced id r).instances
mark_instance_replaced-IsKept none r = kept r.instances
mark_instance_replaced-IsKept (some id) r =
    update_first-IsKept _ _ r.instances λ a id user team challenge _ h. h

marked-operations :
    (id : Option ℕ) (r : Rows) → (mark_instance_replaced id r).operations ≡ r.operations
marked-operations none r = refl
marked-operations (some id) r = refl

pub marked-IsStored :
    (mark : Option ℕ) (id : ℕ) (o : InstanceWriteOperation) (r s : Rows)
    → IsStored id o r s
    → IsStored id o r (mark_instance_replaced mark s)
marked-IsStored mark id o r s h =
    let after = mark_instance_replaced-IsKept mark s in
    record {
      operations = marked-operations mark s ∙ h.operations;
      kept = λ id user team challenge e.
          after id user team challenge (h.kept id user team challenge e);
      stored = after id o.user_id o.team_id o.challenge_id h.stored;
    }

own : (i : Instance) → is_instance i.instance_id i.user_id i.team_id i.challenge_id i ≡ true
own i = ground arith

replacing :
    (i a : Instance) (id user team challenge : ℕ)
    → has_instance_id i.instance_id a ≡ true
    → is_owned i.user_id i.team_id i.challenge_id a ≡ true
    → is_instance id user team challenge a ≡ true
    → is_instance id user team challenge i ≡ true
replacing i a id user team challenge at owner h = ground (arith, at, owner, h)

added :
    (i : Instance) (is : List Instance) (id user team challenge : ℕ)
    → exists (is_instance id user team challenge) is ≡ true
    → exists (is_instance id user team challenge) (i ∷ is) ≡ true
added i is id user team challenge h = ground (arith, h)

heads :
    (i : Instance) (is : List Instance)
    → exists (is_instance i.instance_id i.user_id i.team_id i.challenge_id) (i ∷ is) ≡ true
heads i is = rw (own i) refl

abbrev replaced_by : Instance → List Instance → List Instance
replaced_by i is =
    update_first (has_instance_id i.instance_id)
      (λ row. record i { delete_reason = row.delete_reason }) is

-- The row that is there is the owner's, so that what replaces it is nobody else's.
update_or_create-IsKept :
    (i : Instance) (is : List Instance)
    → ((a : Instance)
        → first (has_instance_id i.instance_id) is ≡ some a
        → is_owned i.user_id i.team_id i.challenge_id a ≡ true)
    → IsKept is (update_or_create i is)
update_or_create-IsKept i is owner =
    if_cases (IsKept is) (exists (has_instance_id i.instance_id) is) (replaced_by i is) (i ∷ is)
      (λ y. update_first-IsKept _ _ is λ a id user team challenge found h.
        replacing i a id user team challenge (first_passes _ is a found) (owner a found) h)
      (λ _ id user team challenge h. added i is id user team challenge h)

update_or_create-stored :
    (i : Instance) (is : List Instance)
    → exists (is_instance i.instance_id i.user_id i.team_id i.challenge_id) (update_or_create i is)
      ≡ true
update_or_create-stored i is =
    if_cases (λ js. exists (is_instance i.instance_id i.user_id i.team_id i.challenge_id) js ≡ true)
      (exists (has_instance_id i.instance_id) is) (replaced_by i is) (i ∷ is)
      (λ y. exists-updated _ _ _ is (λ a found. own i) y) (λ _. heads i is)

pub create_instance_from_scheduler-IsStored :
    (u : Uuid) (id : ℕ) (info : SchedulerData) (o : InstanceWriteOperation) (replaced : Option ℕ)
    (release : Option ChallengeRelease) (r : Rows)
    → Ensures (IsStored id o r) (create_instance_from_scheduler u id info o replaced release r)
unfolding create_instance_from_scheduler
create_instance_from_scheduler-IsStored u id info o replaced release r =
    Ensures-bind (validate_scheduler_response_scope u info o.user_id o.team_id o.challenge_id) _
      λ _ _. Ensures-bind (release_for u release o.challenge_id info r) _ λ x _.
        Ensures-bind (raise_values info.values_error) _ λ _ _.
          Ensures-bind
            (validate_scheduler_instance_scope (find_instance id r) o.user_id o.team_id
              o.challenge_id)
            _
            λ t scope. Ensures-ok _ (record {
              operations = refl;
              kept = update_or_create-IsKept _ r.instances λ a found.
                  in_scope a o.user_id o.team_id o.challenge_id t (
                    subst
                      (λ f.
                        validate_scheduler_instance_scope f o.user_id o.team_id o.challenge_id
                        ≡ ok t)
                      found scope);
              stored = update_or_create-stored _ r.instances;
            })
