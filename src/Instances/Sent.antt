-- ===== src/Instances/Sent.antt =====
-- The step that a request takes when its answer comes.
use msg_backend.Prelude.{
  ℕ, ◌≡◌, refl, ap, subst, ◌∙◌, inl, Bool, true, false, Option, none, some, List, exists,
  update_first, update_first_twice, arith,
}
use msg_backend.Prelude.Result.{
  Result, failed, ok, Ensures, Ensures-bind, Ensures-found, Ensures-pass, Ensures-ok,
}
use msg_backend.Instances.{
  Instance, InstanceWriteOperation, ChallengeRelease, Rows, SchedulerData, Failure, Uuid, has_id,
  find_operation, bound_to, as_completed, save_binding, bind_remote_instance, parse_source,
}
use msg_backend.Instances.Creation.{create_instance_from_scheduler, mark_instance_replaced}
use msg_backend.Instances.Sending.{
  Answer, received, store_answer, stored_or_failure, finish_received, finish, before_create,
  finish_create, before_reset, finish_reset,
}
use msg_backend.Instances.Changes.{Change, revise, is_instance, record_write_failure-Change}
use msg_backend.Instances.Owned.{create_instance_from_scheduler-IsStored, marked-IsStored}

-- The same operation, of the same user, team and challenge.
pub record IsSameWrite (a b : InstanceWriteOperation) : Type 0 where
  pub key : b.operation_id ≡ a.operation_id
  pub user : b.user_id ≡ a.user_id
  pub team : b.team_id ≡ a.team_id
  pub challenge : b.challenge_id ≡ a.challenge_id

pub bind_remote_instance-IsSameWrite :
    (u : Uuid) (o : InstanceWriteOperation) (info : SchedulerData)
    → Ensures (IsSameWrite o) (bind_remote_instance u o info)
unfolding bind_remote_instance
bind_remote_instance-IsSameWrite u o info = Ensures-found _ _ _ λ remote _.
    Ensures-bind (parse_source u info.replaced_instance_id) _ λ source _. Ensures-pass _ _ _ λ _.
      Ensures-pass _ _ _ λ _.
        Ensures-pass _ _ _
          λ _. Ensures-ok _ (record { key = refl; user = refl; team = refl; challenge = refl })

received-IsSameWrite :
    (u : Uuid) (o : InstanceWriteOperation) (answer : Answer)
    → Ensures (λ x. IsSameWrite o x.0) (received u o answer)
unfolding received
received-IsSameWrite u o (failed e) = record { at = λ b h. cc }
received-IsSameWrite u o (ok none) = record { at = λ b h. cc }
received-IsSameWrite u o (ok (some info)) =
    Ensures-bind (bind_remote_instance u o info) _
      λ b e. Ensures-ok _ ((bind_remote_instance-IsSameWrite u o info).at b e)

-- The row of the operation, wherever it is found, is this write's.
abbrev pub IsRowOf : InstanceWriteOperation → Rows → Type 0
IsRowOf o r =
    (row : InstanceWriteOperation) → find_operation o.operation_id r ≡ some row → IsSameWrite row o

pub owner_of :
    (a b : InstanceWriteOperation) (id : ℕ) (is : List Instance)
    → IsSameWrite a b
    → exists (is_instance id b.user_id b.team_id b.challenge_id) is ≡ true
    → exists (is_instance id a.user_id a.team_id a.challenge_id) is ≡ true
owner_of a b id is same h =
    subst (λ n. exists (is_instance id n a.team_id a.challenge_id) is ≡ true) same.user
      (subst (λ n. exists (is_instance id b.user_id n a.challenge_id) is ≡ true) same.team
        (subst (λ n. exists (is_instance id b.user_id b.team_id n) is ≡ true) same.challenge h))

store_answer-Change :
    (u : Uuid) (o : InstanceWriteOperation) (info : SchedulerData) (replaced : Option ℕ)
    (release : Option ChallengeRelease) (fails : Bool) (now : ℕ) (r : Rows)
    → IsRowOf o r
    → Ensures (Change r) (store_answer u o info replaced release fails now r)
unfolding store_answer
store_answer-Change u o info replaced release fails now r same = Ensures-found _ _ _ λ id remote.
    Ensures-bind
      (create_instance_from_scheduler u id info o replaced release (save_binding o now r)) _
      λ created e. Ensures-pass _ _ _ λ _.
        let h = marked-IsStored replaced id o _ created (
          (create_instance_from_scheduler-IsStored u id info o replaced release
              (save_binding o now r)).at
            created e) in
        let s = mark_instance_replaced replaced created in
        Ensures-ok _ (
          revise o.operation_id (λ row. as_completed now (bound_to o now row))
            (ap (update_first (has_id o.operation_id) (as_completed now)) h.operations
              ∙ update_first_twice (has_id o.operation_id) (bound_to o now) (as_completed now)
                  r.operations (λ a. refl))
            h.kept
            λ row found. record {
              user = refl;
              team = refl;
              challenge = refl;
              key = refl;
              final = λ _. refl;
              exclusive = inl (λ c. absurd (ground (arith, c)));
              backed = λ _ _. (id, remote, owner_of row o id s.instances (same row found) h.stored);
            })

stored_or_failure-Change :
    (o : InstanceWriteOperation) (now : ℕ) (r : Rows) (m : Result Failure Rows)
    → Ensures (Change r) m
    → Change r (stored_or_failure o now r m)
stored_or_failure-Change o now r (failed e) h = record_write_failure-Change o e true now r
stored_or_failure-Change o now r (ok stored) h = h.at stored refl

-- What the request holds is of the row's write, and stays so when it is bound.
still_IsRowOf :
    (o b : InstanceWriteOperation) (r : Rows) → IsSameWrite o b → IsRowOf o r → IsRowOf b r
still_IsRowOf o b r same h row found =
    let before = h row (subst (λ id. find_operation id r ≡ some row) same.key found) in
    record {
      key = same.key ∙ before.key;
      user = same.user ∙ before.user;
      team = same.team ∙ before.team;
      challenge = same.challenge ∙ before.challenge;
    }

finish_received-Change :
    (u : Uuid) (o : InstanceWriteOperation) (source : InstanceWriteOperation → Option ℕ)
    (release : Option ChallengeRelease) (fails : Bool) (now : ℕ) (r : Rows)
    (m : Result Failure (InstanceWriteOperation × SchedulerData))
    → IsRowOf o r
    → Ensures (λ x. IsSameWrite o x.0) m
    → Change r (finish_received u o source release fails now r m)
finish_received-Change u o source release fails now r (failed e) h same =
    record_write_failure-Change o e true now r
finish_received-Change u o source release fails now r (ok x) h same =
    stored_or_failure-Change x.0 now r _ (
      store_answer-Change u x.0 x.1 (source x.0) release fails now r
        (still_IsRowOf o x.0 r (same.at x refl) h))

finish-Change :
    (u : Uuid) (o : InstanceWriteOperation) (source : InstanceWriteOperation → Option ℕ)
    (release : Option ChallengeRelease) (answer : Answer) (fails : Bool) (now : ℕ) (r : Rows)
    (checks : Result Failure (Unit {0}))
    → IsRowOf o r
    → Change r (finish u o source release answer fails now r checks)
finish-Change u o source release answer fails now r (failed e) h =
    record_write_failure-Change o e false now r
finish-Change u o source release answer fails now r (ok checked) h =
    finish_received-Change u o source release fails now r (received u o answer) h
      (received-IsSameWrite u o answer)

pub finish_create-Change :
    (u : Uuid) (o : InstanceWriteOperation) (release : Option ChallengeRelease) (answer : Answer)
    (fails : Bool) (now : ℕ) (r : Rows)
    → IsRowOf o r
    → Change r (finish_create u o release answer fails now r)
unfolding finish_create
finish_create-Change u o release answer fails now r h =
    finish-Change u o _ release answer fails now r (before_create o r) h

pub finish_reset-Change :
    (u : Uuid) (o : InstanceWriteOperation) (id : ℕ) (release : Option ChallengeRelease)
    (answer : Answer) (fails : Bool) (now : ℕ) (r : Rows)
    → IsRowOf o r
    → Change r (finish_reset u o id release answer fails now r)
unfolding finish_reset
finish_reset-Change u o id release answer fails now r h =
    finish-Change u o _ release answer fails now r (before_reset o id r) h
