-- ===== src/Instances/Histories.antt =====
-- Histories of writes: the requests of all users, the answers that come to them, the recoveries, and
-- what else happens to the rows.
use msg_backend.Prelude.{
  ℕ, Bool, ◌&&◌, Option, none, some, List, [], ◌∷◌, ◌==◌, map, if◌then◌else◌, exists, contains,
  select, update_first,
}
use msg_backend.Prelude.Result.{committed}
use msg_backend.Instances.{
  Instance, InstanceStatus, DeleteReason, started, no_error, InstanceWriteOperation,
  ChallengeRelease, User, Team, Rows, Uuid, Write, begin_write, find_operation,
}
use msg_backend.Instances.Creation.{has_instance_id}
use msg_backend.Instances.Sending.{Answer, finish_create, finish_reset}
use msg_backend.Instances.Requests.{Answers, Settings}
use msg_backend.Instances.Recovery.{recover_write}

-- An answer comes to the request that has begun the operation, with the source that this request knows;
-- a recovery may have read other rows before its lock. The status of an instance may change at any time,
-- and so may the users, teams, challenges and releases: the instances of those that are deleted go with
-- them (on_delete), while their operations stay.
pub data Operation : Type 0 where
  begin : (w : Write) (now : ℕ) → Operation
  create :
      (id : ℕ) (source : Option ℕ) (release : Option ChallengeRelease) (answer : Answer)
      (database_fails : Bool) (now : ℕ)
      → Operation
  reset :
      (id instance_id : ℕ) (source : Option ℕ) (release : Option ChallengeRelease) (answer : Answer)
      (database_fails : Bool) (now : ℕ)
      → Operation
  recover :
      (settings : Settings) (review : Bool) (a : Answers) (database_fails : Bool) (id now : ℕ)
      (before : Rows)
      → Operation
  change : (id : ℕ) (status : InstanceStatus) (reason : Option DeleteReason) → Operation
  elsewhere :
      (users : List User) (teams : List Team) (challenges : List ℕ)
      (releases : List ChallengeRelease)
      → Operation

-- The operation as the request that has begun it holds it in memory.
abbrev pub held : Option ℕ → InstanceWriteOperation → InstanceWriteOperation
held source o = record o {
  status = started;
  source_instance_id = source;
  remote_instance_id = none;
  last_error_code = no_error;
}

abbrev pub answered :
    Option ℕ → (InstanceWriteOperation → Rows → Rows) → Rows → Option InstanceWriteOperation → Rows
answered source send r none = r
answered source send r (some o) = send (held source o) r

abbrev pub change_instance : ℕ → InstanceStatus → Option DeleteReason → Rows → Rows
change_instance id status reason r = record r {
  instances =
      update_first (has_instance_id id) (λ i. record i { status = status; delete_reason = reason })
        r.instances;
}

-- The user, the team and the challenge are there.
abbrev pub is_left : List User → List Team → List ℕ → ℕ → ℕ → ℕ → Bool
is_left users teams challenges user team challenge =
    exists (λ x. x.user_id == user) users
    && (exists (λ x. x.team_id == team) teams && contains challenge challenges)

-- `SET_NULL`: a link to an instance that is deleted is dropped.
abbrev relinked : List Instance → Option ℕ → Option ℕ
relinked is none = none
relinked is (some id) = if exists (has_instance_id id) is then some id else none

abbrev relink : List Instance → Instance → Instance
relink is i = record i { replaced_instance = relinked is i.replaced_instance }

-- `CASCADE`: the instances whose user, team and challenge are there.
abbrev pub cascade : List User → List Team → List ℕ → List Instance → List Instance
cascade users teams challenges is =
    let kept = select (λ i. is_left users teams challenges i.user_id i.team_id i.challenge_id) is in
    map (relink kept) kept

abbrev pub serve : Uuid → Operation → Rows → Rows
serve u (begin w now) r = committed r (begin_write w now r)
serve u (create id source release answer database_fails now) r =
    answered source (λ o. finish_create u o release answer database_fails now) r
      (find_operation id r)
serve u (reset id instance_id source release answer database_fails now) r =
    answered source (λ o. finish_reset u o instance_id release answer database_fails now) r
      (find_operation id r)
serve u (recover settings review a database_fails id now before) r =
    committed r (recover_write u settings review a database_fails id now before r)
serve u (change id status reason) r = change_instance id status reason r
serve u (elsewhere users teams challenges releases) r = record r {
  instances = cascade users teams challenges r.instances;
  users = users;
  teams = teams;
  challenges = challenges;
  releases = releases;
}

abbrev pub run : Uuid → List Operation → Rows → Rows
run u [] r = r
run u (o ∷ operations) r = run u operations (serve u o r)
