-- ===== src/Board/Cells/Once.antt =====
-- A challenge pays once: completing it again grants no roll.
use msg_backend.Prelude.{
  ℕ, ◌≡◌, refl, sym, subst, Bool, true, false, not, Option, none, some, List, ◌==◌, first,
  first-update, arith,
}
use msg_backend.Board.Model.{TeamBoardState, TeamChallengeAccess, Shared, Rows, cleared}
use msg_backend.Board.Monad.{ok, M, when, ◌>>=◌}
use msg_backend.Board.Keeps.{
  Keeps, Keeps-modify_state, Keeps-when, Keeps-gets, Keeps-pure, Keeps-bind,
}
use msg_backend.Board.Triple.{
  Triple, Triple-bind, Triple-Keeps, Triple-ok, Triple-pure, Triple-pre, Triple-then, Triple-gets,
  Triple-last, Triple-fact, Keeps-any,
}
use msg_backend.Board.Landing.{now}
use msg_backend.Board.Cells.{
  is_cleared, clear_access, clear_active, clear_if_opened, grant_if, finish_completion,
  complete_access, complete_challenge_from_submission, earns_roll,
}
use msg_backend.Board.Closed.{IsLockClosed}
use msg_backend.Board.Closed.Steps.{now-Keeps, grant_roll-Keeps}

-- The access of a challenge, and whether there is none that is still open.
abbrev access_of : ℕ → List TeamChallengeAccess → Option TeamChallengeAccess
access_of id accesses = first (λ a. a.challenge_id == id) accesses

abbrev Settled : Option TeamChallengeAccess → Type 0
Settled none = Unit
Settled (some a) = is_cleared a.status ≡ true

abbrev IsDone : ℕ → Rows → Type 0
IsDone id r = Settled (access_of id r.accesses)

accesses-IsLockClosed :
    (sh : Shared) (P : List TeamChallengeAccess → Type 0) → IsLockClosed sh (λ r. P r.accesses)
accesses-IsLockClosed sh P = record {
  clock = λ r h. h;
  counters = λ r s s' e same bounded h. h;
  create = λ r cell fresh e h. h;
}

module _ (sh : Shared) (id t : ℕ) where
  abbrev KeepsDone : {A : Type 0} → M A → Type 0
  KeepsDone m = Keeps (λ r. IsDone id r) m

  grant_if-Done : (b : Bool) → KeepsDone (grant_if sh b)
  grant_if-Done true =
      Keeps-bind _ _
        (grant_roll-Keeps sh (accesses-IsLockClosed sh λ accesses. Settled (access_of id accesses))
          1)
        λ n. Keeps-pure _
  grant_if-Done false = Keeps-pure _

  finish-Done :
      (o : Option TeamBoardState) (a : TeamChallengeAccess) → KeepsDone (finish_completion sh o a t)
  unfolding finish_completion clear_active
  finish-Done none a = Keeps-pure _
  finish-Done (some s) a =
      Keeps-bind _ _ (Keeps-when _ _ (Keeps-modify_state _ λ r s e h. h)) λ _. grant_if-Done _

  -- The access is marked, unless it was.
  clearing :
      (a : TeamChallengeAccess)
      → Triple (λ r. access_of id r.accesses ≡ some a) (λ u r. IsDone id r) (clear_if_opened sh a)
  unfolding when clear_access
  clearing a = by_status (is_cleared a.status) refl
    where
      by_status :
          (b : Bool)
          → is_cleared a.status ≡ b
          → Triple
              (λ r. access_of id r.accesses ≡ some a)
              (λ u r. IsDone id r)
              (when (not b) (do t ← now sh; clear_access a.id t))
      by_status true e = record { at = λ r h. subst Settled (sym h) e }
      by_status false e = record { at = λ r h. mark.at r h }
        where
          mark :
              Triple
                (λ r. access_of id r.accesses ≡ some a)
                (λ u r. IsDone id r)
                (do t ← now sh; clear_access a.id t)
          mark =
              Triple-then _ _
                (now-Keeps sh (accesses-IsLockClosed sh λ accesses. access_of id accesses ≡ some a))
                λ u. Triple-last _ λ r h.
                  subst Settled
                    (sym (
                      first-update _ (λ b. b.id == a.id)
                        (λ b. record b { status = cleared; cleared_at = some u }) a r.accesses
                        (λ b. refl) (ground arith) h))
                    refl

  completing : Triple (λ r. Unit) (λ x r. IsDone id r) (complete_challenge_from_submission sh id t)
  unfolding complete_challenge_from_submission
  completing = Triple-gets _ _ λ o. by_access o
    where
      by_access :
          (o : Option TeamChallengeAccess)
          → Triple
              (λ r. Unit × (access_of id r.accesses ≡ o))
              (λ x r. IsDone id r)
              (complete_access sh o t)
      by_access none = Triple-pure _ λ r h. subst Settled (sym h.1) tt
      by_access (some a) =
          Triple-pre (λ r h. h.1)
            (Triple-then _ _ (Keeps-gets _)
              λ s. Triple-bind _ _ (clearing a) λ _. Triple-Keeps _ (finish-Done s a))

  finishing :
      (o : Option TeamBoardState) (a : TeamChallengeAccess)
      → is_cleared a.status ≡ true
      → Triple (λ r. Unit) (λ x r. x ≡ false) (finish_completion sh o a t)
  unfolding finish_completion
  finishing none a done = Triple-pure _ λ r h. refl
  finishing (some s) a done =
      let earned : earns_roll sh s a t ≡ false = rw done refl in
      Triple-then _ _ (Keeps-any _) λ _.
        subst (λ b. Triple (λ r. Unit) (λ x r. x ≡ false) (grant_if sh b)) (sym earned)
          (Triple-pure _ λ r h. refl)

  -- A second completion earns nothing.
  repeating :
      Triple (λ r. IsDone id r) (λ x r. x ≡ false) (complete_challenge_from_submission sh id t)
  unfolding complete_challenge_from_submission
  repeating = Triple-gets _ _ λ o. by_access o
    where
      by_access :
          (o : Option TeamChallengeAccess)
          → Triple
              (λ r. IsDone id r × (access_of id r.accesses ≡ o))
              (λ x r. x ≡ false)
              (complete_access sh o t)
      by_access none = Triple-pure _ λ r h. refl
      by_access (some a) =
          Triple-fact {K = is_cleared a.status ≡ true} (λ r h. subst Settled h.1 h.0)
            λ done.
              Triple-pre {P' = λ r. Unit} (λ r h. tt)
                (Triple-then _ _ (Keeps-any _)
                  λ s. Triple-then _ _ (Keeps-any _) λ _. finishing s a done)

-- After a completion of a challenge, a second one of the same challenge, whatever its time and
-- settings, earns no roll.
pub complete_once :
    (sh sh' : Shared) (id t t' : ℕ) (r : Rows) (x y : Bool × Rows)
    → complete_challenge_from_submission sh id t r ≡ ok x
    → complete_challenge_from_submission sh' id t' x.1 ≡ ok y
    → y.0 ≡ false
complete_once sh sh' id t t' r x y completed again =
    Triple-ok (repeating sh' id t') x.1 y again (Triple-ok (completing sh id t) r x completed tt)
