-- ===== src/Board/Cells.antt =====
-- The challenge cells of apps/board/services.py: the candidates of a cell, the choice of one, and
-- its completion by a submission.
pub mod Once
use msg_backend.Prelude.{
  ℕ, ◌+◌, ◌*◌, Bool, true, false, Option, none, some, List, ◌∷◌, ◌==◌, leb, ltb, not, ◌&&◌, first,
  exists, is_some, update,
}
use msg_backend.Board.Model.{
  AccessStatus, opened, cleared, CandidateStatus, offered, selected, Challenge, TeamBoardState,
  TeamChallengeAccess, TeamCellCandidate, Shared,
}
use msg_backend.Board.Monad.{
  Error, M, pure, or_raise, gets, ◌>>=◌, ◌>>◌, modify, raise_if, when, get_state, modify_state,
  fresh_id,
}
use msg_backend.Board.Recharge.{second}
use msg_backend.Board.Landing.{
  is_challenge_cell, has_access_at, get_cell, board_state_for_update, lock_active_team, now,
  grant_roll,
}

abbrev pub is_cleared : AccessStatus → Bool
is_cleared cleared = true
is_cleared opened = false

abbrev pub is_offered : CandidateStatus → Bool
is_offered offered = true
is_offered selected = false

unfoldable pub challenge_solve_deadline : Shared → TeamChallengeAccess → ℕ
challenge_solve_deadline sh access = access.opened_at + sh.solve_limit_seconds * second

-- The candidate that a team may choose: offered to it on this cell, and published.
abbrev pub is_published_in : List Challenge → ℕ → Bool
is_published_in challenges id = exists (λ c. c.challenge_id == id && c.is_published) challenges

abbrev pub is_choice : Shared → ℕ → ℕ → TeamCellCandidate → Bool
is_choice sh cell challenge_id c =
    c.cell == cell
    && c.challenge_id == challenge_id
    && is_offered c.status
    && is_published_in sh.challenges c.challenge_id

unfoldable pub select_candidate : ℕ → ℕ → ℕ → M (Unit {0})
select_candidate cell challenge_id t = modify λ r. record r {
  candidates =
      update (λ c. c.cell == cell && c.challenge_id == challenge_id)
        (λ c. record c { status = selected; selected_at = some t }) r.candidates;
}

-- The access of a challenge is marked as cleared at `t`.
unfoldable pub clear_access : ℕ → ℕ → M (Unit {0})
clear_access id t = modify λ r. record r {
  accesses =
      update (λ a. a.id == id) (λ a. record a { status = cleared; cleared_at = some t }) r.accesses;
}

abbrev pub is_active : Option ℕ → ℕ → Bool
is_active none id = false
is_active (some active) id = active == id

unfoldable pub clear_active : M (Unit {0})
clear_active = modify_state (λ s. record s { active_challenge_access = none })

module _ (sh : Shared) where
  -- `TeamChallengeAccess.objects.get_or_create(team=team, challenge=...)`; a new row's `opened_at` is
  -- the time of its creation.
  abbrev pub get_or_create_access : ℕ → ℕ → Option TeamChallengeAccess → M TeamChallengeAccess
  get_or_create_access challenge_id cell (some a) = pure a
  get_or_create_access challenge_id cell none = do
    id ← fresh_id
    t ← now sh
    let a : TeamChallengeAccess = record {
      id = id;
      challenge_id = challenge_id;
      source_cell = cell;
      status = opened;
      opened_at = t;
      cleared_at = none;
    }
    modify (λ r. record r { accesses = a ∷ r.accesses })
    pure a

  -- `none` stands for a request without a challenge.
  unfoldable pub open_current_cell_challenge : Option ℕ → M (TeamChallengeAccess × ℕ)
  open_current_cell_challenge requested = do
    challenge_id ← or_raise requested Error.challenge_id_required
    board_state_for_update sh false
    lock_active_team
    raise_if (← gets (λ r. is_some r.pending)) Error.pending_roll_unresolved
    s ← get_state
    cell ← get_cell sh s.position
    raise_if (not (is_challenge_cell cell.type)) Error.not_challenge_cell
    raise_if (← gets (has_access_at cell.cell_index)) Error.cell_already_opened
    candidate ←
        or_raise (← gets (λ r. first (is_choice sh cell.cell_index challenge_id) r.candidates))
          Error.challenge_not_candidate
    access ←
        get_or_create_access candidate.challenge_id cell.cell_index
          (← gets λ r. first (λ a. a.challenge_id == candidate.challenge_id) r.accesses)
    selected_at ← now sh
    select_candidate cell.cell_index candidate.challenge_id selected_at
    modify_state (λ s. record s { active_challenge_access = some access.id })
    pure (access, challenge_solve_deadline sh access)

  -- Whether a correct submission at `submitted_at` earns a roll.
  abbrev pub earns_roll : TeamBoardState → TeamChallengeAccess → ℕ → Bool
  earns_roll s access submitted_at =
      not (is_cleared access.status)
      && s.position == access.source_cell
      && is_active s.active_challenge_access access.id
      && leb submitted_at (challenge_solve_deadline sh access)

  abbrev pub clear_if_opened : TeamChallengeAccess → M (Unit {0})
  clear_if_opened access =
      when (not (is_cleared access.status)) (do t ← now sh; clear_access access.id t)

  abbrev pub grant_if : Bool → M Bool
  grant_if true = do pure (ltb 0 (← grant_roll sh 1))
  grant_if false = pure false

  -- The end of a completion, with the state row that was read before the access was cleared.
  unfoldable pub finish_completion : Option TeamBoardState → TeamChallengeAccess → ℕ → M Bool
  finish_completion none access submitted_at = pure false
  finish_completion (some s) access submitted_at = do
    when (is_active s.active_challenge_access access.id) clear_active
    grant_if (earns_roll s access submitted_at)

  abbrev pub complete_access : Option TeamChallengeAccess → ℕ → M Bool
  complete_access none submitted_at = pure false
  complete_access (some access) submitted_at = do
    s ← gets (λ r. r.state)
    clear_if_opened access
    finish_completion s access submitted_at

  unfoldable pub complete_challenge_from_submission : ℕ → ℕ → M Bool
  complete_challenge_from_submission challenge_id submitted_at = do
    access ← gets λ r. first (λ a. a.challenge_id == challenge_id) r.accesses
    complete_access access submitted_at
