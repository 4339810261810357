-- ===== src/Lib.antt =====
-- The board game of the MSG CTF backend: each team of the contest walks round a board of 36 cells
-- by rolls of two dice, consumes the cells where it lands, opens challenges, draws chance cards,
-- spins roulettes and flies from the airport. The rolls recharge with time, START and the roulette
-- pay mileage, and every operation is a transaction on the rows of one team.
--
-- Beside the board, a team scores in three kinds of challenges: Jeopardy challenges, the king of
-- the hill, whose score server is polled for each period of 15 minutes, and the signatures of the
-- clubs. The rankings and the leaderboard add the scores up. Writes that a client may send again
-- carry an idempotency key.
--
-- The parts, with the code that they model (all of apps/board/services.py unless another file is
-- named):
-- - Board.Model: the rows and enumerations of apps/board/models.py as records and data types.
--   `Rows` holds what one team owns, `Shared` the rows and settings that all teams share.
-- - Board.Monad: a transaction reads and writes `Rows` or raises one of the exceptions of
--   apps/board/exceptions.py. An error carries no rows, since transaction.atomic undoes the writes.
-- - Board.Recharge: _update_dice_recharge, _pause_recharge, grant_dice_roll, _consume_dice_roll and
--   is_board_completed. Its children Bounds, CatchUp and Frame have the properties of the clock.
-- - Board.Movement: _step and compute_movement, with the properties in Walk and Total.
-- - Board.Landing: board_state_for_update, apply_pending_dice_recharge, consume_cell,
--   grant_mileage, finalize_landing and the ban check of apps/common/bans.py; Arrivals says where a
--   team stands afterwards.
-- - Board.Dice: compute_blocked_reason, _assert_can_roll and roll_dice; Dice.Requests:
--   prepare_dice_roll_request, acknowledge_dice_roll_request and confirm_dice_roll. Status and
--   Replay have the properties.
-- - Board.Airport, Board.Roulette: move_team_via_airport and spin_roulette.
-- - Board.Cells, Board.Candidates: open_current_cell_challenge,
--   complete_challenge_from_submission, get_board_state_for_read and get_current_cell_candidates.
-- - Board.Cards: draw_chance_card, discard_chance_card and _card_usable_now; Cards.Effects: the
--   effect handlers and use_chance_card; Cards.Choice: confirm_chance_choice.
-- - Board.Keeps and Board.Triple: rules for invariants, and for pre- and postconditions, of
--   transactions.
-- - Board.Closed: the interface between single writes and whole operations. A predicate that is
--   kept by every single write (`IsClosed`) is kept by every operation; Board.Invariant fills the
--   interface with the invariant of the rows and with what lasts.
-- - Board.Tests: concrete rows, and the theorems at them.
--
-- - Ranking: apps/ranking/ranking.py, with its properties in Order; Ranking.Pages: the pagination
--   and the views' answers (apps/ranking/pagination.py, apps/ranking/views.py), with Places;
--   Ranking.Sources: the database aggregates of apps/ranking/views.py and get_team_total_score of
--   apps/challenge/services.py; Ranking.Leaderboard: the loop of apps/leaderboard/views.py;
--   Sources.Agreement says that the two agree.
-- - Koth: the check of ranks, the points of the places and the awards of apps/koth/services.py,
--   with the properties in Ranks, Points and Shares; Koth.Polling: the two transactions of
--   poll_challenge_period on the rows of apps/koth/models.py; Polling.Histories: the events of
--   overlapping polls in any order, and Polling.Answers where their results come from;
--   Polling.Once, Scores and Times have the properties; Results: the validation of the score
--   server's answer, with Distinct on its teams.
-- - Signature: signature_submit of apps/signature/views.py on the rows of
--   apps/signature/models.py. Branches splits a submission into its branches; Limit has the
--   histories of submissions and their invariant; Locks, Once and Score have the other properties.
-- - Idempotency: the decorator of apps/board/idempotency.py; Refinement is the ledger of executed
--   requests that a client may rely on, Simulation shows that the decorator refines it, and Lookup
--   how the cache and the records agree; Idempotency.Common: run_idempotent of
--   apps/common/idempotency.py.
-- - Challenges: the dynamic score of apps/ranking/scoring.py, and how apps/challenge/services.py
--   keeps the score of each team's row, over submissions (apps/challenge/views.py) and revoked
--   solves (apps/adminpanel/views.py); Cache has the property.
-- - Teams: the payment tokens and the page of the mileage history (apps/teams/views.py), and the
--   members that the administration removes; Payments: checkouts, refunds, adjustments, rewards and
--   revoked solves (apps/adminpanel/views.py, apps/challenge/views.py); Steps: the histories of
--   these operations as a relation of single writes; Once, Replaced and Ledger have the properties.
-- - Board.Lines: is_line_monopoly_completed; Lines.Complete: what its answer keeps to.
-- - Jeopardy: ChallengeSubmitView.post of apps/challenge/views.py on the rows of the board, the
--   scores of Challenges and the line monopolies of apps/ranking/services.py; Tables has its rows;
--   Completion is the cell of the board and the reward; Outcomes splits a submission into its
--   answers; Once and Consistency have the properties. A challenge without a difficulty has no
--   reward in the table, so its first solve on the board ends in a KeyError, which is the error of
--   its own branch.
-- - Instances: the journal of writes to instances (apps/instances/write_recovery.py), on the rows
--   of Tables (apps/instances/models.py); Creation: how the Scheduler's data becomes an instance
--   (apps/instances/services.py); Sending: the second transactions of creations and resets
--   (apps/instances/views.py); Requests: verified_request_result and the replay of a reset; Attempt
--   and Recovery: recover_write. Histories are sequences of requests, answers, recoveries
--   and deletions, which take the instances of a user, a team or a challenge along; Changes, Owned, Sent, Recovered, Concluded and Steps say what each of them does to the rows;
--   Lasting and Exclusive have the properties.
-- - Challenges.Tests, Ranking.Tests, Koth.Tests, Signature.Tests, Idempotency.Tests, Teams.Tests,
--   Jeopardy.Tests and Instances.Tests: concrete rows, and the theorems at them. The signatures and
--   the rankings share the tables of scores, and the polls keep what the leaderboard needs of the
--   rows of KothSolve.
--
-- How the code is rendered. A time is a whole number of microseconds, and `clock n` is what the
-- n-th call of timezone.now() gives. What `random` gives is an argument: the numbers of the dice,
-- the index that random.choice takes, the function that random.sample is. The locked `state`
-- object is the row `Rows.state`, so a write to the object is a write to the row. The draws are in
-- the table's order, the latest first, with the card's own row joined; a primary key is a fresh
-- number. A request key is its prefix and the spelling of an identifier; a value of a JSON body is
-- a Boolean, an integer, another value or absent. The walk's two lists have the latest cell first
-- while the loop runs and are reversed at its end. The inner loop of compute_movement has its own
-- guard, 36, which is the fuel. A request that Python runs under one lock is one transaction here;
-- the read before the lock in use_chance_card runs first, on the same rows. Requests of one team
-- are therefore served one after the other, which is what the lock on the state row gives;
-- requests of different teams share no row that is written.
--
-- A score is a whole number of its smallest unit, a name or another text a number, and an
-- identifier that is sorted is its place in the order of texts. timestamp() gives a float; here
-- times keep their order. list.sort is the stable insertion sort of Prelude.Sort. The square roots
-- of rank_points are floating-point numbers: what they give is an argument, with its properties as
-- the hypothesis IsCurve. The hash functions, the rendering of a body and the work behind an
-- idempotency key are arguments, and so is the decimal arithmetic of a dynamic score. Polls of one
-- period are sequences of single transactions in any order, with the answers of the score server and
-- changes to the teams and the settings between them; submissions of one team are served one after the other under the lock of its row; two
-- requests with one idempotency key meet at the unique constraint of the table.
--
-- The mileage of Teams and the amounts of its history are integers, since an adjustment may be
-- negative, and those of the board are natural numbers, since the board only adds. A payment reads
-- some rows before it locks them: `before` are any rows, so what a theorem says of a payment does
-- not depend on that read. `Result` of the prelude is the value or the error of such a call.
--
-- The Scheduler is outside: its answers are arguments, with what it may leave out or get wrong.
-- The operation that a request holds in memory has the row's own columns and any source, since a
-- recovery may have written another one. Within one step of the journal, timezone.now() gives one
-- time. An update that a unique constraint refuses leaves the rows as they were.
--
-- The board's operations roll all their writes back when they raise: where the code commits the
-- recharge or the new board state first and raises in the transaction after it, that first write
-- stays there, and is left to the next operation here. The revocations among the changes elsewhere of
-- the histories of Jeopardy change the scores only.
--
-- Not modelled: the board's views and summaries, the other administrative writes, the requests to
-- the score server and the reading of its JSON, the pages of signatures, of teams and of the king
-- of the hill, executable submissions and remote runs, of the instances everything but the journal
-- of writes (their addresses and times too), and the other
-- applications (accounts, timer). Django, the database, the Scheduler and `random` are outside
-- code. An interval of 0 between recharges, which the settings refuse, is excluded by a hypothesis
-- where the clock needs it.
pub mod Prelude
pub mod Board
pub mod Ranking
pub mod Koth
pub mod Signature
pub mod Idempotency
pub mod Challenges
pub mod Teams
pub mod Jeopardy
pub mod Instances
