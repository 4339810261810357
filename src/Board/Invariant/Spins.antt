-- ===== src/Board/Invariant/Spins.antt =====
-- A team is paid once for each roulette cell.
use msg_backend.Prelude.{ℕ, ◌≡◌, ◌∙◌, refl, List, [], ◌∷◌, contains, exists, IsDistinct, arith}
use msg_backend.Board.Model.{
  Shared, Rows, MileageHistory, MileageType, roulette_reward, start_bonus, other_mileage,
}
use msg_backend.Board.Roulette.{is_spin_at}
use msg_backend.Board.Closed.{IsClosed, IsNewReward}
use msg_backend.Board.Invariant.Histories.{Request, serve}
use msg_backend.Board.Invariant.Lasting.{serve_lasting}

-- The roulette cells that the history names.
abbrev pub spun_cells : List MileageHistory → List ℕ
spun_cells [] = []
spun_cells (h ∷ hs) = elim h.type [ roulette_reward c ↦ c ∷ spun_cells hs | _ ↦ spun_cells hs ]

contains-spun_cells :
    (c : ℕ) (hs : List MileageHistory)
    → contains c (spun_cells hs) ≡ exists (λ h. is_spin_at c h.type) hs
contains-spun_cells c [] = refl
contains-spun_cells c (h ∷ hs) = ground (arith, contains-spun_cells c hs)

rewarded :
    (amount : ℕ) (type : MileageType) (hs : List MileageHistory)
    → IsNewReward type hs
    → IsDistinct (spun_cells hs)
    → IsDistinct (spun_cells (record { type = type; amount = amount } ∷ hs))
rewarded amount start_bonus hs new h = h
rewarded amount other_mileage hs new h = h
rewarded amount (roulette_reward c) hs new h = (contains-spun_cells c hs ∙ new, h)

abbrev IsSpunOnce : Rows → Type 0
IsSpunOnce r = IsDistinct (spun_cells r.history)

IsSpunOnce-IsClosed : (sh : Shared) → IsClosed sh IsSpunOnce (λ i. Unit)
IsSpunOnce-IsClosed sh = record {
  game = record {
    lock = record {
      clock = λ r h. h;
      counters = λ r s s' e same bounded h. h;
      create = λ r cell fresh e h. h;
    };
    stands = λ r s e h. tt;
    ids = λ r h. h;
    place = λ r s i cell passed e found h. h;
    consume = λ r i cell found new h. h;
    mileage = λ r amount type new h. rewarded amount type r.history new h;
    log = λ r roll h. h;
    wait = λ r p cell from to h. h;
  };
  unwait = λ r h. h;
  requests = λ r qs h. h;
  candidates = λ r cs h. h;
  fly = λ r s e h. h;
  activate = λ r s a e h. h;
  add_draw = λ r d h. h;
  change_draw = λ r pk f same h. h;
  add_access = λ r a h. h;
  clear = λ r id t h. h;
}

-- If the roulette rewards of the history are for distinct cells, they are so after any history of
-- requests: a team is paid at most once for each roulette cell.
pub roulette_once :
    (qs : List Request) (r : Rows)
    → IsDistinct (spun_cells r.history)
    → IsDistinct (spun_cells (serve r qs).history)
roulette_once qs r h = serve_lasting IsSpunOnce IsSpunOnce-IsClosed qs r h
