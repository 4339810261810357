-- ===== src/Board/Invariant/Lasting.antt =====
-- What lasts through any history of requests: consumed cells, the mileage ledger, the single flight
-- and the single draw of each chance cell.
use msg_backend.Prelude.{
  ℕ, ◌+◌, ◌≡◌, refl, true, Option, none, some, List, [], ◌∷◌, contains, All, arith,
}
use msg_backend.Board.Model.{TeamRow, Shared, Rows, MileageHistory}
use msg_backend.Board.Landing.{add_mileage}
use msg_backend.Board.Closed.{IsClosed}
use msg_backend.Board.Invariant.Histories.{Request, serve, serve_closed}

everywhere :
    (P : Rows → Type 0)
    → ((sh : Shared) → IsClosed sh P (λ i. Unit))
    → (qs : List Request) → All (λ q. IsClosed q.shared P (λ i. Unit)) qs
everywhere P closed [] = tt
everywhere P closed (q ∷ qs) = (closed q.shared, everywhere P closed qs)

pub serve_lasting :
    (P : Rows → Type 0)
    → ((sh : Shared) → IsClosed sh P (λ i. Unit))
    → (qs : List Request) (r : Rows) → P r
    → P (serve r qs)
serve_lasting P closed qs r h = serve_closed P (λ i. Unit) qs r (everywhere P closed qs) h

-- A cell that was consumed.
abbrev IsConsumed : ℕ → Rows → Type 0
IsConsumed c r = contains c r.consumptions ≡ true

IsConsumed-IsClosed : (c : ℕ) (sh : Shared) → IsClosed sh (IsConsumed c) (λ i. Unit)
IsConsumed-IsClosed c sh = record {
  game = record {
    lock = record {
      clock = λ r h. h;
      counters = λ r s s' e same bounded h. h;
      create = λ r cell fresh e h. h;
    };
    stands = λ r s e h. tt;
    ids = λ r h. h;
    place = λ r s i cell passed e found h. h;
    consume = λ r i cell found new h. ground (arith, h);
    mileage = λ r amount type new h. h;
    log = λ r roll h. h;
    wait = λ r p cell from to h. h;
  };
  unwait = λ r h. h;
  requests = λ r qs h. h;
  candidates = λ r cs h. h;
  fly = λ r s e h. h;
  activate = λ r s a e h. h;
  add_draw = λ r d h. h;
  change_draw = λ r pk f same h. h;
  add_access = λ r a h. h;
  clear = λ r id t h. h;
}

-- A cell that was consumed stays consumed through any history of requests.
consumed_forever :
    (c : ℕ) (qs : List Request) (r : Rows)
    → contains c r.consumptions ≡ true
    → contains c (serve r qs).consumptions ≡ true
consumed_forever c qs r h = serve_lasting (IsConsumed c) (IsConsumed-IsClosed c) qs r h

abbrev pub sum_amounts : List MileageHistory → ℕ
sum_amounts [] = 0
sum_amounts (h ∷ hs) = h.amount + sum_amounts hs

-- The team's mileage is what it had, and the amounts of its history.
abbrev pub IsBalance : ℕ → List MileageHistory → Option TeamRow → Type 0
IsBalance base history none = Unit
IsBalance base history (some t) = t.mileage ≡ base + sum_amounts history

add-IsBalance :
    (base amount : ℕ) (h : MileageHistory) (hs : List MileageHistory) (o : Option TeamRow)
    → h.amount ≡ amount
    → IsBalance base hs o
    → IsBalance base (h ∷ hs) (add_mileage amount o)
add-IsBalance base amount h hs none e b = tt
add-IsBalance base amount h hs (some t) e b = omega (arith, e, b)

abbrev pub IsBalanced : ℕ → Rows → Type 0
IsBalanced base r = IsBalance base r.history r.team

pub IsBalanced-IsClosed : (base : ℕ) (sh : Shared) → IsClosed sh (IsBalanced base) (λ i. Unit)
IsBalanced-IsClosed base sh = record {
  game = record {
    lock = record {
      clock = λ r h. h;
      counters = λ r s s' e same bounded h. h;
      create = λ r cell fresh e h. h;
    };
    stands = λ r s e h. tt;
    ids = λ r h. h;
    place = λ r s i cell passed e found h. h;
    consume = λ r i cell found new h. h;
    mileage = λ r amount type new h.
        add-IsBalance base amount (record { type = type; amount = amount }) r.history r.team refl h;
    log = λ r roll h. h;
    wait = λ r p cell from to h. h;
  };
  unwait = λ r h. h;
  requests = λ r qs h. h;
  candidates = λ r cs h. h;
  fly = λ r s e h. h;
  activate = λ r s a e h. h;
  add_draw = λ r d h. h;
  change_draw = λ r pk f same h. h;
  add_access = λ r a h. h;
  clear = λ r id t h. h;
}

-- If the team's mileage is `base` and the sum of its history's amounts, it stays so through any
-- history of requests.
mileage_ledger :
    (base : ℕ) (qs : List Request) (r : Rows)
    → IsBalance base r.history r.team
    → IsBalance base (serve r qs).history (serve r qs).team
mileage_ledger base qs r h = serve_lasting (IsBalanced base) (IsBalanced-IsClosed base) qs r h
