-- ===== src/Koth/Results.antt =====
-- The validation of a score server's answer: _validated_results and _provider_period of
-- apps/koth/services.py, after the JSON is read. What uuid.UUID, int, Decimal and parse_period give
-- is in the rows, `none` where they raise. A time is a whole number of minutes.
use msg_backend.Prelude.{
  ◌≤◌, ℕ, zero, suc, ◌+◌, ◌≡◌, refl, sym, ap, ◌∙◌, subst, inl, inr, Bool, true, false, not, ◌&&◌,
  ◌||◌, Option, none, some, List, [], ◌∷◌, map, if◌then◌else◌, ◌==◌, first, select, contains,
  IsDistinct, Bool-cases, arith, All, first-All,
}
use msg_backend.Prelude.Int.{ℤ, pos, negsuc}
use msg_backend.Koth.{Team, PeriodResult, validate_rank_sequence}
pub mod Distinct

pub data ScoreFetchError : Type 0 where
  challenge_mismatch : ScoreFetchError
  period_mismatch : ScoreFetchError
  not_a_list : ScoreFetchError
  not_an_object : ScoreFetchError
  invalid_fields : ScoreFetchError
  invalid_row : ScoreFetchError
  invalid_ranks : ScoreFetchError
  unknown_team : ScoreFetchError
  unknown_anchor : ScoreFetchError

pub data Fetched {ℓ} (A : Type ℓ) : Type ℓ where
  raised : ScoreFetchError → Fetched A
  fetched : A → Fetched A

infixl 4 ◌>>=◌ ◌>>◌
abbrev pub ◌>>=◌ {ℓ κ} : {A : Type ℓ} {B : Type κ} → Fetched A → (A → Fetched B) → Fetched B
raised e >>= f = raised e
fetched a >>= f = f a

abbrev pub ◌>>◌ {ℓ κ} : {A : Type ℓ} {B : Type κ} → Fetched A → Fetched B → Fetched B
m >> n = m >>= λ _. n

abbrev pub raise_unless : Bool → ScoreFetchError → Fetched (Unit {0})
raise_unless true e = fetched tt
raise_unless false e = raised e

abbrev pub or_raise {ℓ} : {A : Type ℓ} → Option A → ScoreFetchError → Fetched A
or_raise none e = raised e
or_raise (some a) e = fetched a

-- A decimal that is not finite is `none`.
pub record Fields : Type 0 where
  pub team_id : ℕ
  pub period_rank : ℤ
  pub metric_score : Option ℤ

-- A row that is not an object, one whose fields do not parse, or one with its fields.
pub data RawRow : Type 0 where
  other : RawRow
  unreadable : RawRow
  fields : Fields → RawRow

pub record Payload : Type 0 where
  pub koth_challenge_id : ℕ
  pub period_id : Option ℕ
  pub results : Option (List RawRow)

pub record Parsed : Type 0 where
  pub team_id : ℕ
  pub rank : ℕ
  pub metric : ℤ

pub data Anchor : Type 0 where
  start : Anchor
  end_of_period : Anchor
  unknown : Anchor

abbrev pub provider_period : Anchor → ℕ → Fetched ℕ
provider_period start period = fetched period
provider_period end_of_period period = fetched (period + 15)
provider_period unknown period = raised unknown_anchor

abbrev pub fields_of : RawRow → Fetched Fields
fields_of other = raised not_an_object
fields_of unreadable = raised invalid_fields
fields_of (fields f) = fetched f

-- A rank of at least 1.
abbrev pub positive_rank : ℤ → Option ℕ
positive_rank (pos zero) = none
positive_rank (pos (suc n)) = some (suc n)
positive_rank (negsuc n) = none

-- `if rank < 1 or not metric.is_finite() or team_id in seen_teams`
abbrev pub parse_fields : List ℕ → Fields → Option Parsed
parse_fields seen f = elim (positive_rank f.period_rank) [
  | none ↦ none
  | some rank ↦ elim f.metric_score [
    | none ↦ none
    | some metric ↦
        if contains f.team_id seen
        then none
        else some (record { team_id = f.team_id; rank = rank; metric = metric })
  ]
]

abbrev pub parse_rows : List ℕ → List RawRow → Fetched (List Parsed)
parse_rows seen [] = fetched []
parse_rows seen (row ∷ rows) = do
  f ← fields_of row
  p ← or_raise (parse_fields seen f) invalid_row
  rest ← parse_rows (f.team_id ∷ seen) rows
  fetched (p ∷ rest)

-- The teams of the rows; an identifier that is not there is an error.
abbrev pub with_teams : List Team → List Parsed → Fetched (List PeriodResult)
with_teams teams [] = fetched []
with_teams teams (p ∷ parsed) = do
  t ← or_raise (first (λ t. t.team_id == p.team_id) teams) unknown_team
  rest ← with_teams teams parsed
  fetched (record { team = t; rank = p.rank; metric = p.metric } ∷ rest)

abbrev pub results_of : List Team → List ℕ → List RawRow → Fetched (List PeriodResult)
results_of teams preview_ids rows = do
  parsed ← parse_rows [] rows
  raise_unless (validate_rank_sequence (map (λ p. p.rank) parsed)) invalid_ranks
  with_teams teams (select (λ p. not (contains p.team_id preview_ids)) parsed)

unfoldable pub validated_results :
    (challenge : ℕ) (anchor : Anchor) (period : ℕ) (teams : List Team) (preview_ids : List ℕ)
    → Option Payload
    → Fetched (List PeriodResult)
validated_results challenge anchor period teams preview_ids none = fetched []
validated_results challenge anchor period teams preview_ids (some d) = do
  raise_unless (d.koth_challenge_id == challenge) challenge_mismatch
  answered ← or_raise d.period_id period_mismatch
  expected ← provider_period anchor period
  raise_unless (answered == expected) period_mismatch
  results ← or_raise d.results not_a_list
  results_of teams preview_ids results
