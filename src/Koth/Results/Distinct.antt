-- ===== src/Koth/Results/Distinct.antt =====
-- The rows of a validated answer: which ranks and teams they can have.
use msg_backend.Prelude.{
  ◌≤◌, ℕ, ◌≡◌, refl, sym, ap, subst, inl, inr, Bool, true, false, not, Option, none, some, List, [],
  ◌∷◌, map, ◌==◌, first, select, contains, IsDistinct, Bool-cases, arith, All, first-All,
}
use msg_backend.Koth.{Team, PeriodResult, validate_rank_sequence}
use msg_backend.Koth.Results.{
  challenge_mismatch, period_mismatch, not_a_list, invalid_row, invalid_ranks, unknown_team,
  Fetched, raised, fetched, ◌>>=◌, raise_unless, or_raise, Fields, RawRow, other, unreadable,
  fields, Payload, Parsed, Anchor, provider_period, parse_fields, parse_rows, with_teams,
  results_of, validated_results,
}

answer : {A : Type 0} → A → Fetched A → A
answer a (raised e) = a
answer a (fetched b) = b

fetched-injective : {A : Type 0} (a b : A) → fetched a ≡ fetched b → a ≡ b
unfolding answer
fetched-injective a b e = ap (answer a) e

-- Rows with ranks of at least 1, of teams that are neither among the teams seen nor repeated.
abbrev pub IsFresh : List ℕ → List Parsed → Type 0
IsFresh seen [] = Unit
IsFresh seen (p ∷ ps) =
    (1 ≤ p.rank) × (contains p.team_id seen ≡ false) × IsFresh (p.team_id ∷ seen) ps

-- A row that parses has a rank of at least 1, and its team is the one of its fields and not seen.
parse_fields-some :
    (seen : List ℕ) (f : Fields) (p : Parsed)
    → parse_fields seen f ≡ some p
    → (1 ≤ p.rank) × (contains p.team_id seen ≡ false) × (p.team_id ≡ f.team_id)
parse_fields-some seen f p e = ground (arith, e)

step-IsFresh :
    (seen : List ℕ) (f : Fields) (o : Option Parsed) (rest : Fetched (List Parsed))
    (ps : List Parsed)
    → ((p : Parsed)
        → o ≡ some p
        → (1 ≤ p.rank) × (contains p.team_id seen ≡ false) × (p.team_id ≡ f.team_id))
    → ((qs : List Parsed) → rest ≡ fetched qs → IsFresh (f.team_id ∷ seen) qs)
    → (or_raise o invalid_row >>= λ p. rest >>= λ qs. fetched (p ∷ qs)) ≡ fetched ps
    → IsFresh seen ps
step-IsFresh seen f none rest ps row ih e = ground (arith, e)
step-IsFresh seen f (some p) (raised x) ps row ih e = ground (arith, e)
step-IsFresh seen f (some p) (fetched qs) ps row ih e =
    let (rank, new, same) = row p refl in
    subst (IsFresh seen) (fetched-injective (p ∷ qs) ps e)
      (rank, new, subst (λ i. IsFresh (i ∷ seen) qs) (sym same) (ih qs refl))

-- The rows that parse_rows gives have ranks of at least 1 and distinct teams.
parse_rows-IsFresh :
    (seen : List ℕ) (rows : List RawRow) (ps : List Parsed)
    → parse_rows seen rows ≡ fetched ps
    → IsFresh seen ps
parse_rows-IsFresh seen [] ps e = subst (IsFresh seen) (fetched-injective [] ps e) tt
parse_rows-IsFresh seen (other ∷ rows) ps e = ground (arith, e)
parse_rows-IsFresh seen (unreadable ∷ rows) ps e = ground (arith, e)
parse_rows-IsFresh seen (fields f ∷ rows) ps e =
    step-IsFresh seen f (parse_fields seen f) (parse_rows (f.team_id ∷ seen) rows) ps
      (parse_fields-some seen f) (parse_rows-IsFresh (f.team_id ∷ seen) rows) e

team_ids : (Parsed → Bool) → List Parsed → List ℕ
team_ids keep ps = map (λ p. p.team_id) (select keep ps)

seen_excluded :
    (keep : Parsed → Bool) (seen : List ℕ) (ps : List Parsed) (i : ℕ)
    → IsFresh seen ps
    → contains i seen ≡ true
    → contains i (team_ids keep ps) ≡ false
unfolding team_ids
seen_excluded keep seen [] i fresh e = refl
seen_excluded keep seen (p ∷ ps) i fresh e =
    let (rank, new, rest) = fresh in
    let h = seen_excluded keep (p.team_id ∷ seen) ps i rest (ground (arith, e)) in
    ground (arith, h, new, e)

IsFresh-IsDistinct :
    (keep : Parsed → Bool) (seen : List ℕ) (ps : List Parsed)
    → IsFresh seen ps
    → IsDistinct (team_ids keep ps)
unfolding team_ids
IsFresh-IsDistinct keep seen [] fresh = tt
IsFresh-IsDistinct keep seen (p ∷ ps) fresh =
    let (rank, new, later) = fresh in
    let rest = IsFresh-IsDistinct keep (p.team_id ∷ seen) ps later in
    let apart = seen_excluded keep (p.team_id ∷ seen) ps p.team_id later (ground arith) in
    elim (Bool-cases (keep p)) [ inl e ↦ rw e (apart, rest) | inr e ↦ rw e rest ]

results_ids : List PeriodResult → List ℕ
results_ids results = map (λ r. r.team.team_id) results

step_ids :
    (p : Parsed) (ids : List ℕ) (o : Option Team) (rest : Fetched (List PeriodResult))
    (results : List PeriodResult)
    → ((t : Team) → o ≡ some t → t.team_id ≡ p.team_id)
    → ((qs : List PeriodResult) → rest ≡ fetched qs → results_ids qs ≡ ids)
    → (or_raise o unknown_team >>= λ t.
        rest >>= λ qs. fetched (record { team = t; rank = p.rank; metric = p.metric } ∷ qs))
      ≡ fetched results
    → results_ids results ≡ p.team_id ∷ ids
unfolding results_ids
step_ids p ids none rest results found ih e = ground (arith, e)
step_ids p ids (some t) (raised x) results found ih e = ground (arith, e)
step_ids p ids (some t) (fetched qs) results found ih e =
    rw
      (sym
        (fetched-injective (record { team = t; rank = p.rank; metric = p.metric } ∷ qs) results e))
      (rw (found t refl) (rw (ih qs refl) refl))

everywhere : (teams : List Team) → All (λ _. Unit {0}) teams
everywhere [] = tt
everywhere (t ∷ teams) = (tt, everywhere teams)

first_team :
    (i : ℕ) (teams : List Team) (t : Team)
    → first (λ t. t.team_id == i) teams ≡ some t
    → t.team_id ≡ i
first_team i teams t e =
    ground (arith, (first-All (λ _. Unit {0}) (λ t. t.team_id == i) teams t (everywhere teams) e).1)

with_teams_ids :
    (teams : List Team) (ps : List Parsed) (results : List PeriodResult)
    → with_teams teams ps ≡ fetched results
    → results_ids results ≡ map (λ p. p.team_id) ps
unfolding results_ids
with_teams_ids teams [] results e = rw (sym (fetched-injective [] results e)) refl
with_teams_ids teams (p ∷ ps) results e =
    step_ids p (map (λ p. p.team_id) ps) (first (λ t. t.team_id == p.team_id) teams)
      (with_teams teams ps) results (first_team p.team_id teams) (with_teams_ids teams ps) e

bound :
    {A B : Type 0} (m : Fetched A) (f : A → Fetched B) (b : B)
    → (m >>= f) ≡ fetched b
    → (a : A) × (m ≡ fetched a) × (f a ≡ fetched b)
bound (raised x) f b e = ground (arith, e)
bound (fetched a) f b e = (a, refl, e)

-- Distinct teams, and none of the preview.
abbrev pub IsPublic : List ℕ → List ℕ → Type 0
IsPublic preview_ids ids = IsDistinct ids × All (λ i. contains i preview_ids ≡ false) ids

preview_excluded :
    (preview_ids : List ℕ) (ps : List Parsed)
    → All
        (λ i. contains i preview_ids ≡ false)
        (team_ids (λ p. not (contains p.team_id preview_ids)) ps)
unfolding team_ids
preview_excluded preview_ids [] = tt
preview_excluded preview_ids (p ∷ ps) =
    let rest = preview_excluded preview_ids ps in
    elim (Bool-cases (contains p.team_id preview_ids)) [
      | inl y ↦ rw y rest
      | inr n ↦ rw n (n, rest)
    ]

results_of-IsPublic :
    (teams : List Team) (preview_ids : List ℕ) (rows : List RawRow) (results : List PeriodResult)
    → results_of teams preview_ids rows ≡ fetched results
    → IsPublic preview_ids (results_ids results)
unfolding team_ids
results_of-IsPublic teams preview_ids rows results e =
    let keep : Parsed → Bool = λ p. not (contains p.team_id preview_ids) in
    let (parsed, rows_parsed, e1) = bound (parse_rows [] rows) _ results e in
    let (_, _, e2) =
      bound (raise_unless (validate_rank_sequence (map (λ p. p.rank) parsed)) invalid_ranks) _
        results e1 in
    rw (with_teams_ids teams (select keep parsed) results e2) (
      IsFresh-IsDistinct keep [] parsed (parse_rows-IsFresh [] rows parsed rows_parsed),
      preview_excluded preview_ids parsed,
    )

-- Where an answer passes the validation, its results are of distinct teams, and none is of a team of
-- the preview.
pub validated_results-IsPublic :
    (challenge : ℕ) (anchor : Anchor) (period : ℕ) (teams : List Team) (preview_ids : List ℕ)
    (payload : Option Payload) (results : List PeriodResult)
    → validated_results challenge anchor period teams preview_ids payload ≡ fetched results
    → IsPublic preview_ids (map (λ r. r.team.team_id) results)
unfolding validated_results results_ids team_ids
validated_results-IsPublic challenge anchor period teams preview_ids none results e =
    subst (λ rs. IsPublic preview_ids (results_ids rs)) (fetched-injective [] results e) (tt, tt)
validated_results-IsPublic challenge anchor period teams preview_ids (some d) results e =
    let (_, _, e1) =
      bound (raise_unless (d.koth_challenge_id == challenge) challenge_mismatch) _ results e in
    let (answered, _, e2) = bound (or_raise d.period_id period_mismatch) _ results e1 in
    let (expected, _, e3) = bound (provider_period anchor period) _ results e2 in
    let (_, _, e4) = bound (raise_unless (answered == expected) period_mismatch) _ results e3 in
    let (rows, _, e5) = bound (or_raise d.results not_a_list) _ results e4 in
    results_of-IsPublic teams preview_ids rows results e5
