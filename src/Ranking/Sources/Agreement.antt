-- ===== src/Ranking/Sources/Agreement.antt =====
-- The leaderboard's loop over the solves gives what the ranking's database aggregates give.
use msg_backend.Prelude.{
  ℕ, ◌+◌, max, min, ◌≡◌, refl, ap, ◌∙◌, inl, inr, Bool, true, not, Option, none, some, List, [],
  ◌∷◌, ◌++◌, map, ◌==◌, select, is_some, All, All-select, ◌||◌, Bool-cases, arith,
}
use msg_backend.Prelude.Sort.{sort, insert, by_number}
use msg_backend.Ranking.{get_or}
use msg_backend.Ranking.Sources.{
  Team, Solve, KothSolve, SignatureSolve, LineMonopoly, Tables, sum_of, max_of, min_of, times,
  solves_of, koth_of, signatures_of, lines_of, collect_team, collect_team_data,
}
use msg_backend.Ranking.Leaderboard.{
  SourceType, jeopardy, koth, signature, line, Event, event, koth_events, events_of,
  collect_solves_map, Totals, later, earlier, add_points, add_events, no_totals, data_of_totals,
  is_empty, build_team_data,
}

later_comm : (o : Option ℕ) (s t : ℕ) → later (later o s) t ≡ later (later o t) s
later_comm o s t = ground arith

earlier_comm : (o : Option ℕ) (s t : ℕ) → earlier (earlier o s) t ≡ earlier (earlier o t) s
earlier_comm o s t = ground arith

-- Two events may be added in either order.
add_points_comm :
    (a b : SourceType) (p q s t : ℕ) (x : Totals)
    → add_points a p s (add_points b q t x) ≡ add_points b q t (add_points a p s x)
unfolding add_points
add_points_comm jeopardy jeopardy p q s t x = ground (arith, later_comm x.jeopardy_at s t)
add_points_comm koth koth p q s t x = ground (arith, earlier_comm x.koth_at s t)
add_points_comm signature signature p q s t x = ground (arith, later_comm x.signature_at s t)
add_points_comm line line p q s t x = ground (arith, later_comm x.line_at s t)
add_points_comm _ _ p q s t x = refl

add_events-insert :
    (lt : Event → Event → Bool) (e : Event) (es : List Event) (x : Totals)
    → add_events x (insert lt e es) ≡ add_events x (e ∷ es)
add_events-insert lt e [] x = refl
add_events-insert lt e (f ∷ es) x =
    let ih = add_events-insert lt e es (add_points f.source_type f.points f.solved_at x) in
    elim (Bool-cases (lt f e)) [
      | inl c ↦ rw c (
          ih
          ∙ ap (λ y. add_events y es)
              (add_points_comm e.source_type f.source_type e.points f.points e.solved_at f.solved_at
                x))
      | inr c ↦ rw c refl
    ]

-- The order of a team's rows does not matter to its totals.
add_events-sort :
    (lt : Event → Event → Bool) (es : List Event) (x : Totals)
    → add_events x (sort lt es) ≡ add_events x es
add_events-sort lt [] x = refl
add_events-sort lt (e ∷ es) x =
    add_events-insert lt e (sort lt es) x
    ∙ add_events-sort lt es (add_points e.source_type e.points e.solved_at x)

add_events-append :
    (es fs : List Event) (x : Totals) → add_events x (es ++ fs) ≡ add_events (add_events x es) fs
add_events-append [] fs x = refl
add_events-append (e ∷ es) fs x =
    add_events-append es fs (add_points e.source_type e.points e.solved_at x)

-- What a maximum and a minimum are after more rows.
abbrev with_max : Option ℕ → Option ℕ → Option ℕ
with_max none m = m
with_max (some a) none = some a
with_max (some a) (some m) = some (max a m)

abbrev with_min : Option ℕ → Option ℕ → Option ℕ
with_min none m = m
with_min (some a) none = some a
with_min (some a) (some m) = some (min a m)

with_max-later :
    (o m : Option ℕ) (t : ℕ) → with_max (later o t) m ≡ with_max o (some (max t (get_or t m)))
with_max-later o m t = ground arith

with_min-earlier :
    (o m : Option ℕ) (t : ℕ) → with_min (earlier o t) m ≡ with_min o (some (min t (get_or t m)))
with_min-earlier o m t = ground arith

add_jeopardy :
    (rows : List Solve) (x : Totals)
    → add_events x
        (map (λ s. event jeopardy (some s.challenge_id) s.solved_at s.current_score) rows)
      ≡ record x {
        jeopardy_score = x.jeopardy_score + get_or 0 (sum_of (map (λ s. s.current_score) rows));
        jeopardy_at = with_max x.jeopardy_at (max_of (map (λ s. s.solved_at) rows));
      }
unfolding add_points
add_jeopardy [] x = ground arith
add_jeopardy (s ∷ rows) x = ground (
  arith,
  add_jeopardy rows (add_points jeopardy s.current_score s.solved_at x),
  with_max-later x.jeopardy_at (max_of (map (λ s. s.solved_at) rows)) s.solved_at,
)

add_signatures :
    (rows : List SignatureSolve) (x : Totals)
    → add_events x
        (map (λ s. event signature (some s.challenge_id) s.solved_at s.earned_score) rows)
      ≡ record x {
        signature_score = x.signature_score + get_or 0 (sum_of (map (λ s. s.earned_score) rows));
        signature_at = with_max x.signature_at (max_of (map (λ s. s.solved_at) rows));
      }
unfolding add_points
add_signatures [] x = ground arith
add_signatures (s ∷ rows) x = ground (
  arith,
  add_signatures rows (add_points signature s.earned_score s.solved_at x),
  with_max-later x.signature_at (max_of (map (λ s. s.solved_at) rows)) s.solved_at,
)

add_lines :
    (rows : List LineMonopoly) (x : Totals)
    → add_events x (map (λ l. event line none l.monopolized_at l.earned_score) rows) ≡ record x {
      line_score = x.line_score + get_or 0 (sum_of (map (λ l. l.earned_score) rows));
      line_at = with_max x.line_at (max_of (map (λ l. l.monopolized_at) rows));
    }
unfolding add_points
add_lines [] x = ground arith
add_lines (l ∷ rows) x = ground (
  arith,
  add_lines rows (add_points line l.earned_score l.monopolized_at x),
  with_max-later x.line_at (max_of (map (λ l. l.monopolized_at) rows)) l.monopolized_at,
)

-- A row of KothSolve that has no time has no score.
abbrev pub IsScored : KothSolve → Type 0
IsScored k = is_some k.solved_at || k.earned_score == 0 ≡ true

-- What the rows of KothSolve add to the totals.
abbrev with_koth : List KothSolve → Totals → Totals
with_koth rows x = record x {
  koth_score = x.koth_score + get_or 0 (sum_of (map (λ k. k.earned_score) rows));
  koth_at = with_min x.koth_at (min_of (times rows));
}

first_koth :
    (x : Totals) (points t sum : ℕ) (m : Option ℕ)
    → record x {
      koth_score = x.koth_score + points + sum;
      koth_at = with_min (earlier x.koth_at t) m;
    }
      ≡ record x {
        koth_score = x.koth_score + (points + sum);
        koth_at = with_min x.koth_at (some (min t (get_or t m)));
      }
first_koth x points t sum m = ground (arith, with_min-earlier x.koth_at m t)

add_koth_row :
    (k : KothSolve) (rows : List KothSolve) (x : Totals) (o : Option ℕ)
    → k.solved_at ≡ o
    → IsScored k
    → ((y : Totals) → add_events y (koth_events rows) ≡ with_koth rows y)
    → add_events x (koth_events (k ∷ rows)) ≡ with_koth (k ∷ rows) x
unfolding add_points
add_koth_row k rows x none e scored ih =
    let unscored : k.earned_score ≡ 0 = ground (arith, scored, e) in
    let sum = get_or 0 (sum_of (map (λ k. k.earned_score) rows)) in
    let added : sum ≡ 0 + sum = omega arith in
    rw e (
      rw unscored (
        ih x
        ∙ ap
            (λ n. record x {
              koth_score = x.koth_score + n;
              koth_at = with_min x.koth_at (min_of (times rows));
            })
            added))
add_koth_row k rows x (some t) e scored ih = rw e (
    ih (add_points koth k.earned_score t x) ∙ first_koth x k.earned_score t _ (min_of (times rows)))

add_koth :
    (rows : List KothSolve)
    → All IsScored rows
    → (x : Totals) → add_events x (koth_events rows) ≡ with_koth rows x
add_koth [] h x = ground arith
add_koth (k ∷ rows) h x = add_koth_row k rows x k.solved_at refl h.0 (add_koth rows h.1)

-- The totals of all rows of a team.
totals-of :
    (tables : Tables) (team : ℕ)
    → All IsScored tables.koth
    → add_events no_totals (collect_solves_map tables team) ≡ record no_totals {
      jeopardy_score = get_or 0 (sum_of (map (λ s. s.current_score) (solves_of tables team)));
      koth_score = get_or 0 (sum_of (map (λ k. k.earned_score) (koth_of tables team)));
      signature_score = get_or 0 (sum_of (map (λ s. s.earned_score) (signatures_of tables team)));
      line_score = get_or 0 (sum_of (map (λ l. l.earned_score) (lines_of tables team)));
      jeopardy_at = max_of (map (λ s. s.solved_at) (solves_of tables team));
      koth_at = min_of (times (koth_of tables team));
      signature_at = max_of (map (λ s. s.solved_at) (signatures_of tables team));
      line_at = max_of (map (λ l. l.monopolized_at) (lines_of tables team));
    }
unfolding collect_solves_map events_of
totals-of tables team h =
    let solves = solves_of tables team in
    let koths = koth_of tables team in
    let signatures = signatures_of tables team in
    let J = map (λ s. event jeopardy (some s.challenge_id) s.solved_at s.current_score) solves in
    let K = koth_events koths in
    let S =
      map (λ s. event signature (some s.challenge_id) s.solved_at s.earned_score) signatures in
    let L = map (λ l. event line none l.monopolized_at l.earned_score) (lines_of tables team) in
    add_events-sort (by_number (λ e. e.solved_at)) (J ++ K ++ S ++ L) no_totals
    ∙ add_events-append (J ++ K ++ S) L no_totals
    ∙ ap (λ y. add_events y L)
        (add_events-append (J ++ K) S no_totals
          ∙ ap (λ y. add_events y S)
              (add_events-append J K no_totals
                ∙ ap (λ y. add_events y K) (add_jeopardy solves no_totals)
                ∙ add_koth koths (All-select IsScored (λ k. k.team_id == team) tables.koth h) _)
          ∙ add_signatures signatures _)
    ∙ add_lines (lines_of tables team) _
    ∙ ground arith

-- Where every row of KothSolve without a time has no score, the leaderboard's loop gives, for the
-- teams that have a solve or a line, the data that the ranking's aggregates give for them.
pub build_team_data-eq :
    (tables : Tables) (teams : List Team)
    → All IsScored tables.koth
    → build_team_data teams (collect_solves_map tables)
      ≡ collect_team_data tables
          (select (λ t. not (is_empty (collect_solves_map tables t.team_id))) teams)
unfolding build_team_data collect_team_data data_of_totals collect_team
build_team_data-eq tables [] h = refl
build_team_data-eq tables (team ∷ teams) h =
    let ih = build_team_data-eq tables teams h in
    elim (Bool-cases (is_empty (collect_solves_map tables team.team_id))) [
      | inl e ↦ rw e ih
      | inr e ↦ rw e (
          ap (λ x. data_of_totals team x ∷ build_team_data teams (collect_solves_map tables))
            (totals-of tables team.team_id h)
          ∙ ap (◌∷◌ (collect_team tables team)) ih)
    ]
