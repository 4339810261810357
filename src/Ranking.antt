-- ===== src/Ranking.antt =====
-- The rankings of apps/ranking/ranking.py. A score is a whole number of hundredths, a time a whole
-- number of microseconds; a name is a number, and an identifier is its place in the order of texts.
pub mod Order
pub mod Pages
pub mod Sources
pub mod Leaderboard
mod Tests
use msg_backend.Prelude.{
  ℕ, ◌+◌, zero, suc, Bool, true, false, Option, none, some, List, [], ◌∷◌, map,
}
use msg_backend.Prelude.Sort.{sort, lex, by_number, by_number_reversed}

-- What a team has in the competition, as the views collect it. An absent key is `none`.
pub record TeamData : Type 0 where
  pub team_id : ℕ
  pub team_name : ℕ
  pub jeopardy_score : ℕ
  pub koth_score : ℕ
  pub signature_score : Option ℕ
  pub line_score : Option ℕ
  pub mileage : ℕ
  pub jeopardy_solved_at : Option ℕ
  pub koth_solved_at : Option ℕ
  pub signature_solved_at : Option ℕ

pub record TeamRow : Type 0 where
  pub team_id : ℕ
  pub team_name : ℕ
  pub team_score : ℕ
  pub koth_score : ℕ
  pub signature_score : ℕ
  pub line_score : ℕ
  pub mileage : ℕ
  pub last_solved_at : Option ℕ

-- A row after `row["rank"]` is set.
pub record Ranked {ℓ} (A : Type ℓ) : Type ℓ where
  pub row : A
  pub rank : ℕ

-- `row.get(key, default)`, and a value `or` a default.
abbrev pub get_or : ℕ → Option ℕ → ℕ
get_or default none = default
get_or default (some a) = a

abbrev pub or_else : Option ℕ → Option ℕ → Option ℕ
or_else none b = b
or_else (some a) b = some a

unfoldable pub resolve_last_solved_at : Option ℕ → Option ℕ → Option ℕ → Option ℕ
resolve_last_solved_at jeopardy koth signature = or_else jeopardy (or_else koth signature)

unfoldable pub team_row : TeamData → TeamRow
team_row d = record {
  team_id = d.team_id;
  team_name = d.team_name;
  team_score = d.jeopardy_score + d.koth_score + get_or 0 d.signature_score + get_or 0 d.line_score;
  koth_score = d.koth_score;
  signature_score = get_or 0 d.signature_score;
  line_score = get_or 0 d.line_score;
  mileage = d.mileage;
  last_solved_at =
      resolve_last_solved_at d.jeopardy_solved_at d.koth_solved_at d.signature_solved_at;
}

-- The tuple that a row is sorted by. `score` stands for its negative, and so is compared the other
-- way round; `no_solve` is 1 where it is true.
pub record Key : Type 0 where
  pub score : ℕ
  pub no_solve : ℕ
  pub solved_at : ℕ
  pub id : ℕ

abbrev pub key_of : ℕ → Option ℕ → ℕ → Key
key_of score none id = record { score = score; no_solve = 1; solved_at = 0; id = id }
key_of score (some t) id = record { score = score; no_solve = 0; solved_at = t; id = id }

-- The order of the tuples.
unfoldable pub is_before : Key → Key → Bool
is_before =
    lex (by_number_reversed (λ k. k.score)) (
      lex (by_number (λ k. k.no_solve))
        (lex (by_number (λ k. k.solved_at)) (by_number (λ k. k.id))))

abbrev pub by_key {ℓ} : {A : Type ℓ} → (A → Key) → A → A → Bool
by_key key x y = is_before (key x) (key y)

unfoldable pub sort_key : TeamRow → Key
sort_key r = key_of r.team_score r.last_solved_at r.team_id

module _ {ℓ} {A : Type ℓ} where
  -- The loop that numbers the rows.
  abbrev pub number : ℕ → List A → List (Ranked A)
  number rank [] = []
  number rank (x ∷ xs) = record { row = x; rank = rank } ∷ number (suc rank) xs

  -- `rows[:n]`
  abbrev pub take : ℕ → List A → List A
  take zero xs = []
  take (suc n) [] = []
  take (suc n) (x ∷ xs) = x ∷ take n xs

  -- `rows[n:]`
  abbrev pub drop : ℕ → List A → List A
  drop zero xs = xs
  drop (suc n) [] = []
  drop (suc n) (x ∷ xs) = drop n xs

  abbrev pub top : Option ℕ → List A → List A
  top none xs = xs
  top (some n) xs = take n xs

unfoldable pub build_team_ranking : List TeamData → Option ℕ → List (Ranked TeamRow)
build_team_ranking team_data limit =
    number 1 (top limit (sort (by_key sort_key) (map team_row team_data)))

-- What a member has in the competition, as the view collects it; it is also the row of the ranking.
pub record MemberRow : Type 0 where
  pub user_id : ℕ
  pub nickname : ℕ
  pub team_id : ℕ
  pub team_name : ℕ
  pub user_score : ℕ
  pub solved_count : ℕ
  pub last_solved_at : Option ℕ

unfoldable pub member_sort_key : MemberRow → Key
member_sort_key r = key_of r.user_score r.last_solved_at r.user_id

unfoldable pub build_member_ranking : List MemberRow → List (Ranked MemberRow)
build_member_ranking member_data = number 1 (sort (by_key member_sort_key) member_data)
