-- ===== src/Ranking/Pages.antt =====
-- The pages of apps/ranking/pagination.py and the answers of apps/ranking/views.py. The data that
-- the views collect is an argument; what they answer is before it is formatted as JSON, and
-- without the scores of the categories.
pub mod Places
use msg_backend.Prelude.{
  ℕ, zero, suc, ◌+◌, ◌-◌, ◌*◌, Option, none, some, List, if◌then◌else◌, ltb, ◌==◌, length, first,
}
use msg_backend.Prelude.Int.{ℤ, pos, negsuc}
use msg_backend.Ranking.{
  TeamData, TeamRow, Ranked, take, drop, build_team_ranking, MemberRow, build_member_ranking,
}

abbrev pub default_page : ℕ
default_page = 1

abbrev pub default_size : ℕ
default_size = 20

abbrev pub max_size : ℕ
max_size = 100

abbrev pub max_page : ℕ
max_page = 10000

-- `int(param)`, where it does not raise, or the default, which also stands for what is below 1.
abbrev pub int_or : ℕ → Option ℤ → ℕ
int_or default none = default
int_or default (some (pos n)) = if ltb n 1 then default else n
int_or default (some (negsuc n)) = default

abbrev pub at_most : ℕ → ℕ → ℕ
at_most limit n = if ltb limit n then limit else n

unfoldable pub parse_pagination : Option ℤ → Option ℤ → ℕ × ℕ
parse_pagination page_param size_param = (
  at_most max_page (int_or default_page page_param),
  at_most max_size (int_or default_size size_param),
)

pub record RankingPage : Type 0 where
  pub rankings : List (Ranked TeamRow)
  pub total_count : ℕ
  pub page : ℕ
  pub size : ℕ

-- `rankings[start:end]`
abbrev pub slice {ℓ} : {A : Type ℓ} → ℕ → ℕ → List A → List A
slice start end xs = take (end - start) (drop start xs)

unfoldable pub team_ranking : List TeamData → Option ℤ → Option ℤ → RankingPage
team_ranking team_data page_param size_param =
    let (page, size) = parse_pagination page_param size_param in
    let rankings = build_team_ranking team_data none in
    let start = (page - 1) * size in
    record {
      rankings = slice start (start + size) rankings;
      total_count = length rankings;
      page = page;
      size = size;
    }

-- What a view of one's own row answers: it raises UserHasNoTeam, or it answers a row or null.
pub data Own {ℓ} (A : Type ℓ) : Type ℓ where
  user_has_no_team : Own A
  answer : Option A → Own A

unfoldable pub my_team_ranking : Option ℕ → List TeamData → Own (Ranked TeamRow)
my_team_ranking none team_data = user_has_no_team
my_team_ranking (some my_team_id) team_data =
    answer (first (λ r. r.row.team_id == my_team_id) (build_team_ranking team_data none))

unfoldable pub member_ranking : Option ℕ → ℕ → List MemberRow → Own (Ranked MemberRow)
member_ranking none my_user_id member_data = user_has_no_team
member_ranking (some team_id) my_user_id member_data =
    answer (first (λ r. r.row.user_id == my_user_id) (build_member_ranking member_data))
