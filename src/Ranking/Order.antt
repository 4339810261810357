-- ===== src/Ranking/Order.antt =====
-- The order of the rankings: who stands where, and that only the data decides it.
use msg_backend.Prelude.{
  ℕ, zero, suc, ◌≡◌, ◌≢◌, ◌⊎◌, inl, inr, refl, sym, ap, ◌∙◌, Bool, true, Option, none, some, List,
  [], ◌∷◌, map, arith, Bool-cases,
}
use mathlib.Core.List.{Perm}
use mathlib.Core.List.Perm
use msg_backend.Prelude.Sort.{
  StrictOrder, sort, insert, IsSorted, sort-IsSorted, insert_comm, lex-StrictOrder,
  by_number-StrictOrder, by_number_reversed-StrictOrder,
}
use msg_backend.Ranking.{
  TeamData, Ranked, Key, key_of, team_row, is_before, by_key, sort_key, number, take, top,
  build_team_ranking, MemberRow, member_sort_key, build_member_ranking,
}

is_before-StrictOrder : StrictOrder is_before
unfolding is_before
is_before-StrictOrder = lex-StrictOrder _ _ (by_number_reversed-StrictOrder (λ k. k.score)) (
    lex-StrictOrder _ _ (by_number-StrictOrder (λ k. k.no_solve)) (
      lex-StrictOrder _ _ (by_number-StrictOrder (λ k. k.solved_at))
        (by_number-StrictOrder (λ k. k.id))))

pub by_key-StrictOrder {ℓ} : {A : Type ℓ} (key : A → Key) → StrictOrder (by_key key)
by_key-StrictOrder key = record {
  asym = λ x y. is_before-StrictOrder.asym (key x) (key y);
  split = λ x y z. is_before-StrictOrder.split (key x) (key y) (key z);
}

-- Of two keys with different identifiers, one is before the other.
pub is_before_decides : (k l : Key) → k.id ≢ l.id → (is_before k l ≡ true) ⊎ (is_before l k ≡ true)
unfolding is_before
is_before_decides k l different = ground arith

module _ {ℓ} {A : Type ℓ} (lt : A → A → Bool) where
  insert-Perm : (x : A) (ys : List A) → Perm (insert lt x ys) (x ∷ ys)
  insert-Perm x [] = Perm.rfl
  insert-Perm x (y ∷ ys) =
      let ih = insert-Perm x ys in
      elim (Bool-cases (lt y x)) [
        | inl e ↦ rw e (Perm.trans (Perm.cons y ih) (Perm.swap x y ys))
        | inr e ↦ rw e Perm.rfl
      ]

  sort-Perm : (xs : List A) → Perm (sort lt xs) xs
  sort-Perm [] = Perm.rfl
  sort-Perm (x ∷ xs) = Perm.trans (insert-Perm x (sort lt xs)) (Perm.cons x (sort-Perm xs))

-- Reordering: neighbours with different identifiers change places, any number of times.
module _ {A : Type 0} (id : A → ℕ) where
  pub data Reordered : List A → List A → Type 0 where
    same : (xs : List A) → Reordered xs xs
    skip : (x : A) {xs ys : List A} → Reordered xs ys → Reordered (x ∷ xs) (x ∷ ys)
    swap : (x y : A) (xs : List A) → id x ≢ id y → Reordered (x ∷ y ∷ xs) (y ∷ x ∷ xs)
    trans : {xs ys zs : List A} → Reordered xs ys → Reordered ys zs → Reordered xs zs

sort-Reordered :
    {A : Type 0} (id : A → ℕ) (key : A → Key) (named : (a : A) → (key a).id ≡ id a) {xs ys : List A}
    → Reordered id xs ys
    → sort (by_key key) xs ≡ sort (by_key key) ys
sort-Reordered id key named (same xs) = refl
sort-Reordered id key named (skip x r) = ap (insert (by_key key) x) (sort-Reordered id key named r)
sort-Reordered id key named (swap x y xs d) =
    insert_comm (by_key-StrictOrder key) x y (sort (by_key key) xs)
      (is_before_decides (key x) (key y) λ e. d (sym (named x) ∙ e ∙ named y))
sort-Reordered id key named (trans r s) =
    sort-Reordered id key named r ∙ sort-Reordered id key named s

-- The ranks 1, 2, 3 and so on, from the first one.
abbrev pub ranks_from : {A : Type 0} → ℕ → List A → List ℕ
ranks_from k [] = []
ranks_from k (x ∷ xs) = k ∷ ranks_from (suc k) xs

-- What a ranking of rows is: the same rows, in the order of their keys, with the ranks from 1.
pub record IsRanking {A : Type 0} (key : A → Key) (rows : List A) (ranking : List (Ranked A))
    : Type 0 where
  pub same_rows : Perm (map (λ r. r.row) ranking) rows
  pub in_order : IsSorted (by_key key) (map (λ r. r.row) ranking)
  pub ranks : map (λ r. r.rank) ranking ≡ ranks_from 1 rows

rows-number : {A : Type 0} (k : ℕ) (xs : List A) → map (λ r. r.row) (number k xs) ≡ xs
rows-number k [] = refl
rows-number k (x ∷ xs) = ap (◌∷◌ x) (rows-number (suc k) xs)

ranks-insert :
    {A : Type 0} (lt : A → A → Bool) (k : ℕ) (x : A) (ys : List A)
    → ranks_from k (insert lt x ys) ≡ k ∷ ranks_from (suc k) ys
ranks-insert lt k x [] = refl
ranks-insert lt k x (y ∷ ys) =
    let ih = ranks-insert lt (suc k) x ys in
    elim (Bool-cases (lt y x)) [ inl e ↦ rw e (ap (◌∷◌ k) ih) | inr e ↦ rw e refl ]

ranks-sort :
    {A : Type 0} (lt : A → A → Bool) (k : ℕ) (xs : List A)
    → ranks_from k (sort lt xs) ≡ ranks_from k xs
ranks-sort lt k [] = refl
ranks-sort lt k (x ∷ xs) = ranks-insert lt k x (sort lt xs) ∙ ap (◌∷◌ k) (ranks-sort lt (suc k) xs)

ranks-number :
    {A : Type 0} (k : ℕ) (xs : List A) → map (λ r. r.rank) (number k xs) ≡ ranks_from k xs
ranks-number k [] = refl
ranks-number k (x ∷ xs) = ap (◌∷◌ k) (ranks-number (suc k) xs)

number-sort-IsRanking :
    {A : Type 0} (key : A → Key) (rows : List A)
    → IsRanking key rows (number 1 (sort (by_key key) rows))
number-sort-IsRanking key rows = record {
  same_rows = rw (rows-number 1 (sort (by_key key) rows)) (sort-Perm (by_key key) rows);
  in_order =
      rw (rows-number 1 (sort (by_key key) rows)) (sort-IsSorted (by_key-StrictOrder key) rows);
  ranks = ranks-number 1 (sort (by_key key) rows) ∙ ranks-sort (by_key key) 1 rows;
}

-- The full team ranking has one row for each team's data, in the order of the sort keys (no row is
-- before an earlier one), with the ranks 1, 2, 3 and so on.
pub build_team_ranking-IsRanking :
    (rows : List TeamData) → IsRanking sort_key (map team_row rows) (build_team_ranking rows none)
unfolding build_team_ranking
build_team_ranking-IsRanking rows = number-sort-IsRanking sort_key (map team_row rows)

-- The member ranking has the members' rows in the order of the sort keys, with the ranks 1, 2, 3
-- and so on.
pub build_member_ranking-IsRanking :
    (rows : List MemberRow) → IsRanking member_sort_key rows (build_member_ranking rows)
unfolding build_member_ranking
build_member_ranking-IsRanking rows = number-sort-IsRanking member_sort_key rows

map-Reordered :
    {xs ys : List TeamData}
    → Reordered (λ d. d.team_id) xs ys
    → Reordered (λ r. r.team_id) (map team_row xs) (map team_row ys)
unfolding team_row
map-Reordered (same xs) = same (map team_row xs)
map-Reordered (skip x r) = skip (team_row x) (map-Reordered r)
map-Reordered (swap x y xs d) = swap (team_row x) (team_row y) (map team_row xs) d
map-Reordered (trans r s) = trans (map-Reordered r) (map-Reordered s)

pub key_of-id : (score : ℕ) (t : Option ℕ) (id : ℕ) → (key_of score t id).id ≡ id
key_of-id score none id = refl
key_of-id score (some t) id = refl

-- Where the data of the same teams is given in two orders (neighbours of different teams change
-- places, any number of times), the team rankings are equal, with any limit.
pub build_team_ranking-Reordered :
    (xs ys : List TeamData) (limit : Option ℕ)
    → Reordered (λ d. d.team_id) xs ys
    → build_team_ranking xs limit ≡ build_team_ranking ys limit
unfolding build_team_ranking sort_key
build_team_ranking-Reordered xs ys limit r =
    ap (λ rows. number 1 (top limit rows))
      (sort-Reordered (λ row. row.team_id) sort_key
        (λ row. key_of-id row.team_score row.last_solved_at row.team_id) (map-Reordered r))

number-take : {A : Type 0} (k n : ℕ) (xs : List A) → number k (take n xs) ≡ take n (number k xs)
number-take k zero xs = refl
number-take k (suc n) [] = refl
number-take k (suc n) (x ∷ xs) = ap (◌∷◌ (record { row = x; rank = k })) (number-take (suc k) n xs)

-- A ranking with a limit is the beginning of the full one, with the same ranks.
pub build_team_ranking_limit :
    (rows : List TeamData) (n : ℕ)
    → build_team_ranking rows (some n) ≡ take n (build_team_ranking rows none)
unfolding build_team_ranking
build_team_ranking_limit rows n = number-take 1 n (sort (by_key sort_key) (map team_row rows))
