-- ===== src/Ranking/Pages/Places.antt =====
-- The pages cover the ranking, and one's own rank counts the rows before one's own.
use native.Mathlib.Nat.{div-add-mod'}
use msg_backend.Prelude.{
  ℕ, zero, suc, ◌+◌, ◌-◌, ◌*◌, ◌/◌, ◌%◌, ◌≤◌, ◌<◌, ◌≡◌, ◌≢◌, refl, sym, ap, ◌∙◌, subst, inl, inr,
  true, false, Option, none, some, some-injective, List, [], ◌∷◌, map, ◌==◌, length, first, select,
  get_elem?, All, Bool-cases, arith,
}
use msg_backend.Prelude.Int.{ℤ, pos}
use msg_backend.Prelude.Sort.{sort, insert, IsSorted, sort-IsSorted}
use msg_backend.Ranking.{
  TeamData, TeamRow, Ranked, Key, team_row, by_key, sort_key, number, take, drop,
  build_team_ranking, MemberRow, member_sort_key, build_member_ranking,
}
use msg_backend.Ranking.Order.{is_before_decides, by_key-StrictOrder, key_of-id}
use msg_backend.Ranking.Pages.{
  parse_pagination, slice, team_ranking, Own, user_has_no_team, answer, my_team_ranking,
  member_ranking,
}

-- Whatever the parameters are, the page is from 1 to 10,000 and the size from 1 to 100.
pub parse_pagination_bounds :
    (page_param size_param : Option ℤ)
    → let (page, size) = parse_pagination page_param size_param in
      (1 ≤ page) × (page ≤ 10000) × (1 ≤ size) × (size ≤ 100)
unfolding parse_pagination
parse_pagination_bounds page_param size_param = ground arith

get_elem?-take :
    {A : Type 0} (n i : ℕ) (xs : List A) → i < n → get_elem? (take n xs) i ≡ get_elem? xs i
get_elem?-take zero i xs h = absurd (omega (arith, h))
get_elem?-take (suc n) i [] h = refl
get_elem?-take (suc n) zero (x ∷ xs) h = refl
get_elem?-take (suc n) (suc i) (x ∷ xs) h = get_elem?-take n i xs (omega arith)

get_elem?-drop :
    {A : Type 0} (n i : ℕ) (xs : List A) → get_elem? (drop n xs) i ≡ get_elem? xs (n + i)
get_elem?-drop zero i xs = ap (get_elem? xs) (omega arith)
get_elem?-drop (suc n) i [] = refl
get_elem?-drop (suc n) i (x ∷ xs) =
    let next : suc (n + i) ≡ suc n + i = omega arith in
    get_elem?-drop n i xs ∙ ap (get_elem? (x ∷ xs)) next

slice_page :
    {A : Type 0} (i size : ℕ) (xs : List A)
    → 1 ≤ size
    → get_elem? (slice ((i / size + 1 - 1) * size) ((i / size + 1 - 1) * size + size) xs) (i % size)
      ≡ get_elem? xs i
slice_page i size xs lo =
    let start = (i / size + 1 - 1) * size in
    let page : i / size + 1 - 1 ≡ i / size = omega arith in
    let place : start + i % size ≡ i = rw page (div-add-mod' i size) in
    let inside : i % size < start + size - start = omega arith in
    get_elem?-take _ (i % size) (drop start xs) inside
    ∙ get_elem?-drop start (i % size) xs
    ∙ ap (get_elem? xs) place

-- The row that stands at `i` in the full ranking stands at `i % size` on the page `i / size + 1`,
-- for every size from 1 to 100 and where that page is at most 10,000.
pub team_ranking_page :
    (rows : List TeamData) (i size : ℕ)
    → 1 ≤ size
    → size ≤ 100
    → i / size < 10000
    → get_elem?
        (team_ranking rows (some (pos (i / size + 1))) (some (pos size))).rankings
        (i % size)
      ≡ get_elem? (build_team_ranking rows none) i
unfolding team_ranking parse_pagination
team_ranking_page rows i size lo hi page =
    let parsed : parse_pagination (some (pos (i / size + 1))) (some (pos size))
        ≡ (i / size + 1, size) =
      ground (arith, lo, hi, page) in
    subst
      (λ p.
        get_elem? (slice ((p.0 - 1) * p.1) ((p.0 - 1) * p.1 + p.1) (build_team_ranking rows none))
          (i % size)
        ≡ get_elem? (build_team_ranking rows none) i)
      (sym parsed) (slice_page i size (build_team_ranking rows none) lo)

-- The number of rows whose key is before this one.
abbrev pub before : {A : Type 0} → (A → Key) → A → List A → ℕ
before key x xs = length (select (λ y. by_key key y x) xs)

before-insert :
    {A : Type 0} (key : A → Key) (x y : A) (ys : List A)
    → before key x (insert (by_key key) y ys) ≡ before key x (y ∷ ys)
before-insert key x y [] = refl
before-insert key x y (z ∷ ys) =
    let ih = before-insert key x y ys in
    elim (Bool-cases (by_key key z y)) [ inl e ↦ rw e (ground (arith, ih)) | inr e ↦ rw e refl ]

before-sort :
    {A : Type 0} (key : A → Key) (x : A) (ys : List A)
    → before key x (sort (by_key key) ys) ≡ before key x ys
before-sort key x [] = refl
before-sort key x (y ∷ ys) =
    let ih = before-sort key x ys in
    before-insert key x y (sort (by_key key) ys) ∙ ground (arith, ih)

before-none :
    {A : Type 0} (key : A → Key) (x : A) (ys : List A)
    → All (λ y. by_key key y x ≡ false) ys
    → before key x ys ≡ 0
before-none key x [] h = refl
before-none key x (y ∷ ys) h = ground (arith, h.0, before-none key x ys h.1)

module _ {A : Type 0} (id : A → ℕ) (key : A → Key) (named : (a : A) → (key a).id ≡ id a) where
  irreflexive : (x : A) → by_key key x x ≡ false
  irreflexive x = elim (Bool-cases (by_key key x x)) [
    | inl e ↦ (by_key-StrictOrder key).asym x x e
    | inr e ↦ e
  ]

  found-All :
      (P : A → Type 0) (k i : ℕ) (xs : List A) (r : Ranked A)
      → All P xs
      → first (λ r. id r.row == i) (number k xs) ≡ some r
      → P r.row
  found-All P k i [] r h e = absurd (ground (arith, e))
  found-All P k i (x ∷ xs) r h e = elim (Bool-cases (id x == i)) [
    | inl mine ↦
        let head : Ranked A = record { row = x; rank = k } in
        subst (λ r. P r.row) (some-injective head r (sym (rw mine refl) ∙ e)) h.0
    | inr other ↦ found-All P (suc k) i xs r h.1 (ground (arith, e, other))
  ]

  -- In a sorted list, the rank of the first row of an identifier counts the rows before it.
  found_at :
      (k i : ℕ) (xs : List A) (r : Ranked A)
      → IsSorted (by_key key) xs
      → first (λ r. id r.row == i) (number k xs) ≡ some r
      → (id r.row ≡ i) × (r.rank ≡ k + before key r.row xs)
  found_at k i [] r s e = ground (arith, e)
  found_at k i (x ∷ xs) r s e = elim (Bool-cases (id x == i)) [
    | inl mine ↦
        let head : Ranked A = record { row = x; rank = k } in
        let this : head ≡ r = some-injective head r (sym (rw mine refl) ∙ e) in
        subst (λ r. (id r.row ≡ i) × (r.rank ≡ k + before key r.row (x ∷ xs))) this
          (
            ground arith,
            sym (ap (λ n. k + n) (before-none key x (x ∷ xs) (irreflexive x, s.0)) ∙ omega arith),
          )
    | inr other ↦
        let later : first (λ r. id r.row == i) (number (suc k) xs) ≡ some r =
          ground (arith, e, other) in
        let (mine, place) = found_at (suc k) i xs r s.1 later in
        let differ : (key x).id ≢ (key r.row).id =
          λ same. absurd (ground (arith, other, mine, named x, named r.row, same)) in
        let behind : by_key key r.row x ≡ false =
          found-All (λ y. by_key key y x ≡ false) (suc k) i xs r s.0 later in
        let earlier : by_key key x r.row ≡ true =
          elim (is_before_decides (key x) (key r.row) differ) [
            | inl h ↦ h
            | inr h ↦ absurd (ground (arith, h, behind))
          ] in
        (mine, rw earlier (place ∙ omega arith))
  ]

named_by_team : (r : TeamRow) → (sort_key r).id ≡ r.team_id
unfolding sort_key
named_by_team r = key_of-id r.team_score r.last_solved_at r.team_id

named_by_user : (r : MemberRow) → (member_sort_key r).id ≡ r.user_id
unfolding member_sort_key
named_by_user r = key_of-id r.user_score r.last_solved_at r.user_id

row_of : {A : Type 0} → Own A → Option A
row_of user_has_no_team = none
row_of (answer o) = o

answer-injective : {A : Type 0} (a b : Option A) → answer a ≡ answer b → a ≡ b
unfolding row_of
answer-injective a b e = ap row_of e

-- The row that a team reads of itself is its own, and its rank is 1 and the number of the teams
-- whose sort key is before its own.
pub my_team_ranking_counts :
    (rows : List TeamData) (team : ℕ) (r : Ranked TeamRow)
    → my_team_ranking (some team) rows ≡ answer (some r)
    → (r.row.team_id ≡ team) × (r.rank ≡ 1 + before sort_key r.row (map team_row rows))
unfolding my_team_ranking build_team_ranking
my_team_ranking_counts rows team r e =
    let found =
      found_at (λ r. r.team_id) sort_key named_by_team 1 team _ r
        (sort-IsSorted (by_key-StrictOrder sort_key) (map team_row rows))
        (answer-injective _ _ e) in
    (found.0, found.1 ∙ ap (λ n. 1 + n) (before-sort sort_key r.row (map team_row rows)))

-- The row that a member reads of itself is its own, and its rank is 1 and the number of the members
-- whose sort key is before its own.
pub member_ranking_counts :
    (rows : List MemberRow) (team user : ℕ) (r : Ranked MemberRow)
    → member_ranking (some team) user rows ≡ answer (some r)
    → (r.row.user_id ≡ user) × (r.rank ≡ 1 + before member_sort_key r.row rows)
unfolding member_ranking build_member_ranking
member_ranking_counts rows team user r e =
    let found =
      found_at (λ r. r.user_id) member_sort_key named_by_user 1 user _ r
        (sort-IsSorted (by_key-StrictOrder member_sort_key) rows) (answer-injective _ _ e) in
    (found.0, found.1 ∙ ap (λ n. 1 + n) (before-sort member_sort_key r.row rows))
