-- ===== src/Koth/Ranks.antt =====
-- The ranks that a score response may have: the standard competition ranking.
use msg_backend.Prelude.{
  ℕ, suc, ◌+◌, ◌≤◌, ◌≡◌, ◌≢◌, refl, sym, ap, ◌∙◌, inl, inr, Bool, true, false, ◌&&◌, List, [], ◌∷◌,
  All, ltb, ◌==◌, if◌then◌else◌, Bool-cases, ℕ_discrete, arith,
}
use msg_backend.Prelude.Sort.{sort, insert, IsSorted, sort-IsSorted, by_number-StrictOrder}
use msg_backend.Koth.{is_run, is_sequence, validate_rank_sequence}

-- The number of ranks that are less than `r`.
abbrev pub smaller : ℕ → List ℕ → ℕ
smaller r [] = 0
smaller r (x ∷ ranks) = (if ltb x r then 1 else 0) + smaller r ranks

abbrev pub all : (ℕ → Bool) → List ℕ → Bool
all p [] = true
all p (x ∷ xs) = p x && all p xs

-- Each rank is one more than the number of ranks that are less.
abbrev pub is_standard : List ℕ → Bool
is_standard ranks = all (λ r. r == suc (smaller r ranks)) ranks

all-cong :
    (p q : ℕ → Bool) (k : ℕ) (xs : List ℕ)
    → ((x : ℕ) → k ≤ x → p x ≡ q x)
    → All (λ x. k ≤ x) xs
    → all p xs ≡ all q xs
all-cong p q k [] h lo = refl
all-cong p q k (x ∷ xs) h lo =
    let rest = all-cong p q k xs h lo.1 in rw (h x lo.0) (ap (λ b. q x && b) rest)

least-smaller :
    (r : ℕ) (ranks : List ℕ)
    → All (λ y. ltb y r ≡ false) ranks
    → (smaller r ranks ≡ 0) × All (λ y. r ≤ y) ranks
least-smaller r [] h = (refl, tt)
least-smaller r (x ∷ ranks) h =
    let rest = least-smaller r ranks h.1 in
    (ground (arith, h.0, rest.0), (ground (arith, h.0), rest.1))

-- A run that started at a rank that was expected: each later rank either continues it, or is one
-- more than the number of the ranks before it and of the later ones that are less.
run-standard :
    (expected n : ℕ) (ranks : List ℕ)
    → All (λ r. expected ≤ r) ranks
    → IsSorted ltb ranks
    → is_run expected expected n ranks
      ≡ all (λ r. if r == expected then true else r == expected + n + smaller r ranks) ranks
run-standard expected n [] lo s = refl
run-standard expected n (r ∷ ranks) lo s =
    let same = run-standard expected (n + 1) ranks lo.1 s.1 in
    let least = least-smaller r ranks s.0 in
    let next = run-standard r 1 ranks least.1 s.1 in
    elim (ℕ_discrete r expected) [
      | yes here ↦ go_on same here
      | no later ↦ elim (ℕ_discrete r (expected + n)) [
        | yes met ↦ start next least.0 met later
        | no missed ↦ ground (arith, missed, later, least.0)
      ]
    ]
  where
    go_on :
        is_run expected expected (n + 1) ranks
          ≡ all
              (λ x. if x == expected then true else x == expected + (n + 1) + smaller x ranks)
              ranks
        → r ≡ expected
        → is_run expected expected n (r ∷ ranks)
          ≡ all
              (λ x. if x == expected then true else x == expected + n + smaller x (r ∷ ranks))
              (r ∷ ranks)
    go_on same here =
        let counted : all
              (λ x. if x == expected then true else x == expected + (n + 1) + smaller x ranks) ranks
            ≡ all (λ x. if x == expected then true else x == expected + n + smaller x (r ∷ ranks))
                ranks =
          all-cong _ _ expected ranks (λ x low. ground (arith, low, here)) lo.1 in
        ground (arith, here, same, counted)

    start :
        is_run r r 1 ranks ≡ all (λ x. if x == r then true else x == r + 1 + smaller x ranks) ranks
        → smaller r ranks ≡ 0
        → r ≡ expected + n
        → r ≢ expected
        → is_run expected expected n (r ∷ ranks)
          ≡ all
              (λ x. if x == expected then true else x == expected + n + smaller x (r ∷ ranks))
              (r ∷ ranks)
    start next zero_smaller met later =
        let moved : is_run (expected + n) r 1 ranks ≡ is_run r r 1 ranks =
          ap (λ m. is_run m r 1 ranks) (sym met) in
        let counted : all (λ x. if x == r then true else x == r + 1 + smaller x ranks) ranks
            ≡ all (λ x. if x == expected then true else x == expected + n + smaller x (r ∷ ranks))
                ranks =
          all-cong _ _ r ranks
            (λ x low. elim (ℕ_discrete x r) [
              | yes e ↦ rw e (ground (arith, zero_smaller, met, later, lo.0))
              | no ne ↦ ground (arith, low, met, later, ne, lo.0)
            ])
            (least-smaller r ranks s.0).1 in
        ground (arith, met, later, next, moved, counted, zero_smaller)

smaller-insert : (r x : ℕ) (ranks : List ℕ) → smaller r (insert ltb x ranks) ≡ smaller r (x ∷ ranks)
smaller-insert r x [] = refl
smaller-insert r x (y ∷ ranks) =
    let ih = smaller-insert r x ranks in
    elim (Bool-cases (ltb y x)) [ inl e ↦ rw e (omega (arith, ih)) | inr e ↦ rw e refl ]

smaller-sort : (r : ℕ) (ranks : List ℕ) → smaller r (sort ltb ranks) ≡ smaller r ranks
smaller-sort r [] = refl
smaller-sort r (x ∷ ranks) =
    smaller-insert r x (sort ltb ranks)
    ∙ ap (λ n. (if ltb x r then 1 else 0) + n) (smaller-sort r ranks)

all-insert : (p : ℕ → Bool) (x : ℕ) (xs : List ℕ) → all p (insert ltb x xs) ≡ all p (x ∷ xs)
all-insert p x [] = refl
all-insert p x (y ∷ xs) =
    let ih = all-insert p x xs in
    elim (Bool-cases (ltb y x)) [ inl e ↦ rw e (ground (arith, ih)) | inr e ↦ rw e refl ]

all-sort : (p : ℕ → Bool) (xs : List ℕ) → all p (sort ltb xs) ≡ all p xs
all-sort p [] = refl
all-sort p (x ∷ xs) = all-insert p x (sort ltb xs) ∙ ap (λ b. p x && b) (all-sort p xs)

all-ext : (p q : ℕ → Bool) (xs : List ℕ) → ((x : ℕ) → p x ≡ q x) → all p xs ≡ all q xs
all-ext p q [] h = refl
all-ext p q (x ∷ xs) h = let rest = all-ext p q xs h in rw (h x) (ap (λ b. q x && b) rest)

sequence-standard : (ranks : List ℕ) → IsSorted ltb ranks → is_sequence ranks ≡ is_standard ranks
sequence-standard [] s = refl
sequence-standard (r ∷ ranks) s = elim (ℕ_discrete r 1) [
  | yes one ↦
      let least = least-smaller r ranks s.0 in
      let ran : is_run r r 1 ranks ≡ all (λ x. x == suc (smaller x (r ∷ ranks))) ranks =
        run-standard r 1 ranks least.1 s.1
        ∙ all-cong _ _ r ranks
            (λ x low. elim (ℕ_discrete x r) [
              | yes e ↦ rw e (ground (arith, least.0, one))
              | no ne ↦ ground (arith, low, one, ne)
            ])
            least.1 in
      let moved : is_run 1 r 1 ranks ≡ is_run r r 1 ranks =
        ap (λ m. is_run m r 1 ranks) (sym one) in
      ground (arith, one, ran, moved, least.0)
  | no other ↦ ground (arith, other, (least-smaller r ranks s.0).0)
]

-- A list of ranks passes the check, in whatever order it is given, exactly if each rank is one more
-- than the number of the ranks that are less.
pub validate_rank_sequence-eq : (ranks : List ℕ) → validate_rank_sequence ranks ≡ is_standard ranks
unfolding validate_rank_sequence
validate_rank_sequence-eq ranks =
    sequence-standard (sort ltb ranks) (sort-IsSorted (by_number-StrictOrder (λ n. n)) ranks)
    ∙ all-sort (λ r. r == suc (smaller r (sort ltb ranks))) ranks
    ∙ all-ext _ _ ranks (λ r. ap (λ n. r == suc n) (smaller-sort r ranks))
