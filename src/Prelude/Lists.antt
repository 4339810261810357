-- ===== src/Prelude/Lists.antt =====
-- Lists of rows: lengths over the native numbers, membership tests, filters and queries.
use Prim.Native.Nat.{ℕ, zero, suc, ◌+◌}
use mathlib.Core.Path.{◌≡◌, refl, sym, subst, ◌∙◌}
use mathlib.Core.Logic.{inl, inr}
use mathlib.Core.Bool.{Bool, true, false, ◌||◌}
use mathlib.Core.List.{List, [], ◌∷◌}
use mathlib.Core.Option.{Option, none, some, some-injective}
use native.Mathlib.Omega.{arith}
use msg_backend.Prelude.Tests.{◌==◌, if◌then◌else◌, Bool-cases}

module _ {ℓ} {A : Type ℓ} where
  abbrev pub length : List A → ℕ
  length [] = 0
  length (x ∷ xs) = suc (length xs)

  abbrev pub get_elem? : List A → ℕ → Option A
  get_elem? [] i = none
  get_elem? (x ∷ xs) zero = some x
  get_elem? (x ∷ xs) (suc i) = get_elem? xs i

  -- `.filter(...)`: the rows that pass.
  abbrev pub select : (A → Bool) → List A → List A
  select p [] = []
  select p (x ∷ xs) = if p x then x ∷ select p xs else select p xs

  -- `.filter(...).first()`
  abbrev pub first : (A → Bool) → List A → Option A
  first p [] = none
  first p (x ∷ xs) = if p x then some x else first p xs

  -- `.filter(...).exists()`
  abbrev pub exists : (A → Bool) → List A → Bool
  exists p [] = false
  exists p (x ∷ xs) = p x || exists p xs

  -- A row update: the rows that pass the test are replaced.
  abbrev pub update : (A → Bool) → (A → A) → List A → List A
  update p f [] = []
  update p f (x ∷ xs) = (if p x then f x else x) ∷ update p f xs

  -- The update of the single row that a key finds.
  abbrev pub update_first : (A → Bool) → (A → A) → List A → List A
  update_first p f [] = []
  update_first p f (x ∷ xs) = if p x then f x ∷ xs else x ∷ update_first p f xs

  abbrev pub All {κ} : (A → Type κ) → List A → Type κ
  All P [] = Unit
  All P (x ∷ xs) = P x × All P xs

  -- Where the row that a query finds is among the updated ones, and no update changes what the query
  -- tests, the query finds the updated row.
  pub first-update :
      (test sel : A → Bool) (f : A → A) (q : A) (xs : List A)
      → ((a : A) → test (f a) ≡ test a)
      → sel q ≡ true
      → first test xs ≡ some q
      → first test (update sel f xs) ≡ some (f q)
  first-update test sel f q [] same s e = ground (arith, e)
  first-update test sel f q (x ∷ xs) same s e = elim (Bool-cases (test x)) [
    | inl met ↦
        let this : x ≡ q = some-injective x q (sym (rw met refl) ∙ e) in
        rw this (rw s (rw (same q) (rw (subst (λ a. test a ≡ true) this met) refl)))
    | inr other ↦
        let rest =
          first-update test sel f q xs same s
            (subst (λ b. (if b then some x else first test xs) ≡ some q) other e) in
        elim (Bool-cases (sel x)) [
          | inl y ↦ rw y (rw (same x) (rw other rest))
          | inr n ↦ rw n (rw other rest)
        ]
  ]

pub All-select {ℓ κ} :
    {A : Type ℓ} (P : A → Type κ) (p : A → Bool) (xs : List A) → All P xs → All P (select p xs)
All-select P p [] h = tt
All-select P p (x ∷ xs) h =
    let rest = All-select P p xs h.1 in
    elim (Bool-cases (p x)) [ inl e ↦ rw e (h.0, rest) | inr e ↦ rw e rest ]

pub All_imp {ℓ κ μ} :
    {A : Type ℓ} (P : A → Type κ) (Q : A → Type μ) (xs : List A)
    → ((a : A) → P a → Q a)
    → All P xs
    → All Q xs
All_imp P Q [] f h = tt
All_imp P Q (x ∷ xs) f h = (f x h.0, All_imp P Q xs f h.1)

-- What a query finds passes the query's test, and has what all rows have.
pub first-All {ℓ κ} :
    {A : Type ℓ} (P : A → Type κ) (p : A → Bool) (xs : List A) (a : A)
    → All P xs
    → first p xs ≡ some a
    → P a × (p a ≡ true)
first-All P p [] a h e = absurd (ground (arith, e))
first-All P p (x ∷ xs) a h e = elim (Bool-cases (p x)) [
  | inl y ↦
      let this : x ≡ a = some-injective x a (sym (rw y refl) ∙ e) in
      subst (λ b. P b × (p b ≡ true)) this (h.0, y)
  | inr n ↦ first-All P p xs a h.1 (sym (rw n refl) ∙ e)
]

-- `x in xs` on numbers, and the number of times that `x` stands in `xs`.
abbrev pub contains : ℕ → List ℕ → Bool
contains a [] = false
contains a (x ∷ xs) = a == x || contains a xs

abbrev pub count : ℕ → List ℕ → ℕ
count a [] = 0
count a (x ∷ xs) = (if a == x then 1 else 0) + count a xs

abbrev pub IsDistinct : List ℕ → Type 0
IsDistinct [] = Unit
IsDistinct (x ∷ xs) = (contains x xs ≡ false) × IsDistinct xs

pub first_passes {ℓ} :
    {A : Type ℓ} (p : A → Bool) (xs : List A) (a : A) → first p xs ≡ some a → p a ≡ true
first_passes p [] a e = absurd (ground (arith, e))
first_passes p (x ∷ xs) a e = elim (Bool-cases (p x)) [
  | inl y ↦ subst (λ b. p b ≡ true) (some-injective x a (sym (rw y refl) ∙ e)) y
  | inr n ↦ first_passes p xs a (sym (rw n refl) ∙ e)
]
