-- ===== src/Prelude/Sort.antt =====
-- The stable sort of a list, `list.sort`, by a strict order on its elements.
use Prim.Native.Nat.{ℕ}
use mathlib.Core.Path.{◌≡◌, refl, sym, ap, subst}
use mathlib.Core.Logic.{◌⊎◌, inl, inr}
use mathlib.Core.Bool.{Bool, true, false}
use mathlib.Core.List.{List, [], ◌∷◌}
use native.Mathlib.Omega.{arith}
use msg_backend.Prelude.Tests.{if◌then◌else◌, ltb, Bool-cases}
use msg_backend.Prelude.Lists.{All}

-- A strict weak order, as a test.
pub record StrictOrder {ℓ} {A : Type ℓ} (lt : A → A → Bool) : Type ℓ where
  pub asym : (x y : A) → lt x y ≡ true → lt y x ≡ false
  pub split : (x y z : A) → lt x z ≡ true → (lt x y ≡ true) ⊎ (lt y z ≡ true)

module _ {ℓ} {A : Type ℓ} (lt : A → A → Bool) where
  -- An element is put before the first one that is not less, so equal elements keep their order.
  abbrev pub insert : A → List A → List A
  insert x [] = x ∷ []
  insert x (y ∷ ys) = let rest = insert x ys in if lt y x then y ∷ rest else x ∷ y ∷ ys

  abbrev pub sort : List A → List A
  sort [] = []
  sort (x ∷ xs) = insert x (sort xs)

  -- No element is less than an earlier one.
  abbrev pub IsSorted : List A → Type ℓ
  IsSorted [] = Unit
  IsSorted (x ∷ xs) = All (λ y. lt y x ≡ false) xs × IsSorted xs

module _ {ℓ} {A : Type ℓ} {lt : A → A → Bool} (o : StrictOrder lt) where
  lt_trans : (x y z : A) → lt x y ≡ true → lt y z ≡ true → lt x z ≡ true
  lt_trans x y z h k = elim (o.split x z y h) [
    | inl xz ↦ xz
    | inr zy ↦ ground (arith, o.asym z y zy)
  ]

  not_lt_trans : (x y z : A) → lt x y ≡ false → lt y z ≡ false → lt x z ≡ false
  not_lt_trans x y z h k = elim (Bool-cases (lt x z)) [
    | inl xz ↦ elim (o.split x y z xz) [ inl a ↦ ground arith | inr b ↦ ground arith ]
    | inr e ↦ e
  ]

  insert-All {κ} : (P : A → Type κ) (x : A) (ys : List A) → P x → All P ys → All P (insert lt x ys)
  insert-All P x [] p h = (p, tt)
  insert-All P x (y ∷ ys) p h =
      let rest = insert-All P x ys p h.1 in
      elim (Bool-cases (lt y x)) [
        | inl e ↦
            subst (λ b. All P (if b then y ∷ insert lt x ys else x ∷ y ∷ ys)) (sym e) (h.0, rest)
        | inr e ↦ subst (λ b. All P (if b then y ∷ insert lt x ys else x ∷ y ∷ ys)) (sym e) (p, h)
      ]

  All-imp {κ κ'} :
      {P : A → Type κ} {Q : A → Type κ'} (ys : List A) → ((y : A) → P y → Q y) → All P ys → All Q ys
  All-imp [] f h = tt
  All-imp (y ∷ ys) f h = (f y h.0, All-imp ys f h.1)

  insert-IsSorted : (x : A) (ys : List A) → IsSorted lt ys → IsSorted lt (insert lt x ys)
  insert-IsSorted x [] h = (tt, tt)
  insert-IsSorted x (y ∷ ys) h =
      let rest = insert-IsSorted x ys h.1 in
      elim (Bool-cases (lt y x)) [
        | inl e ↦
            subst (λ b. IsSorted lt (if b then y ∷ insert lt x ys else x ∷ y ∷ ys)) (sym e)
              (insert-All (λ z. lt z y ≡ false) x ys (o.asym y x e) h.0, rest)
        | inr e ↦
            subst (λ b. IsSorted lt (if b then y ∷ insert lt x ys else x ∷ y ∷ ys)) (sym e)
              ((e, All-imp ys (λ z zy. not_lt_trans z y x zy e) h.0), h)
      ]

  pub sort-IsSorted : (xs : List A) → IsSorted lt (sort lt xs)
  sort-IsSorted [] = tt
  sort-IsSorted (x ∷ xs) = insert-IsSorted x (sort lt xs) (sort-IsSorted xs)

  -- Of two elements, of which one is less, either may be inserted first.
  insert_after :
      (x y : A) (zs : List A)
      → lt x y ≡ true
      → insert lt x (insert lt y zs) ≡ insert lt y (insert lt x zs)
  insert_after x y [] h = rw h (rw (o.asym x y h) refl)
  insert_after x y (z ∷ zs) h =
      let ih = insert_after x y zs h in
      elim (Bool-cases (lt z x)) [
        | inl zx ↦ let zy = lt_trans z x y zx h in rw zy (rw zx (rw zy (ap (◌∷◌ z) ih)))
        | inr zx ↦ elim (Bool-cases (lt z y)) [
          | inl zy ↦ rw zy (rw zx (rw h (rw zy refl)))
          | inr zy ↦ rw zy (rw (o.asym x y h) (rw zx (rw h (rw zy refl))))
        ]
      ]

  pub insert_comm :
      (x y : A) (zs : List A)
      → (lt x y ≡ true) ⊎ (lt y x ≡ true)
      → insert lt x (insert lt y zs) ≡ insert lt y (insert lt x zs)
  insert_comm x y zs (inl h) = insert_after x y zs h
  insert_comm x y zs (inr h) = sym (insert_after y x zs h)

-- The comparison of tuples: the first component decides, then the second.
module _ {ℓ} {A : Type ℓ} where
  abbrev pub lex : (A → A → Bool) → (A → A → Bool) → A → A → Bool
  lex l m x y = if l x y then true else if l y x then false else m x y

  abbrev pub by_number : (A → ℕ) → A → A → Bool
  by_number f x y = ltb (f x) (f y)

  abbrev pub by_number_reversed : (A → ℕ) → A → A → Bool
  by_number_reversed f x y = ltb (f y) (f x)

  pub by_number-StrictOrder : (f : A → ℕ) → StrictOrder (by_number f)
  by_number-StrictOrder f = record { asym = λ x y h. ground arith; split = λ x y z h. ground arith }

  pub by_number_reversed-StrictOrder : (f : A → ℕ) → StrictOrder (by_number_reversed f)
  by_number_reversed-StrictOrder f = record {
    asym = λ x y h. ground arith;
    split = λ x y z h. ground arith;
  }

  pub lex-StrictOrder : (l m : A → A → Bool) → StrictOrder l → StrictOrder m → StrictOrder (lex l m)
  lex-StrictOrder l m a b = record {
    asym = λ x y h. ground (arith, a.asym x y, b.asym x y);
    split = λ x y z h. ground (arith, a.split x y z, a.split y z x, a.split z x y, b.split x y z);
  }
