-- ===== src/Prelude/Updates.antt =====
-- The update of the one row that a key finds: what it keeps, and what a query finds afterwards.
use Prim.Native.Nat.{◌≤◌}
use mathlib.Core.Path.{◌≡◌, refl, sym, ap, subst, ◌∙◌}
use mathlib.Core.Logic.{◌⊎◌, inl, inr}
use mathlib.Core.Bool.{Bool, true, ◌||◌}
use mathlib.Core.List.{List, [], ◌∷◌}
use mathlib.Core.Option.{some, some-injective}
use native.Mathlib.Omega.{arith}
use msg_backend.Prelude.Tests.{Bool-cases}
use msg_backend.Prelude.Lists.{length, select, first, exists, update_first, All}

pub All-update_first {ℓ κ} :
    {A : Type ℓ} (P : A → Type κ) (p : A → Bool) (f : A → A) (xs : List A)
    → ((a : A) → first p xs ≡ some a → P a → P (f a))
    → All P xs
    → All P (update_first p f xs)
All-update_first P p f [] k h = tt
All-update_first P p f (x ∷ xs) k h = elim (Bool-cases (p x)) [
  | inl y ↦ rw y (k x (rw y refl) h.0, h.1)
  | inr n ↦ rw n (h.0, All-update_first P p f xs (λ a e. k a (rw n e)) h.1)
]

pub either_true : (a b : Bool) → b ≡ true → (a || b) ≡ true
either_true a b e = ground (arith, e)

-- A row that passes `q` is still there after an update that keeps it so.
pub exists-update_first {ℓ} :
    {A : Type ℓ} (q p : A → Bool) (f : A → A) (xs : List A)
    → ((a : A) → first p xs ≡ some a → q a ≡ true → q (f a) ≡ true)
    → exists q xs ≡ true
    → exists q (update_first p f xs) ≡ true
exists-update_first q p f [] k e = absurd (ground (arith, e))
exists-update_first q p f (x ∷ xs) k e = elim (Bool-cases (p x)) [
  | inl y ↦ elim (Bool-cases (q x)) [
    | inl a ↦ rw y (rw (k x (rw y refl) a) refl)
    | inr b ↦ rw y (either_true (q (f x)) (exists q xs) (sym (rw b refl) ∙ e))
  ]
  | inr n ↦ elim (Bool-cases (q x)) [
    | inl a ↦ rw n (rw a refl)
    | inr b ↦ rw n (rw b (exists-update_first q p f xs (λ a h. k a (rw n h)) (sym (rw b refl) ∙ e)))
  ]
]

-- No more rows pass `q` after an update of a row that passes only if it did before.
pub length-update_first {ℓ} :
    {A : Type ℓ} (q p : A → Bool) (f : A → A) (xs : List A)
    → ((a : A) → first p xs ≡ some a → q (f a) ≡ true → q a ≡ true)
    → length (select q (update_first p f xs)) ≤ length (select q xs)
length-update_first q p f [] k = ground arith
length-update_first q p f (x ∷ xs) k = elim (Bool-cases (p x)) [
  | inl y ↦ rw y (elim (Bool-cases (q (f x))) [
    | inl a ↦ rw a (rw (k x (rw y refl) a) (ground arith))
    | inr b ↦ rw b (ground arith)
  ])
  | inr n ↦
      let ih = length-update_first q p f xs (λ a h. k a (rw n h)) in
      rw n (elim (Bool-cases (q x)) [ inl a ↦ rw a (omega arith) | inr b ↦ rw b ih ])
]

-- Two updates of one row are one update by both.
pub update_first_twice {ℓ} :
    {A : Type ℓ} (p : A → Bool) (f g : A → A) (xs : List A)
    → ((a : A) → p (f a) ≡ p a)
    → update_first p g (update_first p f xs) ≡ update_first p (λ a. g (f a)) xs
update_first_twice p f g [] k = refl
update_first_twice p f g (x ∷ xs) k = elim (Bool-cases (p x)) [
  | inl y ↦ rw y (rw (k x) (rw y refl))
  | inr n ↦ rw n (rw n (ap (λ l. x ∷ l) (update_first_twice p f g xs k)))
]

-- The row that a key finds after an update of the row of another key, or of this one.
pub first-update_first {ℓ} :
    {A : Type ℓ} (test p : A → Bool) (f : A → A) (a : A) (xs : List A)
    → ((x : A) → first p xs ≡ some x → test (f x) ≡ test x)
    → first test xs ≡ some a
    → (first test (update_first p f xs) ≡ some a)
      ⊎ ((first p xs ≡ some a) × (first test (update_first p f xs) ≡ some (f a)))
first-update_first test p f a [] k e = absurd (ground (arith, e))
first-update_first test p f a (x ∷ xs) k e = elim (Bool-cases (p x)) [
  | inl y ↦ elim (Bool-cases (test x)) [
    | inl t ↦
        let this : x ≡ a = some-injective x a (sym (rw t refl) ∙ e) in
        inr (rw y (ap some this), rw y (rw (k x (rw y refl)) (rw t (ap (λ b. some (f b)) this))))
    | inr n ↦ inl (rw y (rw (k x (rw y refl)) (rw n (sym (rw n refl) ∙ e))))
  ]
  | inr n ↦ elim (Bool-cases (test x)) [
    | inl t ↦ inl (rw n (rw t (sym (rw t refl) ∙ e)))
    | inr m ↦
        let rest = first-update_first test p f a xs (λ b h. k b (rw n h)) (sym (rw m refl) ∙ e) in
        elim rest [ inl h ↦ inl (rw n (rw m h)) | inr h ↦ inr (rw n h.0, rw n (rw m h.1)) ]
  ]
]

-- The updated row is there, where a key finds a row.
pub exists-updated {ℓ} :
    {A : Type ℓ} (q p : A → Bool) (f : A → A) (xs : List A)
    → ((a : A) → first p xs ≡ some a → q (f a) ≡ true)
    → exists p xs ≡ true
    → exists q (update_first p f xs) ≡ true
exists-updated q p f [] k e = absurd (ground (arith, e))
exists-updated q p f (x ∷ xs) k e = elim (Bool-cases (p x)) [
  | inl y ↦ rw y (rw (k x (rw y refl)) refl)
  | inr n ↦
      rw n
        (either_true (q x) _ (exists-updated q p f xs (λ a h. k a (rw n h)) (sym (rw n refl) ∙ e)))
]

-- A row that passes is found.
pub exists-first {ℓ} :
    {A : Type ℓ} (q p : A → Bool) (xs : List A) (a : A)
    → first p xs ≡ some a
    → q a ≡ true
    → exists q xs ≡ true
exists-first q p [] a e h = absurd (ground (arith, e))
exists-first q p (x ∷ xs) a e h = elim (Bool-cases (p x)) [
  | inl y ↦
      let this : x ≡ a = some-injective x a (sym (rw y refl) ∙ e) in
      rw (subst (λ b. q b ≡ true) (sym this) h) refl
  | inr n ↦ either_true (q x) _ (exists-first q p xs a (sym (rw n refl) ∙ e) h)
]
