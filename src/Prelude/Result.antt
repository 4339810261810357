-- ===== src/Prelude/Result.antt =====
-- What an operation gives that may fail with an error of its component, for do blocks.
use mathlib.Core.Path.{◌≡◌, refl, subst}
use mathlib.Core.Bool.{Bool, true, false}
use mathlib.Core.Option.{Option, none, some}

pub data Result {ℓ} (E A : Type ℓ) : Type ℓ where
  failed : E → Result E A
  ok : A → Result E A

pub ok-injective {ℓ} : {E A : Type ℓ} {a b : A} → ◌≡◌ {A = Result E A} (ok a) (ok b) → a ≡ b
ok-injective h = cc

infixl 4 ◌>>=◌ ◌>>◌
abbrev pub ◌>>=◌ {ℓ} : {E A B : Type ℓ} → Result E A → (A → Result E B) → Result E B
failed e >>= f = failed e
ok a >>= f = f a

abbrev pub ◌>>◌ {ℓ} : {E A B : Type ℓ} → Result E A → Result E B → Result E B
m >> n = m >>= λ _. n

unfoldable pub fail_if : {E : Type 0} → Bool → E → Result E (Unit {0})
fail_if true e = failed e
fail_if false e = ok tt

unfoldable pub or_fail {ℓ} : {E A : Type ℓ} → Option A → E → Result E A
or_fail none e = failed e
or_fail (some a) e = ok a

-- A step that gave a result, with the result that it went on from.
pub bound {ℓ} :
    {E A B : Type ℓ} (m : Result E A) (f : A → Result E B) (b : B)
    → (m >>= f) ≡ ok b
    → (a : A) × (m ≡ ok a) × (f a ≡ ok b)
bound (failed x) f b e = cc
bound (ok a) f b e = (a, refl, e)

-- The rows after a transaction: those that it leaves, or the same where it fails.
abbrev pub committed : {E A R : Type 0} → R → Result E (A × R) → R
committed r (failed e) = r
committed r (ok x) = x.1

-- What holds of a result, wherever there is one.
pub record Ensures {ℓ} {E A : Type ℓ} (P : A → Type ℓ) (m : Result E A) : Type ℓ where
  pub at : (a : A) → m ≡ ok a → P a

module _ {ℓ} {E A B : Type ℓ} {P : B → Type ℓ} where
  pub Ensures-bind :
      (m : Result E A) (f : A → Result E B)
      → ((a : A) → m ≡ ok a → Ensures P (f a))
      → Ensures P (m >>= f)
  Ensures-bind (failed e) f h = record { at = λ b e. cc }
  Ensures-bind (ok a) f h = h a refl

  pub Ensures-found :
      (o : Option A) (e : E) (f : A → Result E B)
      → ((a : A) → o ≡ some a → Ensures P (f a))
      → Ensures P (or_fail o e >>= f)
  unfolding or_fail
  Ensures-found none e f h = record { at = λ b e. cc }
  Ensures-found (some a) e f h = h a refl

pub Ensures-ok {ℓ} : {E A : Type ℓ} {P : A → Type ℓ} (a : A) → P a → Ensures {E = E} P (ok a)
Ensures-ok {E} {A} {P} a h = record { at = λ b e. subst P (ok-injective {E = E} e) h }

pub Ensures-pass :
    {E A : Type 0} {P : A → Type 0} (b : Bool) (e : E) (m : Result E A)
    → (b ≡ false → Ensures P m)
    → Ensures P (fail_if b e >> m)
unfolding fail_if
Ensures-pass true e m h = record { at = λ b e. cc }
Ensures-pass false e m h = h refl

-- The result, or another value where there is none.
abbrev pub result_or {ℓ} : {E A : Type ℓ} → A → Result E A → A
result_or a (failed e) = a
result_or a (ok b) = b

pub fail_if-passes : {E : Type 0} (b : Bool) (e : E) (t : Unit {0}) → fail_if b e ≡ ok t → b ≡ false
unfolding fail_if
fail_if-passes true e t h = cc
fail_if-passes false e t h = refl
