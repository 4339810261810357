-- ===== src/Board/Keeps.antt =====
-- Invariants of transactions: one rule for each way to build one.
use msg_backend.Prelude.{◌≡◌, refl, subst, Bool, true, false, Option, none, some, if◌then◌else◌}
use msg_backend.Board.Model.{Rows, TeamBoardState}
use msg_backend.Board.Monad.{
  Error, Result, ok, err, M, pure, raise, or_raise, lift, gets, modify, raise_if, when, get_state,
  modify_state, with_state, does_not_exist, ◌>>=◌, ◌>>◌,
}

-- What the rows are after a call; a call that raises leaves none.
abbrev pub After : {A : Type 0} → (Rows → Type 0) → Result (A × Rows) → Type 0
After P (ok p) = P p.1
After P (err e) = Unit

-- A transaction that returns leaves rows with `P` if it found rows with `P`.
pub record Keeps {A : Type 0} (P : Rows → Type 0) (m : M A) : Type 0 where
  pub at : (r : Rows) → P r → After P (m r)

module _ {A : Type 0} {P : Rows → Type 0} where
  pub Keeps-pure : (a : A) → Keeps P (pure a)
  unfolding pure
  Keeps-pure a = record { at = λ r h. h }

  pub Keeps-raise : (x : Error) → Keeps P (raise {A = A} x)
  unfolding raise
  Keeps-raise x = record { at = λ r h. tt }

  pub Keeps-or_raise : (o : Option A) (x : Error) → Keeps P (or_raise o x)
  unfolding or_raise
  Keeps-or_raise none x = record { at = λ r h. tt }
  Keeps-or_raise (some a) x = record { at = λ r h. h }

  pub Keeps-lift : (o : Result A) → Keeps P (lift o)
  unfolding lift
  Keeps-lift (ok a) = record { at = λ r h. h }
  Keeps-lift (err e) = record { at = λ r h. tt }

  pub Keeps-gets : (f : Rows → A) → Keeps P (gets f)
  unfolding gets
  Keeps-gets f = record { at = λ r h. h }

  pub Keeps-if : (b : Bool) (m n : M A) → Keeps P m → Keeps P n → Keeps P (if b then m else n)
  Keeps-if true m n km kn = km
  Keeps-if false m n km kn = kn

  -- What a call that returned has left.
  pub Keeps-ok : {m : M A} → Keeps P m → (r r' : Rows) (a : A) → m r ≡ ok (a, r') → P r → P r'
  Keeps-ok k r r' a e h = subst (After P) e (k.at r h)

module _ {P : Rows → Type 0} where
  pub Keeps-modify : (f : Rows → Rows) → ((r : Rows) → P r → P (f r)) → Keeps P (modify f)
  unfolding modify
  Keeps-modify f k = record { at = k }

  pub Keeps-raise_if : (b : Bool) (x : Error) → Keeps P (raise_if b x)
  unfolding raise_if
  Keeps-raise_if true x = record { at = λ r h. tt }
  Keeps-raise_if false x = record { at = λ r h. h }

  pub Keeps-when : (b : Bool) (m : M (Unit {0})) → Keeps P m → Keeps P (when b m)
  unfolding when
  Keeps-when true m k = record { at = k.at }
  Keeps-when false m k = record { at = λ r h. h }

  pub Keeps-get_state : Keeps P get_state
  unfolding get_state
  Keeps-get_state = record { at = λ r h. (Keeps-or_raise r.state _).at r h }

  pub Keeps-modify_state :
      (f : TeamBoardState → TeamBoardState)
      → ((r : Rows) (s : TeamBoardState)
          → r.state ≡ some s
          → P r
          → P (record r { state = some (f s) }))
      → Keeps P (modify_state f)
  unfolding modify_state
  Keeps-modify_state f k = record { at = λ r h. step r r.state refl h }
    where
      step : (r : Rows) (o : Option TeamBoardState) → r.state ≡ o → P r → P (with_state f r o)
      step r none e h = h
      step r (some s) e h = k r s e h

module _ {A B : Type 0} {P : Rows → Type 0} where
  pub continue :
      (x : Result (A × Rows)) (f : A → M B)
      → After P x
      → ((a : A) → Keeps P (f a))
      → After P (elim x [ ok p ↦ f p.0 p.1 | err e ↦ err e ])
  continue (ok p) f h k = (k p.0).at p.1 h
  continue (err e) f h k = tt

  pub Keeps-bind :
      (m : M A) (f : A → M B) → Keeps P m → ((a : A) → Keeps P (f a)) → Keeps P (m >>= f)
  unfolding ◌>>=◌
  Keeps-bind m f km kf = record { at = λ r h. continue (m r) f (km.at r h) kf }

module _ {A B : Type 0} {P : Rows → Type 0} where
  -- The rest of the block may use what was found, or that a test did not raise.
  pub Keeps-bind_found :
      (o : Option A) (x : Error) (f : A → M B)
      → ((a : A) → o ≡ some a → Keeps P (f a))
      → Keeps P (or_raise o x >>= f)
  unfolding ◌>>=◌
  Keeps-bind_found none x f k = record { at = λ r h. tt }
  Keeps-bind_found (some a) x f k = record { at = (k a refl).at }

  pub Keeps-bind_lift :
      (o : Result A) (f : A → M B) → ((a : A) → o ≡ ok a → Keeps P (f a)) → Keeps P (lift o >>= f)
  unfolding ◌>>=◌
  Keeps-bind_lift (err e) f k = record { at = λ r h. tt }
  Keeps-bind_lift (ok a) f k = record { at = (k a refl).at }

  -- The rest of the block may use what `P` says of the value that was read.
  pub Keeps-bind_gets :
      (g : Rows → A) (f : A → M B) (R : A → Type 0)
      → ((r : Rows) → P r → R (g r))
      → ((a : A) → R a → Keeps P (f a))
      → Keeps P (gets g >>= f)
  unfolding ◌>>=◌
  Keeps-bind_gets g f R known k = record { at = λ r h. (k (g r) (known r h)).at r h }

module _ {B : Type 0} {P : Rows → Type 0} where
  pub Keeps-bind_test :
      (b : Bool) (x : Error) (m : M B) → (b ≡ false → Keeps P m) → Keeps P (raise_if b x >> m)
  unfolding ◌>>=◌
  Keeps-bind_test true x m k = record { at = λ r h. tt }
  Keeps-bind_test false x m k = record { at = (k refl).at }

  pub Keeps-bind_state :
      (f : TeamBoardState → M B) (R : TeamBoardState → Type 0)
      → ((r : Rows) (s : TeamBoardState) → r.state ≡ some s → P r → R s)
      → ((s : TeamBoardState) → R s → Keeps P (f s))
      → Keeps P (get_state >>= f)
  unfolding ◌>>=◌
  Keeps-bind_state f R known k = record { at = λ r h. step r r.state refl h }
    where
      step :
          (r : Rows) (o : Option TeamBoardState)
          → r.state ≡ o
          → P r
          → After P (elim (or_raise o does_not_exist r) [ ok p ↦ f p.0 p.1 | err e ↦ err e ])
      step r none e h = tt
      step r (some s) e h = (k s (known r s e h)).at r h

pub ruleset keeps_rules = (
  Keeps-pure, Keeps-raise, Keeps-or_raise, Keeps-lift, Keeps-gets, Keeps-raise_if, Keeps-when,
  Keeps-get_state, Keeps-bind, Keeps-if,
)
