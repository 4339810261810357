-- ===== src/Board/Triple.antt =====
-- Preconditions and postconditions of transactions: one rule for each step of a block. The
-- postcondition speaks of the answer and of the rows that are left.
use msg_backend.Prelude.{◌≡◌, refl, subst, Bool, true, false, Option, none, some}
use msg_backend.Board.Model.{Rows, TeamBoardState}
use msg_backend.Board.Monad.{
  Error, Result, ok, err, M, pure, or_raise, gets, modify, raise_if, get_state, modify_state,
  with_state, does_not_exist, ◌>>=◌, ◌>>◌,
}
use msg_backend.Board.Keeps.{After, Keeps}

abbrev pub Leaves : {A : Type 0} → (A → Rows → Type 0) → Result (A × Rows) → Type 0
Leaves Q (ok p) = Q p.0 p.1
Leaves Q (err e) = Unit

pub record Triple {A : Type 0} (P : Rows → Type 0) (Q : A → Rows → Type 0) (m : M A) : Type 0 where
  pub at : (r : Rows) → P r → Leaves Q (m r)

-- What holds of the answer and the rows of a call that returned.
pub Triple-ok :
    {A : Type 0} {P : Rows → Type 0} {Q : A → Rows → Type 0} {m : M A}
    → Triple P Q m
    → (r : Rows) (x : A × Rows) → m r ≡ ok x
    → P r
    → Q x.0 x.1
Triple-ok {Q = Q} t r x e h = subst (Leaves Q) e (t.at r h)

-- A fact that is not about the rows is kept.
pub Keeps-any : {A : Type 0} {K : Type 0} (m : M A) → Keeps (λ r. K) m
Keeps-any m = record { at = λ r h. any (m r) h }
  where
    any : {A K : Type 0} (x : Result (A × Rows)) → K → After (λ r. K) x
    any (ok p) h = h
    any (err e) h = tt

pub Keeps-Triple : {A : Type 0} {P : Rows → Type 0} (m : M A) → Triple P (λ a r. P r) m → Keeps P m
Keeps-Triple {A} {P} m t = record { at = λ r h. kept (m r) (t.at r h) }
  where
    kept : (x : Result (A × Rows)) → Leaves (λ a r. P r) x → After P x
    kept (ok p) h = h
    kept (err e) h = tt

pub Triple-Keeps : {A : Type 0} {P : Rows → Type 0} (m : M A) → Keeps P m → Triple P (λ a r. P r) m
Triple-Keeps {A} {P} m k = record { at = λ r h. left (m r) (k.at r h) }
  where
    left : (x : Result (A × Rows)) → After P x → Leaves (λ a r. P r) x
    left (ok p) h = h
    left (err e) h = tt

module _ {A : Type 0} {P : Rows → Type 0} {Q : A → Rows → Type 0} where
  pub Triple-pure : (a : A) → ((r : Rows) → P r → Q a r) → Triple P Q (pure a)
  unfolding pure
  Triple-pure a k = record { at = k }

  pub Triple-pre :
      {P' : Rows → Type 0} {m : M A} → ((r : Rows) → P r → P' r) → Triple P' Q m → Triple P Q m
  Triple-pre k t = record { at = λ r h. t.at r (k r h) }

  -- A fact that the precondition gives, and that is not about the rows, may be used outside it.
  pub Triple-fact :
      {K : Type 0} {m : M A} → ((r : Rows) → P r → K) → (K → Triple P Q m) → Triple P Q m
  Triple-fact f k = record { at = λ r h. (k (f r h)).at r h }

  -- Where the precondition cannot hold.
  pub Triple-absurd : (m : M A) → ((r : Rows) → P r → ⊥) → Triple P Q m
  Triple-absurd m k = record { at = λ r h. absurd (k r h) }

module _ {A B : Type 0} {Q : B → Rows → Type 0} where
  join :
      {P' : A → Rows → Type 0} (x : Result (A × Rows)) (f : A → M B)
      → Leaves P' x
      → ((a : A) → Triple (P' a) Q (f a))
      → Leaves Q (elim x [ ok p ↦ f p.0 p.1 | err e ↦ err e ])
  join (ok p) f h k = (k p.0).at p.1 h
  join (err e) f h k = tt

module _ {A B : Type 0} {P : Rows → Type 0} {Q : B → Rows → Type 0} where
  go_on :
      (x : Result (A × Rows)) (f : A → M B)
      → After P x
      → ((a : A) → Triple P Q (f a))
      → Leaves Q (elim x [ ok p ↦ f p.0 p.1 | err e ↦ err e ])
  go_on (ok p) f h k = (k p.0).at p.1 h
  go_on (err e) f h k = tt

  pub Triple-then :
      (m : M A) (f : A → M B) → Keeps P m → ((a : A) → Triple P Q (f a)) → Triple P Q (m >>= f)
  unfolding ◌>>=◌
  Triple-then m f km kf = record { at = λ r h. go_on (m r) f (km.at r h) kf }

  pub Triple-bind :
      {P' : A → Rows → Type 0} (m : M A) (f : A → M B)
      → Triple P P' m
      → ((a : A) → Triple (P' a) Q (f a))
      → Triple P Q (m >>= f)
  unfolding ◌>>=◌
  Triple-bind m f t k = record { at = λ r h. join (m r) f (t.at r h) k }

  pub Triple-found :
      (o : Option A) (x : Error) (f : A → M B)
      → ((a : A) → o ≡ some a → Triple P Q (f a))
      → Triple P Q (or_raise o x >>= f)
  unfolding ◌>>=◌
  Triple-found none x f k = record { at = λ r h. tt }
  Triple-found (some a) x f k = record { at = (k a refl).at }

  pub Triple-gets :
      (g : Rows → A) (f : A → M B)
      → ((a : A) → Triple (λ r. P r × (g r ≡ a)) Q (f a))
      → Triple P Q (gets g >>= f)
  unfolding ◌>>=◌
  Triple-gets g f k = record { at = λ r h. (k (g r)).at r (h, refl) }

pub Triple-last :
    {P : Rows → Type 0} {Q : Unit {0} → Rows → Type 0} (f : Rows → Rows)
    → ((r : Rows) → P r → Q tt (f r))
    → Triple P Q (modify f)
unfolding modify
Triple-last f k = record { at = k }

module _ {B : Type 0} {P : Rows → Type 0} {Q : B → Rows → Type 0} where
  pub Triple-test :
      (b : Bool) (x : Error) (m : M B) → (b ≡ false → Triple P Q m) → Triple P Q (raise_if b x >> m)
  unfolding ◌>>=◌
  Triple-test true x m k = record { at = λ r h. tt }
  Triple-test false x m k = record { at = (k refl).at }

  pub Triple-modify :
      {P' : Rows → Type 0} (f : Rows → Rows) (m : M B)
      → ((r : Rows) → P r → P' (f r))
      → Triple P' Q m
      → Triple P Q (modify f >> m)
  unfolding ◌>>=◌
  Triple-modify f m k t = record { at = λ r h. t.at (f r) (k r h) }

  pub Triple-state :
      (f : TeamBoardState → M B)
      → ((s : TeamBoardState) → Triple (λ r. P r × (r.state ≡ some s)) Q (f s))
      → Triple P Q (get_state >>= f)
  unfolding ◌>>=◌
  Triple-state f k = record { at = λ r h. step r r.state refl h }
    where
      step :
          (r : Rows) (o : Option TeamBoardState)
          → r.state ≡ o
          → P r
          → Leaves Q (elim (or_raise o does_not_exist r) [ ok p ↦ f p.0 p.1 | err e ↦ err e ])
      step r none e h = tt
      step r (some s) e h = (k s).at r (h, e)

  pub Triple-modify_state :
      {P' : Rows → Type 0} (f : TeamBoardState → TeamBoardState) (m : M B)
      → ((r : Rows) → P r → P' (with_state f r r.state))
      → Triple P' Q m
      → Triple P Q (modify_state f >> m)
  unfolding ◌>>=◌
  Triple-modify_state f m k t = record { at = λ r h. t.at (with_state f r r.state) (k r h) }
