-- ===== src/Instances/Lasting.antt =====
-- Completed writes and their instances, through histories (apps/instances/write_recovery.py).
use msg_backend.Prelude.{
  ℕ, Bool, ◌≡◌, ◌∙◌, refl, map, select, either_true, [], ◌∷◌, sym, ap, subst, inl, inr, true, false,
  some, List, ◌==◌, Bool-cases, first, first_passes, exists, exists-first, first-update_first, All,
  arith,
}
use msg_backend.Instances.{
  InstanceWriteOperation, Instance, User, Team, Rows, Uuid, Write, new_operation, has_id,
  find_operation, is_completed,
}
use msg_backend.Instances.Histories.{
  Operation, begin, create, reset, recover, change, elsewhere, is_left, serve, run,
}
use msg_backend.Instances.Changes.{Change, stay, add, revise, IsKept, IsBacked, is_instance}
use msg_backend.Instances.Steps.{Leaves, serve-cases}

moved-IsBacked :
    (is js : List Instance)
    → IsKept is js
    → (o : InstanceWriteOperation) → IsBacked is o
    → IsBacked js o
moved-IsBacked is js keep o h c =
    let (id, remote, there) = h c in (id, remote, keep id o.user_id o.team_id o.challenge_id there)

not_new :
    (w : Write) (now id : ℕ) (r : Rows) (o : InstanceWriteOperation)
    → exists (has_id w.operation_id) r.operations ≡ false
    → find_operation id r ≡ some o
    → has_id id (new_operation w now) ≡ false
not_new w now id r o fresh found = elim (Bool-cases (has_id id (new_operation w now))) [
  | inl y ↦
      let this = first_passes (has_id id) r.operations o found in
      let there =
        exists-first (has_id w.operation_id) (has_id id) r.operations o found
          (ground (arith, y, this)) in
      absurd (ground (arith, fresh, there))
  | inr n ↦ n
]

-- The operation `a`, as it was, under its key now: of the same user, team and challenge, completed if it
-- was, and with its instance where it is completed.
abbrev Lasts : ℕ → InstanceWriteOperation → Rows → InstanceWriteOperation → Type 0
Lasts id a r o =
    (find_operation id r ≡ some o)
    × (o.user_id ≡ a.user_id)
    × (o.team_id ≡ a.team_id)
    × (o.challenge_id ≡ a.challenge_id)
    × (is_completed a.status ≡ true → is_completed o.status ≡ true)
    × IsBacked r.instances o

abbrev pub IsLasting : ℕ → InstanceWriteOperation → Rows → Type 0
IsLasting id a r = (o : InstanceWriteOperation) × Lasts id a r o

moved-Lasts :
    (id : ℕ) (a o : InstanceWriteOperation) (r s : Rows)
    → find_operation id s ≡ some o
    → IsKept r.instances s.instances
    → Lasts id a r o
    → IsLasting id a s
moved-Lasts id a o r s there keep (_, user, team, challenge, final, backed) =
    (o, (there, user, team, challenge, final, moved-IsBacked r.instances s.instances keep o backed))

Change-IsLasting :
    (id : ℕ) (a : InstanceWriteOperation) (r s : Rows)
    → Change r s
    → IsLasting id a r
    → IsLasting id a s
Change-IsLasting id a r s (stay e keep) (o, h) =
    moved-Lasts id a o r s (subst (λ l. first (has_id id) l ≡ some o) (sym e) h.0) keep h
Change-IsLasting id a r s (add w now free fresh e keep) (o, h) =
    moved-Lasts id a o r s
      (subst (λ l. first (has_id id) l ≡ some o) (sym e) (rw (not_new w now id r o fresh h.0) h.0))
      keep h
Change-IsLasting id a r s (revise n f e keep revision) (o, h) =
    elim (first-update_first (has_id id) (has_id n) f o r.operations
      (λ x k. ap (λ m. m == id) (revision x k).key) h.0) [
        | inl k ↦
            moved-Lasts id a o r s (subst (λ l. first (has_id id) l ≡ some o) (sym e) k) keep h
        | inr k ↦
            let (found, user, team, challenge, final, backed) = h in
            let p = revision o k.0 in
            (
              f o,
              (
                subst (λ l. first (has_id id) l ≡ some (f o)) (sym e) k.1,
                p.user ∙ user,
                p.team ∙ team,
                p.challenge ∙ challenge,
                (λ c. p.final (final c)),
                p.backed backed,
              ),
            )
      ]

-- The event deletes neither this user, nor this team, nor this challenge.
abbrev pub IsLeft : ℕ → ℕ → ℕ → Operation → Type 0
IsLeft user team challenge (elsewhere users teams challenges releases) =
    is_left users teams challenges user team challenge ≡ true
IsLeft user team challenge _ = Unit

owned_left :
    (users : List User) (teams : List Team) (challenges : List ℕ) (id user team challenge : ℕ)
    (i : Instance)
    → is_left users teams challenges user team challenge ≡ true
    → is_instance id user team challenge i ≡ true
    → is_left users teams challenges i.user_id i.team_id i.challenge_id ≡ true
owned_left users teams challenges id user team challenge i left h =
    let u : i.user_id ≡ user = ground (arith, h) in
    let t : i.team_id ≡ team = ground (arith, h) in
    let c : i.challenge_id ≡ challenge = ground (arith, h) in rw u (rw t (rw c left))

selected :
    (q p : Instance → Bool) (g : Instance → Instance) (is : List Instance)
    → ((i : Instance) → q i ≡ true → p i ≡ true)
    → ((i : Instance) → q i ≡ true → q (g i) ≡ true)
    → exists q is ≡ true
    → exists q (map g (select p is)) ≡ true
selected q p g [] k same h = absurd (ground (arith, h))
selected q p g (i ∷ is) k same h = elim (Bool-cases (q i)) [
  | inl y ↦ rw (k i y) (rw (same i y) refl)
  | inr n ↦
      let rest = selected q p g is k same (sym (rw n refl) ∙ h) in
      elim (Bool-cases (p i)) [ inl z ↦ rw z (either_true (q (g i)) _ rest) | inr m ↦ rw m rest ]
]

Leaves-IsLasting :
    (id : ℕ) (a : InstanceWriteOperation) (e : Operation) (r s : Rows)
    → IsLeft a.user_id a.team_id a.challenge_id e
    → Leaves e r s
    → IsLasting id a r
    → IsLasting id a s
Leaves-IsLasting id a (elsewhere users teams challenges releases) r s left l (o, h) =
    let (found, user, team, challenge, final, backed) = h in
    let mine : is_left users teams challenges o.user_id o.team_id o.challenge_id ≡ true =
      rw user (rw team (rw challenge left)) in
    (
      o,
      (
        subst (λ ops. first (has_id id) ops ≡ some o) (sym l.0) found,
        user,
        team,
        challenge,
        final,
        (λ c.
            let (n, bound, there) = backed c in
            let q = is_instance n o.user_id o.team_id o.challenge_id in
            (
              n,
              bound,
              subst (λ is. exists q is ≡ true) (sym l.1)
                  (selected q
                    (λ i. is_left users teams challenges i.user_id i.team_id i.challenge_id) _
                    r.instances
                    (λ i.
                      owned_left users teams challenges n o.user_id o.team_id o.challenge_id i mine)
                    (λ i k. k) there),
            )),
      ),
    )
Leaves-IsLasting id a (begin w now) r s left l h = absurd l
Leaves-IsLasting id a (create n source release answer fails now) r s left l h = absurd l
Leaves-IsLasting id a (reset n m source release answer fails now) r s left l h = absurd l
Leaves-IsLasting id a (recover settings review b fails n now before) r s left l h = absurd l
Leaves-IsLasting id a (change n status reason) r s left l h = absurd l

-- Where an operation, if it is completed, has its instance, and no event of the history deletes its
-- user, team or challenge: after any such history of requests, answers, recoveries and other changes,
-- the operation is there, of the same user, team and challenge; it is completed if it was; and if it
-- is completed afterwards, it has an instance of its user, team and challenge.
pub completed_lasts :
    (u : Uuid) (operations : List Operation) (r : Rows) (id : ℕ) (a : InstanceWriteOperation)
    → All (IsLeft a.user_id a.team_id a.challenge_id) operations
    → IsLasting id a r
    → IsLasting id a (run u operations r)
completed_lasts u [] r id a left h = h
completed_lasts u (e ∷ operations) r id a left h =
    let after : IsLasting id a (serve u e r) = elim (serve-cases u e r) [
      | inl c ↦ Change-IsLasting id a r (serve u e r) c h
      | inr l ↦ Leaves-IsLasting id a e r (serve u e r) left.0 l h
    ] in
    completed_lasts u operations (serve u e r) id a left.1 after
