-- ===== src/Instances/Steps.antt =====
-- Every step of a history is a change of the rows.
use msg_backend.Prelude.{
  ℕ, suc, ◌≡◌, refl, sym, subst, ◌∙◌, ◌⊎◌, inl, inr, Bool, true, not, Option, none, some,
  some-injective, List, [], ◌∷◌, if◌then◌else◌, if_cases, first_passes, arith,
}
use msg_backend.Prelude.Result.{Result, failed, ok, committed, Ensures, Ensures-found, Ensures-ok}
use msg_backend.Instances.{
  Status, started, recovery_pending, completed, rejected, review_required, owner_changed,
  InstanceWriteOperation, Rows, Failure, Uuid, has_id, has_owner, find_operation, is_blocking,
  save_operation,
}
use msg_backend.Instances.Sending.{finish_create, finish_reset}
use msg_backend.Instances.Requests.{Answers, Settings}
use msg_backend.Instances.Attempt.{attempt}
use msg_backend.Instances.Recovery.{
  is_eligible, conclude, recover_locked, change_owner, recover_write,
}
use msg_backend.Instances.Histories.{
  Operation, begin, create, reset, recover, change, elsewhere, held, answered, cascade, serve, run,
}
use msg_backend.Instances.Changes.{
  Change, stay, revise, IsRevision, IsBacked, kept, update_first-IsKept, unfinished-IsBacked,
  begin_write-Change,
}
use msg_backend.Instances.Sent.{IsSameWrite, IsRowOf, finish_create-Change, finish_reset-Change}
use msg_backend.Instances.Concluded.{attempt-IsTried, conclude-Change}

is_eligible-blocking :
    (settings : Settings) (review : Bool) (now : ℕ) (o : InstanceWriteOperation) (s : Status)
    → is_eligible settings review now o s ≡ true
    → is_blocking s ≡ true
is_eligible-blocking settings review now o started e = refl
is_eligible-blocking settings review now o recovery_pending e = refl
is_eligible-blocking settings review now o review_required e = refl
is_eligible-blocking settings review now o completed e = absurd (ground (arith, e))
is_eligible-blocking settings review now o rejected e = absurd (ground (arith, e))

named :
    (id : ℕ) (r : Rows) (o : InstanceWriteOperation)
    → find_operation id r ≡ some o
    → find_operation o.operation_id r ≡ some o
named id r o found =
    let same : id ≡ o.operation_id =
      ground (arith, first_passes (has_id id) r.operations o found) in
    subst (λ n. find_operation n r ≡ some o) same found

recover_locked-Change :
    (u : Uuid) (settings : Settings) (eligible : Status → Bool) (a : Answers) (fails : Bool)
    (id now : ℕ) (r : Rows)
    → ((s : Status) → eligible s ≡ true → is_blocking s ≡ true)
    → Ensures (λ x. Change r x.1) (recover_locked u settings eligible a fails id now r)
unfolding recover_locked
recover_locked-Change u settings eligible a fails id now r blocking = Ensures-found _ _ _ λ o found.
    let begun = record o { status = recovery_pending; attempts = suc o.attempts } in
    let tried = attempt u begun a fails now r in
    let h = attempt-IsTried u begun a fails now r in
    let same : IsSameWrite o tried.operation = record {
      key = h.same.key;
      user = h.same.user;
      team = h.same.team;
      challenge = h.same.challenge;
    } in
    if_cases (Ensures (λ x. Change r x.1)) (eligible o.status)
      (conclude u settings now tried.operation tried.result r) (ok (o.status, r))
      (λ y.
        conclude-Change u settings now tried.operation o tried.result r same h.settled
          (subst (λ n. find_operation n r ≡ some o) (sym same.key) (named id r o found))
          (blocking o.status y))
      (λ _. Ensures-ok _ (stay refl (kept r.instances)))

change_owner-IsRevision :
    (eligible : Status → Bool) (now : ℕ) (o : InstanceWriteOperation) (r s : Rows)
    → ((t : Status) → eligible t ≡ true → is_blocking t ≡ true)
    → s.instances ≡ r.instances
    → IsRevision o (change_owner eligible now o) r s
change_owner-IsRevision eligible now o r s blocking same =
    let changed = record o {
      status = review_required;
      last_error_code = owner_changed;
      updated_at = now;
    } in
    if_cases (λ p. IsRevision o p r s) (eligible o.status) changed o
      (λ y. record {
        user = refl;
        team = refl;
        challenge = refl;
        key = refl;
        final = λ c. absurd (ground (arith, c, blocking o.status y));
        exclusive = inl (λ _. blocking o.status y);
        backed = λ _. unfinished-IsBacked s.instances changed refl;
      })
      (λ _. record {
        user = refl;
        team = refl;
        challenge = refl;
        key = refl;
        final = λ c. c;
        exclusive = inl (λ b. b);
        backed = subst (λ is. IsBacked r.instances o → IsBacked is o) (sym same) (λ b. b);
      })

recover_write-Change :
    (u : Uuid) (settings : Settings) (review : Bool) (a : Answers) (fails : Bool) (id now : ℕ)
    (before r : Rows)
    → Ensures (λ x. Change r x.1) (recover_write u settings review a fails id now before r)
unfolding recover_write
recover_write-Change u settings review a fails id now before r = Ensures-found _ _ _ λ snapshot _.
    let eligible = is_eligible settings review now snapshot in
    let blocking = is_eligible-blocking settings review now snapshot in
    let owned = recover_locked u settings eligible a fails id now r in
    let changed = save_operation id (change_owner eligible now) r in
    let rest = if has_owner snapshot before then owned else ok (review_required, changed) in
    if_cases (Ensures (λ x. Change r x.1)) (not (eligible snapshot.status))
      (ok (snapshot.status, r)) rest (λ _. Ensures-ok _ (stay refl (kept r.instances)))
      (λ _.
        if_cases (Ensures (λ x. Change r x.1)) (has_owner snapshot before) owned
          (ok (review_required, changed))
          (λ _. recover_locked-Change u settings eligible a fails id now r blocking)
          (λ _. Ensures-ok _ (
            revise id (change_owner eligible now) refl (kept r.instances)
              λ o _. change_owner-IsRevision eligible now o r changed blocking refl)))

committed-Change :
    {A : Type 0} (r : Rows) (m : Result Failure (A × Rows))
    → Ensures (λ x. Change r x.1) m
    → Change r (committed r m)
committed-Change r (failed e) h = stay refl (kept r.instances)
committed-Change r (ok x) h = h.at x refl

answered-Change :
    (id : ℕ) (source : Option ℕ) (send : InstanceWriteOperation → Rows → Rows) (r : Rows)
    (found : Option InstanceWriteOperation)
    → ((o : InstanceWriteOperation) → IsRowOf o r → Change r (send o r))
    → find_operation id r ≡ found
    → Change r (answered source send r found)
answered-Change id source send r none h e = stay refl (kept r.instances)
answered-Change id source send r (some o) h e = h (held source o) λ row found.
    let this : o ≡ row = some-injective o row (sym (named id r o e) ∙ found) in
    subst (λ a. IsSameWrite a (held source o)) this
      (record { key = refl; user = refl; team = refl; challenge = refl })

-- What the deletions of an event leave of the rows.
abbrev pub Leaves : Operation → Rows → Rows → Type 0
Leaves (elsewhere users teams challenges releases) r s =
    (s.operations ≡ r.operations) × (s.instances ≡ cascade users teams challenges r.instances)
Leaves _ r s = ⊥

pub serve-cases :
    (u : Uuid) (o : Operation) (r : Rows) → Change r (serve u o r) ⊎ Leaves o r (serve u o r)
serve-cases u (begin w now) r = inl (committed-Change r _ (begin_write-Change w now r))
serve-cases u (create id source release answer fails now) r = inl (
    answered-Change id source (λ o. finish_create u o release answer fails now) r
      (find_operation id r) (λ o h. finish_create-Change u o release answer fails now r h) refl)
serve-cases u (reset id instance_id source release answer fails now) r = inl (
    answered-Change id source (λ o. finish_reset u o instance_id release answer fails now) r
      (find_operation id r)
      (λ o h. finish_reset-Change u o instance_id release answer fails now r h) refl)
serve-cases u (recover settings review a fails id now before) r =
    inl (committed-Change r _ (recover_write-Change u settings review a fails id now before r))
serve-cases u (change id status reason) r =
    inl (stay refl (update_first-IsKept _ _ r.instances λ a n user team challenge _ e. e))
serve-cases u (elsewhere users teams challenges releases) r = inr (refl, refl)

Leaves-operations : (o : Operation) (r s : Rows) → Leaves o r s → s.operations ≡ r.operations
Leaves-operations (elsewhere users teams challenges releases) r s h = h.0
Leaves-operations (begin w now) r s h = absurd h
Leaves-operations (create id source release answer fails now) r s h = absurd h
Leaves-operations (reset id instance_id source release answer fails now) r s h = absurd h
Leaves-operations (recover settings review a fails id now before) r s h = absurd h
Leaves-operations (change id status reason) r s h = absurd h

-- What every change of the operations keeps holds after any history.
pub run_keeps :
    (P : Rows → Type 0)
    → ((r s : Rows) → Change r s → P r → P s)
    → ((r s : Rows) → s.operations ≡ r.operations → P r → P s)
    → (u : Uuid) (operations : List Operation) (r : Rows) → P r
    → P (run u operations r)
run_keeps P keeps same u [] r h = h
run_keeps P keeps same u (o ∷ operations) r h =
    let after : P (serve u o r) = elim (serve-cases u o r) [
      | inl c ↦ keeps r (serve u o r) c h
      | inr l ↦ same r (serve u o r) (Leaves-operations o r (serve u o r) l) h
    ] in
    run_keeps P keeps same u operations (serve u o r) after
