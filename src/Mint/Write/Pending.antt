-- ===== src/Mint/Write/Pending.antt =====
-- `_verify_spent_proofs_and_set_pending` and `_unset_proofs_pending`: what they do, and that the
-- second undoes the first.
use nutshell.Base.{
  ◌+ℤ◌, ◌-ℤ◌, String, Bool, true, false, Option, List, [], ◌∷◌, ◌≡◌, refl, ap, sym, ◌∙◌, arith,
  Distinct, inl, inr, subst, fun_ext, sub-add_cancel,
}
use nutshell.Core.Errors.{Error, proofs_already_spent, proofs_are_pending}
use nutshell.Core.Proofs.{Proof, ProofSpentState, amount_in}
use nutshell.Core.Result.{ok, err, require-eq-ok}
use nutshell.Mint.State.{Db, Mint, Keysets, IsKeyed, for_each, transaction, submit, Event, check}
use nutshell.Mint.Chains.{
  >>=-returns, check-returns, OnlyTables, >>=-OnlyTables, transaction-raises, transaction-returns,
  transaction-ok, >>=-raises, err-ne-ok,
}
use nutshell.Mint.Crud.{Ys}
use nutshell.Mint.Read.{proof_Ys, verify_proofs_spendable, get_proofs_spent_dict}
use nutshell.Mint.Tables.{
  Fresh, used-Fresh, pending-Fresh, HashedRows, HashedProofs, secrets, drop_secrets-push_rows,
}
use nutshell.Mint.Write.{
  set_pending_body, validate_proofs_pending, verify_spent_proofs_and_set_pending,
  unset_pending_step, unset_proofs_pending, state_event, announce_unspent,
}
use nutshell.Mint.Write.Loops.{
  push_rows, Known, set_pending_loop-returns, set_pending_loop-Known, set_pending_loop-OnlyTables,
  unset_pending_loop-returns, unset_pending_loop-ok, drop_secrets,
}

-- Sending events cannot raise.
pub for_each-submit :
    (f : Proof → Event) (ps : List Proof) (s : Mint)
    → (t : Mint) × (for_each (λ p. submit (f p)) ps s ≡ (ok tt, t))
      × (t.db ≡ s.db)
      × (t.disable_melt ≡ s.disable_melt)
for_each-submit f [] s = (s, refl, refl, refl)
for_each-submit f (p ∷ ps) s = for_each-submit f ps (record s { events = f p ∷ s.events })

set_pending_body-OnlyTables :
    (ks : Keysets) (ps : List Proof) (q : Option String) → OnlyTables (set_pending_body ks ps q)
unfolding set_pending_body
set_pending_body-OnlyTables ks ps q =
    >>=-OnlyTables (check (verify_proofs_spendable ps)) _ (λ s. refl)
      (λ _.
        >>=-OnlyTables (check (validate_proofs_pending ps)) _ (λ s. refl)
          (λ _. set_pending_loop-OnlyTables ks q ps))

-- What the proofs must be for the call to return.
pub record Spendable (ks : Keysets) (ps : List Proof) (db : Db) : Type 0 where
  pub unspent : Fresh (proof_Ys ps) (Ys db.proofs_used)
  pub not_pending : Fresh (proof_Ys ps) (Ys db.proofs_pending)
  pub known : Known ks ps

-- What the call has done when it returns.
pub record IsPending (ps : List Proof) (q : Option String) (before after : Db) : Type 0 where
  pub rows : after.proofs_pending ≡ push_rows q ps before.proofs_pending
  pub balances : (k : String) → after.balance k ≡ before.balance k -ℤ amount_in k ps
  pub others :
      after ≡ record before { proofs_pending = after.proofs_pending; balance = after.balance }

verify_proofs_spendable-Fresh :
    (ps : List Proof) (db : Db)
    → verify_proofs_spendable ps db ≡ ok tt
    → Fresh (proof_Ys ps) (Ys db.proofs_used)
unfolding verify_proofs_spendable get_proofs_spent_dict
verify_proofs_spendable-Fresh ps db e =
    used-Fresh (proof_Ys ps) db (require-eq-ok _ proofs_already_spent e)

validate_proofs_pending-Fresh :
    (ps : List Proof) (db : Db)
    → validate_proofs_pending ps db ≡ ok tt
    → Fresh (proof_Ys ps) (Ys db.proofs_pending)
unfolding validate_proofs_pending
validate_proofs_pending-Fresh ps db e =
    pending-Fresh (proof_Ys ps) db (require-eq-ok _ proofs_are_pending e)

set_pending_body-returns :
    (ks : Keysets) (ps : List Proof) (q : Option String) (s t : Mint)
    → IsKeyed ks
    → set_pending_body ks ps q s ≡ (ok tt, t)
    → Spendable ks ps s.db × IsPending ps q s.db t.db
unfolding set_pending_body
set_pending_body-returns ks ps q s t keyed e =
    let (unspent, e₁) = check-returns (verify_proofs_spendable ps) _ s e in
    let (free, e₂) = check-returns (validate_proofs_pending ps) _ s e₁ in
    let (rows, balances, same) = set_pending_loop-returns ks q ps s t keyed e₂ in
    (
      record {
        unspent = verify_proofs_spendable-Fresh ps s.db unspent;
        not_pending = validate_proofs_pending-Fresh ps s.db free;
        known = set_pending_loop-Known ks q ps s t e₂;
      },
      record { rows = rows; balances = balances; others = ap (λ (x : Mint). x.db) same },
    )

-- When `_verify_spent_proofs_and_set_pending` returns, with every keyset filed under its own id, no
-- proof was spent or pending and every keyset was known; the proofs now stand in the pending table,
-- their amounts are taken off the balances of their keysets, and nothing else in the tables has
-- changed.
pub verify_spent_proofs_and_set_pending-returns :
    (ks : Keysets) (ps : List Proof) (q : Option String) (s t : Mint)
    → IsKeyed ks
    → verify_spent_proofs_and_set_pending ks ps q s ≡ (ok tt, t)
    → Spendable ks ps s.db × IsPending ps q s.db t.db
unfolding verify_spent_proofs_and_set_pending
verify_spent_proofs_and_set_pending-returns ks ps q s t keyed e =
    let (_, u, e₁, e₂) = >>=-returns (transaction (set_pending_body ks ps q)) _ s e in
    let body = transaction-returns (set_pending_body ks ps q) s tt u e₁ in
    let (spendable, done) = set_pending_body-returns ks ps q s u keyed body in
    let (v, sent, same, _) = for_each-submit (state_event ProofSpentState.pending) ps u in
    let final : t.db ≡ u.db = sym (ap (λ r. r.1.db) e₂) ∙ ap (λ r. r.1.db) sent ∙ same in
    (spendable, subst (IsPending ps q s.db) (sym final) done)

-- When `_verify_spent_proofs_and_set_pending` raises, nothing at all has changed: no table, no event
-- and no flag.
pub verify_spent_proofs_and_set_pending-raises :
    (ks : Keysets) (ps : List Proof) (q : Option String) (s t : Mint) (e : Error)
    → verify_spent_proofs_and_set_pending ks ps q s ≡ (err e, t)
    → t ≡ s
unfolding verify_spent_proofs_and_set_pending
verify_spent_proofs_and_set_pending-raises ks ps q s t e h =
    elim (>>=-raises (transaction (set_pending_body ks ps q)) _ s h) [
      | inl first ↦
          transaction-raises (set_pending_body ks ps q) (set_pending_body-OnlyTables ks ps q) s e t
            first
      | inr (_, u, _, rest) ↦
          let (v, sent, _, _) = for_each-submit (state_event ProofSpentState.pending) ps u in
          absurd (err-ne-ok e tt (sym (ap (λ r. r.0) rest) ∙ ap (λ r. r.0) sent))
    ]

announce_unspent-ok :
    (spent : Bool) (ps : List Proof) (s : Mint)
    → (t : Mint) × (announce_unspent spent ps s ≡ (ok tt, t)) × (t.db ≡ s.db)
announce_unspent-ok true ps s = (s, refl, refl)
announce_unspent-ok false ps s =
    let (t, sent, same, _) = for_each-submit (state_event ProofSpentState.unspent) ps s in
    (t, sent, same)

-- What `_unset_proofs_pending` does to the tables.
pub record IsReleased (ps : List Proof) (before after : Db) : Type 0 where
  pub rows : after.proofs_pending ≡ drop_secrets ps before.proofs_pending
  pub balances : (k : String) → after.balance k ≡ before.balance k +ℤ amount_in k ps
  pub others :
      after ≡ record before { proofs_pending = after.proofs_pending; balance = after.balance }

-- With known keysets `_unset_proofs_pending` cannot raise: it deletes the rows with the secrets of
-- the proofs, adds the amounts to the balances of their keysets, and changes no other table.
pub unset_proofs_pending-ok :
    (ks : Keysets) (ps : List Proof) (spent : Bool) (s : Mint)
    → IsKeyed ks
    → Known ks ps
    → (t : Mint) × (unset_proofs_pending ks ps spent s ≡ (ok tt, t)) × IsReleased ps s.db t.db
unfolding unset_proofs_pending
unset_proofs_pending-ok ks ps spent s keyed known =
    let (u, loop) = unset_pending_loop-ok ks ps s known in
    let (rows, balances, same) = unset_pending_loop-returns ks ps s u keyed loop in
    let (t, sent, same_db) = announce_unspent-ok spent ps u in
    let released : IsReleased ps s.db u.db = record {
      rows = rows;
      balances = balances;
      others = ap (λ (x : Mint). x.db) same;
    } in
    (
      t,
      rw (transaction-ok (for_each (unset_pending_step ks) ps) s tt u loop) sent,
      subst (IsReleased ps s.db) (sym same_db) released,
    )

module _ (hash : String → String) (ps : List Proof) (q : Option String) where
  -- Adding the amounts back and taking the rows away undoes what was done.
  pub IsReleased-IsPending :
      (before mid after : Db)
      → HashedRows hash before.proofs_pending
      → HashedProofs hash ps
      → Distinct (secrets ps)
      → Fresh (proof_Ys ps) (Ys before.proofs_pending)
      → IsPending ps q before mid
      → IsReleased ps mid after
      → after ≡ before
  IsReleased-IsPending before mid after hr hp d f pending released =
      let balances : after.balance ≡ before.balance =
        fun_ext (λ k. released.balances k ∙ rw (pending.balances k) (sub-add_cancel _ _)) in
      let rows : after.proofs_pending ≡ before.proofs_pending =
        rw (released.rows, pending.rows)
          (drop_secrets-push_rows hash q ps before.proofs_pending hr hp d f) in
      ground (arith, released.others, pending.others, balances, rows)

  -- Once proofs with different secrets have been set pending, unsetting them returns, and every
  -- table is then as it was before both calls: no row is left behind, no older row is lost, and
  -- every balance is what it was. (`hash` is `hash_to_curve`: the proofs and the rows of the pending
  -- table carry the Y of their secret; every keyset is filed under its own id.)
  pub unset-set_pending :
      (ks : Keysets) (spent : Bool) (s t : Mint)
      → IsKeyed ks
      → HashedRows hash s.db.proofs_pending
      → HashedProofs hash ps
      → Distinct (secrets ps)
      → verify_spent_proofs_and_set_pending ks ps q s ≡ (ok tt, t)
      → (u : Mint) × (unset_proofs_pending ks ps spent t ≡ (ok tt, u)) × (u.db ≡ s.db)
  unset-set_pending ks spent s t keyed hr hp d e =
      let (spendable, pending) = verify_spent_proofs_and_set_pending-returns ks ps q s t keyed e in
      let (u, done, released) = unset_proofs_pending-ok ks ps spent t keyed spendable.known in
      (u, done, IsReleased-IsPending s.db t.db u.db hr hp d spendable.not_pending pending released)
