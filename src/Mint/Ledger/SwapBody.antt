-- ===== src/Mint/Ledger/SwapBody.antt =====
-- What the body of `swap` of cashu/mint/ledger.py has written, and what its handlers do.
use nutshell.Base.{
  ◌+ℤ◌, ◌-ℤ◌, String, Bool, Option, none, List, [], ◌∷◌, map, ◌≡◌, refl, ap, sym, ◌∙◌, arith,
  int_laws, Distinct,
}
use nutshell.Core.Errors.{Error}
use nutshell.Core.Proofs.{Proof, BlindedMessage, BlindedSignature, amount_in, outputs_in}
use nutshell.Core.Result.{Result, ok, err, >>=-eq-ok, >>-eq-ok}
use nutshell.Mint.State.{
  Db, Mint, MintKeyset, IsKeyed, Action, for_each, transaction, finally_do, settle, outcome,
}
use nutshell.Mint.Chains.{>>=-returns, lift-returns, err-ne-ok}
use nutshell.Mint.Crud.{Ys}
use nutshell.Mint.Read.{proof_Ys}
use nutshell.Mint.Tables.{Fresh, HashedRows, HashedProofs, secrets, drop_secrets-push_rows}
use nutshell.Mint.Write.{unset_proofs_pending}
use nutshell.Mint.Write.Loops.{push_rows, Known}
use nutshell.Mint.Write.Pending.{IsPending, IsReleased, unset_proofs_pending-ok}
use nutshell.Mint.Verification.{Env, verify_inputs, verify_inputs_and_outputs}
use nutshell.Mint.Verification.Inputs.{verify_inputs-returns}
use nutshell.Mint.Ledger.{swap_body}
use nutshell.Mint.Ledger.Promise.{Computed, signature_of, compute_promise, compute_promises}
use nutshell.Mint.Ledger.Issue.{
  invalidate_proofs_in, invalidate_step, group_from, store_blinded_messages_in,
  sign_blinded_messages_in, bound,
}
use nutshell.Mint.Ledger.Loops.{
  invalidate_loop-returns, fees_loop-returns, store_loop-returns, sign_all-returns, computed_in,
}

outcome-returns :
    {A : Type 0} (r : Result A) (r' : Result (Unit {0})) (a : A)
    → outcome r r' ≡ ok a
    → (r ≡ ok a) × (r' ≡ ok tt)
outcome-returns r (ok tt) a h = (h, refl)
outcome-returns r (err e) a h = absurd (err-ne-ok e a h)

-- `try: m finally: last` returned: both parts returned.
pub finally_do-returns :
    {A : Type 0} (m : Action A) (last : Action (Unit {0})) (s : Mint) (a : A) (t : Mint)
    → finally_do m last s ≡ (ok a, t)
    → (u : Mint) × (m s ≡ (ok a, u)) × (last u ≡ (ok tt, t))
finally_do-returns m last s a t h =
    let (first, second) = outcome-returns (m s).0 (last (m s).1).0 a (ap (λ p. p.0) h) in
    ((m s).1, (λ i. (first i, (m s).1)), (λ i. (second i, (h i).1)))

settle-db :
    {A : Type 0} (before : Db) (r : Result A) (s : Mint) (e : Error)
    → r ≡ err e
    → (settle before r s).db ≡ before
settle-db before (ok a) s e h = cc
settle-db before (err d) s e h = refl

-- A transaction that raises rolls the tables back.
pub transaction-rolls_back :
    {A : Type 0} (m : Action A) (s : Mint) (e : Error) (t : Mint)
    → transaction m s ≡ (err e, t)
    → t.db ≡ s.db
unfolding transaction
transaction-rolls_back m s e t h =
    sym (ap (λ p. p.1.db) h) ∙ settle-db s.db (m s).0 (m s).1 e (ap (λ p. p.0) h)

-- What a swap has done when it returns.
pub record IsSwapped (env : Env) (ps : List Proof) (os : List BlindedMessage)
    (sigs : List BlindedSignature) (before after : Db) : Type 0 where
  pub spent : after.proofs_used ≡ push_rows none ps before.proofs_used
  pub pending : after.proofs_pending ≡ before.proofs_pending
  pub balances :
      (k : String) → after.balance k ≡ before.balance k -ℤ amount_in k ps +ℤ outputs_in k os
  pub mint_quotes : after.mint_quotes ≡ before.mint_quotes
  pub melt_quotes : after.melt_quotes ≡ before.melt_quotes
  pub signed :
      (cs : List Computed) × (compute_promises env os ≡ ok cs) × (sigs ≡ map signature_of cs)

pub compute_promise-same :
    (env : Env) (o : BlindedMessage) (c : Computed)
    → compute_promise env o ≡ ok c
    → (c.keyset_id ≡ o.id) × (c.amount ≡ o.amount)
unfolding compute_promise
compute_promise-same env o c e = ground arith

pub computed_in-outputs_in :
    (env : Env) (k : String) (os : List BlindedMessage) (cs : List Computed)
    → compute_promises env os ≡ ok cs
    → computed_in k cs ≡ outputs_in k os
unfolding compute_promises
computed_in-outputs_in env k [] cs e = ground arith
computed_in-outputs_in env k (o ∷ os) cs e =
    let (c, e₁, e₂) = >>=-eq-ok (compute_promise env o) _ e in
    let (rest, e₃, e₄) = >>=-eq-ok (compute_promises env os) _ e₂ in
    let same = computed_in-outputs_in env k os rest e₃ in
    let (id, amount) = compute_promise-same env o c e₁ in ground (arith, id, amount, same)

module _ (env : Env) (keyed : IsKeyed env.keysets) where
  sign_in-returns :
      (os : List BlindedMessage) (s t : Mint) (sigs : List BlindedSignature)
      → sign_blinded_messages_in env os s ≡ (ok sigs, t)
      → (cs : List Computed) × (compute_promises env os ≡ ok cs)
        × (sigs ≡ map signature_of cs)
        × ((k : String) → t.db.balance k ≡ s.db.balance k +ℤ outputs_in k os)
        × (t ≡ record s { db = record s.db { promises = t.db.promises; balance = t.db.balance } })
  unfolding sign_blinded_messages_in
  sign_in-returns os s t sigs e =
      let (cs, computed, e₁) = lift-returns (compute_promises env os) _ s e in
      let (_, _, e₂) = lift-returns (bound os) _ s e₁ in
      let (made, balances, same) = sign_all-returns env keyed cs s t sigs e₂ in
      (
        cs,
        computed,
        made,
        λ k.
            balances k
            ∙ ap (λ n. s.db.balance k +ℤ n) (computed_in-outputs_in env k os cs computed),
        same,
      )

  pub swap_body-returns :
      (ps : List Proof) (os : List BlindedMessage) (keyset : Option MintKeyset) (s t : Mint)
      (sigs : List BlindedSignature)
      → swap_body env ps os keyset s ≡ (ok sigs, t)
      → IsSwapped env ps os sigs s.db t.db
  unfolding swap_body invalidate_proofs_in
  swap_body-returns ps os keyset s t sigs e =
      let (_, u, e₁, f₁) = >>=-returns (store_blinded_messages_in env os keyset none none) _ s e in
      let (_, v, e₂, f₂) = >>=-returns (invalidate_proofs_in env ps none) _ u f₁ in
      let (_, w, e₃, e₄) = >>=-returns (for_each (invalidate_step env none) ps) _ u e₂ in
      let stored = store_loop-returns env keyed os keyset none none s u e₁ in
      let (rows, balances, same, distinct) = invalidate_loop-returns env keyed none ps u w e₃ in
      let fees = fees_loop-returns env keyed (group_from [] ps) w v e₄ in
      let (cs, computed, made, credits, kept) = sign_in-returns os v t sigs f₂ in
      let before : u.db.balance ≡ s.db.balance = ap (λ (x : Mint). x.db.balance) stored in
      let charged : v.db.balance ≡ w.db.balance = ap (λ (x : Mint). x.db.balance) fees in
      record {
        spent = ground (arith, stored, rows, same, fees, kept);
        pending = ground (arith, stored, same, fees, kept);
        balances = λ k.
            credits k
            ∙ ap (λ n. n +ℤ outputs_in k os)
                (ap (λ f. f k) charged ∙ balances k ∙ ap (λ f. f k -ℤ amount_in k ps) before);
        mint_quotes = ground (arith, stored, same, fees, kept);
        melt_quotes = ground (arith, stored, same, fees, kept);
        signed = (cs, computed, made);
      }

-- A swap between setting proofs pending and unsetting them.
pub IsSwapped-around :
    (env : Env) (hash : String → String) (ps : List Proof) (os : List BlindedMessage)
    (sigs : List BlindedSignature) (s u v w : Db)
    → HashedRows hash s.proofs_pending
    → HashedProofs hash ps
    → Distinct (secrets ps)
    → Fresh (proof_Ys ps) (Ys s.proofs_pending)
    → IsPending ps none s u
    → IsSwapped env ps os sigs u v
    → IsReleased ps v w
    → IsSwapped env ps os sigs s w
IsSwapped-around env hash ps os sigs s u v w hr hp d f pending swapped released = record {
  spent = ground (arith, pending.others, swapped.spent, released.others);
  pending =
      released.rows
      ∙ rw (swapped.pending, pending.rows)
          (drop_secrets-push_rows hash none ps s.proofs_pending hr hp d f);
  balances = λ k. grind (int_laws, released.balances k, swapped.balances k, pending.balances k);
  mint_quotes = ground (arith, pending.others, swapped.mint_quotes, released.others);
  melt_quotes = ground (arith, pending.others, swapped.melt_quotes, released.others);
  signed = swapped.signed;
}

pub verify_inputs_and_outputs-Distinct :
    (env : Env) (ps : List Proof) (os : Option (List BlindedMessage)) (db : Db)
    → verify_inputs_and_outputs env ps os db ≡ ok tt
    → Distinct (secrets ps)
unfolding verify_inputs_and_outputs
verify_inputs_and_outputs-Distinct env ps os db e =
    (verify_inputs-returns env ps (>>-eq-ok (verify_inputs env ps) _ e).0).1

pub finally_do-raises :
    {A : Type 0} (m : Action A) (last : Action (Unit {0})) (s : Mint) (e : Error) (t : Mint)
    → ((u : Mint) → (v : Mint) × (last u ≡ (ok tt, v)))
    → finally_do m last s ≡ (err e, t)
    → (u : Mint) × (m s ≡ (err e, u)) × (last u ≡ (ok tt, t))
finally_do-raises m last s e t total h =
    let (v, done) = total (m s).1 in
    let first : (m s).0 ≡ err e =
      sym (ap (λ r. outcome (m s).0 r) (ap (λ p. p.0) done)) ∙ ap (λ p. p.0) h in
    ((m s).1, (λ i. (first i, (m s).1)), (λ i. ((done i).0, (h i).1)))

pub unset-total :
    (env : Env)
    → IsKeyed env.keysets
    → (ps : List Proof) → Known env.keysets ps
    → (x : Mint) → (v : Mint) × (unset_proofs_pending env.keysets ps Bool.true x ≡ (ok tt, v))
unset-total env keyed ps known x =
    let (w, done, _) = unset_proofs_pending-ok env.keysets ps Bool.true x keyed known in (w, done)
