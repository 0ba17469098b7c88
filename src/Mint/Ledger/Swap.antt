-- ===== src/Mint/Ledger/Swap.antt =====
-- The outcomes of `swap` of cashu/mint/ledger.py: that it returns, and that it raises.
use nutshell.Base.{
  String, Bool, Option, none, some, List, ◌≡◌, ap, sym, ◌∙◌, inl, inr, Distinct, subst,
}
use nutshell.Core.Errors.{Error}
use nutshell.Core.Proofs.{Proof, BlindedMessage, BlindedSignature}
use nutshell.Core.Result.{ok, err}
use nutshell.Mint.State.{Mint, MintKeyset, IsKeyed, check, transaction, finally_do, ◌>>◌}
use nutshell.Mint.Chains.{>>=-returns, check-returns, transaction-returns, >>=-raises}
use nutshell.Mint.Tables.{HashedRows, HashedProofs, secrets}
use nutshell.Mint.Write.{verify_spent_proofs_and_set_pending, unset_proofs_pending}
use nutshell.Mint.Write.Pending.{
  Spendable, IsReleased, verify_spent_proofs_and_set_pending-returns,
  verify_spent_proofs_and_set_pending-raises, unset_proofs_pending-ok, IsReleased-IsPending,
}
use nutshell.Mint.Verification.{Env, verify_inputs_and_outputs}
use nutshell.Mint.Ledger.{swap_body, swap}
use nutshell.Mint.Ledger.SwapBody.{
  IsSwapped-around, verify_inputs_and_outputs-Distinct, finally_do-raises, unset-total,
  finally_do-returns, transaction-rolls_back, IsSwapped, swap_body-returns,
}

module _ (env : Env) (keyed : IsKeyed env.keysets) (hash : String → String) (ps : List Proof)
    (os : List BlindedMessage) (keyset : Option MintKeyset) (s : Mint) where
  -- When a swap returns signatures, `verify_inputs_and_outputs` had passed on the tables as they
  -- were, the proofs were unspent, not pending and of known keysets, and `IsSwapped` holds: the
  -- proofs are pushed on the table of spent proofs; the pending table and the quotes are as
  -- before; every keyset's balance is less by its inputs and more by its outputs; and the
  -- signatures are those that `compute_promises` gives for the outputs. (`hash` is
  -- `hash_to_curve`: the proofs and the rows of the pending table carry the Y of their secret;
  -- every keyset is filed under its own id.)
  pub swap-returns :
      (t : Mint) (sigs : List BlindedSignature)
      → HashedRows hash s.db.proofs_pending
      → HashedProofs hash ps
      → swap env ps os keyset s ≡ (ok sigs, t)
      → (verify_inputs_and_outputs env ps (some os) s.db ≡ ok tt)
        × Spendable env.keysets ps s.db
        × IsSwapped env ps os sigs s.db t.db
  unfolding swap
  swap-returns t sigs hr hp e =
      let (checked, e₁) = check-returns (verify_inputs_and_outputs env ps (some os)) _ s e in
      let (_, u, e₂, e₃) =
        >>=-returns (verify_spent_proofs_and_set_pending env.keysets ps none) _ s e₁ in
      let (spendable, pending) =
        verify_spent_proofs_and_set_pending-returns env.keysets ps none s u keyed e₂ in
      let (v, e₄, e₅) =
        finally_do-returns (transaction (swap_body env ps os keyset))
          (unset_proofs_pending env.keysets ps Bool.true) u sigs t e₃ in
      let swapped =
        swap_body-returns env keyed ps os keyset u v sigs
          (transaction-returns (swap_body env ps os keyset) u sigs v e₄) in
      let (w, done, released) =
        unset_proofs_pending-ok env.keysets ps Bool.true v keyed spendable.known in
      let last : w.db ≡ t.db = sym (ap (λ r. r.1.db) done) ∙ ap (λ r. r.1.db) e₅ in
      let distinct = verify_inputs_and_outputs-Distinct env ps (some os) s.db checked in
      (
        checked,
        spendable,
        subst (IsSwapped env ps os sigs s.db) last (
            IsSwapped-around env hash ps os sigs s.db u.db v.db w.db hr hp distinct
              spendable.not_pending pending swapped released),
      )

  swap_rest-raises :
      (u t : Mint) (e : Error)
      → u ≡ s
      → HashedRows hash s.db.proofs_pending
      → HashedProofs hash ps
      → Distinct (secrets ps)
      → (verify_spent_proofs_and_set_pending env.keysets ps none
            >> finally_do
                (transaction (swap_body env ps os keyset))
                (unset_proofs_pending env.keysets ps Bool.true))
          u
        ≡ (err e, t)
      → t.db ≡ s.db
  swap_rest-raises u t e same hr hp d h =
      elim (>>=-raises (verify_spent_proofs_and_set_pending env.keysets ps none) _ u h) [
        | inl first ↦
            ap (λ (x : Mint). x.db)
              (verify_spent_proofs_and_set_pending-raises env.keysets ps none u t e first ∙ same)
        | inr (_, v, first, rest) ↦
            let (spendable, pending) =
              verify_spent_proofs_and_set_pending-returns env.keysets ps none s v keyed (
                subst (λ x. verify_spent_proofs_and_set_pending env.keysets ps none x ≡ (ok tt, v))
                  same first) in
            let (x, failed, last) =
              finally_do-raises (transaction (swap_body env ps os keyset))
                (unset_proofs_pending env.keysets ps Bool.true) v e t
                (unset-total env keyed ps spendable.known) rest in
            let back : x.db ≡ v.db =
              transaction-rolls_back (swap_body env ps os keyset) v e x failed in
            let (w, done, released) =
              unset_proofs_pending-ok env.keysets ps Bool.true x keyed spendable.known in
            let same_end : w.db ≡ t.db = sym (ap (λ r. r.1.db) done) ∙ ap (λ r. r.1.db) last in
            sym same_end
            ∙ IsReleased-IsPending hash ps none s.db v.db w.db hr hp d spendable.not_pending pending
                (subst (λ y. IsReleased ps y w.db) back released)
      ]

  -- When a swap raises, at whatever point, the tables are as they were before it. (`hash` is
  -- `hash_to_curve`: the proofs and the rows of the pending table carry the Y of their secret; every
  -- keyset is filed under its own id.)
  pub swap-raises :
      (t : Mint) (e : Error)
      → HashedRows hash s.db.proofs_pending
      → HashedProofs hash ps
      → swap env ps os keyset s ≡ (err e, t)
      → t.db ≡ s.db
  unfolding swap
  swap-raises t e hr hp h =
      elim (>>=-raises (check (verify_inputs_and_outputs env ps (some os))) _ s h) [
        | inl first ↦ sym (ap (λ r. r.1.db) first)
        | inr (_, u, first, rest) ↦
            let same : u ≡ s = sym (ap (λ r. r.1) first) in
            let distinct =
              verify_inputs_and_outputs-Distinct env ps (some os) s.db (ap (λ r. r.0) first) in
            swap_rest-raises u t e same hr hp distinct rest
      ]
