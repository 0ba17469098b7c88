-- ===== src/Mint/Melt/Finished.antt =====
-- What the end of a melt has done when it returns: the proofs are spent, and the change is worth no more
-- than what was overpaid.
use nutshell.Base.{
  ℤ, pos, pos_part, ◌-ℤ◌, ◌≤ℤ◌, String, true, Option, none, some, List, [], ◌∷◌, map, ◌≡◌, ap,
  subst, sym, ◌∙◌, arith, inl, inr, Bool-cases, ltb_ℤ, if◌then◌else◌,
}
use nutshell.Core.Errors.{transaction_error}
use nutshell.Core.Proofs.{Proof, BlindedMessage, BlindedSignature}
use nutshell.Core.Quotes.{MeltQuote}
use nutshell.Core.Result.{Result, ok, require, item}
use nutshell.Mint.State.{Db, Mint, IsKeyed, for_each, pure}
use nutshell.Mint.Chains.{>>=-returns, lift-returns, transaction-returns}
use nutshell.Mint.Crud.{delete_blinded_messages_melt_id}
use nutshell.Mint.Quotes.{update_melt_quote, updated_melt_row}
use nutshell.Mint.Verification.{Env, verify_no_duplicate_outputs}
use nutshell.Mint.Write.{unset_proofs_pending}
use nutshell.Mint.Write.Loops.{push_rows, drop_secrets, Known}
use nutshell.Mint.Write.Pending.{unset_proofs_pending-ok}
use nutshell.Mint.Ledger.Issue.{
  invalidate_proofs, invalidate_proofs_in, invalidate_step, group_from, sign_blinded_messages,
}
use nutshell.Mint.Ledger.Issued.{sign_blinded_messages-returns, ok-inj}
use nutshell.Mint.Ledger.Loops.{invalidate_loop-returns, fees_loop-returns}
use nutshell.Mint.Ledger.Change.{change_outputs, delete_rest, sign_change, generate_change_promises}
use nutshell.Mint.Ledger.ChangeSum.{sum_signatures, generate_change_promises_le_overpaid}
use nutshell.Mint.Melt.Finish.{change_for, finish}

-- Only the promises and the balances have changed.
abbrev pub OnlyIssued : Mint → Mint → Type 0
OnlyIssued s t =
    t ≡ record s { db = record s.db { promises = t.db.promises; balance = t.db.balance } }

delete_rest-OnlyIssued :
    (id : Option String) (s t : Mint) → delete_rest id s ≡ (ok tt, t) → OnlyIssued s t
unfolding delete_blinded_messages_melt_id
delete_rest-OnlyIssued none s t e = ground arith
delete_rest-OnlyIssued (some id) s t e = ground arith

module _ (env : Env) (keyed : IsKeyed env.keysets) where
  sign_change-OnlyIssued :
      (overpaid : ℤ) (os : List BlindedMessage) (id : Option String) (s t : Mint)
      (sigs : List BlindedSignature)
      → sign_change env overpaid os id s ≡ (ok sigs, t)
      → OnlyIssued s t
  unfolding sign_change
  sign_change-OnlyIssued overpaid os id s t sigs e =
      let outputs = change_outputs overpaid os in
      let (_, _, e₁) =
        lift-returns
          (require (verify_no_duplicate_outputs env outputs)
            (transaction_error "duplicate promises."))
          _ s e in
      let (made, u, e₂, e₃) = >>=-returns (sign_blinded_messages env outputs) _ s e₁ in
      let (_, v, e₄, e₅) = >>=-returns (delete_rest id) (λ _. pure made) u e₃ in
      let (_, _, _, _, signed) = sign_blinded_messages-returns env keyed outputs s u made e₂ in
      ground (arith, signed, delete_rest-OnlyIssued id u v e₄, e₅)

  generate_change-OnlyIssued :
      (provided paid : ℤ) (os : List BlindedMessage) (id : Option String) (s t : Mint)
      (sigs : List BlindedSignature)
      → generate_change_promises env provided paid (some os) id s ≡ (ok sigs, t)
      → OnlyIssued s t
  unfolding generate_change_promises
  generate_change-OnlyIssued provided paid os id s t sigs e =
      elim (Bool-cases (ltb_ℤ (pos 0) (provided -ℤ paid))) [
        | inl yes_ ↦ sign_change-OnlyIssued (provided -ℤ paid) os id s t sigs (
            subst
              (λ b.
                (if b then sign_change env (provided -ℤ paid) os id else pure []) s ≡ (ok sigs, t))
              yes_ e)
        | inr no_ ↦
            let e' : ◌≡◌ {A = Result (List BlindedSignature) × Mint} (ok [], s) (ok sigs, t) =
              subst
                (λ b.
                  (if b then sign_change env (provided -ℤ paid) os id else pure []) s
                  ≡ (ok sigs, t))
                no_ e in
            ground (arith, e')
      ]

  pub change_for-returns :
      (provided : ℤ) (quote : MeltQuote) (os : List BlindedMessage) (s t : Mint)
      (sigs : List BlindedSignature)
      → change_for env provided quote os s ≡ (ok sigs, t)
      → OnlyIssued s t × (sum_signatures sigs ≤ℤ pos (pos_part (provided -ℤ quote.fee_paid)))
  unfolding change_for
  change_for-returns provided quote [] s t sigs e = ground arith
  change_for-returns provided quote (o ∷ os) s t sigs e =
      let (_, _, e₁) = lift-returns (item o.id env.keysets) _ s e in
      (
        generate_change-OnlyIssued provided quote.fee_paid (o ∷ os) (some quote.quote) s t sigs e₁,
        generate_change_promises_le_overpaid env keyed provided quote.fee_paid (o ∷ os)
            (some quote.quote) s t sigs e₁,
      )

  -- Spending proofs, on a connection of its own.
  pub invalidate_proofs-returns :
      (ps : List Proof) (q : Option String) (s t : Mint)
      → invalidate_proofs env ps q s ≡ (ok tt, t)
      → (t.db.proofs_used ≡ push_rows q ps s.db.proofs_used)
        × (t ≡ record s {
          db = record s.db {
            proofs_used = t.db.proofs_used;
            balance = t.db.balance;
            fees_paid = t.db.fees_paid;
          };
          events = t.events;
        })
  unfolding invalidate_proofs invalidate_proofs_in
  invalidate_proofs-returns ps q s t e =
      let body = transaction-returns (invalidate_proofs_in env ps q) s tt t e in
      let (_, w, e₁, e₂) = >>=-returns (for_each (invalidate_step env q) ps) _ s body in
      let (rows, _, same, _) = invalidate_loop-returns env keyed q ps s w e₁ in
      let fees = fees_loop-returns env keyed (group_from [] ps) w t e₂ in
      ground (arith, rows, same, fees)

  -- What `finish` has done.
  pub record IsFinished (ps : List Proof) (provided : ℤ) (quote done : MeltQuote)
      (before after : Db) : Type 0 where
    pub spent : after.proofs_used ≡ push_rows (some quote.quote) ps before.proofs_used
    pub pending : after.proofs_pending ≡ drop_secrets ps before.proofs_pending
    pub returned : done ≡ record quote { change = done.change }
    pub worth : sum_signatures done.change ≤ℤ pos (pos_part (provided -ℤ quote.fee_paid))
    pub stored : after.melt_quotes ≡ map (updated_melt_row done) before.melt_quotes
    pub mint_quotes : after.mint_quotes ≡ before.mint_quotes

  pub finish-IsFinished :
      (ps : List Proof) (provided : ℤ) (os : List BlindedMessage) (quote done : MeltQuote)
      (s t : Mint)
      → Known env.keysets ps
      → finish env ps provided os quote s ≡ (ok done, t)
      → IsFinished ps provided quote done s.db t.db
  unfolding finish update_melt_quote
  finish-IsFinished ps provided os quote done s t known e =
      let (_, u, e₁, e₂) = >>=-returns (invalidate_proofs env ps (some quote.quote)) _ s e in
      let (_, v, e₃, e₄) = >>=-returns (unset_proofs_pending env.keysets ps true) _ u e₂ in
      let (sigs, w, e₅, e₆) = >>=-returns (change_for env provided quote os) _ v e₄ in
      let (rows, same) = invalidate_proofs-returns ps (some quote.quote) s u e₁ in
      let (v', done_, released) = unset_proofs_pending-ok env.keysets ps true u keyed known in
      let ended : v'.db ≡ v.db = sym (ap (λ r. r.1.db) done_) ∙ ap (λ r. r.1.db) e₃ in
      let (issued, worth) = change_for-returns provided quote os v w sigs e₅ in
      let made : record quote { change = sigs } ≡ done = ok-inj (ap (λ r. r.0) e₆) in
      let last = ap (λ r. r.1.db) e₆ in
      record {
        spent = ground (arith, rows, same, released.others, ended, issued, last);
        pending = ground (arith, same, released.rows, ended, issued, last);
        returned = ground (arith, made);
        worth = ground (arith, made, worth);
        stored = ground (arith, same, released.others, ended, issued, last, made);
        mint_quotes = ground (arith, same, released.others, ended, issued, last);
      }
