-- ===== src/Mint/Melt/Melted.antt =====
-- What `melt` of cashu/mint/ledger.py has done when it returns a paid quote.
use nutshell.Base.{
  pos, pos_part, ◌-ℤ◌, ◌≤ℤ◌, String, none, some, List, [], ◌∷◌, ◌≡◌, ap, ◌∙◌, subst, arith, inl,
  inr,
}
use nutshell.Core.Proofs.{Proof, BlindedMessage}
use nutshell.Core.Quotes.{MeltQuote, MeltQuoteState}
use nutshell.Core.Result.{Result, ok}
use nutshell.Mint.State.{Db, Mint, IsKeyed, Action, lift, pure, raise, transaction, ◌>>=◌, ◌>>◌}
use nutshell.Mint.Chains.{>>=-returns, transaction-returns}
use nutshell.Mint.Lightning.{Payments}
use nutshell.Mint.Tables.{HashedRows, HashedProofs, drop_secrets-push_rows}
use nutshell.Mint.Verification.{Env}
use nutshell.Mint.Verification.Quotes.{Backends}
use nutshell.Mint.Write.{verify_spent_proofs_and_set_pending, unset_proofs_pending}
use nutshell.Mint.Write.Loops.{push_rows, Known}
use nutshell.Mint.Write.Pending.{Spendable, verify_spent_proofs_and_set_pending-returns}
use nutshell.Mint.Write.Quotes.{set_melt_quote_pending}
use nutshell.Mint.Write.MeltQuotes.{set_melt_quote_pending-IsMeltLocked}
use nutshell.Mint.Ledger.ChangeSum.{sum_signatures}
use nutshell.Mint.Ledger.Issue.{store_blinded_messages, store_blinded_messages_in}
use nutshell.Mint.Ledger.Loops.{store_loop-returns}
use nutshell.Mint.Ledger.Settling.{melt_mint_settle_internally, melt_mint_settle_internally-returns}
use nutshell.Mint.Melt.Checks.{Checked, melt_checks}
use nutshell.Mint.Melt.Checked.{IsPayable, melt_checks-returns}
use nutshell.Mint.Melt.Pay.{store_blank_outputs, melt_checked, melt}
use nutshell.Mint.Melt.Ending.{finish_or_pay-FinishedFrom}

module _ (env : Env) (keyed : IsKeyed env.keysets) (backends : Backends) (payments : Payments) where
  pub store_blank-returns :
      (os : List BlindedMessage) (id : String) (s t : Mint)
      → store_blank_outputs env os id s ≡ (ok tt, t)
      → t ≡ record s { db = record s.db { promises = t.db.promises } }
  unfolding store_blank_outputs store_blinded_messages
  store_blank-returns [] id s t e = ground arith
  store_blank-returns (o ∷ os) id s t e =
      store_loop-returns env keyed (o ∷ os) none none (some id) s t
        (transaction-returns (store_blinded_messages_in env (o ∷ os) none none (some id)) s tt t e)

  -- The tables after a paid melt: the proofs are spent for the quote, none is left pending, and the
  -- change is worth no more than what was provided beyond the fee that was paid.
  pub record IsMelted (ps : List Proof) (checked : Checked) (done : MeltQuote) (before after : Db)
      : Type 0 where
    pub same_quote : done.quote ≡ checked.quote.quote
    pub spent : after.proofs_used ≡ push_rows (some done.quote) ps before.proofs_used
    pub pending : after.proofs_pending ≡ before.proofs_pending
    pub worth : sum_signatures done.change ≤ℤ pos (pos_part (checked.provided -ℤ done.fee_paid))

  melt_checked-IsMelted :
      (hash : String → String) (ps : List Proof) (os : List BlindedMessage) (c : Checked)
      (s t : Mint) (done : MeltQuote)
      → HashedRows hash s.db.proofs_pending
      → HashedProofs hash ps
      → IsPayable env ps c
      → done.state ≡ MeltQuoteState.paid
      → melt_checked env backends payments ps os c s ≡ (ok done, t)
      → Spendable env.keysets ps s.db × IsMelted ps c done s.db t.db
  unfolding melt_checked
  melt_checked-IsMelted hash ps os c s t done hr hp payable paid e =
      let id = some c.quote.quote in
      let (_, u, e₁, e₂) =
        >>=-returns (verify_spent_proofs_and_set_pending env.keysets ps id) _ s e in
      let (locked, v, e₃, e₄) = >>=-returns (set_melt_quote_pending c.quote) _ u e₂ in
      let (_, w, e₅, e₆) = >>=-returns (store_blank_outputs env os locked.quote) _ v e₄ in
      let (settled, x, e₇, e₈) =
        >>=-returns (melt_mint_settle_internally env backends locked) _ w e₆ in
      let (spendable, set) =
        verify_spent_proofs_and_set_pending-returns env.keysets ps id s u keyed e₁ in
      let lock = set_melt_quote_pending-IsMeltLocked c.quote locked u v e₃ in
      let stored = store_blank-returns os locked.quote v w e₅ in
      let kept : (settled.quote ≡ locked.quote)
          × (x.db.proofs_used ≡ w.db.proofs_used)
          × (x.db.proofs_pending ≡ w.db.proofs_pending) =
        (let (_, _, ending) =
            melt_mint_settle_internally-returns env backends locked w x settled e₇ in
          elim ending [
            | inl (_, same, nothing) ↦ ground (arith, same, nothing)
            | inr (m, _, same, both) ↦ ground (arith, same, both.both)
          ]) in
      let (q, y, only, finished) =
        finish_or_pay-FinishedFrom env keyed payments ps spendable.known c.unit c.provided os
          settled done x t paid e₈ in
      let used : y.db.proofs_used ≡ s.db.proofs_used =
        ground (arith, only.1, kept.1, stored, lock.others, set.others) in
      let pending : y.db.proofs_pending ≡ push_rows id ps s.db.proofs_pending =
        ground (arith, only.1, kept.2, stored, lock.others, set.rows) in
      let same_quote : done.quote ≡ c.quote.quote =
        ground (arith, finished.returned, only.0, kept.0, lock.returned) in
      let same_id : q.quote ≡ done.quote = ground (arith, finished.returned) in
      let same_fee : q.fee_paid ≡ done.fee_paid = ground (arith, finished.returned) in
      (
        spendable,
        record {
          same_quote = same_quote;
          spent = finished.spent ∙ (λ i. push_rows (some (same_id i)) ps (used i));
          pending =
              finished.pending
              ∙ ap (nutshell.Mint.Write.Loops.drop_secrets ps) pending
              ∙ drop_secrets-push_rows hash id ps s.db.proofs_pending hr hp payable.distinct
                  spendable.not_pending;
          worth = rw (← same_fee) finished.worth;
        },
      )

  -- When the checks of a melt return, leaving the tables `u`, and the melt returns a paid quote, then the
  -- quote was unpaid and the inputs, accepted and with different secrets, were worth at least its amount,
  -- fee reserve and input fees (`IsPayable`); they were unspent, not pending and of known keysets in `u`;
  -- in the tables at the end they are pushed on the spent proofs of `u` under the id of the quote, the
  -- pending table is that of `u`, and the change is worth at most what the inputs exceed the amount, the
  -- input fees and the fee that was paid by (or nothing). (`hash` is `hash_to_curve`: the proofs and the
  -- rows of the pending table of `u` carry the Y of their secret; every keyset is filed under its own id.)
  pub melt-IsMelted :
      (hash : String → String) (ps : List Proof) (id : String) (os : List BlindedMessage)
      (s u t : Mint) (c : Checked) (done : MeltQuote)
      → HashedRows hash u.db.proofs_pending
      → HashedProofs hash ps
      → melt_checks env backends payments ps id os s ≡ (ok c, u)
      → melt env backends payments ps id os s ≡ (ok done, t)
      → done.state ≡ MeltQuoteState.paid
      → IsPayable env ps c × Spendable env.keysets ps u.db × IsMelted ps c done u.db t.db
  unfolding melt
  melt-IsMelted hash ps id os s u t c done hr hp passed e paid =
      let (payable, _) = melt_checks-returns env backends payments ps id os s u c passed in
      let then_ : melt_checked env backends payments ps os c u ≡ (ok done, t) =
        subst
          (λ (r : Result Checked × Mint).
            nutshell.Mint.State.continue (melt_checked env backends payments ps os) r.0 r.1
            ≡ (ok done, t))
          passed e in
      let (spendable, melted) =
        melt_checked-IsMelted hash ps os c u t done hr hp payable paid then_ in
      (payable, spendable, melted)
