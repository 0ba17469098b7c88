-- ===== src/Mint/Melt/Released.antt =====
-- `melt` of cashu/mint/ledger.py releases the proofs of a payment that failed.
use nutshell.Base.{
  String, true, false, some, List, ◌==◌, ◌≡◌, ap, ◌∙◌, subst, arith, map, is_some, Distinct,
  if◌then◌else◌,
}
use nutshell.Core.Currency.{thousandfold}
use nutshell.Core.Errors.{lightning_payment_failed}
use nutshell.Core.Proofs.{Proof, BlindedMessage}
use nutshell.Core.Quotes.{MeltQuote, MeltQuoteState, melt_state_eq}
use nutshell.Core.Result.{ok, err}
use nutshell.Mint.State.{Mint, IsKeyed}
use nutshell.Mint.Chains.{>>=-ok}
use nutshell.Mint.Lightning.{PaymentStatus, Payments, is_failure}
use nutshell.Mint.Quotes.{updated_melt_row}
use nutshell.Mint.Tables.{HashedRows, HashedProofs, secrets}
use nutshell.Mint.Verification.{Env}
use nutshell.Mint.Verification.Quotes.{Backends}
use nutshell.Mint.Write.{verify_spent_proofs_and_set_pending}
use nutshell.Mint.Write.Pending.{verify_spent_proofs_and_set_pending-returns}
use nutshell.Mint.Write.Quotes.{set_melt_quote_pending}
use nutshell.Mint.Write.MeltQuotes.{set_melt_quote_pending-IsMeltLocked}
use nutshell.Mint.Ledger.Settling.{melt_mint_settle_internally}
use nutshell.Mint.Melt.Checks.{Checked}
use nutshell.Mint.Melt.Finish.{finish}
use nutshell.Mint.Melt.Unlock.{melt_row, state_of, state_of-updated}
use nutshell.Mint.Melt.Failed.{IsWaiting, IsRolledBack, pay-IsRolledBack}
use nutshell.Mint.Melt.Melted.{store_blank-returns}
use nutshell.Mint.Melt.Pay.{
  answer_or_unknown, checking_id_or, pay, store_blank_outputs, melt_checked,
}

module _ (env : Env) (keyed : IsKeyed env.keysets) (backends : Backends) (payments : Payments) where
  -- The locks of a melt are taken: the proofs are pending, the quote is pending, and its blank outputs
  -- are stored; and the invoice is not one of this mint.
  pub record Locked (ps : List Proof) (os : List BlindedMessage) (c : Checked) (s : Mint)
      (locked : MeltQuote) (w : Mint) : Type 0 where
    pub with_proofs : Mint
    pub with_quote : Mint
    pub set_proofs :
        verify_spent_proofs_and_set_pending env.keysets ps (some c.quote.quote) s
        ≡ (ok tt, with_proofs)
    pub set_quote : set_melt_quote_pending c.quote with_proofs ≡ (ok locked, with_quote)
    pub stored : store_blank_outputs env os locked.quote with_quote ≡ (ok tt, w)
    pub external : melt_mint_settle_internally env backends locked w ≡ (ok locked, w)

  Locked-IsWaiting :
      (hash : String → String) (ps : List Proof) (os : List BlindedMessage) (c : Checked)
      (s w : Mint) (locked : MeltQuote)
      → Locked ps os c s locked w
      → HashedRows hash s.db.proofs_pending
      → HashedProofs hash ps
      → Distinct (secrets ps)
      → (c.quote.quote == "") ≡ false
      → is_some (melt_row c.quote.quote s.db.melt_quotes) ≡ true
      → IsWaiting env keyed payments hash ps (some c.quote.quote) s.db locked w
        × (locked ≡ record c.quote { state = MeltQuoteState.pending })
  Locked-IsWaiting hash ps os c s w locked l hr hp d named row =
      let id = some c.quote.quote in
      let (spendable, set) =
        verify_spent_proofs_and_set_pending-returns env.keysets ps id s l.with_proofs keyed
          l.set_proofs in
      let lock =
        set_melt_quote_pending-IsMeltLocked c.quote locked l.with_proofs l.with_quote l.set_quote in
      let stored =
        store_blank-returns env keyed backends payments os locked.quote l.with_quote w l.stored in
      let same_id : locked.quote ≡ c.quote.quote = ap (λ (x : MeltQuote). x.quote) lock.returned in
      let same_state : locked.state ≡ MeltQuoteState.pending =
        ap (λ (x : MeltQuote). x.state) lock.returned in
      let rows : w.db.melt_quotes ≡ map (updated_melt_row locked) s.db.melt_quotes =
        ground (arith, stored, lock.others, set.others) in
      (
        record {
          known = spendable.known;
          rows = hr;
          proofs = hp;
          distinct = d;
          fresh = spendable.not_pending;
          set = record {
            rows = ground (arith, stored, lock.others, set.rows);
            balances = λ k.
                ap (λ (x : Mint). x.db.balance k) stored
                ∙ ap (λ (x : Mint). x.db.balance k) lock.others
                ∙ set.balances k;
            others = ground (arith, stored, lock.others, set.others);
          };
          named = rw same_id named;
          waits = same_state;
          stored =
              ap (λ l'. state_of (melt_row locked.quote l')) rows
              ∙ state_of-updated locked s.db.melt_quotes (rw same_id row)
              ∙ ap some same_state;
        },
        lock.returned,
      )

  -- Once a melt has taken its locks and the invoice is not one of this mint, if the payment fails or its
  -- result is unknown, and the backend, asked for the payment under the id it was given, says that it
  -- failed or is unknown, then the rest of the melt raises "Lightning payment failed", and nothing is
  -- stranded: spent and pending proofs and all balances are as before the locks, the row of the quote is
  -- unpaid, and no blank output of it is left. (The row of the quote is there, its id is not empty, and the
  -- secrets are different; `hash` is `hash_to_curve`: the proofs and the rows of the pending table carry
  -- the Y of their secret; every keyset is filed under its own id.)
  pub failed_payment-IsRolledBack :
      (hash : String → String) (ps : List Proof) (os : List BlindedMessage) (c : Checked)
      (s w : Mint) (locked : MeltQuote) (status : PaymentStatus)
      → Locked ps os c s locked w
      → HashedRows hash s.db.proofs_pending
      → HashedProofs hash ps
      → Distinct (secrets ps)
      → (c.quote.quote == "") ≡ false
      → is_some (melt_row c.quote.quote s.db.melt_quotes) ≡ true
      → is_failure
          (answer_or_unknown (payments.pay_invoice locked (thousandfold locked.fee_reserve))).result
        ≡ true
      → payments.status_after (
          checking_id_or
            (answer_or_unknown
              (payments.pay_invoice locked (thousandfold locked.fee_reserve))).checking_id
            locked.checking_id)
        ≡ some status
      → is_failure status.result ≡ true
      → (t : Mint) × (melt_checked env backends payments ps os c s
          ≡ (err lightning_payment_failed, t))
        × IsRolledBack c.quote.quote s.db t.db
  unfolding melt_checked
  failed_payment-IsRolledBack hash ps os c s w locked status l hr hp d named row failed again
        again_failed =
      let id = some c.quote.quote in
      let (waits, returned) = Locked-IsWaiting hash ps os c s w locked l hr hp d named row in
      let (t, raised, back) =
        pay-IsRolledBack env keyed payments hash ps id s.db c.unit c.provided os locked w status
          waits failed again again_failed in
      (
        t,
        >>=-ok (verify_spent_proofs_and_set_pending env.keysets ps id) _ s tt l.with_proofs
              l.set_proofs
            ∙ >>=-ok (set_melt_quote_pending c.quote) _ l.with_proofs locked l.with_quote
                l.set_quote
            ∙ >>=-ok (store_blank_outputs env os locked.quote) _ l.with_quote tt w l.stored
            ∙ >>=-ok (melt_mint_settle_internally env backends locked) _ w locked w l.external
            ∙ ap
                (λ (x : MeltQuoteState).
                  (if melt_state_eq x MeltQuoteState.paid
                      then finish env ps c.provided os locked
                      else pay env payments ps c.unit c.provided os locked)
                    w)
                waits.waits
            ∙ raised,
        subst (λ (k : String). IsRolledBack k s.db t.db) (ap (λ (x : MeltQuote). x.quote) returned)
            back,
      )
