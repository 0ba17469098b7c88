-- ===== src/Mint/Melt/Failed.antt =====
-- What `melt` of cashu/mint/ledger.py does when the payment and the check of its status both fail.
use nutshell.Base.{
  ℤ, String, Bool, true, false, ◌&&◌, not, Option, none, some, List, [], ◌==◌, ◌≡◌, refl, ap, ◌∙◌,
  subst, arith, map, select, eq_refl, is_some, Distinct, if◌then◌else◌, Bool-cases, inl, inr,
}
use nutshell.Core.Currency.{CurrencyUnit, Amount, thousandfold}
use nutshell.Core.Errors.{lightning_payment_failed}
use nutshell.Core.Proofs.{Proof, BlindedMessage}
use nutshell.Core.Quotes.{MeltQuote, MeltQuoteState}
use nutshell.Core.Result.{ok, err}
use nutshell.Mint.State.{Db, Mint, Promise, IsKeyed}
use nutshell.Mint.Crud.{
  is_text, message_of, get_blinded_messages_melt_id, delete_blinded_messages_melt_id,
}
use nutshell.Mint.Lightning.{PaymentResult, PaymentStatus, Payments, is_failure}
use nutshell.Mint.Quotes.{update_melt_quote, updated_melt_row}
use nutshell.Mint.Tables.{HashedRows, HashedProofs, secrets, Fresh}
use nutshell.Mint.Read.{proof_Ys}
use nutshell.Mint.Crud.{Ys}
use nutshell.Mint.Verification.{Env}
use nutshell.Mint.Write.{unset_proofs_pending}
use nutshell.Mint.Write.Loops.{Known}
use nutshell.Mint.Write.Pending.{unset_proofs_pending-ok, IsReleased-IsPending, IsPending}
use nutshell.Mint.Write.Quotes.{unset_melt_quote_pending}
use nutshell.Mint.Chains.{>>=-ok}
use nutshell.Mint.Melt.Pay.{
  answer_or_unknown, checking_id_or, renamed, release_failed, by_result, pay,
}
use nutshell.Mint.Melt.Unlock.{
  message_left, unset_melt_quote_pending-ok, melt_row, state_of, state_of-updated, unlocked,
}

-- The tables after a failed payment: of `before`, from which the proofs were set pending, all is as it was
-- but the melt quotes, where the quote is unpaid again, and the promises, where its blank outputs are gone.
pub record IsRolledBack (id : String) (before after : Db) : Type 0 where
  pub spent : after.proofs_used ≡ before.proofs_used
  pub pending : after.proofs_pending ≡ before.proofs_pending
  pub balances : after.balance ≡ before.balance
  pub unpaid : state_of (melt_row id after.melt_quotes) ≡ some MeltQuoteState.unpaid
  pub no_outputs : get_blinded_messages_melt_id id after ≡ []

waiting_row :
    (q : MeltQuote) (rows : List MeltQuote)
    → state_of (melt_row q.quote rows) ≡ some MeltQuoteState.pending
    → is_some (melt_row q.quote rows) ≡ true
waiting_row q rows h = ground arith

-- Asking again with the id that is stored now gives the same id.
checking_id-again :
    (given : Option String) (q q' : MeltQuote)
    → q' ≡ (
        if checking_id_or given q.checking_id == q.checking_id
        then q
        else record q { checking_id = checking_id_or given q.checking_id })
    → checking_id_or given q'.checking_id ≡ checking_id_or given q.checking_id
checking_id-again none q q' e =
    ground (arith, ap (λ (x : MeltQuote). x.checking_id) e, eq_refl q.checking_id)
checking_id-again (some id) q q' e =
    ground (arith, ap (λ (x : MeltQuote). x.checking_id) e, eq_refl q.checking_id)

module _ (env : Env) (keyed : IsKeyed env.keysets) (payments : Payments) (hash : String → String)
    (ps : List Proof) (id : Option String) (before : Db) where
  -- `before`, with what the melt has written so far in two other tables.
  abbrev pub written : Db → Db
  written now = record before { melt_quotes = now.melt_quotes; promises = now.promises }

  -- The state in which the payment is tried: the proofs were set pending on `before`.
  pub record IsWaiting (q : MeltQuote) (now : Mint) : Type 0 where
    pub known : Known env.keysets ps
    pub rows : HashedRows hash before.proofs_pending
    pub proofs : HashedProofs hash ps
    pub distinct : Distinct (secrets ps)
    pub fresh : Fresh (proof_Ys ps) (Ys before.proofs_pending)
    pub set : IsPending ps id (written now.db) now.db
    pub named : (q.quote == "") ≡ false
    pub waits : q.state ≡ MeltQuoteState.pending
    pub stored : state_of (melt_row q.quote now.db.melt_quotes) ≡ some MeltQuoteState.pending

  release_failed-IsRolledBack :
      (q : MeltQuote) (s : Mint)
      → IsWaiting q s
      → (t : Mint) × (release_failed env payments ps q s ≡ (err lightning_payment_failed, t))
        × IsRolledBack q.quote before t.db
  unfolding release_failed delete_blinded_messages_melt_id get_blinded_messages_melt_id
  release_failed-IsRolledBack q s w =
      let (u, e₁, released) = unset_proofs_pending-ok env.keysets ps true s keyed w.known in
      let back =
        IsReleased-IsPending hash ps id (written s.db) s.db u.db w.rows w.proofs w.distinct w.fresh
          w.set released in
      let same_quotes : u.db.melt_quotes ≡ s.db.melt_quotes =
        ap (λ (d : Db). d.melt_quotes) released.others in
      let (v, e₂, only) =
        unset_melt_quote_pending-ok q u w.named w.waits (rw same_quotes w.stored) in
      let gone : Promise → Bool = λ p. is_text q.quote p.melt_quote && not (is_some p.c_) in
      let t : Mint = record v {
        db = record v.db { promises = select (λ p. not (gone p)) v.db.promises };
      } in
      (
        t,
        >>=-ok (unset_proofs_pending env.keysets ps true) _ s tt u e₁
            ∙ >>=-ok (unset_melt_quote_pending q MeltQuoteState.unpaid) _ u (unlocked q) v e₂,
        record {
          spent = ap (λ (d : Db). d.proofs_used) only ∙ ap (λ (d : Db). d.proofs_used) back;
          pending = ap (λ (d : Db). d.proofs_pending) only ∙ ap (λ (d : Db). d.proofs_pending) back;
          balances = ap (λ (d : Db). d.balance) only ∙ ap (λ (d : Db). d.balance) back;
          unpaid =
              ap (λ (d : Db). state_of (melt_row q.quote d.melt_quotes)) only
              ∙ state_of-updated (unlocked q) u.db.melt_quotes
                  (waiting_row q u.db.melt_quotes (rw same_quotes w.stored));
          no_outputs = ap (map message_of) (message_left gone v.db.promises);
        },
      )

  renamed-IsWaiting :
      (q : MeltQuote) (new : String) (s : Mint)
      → IsWaiting q s
      → (q' : MeltQuote) × (t : Mint) × (renamed q new s ≡ (ok q', t))
        × IsWaiting q' t
        × (q'.quote ≡ q.quote)
        × (q' ≡ (if new == q.checking_id then q else record q { checking_id = new }))
  unfolding update_melt_quote
  renamed-IsWaiting q new s w = elim (Bool-cases (new == q.checking_id)) [
    | inl same ↦ (q, s, rw same refl, w, refl, rw same refl)
    | inr other ↦
        let q' : MeltQuote = record q { checking_id = new } in
        let t : Mint = record s {
          db = record s.db { melt_quotes = map (updated_melt_row q') s.db.melt_quotes };
        } in
        (
          q',
          t,
          rw other refl,
          record {
            known = w.known;
            rows = w.rows;
            proofs = w.proofs;
            distinct = w.distinct;
            fresh = w.fresh;
            set = record {
              rows = w.set.rows;
              balances = w.set.balances;
              others = ap (λ (d : Db). record d { melt_quotes = t.db.melt_quotes }) w.set.others;
            };
            named = w.named;
            waits = w.waits;
            stored =
                state_of-updated q' s.db.melt_quotes (waiting_row q s.db.melt_quotes w.stored)
                ∙ ap some w.waits;
          },
          refl,
          rw other refl,
        )
  ]

  by_failure :
      (unit : CurrencyUnit) (provided : ℤ) (os : List BlindedMessage) (q : MeltQuote)
      (result : PaymentResult) (given : Option String) (fee : Option Amount)
      (preimage : Option String) (s : Mint) (status : PaymentStatus)
      → is_failure result ≡ true
      → payments.status_after (checking_id_or given q.checking_id) ≡ some status
      → is_failure status.result ≡ true
      → by_result env payments ps unit provided os q
          (record { result = result; checking_id = given; fee = fee; preimage = preimage })
          s
        ≡ release_failed env payments ps q s
  unfolding by_result
  by_failure unit provided os q PaymentResult.failed given fee preimage s status f e g =
      rw (e, g) refl
  by_failure unit provided os q PaymentResult.unknown given fee preimage s status f e g =
      rw (e, g) refl
  by_failure unit provided os q PaymentResult.settled given fee preimage s status f e g =
      absurd (ground arith)
  by_failure unit provided os q PaymentResult.pending given fee preimage s status f e g =
      absurd (ground arith)

  pub pay-IsRolledBack :
      (unit : CurrencyUnit) (provided : ℤ) (os : List BlindedMessage) (q : MeltQuote) (s : Mint)
      (status : PaymentStatus)
      → IsWaiting q s
      → is_failure (answer_or_unknown (payments.pay_invoice q (thousandfold q.fee_reserve))).result
        ≡ true
      → payments.status_after (
          checking_id_or
            (answer_or_unknown (payments.pay_invoice q (thousandfold q.fee_reserve))).checking_id
            q.checking_id)
        ≡ some status
      → is_failure status.result ≡ true
      → (t : Mint) × (pay env payments ps unit provided os q s ≡ (err lightning_payment_failed, t))
        × IsRolledBack q.quote before t.db
  unfolding pay
  pay-IsRolledBack unit provided os q s status w failed again failed_again =
      let payment = answer_or_unknown (payments.pay_invoice q (thousandfold q.fee_reserve)) in
      let id' = checking_id_or payment.checking_id q.checking_id in
      let (now, u, e₁, w', same, is_now) = renamed-IsWaiting q id' s w in
      let (t, e₂, back) = release_failed-IsRolledBack now u w' in
      (
        t,
        >>=-ok (renamed q id') _ s now u e₁
            ∙ by_failure unit provided os now payment.result payment.checking_id payment.fee
                payment.preimage u status failed
                (ap payments.status_after (checking_id-again payment.checking_id q now is_now)
                  ∙ again)
                failed_again
            ∙ e₂,
        subst (λ (k : String). IsRolledBack k before t.db) same back,
      )
