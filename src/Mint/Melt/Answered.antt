-- ===== src/Mint/Melt/Answered.antt =====
-- What settling or giving up a pending melt quote (cashu/mint/ledger.py, 734-785) has done.
use nutshell.Base.{◌-ℤ◌, ◌+ℤ◌, pos, String, true, some, List, [], ◌∷◌, ◌≡◌, ap, ◌∙◌, subst, arith}
use nutshell.Core.Currency.{CurrencyUnit, Rounding}
use nutshell.Core.Proofs.{Proof, BlindedMessage, sum_proofs, amount_in}
use nutshell.Core.Quotes.{MeltQuote, MeltQuoteState, set_melt_state}
use nutshell.Core.Result.{ok}
use nutshell.Mint.State.{Db, Mint, IsKeyed, transaction, for_each, melt_quote_event}
use nutshell.Mint.Chains.{>>=-returns, lift-returns, transaction-returns}
use nutshell.Mint.Crud.{
  delete_blinded_messages_melt_id, get_pending_proofs_for_quote, get_blinded_messages_melt_id,
}
use nutshell.Mint.Lightning.{PaymentStatus}
use nutshell.Mint.Quotes.{update_melt_quote}
use nutshell.Mint.Verification.{Env, get_fees_for_proofs}
use nutshell.Mint.Write.{unset_proofs_pending, unset_proofs_pending_in, unset_pending_step}
use nutshell.Mint.Write.Loops.{push_rows, drop_secrets, unset_pending_loop-returns}
use nutshell.Mint.Write.Pending.{IsReleased}
use nutshell.Mint.Ledger.Issue.{invalidate_proofs_in, invalidate_step, group_from}
use nutshell.Mint.Ledger.Issued.{ok-inj}
use nutshell.Mint.Ledger.Loops.{invalidate_loop-returns, fees_loop-returns}
use nutshell.Mint.Melt.Finish.{set_paid, fee_of_payment, change_for}
use nutshell.Mint.Melt.Finished.{OnlyIssued, change_for-returns}
use nutshell.Mint.Melt.Refresh.{spend_pending, give_change, commit, roll_back}

set_melt_state-returns :
    (q q' : MeltQuote) (value : MeltQuoteState)
    → set_melt_state q value ≡ ok q'
    → q' ≡ record q { state = value }
unfolding set_melt_state
set_melt_state-returns q q' value e = ground arith

update_melt_quote-returns :
    (q : MeltQuote) (s t : Mint)
    → update_melt_quote q s ≡ (ok tt, t)
    → t ≡ record s { db = record s.db { melt_quotes = t.db.melt_quotes } }
unfolding update_melt_quote
update_melt_quote-returns q s t e = ground arith

delete_outputs-returns :
    (id : String) (s t : Mint)
    → delete_blinded_messages_melt_id id s ≡ (ok tt, t)
    → t ≡ record s { db = record s.db { promises = t.db.promises } }
unfolding delete_blinded_messages_melt_id
delete_outputs-returns id s t e = ground arith

module _ (env : Env) (keyed : IsKeyed env.keysets) where
  -- Taking proofs off the pending table, when it returns.
  unset-IsReleased :
      (ps : List Proof) (s t : Mint)
      → unset_proofs_pending env.keysets ps true s ≡ (ok tt, t)
      → IsReleased ps s.db t.db
  unfolding unset_proofs_pending
  unset-IsReleased ps s t e =
      let (_, u, e₁, e₂) =
        >>=-returns (transaction (for_each (unset_pending_step env.keysets) ps)) _ s e in
      let (rows, balances, same) =
        unset_pending_loop-returns env.keysets ps s u keyed
          (transaction-returns (for_each (unset_pending_step env.keysets) ps) s tt u e₁) in
      let last : u ≡ t = ap (λ r. r.1) e₂ in
      subst (λ (x : Mint). IsReleased ps s.db x.db) last
        (record { rows = rows; balances = balances; others = ap (λ (x : Mint). x.db) same })

  -- The proofs were released, and the quote is unpaid.
  pub record IsUndone (q done : MeltQuote) (ps : List Proof) (before after : Db) : Type 0 where
    pub unpaid : done ≡ record q { state = MeltQuoteState.unpaid }
    pub spent : after.proofs_used ≡ before.proofs_used
    pub pending : after.proofs_pending ≡ drop_secrets ps before.proofs_pending
    pub balances : (k : String) → after.balance k ≡ before.balance k +ℤ amount_in k ps

  pub roll_back-IsUndone :
      (q done : MeltQuote) (s t : Mint)
      → roll_back env q s ≡ (ok done, t)
      → IsUndone q done (get_pending_proofs_for_quote q.quote s.db) s.db t.db
  unfolding roll_back get_pending_proofs_for_quote
  roll_back-IsUndone q done s t e =
      let (unpaid, e₁, e₂) = lift-returns (set_melt_state q MeltQuoteState.unpaid) _ s e in
      let (_, u, e₃, e₄) = >>=-returns (update_melt_quote unpaid) _ s e₂ in
      let v : Mint = record u { events = melt_quote_event unpaid ∷ u.events } in
      let ps = get_pending_proofs_for_quote q.quote v.db in
      let (_, w, e₇, e₈) = >>=-returns (unset_proofs_pending env.keysets ps true) _ v e₄ in
      let released = unset-IsReleased ps v w e₇ in
      let kept : v.db ≡ record s.db { melt_quotes = v.db.melt_quotes } =
        ground (arith, update_melt_quote-returns unpaid s u e₃) in
      let same_ps : ps ≡ get_pending_proofs_for_quote q.quote s.db =
        ap (get_pending_proofs_for_quote q.quote) kept in
      let (_, x, e₉, e₁₀) = >>=-returns (delete_blinded_messages_melt_id q.quote) _ w e₈ in
      let last : t.db ≡ record w.db { promises = t.db.promises } =
        ground (arith, delete_outputs-returns q.quote w x e₉, e₁₀) in
      subst (λ ps'. IsUndone q done ps' s.db t.db) same_ps
        (record {
          unpaid = ground (arith, set_melt_state-returns q unpaid MeltQuoteState.unpaid e₁, e₁₀);
          spent = ground (arith, last, released.others, kept);
          pending = ground (arith, last, released.rows, kept);
          balances = λ k.
              ap (λ (d : Db). d.balance k) last
              ∙ released.balances k
              ∙ ap (λ (d : Db). d.balance k +ℤ amount_in k ps) kept;
        })

  set_paid-state :
      (q q' : MeltQuote) (status : PaymentStatus) (unit : CurrencyUnit) (s t : Mint)
      → set_paid env q status.fee status.preimage unit Rounding.no_rounding s ≡ (ok q', t)
      → (q'.state ≡ MeltQuoteState.paid) × (q'.quote ≡ q.quote) × (t ≡ s)
  unfolding set_paid
  set_paid-state q q' status unit s t e =
      let (paid, e₁, e₂) = lift-returns (set_melt_state q MeltQuoteState.paid) _ s e in
      let (n, _, e₃) =
        lift-returns (fee_of_payment paid status.fee unit Rounding.no_rounding) _ s e₂ in
      ground (arith, set_melt_state-returns q paid MeltQuoteState.paid e₁, e₃)

  spend_pending-returns :
      (ps : List Proof) (id : String) (s t : Mint)
      → spend_pending env ps id s ≡ (ok tt, t)
      → (t.db.proofs_used ≡ push_rows (some id) ps s.db.proofs_used)
        × (t.db.proofs_pending ≡ drop_secrets ps s.db.proofs_pending)
        × (t.db.mint_quotes ≡ s.db.mint_quotes)
  unfolding spend_pending invalidate_proofs_in unset_proofs_pending_in
  spend_pending-returns ps id s t e =
      let q = some id in
      let body = transaction-returns _ s tt t e in
      let (_, v, e₁, e₂) = >>=-returns (invalidate_proofs_in env ps q) _ s body in
      let (_, u, e₃, e₄) = >>=-returns (for_each (invalidate_step env q) ps) _ s e₁ in
      let (rows, _, same, _) = invalidate_loop-returns env keyed q ps s u e₃ in
      let fees = fees_loop-returns env keyed (group_from [] ps) u v e₄ in
      let (_, w, e₅, e₆) = >>=-returns (for_each (unset_pending_step env.keysets) ps) _ v e₂ in
      let (dropped, _, only) = unset_pending_loop-returns env.keysets ps v w keyed e₅ in
      let last : w ≡ t = ap (λ r. r.1) e₆ in ground (arith, rows, same, fees, dropped, only, last)

  give_change-returns :
      (ps : List Proof) (os : List BlindedMessage) (q q' : MeltQuote) (s t : Mint)
      → give_change env ps os q s ≡ (ok q', t)
      → (q' ≡ record q { change = q'.change }) × OnlyIssued s t
  unfolding give_change
  give_change-returns ps [] q q' s t e = ground arith
  give_change-returns ps (o ∷ os) q q' s t e =
      let (fees, _, e₁) = lift-returns (get_fees_for_proofs env ps) _ s e in
      let (sigs, u, e₂, e₃) =
        >>=-returns (change_for env (sum_proofs ps -ℤ q.amount -ℤ pos fees) q (o ∷ os)) _ s e₁ in
      let (only, _) =
        change_for-returns env keyed (sum_proofs ps -ℤ q.amount -ℤ pos fees) q (o ∷ os) s u sigs
          e₂ in
      ground (arith, only, e₃)

  -- The proofs were spent for the quote, and it is paid.
  pub record IsCommitted (q done : MeltQuote) (ps : List Proof) (before after : Db) : Type 0 where
    pub paid : done.state ≡ MeltQuoteState.paid
    pub same_quote : done.quote ≡ q.quote
    pub spent : after.proofs_used ≡ push_rows (some q.quote) ps before.proofs_used
    pub pending : after.proofs_pending ≡ drop_secrets ps before.proofs_pending

  pub commit-IsCommitted :
      (q done : MeltQuote) (status : PaymentStatus) (unit : CurrencyUnit) (s t : Mint)
      → commit env q status unit s ≡ (ok done, t)
      → IsCommitted q done (get_pending_proofs_for_quote q.quote s.db) s.db t.db
  unfolding commit
  commit-IsCommitted q done status unit s t e =
      let (paid, u, e₁, e₂) =
        >>=-returns (set_paid env q status.fee status.preimage unit Rounding.no_rounding) _ s e in
      let (is_paid, same_quote, same) = set_paid-state q paid status unit s u e₁ in
      let ps = get_pending_proofs_for_quote q.quote u.db in
      let (_, v, e₃, e₄) = >>=-returns (spend_pending env ps q.quote) _ u e₂ in
      let (spent, dropped, _) = spend_pending-returns ps q.quote u v e₃ in
      let os = get_blinded_messages_melt_id q.quote v.db in
      let (q', w, e₅, e₆) = >>=-returns (give_change env ps os paid) _ v e₄ in
      let (returned, only) = give_change-returns ps os paid q' v w e₅ in
      let (_, x, e₇, e₈) = >>=-returns (update_melt_quote q') _ w e₆ in
      let updated = update_melt_quote-returns q' w x e₇ in
      let same_done : q' ≡ done = ok-inj (ap (λ r. r.0) e₈) in
      let last = ap (λ r. r.1.db) e₈ in
      subst (λ (z : Mint). IsCommitted q done (get_pending_proofs_for_quote q.quote z.db) z.db t.db)
        same
        (record {
          paid = ground (arith, returned, same_done, is_paid);
          same_quote = ground (arith, returned, same_done, same_quote);
          spent = ground (arith, spent, only, updated, last);
          pending = ground (arith, dropped, only, updated, last);
        })
