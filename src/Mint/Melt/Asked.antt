-- ===== src/Mint/Melt/Asked.antt =====
-- `get_melt_quote` of cashu/mint/ledger.py: what asking the backend about a pending quote leads to.
use nutshell.Base.{
  String, Bool, true, false, ◌&&◌, not, Option, some, ◌≡◌, ◌⊎◌, refl, ap, sym, ◌∙◌, subst, arith,
  inl, inr, is_some,
}
use nutshell.Core.Currency.{CurrencyUnit, Amount}
use nutshell.Core.Errors.{exception}
use nutshell.Core.Quotes.{MintQuote, MeltQuote, MeltQuoteState, melt_state_eq}
use nutshell.Core.Result.{ok, or_raise, or_raise-eq-ok}
use nutshell.Mint.State.{Mint, IsKeyed}
use nutshell.Mint.Chains.{>>=-returns, lift-returns}
use nutshell.Mint.Crud.{get_pending_proofs_for_quote}
use nutshell.Mint.Lightning.{PaymentResult, PaymentStatus, Payments}
use nutshell.Mint.Quotes.{get_mint_quote, get_melt_quote}
use nutshell.Mint.Verification.{Env}
use nutshell.Mint.Verification.Quotes.{Backends, verify_and_get_unit_method}
use nutshell.Mint.Ledger.Issued.{ok-inj}
use nutshell.Mint.Melt.Refresh.{by_status, when_waiting, check_melt_quote, refresh_melt_quote}
use nutshell.Mint.Melt.Answered.{IsUndone, roll_back-IsUndone, IsCommitted, commit-IsCommitted}

module _ (env : Env) (keyed : IsKeyed env.keysets) where
  -- What the answer of the backend has led to: nothing, a payment or a release.
  pub data Outcome (rollback_unknown : Bool) (result : PaymentResult) (q done : MeltQuote)
      (before after : Mint) : Type 0 where
    kept : done ≡ q → after ≡ before → Outcome rollback_unknown result q done before after
    paid :
        result ≡ PaymentResult.settled
        → IsCommitted env keyed q done
            (get_pending_proofs_for_quote q.quote before.db)
            before.db
            after.db
        → Outcome rollback_unknown result q done before after
    undone :
        (result ≡ PaymentResult.failed)
          ⊎ ((result ≡ PaymentResult.unknown) × (rollback_unknown ≡ true))
        → IsUndone env keyed q done
            (get_pending_proofs_for_quote q.quote before.db)
            before.db
            after.db
        → Outcome rollback_unknown result q done before after

  by_status-Outcome :
      (rollback_unknown : Bool) (q done : MeltQuote) (unit : CurrencyUnit) (result : PaymentResult)
      (fee : Option Amount) (preimage : Option String) (s t : Mint)
      → by_status env rollback_unknown q unit
          (record { result = result; fee = fee; preimage = preimage })
          s
        ≡ (ok done, t)
      → Outcome rollback_unknown result q done s t
  unfolding by_status
  by_status-Outcome b q done unit PaymentResult.settled fee preimage s t e =
      paid refl (commit-IsCommitted env keyed q done _ unit s t e)
  by_status-Outcome b q done unit PaymentResult.failed fee preimage s t e =
      undone (inl refl) (roll_back-IsUndone env keyed q done s t e)
  by_status-Outcome b q done unit PaymentResult.pending fee preimage s t e =
      kept (sym (ok-inj (ap (λ r. r.0) e))) (sym (ap (λ r. r.1) e))
  by_status-Outcome true q done unit PaymentResult.unknown fee preimage s t e =
      undone (inr (refl, refl)) (roll_back-IsUndone env keyed q done s t e)
  by_status-Outcome false q done unit PaymentResult.unknown fee preimage s t e =
      kept (sym (ok-inj (ap (λ r. r.0) e))) (sym (ap (λ r. r.1) e))

get_mint_quote-same :
    (id checking_id request : String) (s t : Mint) (found : Option MintQuote)
    → get_mint_quote id checking_id request s ≡ (ok found, t)
    → t ≡ s
unfolding get_mint_quote
get_mint_quote-same id checking_id request s t found e = ground arith

get_melt_quote-same :
    (id : String) (s t : Mint) (found : Option MeltQuote)
    → get_melt_quote id "" "" s ≡ (ok found, t)
    → t ≡ s
unfolding get_melt_quote
get_melt_quote-same id s t found e = ground arith

module _ (env : Env) (keyed : IsKeyed env.keysets) (backends : Backends) (payments : Payments) where
  -- What refreshing a quote has done: nothing, or the quote was pending and the backend has answered.
  pub data Refreshed (rollback_unknown : Bool) (q done : MeltQuote) (before after : Mint)
      : Type 0 where
    unasked : done ≡ q → after ≡ before → Refreshed rollback_unknown q done before after
    asked :
        (status : PaymentStatus)
        → q.state ≡ MeltQuoteState.pending
        → payments.status_before q.checking_id ≡ some status
        → Outcome env keyed rollback_unknown status.result q done before after
        → Refreshed rollback_unknown q done before after

  pending-eq :
      (state : MeltQuoteState) (b : Bool)
      → (melt_state_eq state MeltQuoteState.pending && b) ≡ true
      → state ≡ MeltQuoteState.pending
  pending-eq state b h = ground arith

  when_waiting-Refreshed :
      (waits rollback_unknown : Bool) (q done : MeltQuote) (unit : CurrencyUnit) (s t : Mint)
      → (waits ≡ true → q.state ≡ MeltQuoteState.pending)
      → when_waiting env backends payments waits rollback_unknown q unit s ≡ (ok done, t)
      → Refreshed rollback_unknown q done s t
  when_waiting-Refreshed false b q done unit s t state e =
      unasked (sym (ok-inj (ap (λ r. r.0) e))) (sym (ap (λ r. r.1) e))
  when_waiting-Refreshed true b q done unit s t state e =
      let (status, answered, e₁) =
        lift-returns (or_raise (payments.status_before q.checking_id) (exception "backend")) _ s
          e in
      asked status (state refl) (or_raise-eq-ok _ _ answered)
        (by_status-Outcome env keyed b q done unit status.result status.fee status.preimage s t e₁)

  -- When `get_melt_quote` returns a quote, the id has a row, and either that row is returned and nothing
  -- has changed; or the row was pending and the backend answered about its payment. Then, if it is settled,
  -- the quote is returned as paid, and the proofs that were pending for it, whose `C` the read has dropped,
  -- are pushed on the spent ones and taken off the pending table; if it failed, or is unknown and unknown payments are to be rolled back,
  -- the quote is returned as unpaid, those proofs are taken off the pending table, their amounts are back
  -- on the balances, and none is spent; otherwise the row is returned and nothing has changed. (Every keyset
  -- is filed under its own id.)
  pub refresh_melt_quote-Refreshed :
      (id : String) (rollback_unknown : Bool) (s t : Mint) (done : MeltQuote)
      → refresh_melt_quote env backends payments id rollback_unknown s ≡ (ok done, t)
      → (q : MeltQuote) × (get_melt_quote id "" "" s ≡ (ok (some q), s))
        × Refreshed rollback_unknown q done s t
  unfolding refresh_melt_quote check_melt_quote
  refresh_melt_quote-Refreshed id b s t done e =
      let (found, u, e₁, e₂) = >>=-returns (get_melt_quote id "" "") _ s e in
      let same = get_melt_quote-same id s u found e₁ in
      let (q, is_found, e₃) = lift-returns (or_raise found (exception "quote not found")) _ u e₂ in
      let ((unit, name), _, e₄) =
        lift-returns (verify_and_get_unit_method env backends q.unit q.method) _ u e₃ in
      let (internal, v, e₅, e₆) = >>=-returns (get_mint_quote "" "" q.request) _ u e₄ in
      let same' = get_mint_quote-same "" "" q.request u v internal e₅ in
      let waits = melt_state_eq q.state MeltQuoteState.pending && not (is_some internal) in
      (
        q,
        e₁ ∙ (λ i. (ok (or_raise-eq-ok _ _ is_found i), same i)),
        subst (λ (x : Mint). Refreshed b q done x t) (same' ∙ same)
            (when_waiting-Refreshed waits b q done unit v t
              (pending-eq q.state (not (is_some internal))) e₆),
      )
