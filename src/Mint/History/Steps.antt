-- ===== src/Mint/History/Steps.antt =====
-- Runs of the mint: requests to `Ledger` of cashu/mint/ledger.py one after the other, each of which may
-- return or raise, with whatever the backends and the scripts answer.
use nutshell.Base.{
  refl, ◌==◌, String, Bool, true, false, Option, none, some, List, [], ◌∷◌, ◌≡◌, subst, arith,
  contains, Distinct, eq_iff,
}
use nutshell.Core.Proofs.{Proof, BlindedMessage, BlindedSignature}
use nutshell.Core.Quotes.{MintQuote, MeltQuote, MintQuoteState, mint_state_eq}
use nutshell.Core.Result.{Result, ok, raise_if, raise_if-eq-ok}
use nutshell.Mint.State.{Mint, MintKeyset, IsKeyed}
use nutshell.Mint.Chains.{>>=-returns, check-returns, lift-returns}
use nutshell.Mint.Crud.{Ys}
use nutshell.Mint.Lightning.{Payments}
use nutshell.Mint.Read.{proof_Ys}
use nutshell.Mint.Tables.{Fresh}
use nutshell.Mint.Verification.{Env, verify_inputs_and_outputs, verify_outputs}
use nutshell.Mint.Verification.Quotes.{Backends}
use nutshell.Mint.Write.{verify_spent_proofs_and_set_pending}
use nutshell.Mint.Write.Pending.{verify_spent_proofs_and_set_pending-returns}
use nutshell.Mint.Ledger.{swap}
use nutshell.Mint.Ledger.Minting.{
  refresh_mint_quote, mint, mint_refreshed, check_mint_quote, output_unit,
}
use nutshell.Mint.Melt.Checks.{Checked, melt_checks}
use nutshell.Mint.Melt.Pay.{melt_checked, melt}
use nutshell.Mint.Melt.Refresh.{refresh_melt_quote, check_pending_proofs_and_melt_quotes}
use nutshell.Mint.History.Grows.{
  Grows, Grows-trans, Grows-Distinct, Grows-contains, Keeps, Keeps-refl, Keeps-trans,
}
use nutshell.Mint.History.Quotes.{mint_quote-OnlyGrows, melt_quote-OnlyGrows}
use nutshell.Mint.Ledger.QuoteChecks.{QuoteSettings, MintQuoteRequest, MeltQuoteRequest, Invoices}
use nutshell.Mint.Ledger.Creating.{mint_quote, melt_quote}
use nutshell.Mint.Ledger.Minted.{mint-IsMinted}
use nutshell.Mint.Write.MintQuotes.{row_of, is_issued, is_issued-row_of, after_get_mint_quote}
use nutshell.Core.Errors.{transaction_error, quote_already_issued}
use nutshell.Mint.History.Parts.{swap-OnlyGrows, mint-OnlyGrows, refresh_mint_quote-OnlyGrows}
use nutshell.Mint.History.Melts.{refresh_melt_quote-OnlyGrows, check_pending-OnlyGrows}
use nutshell.Mint.History.Pays.{melt-OnlyGrows, melt_checks-OnlyGrows}

-- One request, however it ends, with the keysets and the clock that it meets.
pub data Step : Mint → Mint → Type 0 where
  swapped :
      (env : Env) (ps : List Proof) (os : List BlindedMessage) (keyset : Option MintKeyset)
      (s : Mint)
      → Step s (swap env ps os keyset s).1
  mint_quoted :
      (env : Env) (settings : QuoteSettings) (backends : Backends) (invoices : Invoices)
      (request : MintQuoteRequest) (s : Mint)
      → Step s (mint_quote env settings backends invoices request s).1
  minted :
      (env : Env) (backends : Backends) (os : List BlindedMessage) (id : String)
      (signature : Option String) (s : Mint)
      → Step s (mint env backends os id signature s).1
  mint_quote_read :
      (env : Env) (backends : Backends) (id : String) (s : Mint)
      → Step s (refresh_mint_quote env backends id s).1
  melt_quoted :
      (env : Env) (settings : QuoteSettings) (backends : Backends) (invoices : Invoices)
      (request : MeltQuoteRequest) (s : Mint)
      → Step s (melt_quote env settings backends invoices request s).1
  melted :
      (env : Env) (backends : Backends) (payments : Payments) (ps : List Proof) (id : String)
      (os : List BlindedMessage) (s : Mint)
      → Step s (melt env backends payments ps id os s).1
  melt_quote_read :
      (env : Env) (backends : Backends) (payments : Payments) (id : String)
      (rollback_unknown : Bool) (s : Mint)
      → Step s (refresh_melt_quote env backends payments id rollback_unknown s).1
  pending_checked :
      (env : Env) (backends : Backends) (payments : Payments) (s : Mint)
      → Step s (check_pending_proofs_and_melt_quotes env backends payments s).1

pub data Run : Mint → Mint → Type 0 where
  here : (s : Mint) → Run s s
  next : {s t u : Mint} → Run s t → Step t u → Run s u

Step-Keeps : {s t : Mint} → Step s t → Keeps s.db t.db
Step-Keeps (swapped env ps os keyset s) = (swap-OnlyGrows env ps os keyset).grows s
Step-Keeps (mint_quoted env settings backends invoices request s) =
    (mint_quote-OnlyGrows env settings backends invoices request).grows s
Step-Keeps (minted env backends os id signature s) =
    (mint-OnlyGrows env backends os id signature).grows s
Step-Keeps (mint_quote_read env backends id s) =
    (refresh_mint_quote-OnlyGrows env backends id).grows s
Step-Keeps (melt_quoted env settings backends invoices request s) =
    (melt_quote-OnlyGrows env settings backends invoices request).grows s
Step-Keeps (melted env backends payments ps id os s) =
    (melt-OnlyGrows env backends payments ps id os).grows s
Step-Keeps (melt_quote_read env backends payments id b s) =
    (refresh_melt_quote-OnlyGrows env backends payments id b).grows s
Step-Keeps (pending_checked env backends payments s) =
    (check_pending-OnlyGrows env backends payments).grows s

Run-Keeps : {s t : Mint} → Run s t → Keeps s.db t.db
Run-Keeps (here s) = Keeps-refl s.db
Run-Keeps (next run step) = Keeps-trans (Run-Keeps run) (Step-Keeps step)

-- In every run of requests, if no Y stands twice in the table of spent proofs at its start, none does at
-- its end.
pub Run-spends_once :
    (s t : Mint) → Run s t → Distinct (Ys s.db.proofs_used) → Distinct (Ys t.db.proofs_used)
Run-spends_once s t run d = Grows-Distinct (Run-Keeps run).spent d

Fresh-not_in :
    (y : String) (ys zs : List String) → Fresh ys zs → contains y ys ≡ true → contains y zs ≡ false
Fresh-not_in y [] zs f h = cc
Fresh-not_in y (x ∷ xs) zs f h = ground (arith, f, eq_iff x y, eq_iff y x, Fresh-not_in y xs zs)

refused :
    (env : Env) (y : String) (ps : List Proof) (s u v : Mint) (q : Option String)
    → IsKeyed env.keysets
    → contains y (Ys s.db.proofs_used) ≡ true
    → contains y (proof_Ys ps) ≡ true
    → Grows s.db.proofs_used u.db.proofs_used
    → ¬ verify_spent_proofs_and_set_pending env.keysets ps q u ≡ (ok tt, v)
refused env y ps s u v q keyed spent given g e =
    let (spendable, _) = verify_spent_proofs_and_set_pending-returns env.keysets ps q u v keyed e in
    let is_spent = Grows-contains y g spent in
    let not_spent = Fresh-not_in y (proof_Ys ps) (Ys u.db.proofs_used) spendable.unspent given in cc

-- Once a Y is in the table of spent proofs, then after any run of requests no swap returns that has a proof
-- with this Y among its inputs. (Every keyset is filed under its own id.)
pub swap_refuses_spent :
    (env : Env) (y : String) (ps : List Proof) (os : List BlindedMessage)
    (keyset : Option MintKeyset) (s u v : Mint) (sigs : List BlindedSignature)
    → IsKeyed env.keysets
    → contains y (Ys s.db.proofs_used) ≡ true
    → Run s u
    → contains y (proof_Ys ps) ≡ true
    → ¬ swap env ps os keyset u ≡ (ok sigs, v)
unfolding swap
swap_refuses_spent env y ps os keyset s u v sigs keyed spent run given e =
    let (_, e₁) = check-returns (verify_inputs_and_outputs env ps (some os)) _ u e in
    let (_, w, e₂, _) =
      >>=-returns (verify_spent_proofs_and_set_pending env.keysets ps none) _ u e₁ in
    refused env y ps s u w none keyed spent given (Run-Keeps run).spent e₂

-- Once a Y is in the table of spent proofs, then after any run of requests no melt returns, not even with a
-- quote that is still pending, that has a proof with this Y among its inputs. (Every keyset is filed under
-- its own id.)
pub melt_refuses_spent :
    (env : Env) (backends : Backends) (payments : Payments) (y : String) (ps : List Proof)
    (id : String) (os : List BlindedMessage) (s u v : Mint) (done : MeltQuote)
    → IsKeyed env.keysets
    → contains y (Ys s.db.proofs_used) ≡ true
    → Run s u
    → contains y (proof_Ys ps) ≡ true
    → ¬ melt env backends payments ps id os u ≡ (ok done, v)
unfolding melt melt_checked
melt_refuses_spent env backends payments y ps id os s u v done keyed spent run given e =
    let (c, w, e₁, e₂) = >>=-returns (melt_checks env backends payments ps id os) _ u e in
    let (_, x, e₃, _) =
      >>=-returns (verify_spent_proofs_and_set_pending env.keysets ps (some c.quote.quote)) _ w
        e₂ in
    let g = (melt_checks-OnlyGrows env backends payments ps id os).grows u in
    refused env y ps s w x (some c.quote.quote) keyed spent given
      (Grows-trans (Run-Keeps run).spent (
        subst (λ (r : Result Checked × Mint). Grows u.db.proofs_used r.1.db.proofs_used) e₁
          g.spent))
      e₃

module _ (env : Env) (backends : Backends) where
  check_mint_quote-issued :
      (id : String) (found : Option MintQuote) (q : MintQuote) (s t : Mint)
      → ((row : MintQuote)
          → found ≡ some row
          → mint_state_eq row.state MintQuoteState.issued ≡ true)
      → check_mint_quote env backends id found s ≡ (ok q, t)
      → mint_state_eq q.state MintQuoteState.issued ≡ true
  unfolding check_mint_quote
  check_mint_quote-issued id none q s t issued e = ground arith
  check_mint_quote-issued id (some row) q s t issued e = ground (arith, issued row refl)

  -- No minting returns on a quote that is issued.
  mint-issued :
      (id : String) (os : List BlindedMessage) (signature : Option String) (s t : Mint)
      (sigs : List BlindedSignature)
      → (id == "") ≡ false
      → is_issued id s.db.mint_quotes ≡ true
      → ¬ mint env backends os id signature s ≡ (ok sigs, t)
  unfolding mint refresh_mint_quote mint_refreshed
  mint-issued id os signature s t sigs named issued e =
      let (_, e₁) = check-returns (verify_outputs env os false) _ s e in
      let (unit, _, e₂) = lift-returns (output_unit env backends os) _ s e₁ in
      let (quote, v, e₃, e₄) = >>=-returns (refresh_mint_quote env backends id) _ s e₂ in
      let is =
        check_mint_quote-issued id (row_of id s.db.mint_quotes) quote s v
          (λ row found. is_issued-row_of id s.db.mint_quotes row issued found)
          (after_get_mint_quote id (check_mint_quote env backends id) s named e₃) in
      let (_, _, e₅) =
        lift-returns
          (raise_if (mint_state_eq quote.state MintQuoteState.pending)
            (transaction_error "Mint quote already pending."))
          _ v e₄ in
      let (_, passed, _) =
        lift-returns
          (raise_if (mint_state_eq quote.state MintQuoteState.issued) quote_already_issued) _ v
          e₅ in
      ground (arith, is, raise_if-eq-ok _ _ passed)

-- After a call of `mint` that returned on a quote with an id that is not empty, and any run of requests one
-- after the other, no call of `mint` on the same quote returns, whatever its outputs and its signature, and
-- whatever its keysets, clock and backends. (In the first call every keyset is filed under its own id.)
pub mint_issues_once :
    (env env' : Env) (keyed : IsKeyed env.keysets) (backends backends' : Backends) (id : String)
    (os os' : List BlindedMessage) (signature signature' : Option String) (s t u v : Mint)
    (sigs sigs' : List BlindedSignature)
    → (id == "") ≡ false
    → mint env backends os id signature s ≡ (ok sigs, t)
    → Run t u
    → ¬ mint env' backends' os' id signature' u ≡ (ok sigs', v)
mint_issues_once env env' keyed backends backends' id os os' signature signature' s t u v sigs sigs'
      named first run second =
    let (_, _, _, _, done) =
      mint-IsMinted env keyed backends id os signature s t sigs named first in
    mint-issued env' backends' id os' signature' u v sigs' named
      ((Run-Keeps run).issued id done.closed) second
