-- ===== src/Mint/Quotes.antt =====
-- The statements of cashu/mint/crud.py on the tables of quotes. The table `mint_quotes` has no
-- column for the expiry, so a mint quote that is read back has none.
use nutshell.Base.{
  String, Bool, ◌&&◌, ◌||◌, Option, none, some, List, [], ◌∷◌, map, ◌==◌, if◌then◌else◌, any_of,
  select, find,
}
use nutshell.Core.Errors.{integrity_error, value_error}
use nutshell.Core.Quotes.{MintQuote, MeltQuote}
use nutshell.Core.Result.{Result}
use nutshell.Mint.State.{Db, Action, raise, modify}
use nutshell.Mint.Crud.{get_blind_signatures_melt_id}

-- An argument that is None, or the empty text, adds no clause to the WHERE.
abbrev pub clause : String → String → Bool
clause arg column = arg == "" || column == arg

abbrev no_clause : String → String → String → Bool
no_clause quote_id checking_id request = quote_id == "" && checking_id == "" && request == ""

unfoldable pub store_mint_quote : MintQuote → Action (Unit {0})
store_mint_quote q s =
    if any_of (λ r. r.quote == q.quote) s.db.mint_quotes
    then raise integrity_error s
    else modify (λ db. record db { mint_quotes = record q { expiry = none } ∷ db.mint_quotes }) s

unfoldable pub get_mint_quote : String → String → String → Action (Option MintQuote)
get_mint_quote quote_id checking_id request s =
    if no_clause quote_id checking_id request then raise value_error s else (
      Result.ok (
          find
            (λ q.
              clause quote_id q.quote
              && clause checking_id q.checking_id
              && clause request q.request)
            s.db.mint_quotes),
      s,
    )

-- What the UPDATE does to one row.
abbrev pub updated_mint_row : MintQuote → MintQuote → MintQuote
updated_mint_row q r =
    if r.quote == q.quote then record r { state = q.state; paid_time = q.paid_time } else r

unfoldable pub update_mint_quote : MintQuote → Action (Unit {0})
update_mint_quote q =
    modify (λ db. record db { mint_quotes = map (updated_mint_row q) db.mint_quotes })

unfoldable pub store_melt_quote : MeltQuote → Action (Unit {0})
store_melt_quote q s =
    if any_of (λ r. r.quote == q.quote) s.db.melt_quotes
    then raise integrity_error s
    else modify (λ db. record db { melt_quotes = record q { change = [] } ∷ db.melt_quotes }) s

-- The change of a quote that is read is what was signed for it.
abbrev with_change : Db → Option MeltQuote → Option MeltQuote
with_change db none = none
with_change db (some q) = some (record q { change = get_blind_signatures_melt_id q.quote db })

unfoldable pub get_melt_quote : String → String → String → Action (Option MeltQuote)
unfolding get_blind_signatures_melt_id
get_melt_quote quote_id checking_id request s =
    if no_clause quote_id checking_id request then raise value_error s else (
      Result.ok (
          with_change s.db (
            find
              (λ q.
                clause quote_id q.quote
                && clause checking_id q.checking_id
                && clause request q.request)
              s.db.melt_quotes)),
      s,
    )

abbrev pub updated_melt_row : MeltQuote → MeltQuote → MeltQuote
updated_melt_row q r =
    if r.quote == q.quote
    then record r {
      state = q.state;
      fee_paid = q.fee_paid;
      paid_time = q.paid_time;
      payment_preimage = q.payment_preimage;
      checking_id = q.checking_id;
    }
    else r

unfoldable pub update_melt_quote : MeltQuote → Action (Unit {0})
update_melt_quote q =
    modify (λ db. record db { melt_quotes = map (updated_melt_row q) db.melt_quotes })

unfoldable pub get_melt_quotes_by_checking_id : String → Db → List MeltQuote
get_melt_quotes_by_checking_id checking_id db =
    select (λ q. q.checking_id == checking_id) db.melt_quotes
