-- ===== src/Tests/Creations.antt =====
-- Quotes of the small mint that are created, internal and not, and signatures restored.
use nutshell.Base.{
  ◌+ℤ◌, ℤ, pos, String, false, Option, none, some, [], ◌∷◌, ◌==◌, ◌≡◌, refl, if◌then◌else◌,
}
use nutshell.Core.Currency.{CurrencyUnit, to}
use nutshell.Core.Errors.{not_allowed, transaction_error}
use nutshell.Core.Quotes.{MintQuote, MeltQuote, MintQuoteState, MeltQuoteState}
use nutshell.Core.Result.{ok, err}
use nutshell.Mint.Crud.{get_blind_signature}
use nutshell.Mint.Ledger.Creating.{
  get_unit_balance_and_fees, melt_quote, mint_quote, restore, store_quoted,
}
use nutshell.Mint.Ledger.QuoteChecks.{
  QuoteSettings, MintQuoteRequest, MeltQuoteRequest, PaymentQuoteResponse, Invoices,
  create_internal_melt_quote, payment_quote_for, validate_payment_quote,
}
use nutshell.Mint.Ledger.Quoted.{IsQuoted, melt_quote-IsQuoted}
use nutshell.Mint.Ledger.Priced.{Priced}
use nutshell.Mint.Quotes.{
  get_melt_quotes_by_checking_id, get_mint_quote, store_melt_quote, store_mint_quote,
}
use nutshell.Mint.State.{Mint, Promise, transaction}
use nutshell.Mint.Verification.Quotes.{Backends, verify_and_get_unit_method}
use nutshell.Mint.Write.Quotes.{store_new_melt_quote}
use nutshell.Tests.World.{env, output, start, mint_quote as a_mint_quote}

abbrev pub backends : Backends
backends = record {
  supports = λ method unit. method == "bolt11";
  settled = λ checking_id. none;
  amount_msat = λ request. none;
  verify_x_only = λ key message signature. none;
}

abbrev pub settings : QuoteSettings
settings = record {
  mint_max_mint_bolt11_sat = some (pos 50);
  mint_max_melt_bolt11_sat = some (pos 8);
  mint_max_balance = some (pos 120);
  mint_bolt11_disable_mint = false;
  mint_bolt11_disable_melt = false;
}

-- The backend asks one sat for every invoice that costs eight.
abbrev pub invoices : Invoices
invoices = record {
  supports_description = false;
  supports_mpp = false;
  create_invoice =
      λ amount memo. some (record { checking_id = some "n"; payment_request = some "LNNEW" });
  get_payment_quote = λ request. some (record {
    checking_id = "e";
    amount = record { unit = CurrencyUnit.sat; amount = pos 8 };
    fee = record { unit = CurrencyUnit.sat; amount = pos 1 };
  });
  decode = λ request. some (record { amount_msat = some (pos 8000); date = 30; expiry = some 12 });
  lower = λ t. if t == "LNNEW" then "lnnew" else t;
  random_hash = "r";
}

abbrev request : String → MeltQuoteRequest
request invoice = record { unit = "sat"; request = invoice; mpp_amount = none }

abbrev external : MeltQuote
external = record {
  quote = "r";
  method = "bolt11";
  request = "lnother";
  checking_id = "e";
  unit = "sat";
  amount = pos 8;
  fee_reserve = pos 1;
  state = MeltQuoteState.unpaid;
  paid_time = none;
  fee_paid = pos 0;
  payment_preimage = none;
  expiry = some 42;
  change = [];
}

abbrev quoted : Mint
quoted = (melt_quote env settings backends invoices (request "lnother") start).1

melt_quote_runs :
    melt_quote env settings backends invoices (request "lnother") start ≡ (ok external, quoted)
unfolding melt_quote get_mint_quote payment_quote_for store_quoted validate_payment_quote
    verify_and_get_unit_method to store_new_melt_quote get_melt_quotes_by_checking_id
    store_melt_quote transaction
melt_quote_runs = refl

melt_quote-IsQuoted_example :
    (found : Option MintQuote) × (p : PaymentQuoteResponse) × (get_mint_quote "" "" "lnother" start
      ≡ (ok found, start))
    × Priced env backends invoices (request "lnother") found p
    × IsQuoted env settings backends invoices (request "lnother") external p start.db quoted.db
melt_quote-IsQuoted_example =
    melt_quote-IsQuoted env settings backends invoices (request "lnother") start quoted external
      melt_quote_runs

-- The invoice of the mint's own unpaid quote costs no fee.
abbrev own : Mint
own = record start {
  db = record start.db { mint_quotes = a_mint_quote MintQuoteState.unpaid ∷ [] };
}

internal_runs :
    (melt_quote env settings backends invoices (request "ln") own).0
    ≡ ok
        (record external { request = "ln"; checking_id = "c"; amount = pos 4; fee_reserve = pos 0 })
unfolding melt_quote get_mint_quote payment_quote_for create_internal_melt_quote store_quoted
    validate_payment_quote verify_and_get_unit_method to store_new_melt_quote
    get_melt_quotes_by_checking_id store_melt_quote transaction
internal_runs = refl

-- The invoice of a quote that is paid is refused.
paid_is_refused :
    melt_quote env settings backends invoices (request "ln") start
    ≡ (err (transaction_error "mint quote already paid"), start)
unfolding melt_quote get_mint_quote payment_quote_for create_internal_melt_quote
    verify_and_get_unit_method transaction
paid_is_refused = refl

-- The mint has issued a hundred of a hundred and twenty.
abbrev pub minted : ℤ → MintQuoteRequest
minted amount = record { unit = "sat"; amount = amount; description = none; pubkey = none }

balance_is_refused :
    mint_quote env settings backends invoices (minted (pos 21)) start
    ≡ (err (not_allowed "Mint has reached maximum balance."), start)
unfolding ◌+ℤ◌ mint_quote get_unit_balance_and_fees verify_and_get_unit_method transaction
balance_is_refused = refl

mint_quote_runs :
    (mint_quote env settings backends invoices (minted (pos 20)) start).0
    ≡ ok (record (a_mint_quote MintQuoteState.unpaid) {
      quote = "r";
      request = "lnnew";
      checking_id = "n";
      amount = pos 20;
      expiry = some 42;
    })
unfolding ◌+ℤ◌ mint_quote get_unit_balance_and_fees verify_and_get_unit_method store_mint_quote
    transaction
mint_quote_runs = refl

-- Of two outputs that were stored, one was signed.
abbrev stored : Promise
stored = record {
  id = "k";
  amount = pos 2;
  b_ = "B";
  c_ = some "twoB";
  dleq = ("e", "s");
  mint_quote = none;
  melt_quote = none;
}

restore_runs :
    restore
      (output 2 "A" ∷ output 2 "B" ∷ output 2 "C" ∷ [])
      (record start.db { promises = stored ∷ record stored { b_ = "A"; c_ = none } ∷ [] })
    ≡ (output 2 "B", record { id = "k"; amount = pos 2; C_ = "twoB"; dleq = ("e", "s") }) ∷ []
unfolding restore get_blind_signature
restore_runs = refl
