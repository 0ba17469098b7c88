-- ===== src/Lib.antt =====
-- The mint of nutshell, a Cashu mint and wallet: the parts of cashu/core and cashu/mint that decide
-- which proofs can be spent, what is signed for them, and what is stored; and the coin selection of
-- cashu/wallet.
--
-- A client of the mint sends proofs (ecash that the mint has signed) and outputs (blinded messages
-- that it wants signed). The `Ledger` checks them with `LedgerVerification` and
-- `LedgerSpendingConditions`, locks the proofs with `DbWriteHelper` while it works, writes through
-- `LedgerCrudSqlite`, and tells its subscribers of every new state.
--
-- - Base, Base/Int, Base/Lists, Base/Tests: names of the library passed on, integers and lists over
--   the native numbers, Boolean tests, and the lemmas that all parts share.
-- - Core/Errors, Core/Result: the exceptions of cashu/core/errors.py that the modelled code raises,
--   with their codes, and a value or an exception with Python's `raise`, `assert` and `d[k]` on it.
-- - Core/Currency, Core/Proofs, Core/Quotes: `Unit`, `Amount`, `Proof`, `BlindedMessage`,
--   `BlindedSignature`, `MintQuote` and `MeltQuote` of cashu/core/base.py, with the guards on the
--   state of a quote; Core/Quotes/Life has the life of a mint quote. A record has the fields that
--   the modelled code reads.
-- - Core/Split: `amount_split` of cashu/core/split.py and `calculate_number_of_blank_outputs` of
--   cashu/core/helpers.py; its children prove what they give. `bits` halves its argument n at most
--   n times, which is enough: n halvings leave 0.
-- - Core/Secret: `Secret` and `Tags` of cashu/core/secret.py, and the fields of `P2PKSecret`.
-- - Mint/State: the tables of the mint's database as lists, newest row first, with the balance and
--   the fees of a keyset as functions of its id; the events sent; and `disable_melt`. A call is an
--   action that takes this state to a result or an exception and a new state. `transaction` is
--   `Database.get_connection` of cashu/core/db.py: an exception rolls the tables back and keeps the
--   events. Mint/Chains has the laws of actions.
-- - Mint/Crud, Mint/Quotes: the statements of cashu/mint/crud.py; a UNIQUE constraint that an
--   INSERT breaks is an exception. Mint/Tables has the laws of lookups.
-- - Mint/Read, Mint/Write and its child Quotes: cashu/mint/db/read.py and cashu/mint/db/write.py;
--   the other children prove what the locks on proofs and quotes do.
-- - Mint/Conditions and its child SigAll: cashu/mint/conditions.py and cashu/core/nuts/nut14.py.
--   Matching, Threshold and SigAllSigned prove what a check that returns has found.
-- - Mint/Verification: cashu/mint/verification.py; Balance and Inputs prove what its checks
--   establish.
-- - Mint/Ledger and its children Issue, Promise: `swap`, `_invalidate_proofs`,
--   `_store_blinded_messages` and `_sign_blinded_messages` of cashu/mint/ledger.py; its child
--   Minting: `mint` and `get_mint_quote` (here `refresh_mint_quote`), with the checks of
--   Mint/Verification/Quotes. Loops, SwapBody, Swap, Issued, Minted and Refreshed prove what they have done.
--   Its child Change is `_generate_change_promises`, on which ChangeSum has the theorems, and
--   Settling is `melt_mint_settle_internally`. QuoteChecks and Creating are `mint_quote`,
--   `melt_quote` (the quote itself, of which the response shows fields) and `restore`, with
--   `get_unit_balance_and_fees` of cashu/mint/watchdog.py; Priced and Quoted prove what
--   `melt_quote` gives.
-- - Mint/Lightning: the results of payments of cashu/lightning/base.py, and the answers of a
--   backend as a parameter. Mint/Melt: `get_melt_quote` is Refresh (here `refresh_melt_quote`, with
--   the startup check of pending proofs), and `melt` is Checks (what it checks), Pay (the locks,
--   the payment and its outcome) and Finish (the end of a paid melt). Finished, Checked, Ending and
--   Melted prove what a melt that returns has done; Unlock, Failed and Released, what a failed
--   payment leaves; Stranded, what a quote that cannot be locked leaves; Answered and Asked, what
--   asking for a quote does.
-- - Mint/Keysets: `rotate_next_keyset` of cashu/mint/keysets.py, on keysets with the fields that it
--   reads (`Keyset`); Rotated proves what it leaves.
-- - Mint/History: whole requests as a step relation, each with the keysets and the clock that it
--   meets, and what every run of them keeps. Grows has the law, on spent proofs and issued quotes,
--   which Writes, Parts, Melts, Pays and Quotes prove of every operation; Steps has the runs.
-- - Wallet: cashu/wallet/transactions.py. State has the fees of proofs, Coins `coinselect`, and
--   Outputs `split_wallet_state` and `determine_output_amounts`; Sorted, Selected, Enough and Kept
--   prove what they give. `coinselect_on` recurs on fuel, one more than the number of proofs, which
--   is enough: every call has fewer proofs than its caller. Amounts to send are counted in
--   thousandths, exactly, where the source has floats.
-- - Tests: the theorems at a small concrete mint.
--
-- Transactions of the database follow each other: each locks the rows it reads, so the interleaving
-- of two calls is a sequence of their transactions, and the theorems on locks hold for any state
-- that the second one meets.
--
-- Parameters: the elliptic curve (`Curve`), Schnorr signatures, JSON, `int` and `lower` of texts,
-- the order of iteration over a set, SHA-256 and the clock (`Script`), the Lightning backends
-- (`Backends`, `Payments`, `Invoices`), the paths and ids of keysets (`Derivation`), and
-- `hash_to_curve`, of which only the fact is used that the Y of a proof is a function of its
-- secret. Timestamps of rows, logging and the retries of a lock are left out. Python's integers
-- have no bound, and neither have these.
--
-- Not modelled: the derivation of keys, the startup of keysets, authentication, the web server,
-- websockets, the management service, migrations, and the rest of the wallet.
pub mod Base
pub mod Core
pub mod Mint
pub mod Wallet
pub mod Tests
