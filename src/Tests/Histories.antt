-- ===== src/Tests/Histories.antt =====
-- Runs of the small mint.
use nutshell.Base.{true, false, none, some, List, [], ◌∷◌, ◌≡◌, refl, pos, Distinct}
use nutshell.Core.Proofs.{BlindedMessage}
use nutshell.Core.Quotes.{MeltQuoteState}
use nutshell.Core.Result.{ok}
use nutshell.Mint.State.{Mint}
use nutshell.Mint.Crud.{Ys}
use nutshell.Mint.Ledger.{swap}
use nutshell.Mint.Ledger.Minting.{mint}
use nutshell.Mint.Lightning.{Payments}
use nutshell.Mint.Melt.Pay.{melt}
use nutshell.Mint.History.Steps.{Step, Run, Run-spends_once, swap_refuses_spent, melt_refuses_spent}
use nutshell.Mint.Verification.Quotes.{Backends}
use nutshell.Tests.World.{env, four, two, output, start, melt_quote}

abbrev backends : Backends
backends = record {
  supports = λ m u. true;
  settled = λ c. some true;
  amount_msat = λ r. some (some (pos 4000));
  verify_x_only = λ p m s. some false;
}

abbrev pub payments : Payments
payments = record {
  status_before = λ c. none;
  pay_invoice = λ q limit. none;
  status_after = λ c. none;
}

abbrev outputs : List BlindedMessage
outputs = output 2 "b" ∷ output 1 "c" ∷ []

-- A mint that has seen a proof.
abbrev spent : Mint
spent = record start {
  db = record start.db { proofs_used = record { proof = four; melt_quote = none } ∷ [] };
}

-- A mint quote is issued, another proof is swapped, and a melt is tried.
abbrev minted : Mint
minted = (mint env backends outputs "q" none spent).1

abbrev swapped : Mint
swapped = (swap env (two ∷ []) (output 1 "d" ∷ []) none minted).1

abbrev later : Mint
later = (melt env backends payments (two ∷ []) "m" [] swapped).1

run : Run spent later
run =
    Run.next
      (Run.next (Run.next (Run.here spent) (Step.minted env backends outputs "q" none spent))
        (Step.swapped env (two ∷ []) (output 1 "d" ∷ []) none minted))
      (Step.melted env backends payments (two ∷ []) "m" [] swapped)

Run-spends_once_example : Distinct (Ys later.db.proofs_used)
Run-spends_once_example = Run-spends_once spent later run (refl, tt)

swap_refuses_spent_example : ¬ swap env (four ∷ []) outputs none later ≡ (ok [], start)
swap_refuses_spent_example =
    swap_refuses_spent env "Y:a" (four ∷ []) outputs none spent later start [] (refl, tt) refl run
      refl

melt_refuses_spent_example :
    ¬ melt env backends payments (two ∷ four ∷ []) "m" [] later
    ≡ (ok (melt_quote MeltQuoteState.paid), start)
melt_refuses_spent_example =
    melt_refuses_spent env backends payments "Y:a" (two ∷ four ∷ []) "m" [] spent later start
      (melt_quote MeltQuoteState.paid) (refl, tt) refl run refl
