-- ===== src/Mint/Verification.antt =====
-- `LedgerVerification` of cashu/mint/verification.py: the checks of inputs and outputs before a
-- transaction. A list comprehension over a check that may raise runs on every element first.
pub mod Balance
pub mod Inputs
pub mod Quotes
use Prim.Native.String.{count}
use nutshell.Base.{
  ℕ, ℤ, pos, ◌+ℤ◌, ◌-ℤ◌, ◌+◌, ◌/◌, ◌^◌, String, Bool, true, false, Option, none, some, List, [],
  ◌∷◌, map, select, ◌==◌, ◌&&◌, ◌||◌, not, if◌then◌else◌, ltb, ltb_ℤ, leb_ℤ, eqb_ℤ, is_empty,
  all_of, any_of, length, dedup, ◌=?◌, is_some,
}
use nutshell.Core.Errors.{
  Error, transaction_error, not_allowed, no_secret_in_proofs, secret_too_long, witness_too_long,
  duplicate_inputs, duplicate_outputs, invalid_proofs, outputs_already_signed, outputs_are_pending,
  multiple_units, unit_mismatch, transaction_unit_error, assertion_error, value_error,
}
use nutshell.Core.Currency.{CurrencyUnit, unit_eq}
use nutshell.Core.Proofs.{Proof, BlindedMessage, sum_proofs, sum_outputs, sum_by}
use nutshell.Core.Result.{
  Result, ok, err, ◌>>=◌, ◌>>◌, require, raise_if, or_raise, get, item, map_result,
}
use nutshell.Mint.State.{Db, Promise, MintKeyset, Keysets, private_key}
use nutshell.Mint.Crud.{get_outputs}
use nutshell.Mint.Conditions.{Script, verify_input_spending_conditions}
use nutshell.Mint.Conditions.SigAll.{verify_input_output_spending_conditions}

pub record Settings : Type 0 where
  pub max_order : ℕ
  pub mint_max_secret_length : ℕ
  pub mint_max_witness_length : ℕ
  pub mint_disable_melt_on_error : Bool

-- The elliptic curve: points and keys are hex texts, and `none` is an exception.
pub record Curve : Type 0 where
  -- `PublicKey(bytes.fromhex(text))`, as the hex text that `format().hex()` gives
  pub parse_point : String → Option String
  -- `b_dhke.verify(private_key, C, secret)`
  pub verify : String → String → String → Bool
  -- `b_dhke.step2_bob(B_, private_key)`: C_ and the two texts of the DLEQ proof
  pub step2_bob : String → String → String × (String × String)

-- What the ledger holds in memory and does not change here.
pub record Env : Type 0 where
  pub settings : Settings
  pub keysets : Keysets
  pub curve : Curve
  pub script : Script

-- `all([f(x) for x in xs])`, where `f` may raise.
abbrev pub all_checked {ℓ} : {A : Type ℓ} → (A → Result Bool) → List A → Error → Result (Unit {0})
all_checked f xs e = map_result f xs >>= λ bs. require (all_of (λ b. b) bs) e

-- `len(set(units)) == 1`: there is a unit, and every other is the same.
abbrev pub one_unit : List CurrencyUnit → Option CurrencyUnit
one_unit [] = none
one_unit (u ∷ us) = if all_of (unit_eq u) us then some u else none

abbrev named : List BlindedMessage → List BlindedMessage
named = select (λ o. not (o.id == ""))

abbrev pub sum_ppk : List ℕ → ℕ
sum_ppk [] = 0
sum_ppk (x ∷ xs) = x + sum_ppk xs

abbrev is_signed : Promise → Bool
is_signed p = elim p.c_ [ none ↦ false | some c ↦ not (c == "") ]

abbrev not_stored : List Promise → Result (Unit {0})
not_stored [] = ok tt
not_stored (p ∷ stored) =
    if any_of is_signed (p ∷ stored) then err outputs_already_signed else err outputs_are_pending

abbrev first_output : List BlindedMessage → Result BlindedMessage
first_output [] = err (transaction_error "no outputs provided.")
first_output (o ∷ outputs) = ok o

module _ (env : Env) where
  open env use {settings, keysets, curve, script}

  unfoldable pub verify_amount : ℤ → Result ℤ
  verify_amount amount =
      if ltb_ℤ (pos 0) amount && ltb_ℤ amount (pos (2 ^ settings.max_order))
      then ok amount
      else err (not_allowed "invalid amount")

  -- The truth of the amount that `verify_amount` returns.
  abbrev pub amount_ok : ℤ → Result Bool
  amount_ok amount = verify_amount amount >>= λ a. ok (not (eqb_ℤ a (pos 0)))

  unfoldable pub verify_secret_criteria : Proof → Result Bool
  verify_secret_criteria proof =
      if proof.secret == ""
      then err no_secret_in_proofs
      else if ltb settings.mint_max_secret_length (count proof.secret)
      then err secret_too_long
      else ok true

  abbrev too_long : Option String → Bool
  too_long none = false
  too_long (some w) = ltb settings.mint_max_witness_length (count w)

  unfoldable pub verify_input_witness_criteria : Proof → Result Bool
  verify_input_witness_criteria proof =
      if too_long proof.witness then err witness_too_long else ok true

  unfoldable pub verify_proof_bdhke : Proof → Result Bool
  verify_proof_bdhke proof = do
    keyset ← or_raise (get proof.id keysets) assertion_error
    key ← private_key proof.amount keyset.private_keys
    C ← or_raise (curve.parse_point proof.C) value_error
    ok (curve.verify key C proof.secret)

  unfoldable pub verify_no_duplicate_proofs : List Proof → Bool
  verify_no_duplicate_proofs proofs =
      let secrets = map (λ (p : Proof). p.secret) proofs in length secrets =? length (dedup secrets)

  unfoldable pub verify_no_duplicate_outputs : List BlindedMessage → Bool
  verify_no_duplicate_outputs outputs =
      let B_s = map (λ (o : BlindedMessage). o.B_) outputs in length B_s =? length (dedup B_s)

  unfoldable pub verify_input_output_amounts : List Proof → List BlindedMessage → Bool
  verify_input_output_amounts inputs outputs = leb_ℤ (sum_outputs outputs) (sum_proofs inputs)

  abbrev pub unit_of : String → Result CurrencyUnit
  unit_of id = item id keysets >>= λ keyset. ok keyset.unit

  unfoldable pub verify_units_match : List Proof → List BlindedMessage → Result CurrencyUnit
  verify_units_match proofs outs = do
    units_proofs ← map_result (λ (p : Proof). unit_of p.id) proofs
    units_outputs ← map_result (λ (o : BlindedMessage). unit_of o.id) (named outs)
    u ← or_raise (one_unit units_proofs) (multiple_units "inputs have different units.")
    v ← or_raise (one_unit units_outputs) (multiple_units "outputs have different units.")
    require (unit_eq u v) unit_mismatch
    ok u

  abbrev pub fee_of : String → Result ℕ
  fee_of id = item id keysets >>= λ keyset. ok keyset.input_fee_ppk

  unfoldable pub get_fees_for_proofs : List Proof → Result ℕ
  get_fees_for_proofs proofs = do
    units ← map_result (λ (p : Proof). unit_of p.id) proofs
    or_raise (one_unit units) (transaction_unit_error "inputs have different units.") >>= λ _.
        map_result (λ (p : Proof). fee_of p.id) proofs >>= λ fees. ok ((sum_ppk fees + 999) / 1000)

  abbrev checked_sum : List ℤ → Result ℤ
  checked_sum [] = ok (pos 0)
  checked_sum (a ∷ amounts) =
      verify_amount a >>= λ v. checked_sum amounts >>= λ rest. ok (v +ℤ rest)

  unfoldable pub verify_equation_balanced : List Proof → List BlindedMessage → Result (Unit {0})
  verify_equation_balanced proofs outs = do
    raise_if (is_empty proofs) (transaction_error "no proofs provided.")
    raise_if (is_empty outs) (transaction_error "no outputs provided.")
    unit ← verify_units_match proofs outs
    sum_inputs ← checked_sum (map (λ (p : Proof). p.amount) proofs)
    fees ← get_fees_for_proofs proofs
    sum_outs ← checked_sum (map (λ (o : BlindedMessage). o.amount) outs)
    require (eqb_ℤ (sum_outs +ℤ pos fees -ℤ sum_inputs) (pos 0))
        (transaction_error "inputs - fees vs outputs are not balanced.")

  unfoldable pub check_outputs_pending_or_issued_before : List BlindedMessage → Db → List Promise
  check_outputs_pending_or_issued_before outputs db =
      get_outputs (map (λ (o : BlindedMessage). o.B_) outputs) db

  abbrev check_amounts : Bool → List BlindedMessage → Result (Unit {0})
  check_amounts true outputs = ok tt
  check_amounts false outputs =
      all_checked (λ (o : BlindedMessage). amount_ok o.amount) outputs
        (transaction_error "invalid amount.")

  unfoldable pub verify_outputs : List BlindedMessage → Bool → Db → Result (Unit {0})
  verify_outputs outputs skip_amount_check db = do
    first ← first_output outputs
    require (all_of (λ (o : BlindedMessage). o.id == first.id) outputs)
        (transaction_error "outputs have different keyset ids.")
    keyset ← or_raise (get first.id keysets) (transaction_error "keyset id unknown.")
    require keyset.active (transaction_error "keyset id inactive.")
    check_amounts skip_amount_check outputs
    require (verify_no_duplicate_outputs outputs) duplicate_outputs
    not_stored (check_outputs_pending_or_issued_before outputs db)

  unfoldable pub verify_inputs : List Proof → Result (Unit {0})
  verify_inputs proofs = do
    raise_if (is_empty proofs) (transaction_error "no proofs provided.")
    all_checked (λ (p : Proof). amount_ok p.amount) proofs (transaction_error "invalid amount.")
    all_checked verify_secret_criteria proofs (transaction_error "secrets do not match criteria.")
    all_checked verify_input_witness_criteria proofs
        (transaction_error "input witness data does not match criteria.")
    require (verify_no_duplicate_proofs proofs) duplicate_inputs
    all_checked verify_proof_bdhke proofs invalid_proofs
    all_checked (verify_input_spending_conditions script) proofs
        (transaction_error "validation of input spending conditions failed.")

  abbrev same_units : List Proof → BlindedMessage → Result (Unit {0})
  same_units proofs first = do
    raise_if (first.id == "") assertion_error
    all_checked (λ (p : Proof). unit_of p.id >>= λ u. unit_of first.id >>= λ v. ok (unit_eq u v))
        proofs (transaction_error "input and output keysets have different units.")

  -- The part that a melt, which gives no outputs, leaves out.
  unfoldable pub verify_swap_outputs : List Proof → List BlindedMessage → Db → Result (Unit {0})
  verify_swap_outputs proofs outputs db = do
    verify_equation_balanced proofs outputs
    verify_outputs outputs false db
    require (verify_input_output_amounts proofs outputs)
        (transaction_error "input amounts less than output.")
    first ← first_output outputs
    same_units proofs first
    verify_input_output_spending_conditions script proofs outputs >>= λ _. ok tt

  abbrev when_given : List Proof → Option (List BlindedMessage) → Db → Result (Unit {0})
  when_given proofs none db = ok tt
  when_given proofs (some outputs) db = verify_swap_outputs proofs outputs db

  unfoldable pub verify_inputs_and_outputs :
      List Proof → Option (List BlindedMessage) → Db → Result (Unit {0})
  verify_inputs_and_outputs proofs outputs db = do
    verify_inputs proofs
    when_given proofs outputs db
