-- ===== src/Mint/Keysets.antt =====
-- `rotate_next_keyset` of cashu/mint/keysets.py, with the keysets it makes (cashu/core/base.py) and
-- their rows (cashu/mint/crud.py).
pub mod Rotated
use nutshell.Base.{
  ℕ, ◌+◌, zero, suc, ℤ, pos, negsuc, ◌+ℤ◌, ltb_ℤ, eqb_ℤ, String, Bool, true, false, ◌&&◌, Option,
  none, some, List, [], ◌∷◌, map, ◌==◌, contains, if◌then◌else◌,
}
use nutshell.Core.Currency.{CurrencyUnit, unit_eq}
use nutshell.Core.Errors.{exception, value_error, integrity_error, assertion_error}
use nutshell.Core.Result.{Result, ok, err, require, raise_if, or_raise, Dict, ◌>>=◌, ◌>>◌}

-- `MintKeyset`, with what a rotation reads.
pub record Keyset : Type 0 where
  pub id : String
  pub derivation_path : String
  pub unit : CurrencyUnit
  pub active : Bool
  pub amounts : List ℤ
  pub input_fee_ppk : ℤ
  pub final_expiry : Option ℕ

-- The parts of a path, by `split`, `replace` and `int`; `none` is an exception. The id of a keyset is
-- derived from its keys, which the seed, the path and the amounts give.
pub record Derivation : Type 0 where
  pub counter : String → Option ℤ
  pub unit_number : String → Option ℤ
  pub with_counter : String → ℤ → String
  pub derive_id : String → String → List ℤ → Option ℕ → String

-- The ledger's dict of keysets and the table, newest row first.
pub record LedgerKeysets : Type 0 where
  pub seed : String
  pub amounts : List ℤ
  pub keysets : Dict Keyset
  pub rows : List Keyset

-- `d[k] = v`
unfoldable pub set : {V : Type 0} → String → V → Dict V → Dict V
set k v [] = (k, v) ∷ []
set k v ((j, w) ∷ d) = let rest = set k v d in if j == k then (k, v) ∷ d else (j, w) ∷ rest

-- `[2**i for i in range(n)]`, from a power on
abbrev pub powers : ℕ → ℕ → List ℤ
powers p zero = []
powers p (suc n) = pos p ∷ powers (p + p) n

abbrev pub amounts_for : Option ℕ → List ℤ → List ℤ
amounts_for none amounts = amounts
amounts_for (some zero) amounts = amounts
amounts_for (some (suc n)) amounts = powers 1 (suc n)

abbrev pub fee_or_zero : Option ℤ → ℤ
fee_or_zero none = pos 0
fee_or_zero (some fee) = fee

-- The unit with a number; a number that no unit has is an exception, which makes it sat.
abbrev pub infer_unit : Option ℤ → CurrencyUnit
infer_unit none = CurrencyUnit.sat
infer_unit (some n) =
    if eqb_ℤ n (pos 1)
    then CurrencyUnit.msat
    else if eqb_ℤ n (pos 2)
    then CurrencyUnit.usd
    else if eqb_ℤ n (pos 3)
    then CurrencyUnit.eur
    else if eqb_ℤ n (pos 4)
    then CurrencyUnit.btc
    else if eqb_ℤ n (pos 999)
    then CurrencyUnit.auth
    else CurrencyUnit.sat

-- `store_keyset`: the row is active.
unfoldable pub store_keyset : Keyset → List Keyset → Result (List Keyset)
store_keyset k rows =
    if contains k.id (map (λ (r : Keyset). r.id) rows)
    then err integrity_error
    else ok (record k { active = true } ∷ rows)

-- `update_keyset`: the amounts of a row stay.
unfoldable pub update_keyset : Keyset → List Keyset → List Keyset
update_keyset k [] = []
update_keyset k (r ∷ rows) =
    let rest = update_keyset k rows in
    if r.id == k.id then record k { amounts = r.amounts } ∷ rest else r ∷ rest

module _ (derivation : Derivation) where
  open derivation use {counter, unit_number, with_counter, derive_id}

  -- `MintKeyset(...)` of an active keyset without a unit, an id or encrypted seeds; the
  -- amounts are not empty.
  unfoldable pub make_keyset : String → String → List ℤ → Option ℤ → Option ℕ → Result Keyset
  make_keyset path seed amounts fee expiry = do
    raise_if (seed == "supersecretprivatekey") (exception "Seed is set to default value")
    raise_if (seed == "") assertion_error
    raise_if (ltb_ℤ (fee_or_zero fee) (pos 0)) (exception "Input fee must be non-negative.")
    raise_if (path == "") assertion_error
    ok (record {
      id = derive_id seed path amounts expiry;
      derivation_path = path;
      unit = infer_unit (unit_number path);
      active = true;
      amounts = amounts;
      input_fee_ppk = fee_or_zero fee;
      final_expiry = expiry;
    })

  -- One round of the loop: the counter to exceed stays -1.
  abbrev pub select_next : CurrencyUnit → Keyset → Option Keyset → Result (Option Keyset)
  select_next unit k selected =
      if k.active && unit_eq k.unit unit
      then (or_raise (counter k.derivation_path) value_error >>= λ c.
          ok (if ltb_ℤ (negsuc 0) c then some k else selected))
      else ok selected

  unfoldable pub select_keyset : CurrencyUnit → Dict Keyset → Option Keyset → Result (Option Keyset)
  select_keyset unit [] selected = ok selected
  select_keyset unit ((_, k) ∷ keysets) selected =
      select_next unit k selected >>= λ later. select_keyset unit keysets later

  -- Up to the new keyset, and its row.
  unfoldable pub prepare :
      CurrencyUnit
      → Option ℕ
      → Option ℤ
      → Option ℕ
      → LedgerKeysets
      → Result (Keyset × Keyset × List Keyset)
  prepare unit max_order fee expiry s = do
    selected ← select_keyset unit s.keysets none
    old ← or_raise selected (exception "Couldn't find suitable keyset for rotation")
    c ← or_raise (counter old.derivation_path) value_error
    new ←
        make_keyset (with_counter old.derivation_path (c +ℤ pos 1)) s.seed
          (amounts_for max_order s.amounts) fee expiry
    rows ← store_keyset new s.rows
    ok (old, new, rows)

  abbrev pub rotated :
      LedgerKeysets → Result (Keyset × Keyset × List Keyset) → Result Keyset × LedgerKeysets
  rotated s (err e) = (err e, s)
  rotated s (ok (old, new, rows)) = (
    ok new,
    record s {
      keysets = set old.id (record old { active = false }) (set new.id new s.keysets);
      rows = update_keyset (record old { active = false }) rows;
    },
  )

  -- The ledger changes only after the row of the new keyset is stored.
  unfoldable pub rotate_next_keyset :
      CurrencyUnit → Option ℕ → Option ℤ → Option ℕ → LedgerKeysets → Result Keyset × LedgerKeysets
  rotate_next_keyset unit max_order fee expiry s = rotated s (prepare unit max_order fee expiry s)
