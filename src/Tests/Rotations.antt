-- ===== src/Tests/Rotations.antt =====
-- Keysets of small mints that are rotated.
use Prim.Native.String.{◌++◌ as ◌+++◌}
use nutshell.Base.{
  ◌+ℤ◌, pos, negsuc, String, true, none, some, List, [], ◌∷◌, ◌==◌, eqb_ℤ, ◌≡◌, refl, if◌then◌else◌,
}
use nutshell.Core.Currency.{CurrencyUnit}
use nutshell.Core.Errors.{exception}
use nutshell.Core.Result.{ok, err}
use nutshell.Mint.Keysets.{
  Keyset, Derivation, LedgerKeysets, store_keyset, make_keyset, select_keyset, prepare,
  rotate_next_keyset,
}
use nutshell.Mint.Keysets.Rotated.{IsRotated, rotate_next_keyset-IsRotated}

-- Paths "0", "1", "2" and "3" of sat.
abbrev derivation : Derivation
derivation = record {
  counter = λ path.
      if path == "0"
      then some (pos 0)
      else if path == "1"
      then some (pos 1)
      else if path == "2"
      then some (pos 2)
      else none;
  unit_number = λ path. some (pos 0);
  with_counter = λ path n. if eqb_ℤ n (pos 1) then "1" else if eqb_ℤ n (pos 2) then "2" else "3";
  derive_id = λ seed path amounts expiry. ◌+++◌ seed path;
}

abbrev keyset : String → String → Keyset
keyset id path = record {
  id = id;
  derivation_path = path;
  unit = CurrencyUnit.sat;
  active = true;
  amounts = pos 1 ∷ pos 2 ∷ [];
  input_fee_ppk = pos 0;
  final_expiry = none;
}

abbrev one : LedgerKeysets
one = record {
  seed = "s";
  amounts = pos 1 ∷ pos 2 ∷ [];
  keysets = ("s0", keyset "s0" "0") ∷ [];
  rows = keyset "s0" "0" ∷ [];
}

abbrev new : Keyset
new = record (keyset "s1" "1") { amounts = pos 1 ∷ pos 2 ∷ pos 4 ∷ []; input_fee_ppk = pos 100 }

abbrev rotated_one : LedgerKeysets
rotated_one = (rotate_next_keyset derivation CurrencyUnit.sat (some 3) (some (pos 100)) none one).1

rotation_runs :
    rotate_next_keyset derivation CurrencyUnit.sat (some 3) (some (pos 100)) none one
    ≡ (ok new, rotated_one)
unfolding ◌+ℤ◌ rotate_next_keyset prepare select_keyset make_keyset store_keyset
rotation_runs = refl

rotate_next_keyset-IsRotated_example :
    (old : Keyset) × (rows : List Keyset) × IsRotated derivation CurrencyUnit.sat
      (some 3)
      none
      old
      new
      rows
      one
      rotated_one
rotate_next_keyset-IsRotated_example =
    rotate_next_keyset-IsRotated derivation CurrencyUnit.sat (some 3) (some (pos 100)) none one
      rotated_one new rotation_runs

negative_fee_is_refused :
    rotate_next_keyset derivation CurrencyUnit.sat none (some (negsuc 0)) none one
    ≡ (err (exception "Input fee must be non-negative."), one)
unfolding ◌+ℤ◌ rotate_next_keyset prepare select_keyset make_keyset store_keyset
negative_fee_is_refused = refl

-- The second keyset has the lower counter, and is selected all the same.
abbrev falling : LedgerKeysets
falling = record one {
  keysets = ("s2", keyset "s2" "2") ∷ ("s0", keyset "s0" "0") ∷ [];
  rows = keyset "s0" "0" ∷ keyset "s2" "2" ∷ [];
}

last_is_selected :
    (rotate_next_keyset derivation CurrencyUnit.sat none none none falling).0 ≡ ok (keyset "s1" "1")
unfolding ◌+ℤ◌ rotate_next_keyset prepare select_keyset make_keyset store_keyset
last_is_selected = refl
