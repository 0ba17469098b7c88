-- ===== src/Base/Lists.antt =====
-- Lists measured by native numbers, Python's `all`, `any`, `in` and `set`, and their laws.
use Prim.Native.Nat.{ℕ, suc, ◌≤◌}
use Prim.Native.String.{String}
use mathlib.Core.Path.{◌≡◌, refl}
use mathlib.Core.Bool.{Bool, true, false, ◌&&◌, ◌||◌}
use mathlib.Core.List.{List, [], ◌∷◌}
use mathlib.Core.Option.{Option, none, some}
use native.Mathlib.Omega.{arith}
use text.Mathlib.Text.{◌==◌}
use nutshell.Base.Tests.{if◌then◌else◌}

module _ {ℓ} {A : Type ℓ} where
  abbrev pub length : List A → ℕ
  length [] = 0
  length (x ∷ xs) = suc (length xs)

  abbrev pub is_empty : List A → Bool
  is_empty [] = true
  is_empty (x ∷ xs) = false

  abbrev pub all_of : (A → Bool) → List A → Bool
  all_of p [] = true
  all_of p (x ∷ xs) = p x && all_of p xs

  abbrev pub any_of : (A → Bool) → List A → Bool
  any_of p [] = false
  any_of p (x ∷ xs) = p x || any_of p xs

  -- The elements that pass the test, in order.
  abbrev pub select : (A → Bool) → List A → List A
  select p [] = []
  select p (x ∷ xs) = if p x then x ∷ select p xs else select p xs

  abbrev pub find : (A → Bool) → List A → Option A
  find p [] = none
  find p (x ∷ xs) = if p x then some x else find p xs

  abbrev pub All {κ} : (A → Type κ) → List A → Type κ
  All P [] = Unit
  All P (x ∷ xs) = P x × All P xs

-- `x in xs`, on texts.
abbrev pub contains : String → List String → Bool
contains x [] = false
contains x (y ∷ ys) = x == y || contains x ys

-- `list(set(xs))`: every text once.
abbrev pub dedup : List String → List String
dedup [] = []
dedup (x ∷ xs) = if contains x xs then dedup xs else x ∷ dedup xs

-- No text stands twice.
abbrev pub Distinct : List String → Type 0
Distinct [] = Unit
Distinct (x ∷ xs) = (contains x xs ≡ false) × Distinct xs

length-dedup-le : (xs : List String) → length (dedup xs) ≤ length xs
length-dedup-le [] = omega arith
length-dedup-le (x ∷ xs) = ground (arith, length-dedup-le xs)

-- `len(xs) == len(set(xs))` finds exactly the lists with no repetition.
pub Distinct-of_length : (xs : List String) → length xs ≡ length (dedup xs) → Distinct xs
Distinct-of_length [] h = tt
Distinct-of_length (x ∷ xs) h = ground (arith, length-dedup-le xs, Distinct-of_length xs)

pub length-dedup : (xs : List String) → Distinct xs → length xs ≡ length (dedup xs)
length-dedup [] h = refl
length-dedup (x ∷ xs) h = ground (arith, length-dedup xs h.1)
