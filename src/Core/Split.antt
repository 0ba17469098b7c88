-- ===== src/Core/Split.antt =====
-- cashu/core/split.py, and the number of blank outputs of cashu/core/helpers.py.
-- `int.bit_length` and `amount & (1 << i)` are Python's; both are read off the binary digits.
pub mod Sum
pub mod Blank
use nutshell.Base.{
  ℕ, zero, suc, ◌+◌, ◌-◌, ◌/◌, ◌%◌, ◌^◌, ℤ, pos, negsuc, List, [], ◌∷◌, ltb, ◌=?◌, if◌then◌else◌,
}

-- The digits that are left after `fuel` halvings are not counted; `n` halvings are enough.
bits : ℕ → ℕ → ℕ
bits zero n = 0
bits (suc fuel) n = let rest = bits fuel (n / 2) in if n =? 0 then 0 else suc rest

-- `n.bit_length()`
unfoldable pub bit_length : ℕ → ℕ
unfolding bits
bit_length n = bits n n

-- `n >> i`
abbrev pub shift_right : ℕ → ℕ → ℕ
shift_right n zero = n
shift_right n (suc i) = shift_right n i / 2

-- The loop over `range(bit_length)`, with the rounds that are left.
unfoldable pub split_loop : ℕ → ℕ → ℕ → List ℕ
split_loop amount i zero = []
split_loop amount i (suc k) =
    let rest = split_loop amount (suc i) k in
    if shift_right amount i % 2 =? 1 then 2 ^ i ∷ rest else rest

unfoldable pub amount_split : ℤ → List ℕ
unfolding split_loop bit_length
amount_split (negsuc n) = []
amount_split (pos zero) = []
amount_split (pos (suc n)) = split_loop (suc n) 0 (bit_length (suc n))

-- `calculate_number_of_blank_outputs` for a fee reserve that is not negative: the ceiling of the
-- base-2 logarithm of n is the bit length of n - 1, and `max(…, 1)` acts at 1 alone. The logarithm is
-- exact here; the float of the source is rounded, which shows from 2 ^ 49 + 1 on.
unfoldable pub number_of_blank_outputs : ℕ → ℕ
unfolding bit_length
number_of_blank_outputs zero = 0
number_of_blank_outputs (suc n) = if n =? 0 then 1 else bit_length n
