-- ===== src/Core/Split/Sum.antt =====
-- What `amount_split` returns: powers of two, each once and in rising order, that add up to the amount.
use native.Mathlib.Nat.{pow-suc}
use nutshell.Base.{
  ℤ, pos_part, negsuc, ℕ, zero, suc, ◌+◌, ◌*◌, ◌/◌, ◌%◌, ◌^◌, ◌≤◌, ◌≡◌, refl, ap, List, [], ◌∷◌,
  arith, pos, ◌=?◌, Bool-cases, inl, inr,
}
use nutshell.Core.Split.{bits, bit_length, shift_right, split_loop, amount_split}

abbrev pub sum : List ℕ → ℕ
sum [] = 0
sum (x ∷ xs) = x + sum xs

digit_at : (m p : ℕ) → m * p ≡ m % 2 * p + m / 2 * (p * 2)
digit_at m p =
    let whole : m ≡ m % 2 + m / 2 * 2 = omega arith in omega (arith, ap (λ (t : ℕ). t * p) whole)

-- The pieces of the rounds from `i` on, with what is left above them, make up the shifted amount.
sum-split_loop :
    (n i k : ℕ)
    → sum (split_loop n i k) + shift_right n (k + i) * 2 ^ (k + i) ≡ shift_right n i * 2 ^ i
unfolding split_loop
sum-split_loop n i zero = let e : zero + i ≡ i = omega arith in rw e (omega arith)
sum-split_loop n i (suc k) =
    let e : suc k + i ≡ k + suc i = omega arith in
    rw e
      (ground (arith, sum-split_loop n (suc i) k, digit_at (shift_right n i) (2 ^ i), pow-suc 2 i))

shift_right-shift : (n k : ℕ) → shift_right n (suc k) ≡ shift_right (n / 2) k
shift_right-shift n zero = refl
shift_right-shift n (suc k) = ap (λ (t : ℕ). t / 2) (shift_right-shift n k)

shift_right-bits : (fuel n : ℕ) → n ≤ fuel → shift_right n (bits fuel n) ≡ 0
unfolding bits
shift_right-bits zero n h = omega arith
shift_right-bits (suc fuel) n h =
    ground (arith, shift_right-shift n (bits fuel (n / 2)), shift_right-bits fuel (n / 2))

sum-split_loop_all : (n k : ℕ) → shift_right n k ≡ 0 → sum (split_loop n 0 k) ≡ n
sum-split_loop_all n k done =
    let e : k + 0 ≡ k = omega arith in
    let whole = sum-split_loop n 0 k in omega (arith, rw (e, done) at whole)

-- Powers of two with rising exponents, from the exponent `i` on.
abbrev pub RisingPowers : ℕ → List ℕ → Type 0
RisingPowers i [] = Unit
RisingPowers i (x ∷ xs) = (j : ℕ) × (i ≤ j) × (x ≡ 2 ^ j) × RisingPowers (suc j) xs

RisingPowers-weaken : (i : ℕ) (xs : List ℕ) → RisingPowers (suc i) xs → RisingPowers i xs
RisingPowers-weaken i [] h = tt
RisingPowers-weaken i (x ∷ xs) (j, le, e, rest) = (j, omega arith, e, rest)

split_loop-RisingPowers : (n i k : ℕ) → RisingPowers i (split_loop n i k)
unfolding split_loop
split_loop-RisingPowers n i zero = tt
split_loop-RisingPowers n i (suc k) =
    let rest = split_loop-RisingPowers n (suc i) k in
    elim (Bool-cases (shift_right n i % 2 =? 1)) [
      | inl set ↦ rw set (i, omega arith, refl, rest)
      | inr clear ↦ rw clear (RisingPowers-weaken i _ rest)
    ]

-- The pieces of an amount that is not negative add up to it, and they are powers of two, each at
-- most once and in rising order.
pub amount_split-binary :
    (n : ℕ) → (sum (amount_split (pos n)) ≡ n) × RisingPowers 0 (amount_split (pos n))
unfolding amount_split bit_length
amount_split-binary zero = (refl, tt)
amount_split-binary (suc n) = (
  sum-split_loop_all (suc n) (bits (suc n) (suc n))
      (shift_right-bits (suc n) (suc n) (omega arith)),
  split_loop-RisingPowers (suc n) 0 (bits (suc n) (suc n)),
)

-- The same for an amount of any sign.
pub sum-amount_split : (a : ℤ) → sum (amount_split a) ≡ pos_part a
unfolding amount_split
sum-amount_split (pos n) = (amount_split-binary n).0
sum-amount_split (negsuc n) = refl
