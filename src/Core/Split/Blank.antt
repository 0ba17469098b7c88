-- ===== src/Core/Split/Blank.antt =====
-- The blank outputs of NUT-08: there are enough of them for the pieces of any overpaid fee.
use nutshell.Base.{
  ℕ, zero, suc, ◌+◌, ◌-◌, ◌/◌, ◌%◌, ◌≤◌, ◌<◌, ◌≡◌, refl, ap, ◌⊎◌, arith, length, pos, ◌=?◌,
  if◌then◌else◌,
}
use nutshell.Core.Split.{
  bits, bit_length, shift_right, split_loop, amount_split, number_of_blank_outputs,
}

-- Any fuel of at least the number gives the same length.
bits-fuel : (f g n : ℕ) → n ≤ f → n ≤ g → bits f n ≡ bits g n
unfolding bits
bits-fuel zero zero n h k = refl
bits-fuel zero (suc g) n h k = ground arith
bits-fuel (suc f) zero n h k = ground arith
bits-fuel (suc f) (suc g) n h k = ground (arith, bits-fuel f g (n / 2))

bit_length-half : (n : ℕ) → 0 < n → bit_length n ≡ suc (bit_length (n / 2))
unfolding bit_length bits
bit_length-half zero h = absurd (omega arith)
bit_length-half (suc n) h = ground (arith, bits-fuel n (suc n / 2) (suc n / 2))

bit_length-zero : bit_length 0 ≡ 0
unfolding bit_length
bit_length-zero = refl

-- `f` bounds the induction.
bit_length_mono : (f a b : ℕ) → b ≤ f → a ≤ b → bit_length a ≤ bit_length b
bit_length_mono f zero b h k = rw bit_length-zero (omega arith)
bit_length_mono zero (suc a) b h k = absurd (omega arith)
bit_length_mono (suc f) (suc a) b h k =
    rw (bit_length-half (suc a) (omega arith), bit_length-half b (omega arith))
      (omega (arith, bit_length_mono f (suc a / 2) (b / 2) (omega arith) (omega arith)))

length-split_loop-le : (n i k : ℕ) → length (split_loop n i k) ≤ k
unfolding split_loop
length-split_loop-le n i zero = omega arith
length-split_loop-le n i (suc k) = ground (arith, length-split_loop-le n (suc i) k)

shift_right-suc : (n i : ℕ) → shift_right n (suc i) ≡ shift_right (n / 2) i
shift_right-suc n zero = refl
shift_right-suc n (suc i) = ap (λ (t : ℕ). t / 2) (shift_right-suc n i)

length-split_loop-suc :
    (n i k : ℕ) → length (split_loop n (suc i) k) ≡ length (split_loop (n / 2) i k)
unfolding split_loop
length-split_loop-suc n i zero = refl
length-split_loop-suc n i (suc k) =
    ground (arith, length-split_loop-suc n (suc i) k, shift_right-suc n i)

-- The number of digits 1, from the lowest digit up.
length-split_loop-half :
    (n k : ℕ) → length (split_loop n 0 (suc k)) ≡ n % 2 + length (split_loop (n / 2) 0 k)
unfolding split_loop
length-split_loop-half n k = ground (arith, length-split_loop-suc n 0 k)

-- `f` bounds the induction.
ones-le-pred :
    (f n : ℕ) → n ≤ f → 2 ≤ n → length (split_loop n 0 (bit_length n)) ≤ bit_length (n - 1)
ones-le-pred zero n h two = absurd (omega arith)
ones-le-pred (suc f) n h two =
    let halved : ((n - 1) / 2 ≡ n / 2) ⊎ ((n - 1) / 2 ≡ n / 2 - 1) = omega arith in
    rw (bit_length-half n (omega arith), bit_length-half (n - 1) (omega arith))
      (ground (
        arith,
        halved,
        length-split_loop-half n (bit_length (n / 2)),
        length-split_loop-le (n / 2) 0 (bit_length (n / 2)),
        ones-le-pred f (n / 2),
        bit_length-half (n / 2),
        bit_length-zero,
      ))

pieces-le :
    (n r : ℕ)
    → n ≤ r
    → length (split_loop (suc n) 0 (bit_length (suc n))) ≤ (if r =? 0 then 1 else bit_length r)
pieces-le n r h = ground (
  arith,
  length-split_loop-le (suc n) 0 (bit_length (suc n)),
  ones-le-pred (suc n) (suc n),
  bit_length_mono r (suc n) r,
  bit_length-half 1,
  bit_length-zero,
)

-- For every overpaid fee up to the reserve, `amount_split` gives at most as many pieces as
-- `calculate_number_of_blank_outputs` asks the wallet to send for that reserve.
pub blank_outputs_suffice :
    (overpaid reserve : ℕ)
    → overpaid ≤ reserve
    → length (amount_split (pos overpaid)) ≤ number_of_blank_outputs reserve
unfolding amount_split number_of_blank_outputs
blank_outputs_suffice zero reserve h = omega arith
blank_outputs_suffice (suc n) zero h = absurd (omega arith)
blank_outputs_suffice (suc n) (suc r) h = pieces-le n r (omega arith)
