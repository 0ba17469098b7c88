-- ===== src/Wallet/Sorted.antt =====
-- Laws of the sorts and filters of `coinselect`: what they keep of a list of proofs.
use nutshell.Base.{
  suc, ◌≤◌, ℤ, ◌+ℤ◌, ◌-ℤ◌, leb_ℤ, Bool, true, none, some, List, [], ◌∷◌, ◌≡◌, refl, ap, ◌∙◌, arith,
  int_laws, length, find, select, All,
}
use nutshell.Core.Currency.{thousandfold}
use nutshell.Core.Proofs.{Proof, sum_proofs}
use nutshell.Wallet.Coins.{
  insert_rising, sort_rising, insert_falling, sort_falling, is_bigger, next_bigger, smaller_proofs,
}

pub thousandfold_add : (a b : ℤ) → thousandfold (a +ℤ b) ≡ thousandfold a +ℤ thousandfold b
unfolding ◌+ℤ◌ ◌-ℤ◌
thousandfold_add a b = ground arith

length-insert_rising : (p : Proof) (qs : List Proof) → length (insert_rising p qs) ≡ suc (length qs)
length-insert_rising p [] = refl
length-insert_rising p (q ∷ qs) = ground (arith, length-insert_rising p qs)

length-sort_rising : (ps : List Proof) → length (sort_rising ps) ≡ length ps
length-sort_rising [] = refl
length-sort_rising (p ∷ ps) =
    length-insert_rising p (sort_rising ps) ∙ ap suc (length-sort_rising ps)

length-insert_falling :
    (p : Proof) (qs : List Proof) → length (insert_falling p qs) ≡ suc (length qs)
length-insert_falling p [] = refl
length-insert_falling p (q ∷ qs) = ground (arith, length-insert_falling p qs)

length-sort_falling : (ps : List Proof) → length (sort_falling ps) ≡ length ps
length-sort_falling [] = refl
length-sort_falling (p ∷ ps) =
    length-insert_falling p (sort_falling ps) ∙ ap suc (length-sort_falling ps)

length-select-le : (f : Proof → Bool) (ps : List Proof) → length (select f ps) ≤ length ps
length-select-le f [] = omega arith
length-select-le f (p ∷ ps) = ground (arith, length-select-le f ps)

pub length-smaller_proofs-le :
    (amount : ℤ) (ps : List Proof) → length (smaller_proofs amount ps) ≤ length ps
length-smaller_proofs-le amount ps = ground (
  arith,
  length-sort_falling (select (λ p. leb_ℤ (thousandfold p.amount) amount) (sort_rising ps)),
  length-select-le (λ p. leb_ℤ (thousandfold p.amount) amount) (sort_rising ps),
  length-sort_rising ps,
)

-- Sums.
sum-insert_rising :
    (p : Proof) (qs : List Proof) → sum_proofs (insert_rising p qs) ≡ p.amount +ℤ sum_proofs qs
sum-insert_rising p [] = refl
sum-insert_rising p (q ∷ qs) = grind (int_laws, sum-insert_rising p qs)

sum-sort_rising : (ps : List Proof) → sum_proofs (sort_rising ps) ≡ sum_proofs ps
sum-sort_rising [] = refl
sum-sort_rising (p ∷ ps) =
    sum-insert_rising p (sort_rising ps) ∙ ap (λ a. p.amount +ℤ a) (sum-sort_rising ps)

sum-insert_falling :
    (p : Proof) (qs : List Proof) → sum_proofs (insert_falling p qs) ≡ p.amount +ℤ sum_proofs qs
sum-insert_falling p [] = refl
sum-insert_falling p (q ∷ qs) = grind (int_laws, sum-insert_falling p qs)

sum-sort_falling : (ps : List Proof) → sum_proofs (sort_falling ps) ≡ sum_proofs ps
sum-sort_falling [] = refl
sum-sort_falling (p ∷ ps) =
    sum-insert_falling p (sort_falling ps) ∙ ap (λ a. p.amount +ℤ a) (sum-sort_falling ps)

-- Without a bigger proof, all are smaller.
none_bigger :
    (amount : ℤ) (ps : List Proof)
    → find (is_bigger amount) ps ≡ none
    → select (λ p. leb_ℤ (thousandfold p.amount) amount) ps ≡ ps
none_bigger amount [] h = refl
none_bigger amount (p ∷ ps) h = ground (arith, none_bigger amount ps)

pub sum-smaller_proofs :
    (amount : ℤ) (ps : List Proof)
    → next_bigger amount ps ≡ none
    → sum_proofs (smaller_proofs amount ps) ≡ sum_proofs ps
sum-smaller_proofs amount ps h =
    sum-sort_falling (select (λ p. leb_ℤ (thousandfold p.amount) amount) (sort_rising ps))
    ∙ ap sum_proofs (none_bigger amount (sort_rising ps) h)
    ∙ sum-sort_rising ps

bigger-is_bigger :
    (amount : ℤ) (ps : List Proof) (b : Proof)
    → find (is_bigger amount) ps ≡ some b
    → is_bigger amount b ≡ true
bigger-is_bigger amount [] b h = cc
bigger-is_bigger amount (p ∷ ps) b h = ground (arith, bigger-is_bigger amount ps b)

pub next_bigger-is_bigger :
    (amount : ℤ) (ps : List Proof) (b : Proof)
    → next_bigger amount ps ≡ some b
    → is_bigger amount b ≡ true
next_bigger-is_bigger amount ps b h = bigger-is_bigger amount (sort_rising ps) b h

-- What holds of every proof holds of those that are picked.
module _ (P : Proof → Type 0) where
  All-insert_rising : (p : Proof) (qs : List Proof) → P p → All P qs → All P (insert_rising p qs)
  All-insert_rising p [] hp h = (hp, tt)
  All-insert_rising p (q ∷ qs) hp h = ground (arith, All-insert_rising p qs hp h.1)

  All-sort_rising : (ps : List Proof) → All P ps → All P (sort_rising ps)
  All-sort_rising [] h = tt
  All-sort_rising (p ∷ ps) h = All-insert_rising p (sort_rising ps) h.0 (All-sort_rising ps h.1)

  All-insert_falling : (p : Proof) (qs : List Proof) → P p → All P qs → All P (insert_falling p qs)
  All-insert_falling p [] hp h = (hp, tt)
  All-insert_falling p (q ∷ qs) hp h = ground (arith, All-insert_falling p qs hp h.1)

  All-sort_falling : (ps : List Proof) → All P ps → All P (sort_falling ps)
  All-sort_falling [] h = tt
  All-sort_falling (p ∷ ps) h = All-insert_falling p (sort_falling ps) h.0 (All-sort_falling ps h.1)

  All-select : (f : Proof → Bool) (ps : List Proof) → All P ps → All P (select f ps)
  All-select f [] h = tt
  All-select f (p ∷ ps) h = ground (arith, All-select f ps h.1)

  pub All-smaller_proofs :
      (amount : ℤ) (ps : List Proof) → All P ps → All P (smaller_proofs amount ps)
  All-smaller_proofs amount ps h = All-sort_falling _ (
      All-select (λ p. leb_ℤ (thousandfold p.amount) amount) (sort_rising ps)
        (All-sort_rising ps h))
