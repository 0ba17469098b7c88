-- ===== src/Mint/Conditions/Matching.antt =====
-- What a met threshold proves: so many different pubkeys with a signature each, no signature twice.
use nutshell.Base.{
  ℕ, suc, String, true, false, none, some, List, [], ◌∷◌, ◌≡◌, ap, ◌∙◌, arith, length, contains,
  Distinct, All, eq_iff, Option-cases, ◌⊎◌, inl, inr,
}
use nutshell.Core.Result.{ok, Result-cases}
use nutshell.Mint.Conditions.{Script, take_valid, count_valid}

module _ (env : Script) (message : String) where
  no_sigs : (p : String) {left : List String} → take_valid env message p [] ≡ ok (some left) → ⊥
  unfolding take_valid
  no_sigs p e = cc

  take_valid-cons :
      (p s : String) (sigs left : List String)
      → take_valid env message p (s ∷ sigs) ≡ ok (some left)
      → ((env.verify_schnorr message p s ≡ some true) × (sigs ≡ left))
        ⊎ ((left' : List String) × (take_valid env message p sigs ≡ ok (some left'))
            × (s ∷ left' ≡ left))
  unfolding take_valid
  take_valid-cons p s sigs left e = elim (Result-cases (take_valid env message p sigs)) [
    | inl (d, failed) ↦ inl (ground arith)
    | inr (none, nothing) ↦ inl (ground arith)
    | inr (some left', found) ↦ elim (Option-cases (env.verify_schnorr message p s)) [
      | inl bad ↦ absurd (ground arith)
      | inr (true, valid) ↦ inl (ground arith)
      | inr (false, invalid) ↦ inr (left', found, ground arith)
    ]
  ]

  -- A signature that was taken was there and verifies; those that are left were there and are others.
  abbrev pub Takes : String → List String → List String → Type 0
  Takes p sigs left =
      (s : String) × (env.verify_schnorr message p s ≡ some true)
      × (contains s sigs ≡ true)
      × (contains s left ≡ false)
      × Distinct left
      × ((x : String) → contains x left ≡ true → contains x sigs ≡ true)

  take_valid-Takes :
      (p : String) (sigs left : List String)
      → Distinct sigs
      → take_valid env message p sigs ≡ ok (some left)
      → Takes p sigs left
  take_valid-Takes p [] left d e = absurd (no_sigs p e)
  take_valid-Takes p (s ∷ sigs) left d e = elim (take_valid-cons p s sigs left e) [
    | inl (valid, same) ↦
        (s, valid, ground (arith, eq_iff s s), ground arith, ground arith, λ x h. ground arith)
    | inr (left', found, same) ↦
        let (x, valid, there, gone, d', sub) = take_valid-Takes p sigs left' d.1 found in
        (
          x,
          valid,
          ground arith,
          ground (arith, eq_iff x s),
          ground (arith, sub s),
          λ y h. ground (arith, sub y),
        )
  ]

  abbrev pub keys : List (String × String) → List String
  keys [] = []
  keys ((p, s) ∷ pairs) = p ∷ keys pairs

  abbrev pub marks : List (String × String) → List String
  marks [] = []
  marks ((p, s) ∷ pairs) = s ∷ marks pairs

  -- `n` different pubkeys of the list, each paired with a signature of the list that it verifies, and
  -- no signature used twice.
  pub record Matching (pubkeys sigs : List String) (n : ℕ) : Type 0 where
    pub pairs : List (String × String)
    pub counted : length pairs ≡ n
    pub valid : All (λ (q : String × String). env.verify_schnorr message q.0 q.1 ≡ some true) pairs
    pub keys_distinct : Distinct (keys pairs)
    pub marks_distinct : Distinct (marks pairs)
    pub keys_known : (x : String) → contains x (keys pairs) ≡ true → contains x pubkeys ≡ true
    pub marks_known : (x : String) → contains x (marks pairs) ≡ true → contains x sigs ≡ true

  count_valid-cons :
      (p : String) (ps sigs : List String) (n : ℕ)
      → count_valid env message (p ∷ ps) sigs ≡ ok n
      → (count_valid env message ps sigs ≡ ok n)
        ⊎ ((left : List String) × (m : ℕ) × (take_valid env message p sigs ≡ ok (some left))
            × (count_valid env message ps left ≡ ok m)
            × (suc m ≡ n))
  unfolding count_valid
  count_valid-cons p ps sigs n e = elim (Result-cases (take_valid env message p sigs)) [
    | inl (d, failed) ↦ absurd (ground arith)
    | inr (none, nothing) ↦ inl (ground arith)
    | inr (some left, found) ↦ elim (Result-cases (count_valid env message ps left)) [
      | inl (d, failed) ↦ absurd (ground arith)
      | inr (m, counted) ↦ inr (left, m, found, counted, ground arith)
    ]
  ]

  none_left : (sigs : List String) (n : ℕ) → count_valid env message [] sigs ≡ ok n → 0 ≡ n
  unfolding count_valid
  none_left sigs n e = ground arith

  absent :
      (p : String) (ps qs : List String)
      → contains p ps ≡ false
      → ((x : String) → contains x qs ≡ true → contains x ps ≡ true)
      → contains p qs ≡ false
  absent p ps qs out sub = ground (arith, sub p)

  pub count_valid-Matching :
      (ps sigs : List String) (n : ℕ)
      → Distinct ps
      → Distinct sigs
      → count_valid env message ps sigs ≡ ok n
      → Matching ps sigs n
  count_valid-Matching [] sigs n dp ds e = record {
    pairs = [];
    counted = none_left sigs n e;
    valid = tt;
    keys_distinct = tt;
    marks_distinct = tt;
    keys_known = λ x h. cc;
    marks_known = λ x h. cc;
  }
  count_valid-Matching (p ∷ ps) sigs n dp ds e = elim (count_valid-cons p ps sigs n e) [
    | inl rest ↦
        let m = count_valid-Matching ps sigs n dp.1 ds rest in
        record {
          pairs = m.pairs;
          counted = m.counted;
          valid = m.valid;
          keys_distinct = m.keys_distinct;
          marks_distinct = m.marks_distinct;
          keys_known = λ x h. ground (arith, m.keys_known x);
          marks_known = m.marks_known;
        }
    | inr (left, k, taken, rest, suc_k) ↦
        let (s, valid, there, gone, d', sub) = take_valid-Takes p sigs left ds taken in
        let m = count_valid-Matching ps left k dp.1 d' rest in
        record {
          pairs = (p, s) ∷ m.pairs;
          counted = ap suc m.counted ∙ suc_k;
          valid = (valid, m.valid);
          keys_distinct = (absent p ps (keys m.pairs) dp.0 m.keys_known, m.keys_distinct);
          marks_distinct = (absent s left (marks m.pairs) gone m.marks_known, m.marks_distinct);
          keys_known = λ x h. ground (arith, m.keys_known x);
          marks_known = λ x h. ground (arith, eq_iff x s, m.marks_known x, sub x);
        }
  ]
