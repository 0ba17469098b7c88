-- ===== src/Mint/Keysets/Rotated.antt =====
-- What `rotate_next_keyset` of cashu/mint/keysets.py leaves.
use nutshell.Base.{
  ℕ, ℤ, pos, ◌+ℤ◌, ltb_ℤ, String, true, false, Option, none, some, List, [], ◌∷◌, map, ◌≡◌, refl,
  ap, sym, ◌∙◌, subst, arith, ◌==◌, contains, eq_iff, inl, inr, ◌⊎◌,
}
use nutshell.Core.Currency.{CurrencyUnit, unit_eq}
use nutshell.Core.Errors.{exception, value_error}
use nutshell.Core.Result.{Result, ok, err, or_raise, Dict, get, >>=-eq-ok, or_raise-eq-ok}
use nutshell.Mint.Ledger.Issued.{ok-inj}
use nutshell.Mint.Keysets.{
  Keyset, Derivation, LedgerKeysets, set, amounts_for, store_keyset, update_keyset, make_keyset,
  select_next, select_keyset, prepare, rotated, rotate_next_keyset,
}

some-inj : {A : Type 0} {x y : A} → some x ≡ some y → x ≡ y
some-inj h = cc

get-set : {V : Type 0} (k : String) (v : V) (d : Dict V) → get k (set k v d) ≡ some v
unfolding set
get-set k v [] = ground (arith, eq_iff k k)
get-set k v ((j, w) ∷ d) = ground (arith, eq_iff k k, eq_iff j k, get-set k v d)

get-set_other :
    {V : Type 0} (i k : String) (v : V) (d : Dict V)
    → (i == k) ≡ false
    → get i (set k v d) ≡ get i d
unfolding set
get-set_other i k v [] e = ground (arith, eq_iff i k, eq_iff k i)
get-set_other i k v ((j, w) ∷ d) e =
    ground (arith, eq_iff i k, eq_iff k i, eq_iff j k, eq_iff j i, get-set_other i k v d e)

-- Is the keyset a value of the dict?
abbrev pub Holds : Keyset → Dict Keyset → Type 0
Holds k [] = ⊥
Holds k ((_, j) ∷ d) = (k ≡ j) ⊎ Holds k d

module _ (derivation : Derivation) where
  open derivation use {counter, unit_number, with_counter, derive_id}

  -- A keyset that can be rotated.
  pub record IsCandidate (unit : CurrencyUnit) (k : Keyset) : Type 0 where
    pub active : k.active ≡ true
    pub same_unit : unit_eq k.unit unit ≡ true

  -- The keyset selected is the one before, or the one of this round.
  select_next-IsCandidate :
      (unit : CurrencyUnit) (k : Keyset) (selected later : Option Keyset)
      → select_next derivation unit k selected ≡ ok later
      → (later ≡ selected) ⊎ ((later ≡ some k) × (k.active ≡ true) × (unit_eq k.unit unit ≡ true))
  select_next-IsCandidate unit k selected later e = ground arith

  select_keyset-IsCandidate :
      (unit : CurrencyUnit) (d : Dict Keyset) (selected later : Option Keyset)
      → select_keyset derivation unit d selected ≡ ok later
      → (later ≡ selected) ⊎ ((k : Keyset) × (later ≡ some k) × Holds k d × IsCandidate unit k)
  unfolding select_keyset
  select_keyset-IsCandidate unit [] selected later e = inl (sym (ok-inj e))
  select_keyset-IsCandidate unit ((_, k) ∷ d) selected later e =
      let (next, e₁, e₂) = >>=-eq-ok (select_next derivation unit k selected) _ e in
      elim (select_keyset-IsCandidate unit d next later e₂) [
        | inr (j, same, held, is) ↦ inr (j, same, inr held, is)
        | inl same ↦ elim (select_next-IsCandidate unit k selected next e₁) [
          | inl kept ↦ inl (same ∙ kept)
          | inr (chosen, active, same_unit) ↦
              inr (k, same ∙ chosen, inl refl, record { active = active; same_unit = same_unit })
        ]
      ]

  make_keyset-returns :
      (path seed : String) (amounts : List ℤ) (fee : Option ℤ) (expiry : Option ℕ) (k : Keyset)
      → make_keyset derivation path seed amounts fee expiry ≡ ok k
      → (k.derivation_path ≡ path)
        × (k.active ≡ true)
        × (k.amounts ≡ amounts)
        × (k.final_expiry ≡ expiry)
        × (ltb_ℤ k.input_fee_ppk (pos 0) ≡ false)
  unfolding make_keyset
  make_keyset-returns path seed amounts fee expiry k e = ground arith

  store_keyset-returns :
      (k : Keyset) (rows after : List Keyset)
      → k.active ≡ true
      → store_keyset k rows ≡ ok after
      → (contains k.id (map (λ (r : Keyset). r.id) rows) ≡ false) × (after ≡ k ∷ rows)
  unfolding store_keyset
  store_keyset-returns k rows after active e = ground arith

  -- What is known before the ledger changes.
  pub record IsPrepared (unit : CurrencyUnit) (max_order expiry : Option ℕ) (old new : Keyset)
      (rows : List Keyset) (s : LedgerKeysets) : Type 0 where
    pub was_held : Holds old s.keysets
    pub candidate : IsCandidate unit old
    pub next :
        (c : ℤ) × (counter old.derivation_path ≡ some c)
        × (new.derivation_path ≡ with_counter old.derivation_path (c +ℤ pos 1))
    pub active : new.active ≡ true
    pub amounts : new.amounts ≡ amounts_for max_order s.amounts
    pub expires : new.final_expiry ≡ expiry
    pub charges : ltb_ℤ new.input_fee_ppk (pos 0) ≡ false
    pub was_free : contains new.id (map (λ (r : Keyset). r.id) s.rows) ≡ false
    pub stored : rows ≡ new ∷ s.rows

  selected-IsCandidate :
      (unit : CurrencyUnit) (d : Dict Keyset) (selected : Option Keyset) (old : Keyset)
      → select_keyset derivation unit d none ≡ ok selected
      → selected ≡ some old
      → Holds old d × IsCandidate unit old
  selected-IsCandidate unit d selected old e found =
      elim (select_keyset-IsCandidate unit d none selected e) [
        | inl same ↦ ground (arith, same, found)
        | inr (k, same, held, is) ↦
            let known : k ≡ old = some-inj (sym same ∙ found) in
            (subst (λ x. Holds x d) known held, subst (IsCandidate unit) known is)
      ]

  prepare-IsPrepared :
      (unit : CurrencyUnit) (max_order : Option ℕ) (fee : Option ℤ) (expiry : Option ℕ)
      (s : LedgerKeysets) (old new : Keyset) (rows : List Keyset)
      → prepare derivation unit max_order fee expiry s ≡ ok (old, new, rows)
      → IsPrepared unit max_order expiry old new rows s
  unfolding prepare
  prepare-IsPrepared unit max_order fee expiry s old new rows e₁ =
      let (selected, e₂, e₃) = >>=-eq-ok (select_keyset derivation unit s.keysets none) _ e₁ in
      let (old', e₄, e₅) =
        >>=-eq-ok (or_raise selected (exception "Couldn't find suitable keyset for rotation")) _
          e₃ in
      let (c, e₆, e₇) = >>=-eq-ok (or_raise (counter old'.derivation_path) value_error) _ e₅ in
      let (new', e₈, e₉) =
        >>=-eq-ok
          (make_keyset derivation (with_counter old'.derivation_path (c +ℤ pos 1)) s.seed
            (amounts_for max_order s.amounts) fee expiry)
          _ e₇ in
      let (rows', e₁₀, e₁₁) = >>=-eq-ok (store_keyset new' s.rows) _ e₉ in
      let (held, is) =
        selected-IsCandidate unit s.keysets selected old' e₂ (or_raise-eq-ok _ _ e₄) in
      let (path, active, amounts, expires, charges) =
        make_keyset-returns (with_counter old'.derivation_path (c +ℤ pos 1)) s.seed
          (amounts_for max_order s.amounts) fee expiry new' e₈ in
      let (free, stored) = store_keyset-returns new' s.rows rows' active e₁₀ in
      subst (λ (x : Keyset × Keyset × List Keyset). IsPrepared unit max_order expiry x.0 x.1 x.2 s)
        (ok-inj e₁₁)
        (record {
          was_held = held;
          candidate = is;
          next = (c, or_raise-eq-ok _ _ e₆, path);
          active = active;
          amounts = amounts;
          expires = expires;
          charges = charges;
          was_free = free;
          stored = stored;
        })

  -- The keyset `old` has been replaced by `new`.
  pub record IsRotated (unit : CurrencyUnit) (max_order expiry : Option ℕ) (old new : Keyset)
      (rows : List Keyset) (s t : LedgerKeysets) : Type 0 where
    pub ready : IsPrepared unit max_order expiry old new rows s
    pub deactivated : get old.id t.keysets ≡ some (record old { active = false })
    pub added : (new.id == old.id) ≡ false → get new.id t.keysets ≡ some new
    pub others :
        (id : String)
        → (id == old.id) ≡ false
        → (id == new.id) ≡ false
        → get id t.keysets ≡ get id s.keysets
    pub in_table : t.rows ≡ update_keyset (record old { active = false }) (new ∷ s.rows)

  rotated-ok :
      (s t : LedgerKeysets) (new : Keyset) (r : Result (Keyset × Keyset × List Keyset))
      → rotated derivation s r ≡ (ok new, t)
      → (old : Keyset) × (rows : List Keyset) × (r ≡ ok (old, new, rows))
        × (t ≡ (rotated derivation s (ok (old, new, rows))).1)
  rotated-ok s t new (err e) h = ground arith
  rotated-ok s t new (ok (old, new', rows)) h =
      let same : new' ≡ new = ok-inj (ap (λ x. x.0) h) in
      (
        old,
        rows,
        ap (λ (x : Keyset). ok (old, x, rows)) same,
        sym (ap (λ x. x.1) h)
            ∙ ap (λ (x : Keyset). (rotated derivation s (ok (old, x, rows))).1) same,
      )

  -- When the keyset of a unit is rotated, an active keyset of that unit which the ledger held, and whose
  -- derivation path has a counter, is deactivated, in the ledger and in the table; the new keyset is active,
  -- with the path of the next counter, the amounts and the expiry asked for and a fee that is not negative;
  -- no row had its id; when its id is not that of the old keyset, the ledger holds it; the ledger holds what
  -- it held under every other id.
  pub rotate_next_keyset-IsRotated :
      (unit : CurrencyUnit) (max_order : Option ℕ) (fee : Option ℤ) (expiry : Option ℕ)
      (s t : LedgerKeysets) (new : Keyset)
      → rotate_next_keyset derivation unit max_order fee expiry s ≡ (ok new, t)
      → (old : Keyset) × (rows : List Keyset) × IsRotated unit max_order expiry old new rows s t
  unfolding rotate_next_keyset
  rotate_next_keyset-IsRotated unit max_order fee expiry s t new e =
      let (old, rows, e₁, left) =
        rotated-ok s t new (prepare derivation unit max_order fee expiry s) e in
      let ready = prepare-IsPrepared unit max_order fee expiry s old new rows e₁ in
      let off : Keyset = record old { active = false } in
      (
        old,
        rows,
        record {
          ready = ready;
          deactivated =
              ap (λ (x : LedgerKeysets). get old.id x.keysets) left
              ∙ get-set old.id off (set new.id new s.keysets);
          added = λ other.
              ap (λ (x : LedgerKeysets). get new.id x.keysets) left
              ∙ get-set_other new.id old.id off (set new.id new s.keysets) other
              ∙ get-set new.id new s.keysets;
          others = λ id not_old not_new.
              ap (λ (x : LedgerKeysets). get id x.keysets) left
              ∙ get-set_other id old.id off (set new.id new s.keysets) not_old
              ∙ get-set_other id new.id new s.keysets not_new;
          in_table = ap (λ (x : LedgerKeysets). x.rows) left ∙ ap (update_keyset off) ready.stored;
        },
      )
