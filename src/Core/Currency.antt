-- ===== src/Core/Currency.antt =====
-- The currency units and amounts of cashu/core/base.py. `Unit` is `CurrencyUnit` here. The two
-- roundings by way of a float quotient are exact for amounts below 2 ^ 53, and are modelled as exact.
use nutshell.Base.{
  ◌+◌, ◌*◌, ◌/◌, ℤ, pos, negsuc, ◌+ℤ◌, ◌-ℤ◌, ltb_ℤ, Bool, true, false, String, ◌==◌, if◌then◌else◌,
  arith, ◌≡◌,
}
use nutshell.Core.Errors.{exception, key_error}
use nutshell.Core.Result.{Result, ok, err, ◌>>◌, require}

pub data CurrencyUnit : Type 0 where
  sat msat usd eur btc auth : CurrencyUnit

abbrev pub unit_eq : CurrencyUnit → CurrencyUnit → Bool
unit_eq sat sat = true
unit_eq msat msat = true
unit_eq usd usd = true
unit_eq eur eur = true
unit_eq btc btc = true
unit_eq auth auth = true
unit_eq _ _ = false

pub unit_eq→eq : (a b : CurrencyUnit) → unit_eq a b ≡ true → a ≡ b
unit_eq→eq a b h = ground arith

-- `unit.name`
abbrev pub unit_name : CurrencyUnit → String
unit_name sat = "sat"
unit_name msat = "msat"
unit_name usd = "usd"
unit_name eur = "eur"
unit_name btc = "btc"
unit_name auth = "auth"

-- `Unit[name]`
abbrev pub unit_of_name : String → Result CurrencyUnit
unit_of_name s =
    if s == "sat"
    then ok sat
    else if s == "msat"
    then ok msat
    else if s == "usd"
    then ok usd
    else if s == "eur"
    then ok eur
    else if s == "btc"
    then ok btc
    else if s == "auth"
    then ok auth
    else err key_error

pub record Amount : Type 0 where
  pub unit : CurrencyUnit
  pub amount : ℤ

pub data Rounding : Type 0 where
  up down no_rounding : Rounding

abbrev floor_thousandth : ℤ → ℤ
floor_thousandth (pos n) = pos (n / 1000)
floor_thousandth (negsuc n) = negsuc (n / 1000)

abbrev ceil_thousandth : ℤ → ℤ
ceil_thousandth (pos n) = pos ((n + 999) / 1000)
ceil_thousandth (negsuc n) = pos 0 -ℤ pos ((n + 1) / 1000)

abbrev pub thousandfold : ℤ → ℤ
thousandfold (pos n) = pos (n * 1000)
thousandfold (negsuc n) = pos 0 -ℤ pos ((n + 1) * 1000)

abbrev msat_to_sat : Rounding → ℤ → ℤ
msat_to_sat up a = ceil_thousandth a
msat_to_sat down a = floor_thousandth a
msat_to_sat no_rounding a = floor_thousandth a

abbrev convert : CurrencyUnit → CurrencyUnit → Rounding → Amount → Result Amount
convert sat msat r a = ok (record { unit = msat; amount = thousandfold a.amount })
convert sat _ r a = err (exception "Cannot convert")
convert msat sat r a = ok (record { unit = sat; amount = msat_to_sat r a.amount })
convert msat _ r a = err (exception "Cannot convert")
convert _ _ r a = ok a

-- `Amount.to`
unfoldable pub to : Amount → CurrencyUnit → Rounding → Result Amount
to a to_unit r = if unit_eq a.unit to_unit then ok a else convert a.unit to_unit r a

abbrev same_unit : Amount → Amount → Result (Unit {0})
same_unit a b = require (unit_eq a.unit b.unit) (exception "Units must be the same")

-- `Amount.__add__`, `__sub__` and `__gt__`
unfoldable pub add : Amount → Amount → Result Amount
add a b = do same_unit a b; ok (record { unit = a.unit; amount = a.amount +ℤ b.amount })

unfoldable pub sub : Amount → Amount → Result Amount
sub a b = do same_unit a b; ok (record { unit = a.unit; amount = a.amount -ℤ b.amount })

unfoldable pub greater : Amount → Amount → Result Bool
greater a b = do same_unit a b; ok (ltb_ℤ b.amount a.amount)
