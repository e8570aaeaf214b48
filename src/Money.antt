-- ===== src/Money.antt =====
-- Money in integer minor units (packages/domain/src/money/money.ts, currency.ts).
pub mod Laws
pub mod Breakdown
pub mod Codec
use settlement_ops.Base.{
  Bool, List, Result, String, [], eq_ℤ, err, if◌then◌else◌, includes, ltb_ℤ, neg, ok, pos, str_eq,
  ℤ, ◌&&◌, ◌+ℤ◌, ◌-ℤ◌, ◌>>=◌, ◌>>◌, ◌∷◌,
}

-- A currency is its code at run time: `Currency` names the one supported code, and values read
-- from a store or a message carry any other.
abbrev pub Currency : Type 0
Currency = String

abbrev pub supported_currencies : List Currency
supported_currencies = "INR" ∷ []

unfoldable pub is_currency : String → Bool
unfolding includes
is_currency value = includes str_eq value supported_currencies

pub record Money : Type 0 where
  pub amount_minor : ℤ
  pub currency : Currency

pub data MoneyError : Type 0 where
  currency_mismatch : (left right : Currency) → MoneyError
  empty_sum : MoneyError

abbrev pub money : ℤ → Currency → Money
money amount_minor currency = record { amount_minor = amount_minor; currency = currency }

abbrev pub zero_money : Currency → Money
zero_money currency = money (pos 0) currency

unfoldable pub same_currency : Money → Money → Result MoneyError (Unit {0})
same_currency a b =
    if str_eq a.currency b.currency then ok tt else err (currency_mismatch a.currency b.currency)

unfoldable pub add : Money → Money → Result MoneyError Money
unfolding same_currency
add a b = same_currency a b >> ok (money (a.amount_minor +ℤ b.amount_minor) a.currency)

unfoldable pub subtract : Money → Money → Result MoneyError Money
unfolding same_currency
subtract a b = same_currency a b >> ok (money (a.amount_minor -ℤ b.amount_minor) a.currency)

unfoldable pub negate : Money → Money
negate a = money (neg a.amount_minor) a.currency

unfoldable pub abs : Money → Money
abs a =
    money (if ltb_ℤ a.amount_minor (pos 0) then neg a.amount_minor else a.amount_minor) a.currency

unfoldable pub is_zero : Money → Bool
is_zero a = eq_ℤ a.amount_minor (pos 0)

unfoldable pub is_negative : Money → Bool
is_negative a = ltb_ℤ a.amount_minor (pos 0)

-- The source's -1, 0 and 1.
pub data Comparison : Type 0 where
  is_less is_same is_more : Comparison

unfoldable pub compare : Money → Money → Result MoneyError Comparison
unfolding same_currency
compare a b =
    same_currency a b
    >> (if ltb_ℤ a.amount_minor b.amount_minor
        then ok is_less
        else if ltb_ℤ b.amount_minor a.amount_minor
        then ok is_more
        else ok is_same)

unfoldable pub equals : Money → Money → Bool
equals a b = str_eq a.currency b.currency && eq_ℤ a.amount_minor b.amount_minor

-- The loop of `sum`: the first failed addition ends it.
unfoldable pub sum_from : Money → List Money → Result MoneyError Money
sum_from acc [] = ok acc
sum_from acc (next ∷ rest) = add acc next >>= λ acc'. sum_from acc' rest

unfoldable pub sum : List Money → Result MoneyError Money
unfolding sum_from
sum [] = err empty_sum
sum (head ∷ rest) = sum_from head rest
