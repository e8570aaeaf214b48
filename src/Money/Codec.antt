-- ===== src/Money/Codec.antt =====
-- The money codec (packages/domain/src/money/money-codec.ts).
use settlement_ops.Base.{
  Bool, Result, String, arith, err, if◌then◌else◌, is_ok, leb_ℤ, ltb_ℤ, negsuc, ok, pos, true, ℤ,
  ◌&&◌, ◌>>=◌, ◌||◌, ◌↔◌, ◌≡◌, ◌≤ℤ◌,
}
use settlement_ops.Money.{Money, is_currency, money}

-- A JavaScript number: an integer value, or anything else (a fraction, NaN, an infinity).
pub data JsNumber : Type 0 where
  integer : ℤ → JsNumber
  non_integer : JsNumber

pub record MoneyDto : Type 0 where
  pub dto_amount : JsNumber
  pub dto_currency : String

pub data CodecError : Type 0 where
  not_safe_integer : ℤ → CodecError
  not_an_integer : JsNumber → CodecError
  unsupported_currency : String → CodecError

-- Number.MAX_SAFE_INTEGER, 2^53 - 1.
abbrev pub max_safe : ℤ
max_safe = pos 9007199254740991

abbrev pub min_safe : ℤ
min_safe = negsuc 9007199254740990

abbrev pub is_safe : ℤ → Bool
is_safe n = leb_ℤ min_safe n && leb_ℤ n max_safe

-- Within the bounds `Number(value)` is exact, so the number is the integer itself.
unfoldable pub encode_money : Money → Result CodecError MoneyDto
encode_money value =
    if ltb_ℤ max_safe value.amount_minor || ltb_ℤ value.amount_minor min_safe
    then err (not_safe_integer value.amount_minor)
    else ok (record { dto_amount = integer value.amount_minor; dto_currency = value.currency })

decode_number : JsNumber → Result CodecError ℤ
decode_number non_integer = err (not_an_integer non_integer)
decode_number (integer n) = if is_safe n then ok n else err (not_safe_integer n)

unfoldable pub decode_money : MoneyDto → Result CodecError Money
unfolding decode_number
decode_money dto = decode_number dto.dto_amount >>= λ n.
    if is_currency dto.dto_currency
    then ok (money n dto.dto_currency)
    else err (unsupported_currency dto.dto_currency)

-- What is encoded decodes to the same money, when its currency is supported; a foreign currency is
-- encoded and then refused by the decoder.
pub decode-encode :
    (m : Money) (dto : MoneyDto)
    → encode_money m ≡ ok dto
    → decode_money dto
      ≡ (if is_currency m.currency then ok m else err (unsupported_currency m.currency))
unfolding encode_money decode_money
decode-encode m dto h = ground arith

-- What decodes is encoded back to the same message.
pub encode-decode : (dto : MoneyDto) (m : Money) → decode_money dto ≡ ok m → encode_money m ≡ ok dto
unfolding encode_money decode_money
encode-decode dto m h = ground arith

-- Encoding succeeds exactly on the safe integers.
pub encode-ok_iff :
    (m : Money)
    → (is_ok (encode_money m) ≡ true)
      ↔ ((min_safe ≤ℤ m.amount_minor) × (m.amount_minor ≤ℤ max_safe))
unfolding encode_money
encode-ok_iff m = ground arith
