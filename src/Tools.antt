-- ===== src/Tools.antt =====
-- The contracts of the evidence tools (packages/tools/src/contracts.ts).
pub mod Evidence
pub mod Lookups
pub mod Arithmetic
pub mod Handlers
pub mod Registry
pub mod Laws
pub mod Answers
pub mod Exactness
use Prim.Native.Char.{code}
use settlement_ops.Base.{
  Bool, List, Option, Result, String, [], every, fail_if, false, if◌then◌else◌, leb, leb_ℤ, length,
  none, not, ok, pos, some, str_eq, true, ℕ, ℤ, ◌&&◌, ◌==◌, ◌>>◌, ◌||◌, ◌∷◌,
}
use settlement_ops.Records.{MerchantScope}
use settlement_ops.Tools.Evidence.{
  ArgumentFault, ToolFailure, ToolName, ToolResult, bad_amount, bad_date, bad_payment_id,
  bad_settlement_id, bad_utr, bad_window, calculate_expected_net_amount, get_bank_credit,
  get_fee_schedule, get_fee_tax_lines, get_ledger_entries, get_refunds, get_settlement_breakup,
  no_data, search_related_adjustments, tool_failed, tool_rejected, validate_tax_line_mapping,
}

unfoldable pub parse_tool : String → Option ToolName
parse_tool value =
    if str_eq value "get_settlement_breakup"
    then some get_settlement_breakup
    else if str_eq value "get_fee_tax_lines"
    then some get_fee_tax_lines
    else if str_eq value "get_ledger_entries"
    then some get_ledger_entries
    else if str_eq value "get_bank_credit"
    then some get_bank_credit
    else if str_eq value "search_related_adjustments"
    then some search_related_adjustments
    else if str_eq value "get_refunds"
    then some get_refunds
    else if str_eq value "get_fee_schedule"
    then some get_fee_schedule
    else if str_eq value "calculate_expected_net_amount"
    then some calculate_expected_net_amount
    else if str_eq value "validate_tax_line_mapping"
    then some validate_tax_line_mapping
    else none

-- The number of days is an integer here.
pub record ToolArguments : Type 0 where
  pub payment_id : Option String
  pub settlement_id : Option String
  pub utr : Option String
  pub effective_date : Option String
  pub amount_minor : Option String
  pub window_days : Option ℤ

-- The arguments of every call that the investigation makes: `{}`.
abbrev pub no_arguments : ToolArguments
no_arguments = record {
  payment_id = none;
  settlement_id = none;
  utr = none;
  effective_date = none;
  amount_minor = none;
  window_days = none;
}

pub record ToolContext : Type 0 where
  pub scope : MerchantScope
  pub payment_id : String

-- The code points of a text.
abbrev pub codes : String → List ℕ
codes String.[] = []
codes (String.◌∷◌ c s) = code c ∷ codes s

abbrev pub is_digit : ℕ → Bool
is_digit c = leb b'0' c && leb c b'9'

-- `[A-Za-z0-9_-]`
abbrev pub is_identifier_code : ℕ → Bool
is_identifier_code c =
    (leb b'A' c && leb c b'Z')
    || ((leb b'a' c && leb c b'z') || (is_digit c || (c == b'_' || c == b'-')))

-- `/^[A-Za-z0-9_-]{1,64}$/`
unfoldable pub is_identifier : String → Bool
is_identifier value =
    let cs = codes value in every is_identifier_code cs && (leb 1 (length cs) && leb (length cs) 64)

-- `\d{1,18}`
abbrev is_digits : List ℕ → Bool
is_digits cs = every is_digit cs && (leb 1 (length cs) && leb (length cs) 18)

-- `/^-?\d{1,18}$/`
abbrev is_signed : List ℕ → Bool
is_signed [] = false
is_signed (c ∷ cs) = if c == b'-' then is_digits cs else is_digits (c ∷ cs)

unfoldable pub is_amount_text : String → Bool
is_amount_text value = is_signed (codes value)

-- A test of an argument that may be absent.
abbrev pub absent_or : {A : Type 0} → (A → Bool) → Option A → Bool
absent_or test none = true
absent_or test (some value) = test value

abbrev pub is_present : {A : Type 0} → Option A → Bool
is_present none = false
is_present (some _) = true

-- `date_parse` stands for `Date.parse`, and is none for what that makes NaN of.
module _ (date_parse : String → Option ℤ) where
  unfoldable pub validate_arguments : ToolArguments → Result ArgumentFault ToolArguments
  unfolding every is_identifier is_amount_text
  validate_arguments args = do
    fail_if (not (absent_or is_identifier args.payment_id)) bad_payment_id
    fail_if (not (absent_or is_identifier args.settlement_id)) bad_settlement_id
    fail_if (not (absent_or is_identifier args.utr)) bad_utr
    fail_if (not (absent_or (λ text. is_present (date_parse text)) args.effective_date)) bad_date
    fail_if (not (absent_or is_amount_text args.amount_minor)) bad_amount
    fail_if (not (absent_or (λ days. leb_ℤ (pos 1) days && leb_ℤ days (pos 30)) args.window_days))
        bad_window
    ok args

-- The name is absent where the source says 'unknown'.
unfoldable pub tool_error : Option ToolName → ToolFailure → ToolResult
tool_error name failure = record {
  succeeded = false;
  name = name;
  evidence = no_data;
  summary = elim name [ none ↦ tool_rejected failure | some tool ↦ tool_failed tool failure ];
  record_ids = [];
  failure = some failure;
}
