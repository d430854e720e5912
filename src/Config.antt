-- ===== src/Config.antt =====
-- cloud/src/config.py: the four services and the arithmetic of months.
pub mod Numerals
pub mod Months
pub mod Selectable
use Prim.Native.String.{◌++◌ as append}
use get_receipt.Base.{
  suc, ◌+◌, ℕ, ◌-◌, String, Option, none, some, List, [], ◌∷◌, find?, ◌==◌, string_eq,
  if◌then◌else◌, Result, ok, err, or_raise, ◌>>=◌, leb, ltb, not, ◌||◌,
}
use get_receipt.Base.Integers.{ℤ, pos, negsuc, ◌+ℤ◌, negate, dozens, div_dozen, mod_dozen}
use get_receipt.Config.Numerals.{parse_int, split_dash, pad_zeros, decimal}

-- `ServiceDefinition`.
pub record ServiceDefinition : Type 0 where
  pub id : String
  pub label : String
  pub default_partner : String
  pub portal_url : String
  pub partner_aliases : List String
  pub transaction_month_offset : ℤ

-- `KeyError` and `ValueError`.
pub data ConfigError : Type 0 where
  unknown_service invalid_month : ConfigError

abbrev pub services : List ServiceDefinition
services =
    record {
      id = "epos";
      label = "家賃";
      default_partner = "株式会社エポスカード";
      portal_url = "https://www.eposcard.co.jp/memberservice/pc/nocardusedetail/menu_preload.do";
      partner_aliases = "株式会社エポスカード" ∷ [];
      transaction_month_offset = negsuc 0;
    }
    ∷ record {
      id = "commufa";
      label = "Wi-Fi";
      default_partner = "中部テレコミュニケーション株式会社";
      portal_url = "https://mypage.commufa.jp/join/s/";
      partner_aliases = "中部テレコミュニケーション株式会社" ∷ [];
      transaction_month_offset = pos 1;
    }
    ∷ record {
      id = "tokuten";
      label = "電気";
      default_partner = "フラットエナジー株式会社";
      portal_url = "https://outlook.live.com/mail/0/";
      partner_aliases = "フラットエナジー株式会社" ∷ [];
      transaction_month_offset = pos 1;
    }
    ∷ record {
      id = "mobile";
      label = "携帯";
      default_partner = "NTTファイナンス株式会社";
      portal_url = "https://webbilling.ntt-finance.co.jp/mem/b0201/init";
      partner_aliases = "NTTファイナンス株式会社" ∷ "株式会社NTTファイナンス" ∷ "株式会社NTTドコモ" ∷ [];
      transaction_month_offset = pos 0;
    }
    ∷ []

unfoldable pub service_by_id : String → Result ConfigError ServiceDefinition
service_by_id service_id = or_raise (find? (λ s. s.id == service_id) services) unknown_service

-- The test on the month's number, and the pair.
abbrev month_in_range : ℤ → ℤ → Result ConfigError (ℤ × ℕ)
month_in_range year (negsuc n) = err invalid_month
month_in_range year (pos month) =
    if ltb month 1 || ltb 12 month then err invalid_month else ok (year, month)

unfoldable pub parse_month_key : String → Result ConfigError (ℤ × ℕ)
unfolding parse_int
parse_month_key value = do
  (year_text, month_text) ← or_raise (split_dash value) invalid_month
  year ← or_raise (parse_int year_text) invalid_month
  month ← or_raise (parse_int month_text) invalid_month
  month_in_range year month

-- The month counts from 1, so `month - 1` does not stop at 0.
unfoldable pub shift_month : ℤ → ℕ → ℤ → ℤ × ℕ
shift_month year month delta =
    let index = dozens year +ℤ pos (month - 1) +ℤ delta in (div_dozen index, mod_dozen index + 1)

-- `f"{year:04d}-{month:02d}"`.
unfoldable pub month_key : ℤ → ℕ → String
month_key (pos year) month =
    append (pad_zeros 4 (decimal year)) (append "-" (pad_zeros 2 (decimal month)))
month_key (negsuc n) month =
    append (append "-" (pad_zeros 3 (decimal (suc n)))) (append "-" (pad_zeros 2 (decimal month)))

unfoldable pub expected_transaction_month : String → String → Result ConfigError String
unfolding service_by_id parse_month_key shift_month month_key
expected_transaction_month service_id usage_month = do
  service ← service_by_id service_id
  (year, month) ← parse_month_key usage_month
  let (year', month') = shift_month year month service.transaction_month_offset
  ok (month_key year' month')

unfoldable pub usage_month_for_transaction : String → String → Result ConfigError String
unfolding service_by_id parse_month_key shift_month month_key
usage_month_for_transaction service_id transaction_month = do
  service ← service_by_id service_id
  (year, month) ← parse_month_key transaction_month
  let (year', month') = shift_month year month (negate service.transaction_month_offset)
  ok (month_key year' month')

abbrev pub integer_text : ℤ → String
integer_text (pos n) = decimal n
integer_text (negsuc n) = append "-" (decimal (suc n))

-- `f"{year}年{month}月分"`.
unfoldable pub month_label : String → Result ConfigError String
unfolding parse_month_key
month_label year_month = do
  (year, month) ← parse_month_key year_month
  ok (append (integer_text year) (append "年" (append (decimal month) "月分")))
