-- ===== src/MailCodes.antt =====
-- cloud/src/automation/mail_codes.py: verification codes from the owner's mailbox.
-- Instants are microseconds. The case folding, the regular expressions and the reading of an ISO date
-- are parameters; an instant that would be before 0 is 0, which no message is before.
pub mod Search
pub mod Reader
pub mod Sent
pub mod Trusted
pub mod Timely
pub mod Ends
mod Tests
use Prim.Native.Char.{Char, code}
use Prim.Native.String.{◌++◌ as append}
use get_receipt.Base.{
  ℕ, String, Bool, true, false, not, ◌&&◌, ◌||◌, Option, none, some, List, [], ◌∷◌, map, filter,
  any, if◌then◌else◌, ◌==◌, nat_eq, string_eq,
}
use get_receipt.Base.Text.{is_part, strip, is_empty}

-- `MailCodeSource`.
pub record MailCodeSource : Type 0 where
  pub search_terms : List String
  pub sender_domains : List String
  pub code_patterns : List String
  pub subject_hint : String

-- A message of Graph, as texts that are empty where it has none.
pub record Message : Type 0 where
  pub id : String
  pub subject : String
  pub address : String
  pub received : String
  pub content : String

-- `str.casefold`, `datetime.fromisoformat` as an instant, in UTC when it names no zone, the text without
-- its tags, and the first group of `re.search`.
pub record Texts : Type 0 where
  pub casefold : String → String
  pub fromisoformat : String → Option ℕ
  pub strip_tags : String → String
  pub search : String → String → Option String

abbrev pub verification_code_sources : List (String × MailCodeSource)
verification_code_sources =
    (
      "commufa",
      record {
        search_terms = "from:news-ml@commufa.jp" ∷ [];
        sender_domains = "commufa.jp" ∷ [];
        subject_hint = "ID を確認してください";
        code_patterns = "確認コード[\\s:：]*([0-9]{6})" ∷ [];
      },
    )
    ∷ (
      "mobile",
      record {
        search_terms = "セキュリティコード" ∷ "ワンタイムパスワード" ∷ [];
        sender_domains = "docomo.ne.jp" ∷ "nttdocomo.co.jp" ∷ "ntt-finance.co.jp" ∷ [];
        subject_hint = "";
        code_patterns =
            "セキュリティコード[^0-9]{0,16}([0-9]{4,8})" ∷ "ワンタイムパスワード[^0-9]{0,40}?([0-9]{4,8})" ∷ [];
      },
    )
    ∷ []

-- `value.rsplit("@", 1)[-1]`, none without an `@`.
unfoldable pub after_at : String → Option String
after_at String.[] = none
after_at (String.◌∷◌ c s) = elim (after_at s) [
  | some domain ↦ some domain
  | none ↦ if code c == b'@' then some s else none
]

-- `value.endswith(suffix)`.
unfoldable pub ends_with : String → String → Bool
ends_with suffix String.[] = String.[] == suffix
ends_with suffix (String.◌∷◌ c s) = String.◌∷◌ c s == suffix || ends_with suffix s

abbrev pub is_within : String → String → Bool
is_within domain expected = domain == expected || ends_with (append "." expected) domain

-- `value.replace("Z", "+00:00")`.
unfoldable pub replace_zulu : String → String
replace_zulu String.[] = String.[]
replace_zulu (String.◌∷◌ c s) =
    let rest = replace_zulu s in if code c == b'Z' then append "+00:00" rest else String.◌∷◌ c rest

module _ (texts : Texts) where
  abbrev pub folded : String → String
  folded s = texts.casefold (strip s)

  -- `matches_domain`.
  unfoldable pub matches_domain : MailCodeSource → String → Bool
  unfolding after_at ends_with
  matches_domain source address = elim (after_at (folded address)) [
    | none ↦ false
    | some domain ↦
        any (λ expected. is_within domain expected)
          (filter (λ expected. not (is_empty expected))
            (map (λ item. folded item) source.sender_domains))
  ]

  -- `_parse_timestamp`.
  unfoldable pub parse_timestamp : String → Option ℕ
  unfolding replace_zulu
  parse_timestamp value =
      if is_empty (strip value) then none else texts.fromisoformat (replace_zulu (strip value))

  abbrev pub first_match : String → List String → String
  first_match text [] = ""
  first_match text (pattern ∷ patterns) = elim (texts.search pattern text) [
    | some found ↦ found
    | none ↦ first_match text patterns
  ]

  -- `_extract_code`.
  unfoldable pub extract_code : MailCodeSource → Message → String
  unfolding is_part
  extract_code source message =
      if not (is_empty source.subject_hint) && not (is_part source.subject_hint message.subject)
      then ""
      else first_match (texts.strip_tags message.content) source.code_patterns

  -- `_sender_matches`.
  abbrev pub sender_matches : MailCodeSource → Message → Bool
  sender_matches source message = matches_domain source message.address
