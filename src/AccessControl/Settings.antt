-- ===== src/AccessControl/Settings.antt =====
-- The configuration, the claims and the page of cloud/src/ui/access_control.py.
use Prim.Native.Char.{Char, code}
use Prim.Native.String.{◌++◌ as append}
use get_receipt.Base.{
  String, Bool, true, false, not, ◌&&◌, ◌||◌, Option, none, some, List, [], ◌∷◌, map, ◌++◌, Result,
  ok, err, ◌==◌, nat_eq, string_eq, if◌then◌else◌, any, filter,
}
use get_receipt.Base.Text.{strip, is_empty}
use get_receipt.Base.Exec.{Exec, modify}

pub data Value : Type 0 where
  absent : Value
  plain : String → Value
  sequence : List String → String → Value

-- A section of the secrets: a table, or a value without keys.
pub data Section : Type 0 where
  table : List (String × Value) → Section
  single : Section

-- `secrets[name]`: a section, none, and any exception but those for a missing section.
pub data Entry : Type 0 where
  found : Section → Entry
  missing : Entry
  broken : Entry

-- The claims of `st.user`, as texts, empty when they are missing.
pub record User : Type 0 where
  pub is_logged_in : Bool
  pub email : String
  pub sub : String
  pub iss : String
  pub email_verified : Bool

pub data Action : Type 0 where
  login : String → Action
  logout : Action

pub data Shown : Type 0 where
  error_box title caption code_box : String → Shown
  button : String → Action → Shown

-- The calls of `_fatal`.
pub data Complaint : Type 0 where
  not_configured mode_invalid allowlist_empty issuer_allowlist_empty : Complaint

abbrev pub heading_of : Complaint → String
heading_of not_configured = "所有者ログインが未設定です"
heading_of mode_invalid = "所有者ログインの設定が不正です"
heading_of allowlist_empty = "所有者allowlistが未設定です"
heading_of issuer_allowlist_empty = "OIDC issuer allowlistが未設定です"

abbrev pub detail_of : Complaint → String
detail_of not_configured = "Streamlit Secretsに[app_access]と[auth]を設定するまで、領収書データと取得ワーカーにはアクセスできません。"
detail_of mode_invalid = "本番のapp_access.modeはoidcにしてください。"
detail_of allowlist_empty =
    "[app_access]にallowed_identity_hashes/allowed_identities、またはissuerと組み合わせたallowed_emails/allowed_subjectsを設定してください。"
detail_of issuer_allowlist_empty = "メールまたはsubjectで許可する場合はallowed_issuersも設定してください。"

abbrev pub code_of : Complaint → String
code_of not_configured = "OWNER_AUTH_NOT_CONFIGURED"
code_of mode_invalid = "OWNER_AUTH_MODE_INVALID"
code_of allowlist_empty = "OWNER_ALLOWLIST_EMPTY"
code_of issuer_allowlist_empty = "OWNER_ISSUER_ALLOWLIST_EMPTY"

-- What ends the call but a return: `st.stop`, `AccessControlConfigError` and a broken lookup.
pub data Halt : Type 0 where
  stopped : Halt
  config_error : String → Halt
  secrets_error : Halt

abbrev pub Page : Type 0
Page = List Shown

abbrev pub Step : Type 0 → Type 0
Step A = Exec Page Halt A

-- The functions of the libraries.
pub record Library : Type 0 where
  pub stop : Step (Unit {0})
  pub casefold : String → String
  pub lower : String → String
  pub sha256_hexdigest : String → String

abbrev pub show : Shown → Step (Unit {0})
show shown = modify (λ page. page ++ shown ∷ [])

abbrev pub sensitive_sections : List String
sensitive_sections =
    "receipt_worker" ∷ "google_service_account" ∷ "epos" ∷ "commufa" ∷ "tokuten" ∷ "outlook"
    ∷ "microsoft" ∷ "webbilling" ∷ "mobile" ∷ "d_account" ∷ []

abbrev pub sensitive_variables : List String
sensitive_variables =
    "GOOGLE_SERVICE_ACCOUNT_JSON" ∷ "GOOGLE_APPLICATION_CREDENTIALS_JSON"
    ∷ "GOOGLE_APPLICATION_CREDENTIALS" ∷ "GETRECEIPT_PROVIDER_CREDENTIALS_JSON" ∷ []

-- `_section`.
abbrev pub section_of : Entry → Result Halt (Option Section)
section_of (found section) = ok (some section)
section_of missing = ok none
section_of broken = err secrets_error

-- `_section_present`, on what `_section` returns.
abbrev pub has_keys : Option Section → Bool
has_keys none = false
has_keys (some (table [])) = false
has_keys (some (table (pair ∷ pairs))) = true
has_keys (some single) = true

-- `any(_section_present(secrets, name) for name in names)`, which stops at the first.
unfoldable pub any_present : (String → Entry) → List String → Result Halt Bool
any_present secrets [] = ok false
any_present secrets (name ∷ names) =
    let rest = any_present secrets names in
    elim (section_of (secrets name)) [
      | ok section ↦ if has_keys section then ok true else rest
      | err halt ↦ err halt
    ]

unfoldable pub sensitive_configured : (String → Entry) → (String → String) → Result Halt Bool
unfolding any_present
sensitive_configured secrets getenv = elim (any_present secrets sensitive_sections) [
  | ok present ↦
      ok (present || any (λ name. not (is_empty (strip (getenv name)))) sensitive_variables)
  | err halt ↦ err halt
]

abbrev get_value : List (String × Value) → String → Value
get_value [] name = absent
get_value ((key, value) ∷ pairs) name = if key == name then value else get_value pairs name

-- `_value`.
abbrev pub value_of : Section → String → Value
value_of (table pairs) name = get_value pairs name
value_of single name = absent

-- `str(value or "")`.
abbrev pub text_of : Value → String
text_of absent = ""
text_of (plain text) = text
text_of (sequence items text) = text

-- `_string_sequence`.
unfoldable pub string_sequence : Value → List String
string_sequence absent = []
string_sequence (plain text) = []
string_sequence (sequence items text) =
    filter (λ item. not (is_empty item)) (map (λ item. strip item) items)

abbrev cons_slash : Char → String → String
cons_slash c String.[] = if code c == b'/' then String.[] else String.◌∷◌ c String.[]
cons_slash c (String.◌∷◌ d s) = String.◌∷◌ c (String.◌∷◌ d s)

-- `value.rstrip("/")`.
unfoldable pub rstrip_slash : String → String
rstrip_slash String.[] = String.[]
rstrip_slash (String.◌∷◌ c s) = cons_slash c (rstrip_slash s)

-- The allowlists of the section.
pub record Allowlists : Type 0 where
  pub emails : List String
  pub subjects : List String
  pub issuers : List String
  pub identities : List String
  pub identity_hashes : List String

-- The user's claims as they are compared.
pub record Claims : Type 0 where
  pub email : String
  pub subject : String
  pub issuer : String
  pub email_verified : Bool

abbrev pub no_items : List String → Bool
no_items [] = true
no_items (item ∷ items) = false

abbrev pub no_subject_allowed : Allowlists → Bool
no_subject_allowed lists =
    no_items lists.emails
    && (no_items lists.subjects && (no_items lists.identities && no_items lists.identity_hashes))

abbrev pub no_issuer_allowed : Allowlists → Bool
no_issuer_allowed lists =
    (not (no_items lists.emails) || not (no_items lists.subjects)) && no_items lists.issuers

abbrev pub identity_of : Claims → String
identity_of claims = append claims.issuer (append "|" claims.subject)
