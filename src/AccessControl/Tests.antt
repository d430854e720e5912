-- ===== src/AccessControl/Tests.antt =====
-- The access control at a concrete configuration.
use get_receipt.Base.Text.{strip}
use get_receipt.Base.{
  inl, inr, Bool-cases, String, true, ◌≡◌, ◌↔◌, refl, [], ◌∷◌, some, err, if◌then◌else◌, ◌==◌,
  string_eq, nat_eq, false,
}
use get_receipt.AccessControl.Settings.{
  string_sequence, Entry, found, missing, table, plain, sequence, Library, User, stopped, Section,
}
use get_receipt.AccessControl.{require_owner_access}
use get_receipt.AccessControl.Returns.{Halts, Returns}
use get_receipt.AccessControl.Decision.{Admitted, Readable, require_owner_access-Admitted}

abbrev streamlit : Library
streamlit = record {
  stop = λ page. (err stopped, page);
  casefold = λ text. text;
  lower = λ text. text;
  sha256_hexdigest = λ text. "00";
}

streamlit-Halts : Halts streamlit
streamlit-Halts page h = cc h

abbrev owner_access : Section
owner_access = table (
    ("mode", plain "oidc")
    ∷ ("allowed_emails", sequence ("owner@example.jp" ∷ []) "['owner@example.jp']")
    ∷ (
      "allowed_issuers",
      sequence ("https://accounts.example.jp/" ∷ []) "['https://accounts.example.jp/']",
    )
    ∷ [])

abbrev owner_secrets : String → Entry
owner_secrets name = if name == "app_access" then found owner_access else missing

owner_secrets-Readable : Readable owner_secrets
owner_secrets-Readable name h = elim (Bool-cases (name == "app_access")) [
  | inl e ↦ cc (rw e at h)
  | inr e ↦ cc (rw e at h)
]

abbrev no_variable : String → String
no_variable name = ""

abbrev owner : User
owner = record {
  is_logged_in = true;
  email = " owner@example.jp";
  sub = "1234";
  iss = "https://accounts.example.jp";
  email_verified = true;
}

require_owner_access-Admitted_example :
    Returns (require_owner_access streamlit owner_secrets no_variable (some owner)) []
    ↔ Admitted streamlit owner_secrets no_variable (some owner)
require_owner_access-Admitted_example =
    require_owner_access-Admitted owner_secrets owner_secrets-Readable no_variable streamlit
      streamlit-Halts (some owner) []

lets_owner_in : Returns (require_owner_access streamlit owner_secrets no_variable (some owner)) []
unfolding require_owner_access strip string_sequence
lets_owner_in = refl

unverified_stops :
    (require_owner_access streamlit owner_secrets no_variable
      (some (record owner { email_verified = false }))
      []).0
    ≡ err stopped
unfolding require_owner_access strip string_sequence
unverified_stops = refl
