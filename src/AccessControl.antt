-- ===== src/AccessControl.antt =====
-- cloud/src/ui/access_control.py: who may open the receipts.
-- The page is what the call has shown; `st.stop`, the case folding and the hash are parameters. A value
-- is known by its text `str(value or "")`, and the items of a sequence by theirs.
pub mod Settings
pub mod Owner
pub mod Decision
pub mod Returns
mod Tests
use Prim.Native.Char.{Char, code}
use Prim.Native.String.{◌++◌ as append}
use get_receipt.Base.{
  String, Bool, true, false, not, ◌&&◌, ◌||◌, Option, none, some, List, [], ◌∷◌, map, ◌++◌, Result,
  ok, err, ◌==◌, nat_eq, string_eq, if◌then◌else◌, any, filter,
}
use get_receipt.Base.Text.{strip, is_empty}
use get_receipt.Base.Exec.{Exec, pure, lift, modify, ◌>>=◌, ◌>>◌}
use get_receipt.AccessControl.Settings.{
  Value, Section, Entry, User, Action, Shown, Complaint, heading_of, detail_of, code_of, Halt, Page,
  Step, Library, show, sensitive_sections, sensitive_variables, section_of, has_keys, any_present,
  sensitive_configured, value_of, text_of, string_sequence, rstrip_slash, Allowlists, Claims,
  no_items, no_subject_allowed, no_issuer_allowed, identity_of, absent, plain, sequence, table,
  single, found, missing, broken, login, logout, error_box, title, caption, code_box, button,
  not_configured, mode_invalid, allowlist_empty, issuer_allowlist_empty, stopped, config_error,
  secrets_error,
}

module _ (library : Library) where
  -- `_fatal`.
  unfoldable pub fatal : Complaint → Step (Unit {0})
  unfolding ◌>>=◌
  fatal c = do
    show (
        error_box (
          append (heading_of c)
            (append "\n\n" (append (detail_of c) (append "\n\n`" (append (code_of c) "`"))))))
    library.stop
    lift (err (config_error (code_of c)))

  abbrev pub allowlists : Section → Allowlists
  allowlists access = record {
    emails =
        map (λ item. library.casefold item) (string_sequence (value_of access "allowed_emails"));
    subjects = string_sequence (value_of access "allowed_subjects");
    issuers = string_sequence (value_of access "allowed_issuers");
    identities = string_sequence (value_of access "allowed_identities");
    identity_hashes =
        map (λ item. library.casefold item)
          (string_sequence (value_of access "allowed_identity_hashes"));
  }

  abbrev pub claims_of : User → Claims
  claims_of user = record {
    email = library.casefold (strip user.email);
    subject = strip user.sub;
    issuer = rstrip_slash (strip user.iss);
    email_verified = user.email_verified;
  }

  unfoldable pub identity_hash : Claims → String
  identity_hash claims =
      if not (is_empty claims.issuer) && not (is_empty claims.subject)
      then append "sha256:" (library.sha256_hexdigest (identity_of claims))
      else ""

  unfoldable pub is_allowed : Allowlists → Claims → Bool
  unfolding identity_hash rstrip_slash
  is_allowed lists claims =
      let issuer_allowed = any (λ item. claims.issuer == rstrip_slash item) lists.issuers in
      not (is_empty claims.issuer)
        && not (is_empty claims.subject)
        && any (λ item. identity_of claims == item) lists.identities
      || (not (is_empty (identity_hash claims))
            && any (λ item. identity_hash claims == item) lists.identity_hashes
          || (any (λ item. claims.email == item) lists.emails
                && issuer_allowed
                && claims.email_verified
              || any (λ item. claims.subject == item) lists.subjects && issuer_allowed))

  -- What a visitor without a login sees.
  unfoldable pub ask_login : Section → Step (Unit {0})
  unfolding ◌>>=◌
  ask_login access = do
    show (title "GetReceipt")
    show (caption "領収書と取得用Google Chromeを保護するため、所有者ログインが必要です。")
    show (button "所有者としてログイン" (login (strip (text_of (value_of access "provider")))))
    library.stop

  -- The hash is shown to its own account only, for the first setup.
  abbrev pub show_hash : Claims → Step (Unit {0})
  show_hash claims =
      if is_empty (identity_hash claims)
      then pure tt
      else (show (
            caption
              "初回設定中の所有者は、次の値をStreamlit Secretsの[app_access].allowed_identity_hashesへ登録してください。この値だけではログインできません。")
          >> show (code_box (identity_hash claims)))

  -- What an account that is not allowed sees.
  unfoldable pub refuse : Claims → Step (Unit {0})
  unfolding ◌>>=◌
  refuse claims = do
    show (error_box "このアカウントはGetReceiptの所有者として許可されていません。")
    show_hash claims
    show (button "ログアウト" logout)
    library.stop

  unfoldable pub check_user : Section → User → Step (Unit {0})
  unfolding refuse is_allowed ◌>>=◌
  check_user access user =
      let claims = claims_of user in
      if is_allowed (allowlists access) claims then pure tt else refuse claims

  -- `if test: _fatal(...)`.
  abbrev pub fatal_if : Bool → Complaint → Step (Unit {0})
  fatal_if test complaint = if test then fatal complaint else pure tt

  abbrev or_oidc : String → String
  or_oidc text = if is_empty text then "oidc" else text

  abbrev pub mode_of : Section → String
  mode_of access = library.lower (strip (or_oidc (text_of (value_of access "mode"))))

  unfoldable pub check_login : Section → Option User → Step (Unit {0})
  unfolding ask_login check_user
  check_login access none = ask_login access
  check_login access (some user) =
      if user.is_logged_in then check_user access user else ask_login access

  unfoldable pub check_issuers : Section → Option User → Step (Unit {0})
  unfolding ◌>>=◌ fatal check_login
  check_issuers access user = do
    fatal_if (no_issuer_allowed (allowlists access)) issuer_allowlist_empty
    check_login access user

  unfoldable pub check_allowlists : Section → Option User → Step (Unit {0})
  unfolding ◌>>=◌ fatal check_issuers
  check_allowlists access user = do
    fatal_if (no_subject_allowed (allowlists access)) allowlist_empty
    check_issuers access user

  unfoldable pub check_access : Section → Option User → Step (Unit {0})
  unfolding ◌>>=◌ fatal check_allowlists
  check_access access user = do
    fatal_if (not (mode_of access == "oidc")) mode_invalid
    check_allowlists access user

  -- `require_owner_access`.
  unfoldable pub require_owner_access :
      (String → Entry) → (String → String) → Option User → Step (Unit {0})
  unfolding ◌>>=◌ check_access fatal sensitive_configured
  require_owner_access secrets getenv user = do
    access ← lift (section_of (secrets "app_access"))
    sensitive ← lift (sensitive_configured secrets getenv)
    elim access [
      | none ↦ fatal_if sensitive not_configured
      | some section ↦ check_access section user
    ]
