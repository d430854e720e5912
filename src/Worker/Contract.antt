-- ===== src/Worker/Contract.antt =====
-- `_challenge_contract` of cloud/src/workers/runner.py: what the owner is asked for.
use get_receipt.Base.{ℕ, String, true, false, none, some, ◌==◌, string_eq, if◌then◌else◌, not}
use get_receipt.Jobs.Challenge.{InputSchema}
use get_receipt.Jobs.Challenge.Enums.{
  ChallengeType, captcha_interactive, consent_interactive, push_approval, passkey_unavailable,
  unknown, security_code, otp_email, code, remote_browser,
}

abbrev interactive_type : String → ChallengeType
interactive_type kind =
    if kind == "captcha"
    then captcha_interactive
    else if kind == "interactive"
    then consent_interactive
    else if kind == "consent"
    then consent_interactive
    else if kind == "push_approval"
    then push_approval
    else if kind == "passkey_unavailable"
    then passkey_unavailable
    else unknown

abbrev code_schema : String → ℕ → ℕ → String → InputSchema
code_schema label lo hi pattern = record {
  input_type = code;
  label = label;
  required = true;
  min_length = some lo;
  max_length = some hi;
  pattern = some pattern;
  autocomplete = some "one-time-code";
}

abbrev browser_schema : InputSchema
browser_schema = record {
  input_type = remote_browser;
  label = "同じGoogle ChromeをiPhoneから操作";
  required = false;
  min_length = none;
  max_length = none;
  pattern = none;
  autocomplete = none;
}

abbrev code_contract : String → ChallengeType × InputSchema
code_contract service_id =
    if service_id == "epos"
    then (security_code, code_schema "カード裏面などに記載された3桁のセキュリティコード" 3 3 "^[0-9]{3}$")
    else if service_id == "commufa"
    then (otp_email, code_schema "メールに届いた6桁の確認コード" 6 6 "^[0-9]{6}$")
    else if service_id == "mobile"
    then (otp_email, code_schema "メールまたはSMSに届いた確認コード" 4 8 "^[0-9]{4,8}$")
    else (otp_email, code_schema "確認コード" 4 8 "^[0-9]{4,8}$")

unfoldable pub challenge_contract : String → String → ChallengeType × InputSchema
challenge_contract service_id kind =
    if not (kind == "verification_code")
    then (interactive_type kind, browser_schema)
    else code_contract service_id
