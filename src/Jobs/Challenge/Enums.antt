-- ===== src/Jobs/Challenge/Enums.antt =====
-- cloud/src/jobs/models.py: the kinds of challenge and of input, with the texts that store them.
use get_receipt.Base.{String, string_eq}

pub data ChallengeType : Type 0 where
  otp_sms otp_email otp_totp security_code push_approval captcha_interactive : ChallengeType
  consent_interactive passkey_hybrid passkey_platform passkey_unavailable : ChallengeType
  magic_link security_question consent unknown other : ChallengeType

abbrev pub type_value : ChallengeType → String
type_value otp_sms = "otp_sms"
type_value otp_email = "otp_email"
type_value otp_totp = "otp_totp"
type_value security_code = "security_code"
type_value push_approval = "push_approval"
type_value captcha_interactive = "captcha_interactive"
type_value consent_interactive = "consent_interactive"
type_value passkey_hybrid = "passkey_hybrid"
type_value passkey_platform = "passkey_platform"
type_value passkey_unavailable = "passkey_unavailable"
type_value magic_link = "magic_link"
type_value security_question = "security_question"
type_value consent = "consent"
type_value unknown = "unknown"
type_value other = "other"

pub data InputType : Type 0 where
  no_input code text action_only remote_browser : InputType

abbrev pub input_value : InputType → String
input_value no_input = "none"
input_value code = "code"
input_value text = "text"
input_value action_only = "action_only"
input_value remote_browser = "remote_browser"
