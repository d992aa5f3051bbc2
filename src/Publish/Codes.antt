-- ===== src/Publish/Codes.antt =====
-- The error codes that src/clipforge/publish/retry.py sorts responses by, and how it finds the code
-- and the message of a response.
use clipper_ai.Base.{
  String, Bool, ◌||◌, Option, none, some, List, [], ◌∷◌, ◌==◌, if◌then◌else◌, contains,
}
use clipper_ai.Base.Json.{Json, str, arr, obj, cons, Fields, get_field}
use clipper_ai.Publish.Types.{Response}

abbrev pub permanent_codes : List String
permanent_codes =
    "spam_risk_too_many_posts" ∷ "spam_risk_user_banned_from_posting" ∷ "reached_active_user_cap"
    ∷ "unaudited_client_can_only_post_to_private_accounts" ∷ "url_ownership_unverified"
    ∷ "privacy_level_option_mismatch" ∷ "invalid_file_upload" ∷ "video_pull_failed"
    ∷ "invalidVideoMetadata" ∷ "invalidTitle" ∷ "invalidDescription" ∷ "invalidCategoryId"
    ∷ "mediaBodyRequired" ∷ "forbidden" ∷ "uploadLimitExceeded" ∷ "media_type_mismatch"
    ∷ "unsupported_format" ∷ "aspect_ratio_not_supported" ∷ "video_too_long" ∷ "permission_denied"
    ∷ []

abbrev pub auth_codes : List String
auth_codes =
    "access_token_invalid" ∷ "invalid_grant" ∷ "invalid_token" ∷ "token_expired"
    ∷ "unauthorized_client" ∷ "authenticationFailure" ∷ "scope_not_authorized" ∷ "OAuthException"
    ∷ []

abbrev pub quota_codes : List String
quota_codes =
    "quotaExceeded" ∷ "dailyLimitExceeded" ∷ "application_rate_limit_exceeded"
    ∷ "rate_limit_exceeded" ∷ "spam_risk_too_many_pending_share" ∷ []

-- Membership in one of the three sets, kept folded in proofs.
unfoldable pub is_permanent : String → Bool
is_permanent code = contains code permanent_codes

unfoldable pub is_auth : String → Bool
is_auth code = contains code auth_codes

unfoldable pub is_quota : String → Bool
is_quota code = contains code quota_codes

-- `isinstance(value, str) and value`, and not the word that is passed over
abbrev pub text_but : String → Option Json → Option String
text_but skip (some (str t)) = if t == "" || t == skip then none else some t
text_but skip _ = none

-- The first field of an object that holds a text.
unfoldable pub first_text : String → List String → Fields → Option String
first_text skip [] fs = none
first_text skip (f ∷ names) fs = elim (text_but skip (get_field f fs)) [
  | some t ↦ some t
  | none ↦ first_text skip names fs
]

-- `errors[0].get("reason")` where it is a text, also an empty one
abbrev pub text_of : Option Json → Option String
text_of (some (str t)) = some t
text_of _ = none

abbrev pub first_reason : Option Json → Option String
first_reason (some (arr (cons (obj fs) rest))) = text_of (get_field "reason" fs)
first_reason _ = none

abbrev pub or_else : Option String → Option String → Option String
or_else none b = b
or_else (some t) b = some t

abbrev pub text_or_empty : Option String → String
text_or_empty none = ""
text_or_empty (some t) = t

-- The code in the field `error`
abbrev pub envelope_code : Option Json → Option String
envelope_code (some (obj fs)) =
    or_else (first_text "ok" ("code" ∷ "type" ∷ "error_type" ∷ []) fs)
      (first_reason (get_field "errors" fs))
envelope_code (some (str t)) = if t == "" then none else some t
envelope_code _ = none

-- `_extract_code`
unfoldable pub extract_code : Response → String
extract_code r = text_or_empty (
    or_else (envelope_code (get_field "error" r.body))
      (first_text "" ("error_code" ∷ "code" ∷ []) r.body))

abbrev pub envelope_message : Option Json → Option String
envelope_message (some (obj fs)) =
    first_text "" ("message" ∷ "error_user_msg" ∷ "error_description" ∷ []) fs
envelope_message _ = none

-- `_extract_message`
unfoldable pub extract_message : Response → String
extract_message r = text_or_empty (
    or_else (envelope_message (get_field "error" r.body))
      (first_text "" ("message" ∷ "error_description" ∷ []) r.body))
