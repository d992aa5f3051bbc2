-- ===== src/Auth/Mfa.antt =====
-- src/clipforge/auth/mfa.py: enrolment, recovery codes, and the challenge of a login.
use clipper_ai.Base.{
  ℕ, zero, suc, ◌/◌, ◌%◌, String, Bool, true, false, not, Option, none, some, List, [], ◌∷◌, ◌++◌,
  ◌==◌, if◌then◌else◌, length, filter, take, drop, map, pure, raise, is_some, ◌>>=◌, ◌>>◌,
}
use clipper_ai.Base.Dict.{lookup}
use clipper_ai.Base.Text.{◌⧺◌, text_take, text_or, digit_of}
use clipper_ai.Auth.Types.{
  not_found, already_confirmed, invalid_code, mfa_not_enabled, Identity, MfaFactor, MfaKind, totp,
  is_confirmed, RecoveryCode, spent, mfa_enrolment_started, mfa_enabled, mfa_disabled, mfa_failed,
}
use clipper_ai.Auth.Totp.{verify_totp}
use clipper_ai.Auth.Store.{
  AuthStore, factors_for, save_factor, delete_factor, replace_recovery_codes, recovery_codes_for,
}
use clipper_ai.Auth.Core.{
  AuthService, Auth, read, update, draw, require, event, audit, send, limit, Mail,
  mfa_enabled_email, mfa_disabled_email,
}

abbrev pub recovery_code_count : ℕ
recovery_code_count = 10

abbrev pub challenge_ttl_s : ℕ
challenge_ttl_s = 300

abbrev pub alphabet : String
alphabet = "ABCDEFGHJKLMNPQRSTUVWXYZ23456789"

-- The ten digits of a number in base 32, the last one first in the loop.
unfoldable pub code_digits : ℕ → ℕ → List ℕ
code_digits zero value = []
code_digits (suc n) value = code_digits n (value / 32) ++ (value % 32 ∷ [])

abbrev pub spell : List ℕ → String
spell [] = ""
spell (d ∷ ds) = digit_of alphabet d ⧺ spell ds

-- `format_recovery_code` of the number that the bytes stand for
unfoldable pub format_recovery_code : ℕ → String
format_recovery_code value =
    let digits = code_digits 10 value in spell (take 5 digits) ⧺ "-" ⧺ spell (drop 5 digits)

abbrev pub active_factors : String → AuthStore → List MfaFactor
active_factors id s = filter is_confirmed (factors_for id s)

abbrev pub is_empty : {A : Type 0} → List A → Bool
is_empty [] = true
is_empty (x ∷ xs) = false

abbrev pub mfa_required : String → AuthStore → Bool
mfa_required id s = not (is_empty (active_factors id s))

abbrev pub recovery_codes_remaining : String → AuthStore → ℕ
recovery_codes_remaining id s =
    length (filter (λ (c : RecoveryCode). not (spent c)) (recovery_codes_for id s))

-- `delete_factor` for each of some factors
abbrev pub delete_factors : List MfaFactor → AuthStore → AuthStore
delete_factors [] s = s
delete_factors (f ∷ fs) s = delete_factors fs (delete_factor f.factor_id s)

abbrev pub is_abandoned : MfaFactor → Bool
is_abandoned f = not (is_confirmed f)

-- `_send_safely` to an identity that may be gone
abbrev pub send_safely : AuthService → ℕ → (String → Mail) → Option Identity → Auth (Unit {0})
send_safely service now builder none = pure tt
send_safely service now builder (some identity) = send service now (builder identity.email)

pub record EnrolmentStarted : Type 0 where
  pub factor_id : String
  pub secret : String
  pub uri : String

pub record MfaChallenge : Type 0 where
  pub challenge_token : String
  pub identity_id : String
  pub expires_at : ℕ
  pub kinds : List MfaKind
  pub recovery_available : Bool

abbrev pub owned_factor : String → Option MfaFactor → Option MfaFactor
owned_factor id none = none
owned_factor id (some f) = if f.identity_id == id then some f else none

module _ (service : AuthService) where
  -- `provisioning_uri` of totp.py with the default settings
  unfoldable pub provisioning_uri : String → String → String → String
  provisioning_uri secret account issuer =
      "otpauth://totp/"
      ⧺ service.quote (issuer ⧺ ":" ⧺ account)
      ⧺ "?secret="
      ⧺ secret
      ⧺ "&issuer="
      ⧺ service.quote issuer
      ⧺ "&algorithm=SHA1&digits=6&period=30"

  -- `begin_enrolment`
  unfoldable pub begin_enrolment : String → String → ℕ → String → Auth EnrolmentStarted
  begin_enrolment id label now ip = do
    limit service "mfa_enrol" id now ip ""
    found ← read (λ (s : AuthStore). lookup id s.identities)
    identity ← require not_found found
    held ← read (factors_for id)
    update (delete_factors (filter is_abandoned held))
    secret ← draw service.totp_secret
    hex ← draw service.hex
    update (
        save_factor (record {
          factor_id = "mfa_" ⧺ hex;
          identity_id = id;
          kind = totp;
          label = text_or (text_take 60 label) "Authenticator app";
          secret = secret;
          created_at = now;
          confirmed_at = none;
          last_used_at = none;
          last_counter = none;
        }))
    audit (record (event mfa_enrolment_started now) {
      identity_id = id;
      email = identity.email;
      ip = ip;
    })
    pure (record {
      factor_id = "mfa_" ⧺ hex;
      secret = secret;
      uri = provisioning_uri secret identity.email service.config.mfa_issuer;
    })

  abbrev pub recovery_record : String → ℕ → String → String → RecoveryCode
  recovery_record id now code hex = record {
    code_id = "rec_" ⧺ hex;
    identity_id = id;
    code_hash = service.hashing.sha256 (service.normalise_recovery_code code);
    created_at = now;
    used_at = none;
    used_ip = "";
  }

  -- One turn of the loop of `_issue_recovery_codes`.
  unfoldable pub make_code : String → ℕ → Auth (String × RecoveryCode)
  make_code id now = do
    value ← draw service.recovery_bytes
    hex ← draw service.hex
    pure (format_recovery_code value, recovery_record id now (format_recovery_code value) hex)

  -- The loop of `_issue_recovery_codes`.
  unfoldable pub make_codes : ℕ → String → ℕ → Auth (List (String × RecoveryCode))
  make_codes zero id now = pure []
  make_codes (suc n) id now = do
    made ← make_code id now
    rest ← make_codes n id now
    pure (made ∷ rest)

  -- `_issue_recovery_codes`
  unfoldable pub issue_recovery_codes : String → ℕ → Auth (List String)
  issue_recovery_codes id now = do
    made ← make_codes recovery_code_count id now
    update (replace_recovery_codes id (map (λ (c : String × RecoveryCode). c.1) made))
    pure (map (λ (c : String × RecoveryCode). c.0) made)

  -- `confirm_enrolment`
  unfoldable pub confirm_enrolment :
      String → String → String → ℕ → String → Auth (MfaFactor × List String)
  confirm_enrolment id factor_id code now ip = do
    limit service "mfa_confirm" id now ip ""
    found ← read (λ (s : AuthStore). lookup factor_id s.factors)
    factor ← require not_found (owned_factor id found)
    if is_confirmed factor then raise already_confirmed else pure tt
    let matched =
        verify_totp service.mac service.normalise_code service.config.totp_config factor.secret code
          now none
    if is_some matched
        then pure tt
        else audit (record (event mfa_failed now) {
          identity_id = id;
          ip = ip;
          succeeded = false;
          detail = "enrolment code did not match";
        })
    counter ← require invalid_code matched
    let confirmed : MfaFactor = record factor {
      confirmed_at = some now;
      last_used_at = some now;
      last_counter = some counter;
    }
    update (save_factor confirmed)
    codes ← issue_recovery_codes id now
    audit (record (event mfa_enabled now) { identity_id = id; ip = ip })
    owner ← read (λ (s : AuthStore). lookup id s.identities)
    send_safely service now mfa_enabled_email owner
    pure (confirmed, codes)

  -- `disable_mfa`
  unfoldable pub disable_mfa : String → ℕ → String → Auth ℕ
  disable_mfa id now ip = do
    held ← read (factors_for id)
    update (delete_factors held)
    update (replace_recovery_codes id [])
    if is_empty held then pure tt else do
      audit (record (event mfa_disabled now) { identity_id = id; ip = ip })
      owner ← read (λ (s : AuthStore). lookup id s.identities)
      send_safely service now mfa_disabled_email owner
    pure (length held)

  -- `regenerate_recovery_codes`
  unfoldable pub regenerate_recovery_codes : String → ℕ → String → Auth (List String)
  regenerate_recovery_codes id now ip = do
    limit service "mfa_recovery_regen" id now ip ""
    required ← read (mfa_required id)
    if required then issue_recovery_codes id now else raise mfa_not_enabled
