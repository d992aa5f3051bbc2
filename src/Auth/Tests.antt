-- ===== src/Auth/Tests.antt =====
-- A service over concrete functions, and the properties of accounts at a concrete state.
use clipper_ai.Base.{
  arith, inr, ◌↔◌, ℕ, ◌/◌, ◌%◌, ◌≡◌, refl, String, true, false, none, some, List, [], ◌∷◌, ◌==◌,
  if◌then◌else◌, seconds, err,
}
use clipper_ai.Base.Dict.{lookup, insert, values}
use clipper_ai.Base.Text.{◌⧺◌, decimal_from}
use clipper_ai.Auth.Types.{
  TokenKind, AuthConfig, TokenPair, invalid_token, invalid_link, invalid_credentials, Identity,
  active, Session, VerificationToken, password_reset, email_verification,
}
use clipper_ai.Auth.Totp.{TotpConfig, verify_totp, hotp, truncate}
use clipper_ai.Auth.Totp.Window.{IsAccepted, verify_totp_iff}
use clipper_ai.Auth.Passwords.{
  Unicode, Hashing, check_policy, is_a_run, hash_password, verify_password,
}
use clipper_ai.Auth.Passwords.{needs_rehash}
use clipper_ai.Auth.Tokens.{AccessTokenIssuer, issue}
use clipper_ai.Auth.Store.{AuthStore, hit_rate_limit, identity_by_email, save_identity}
use clipper_ai.Auth.Core.{AuthService, World, limit, send, normalise_email}
use clipper_ai.Auth.Core.Limits.{let_through, let_through-fresh}
use clipper_ai.Auth.Sessions.{
  refresh, refresh_found, refresh_row, rotate_session, hand_out, token_pair, start_session,
  choose_membership,
}
use clipper_ai.Auth.Sessions.Rotation.{IsRotated, refresh-IsRotated}
use clipper_ai.Auth.Revoking.{log_out_everywhere}
use clipper_ai.Auth.Revoking.Ended.{IsEnded, reset_password-IsEnded, refresh-reuse}
use clipper_ai.Auth.Accounts.{spend_token, spent_at}
use clipper_ai.Auth.Accounts.Spending.{spend_all, spend_token-once}
use clipper_ai.Auth.Credentials.{reset_password, finish_reset}
use clipper_ai.Auth.Challenge.{LoginResult}
use clipper_ai.Auth.Login.{
  log_in, store_identity, log_in_as, welcome, second_step, upgrade_hash, enter,
}
use clipper_ai.Auth.Login.SecondFactor.{IsPassed, log_in-IsPassed}
use clipper_ai.Auth.Login.Refusals.{log_in-refused}
use clipper_ai.Auth.History.{Evolves}
use clipper_ai.Auth.History.Calls.{
  Call, refreshes, signs_up, logs_out_everywhere, run_all, KeepsBounds, run_all-Evolves,
  run_all-revoked, run_all-KeepsBounds,
}

abbrev unicode : Unicode
unicode = record {
  code_points = λ t. if t == "correct horse" then 1 ∷ 5 ∷ 2 ∷ 9 ∷ 4 ∷ [] else [];
  encoded_length = λ _. 20;
  nfkc = λ t. t;
  casefold = λ t. t;
  strip = λ t. t;
  lower = λ t. t;
}

abbrev hashing : Hashing
hashing = record {
  argon2_hash = λ salt t. "$argon2" ⧺ t;
  argon2_verify = λ stored t. stored == ("$argon2" ⧺ t);
  argon2_needs_rehash = λ _. false;
  bcrypt_check = λ _ _. false;
  sha256 = λ t. "#" ⧺ t;
}

abbrev totp_config : TotpConfig
totp_config = record { step_s = 30; digits = 6; drift = 1; algorithm = "sha1" }

abbrev config : AuthConfig
config = record {
  access_ttl_s = 900;
  refresh_ttl_s = 1209600;
  session_max_s = 7776000;
  verification_ttl_s = 86400;
  reset_ttl_s = 1800;
  deletion_grace_s = 2592000;
  max_failed_attempts = 10;
  lockout_s = 900;
  mfa_issuer = "ClipForge AI";
  totp_config = totp_config;
  require_verified_email = true;
  password_algorithm = "argon2id";
  rate_limits = ("login_ip", (20, 300)) ∷ ("refresh", (120, 60)) ∷ [];
  verification_url = "https://app/verify";
  reset_url = "https://app/reset";
  signup_message = "Check your inbox.";
}

abbrev mac : String → String → ℕ → List ℕ
mac algorithm secret counter =
    0
    ∷ 0
    ∷ counter / 256
    ∷ counter % 256
    ∷ 0
    ∷ 0
    ∷ 0
    ∷ 0
    ∷ 0
    ∷ 0
    ∷ 0
    ∷ 0
    ∷ 0
    ∷ 0
    ∷ 0
    ∷ 0
    ∷ 0
    ∷ 0
    ∷ 0
    ∷ 0
    ∷ []

abbrev issuer : AccessTokenIssuer
issuer = record {
  jwt = record {
    encode = λ c secret kid. "jwt";
    header_kid = λ _. none;
    decode = λ _ _ _ _ _. none;
  };
  keyring = record { signing = record { kid = "k"; secret = "s" }; others = [] };
  issuer = "clipforge";
  audience = "clipforge-api";
  ttl_s = 900;
  leeway_s = 10;
}

abbrev service : AuthService
service = record {
  config = config;
  policy = record { min_length = 3; max_length = 1024; deny = []; reject_email_similarity = true };
  unicode = unicode;
  hashing = hashing;
  mac = mac;
  issuer = issuer;
  hex = λ _. "x";
  opaque = λ _. "fresh";
  totp_secret = λ _. "SECRET";
  recovery_bytes = λ n. n;
  delivers = λ _. true;
  provisioner = none;
  normalise_code = λ t. t;
  normalise_recovery_code = λ t. t;
  quote = λ t. t;
}

abbrev ada : Identity
ada = record {
  identity_id = "idn_a";
  email = "ada@x.y";
  password_hash = "$argon2pass";
  password_algo = "argon2id";
  status = active;
  email_verified_at = some 1;
  failed_attempts = 0;
  locked_until = none;
  last_login_at = none;
  delete_after = none;
  created_at = 1;
  updated_at = 1;
}

abbrev session : Session
session = record {
  session_id = "ses_a";
  identity_id = "idn_a";
  token_hash = "#now";
  previous_hash = "#then";
  tenant_id = "";
  device_id = "";
  user_agent = "";
  ip = "";
  mfa_satisfied = false;
  issued_at = 1;
  expires_at = some 1209600000001;
  absolute_expires_at = some 7776000000001;
  revoked_at = none;
  revoked_reason = "";
  rotations = 1;
}

abbrev reset_token : VerificationToken
reset_token = record {
  token_id = "tok_a";
  identity_id = "idn_a";
  kind = password_reset;
  token_hash = "#link";
  expires_at = 1800000000;
  created_at = 1;
  used_at = none;
  requested_ip = "";
}

abbrev store : AuthStore
store = record {
  identities = ("idn_a", ada) ∷ [];
  by_email = ("ada@x.y", "idn_a") ∷ [];
  members = [];
  sessions = ("ses_a", session) ∷ [];
  tokens = ("tok_a", reset_token) ∷ [];
  factors = [];
  recovery = [];
  devices = [];
  buckets = [];
  events = [];
}

abbrev world : World
world = record { store = store; drawn = 0; outbox = [] }

abbrev day : ℕ → String
day t = "a day"

abbrev revoked_session : Session
revoked_session = record session { revoked_at = some 2; revoked_reason = "signed out" }

abbrev revoked_world : World
revoked_world = record world { store = record store { sessions = ("ses_a", revoked_session) ∷ [] } }

abbrev history : List Call
history =
    refreshes "now" (seconds 60) "" ""
    ∷ signs_up "bob@x.y" "correct horse" (seconds 61) "" ""
    ∷ refreshes "now" (seconds 62) "" ""
    ∷ logs_out_everywhere "idn_a" (seconds 63) "" "signed out everywhere"
    ∷ []

verify_totp_iff_example :
    (verify_totp mac (λ t. t) totp_config "SECRET" "000002" (seconds 60) (some 1) ≡ some 2)
    ↔ IsAccepted mac (λ t. t) totp_config "SECRET" "000002" (seconds 60) (some 1) 2
verify_totp_iff_example =
    verify_totp_iff mac (λ t. t) totp_config "SECRET" "000002" (seconds 60) 2 (some 1)

accepted_once :
    verify_totp mac (λ t. t) totp_config "SECRET" "000002" (seconds 60) (some 1) ≡ some 2
unfolding verify_totp hotp truncate decimal_from
accepted_once = refl

refused_again : verify_totp mac (λ t. t) totp_config "SECRET" "000002" (seconds 75) (some 2) ≡ none
unfolding verify_totp hotp truncate decimal_from
refused_again = refl

run_all-Evolves_example :
    (t : Session) × (lookup "ses_a" (run_all service day history world).store.sessions ≡ some t)
    × Evolves service session t
unfolding lookup
run_all-Evolves_example =
    run_all-Evolves service day "ses_a" session world (refl, refl, tt) refl (λ n m. refl) history

run_all-revoked_example :
    lookup "ses_a" (run_all service day history revoked_world).store.sessions ≡ some revoked_session
unfolding lookup
run_all-revoked_example =
    run_all-revoked service day "ses_a" revoked_session revoked_world (refl, refl, tt) refl
      (λ n m. refl) history refl

run_all-KeepsBounds_example :
    (t : Session) × (lookup "ses_a" (run_all service day history world).store.sessions ≡ some t)
    × KeepsBounds service day session t
unfolding lookup
run_all-KeepsBounds_example =
    run_all-KeepsBounds service day "ses_a" session world (refl, refl, tt) refl (λ n m. refl)
      history

abbrev reset_ada : Identity
reset_ada = record ada { password_hash = "$argon2correct horse"; updated_at = seconds 60 }

reset_password-IsEnded_example :
    IsEnded "idn_a" (reset_password service "link" "correct horse" (seconds 60) "" world).1
unfolding reset_password spend_token finish_reset store_identity check_policy is_a_run hash_password
    lookup values insert limit log_out_everywhere send save_identity
reset_password-IsEnded_example =
    reset_password-IsEnded service "link" "correct horse" (seconds 60) "" world reset_ada refl

abbrev counted_refresh : World
counted_refresh = record world {
  store = record store {
    buckets =
        record {
          key = "refresh:anonymous";
          action = "refresh";
          window_started_at = seconds 60;
          count = 1;
        }
        ∷ [];
  };
}

refresh-reuse_example :
    ((refresh service "then" (seconds 60) "" "" world).0
      ≡ err (invalid_token "refresh token reuse"))
    × IsEnded "idn_a" (refresh service "then" (seconds 60) "" "" world).1
unfolding limit lookup values hit_rate_limit
refresh-reuse_example =
    refresh-reuse service "then" (seconds 60) "" "" world counted_refresh session refl
      (refl, refl, tt) refl refl

abbrev new_pair : TokenPair
new_pair = record {
  access_token = "jwt";
  refresh_token = "fresh";
  expires_in_s = 900;
  session_id = "ses_a";
  tenant_id = "";
}

refresh-IsRotated_example :
    (("#now" == session.token_hash) ≡ true)
    × IsRotated service
        (seconds 60)
        session
        new_pair
        (refresh service "now" (seconds 60) "" "" world).1
unfolding limit lookup values hit_rate_limit refresh refresh_found refresh_row rotate_session
    hand_out token_pair issue
refresh-IsRotated_example =
    refresh-IsRotated service (seconds 60) "now" "" "" world counted_refresh session new_pair refl
      (refl, refl, tt) refl refl

abbrev between : List (String × (TokenKind × ℕ))
between = ("link", (password_reset, seconds 61)) ∷ ("other", (email_verification, seconds 62)) ∷ []

spend_token-once_example :
    let w' =
      spend_all service between (spend_token service "link" password_reset (seconds 60) world).1 in
    spend_token service "link" email_verification (seconds 63) w' ≡ (err invalid_link, w')
unfolding lookup values spend_token
spend_token-once_example =
    spend_token-once service "link" password_reset email_verification (seconds 60) (seconds 63)
      world (spent_at (seconds 60) reset_token) between (refl, refl, tt) refl

abbrev strict : AuthService
strict = record service {
  config = record service.config { rate_limits = ("login_ip", (2, 300)) ∷ [] };
}

let_through-fresh_example :
    let_through strict "login_ip" "a" "" "" (seconds 1 ∷ seconds 2 ∷ seconds 300 ∷ []) world ≡ 2
unfolding lookup
let_through-fresh_example =
    let_through-fresh strict "login_ip" "a" "" "" 2 300 refl (seconds 1)
      (seconds 2 ∷ seconds 300 ∷ []) world refl (omega arith, (omega arith, tt))

abbrev counted_login : World
counted_login = record world {
  store = record store {
    buckets =
        record {
          key = "login_ip:anonymous";
          action = "login_ip";
          window_started_at = seconds 60;
          count = 1;
        }
        ∷ [];
  };
}

log_in-refused_example :
    ((log_in service "ada@x.y" "guess" "" (seconds 60) "" "" "" world).0 ≡ err invalid_credentials)
    × ((log_in service "ada@x.y" "guess" "" (seconds 60) "" "" "" world).1.store.sessions
        ≡ counted_login.store.sessions)
unfolding limit lookup hit_rate_limit identity_by_email normalise_email verify_password
log_in-refused_example =
    log_in-refused service "ada@x.y" "guess" "" (seconds 60) "" "" "" world counted_login
      counted_login refl refl (refl, inr refl)

abbrev ada_in : LoginResult
ada_in = record {
  tokens = some (record {
    access_token = "jwt";
    refresh_token = "fresh";
    expires_in_s = 900;
    session_id = "ses_x";
    tenant_id = "";
  });
  identity = record ada { last_login_at = some (seconds 60); updated_at = seconds 60 };
  joined = [];
  unverified = false;
  mfa = none;
}

log_in-IsPassed_example :
    IsPassed service ada_in (log_in service "ada@x.y" "pass" "" (seconds 60) "" "" "" world).1
unfolding limit lookup values insert hit_rate_limit identity_by_email normalise_email
    verify_password needs_rehash log_in log_in_as welcome second_step store_identity save_identity
    upgrade_hash enter start_session token_pair choose_membership issue
log_in-IsPassed_example =
    log_in-IsPassed service "ada@x.y" "pass" "" (seconds 60) "" "" "" world ada_in refl
