-- ===== src/Auth/Tokens.antt =====
-- src/clipforge/auth/tokens.py. What PyJWT does is a parameter: `encode` signs claims, and
-- `decode` checks a token by the clock of its host and reads its claims.
use clipper_ai.Base.{
  ℕ, ◌+◌, ◌/◌, String, Option, none, some, List, ◌∷◌, ◌==◌, if◌then◌else◌, seconds,
}
use clipper_ai.Auth.Store.{find}

pub record SigningKey : Type 0 where
  pub kid : String
  pub secret : String

-- A ring has a first key, which signs, and others, which still verify.
pub record Keyring : Type 0 where
  pub signing : SigningKey
  pub others : List SigningKey

abbrev pub by_kid : String → Keyring → Option SigningKey
by_kid kid ring = find (λ (k : SigningKey). k.kid == kid) (ring.signing ∷ ring.others)

-- The claims, with their times in whole seconds.
pub record Claims : Type 0 where
  pub iss : String
  pub aud : String
  pub sub : String
  pub iat : ℕ
  pub nbf : ℕ
  pub exp : ℕ
  pub jti : String
  pub email : String
  pub tid : String
  pub uid : String
  pub role : String
  pub sid : String

pub record Principal : Type 0 where
  pub identity_id : String
  pub email : String
  pub tenant_id : String
  pub user_id : String
  pub role : String
  pub session_id : String
  pub issued_at : ℕ
  pub expires_at : ℕ
  pub jti : String

pub record Jwt : Type 0 where
  pub encode : Claims → String → String → String
  pub header_kid : String → Option String
  -- token, secret, issuer, audience and leeway
  pub decode : String → String → String → String → ℕ → Option Claims

pub record AccessTokenIssuer : Type 0 where
  pub jwt : Jwt
  pub keyring : Keyring
  pub issuer : String
  pub audience : String
  pub ttl_s : ℕ
  pub leeway_s : ℕ

-- What a token is issued for.
pub record Grant : Type 0 where
  pub identity_id : String
  pub email : String
  pub tenant_id : String
  pub user_id : String
  pub role : String
  pub session_id : String

-- `int(….timestamp())`
abbrev pub whole_seconds : ℕ → ℕ
whole_seconds t = t / 1000000

-- `AccessTokenIssuer.issue`: the token, and the moment it stops being valid
unfoldable pub issue : AccessTokenIssuer → String → Grant → ℕ → String × ℕ
issue i jti g now =
    let expires = now + seconds i.ttl_s in
    (
      i.jwt.encode
          (record {
            iss = i.issuer;
            aud = i.audience;
            sub = g.identity_id;
            iat = whole_seconds now;
            nbf = whole_seconds now;
            exp = whole_seconds expires;
            jti = jti;
            email = g.email;
            tid = g.tenant_id;
            uid = g.user_id;
            role = g.role;
            sid = g.session_id;
          })
          i.keyring.signing.secret i.keyring.signing.kid,
      expires,
    )

abbrev pub principal_of : Claims → Principal
principal_of c = record {
  identity_id = c.sub;
  email = c.email;
  tenant_id = c.tid;
  user_id = c.uid;
  role = c.role;
  session_id = c.sid;
  issued_at = seconds c.iat;
  expires_at = seconds c.exp;
  jti = c.jti;
}

abbrev pub principal_from : Option Claims → Option Principal
principal_from none = none
principal_from (some c) = some (principal_of c)

abbrev pub decode_with : AccessTokenIssuer → String → Option SigningKey → Option Principal
decode_with i token none = none
decode_with i token (some key) =
    principal_from (i.jwt.decode token key.secret i.issuer i.audience i.leeway_s)

abbrev pub verify_header : AccessTokenIssuer → String → Option String → Option Principal
verify_header i token none = none
verify_header i token (some kid) = decode_with i token (by_kid kid i.keyring)

-- `AccessTokenIssuer.verify`, with no answer for `InvalidToken`. The source takes an instant too
-- and does not use it.
unfoldable pub verify_token : AccessTokenIssuer → String → Option Principal
verify_token i token = if token == "" then none else verify_header i token (i.jwt.header_kid token)
