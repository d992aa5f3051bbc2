-- ===== src/Auth/Passwords.antt =====
-- src/clipforge/auth/passwords.py. Unicode, Argon2 and bcrypt are parameters; a text is also the
-- list of its code points.
use clipper_ai.Base.{
  ℕ, suc, String, Bool, true, false, not, ◌&&◌, ◌||◌, Option, none, some, List, [], ◌∷◌, ◌==◌,
  if◌then◌else◌, ltb, leb, eqb, length, any, contains, map,
}
use clipper_ai.Base.Text.{text_take}

pub data WeakPassword : Type 0 where
  too_short too_long has_spaces too_common not_varied is_a_pattern has_email : WeakPassword

pub record PasswordPolicy : Type 0 where
  pub min_length : ℕ
  pub max_length : ℕ
  pub deny : List String
  pub reject_email_similarity : Bool

-- What Python's `str` and `unicodedata` do.
pub record Unicode : Type 0 where
  pub code_points : String → List ℕ
  pub encoded_length : String → ℕ
  pub nfkc : String → String
  pub casefold : String → String
  pub strip : String → String
  pub lower : String → String

-- `p in t` on code points
abbrev pub is_prefix : List ℕ → List ℕ → Bool
is_prefix [] ts = true
is_prefix (p ∷ ps) [] = false
is_prefix (p ∷ ps) (t ∷ ts) = eqb p t && is_prefix ps ts

abbrev pub is_within : List ℕ → List ℕ → Bool
is_within ps [] = is_prefix ps []
is_within ps (t ∷ ts) = is_prefix ps (t ∷ ts) || is_within ps ts

abbrev pub has_point : ℕ → List ℕ → Bool
has_point c cs = any (eqb c) cs

-- `len(set(…))`
abbrev pub distinct : List ℕ → ℕ
distinct [] = 0
distinct (c ∷ cs) = let n = distinct cs in if has_point c cs then n else suc n

-- `deltas <= {…}`: every pair of neighbours passes the test.
abbrev pub all_steps : (ℕ → ℕ → Bool) → List ℕ → Bool
all_steps p [] = true
all_steps p (a ∷ []) = true
all_steps p (a ∷ b ∷ cs) = p a b && all_steps p (b ∷ cs)

abbrev pub is_up : ℕ → ℕ → Bool
is_up a b = eqb b (suc a)

abbrev pub is_down : ℕ → ℕ → Bool
is_down a b = eqb a (suc b)

abbrev pub keyboard_rows : List String
keyboard_rows =
    "qwertyuiop" ∷ "poiuytrewq" ∷ "asdfghjkl" ∷ "lkjhgfdsa" ∷ "zxcvbnm" ∷ "mnbvcxz" ∷ "1234567890"
    ∷ "0987654321" ∷ []

-- `split("@")[0]`
abbrev pub before_at : List ℕ → List ℕ
before_at [] = []
before_at (c ∷ cs) = let rest = before_at cs in if eqb c 64 then [] else c ∷ rest

abbrev pub common_passwords : List String
common_passwords =
    "password" ∷ "password1" ∷ "passw0rd" ∷ "letmein" ∷ "welcome" ∷ "iloveyou" ∷ "administrator"
    ∷ "changeme" ∷ "trustno1" ∷ "qwertyuiop" ∷ "1234567890" ∷ "123456789012" ∷ "passwordpassword"
    ∷ "clipforge" ∷ "clipforgeai" ∷ []

module _ (u : Unicode) where
  -- `_is_a_run`
  unfoldable pub is_a_run : String → Bool
  is_a_run value =
      let points = u.code_points value in
      let lowered = u.code_points (u.casefold value) in
      not (ltb (length points) 4)
      && (all_steps is_up points
          || (all_steps is_down points
              || (all_steps eqb points
                  || any (λ row. is_within lowered (u.code_points row)) keyboard_rows)))

  abbrev pub contains_local_part : List ℕ → String → Bool
  contains_local_part folded email =
      let start = u.code_points (u.casefold email) in
      leb 4 (length (before_at start)) && is_within (before_at start) folded

  -- `PasswordPolicy.check`, with no answer for a password that may be used
  unfoldable pub check_policy : PasswordPolicy → String → String → Option WeakPassword
  check_policy policy password email =
      let candidate = u.nfkc password in
      let folded = u.casefold candidate in
      if ltb (length (u.code_points candidate)) policy.min_length
      then some too_short
      else if ltb policy.max_length (u.encoded_length candidate)
      then some too_long
      else if not (u.strip candidate == candidate)
      then some has_spaces
      else if contains folded common_passwords || contains folded (map u.casefold policy.deny)
      then some too_common
      else if ltb (distinct (u.code_points candidate)) 5
      then some not_varied
      else if is_a_run candidate
      then some is_a_pattern
      else if policy.reject_email_similarity
          && (not (email == "") && contains_local_part (u.code_points folded) email)
      then some has_email
      else none

-- What the packages argon2-cffi and bcrypt do, and SHA-256. A salt is drawn for every hash.
pub record Hashing : Type 0 where
  pub argon2_hash : ℕ → String → String
  pub argon2_verify : String → String → Bool
  pub argon2_needs_rehash : String → Bool
  pub bcrypt_check : String → String → Bool
  -- `hash_token`
  pub sha256 : String → String

abbrev pub is_argon2 : String → Bool
is_argon2 stored = text_take 7 stored == "$argon2"

abbrev pub is_bcrypt : String → Bool
is_bcrypt stored = text_take 2 stored == "$2"

module _ (u : Unicode) (h : Hashing) where
  -- `PasswordHasher.hash`
  unfoldable pub hash_password : ℕ → String → String
  hash_password salt password = h.argon2_hash salt (u.nfkc password)

  -- `PasswordHasher.verify`
  unfoldable pub verify_password : String → String → Bool
  verify_password password stored =
      if stored == ""
      then false
      else if is_argon2 stored
      then h.argon2_verify stored (u.nfkc password)
      else if is_bcrypt stored
      then h.bcrypt_check (u.nfkc password) stored
      else false

  -- `PasswordHasher.needs_rehash`
  unfoldable pub needs_rehash : String → Bool
  needs_rehash stored =
      if stored == "" then true else if is_argon2 stored then h.argon2_needs_rehash stored else true

  -- `same_token`
  abbrev pub same_token : String → String → Bool
  same_token presented stored = h.sha256 presented == stored
