-- ===== src/Auth/Totp.antt =====
-- src/clipforge/auth/totp.py. The authentication code, the decoding of a secret and the clean-up of
-- what a person types are parameters; a digest is a list of bytes.
pub mod Window
use clipper_ai.Base.{
  ℕ, zero, suc, ◌+◌, ◌-◌, ◌*◌, ◌/◌, ◌%◌, ◌^◌, String, Bool, true, false, not, Option, none, some,
  List, [], ◌∷◌, ◌==◌, if◌then◌else◌, ltb, leb, eqb, length, drop,
}
use clipper_ai.Base.Text.{decimal, characters, ◌⧺◌}

pub record TotpConfig : Type 0 where
  pub step_s : ℕ
  pub digits : ℕ
  pub drift : ℕ
  pub algorithm : String

-- `struct.unpack(">I", …)` on four bytes
abbrev pub big_endian : ℕ → List ℕ → ℕ
big_endian n [] = n
big_endian n (b ∷ bs) = big_endian (n * 256 + b) bs

abbrev pub first_four : List ℕ → List ℕ
first_four (a ∷ b ∷ c ∷ d ∷ _) = a ∷ b ∷ c ∷ d ∷ []
first_four bs = bs

-- `digest[-1]`
abbrev pub last_byte : List ℕ → ℕ
last_byte [] = 0
last_byte (b ∷ []) = b
last_byte (_ ∷ b ∷ bs) = last_byte (b ∷ bs)

-- The window of four bytes that the last byte's low nibble selects, less its top bit.
unfoldable pub truncate : List ℕ → ℕ
truncate digest = big_endian 0 (first_four (drop (last_byte digest % 16) digest)) % 2147483648

abbrev pub zeros : ℕ → String
zeros zero = ""
zeros (suc n) = "0" ⧺ zeros n

-- `t.zfill(n)` on digits
abbrev pub zfill : ℕ → String → String
zfill n t = zeros (n - characters t) ⧺ t

-- `hmac.new(key, counter, algorithm).digest()`
abbrev pub Mac : Type 0
Mac = String → String → ℕ → List ℕ

module _ (mac : Mac) where
  -- `hotp`
  unfoldable pub hotp : String → ℕ → TotpConfig → String
  hotp secret counter config =
      zfill config.digits
        (decimal (truncate (mac config.algorithm secret counter) % 10 ^ config.digits))

-- `counter_for` of an instant in microseconds
abbrev pub counter_for : ℕ → TotpConfig → ℕ
counter_for at config = at / (config.step_s * 1000000)

-- The candidates of the loop: `n` of them from the counter `centre - drift + k` on, those below
-- zero left out.
abbrev pub candidates : ℕ → ℕ → ℕ → ℕ → List ℕ
candidates centre drift k zero = []
candidates centre drift k (suc n) =
    let rest = candidates centre drift (suc k) n in
    if ltb (centre + k) drift then rest else ((centre + k) - drift) ∷ rest

-- The loop: the first counter whose code was typed.
abbrev pub first_match : (ℕ → Bool) → List ℕ → Option ℕ
first_match p [] = none
first_match p (c ∷ cs) = let rest = first_match p cs in if p c then some c else rest

-- `matched <= last_counter`
abbrev pub is_replayed : ℕ → Option ℕ → Bool
is_replayed counter none = false
is_replayed counter (some last) = leb counter last

abbrev pub unless_replayed : Option ℕ → Option ℕ → Option ℕ
unless_replayed last none = none
unless_replayed last (some counter) = if is_replayed counter last then none else some counter

module _ (mac : Mac) (normalise_code : String → String) where
  -- `verify_totp` at an instant in microseconds
  unfoldable pub verify_totp : TotpConfig → String → String → ℕ → Option ℕ → Option ℕ
  verify_totp config secret code at last =
      let digits = normalise_code code in
      if eqb (characters digits) config.digits
      then unless_replayed last (
          first_match (λ c. hotp mac secret c config == digits)
            (candidates (counter_for at config) config.drift 0 (2 * config.drift + 1)))
      else none
