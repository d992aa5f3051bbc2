-- ===== src/Auth/Store.antt =====
-- src/clipforge/auth/store.py: `MemoryAuthStore`. It hands out and takes copies, so that its rows
-- are values, and every method holds its lock, so that each is one step.
use clipper_ai.Base.{
  ◌≡◌, arith, Occurs, ℕ, ◌+◌, ◌-◌, String, Bool, true, not, ◌&&◌, ◌||◌, Option, none, some, List,
  [], ◌∷◌, ◌++◌, ◌==◌, if◌then◌else◌, leb, length, filter, drop, seconds, is_some,
}
use clipper_ai.Base.Dict.{Dict, lookup, insert, erase, values, map_values}
use clipper_ai.Auth.Types.{
  Identity, is_pending_deletion, is_past, Membership, Session, VerificationToken, TokenKind,
  same_kind, MfaFactor, RecoveryCode, Device, AuthEvent,
}

-- A bucket carries its two keys.
pub record RateLimitBucket : Type 0 where
  pub key : String
  pub action : String
  pub window_started_at : ℕ
  pub count : ℕ

pub record AuthStore : Type 0 where
  pub identities : Dict Identity
  pub by_email : Dict String
  pub members : Dict (List Membership)
  pub sessions : Dict Session
  pub tokens : Dict VerificationToken
  pub factors : Dict MfaFactor
  pub recovery : Dict (List RecoveryCode)
  pub devices : Dict Device
  pub buckets : List RateLimitBucket
  pub events : List AuthEvent

module _ (normalise_email : String → String) where
  -- `create_identity`, with no answer for `DuplicateEmail`
  unfoldable pub create_identity : Identity → AuthStore → Option (Identity × AuthStore)
  create_identity identity s =
      let email = normalise_email identity.email in
      let named : Identity = record identity { email = email } in
      if is_some (lookup email s.by_email)
      then none
      else some (
        named,
        record s {
          identities = insert identity.identity_id named s.identities;
          by_email = insert email identity.identity_id s.by_email;
        },
      )

  abbrev pub identity_named : Option String → AuthStore → Option Identity
  identity_named none s = none
  identity_named (some id) s = lookup id s.identities

  unfoldable pub identity_by_email : String → AuthStore → Option Identity
  identity_by_email email s = identity_named (lookup (normalise_email email) s.by_email) s

-- The index follows an address that has changed.
abbrev pub reindex : Option Identity → Identity → Dict String → Dict String
reindex none identity index = index
reindex (some old) identity index =
    if old.email == identity.email
    then index
    else insert identity.email identity.identity_id (erase old.email index)

-- `save_identity` at the instant `stamp`
unfoldable pub save_identity : ℕ → Identity → AuthStore → AuthStore
save_identity stamp identity s = record s {
  identities = insert identity.identity_id (record identity { updated_at = stamp }) s.identities;
  by_email = reindex (lookup identity.identity_id s.identities) identity s.by_email;
}

abbrev pub is_due_for_deletion : ℕ → Identity → Bool
is_due_for_deletion now i = is_pending_deletion i.status && is_past now i.delete_after

abbrev pub identities_due_for_deletion : ℕ → AuthStore → List Identity
identities_due_for_deletion now s = filter (is_due_for_deletion now) (values s.identities)

-- `d.get(k, [])`
abbrev pub or_empty_list : {V : Type 0} → Option (List V) → List V
or_empty_list none = []
or_empty_list (some vs) = vs

abbrev pub memberships : String → AuthStore → List Membership
memberships id s = or_empty_list (lookup id s.members)

unfoldable pub put_membership : Membership → AuthStore → AuthStore
put_membership m s = record s {
  members =
      insert m.identity_id
        (filter (λ held. not (held.user_id == m.user_id)) (memberships m.identity_id s) ++ (m ∷ []))
        s.members;
}

abbrev pub remove_memberships : String → AuthStore → AuthStore
remove_memberships id s = record s { members = erase id s.members }

-- `create_session` and `save_session`
abbrev pub save_session : Session → AuthStore → AuthStore
save_session session s = record s { sessions = insert session.session_id session s.sessions }

-- A hash finds the session that has it, or has just rotated away from it.
abbrev pub holds_hash : String → Session → Bool
holds_hash hash held = (hash == held.token_hash || hash == held.previous_hash) && not (hash == "")

abbrev pub find : {V : Type 0} → (V → Bool) → List V → Option V
find p [] = none
find p (v ∷ vs) = let rest = find p vs in if p v then some v else rest

abbrev pub session_by_token_hash : String → AuthStore → Option Session
session_by_token_hash hash s = find (holds_hash hash) (values s.sessions)

abbrev pub sessions_for : String → AuthStore → List Session
sessions_for id s = filter (λ (held : Session). held.identity_id == id) (values s.sessions)

abbrev pub is_open_for : String → Session → Bool
is_open_for id held = held.identity_id == id && not (is_some held.revoked_at)

abbrev pub revoked : ℕ → String → Session → Session
revoked now reason held = record held { revoked_at = some now; revoked_reason = reason }

abbrev pub revoke_held : String → ℕ → String → Session → Session
revoke_held id now reason held = if is_open_for id held then revoked now reason held else held

unfoldable pub revoke_sessions : String → ℕ → String → AuthStore → ℕ × AuthStore
revoke_sessions id now reason s = (
  length (filter (is_open_for id) (values s.sessions)),
  record s { sessions = map_values (revoke_held id now reason) s.sessions },
)

-- `create_token` and `save_token`
abbrev pub save_token : VerificationToken → AuthStore → AuthStore
save_token token s = record s { tokens = insert token.token_id token s.tokens }

abbrev pub token_by_hash : String → AuthStore → Option VerificationToken
token_by_hash hash s =
    find (λ (held : VerificationToken). held.token_hash == hash) (values s.tokens)

abbrev pub invalidate_held : String → TokenKind → ℕ → VerificationToken → VerificationToken
invalidate_held id kind now held =
    if held.identity_id == id && (same_kind held.kind kind && not (is_some held.used_at))
    then record held { used_at = some now }
    else held

abbrev pub invalidate_tokens : String → TokenKind → ℕ → AuthStore → AuthStore
invalidate_tokens id kind now s = record s {
  tokens = map_values (invalidate_held id kind now) s.tokens;
}

-- `create_factor` and `save_factor`
abbrev pub save_factor : MfaFactor → AuthStore → AuthStore
save_factor factor s = record s { factors = insert factor.factor_id factor s.factors }

abbrev pub factors_for : String → AuthStore → List MfaFactor
factors_for id s = filter (λ (held : MfaFactor). held.identity_id == id) (values s.factors)

abbrev pub delete_factor : String → AuthStore → AuthStore
delete_factor id s = record s { factors = erase id s.factors }

abbrev pub replace_recovery_codes : String → List RecoveryCode → AuthStore → AuthStore
replace_recovery_codes id codes s = record s { recovery = insert id codes s.recovery }

abbrev pub recovery_codes_for : String → AuthStore → List RecoveryCode
recovery_codes_for id s = or_empty_list (lookup id s.recovery)

-- The loop of `save_recovery_code`, with its `else`.
abbrev pub replace_code : RecoveryCode → List RecoveryCode → List RecoveryCode
replace_code code [] = code ∷ []
replace_code code (held ∷ rest) =
    let later = replace_code code rest in
    if held.code_id == code.code_id then code ∷ rest else held ∷ later

abbrev pub save_recovery_code : RecoveryCode → AuthStore → AuthStore
save_recovery_code code s = record s {
  recovery =
      insert code.identity_id (replace_code code (recovery_codes_for code.identity_id s))
        s.recovery;
}

abbrev pub as_first_seen : Option Device → Device → Device
as_first_seen none device = device
as_first_seen (some known) device = record device {
  first_seen_at = known.first_seen_at;
  revoked_at = known.revoked_at;
}

abbrev pub upsert_device : Device → AuthStore → AuthStore
upsert_device device s = record s {
  devices =
      insert device.device_id (as_first_seen (lookup device.device_id s.devices) device) s.devices;
}

abbrev pub set_revoked : Option Device → String → Option ℕ → Dict Device → Dict Device
set_revoked none id when devices = devices
set_revoked (some held) id when devices = insert id (record held { revoked_at = when }) devices

abbrev pub set_device_revoked : String → Option ℕ → AuthStore → AuthStore
set_device_revoked id when s = record s {
  devices = set_revoked (lookup id s.devices) id when s.devices;
}

abbrev pub is_bucket : String → String → RateLimitBucket → Bool
is_bucket key action b = b.key == key && b.action == action

abbrev pub other_buckets : String → String → List RateLimitBucket → List RateLimitBucket
other_buckets key action = filter (λ b. not (is_bucket key action b))

-- The bucket that an attempt counts in: the one at hand while its window lasts, or a new one.
abbrev pub open_bucket : String → String → ℕ → ℕ → Option RateLimitBucket → RateLimitBucket
open_bucket key action window_s now none = record {
  key = key;
  action = action;
  window_started_at = now;
  count = 0;
}
open_bucket key action window_s now (some b) =
    if leb (b.window_started_at + seconds window_s) now
    then record { key = key; action = action; window_started_at = now; count = 0 }
    else b

abbrev pub counted : RateLimitBucket → RateLimitBucket
counted b = record b { count = b.count + 1 }

unfoldable pub hit_rate_limit : String → String → ℕ → ℕ → AuthStore → ℕ × AuthStore
hit_rate_limit key action window_s now s =
    let b = counted (open_bucket key action window_s now (find (is_bucket key action) s.buckets)) in
    (b.count, record s { buckets = b ∷ other_buckets key action s.buckets })

abbrev pub reset_rate_limit : String → String → AuthStore → AuthStore
reset_rate_limit key action s = record s { buckets = other_buckets key action s.buckets }

abbrev pub record_event : AuthEvent → AuthStore → AuthStore
record_event event s = record s { events = s.events ++ (event ∷ []) }

-- `found[-limit:]` of the events of one identity, or of all for an empty id; a limit of zero cuts
-- nothing off
unfoldable pub events_for : String → ℕ → AuthStore → List AuthEvent
events_for id limit s =
    let found = filter (λ (e : AuthEvent). id == "" || e.identity_id == id) s.events in
    drop (if leb limit 0 then 0 else length found - limit) found

-- What is found stands in the list and passes the test.
pub Occurs-find :
    {V : Type 0} (p : V → Bool) (v : V) (vs : List V)
    → find p vs ≡ some v
    → Occurs v vs × (p v ≡ true)
Occurs-find p v [] e = cc
Occurs-find p v (u ∷ us) e = ground (arith, Occurs-find p v us)
