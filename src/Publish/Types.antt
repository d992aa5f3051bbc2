-- ===== src/Publish/Types.antt =====
-- src/clipforge/publish/types.py. Instants and durations are microseconds; bodies are JSON objects.
use clipper_ai.Base.{ℕ, String, Bool, true, false, ◌&&◌, Option, List, leb, ltb, length}
use clipper_ai.Base.Dict.{Dict}
use clipper_ai.Base.Json.{Fields}

pub data Platform : Type 0 where
  tiktok youtube instagram : Platform

pub data PostState : Type 0 where
  draft scheduled claimed uploading processing published awaiting_creator retrying failed :
      PostState
  needs_attention cancelled : PostState

-- `TERMINAL_STATES`
abbrev pub is_terminal_state : PostState → Bool
is_terminal_state published = true
is_terminal_state awaiting_creator = true
is_terminal_state failed = true
is_terminal_state cancelled = true
is_terminal_state needs_attention = true
is_terminal_state _ = false

-- `DELIVERED_STATES`
abbrev pub is_delivered_state : PostState → Bool
is_delivered_state published = true
is_delivered_state awaiting_creator = true
is_delivered_state _ = false

-- `IN_FLIGHT_STATES`
abbrev pub is_in_flight_state : PostState → Bool
is_in_flight_state uploading = true
is_in_flight_state processing = true
is_in_flight_state _ = false

pub data Visibility : Type 0 where
  public private unlisted followers : Visibility

pub record MediaAsset : Type 0 where
  pub asset_id : String
  pub path : String
  pub public_url : String
  pub size_bytes : ℕ
  -- `duration_s`
  pub duration : ℕ
  pub width : ℕ
  pub height : ℕ
  pub fps : ℕ
  pub checksum : String

abbrev pub is_vertical : MediaAsset → Bool
is_vertical a = ltb a.width a.height

pub record Account : Type 0 where
  pub account_id : String
  pub platform : Platform
  pub org_id : String
  pub handle : String
  pub external_id : String
  pub timezone : String
  pub direct_post_approved : Bool
  pub business_account : Bool
  pub enabled : Bool

-- Without the free-form `metadata`, which nothing here reads.
pub record PostSpec : Type 0 where
  pub asset : MediaAsset
  pub title : String
  pub caption : String
  pub hashtags : List String
  pub per_platform_caption : Dict String
  pub visibility : Visibility
  pub category_id : String
  pub made_for_kids : Bool

pub record Attempt : Type 0 where
  pub number : ℕ
  pub started_at : ℕ
  pub finished_at : Option ℕ
  pub state : PostState
  pub error_code : String
  pub error_message : String
  pub disposition : String
  pub remote_ref : String

pub record ScheduledPost : Type 0 where
  pub post_id : String
  pub account_id : String
  pub platform : Platform
  pub spec : PostSpec
  pub run_at : ℕ
  pub state : PostState
  pub attempts : List Attempt
  pub remote_post_id : String
  pub idempotency_key : String
  pub series_id : String
  pub lease_until : Option ℕ
  pub next_attempt_at : Option ℕ
  pub last_error : String

abbrev pub attempt_count : ScheduledPost → ℕ
attempt_count p = length p.attempts

abbrev pub is_terminal : ScheduledPost → Bool
is_terminal p = is_terminal_state p.state

abbrev pub in_flight : ScheduledPost → Bool
in_flight p = is_in_flight_state p.state

pub record Response : Type 0 where
  pub status : ℕ
  pub headers : Dict String
  pub body : Fields

-- `Response.ok`
abbrev pub is_ok : Response → Bool
is_ok r = leb 200 r.status && ltb r.status 300
