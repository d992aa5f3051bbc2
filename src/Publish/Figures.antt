-- ===== src/Publish/Figures.antt =====
-- The table `LIMITS` of src/clipforge/publish/limits.py. Durations are microseconds.
use clipper_ai.Base.{ℕ, ◌*◌, ◌^◌, seconds, String, Bool, true, false, List, [], ◌∷◌}
use clipper_ai.Base.Text.{◌⧺◌}
use clipper_ai.Publish.Types.{Platform, tiktok, youtube, instagram}

pub record MediaLimits : Type 0 where
  pub max_bytes : ℕ
  -- `min_duration_s`, `max_duration_s`, `short_form_max_s`
  pub min_duration : ℕ
  pub max_duration : ℕ
  pub short_form_max : ℕ
  pub max_caption_chars : ℕ
  pub max_title_chars : ℕ
  pub max_hashtags : ℕ

pub data QuotaScope : Type 0 where
  per_account per_project : QuotaScope

pub record RateLimits : Type 0 where
  pub posts_per_day : ℕ
  pub upload_cost : ℕ
  pub daily_budget : ℕ
  pub quota_scope : QuotaScope
  pub min_spacing_s : ℕ

-- Without the notes.
pub record TokenPolicy : Type 0 where
  pub access_ttl_s : ℕ
  pub refresh_grace_days : ℕ
  pub server_side_scheduling : Bool

pub record PlatformLimits : Type 0 where
  pub media : MediaLimits
  pub rate : RateLimits
  pub tokens : TokenPolicy
  pub automation_blocker : String
  pub scopes : List String

abbrev pub tiktok_limits : PlatformLimits
tiktok_limits = record {
  media = record {
    max_bytes = 4 * 1024 ^ 3;
    min_duration = seconds 3;
    max_duration = seconds 600;
    short_form_max = seconds 600;
    max_caption_chars = 2200;
    max_title_chars = 0;
    max_hashtags = 0;
  };
  rate = record {
    posts_per_day = 6;
    upload_cost = 0;
    daily_budget = 0;
    quota_scope = per_account;
    min_spacing_s = 0;
  };
  tokens = record {
    access_ttl_s = 24 * 3600;
    refresh_grace_days = 365;
    server_side_scheduling = false;
  };
  automation_blocker =
      "Direct Post requires TikTok's app audit. Until it clears, uploads land in the creator's inbox "
      ⧺ "as a draft that a human must finish, and visibility is forced to private.";
  scopes = "video.upload" ∷ "video.publish" ∷ [];
}

abbrev pub youtube_limits : PlatformLimits
youtube_limits = record {
  media = record {
    max_bytes = 256 * 1024 ^ 3;
    min_duration = seconds 1;
    max_duration = seconds (12 * 3600);
    short_form_max = seconds 180;
    max_caption_chars = 5000;
    max_title_chars = 100;
    max_hashtags = 15;
  };
  rate = record {
    posts_per_day = 6;
    upload_cost = 1600;
    daily_budget = 10000;
    quota_scope = per_project;
    min_spacing_s = 0;
  };
  tokens = record { access_ttl_s = 3600; refresh_grace_days = 3650; server_side_scheduling = true };
  automation_blocker = "";
  scopes = "https://www.googleapis.com/auth/youtube.upload" ∷ [];
}

abbrev pub instagram_limits : PlatformLimits
instagram_limits = record {
  media = record {
    max_bytes = 1024 ^ 3;
    min_duration = seconds 3;
    max_duration = seconds 900;
    short_form_max = seconds 900;
    max_caption_chars = 2200;
    max_title_chars = 0;
    max_hashtags = 30;
  };
  rate = record {
    posts_per_day = 25;
    upload_cost = 0;
    daily_budget = 0;
    quota_scope = per_account;
    min_spacing_s = 0;
  };
  tokens = record {
    access_ttl_s = 60 * 24 * 3600;
    refresh_grace_days = 60;
    server_side_scheduling = false;
  };
  automation_blocker =
      "Requires a Business or Creator account linked to a Facebook Page, and the media must be "
      ⧺ "fetchable from a public URL for the whole of Instagram's transcode — the API pulls the file "
      ⧺ "rather than accepting bytes.";
  scopes = "instagram_content_publish" ∷ "pages_read_engagement" ∷ [];
}

-- `limits_for`
abbrev pub limits_for : Platform → PlatformLimits
limits_for tiktok = tiktok_limits
limits_for youtube = youtube_limits
limits_for instagram = instagram_limits
