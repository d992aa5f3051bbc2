-- ===== src/Publish/Limits.antt =====
-- src/clipforge/publish/limits.py, and `PostSpec.caption_for` of types.py. Durations are microseconds.
-- A problem is a value that stands for its message. `strip` is Python's.
pub mod Chunks
pub mod Checks
pub use clipper_ai.Publish.Figures.{
  MediaLimits, QuotaScope, per_account, per_project, RateLimits, TokenPolicy, PlatformLimits,
  tiktok_limits, youtube_limits, instagram_limits, limits_for,
}
use clipper_ai.Base.{
  ℕ, zero, suc, ◌+◌, ◌*◌, ◌/◌, ◌%◌, ◌^◌, min, max, seconds, String, Bool, true, false, not, ◌&&◌,
  ◌||◌, List, [], ◌∷◌, ◌++◌, ◌==◌, if◌then◌else◌, leb, ltb, eqb, length, Option, none, some,
}
use clipper_ai.Base.Dict.{lookup}
use clipper_ai.Base.Text.{characters, starts_with, ◌⧺◌}
use clipper_ai.Publish.Types.{
  Platform, tiktok, youtube, instagram, Visibility, private, MediaAsset, is_vertical, Account,
  PostSpec,
}

abbrev pub tiktok_min_chunk : ℕ
tiktok_min_chunk = 5 * 1024 ^ 2

abbrev pub tiktok_max_chunk : ℕ
tiktok_max_chunk = 64 * 1024 ^ 2

abbrev pub tiktok_max_chunks : ℕ
tiktok_max_chunks = 1000

abbrev pub google_chunk_multiple : ℕ
google_chunk_multiple = 256 * 1024

-- The test of the loop: `size_bytes / chunk > TIKTOK_MAX_CHUNKS and chunk < TIKTOK_MAX_CHUNK`
abbrev pub grows : ℕ → ℕ → Bool
grows size chunk = ltb (tiktok_max_chunks * chunk) size && ltb chunk tiktok_max_chunk

-- The loop of `tiktok_chunking`, for a number of turns.
unfoldable pub grow_chunk : ℕ → ℕ → ℕ → ℕ
grow_chunk zero size chunk = chunk
grow_chunk (suc turns) size chunk =
    let next = grow_chunk turns size (min (chunk * 2) tiktok_max_chunk) in
    if grows size chunk then next else chunk

-- `tiktok_chunking`: the size of a chunk and the number of chunks
unfoldable pub tiktok_chunking : ℕ → ℕ × ℕ
tiktok_chunking size =
    if leb size tiktok_min_chunk
    then (size, 1)
    else let chunk = grow_chunk 4 size tiktok_min_chunk in (chunk, max 1 (size / chunk))

-- Python's `round(n / d)`, halves to the even side
abbrev pub round_ratio : ℕ → ℕ → ℕ
round_ratio n d =
    let q = n / d in
    let twice = 2 * (n % d) in if ltb twice d || (eqb twice d && eqb (q % 2) 0) then q else q + 1

-- `google_chunk_size`
unfoldable pub google_chunk_size : ℕ → ℕ
google_chunk_size preferred =
    max 1 (round_ratio preferred google_chunk_multiple) * google_chunk_multiple

abbrev pub not_business : String
not_business =
    "Instagram account is not a Business or Creator account linked to a Facebook Page — the Content "
    ⧺ "Publishing API cannot post to it."

abbrev pub not_verified : String
not_verified =
    "YouTube app has not passed verification; uploads from an unverified client are locked to "
    ⧺ "private regardless of the requested visibility."

abbrev pub gap_on : Platform → Account → String
gap_on tiktok a = if not a.direct_post_approved then tiktok_limits.automation_blocker else ""
gap_on instagram a = if not a.business_account then not_business else ""
gap_on youtube a = if not a.direct_post_approved then not_verified else ""

-- `automation_gap`
unfoldable pub automation_gap : Account → String
automation_gap a = gap_on a.platform a

-- `effective_visibility`
unfoldable pub effective_visibility : Account → Visibility → Visibility
effective_visibility a requested = if automation_gap a == "" then requested else private

-- `PostSpec.caption_for`
abbrev pub platform_text : Platform → String
platform_text tiktok = "tiktok"
platform_text youtube = "youtube"
platform_text instagram = "instagram"

abbrev pub or_text : String → Option String → String
or_text t none = t
or_text t (some other) = other

abbrev pub hash_tag : String → String
hash_tag t = if starts_with "#" t then t else "#" ⧺ t

abbrev pub join_tags : List String → String
join_tags [] = ""
join_tags (t ∷ []) = hash_tag t
join_tags (t ∷ s ∷ ts) = hash_tag t ⧺ " " ⧺ join_tags (s ∷ ts)

abbrev pub with_tags : (String → String) → List String → String → String
with_tags strip [] text = text
with_tags strip (t ∷ ts) text = strip (text ⧺ "\n\n" ⧺ join_tags (t ∷ ts))

unfoldable pub caption_for : (String → String) → Platform → PostSpec → String
caption_for strip platform spec =
    with_tags strip spec.hashtags
      (or_text spec.caption (lookup (platform_text platform) spec.per_platform_caption))

pub data Problem : Type 0 where
  too_large too_short too_long caption_too_long title_too_long too_many_hashtags : Problem
  no_public_url no_path disabled no_title : Problem

-- `if test: problems.append(problem)`
abbrev pub when : Bool → Problem → List Problem
when true problem = problem ∷ []
when false problem = []

abbrev pub is_instagram : Platform → Bool
is_instagram instagram = true
is_instagram _ = false

abbrev pub is_youtube : Platform → Bool
is_youtube youtube = true
is_youtube _ = false

-- `limit and count > limit`
abbrev pub exceeds : ℕ → ℕ → Bool
exceeds limit count = not (eqb limit 0) && ltb limit count

-- The part of `validate` about the file, and the part about the texts and the account.
abbrev pub file_problems : MediaLimits → MediaAsset → List Problem
file_problems m a =
    when (ltb m.max_bytes a.size_bytes) too_large
    ++ when (not (eqb a.duration 0) && ltb a.duration m.min_duration) too_short
    ++ when (ltb m.max_duration a.duration) too_long

abbrev pub text_problems : (String → String) → MediaLimits → Platform → PostSpec → List Problem
text_problems strip m platform spec =
    when (ltb m.max_caption_chars (characters (caption_for strip platform spec))) caption_too_long
    ++ when (exceeds m.max_title_chars (characters spec.title)) title_too_long
    ++ when (exceeds m.max_hashtags (length spec.hashtags)) too_many_hashtags

abbrev pub account_problems : PostSpec → Account → List Problem
account_problems spec a =
    when (is_instagram a.platform && spec.asset.public_url == "") no_public_url
    ++ when (not (is_instagram a.platform) && spec.asset.path == "") no_path
    ++ when (not a.enabled) disabled
    ++ when (is_youtube a.platform && spec.title == "") no_title

-- `validate`
unfoldable pub validate : (String → String) → PostSpec → Account → List Problem
validate strip spec a =
    let media = (limits_for a.platform).media in
    file_problems media spec.asset
    ++ text_problems strip media a.platform spec
    ++ account_problems spec a

-- `is_short_form`
unfoldable pub is_short_form : MediaAsset → Platform → Bool
is_short_form asset platform =
    let short_form_max = (limits_for platform).media.short_form_max in
    if eqb short_form_max 0 then false else is_vertical asset && leb asset.duration short_form_max

-- Without the notes.
pub record Readiness : Type 0 where
  pub account_id : String
  pub platform : Platform
  pub automated : Bool
  pub degraded_to : String
  pub blocker : String
  pub posts_per_day : ℕ
  pub quota_scope : QuotaScope
  pub server_side_scheduling : Bool
  pub safe_horizon_days : ℕ

abbrev pub degraded_on : Platform → String
degraded_on tiktok = "draft in creator inbox"
degraded_on youtube = "private upload"
degraded_on instagram = "cannot publish"

-- `readiness`
unfoldable pub readiness : Account → Readiness
readiness a =
    let entry = limits_for a.platform in
    let blocker = automation_gap a in
    record {
      account_id = a.account_id;
      platform = a.platform;
      automated = blocker == "" && a.enabled;
      degraded_to = if blocker == "" then "" else degraded_on a.platform;
      blocker = blocker;
      posts_per_day = entry.rate.posts_per_day;
      quota_scope = entry.rate.quota_scope;
      server_side_scheduling = entry.tokens.server_side_scheduling;
      safe_horizon_days = entry.tokens.refresh_grace_days;
    }
