-- ===== src/Publish/Tests.antt =====
-- Runs of the publishing engine, and its theorems at concrete inputs.
use clipper_ai.Base.{
  ℕ, String, ◌≡◌, refl, true, false, none, some, [], ◌∷◌, arith, err, Result, inl, seconds,
}
use clipper_ai.Base.Dict.{lookup}
use clipper_ai.Base.Json.{Json, end, get_field}
use clipper_ai.Publish.Types.{
  youtube, claimed, published, public, Account, PostSpec, MediaAsset, ScheduledPost, Response,
}
use clipper_ai.Publish.Retry.{
  Outside, Failure, ahead, unfit, extract_code, retry_after, classify_response, classify, is_auth,
  first_text, is_quota,
}
use clipper_ai.Publish.Retry.Laws.{IsGuarded, IsPaced, no_blind_retry, retry-IsPaced}
use clipper_ai.Publish.Limits.{tiktok_chunking, grow_chunk}
use clipper_ai.Publish.Limits.Chunks.{Fits, Fits-tiktok_chunking}
use clipper_ai.Publish.Engine.{
  EngineError, PublishResult, Adapter, Step, request, done, Reply, answer, Credentials, run_post,
  run_steps, unfit_delay, handle_failure, change_last,
}

abbrev outside : Outside
outside = record {
  digest = λ key attempt. 7;
  pacific_midnight = λ now. 0;
  float_of = λ t. some (ahead (seconds 60));
}

abbrev in_doubt : Failure
in_doubt = record {
  attempt = 2;
  platform = youtube;
  now = 5;
  key = "k";
  timed_out = true;
  already_in_flight = true;
}

abbrev unanswered : Failure
unanswered = record in_doubt { timed_out = false; already_in_flight = false }

abbrev broken : Response
broken = record { status = 503; headers = []; body = end }

no_blind_retry_example :
    IsGuarded outside in_doubt (extract_code broken) (classify outside in_doubt (some broken))
no_blind_retry_example = no_blind_retry outside in_doubt (some broken) refl (inl refl)

retry-IsPaced_example : IsPaced (classify outside unanswered none).delay
unfolding classify
retry-IsPaced_example = retry-IsPaced outside unanswered (λ key attempt. omega arith) none refl

abbrev account : Account
account = record {
  account_id = "a";
  platform = youtube;
  org_id = "o";
  handle = "";
  external_id = "";
  timezone = "UTC";
  direct_post_approved = true;
  business_account = false;
  enabled = true;
}

abbrev asset : MediaAsset
asset = record {
  asset_id = "clip";
  path = "clip.mp4";
  public_url = "";
  size_bytes = 10;
  duration = seconds 20;
  width = 1080;
  height = 1920;
  fps = 60;
  checksum = "";
}

abbrev spec : PostSpec
spec = record {
  asset = asset;
  title = "t";
  caption = "";
  hashtags = [];
  per_platform_caption = [];
  visibility = public;
  category_id = "22";
  made_for_kids = false;
}

abbrev post : ScheduledPost
post = record {
  post_id = "p";
  account_id = "a";
  platform = youtube;
  spec = spec;
  run_at = 3;
  state = claimed;
  attempts = [];
  remote_post_id = "";
  idempotency_key = "k";
  series_id = "";
  lease_until = some 99;
  next_attempt_at = none;
  last_error = "";
}

abbrev sent : Step String
sent = record {
  action = request;
  outgoing = some "upload";
  remote_post_id = "";
  error_code = "";
  error_message = "";
  context = end;
}

abbrev adapter : Adapter String
adapter = record {
  begin = λ s a t k. sent;
  poll_request = none;
  advance = λ c r. record sent { action = done; outgoing = none; remote_post_id = "yt1" };
}

abbrev credentials : Credentials
credentials = record {
  can_refresh = λ now. true;
  is_expired = λ now. false;
  needs_refresh = λ now. false;
}

abbrev send : ℕ → String → Reply
send n r = answer (record broken { status = 200 })

abbrev show : Json → String
show j = ""

-- The upload is answered and the post is out.
abbrev live : Result EngineError PublishResult × ScheduledPost
live =
    run_post outside show 50 400 adapter send (("a", account) ∷ []) (λ i. some credentials) none
      post

live_state : live.1.state ≡ published
unfolding run_post lookup run_steps get_field
live_state = refl

-- A time to come back that no date takes.
abbrev endless : Outside
endless = record outside { float_of = λ t. some unfit }

abbrev busy : Response
busy = record { status = 429; headers = ("Retry-After", "inf") ∷ []; body = end }

endless_raises : (handle_failure endless (some busy) 50 1 false false post).0 ≡ err unfit_delay
unfolding handle_failure classify classify_response retry_after lookup is_auth extract_code
    get_field first_text is_quota change_last
endless_raises = refl

-- A file of a hundred megabytes goes in nineteen chunks of five mebibytes.
chunks_100 : tiktok_chunking 100000000 ≡ (5242880, 19)
unfolding tiktok_chunking grow_chunk
chunks_100 = refl

Fits-tiktok_chunking_example : Fits 100000000 (tiktok_chunking 100000000)
Fits-tiktok_chunking_example = Fits-tiktok_chunking 100000000 (omega arith) (omega arith)
