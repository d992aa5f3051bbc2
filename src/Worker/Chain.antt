-- ===== src/Worker/Chain.antt =====
-- src/clipforge/worker/chain.py: the keys and the payloads of the jobs that follow one another, and
-- their queueing. The ids that `uuid4` makes are the parameter `mint`, one for each number.
pub mod Rerun
use clipper_ai.Base.{
  ℕ, suc, ◌+◌, ◌*◌, String, Bool, Option, none, some, List, [], ◌∷◌, ◌==◌, if◌then◌else◌, leb,
  seconds, pure, ◌>>=◌, ◌>>◌,
}
use clipper_ai.Base.Json.{Fields, end, field, str, num, set_field}
use clipper_ai.Base.Text.{decimal, ◌⧺◌}
use clipper_ai.Store.Jobs.{JobRecord, Jobs, queued, enqueue}
use clipper_ai.Worker.Types.{JobSpec}

abbrev pub first_verify : ℕ
first_verify = seconds (15 * 60)

abbrev pub second_verify : ℕ
second_verify = seconds (6 * 3600)

abbrev pub first_metrics : ℕ
first_metrics = seconds 3600

-- `text or None`
abbrev pub none_if_blank : String → Option String
none_if_blank t = if t == "" then none else some t

-- The row of `enqueue`, with the defaults of `JobRecord`.
abbrev pub spec_row : String → String → ℕ → JobSpec → JobRecord
spec_row tenant_id id now spec = record {
  id = id;
  tenant_id = tenant_id;
  created_at = now;
  updated_at = now;
  channel_id = none_if_blank spec.channel_id;
  kind = spec.kind;
  state = queued;
  priority = spec.priority;
  payload = some spec.payload;
  result = none;
  run_after = now + spec.delay;
  lease_until = none;
  lease_owner = "";
  attempts = 0;
  max_attempts = spec.max_attempts;
  last_error = "";
  dedupe_key = none_if_blank spec.dedupe_key;
  started_at = none;
  finished_at = none;
}

-- `enqueue`, from the `n`-th id on
unfoldable pub enqueue_specs : (ℕ → String) → String → ℕ → ℕ → List JobSpec → Jobs (List String)
enqueue_specs mint tenant_id now n [] = pure []
enqueue_specs mint tenant_id now n (spec ∷ specs) = do
  row ← enqueue now (spec_row tenant_id ("job_" ⧺ mint n) now spec)
  rest ← enqueue_specs mint tenant_id now (suc n) specs
  pure (row.id ∷ rest)

abbrev pub source_payload : String → String → Fields
source_payload source_id channel_id =
    field "source_id" (str source_id) (field "channel_id" (str channel_id) end)

abbrev pub upload_payload : String → String → Fields
upload_payload upload_id channel_id =
    field "upload_id" (str upload_id) (field "channel_id" (str channel_id) end)

unfoldable pub transcribe_spec : String → String → JobSpec
transcribe_spec source_id channel_id = record {
  kind = "transcribe";
  payload = source_payload source_id channel_id;
  dedupe_key = "transcribe:" ⧺ source_id;
  delay = 0;
  priority = 50;
  channel_id = channel_id;
  max_attempts = 8;
}

unfoldable pub select_spec : String → String → JobSpec
select_spec source_id channel_id = record {
  kind = "detect_clips";
  payload = source_payload source_id channel_id;
  dedupe_key = "select:" ⧺ channel_id ⧺ ":" ⧺ source_id;
  delay = 0;
  priority = 60;
  channel_id = channel_id;
  max_attempts = 8;
}

-- `if value: payload[name] = value`
abbrev pub set_text : String → String → Fields → Fields
set_text name value fs = if value == "" then fs else set_field name (str value) fs

unfoldable pub render_spec : String → String → String → String → JobSpec
render_spec clip_id channel_id source_id output_dir = record {
  kind = "render_video";
  payload = set_text "output_dir" output_dir (
      set_text "source_id" source_id
        (set_text "channel_id" channel_id (field "clip_id" (str clip_id) end)));
  dedupe_key = "render:" ⧺ clip_id;
  delay = 0;
  priority = 100;
  channel_id = channel_id;
  max_attempts = 8;
}

-- A delay that may lie in the past, and `max(0.0, delay_s)`.
pub data Delay : Type 0 where
  ahead behind : ℕ → Delay

abbrev pub not_negative : Delay → ℕ
not_negative (ahead n) = n
not_negative (behind n) = 0

unfoldable pub publish_spec : String → String → Delay → JobSpec
publish_spec upload_id channel_id delay = record {
  kind = "publish_upload";
  payload = upload_payload upload_id channel_id;
  dedupe_key = "publish:" ⧺ upload_id;
  delay = not_negative delay;
  priority = 100;
  channel_id = channel_id;
  max_attempts = 8;
}

abbrev pub verify_delay : ℕ → Option ℕ → ℕ
verify_delay pass_number none = if leb pass_number 1 then first_verify else second_verify
verify_delay pass_number (some delay) = delay

unfoldable pub verify_spec : String → String → ℕ → Option ℕ → JobSpec
verify_spec upload_id channel_id pass_number delay = record {
  kind = "verify_upload";
  payload =
      field "upload_id" (str upload_id)
        (field "channel_id" (str channel_id) (field "pass_number" (num pass_number) end));
  dedupe_key = "verify:" ⧺ upload_id ⧺ ":" ⧺ decimal pass_number;
  delay = verify_delay pass_number delay;
  priority = 40;
  channel_id = channel_id;
  max_attempts = 8;
}

unfoldable pub metrics_spec : String → String → ℕ → JobSpec
metrics_spec upload_id channel_id delay = record {
  kind = "collect_metrics";
  payload = upload_payload upload_id channel_id;
  dedupe_key = "metrics:" ⧺ upload_id;
  delay = delay;
  priority = 120;
  channel_id = channel_id;
  max_attempts = 8;
}
