-- ===== src/Worker/Types.antt =====
-- src/clipforge/worker/types.py. Durations are microseconds. A JSON object is its fields.
use clipper_ai.Base.{ℕ, ◌+◌, String, Option, none, some, List, []}
use clipper_ai.Base.Dict.{Dict, lookup, insert}
use clipper_ai.Base.Json.{Fields, end}

pub record JobSpec : Type 0 where
  pub kind : String
  pub payload : Fields
  pub dedupe_key : String
  -- `delay_s`
  pub delay : ℕ
  pub priority : ℕ
  pub channel_id : String
  pub max_attempts : ℕ

pub data Disposition : Type 0 where
  done retry fatal : Disposition

pub record Outcome : Type 0 where
  pub disposition : Disposition
  pub detail : String
  pub result : Option Fields
  -- `after_s`
  pub after : ℕ
  pub follow_on : List JobSpec

-- `dict or None`: an empty object is no object
abbrev pub none_if_empty : Fields → Option Fields
none_if_empty end = none
none_if_empty fs = some fs

-- `Done`
abbrev pub done_outcome : String → List JobSpec → Fields → Outcome
done_outcome detail follow_on result = record {
  disposition = done;
  detail = detail;
  result = none_if_empty result;
  after = 0;
  follow_on = follow_on;
}

-- `Retry`
abbrev pub retry_outcome : String → ℕ → Outcome
retry_outcome detail after = record {
  disposition = retry;
  detail = detail;
  result = none;
  after = after;
  follow_on = [];
}

-- `Fatal`
abbrev pub fatal_outcome : String → Outcome
fatal_outcome detail = record {
  disposition = fatal;
  detail = detail;
  result = none;
  after = 0;
  follow_on = [];
}

pub record WorkerStats : Type 0 where
  pub claimed : ℕ
  pub completed : ℕ
  pub retried : ℕ
  pub dead : ℕ
  pub reaped : ℕ
  pub chained : ℕ
  -- `busy_s`
  pub busy : ℕ
  pub last_job_at : Option ℕ
  pub by_kind : Dict ℕ

abbrev pub count_disposition : Disposition → WorkerStats → WorkerStats
count_disposition done w = record w { completed = w.completed + 1 }
count_disposition retry w = record w { retried = w.retried + 1 }
count_disposition fatal w = record w { dead = w.dead + 1 }

abbrev or_zero : Option ℕ → ℕ
or_zero none = 0
or_zero (some n) = n

-- `WorkerStats.record`
unfoldable pub record_stats : String → Outcome → ℕ → ℕ → WorkerStats → WorkerStats
record_stats kind outcome elapsed now w = count_disposition outcome.disposition (record w {
  by_kind = insert kind (or_zero (lookup kind w.by_kind) + 1) w.by_kind;
  busy = w.busy + elapsed;
  last_job_at = some now;
})
