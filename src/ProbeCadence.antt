-- ===== src/ProbeCadence.antt =====
-- nabla/api/health_probe_cadence.py: how often an optional probe asks its provider. Times are whole
-- microseconds of the monotonic clock; the rounding of the reported seconds is left out. What the
-- loader gives and when it is done are inputs.
pub mod Intervals
mod Tests
use fastapi_sample.Prelude.{
  String, ℕ, ◌+◌, ◌-◌, Bool, true, false, not, ◌&&◌, ◌||◌, ◌==◌, List, [], ◌∷◌, any, Option, none,
  some, ltb, if◌then◌else◌,
}
use fastapi_sample.Prelude.Dict.{lookup, insert}

-- The fields of a result that are read, and the rest of it.
pub record ProbeResult : Type 0 where
  pub skipped : Bool
  pub reachable : Option Bool
  pub timed_out : Bool
  pub error : Option String
  pub details : String

pub record ProbeEntry : Type 0 where
  pub result : ProbeResult
  pub observed_at : String
  pub recorded_at : ℕ
  pub interval : ℕ

abbrev local_support_probes : List String
local_support_probes = "sentry" ∷ "datadog" ∷ "pyroscope" ∷ "litellm" ∷ []

unfoldable pub configured_interval : String → ℕ
configured_interval name =
    if any (λ p. p == name) local_support_probes then 120_000_000 else 300_000_000

abbrev pub is_false : Option Bool → Bool
is_false none = false
is_false (some b) = not b

unfoldable pub interval_for_result : String → ProbeResult → ℕ
interval_for_result name result =
    if result.skipped
    then 900_000_000
    else if is_false result.reachable
    then 60_000_000
    else configured_interval name

pub data Source : Type 0 where
  origin memory : Source

pub record Annotated : Type 0 where
  pub result : ProbeResult
  pub source : Source
  pub observed_at : String
  pub age : ℕ
  pub interval : ℕ
  pub remaining : ℕ
  pub refresh_error : Option String

unfoldable pub annotate : ProbeEntry → Source → ℕ → Option String → Annotated
annotate entry source now refresh_error = record {
  result = entry.result;
  source = source;
  observed_at = entry.observed_at;
  age = now - entry.recorded_at;
  interval = entry.interval;
  remaining = entry.interval - (now - entry.recorded_at);
  refresh_error = refresh_error;
}

unfoldable pub annotate_required_probe : ProbeResult → ℕ → String → Annotated
annotate_required_probe result now observed_at =
    annotate
      (record {
        result = result;
        observed_at = observed_at;
        recorded_at = now;
        interval = 30_000_000;
      })
      origin now none

-- `str(result.get("error") or "optional probe deadline exceeded")`
abbrev pub deadline_error : ProbeResult → String
deadline_error result = elim result.error [
  | none ↦ "optional probe deadline exceeded"
  | some e ↦ if e == "" then "optional probe deadline exceeded" else e
]

-- A run asks the provider, or answers from memory.
pub record Run : Type 0 where
  pub answer : Annotated
  pub asked : Bool
  pub cache : List (String × ProbeEntry)

unfoldable pub is_due : Option ProbeEntry → ℕ → Bool
is_due none now = true
is_due (some previous) now = not (ltb now (previous.recorded_at + previous.interval))

unfoldable pub store_result : String → ProbeResult → ℕ → String → List (String × ProbeEntry) → Run
store_result name result later observed_at cache =
    let entry : ProbeEntry = record {
      result = result;
      observed_at = observed_at;
      recorded_at = later;
      interval = interval_for_result name result;
    } in
    record {
      answer = annotate entry origin later none;
      asked = true;
      cache = insert name entry cache;
    }

-- `result` is what the loader gives if it is called, `later` the time when it has.
unfoldable pub run_cadenced_optional_probe :
    String → ℕ → ProbeResult → ℕ → String → List (String × ProbeEntry) → Run
run_cadenced_optional_probe name now result later observed_at cache = elim (lookup name cache) [
  | none ↦ store_result name result later observed_at cache
  | some previous ↦
      if not (is_due (some previous) now)
      then record { answer = annotate previous memory now none; asked = false; cache = cache }
      else if result.timed_out
      then record {
        answer = annotate previous memory later (some (deadline_error result));
        asked = true;
        cache = cache;
      }
      else store_result name result later observed_at cache
]
