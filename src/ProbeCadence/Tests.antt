-- ===== src/ProbeCadence/Tests.antt =====
-- nabla/api/health_probe_cadence.py: two runs of a concrete probe.
use fastapi_sample.Prelude.{◌≡◌, refl, Bool, true, false, none, some, []}
use fastapi_sample.Prelude.Dict.{lookup, insert}
use fastapi_sample.ProbeCadence.{
  ProbeResult, configured_interval, interval_for_result, is_due, store_result, annotate,
  run_cadenced_optional_probe,
}

abbrev answer : Bool → ProbeResult
answer reachable = record {
  skipped = false;
  reachable = some reachable;
  timed_out = false;
  error = none;
  details = "";
}

-- After a failure the probe asks again once the minute is over.
asks_again :
    (let first = run_cadenced_optional_probe "sentry" 0 (answer false) 10 "t0" [] in
      (run_cadenced_optional_probe "sentry" 60_000_010
        (answer true)
        60_000_011
        "t1"
        first.cache).asked
      ≡ true)
unfolding run_cadenced_optional_probe store_result interval_for_result configured_interval is_due
    lookup insert annotate
asks_again = refl
