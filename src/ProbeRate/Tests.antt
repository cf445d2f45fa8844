-- ===== src/ProbeRate/Tests.antt =====
-- nabla/api/provider_probe_budget.py: the limits on a concrete sequence of requests.
use fastapi_sample.Prelude.{
  ◌≡◌, refl, ℕ, ◌≤◌, true, none, some, List, [], ◌∷◌, String, lower, strip, lstrip, rstrip, before,
}
use fastapi_sample.ProbeRate.{
  rate_policy_of, count_of, set_count, evict, local_count, remote_count, Counters, chosen_client,
  admit_provider, admit_provider_probe,
}
use fastapi_sample.ProbeRate.Replicas.{
  Visit, admitted_shared, is_up, all_up_in_bucket, admitted_shared-bound,
}
use fastapi_sample.ProbeRate.Windows.{Request, admit, admitted, all_in_bucket, admitted-bound}

abbrev request : String → ℕ → Request
request key now = record {
  key = key;
  given = none;
  resolved = some true;
  available = true;
  now = now;
}

abbrev requests : List Request
requests =
    request "truenas:api" 1
    ∷ request "pfsense:api" 90_000_000
    ∷ request "truenas:api" 2
    ∷ request "truenas:api" 3
    ∷ []

abbrev no_counters : Counters
no_counters = record { local = []; remote = [] }

two_of_three : admitted "truenas" requests no_counters ≡ 2
unfolding admitted admit admit_provider_probe admit_provider rate_policy_of count_of set_count evict
    local_count remote_count chosen_client lower strip lstrip rstrip before
two_of_three = refl

admitted-bound_example : admitted "truenas" requests no_counters ≤ 2
unfolding all_in_bucket rate_policy_of lower strip lstrip rstrip before
admitted-bound_example =
    admitted-bound "truenas" (record { max_requests = 2; window_seconds = 60 }) 0 requests
      no_counters refl refl

abbrev visits : List Visit
visits =
    record { request = request "truenas:api" 1; local = [] }
    ∷ record { request = request "truenas:api" 2; local = [] }
    ∷ record { request = request "truenas:api" 3; local = [] }
    ∷ []

admitted_shared-bound_example : admitted_shared "truenas" visits [] ≤ 2
unfolding all_up_in_bucket is_up chosen_client rate_policy_of lower strip lstrip rstrip before
admitted_shared-bound_example =
    admitted_shared-bound "truenas" (record { max_requests = 2; window_seconds = 60 }) 0 visits []
      refl refl
