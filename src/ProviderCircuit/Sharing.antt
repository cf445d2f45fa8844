-- ===== src/ProviderCircuit/Sharing.antt =====
-- nabla/api/provider_circuit.py: what the replicas learn through Redis, and what they do without.
use fastapi_sample.Prelude.{
  String, ℕ, ◌<◌, ◌≡◌, refl, true, false, Option, none, some, arith, eq_refl,
}
use fastapi_sample.Prelude.Dict.{insert, delete, lookup-insert, lookup-delete}
use fastapi_sample.ProviderCircuit.State.{
  CircuitBreakerPolicy, ProviderCircuitState, fresh_state, is_valid_policy, policy_of,
  provider_name, encode_state, merge_states, Redis, World, Link, drop_local,
}
use fastapi_sample.ProviderCircuit.Gate.{
  local_state, remote_state, load_state, lock_half_open, decide_probe, before_provider_probe,
}
use fastapi_sample.ProviderCircuit.Outcome.{write_circuits, mirror, record_failure, record_success}
use fastapi_sample.ProviderCircuit.Backoff.{decode_state-encode_state, policy_of-is_valid_policy}
use fastapi_sample.ProviderCircuit.Suppression.{before_provider_probe-allowed}

pub remote_state-insert :
    (provider : String) (state : ProviderCircuitState) (r : Redis)
    → remote_state provider
        (record { circuits = insert provider (encode_state state) r.circuits; locks = r.locks })
      ≡ some state
unfolding remote_state
remote_state-insert provider state r =
    rw
      (
        remote_state,
        lookup-insert provider provider (encode_state state) r.circuits,
        eq_refl provider,
      )
      (decode_state-encode_state state)

-- A failure that Redis takes is what the replicas then read there.
pub remote_state-record_failure :
    (provider : String) (policy : CircuitBreakerPolicy) (decided : ProviderCircuitState)
    (link : Link) (now later fraction : ℕ) (w : World)
    → link.read_up ≡ true
    → link.write_up ≡ true
    → (let (result, v) = record_failure provider policy decided (some link) now later fraction w in
        remote_state provider v.redis ≡ some result.0)
unfolding record_failure mirror load_state
remote_state-record_failure provider policy decided link now later fraction w up out =
    rw (up, out) (remote_state-insert provider _ w.redis)

local_state-drop_local :
    (provider : String) (w : World) → local_state provider (drop_local provider w) ≡ fresh_state
unfolding local_state
local_state-drop_local provider w =
    rw (local_state, lookup-delete provider provider w.local_states, eq_refl provider) refl

remote_state-delete :
    (provider : String) (r : Redis)
    → remote_state provider (write_circuits (delete provider r.circuits) r) ≡ none
unfolding remote_state
remote_state-delete provider r =
    rw (remote_state, lookup-delete provider provider r.circuits, eq_refl provider) refl

-- What is read where nothing is kept.
load_state-fresh :
    (provider : String) (link : Option Link) (w : World)
    → local_state provider w ≡ fresh_state
    → remote_state provider w.redis ≡ none
    → (load_state provider link w).0.0 ≡ fresh_state
unfolding load_state merge_states
load_state-fresh provider none w here there = here
load_state-fresh provider (some link) w here there = ground arith

local_state-record_success :
    (provider : String) (link : Link) (later : ℕ) (w : World)
    → link.read_up ≡ true
    → link.write_up ≡ true
    → local_state provider (record_success provider (some link) later w).1 ≡ fresh_state
unfolding record_success mirror load_state
local_state-record_success provider link later w up out =
    rw (up, out) (local_state-drop_local provider _)

remote_state-record_success :
    (provider : String) (link : Link) (later : ℕ) (w : World)
    → link.read_up ≡ true
    → link.write_up ≡ true
    → remote_state provider (record_success provider (some link) later w).1.redis ≡ none
unfolding record_success mirror load_state
remote_state-record_success provider link later w up out =
    rw (up, out) (remote_state-delete provider w.redis)

load_state-record_success :
    (provider : String) (link : Link) (again : Option Link) (later : ℕ) (w : World)
    → link.read_up ≡ true
    → link.write_up ≡ true
    → (load_state provider again (record_success provider (some link) later w).1).0.0 ≡ fresh_state
load_state-record_success provider link again later w up out =
    load_state-fresh provider again (record_success provider (some link) later w).1
      (local_state-record_success provider link later w up out)
      (remote_state-record_success provider link later w up out)

threshold_pos :
    (policy : CircuitBreakerPolicy) → is_valid_policy policy ≡ true → 0 < policy.failure_threshold
unfolding is_valid_policy
threshold_pos policy valid = ground arith

-- A success that Redis takes closes the circuit at once: in the state that it leaves, a probe of the
-- provider by the process runs, at any time, and is no half-open one.
pub record_success-before_provider_probe :
    (key : String) (policy : CircuitBreakerPolicy) (link : Link) (again : Option Link)
    (reported_at now : ℕ) (token : String) (w : World)
    → policy_of (provider_name key) ≡ some policy
    → link.read_up ≡ true
    → link.write_up ≡ true
    → (let v = (record_success (provider_name key) (some link) reported_at w).1 in
        let d = (before_provider_probe key again now token v).0 in
        (d.allowed ≡ true) × (d.half_open ≡ false))
unfolding before_provider_probe decide_probe
record_success-before_provider_probe key policy link again reported_at now token w known up out =
    let name = provider_name key in
    let v = (record_success name (some link) reported_at w).1 in
    ground (
      arith,
      before_provider_probe-allowed key policy again now token v known,
      load_state-record_success name link again reported_at w up out,
      threshold_pos policy (policy_of-is_valid_policy name policy known),
    )

-- A Redis that cannot be read decides nothing: the probe runs exactly if it would run without one.
pub before_provider_probe-unread :
    (key : String) (link : Link) (now : ℕ) (token : String) (w : World)
    → link.read_up ≡ false
    → (before_provider_probe key (some link) now token w).0.allowed
      ≡ (before_provider_probe key none now token w).0.allowed
unfolding before_provider_probe load_state decide_probe lock_half_open
before_provider_probe-unread key link now token w down = ground arith
