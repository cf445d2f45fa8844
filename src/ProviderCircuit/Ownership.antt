-- ===== src/ProviderCircuit/Ownership.antt =====
-- nabla/api/provider_circuit.py: the half-open probes of one process, over all interleavings of its
-- tasks. Where `before_provider_probe` suspends between the claim and the answer of Redis, other tasks
-- may step. The resets, which are for tests, are no steps.
use fastapi_sample.Prelude.{
  String, ℕ, ◌≤◌, ◌≡◌, Bool, true, false, ◌&&◌, List, [], ◌∷◌, ◌++◌, count, Option, none, some,
  ◌==◌,
}
use fastapi_sample.ProviderCircuit.State.{
  CircuitBreakerPolicy, ProviderCircuitState, World, Link, is_named,
}
use fastapi_sample.ProviderCircuit.Gate.{
  CircuitDecision, claim_half_open, lock_half_open, before_provider_probe,
}
use fastapi_sample.ProviderCircuit.Outcome.{release_provider_probe}

-- A task that has claimed the half-open probe and waits for Redis, or one with its decision.
pub data Task : Type 0 where
  waiting : String → Task
  probing : CircuitDecision → Task

-- The tasks between their claim or decision and their release, and the process they share.
pub record Tasks : Type 0 where
  pub world : World
  pub tasks : List Task

abbrev pub is_of : String → CircuitDecision → Bool
is_of name d = elim d.provider [ none ↦ false | some (provider, policy) ↦ provider == name ]

-- Whether a task holds the half-open probe of a provider.
unfoldable pub holds : String → Task → Bool
holds name (waiting provider) = provider == name
holds name (probing d) = d.owns_half_open && is_of name d

-- One task's next section: the gate, in one piece or in two; the release of a decision, whether it
-- owns the half-open probe or not; its cancellation while it waits for Redis, after which nobody takes
-- the claim out of the set; or anything that leaves the set as it is, as the recording of
-- outcomes does.
pub data Step : Tasks → Tasks → Type 0 where
  gates :
      (key : String) (link : Option Link) (now : ℕ) (token : String) (w : World) (ts : List Task)
      → Step
          (record { world = w; tasks = ts })
          (record {
            world = (before_provider_probe key link now token w).1;
            tasks = probing (before_provider_probe key link now token w).0 ∷ ts;
          })
  claims :
      (provider : String) (w v : World) (ts : List Task)
      → claim_half_open provider w ≡ (true, v)
      → Step
          (record { world = w; tasks = ts })
          (record { world = v; tasks = waiting provider ∷ ts })
  locks :
      (provider : String) (policy : CircuitBreakerPolicy) (state : ProviderCircuitState)
      (available : Bool) (link : Option Link) (token : String) (w : World)
      (before after : List Task)
      → Step
          (record { world = w; tasks = before ++ waiting provider ∷ after })
          (record {
            world = (lock_half_open provider policy state available link token w).1;
            tasks =
                before
                ++ probing (lock_half_open provider policy state available link token w).0 ∷ after;
          })
  releases :
      (d : CircuitDecision) (link : Option Link) (w : World) (before after : List Task)
      → Step
          (record { world = w; tasks = before ++ probing d ∷ after })
          (record { world = release_provider_probe d link w; tasks = before ++ after })
  cancels :
      (provider : String) (w : World) (before after : List Task)
      → Step
          (record { world = w; tasks = before ++ waiting provider ∷ after })
          (record { world = w; tasks = before ++ after })
  elsewhere :
      (w v : World) (ts : List Task)
      → v.half_open_in_progress ≡ w.half_open_in_progress
      → Step (record { world = w; tasks = ts }) (record { world = v; tasks = ts })

pub data Reachable : Tasks → Type 0 where
  starts : (w : World) → w.half_open_in_progress ≡ [] → Reachable (record { world = w; tasks = [] })
  goes : (s t : Tasks) → Reachable s → Step s t → Reachable t

-- How many tasks hold the half-open probe of a provider.
abbrev pub owners : String → List Task → ℕ
owners name ts = count (holds name) ts

abbrev in_progress : String → World → Bool
in_progress name w = is_named name w.half_open_in_progress

-- Every holder is in the process's set, and no provider has two.
IsExclusive : Tasks → Type 0
IsExclusive t =
    (name : String)
    → (owners name t.tasks ≤ 1) × (1 ≤ owners name t.tasks → in_progress name t.world ≡ true)
