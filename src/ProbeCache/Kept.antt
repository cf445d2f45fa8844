-- ===== src/ProbeCache/Kept.antt =====
-- nabla/api/external_probe_cache.py: what a refresh leaves in L1 and in Redis, and the calls that
-- follow it.
use fastapi_sample.Prelude.{
  String, ℕ, ◌≡◌, refl, ◌∙◌, sym, inl, inr, Bool, true, false, Option, none, some, Option-cases,
  arith, if◌then◌else◌, eq_refl,
}
use fastapi_sample.Prelude.Dict.{lookup, lookup-insert}
use fastapi_sample.ProviderCircuit.Gate.{CircuitDecision}
use fastapi_sample.ProbeRate.{ProviderProbeBudgetDecision}
use fastapi_sample.ProbeCache.Envelope.{
  ProbeCachePolicy, Evidence, Envelope, value_of, valid_last_good, is_some, metadata,
  ProbeCacheResult, result_from_envelope,
}
use fastapi_sample.ProbeCache.Store.{
  Instant, CacheWorld, Client, origin_started, origin_refresh, emit, l1_put,
}
use fastapi_sample.ProbeCache.Origin.{
  Loader, Recording, Origin, load_origin, new_envelope, store_refreshed_envelope,
}
use fastapi_sample.ProbeCache.Calls.{Call, answered, from_origin}
use fastapi_sample.ProbeCache.Refresh.{answer_origin, ask_origin}
use fastapi_sample.ProbeCache.Freshness.{served_value-plain, result_from_envelope-fields}
use fastapi_sample.ProbeCache.Observed.{Same, observe-Same}

store_refreshed_envelope-l1 :
    (key : String) (client : Option Client) (available : Bool) (envelope : Envelope) (at : Instant)
    (w : CacheWorld)
    → lookup key (store_refreshed_envelope key client available envelope at w).1.l1_entries
      ≡ some (envelope, at.mono)
unfolding store_refreshed_envelope l1_put
store_refreshed_envelope-l1 key none available envelope at w =
    ground (arith, lookup-insert key key (envelope, at.mono) w.l1_entries, eq_refl key)
store_refreshed_envelope-l1 key (some client) available envelope at w =
    ground (arith, lookup-insert key key (envelope, at.mono) w.l1_entries, eq_refl key)

pub new_envelope-value :
    (last : Envelope) (o : Origin) (policy : ProbeCachePolicy) (now : ℕ)
    → value_of (new_envelope last o policy now).current ≡ some o.value
unfolding new_envelope value_of
new_envelope-value last o policy now = refl

-- A result that is stored at its time in L1, in an envelope whose current record has its value.
pub record IsStored (c : Call) (last : Envelope) (w : CacheWorld) (r : ProbeCacheResult)
    : Type 0 where
  pub origin : Origin
  pub has_value : origin.value ≡ r.value
  pub has_success : origin.success ≡ c.is_success r.value
  pub has_last_good :
      r.last_good
      ≡ value_of (
          valid_last_good
            (new_envelope last origin c.policy c.stored.wall)
            c.replied
            c.policy.stale_ttl)
  pub has_stale : r.metadata.stale ≡ (
      if origin.success
      then false
      else is_some (valid_last_good last c.stored.wall c.policy.stale_ttl))
  pub in_l1 :
      lookup c.key w.l1_entries
      ≡ some (new_envelope last origin c.policy c.stored.wall, c.stored.mono)

answer_origin-value :
    (c : Call) (client : Option Client) (available : Bool) (last : Envelope) (o : Origin)
    (w : CacheWorld) (r : ProbeCacheResult)
    → (answer_origin c client available last o w).0 ≡ answered r
    → (r.value ≡ o.value)
      × (r.last_good
          ≡ value_of (
              valid_last_good
                (new_envelope last o c.policy c.stored.wall)
                c.replied
                c.policy.stale_ttl))
      × (r.metadata.stale ≡ (
          if o.success
          then false
          else is_some (valid_last_good last c.stored.wall c.policy.stale_ttl)))
      × (lookup c.key (answer_origin c client available last o w).1.l1_entries
          ≡ some (new_envelope last o c.policy c.stored.wall, c.stored.mono))
unfolding answer_origin metadata Same
answer_origin-value c client available last o w r e =
    let envelope = new_envelope last o c.policy c.stored.wall in
    let (shared, v) = store_refreshed_envelope c.key client available envelope c.stored w in
    let stale =
      if o.success
      then false
      else is_some (valid_last_good last c.stored.wall c.policy.stale_ttl) in
    let s = from_origin shared stale in
    elim (Option-cases (result_from_envelope envelope c.policy s c.replied)) [
      | inl missing ↦ absurd (ground arith)
      | inr (t, is) ↦
          let fields = result_from_envelope-fields envelope c.policy s c.replied t is in
          let plain =
            served_value-plain (value_of (valid_last_good envelope c.replied c.policy.stale_ttl))
              (value_of envelope.current) in
          (
            ground (arith, fields, plain, new_envelope-value last o c.policy c.stored.wall),
            ground (arith, fields),
            ground (arith, fields),
            ground (
              arith,
              (observe-Same t v).1,
              store_refreshed_envelope-l1 c.key client available envelope c.stored w,
            ),
          )
    ]

load_origin-success :
    (loader : Loader) (rate : ProviderProbeBudgetDecision) (d : CircuitDecision)
    (is_success : String → Bool) (is_provider_success : Option (String → Bool))
    (client : Option Client) (times : Recording) (w : CacheWorld) (o : Origin)
    → (load_origin loader rate d is_success is_provider_success client times w).0 ≡ some o
    → o.success ≡ is_success o.value
unfolding load_origin
load_origin-success loader rate d is_success is_provider_success client times w o h =
    let (answer, v) = loader (emit (origin_started rate.provider) (emit origin_refresh w)) in
    ground (arith, Option-cases answer)

-- An answer of the loader is that of an origin, which is kept in L1.
pub ask_origin-IsStored :
    (c : Call) (client : Option Client) (available : Bool) (last : Envelope) (d : CircuitDecision)
    (rate : ProviderProbeBudgetDecision) (w : CacheWorld) (r : ProbeCacheResult)
    → (ask_origin c client available last d rate w).0 ≡ answered r
    → IsStored c last (ask_origin c client available last d rate w).1 r
unfolding ask_origin
ask_origin-IsStored c client available last d rate w r e =
    let (got, v) =
      load_origin c.loader rate d c.is_success c.is_provider_success client c.recording w in
    elim (Option-cases
      (load_origin c.loader rate d c.is_success c.is_provider_success client c.recording w).0) [
        | inl raised ↦ absurd (ground arith)
        | inr (o, is) ↦
            let facts = answer_origin-value c client available last o v r (ground arith) in
            let succeeds =
              load_origin-success c.loader rate d c.is_success c.is_provider_success client
                c.recording w o is in
            record {
              origin = o;
              has_value = sym facts.0;
              has_success = ground (arith, facts, succeeds);
              has_last_good = facts.1;
              has_stale = facts.2;
              in_l1 = ground (arith, facts);
            }
      ]

valid_last_good-again :
    (last : Envelope) (o : Origin) (policy : ProbeCachePolicy) (now later : ℕ) (e : Evidence)
    → o.success ≡ false
    → valid_last_good last now policy.stale_ttl ≡ some e
    → valid_last_good (new_envelope last o policy now) later policy.stale_ttl
      ≡ valid_last_good last later policy.stale_ttl
unfolding valid_last_good new_envelope
valid_last_good-again last o policy now later e failed kept =
    ground (arith, Option-cases last.last_good)

-- A refresh whose value is no success keeps the good evidence that is in its window when the value
-- is stored: L1 then has an envelope with that evidence, and the reply is marked stale; and it carries
-- the good value beside its own as long as the evidence is in its window when the reply is made.
-- Where the window ends while Redis takes the record, the reply is marked stale without a good value.
pub ask_origin-last_good :
    (c : Call) (client : Option Client) (available : Bool) (last : Envelope) (d : CircuitDecision)
    (rate : ProviderProbeBudgetDecision) (w : CacheWorld) (r : ProbeCacheResult) (e : Evidence)
    → (ask_origin c client available last d rate w).0 ≡ answered r
    → c.is_success r.value ≡ false
    → valid_last_good last c.stored.wall c.policy.stale_ttl ≡ some e
    → (r.last_good ≡ value_of (valid_last_good last c.replied c.policy.stale_ttl))
      × (r.metadata.stale ≡ true)
      × ((kept : Envelope) × (lookup c.key
              (ask_origin c client available last d rate w).1.l1_entries
            ≡ some (kept, c.stored.mono))
          × (valid_last_good kept c.stored.wall c.policy.stale_ttl ≡ some e))
unfolding value_of
ask_origin-last_good c client available last d rate w r e h failed good =
    let stored = ask_origin-IsStored c client available last d rate w r h in
    let no_success : stored.origin.success ≡ false = ground (arith, stored.has_success) in
    let kept = valid_last_good-again last stored.origin c.policy c.stored.wall in
    (
      ground (arith, stored.has_last_good, kept c.replied e no_success good),
      ground (arith, stored.has_stale, stored.has_success),
      (
        new_envelope last stored.origin c.policy c.stored.wall,
        stored.in_l1,
        kept c.stored.wall e no_success good ∙ good,
      ),
    )
