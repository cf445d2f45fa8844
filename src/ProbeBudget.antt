-- ===== src/ProbeBudget.antt =====
-- nabla/api/probe_budget.py: the concurrency and the deadline of one health request's probes. Each
-- section between two suspensions of `run` is a function; asyncio's semaphore is the number of
-- permits that are free. Times are whole microseconds of the monotonic clock.
pub mod Runs
pub mod Bounds
mod Tests
use fastapi_sample.Prelude.{
  String, ℕ, ◌+◌, ◌-◌, Bool, true, false, ◌&&◌, ◌==◌, List, [], ◌∷◌, ltb, leb, if◌then◌else◌,
}

pub record ProbeBudget : Type 0 where
  pub deadline_seconds : ℕ
  pub max_concurrency : ℕ
  pub started_at : ℕ

-- `__post_init__` raises for the others.
unfoldable pub is_valid_budget : ProbeBudget → Bool
is_valid_budget b = ltb 0 b.deadline_seconds && leb 1 b.max_concurrency

unfoldable pub remaining_seconds : ProbeBudget → ℕ → ℕ
remaining_seconds b now = b.deadline_seconds - (now - b.started_at)

pub data Timeout : Type 0 where
  deadline queue origin : Timeout

-- The factory's own exception is an answer of the factory here.
pub data Outcome : Type 0 where
  answered : Outcome
  timed_out : Timeout → Outcome
  cancelled : Outcome

-- A call of `run`, with the time at which its `asyncio.timeout` expires.
pub record Job : Type 0 where
  pub id : String
  pub until : ℕ

-- The calls that wait for a permit, and those whose factory runs; the times at which a factory was
-- started, and the outcomes.
pub record Pool : Type 0 where
  pub now : ℕ
  pub free : ℕ
  pub queued : List Job
  pub running : List Job
  pub started : List ℕ
  pub outcomes : List (String × Outcome)

-- The state after `__post_init__`.
abbrev pub new_pool : ProbeBudget → Pool
new_pool b = record {
  now = b.started_at;
  free = b.max_concurrency;
  queued = [];
  running = [];
  started = [];
  outcomes = [];
}

unfoldable pub remove_job : String → List Job → List Job
remove_job id [] = []
remove_job id (j ∷ js) = let rest = remove_job id js in if j.id == id then js else j ∷ rest

abbrev pub job : String → ℕ → Job
job id until = record { id = id; until = until }

abbrev set_queued : List Job → Pool → Pool
set_queued jobs p = record {
  now = p.now;
  free = p.free;
  queued = jobs;
  running = p.running;
  started = p.started;
  outcomes = p.outcomes;
}

abbrev finish : String → Outcome → Pool → Pool
finish id outcome p = record {
  now = p.now;
  free = p.free;
  queued = p.queued;
  running = p.running;
  started = p.started;
  outcomes = (id, outcome) ∷ p.outcomes;
}

-- The start of `run`, up to the wait for a permit.
unfoldable pub enter : ProbeBudget → String → Pool → Pool
enter b id p =
    let remaining = remaining_seconds b p.now in
    if leb remaining 0
    then finish id (timed_out deadline) p
    else set_queued (job id (p.now + remaining) ∷ p.queued) p

-- A permit is acquired: the deadline is tested again, then the factory is started or the permit is
-- released.
unfoldable pub acquire : ProbeBudget → Job → Pool → Pool
acquire b j p =
    let remaining = remaining_seconds b p.now in
    let v = set_queued (remove_job j.id p.queued) p in
    if leb remaining 0 then finish j.id (timed_out deadline) v else record {
      now = p.now;
      free = p.free - 1;
      queued = v.queued;
      running = job j.id (p.now + remaining) ∷ p.running;
      started = p.now ∷ p.started;
      outcomes = p.outcomes;
    }

-- The wait for a permit ends without one.
unfoldable pub give_up : Job → Outcome → Pool → Pool
give_up j outcome p = finish j.id outcome (set_queued (remove_job j.id p.queued) p)

-- The factory ends, by itself or not, and the permit is released.
unfoldable pub leave : Job → Outcome → Pool → Pool
leave j outcome p = record {
  now = p.now;
  free = p.free + 1;
  queued = p.queued;
  running = remove_job j.id p.running;
  started = p.started;
  outcomes = (j.id, outcome) ∷ p.outcomes;
}

abbrev pub at : ℕ → Pool → Pool
at now p = record {
  now = now;
  free = p.free;
  queued = p.queued;
  running = p.running;
  started = p.started;
  outcomes = p.outcomes;
}
