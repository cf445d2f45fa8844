-- ===== src/ProbeBudget/Runs.antt =====
-- nabla/api/probe_budget.py: the interleavings of the calls of `run` on one budget.
use fastapi_sample.Prelude.{String, ℕ, ◌≤◌, ◌<◌, Memᴰ}
use fastapi_sample.ProbeBudget.{
  ProbeBudget, queue, origin, answered, timed_out, cancelled, Job, Pool, new_pool, enter, acquire,
  give_up, leave, at,
}

-- The next section of one of the calls, or the clock.
pub data Step (b : ProbeBudget) : Pool → Pool → Type 0 where
  enters : (id : String) (p : Pool) → Step b p (enter b id p)
  acquires : (j : Job) (p : Pool) → Memᴰ j p.queued → 0 < p.free → Step b p (acquire b j p)
  queue_expires :
      (j : Job) (p : Pool)
      → Memᴰ j p.queued
      → j.until ≤ p.now
      → Step b p (give_up j (timed_out queue) p)
  queue_cancelled : (j : Job) (p : Pool) → Memᴰ j p.queued → Step b p (give_up j cancelled p)
  answers : (j : Job) (p : Pool) → Memᴰ j p.running → Step b p (leave j answered p)
  origin_expires :
      (j : Job) (p : Pool)
      → Memᴰ j p.running
      → j.until ≤ p.now
      → Step b p (leave j (timed_out origin) p)
  origin_cancelled : (j : Job) (p : Pool) → Memᴰ j p.running → Step b p (leave j cancelled p)
  passes : (now : ℕ) (p : Pool) → p.now ≤ now → Step b p (at now p)

pub data Reachable (b : ProbeBudget) : Pool → Type 0 where
  starts : Reachable b (new_pool b)
  goes : (p q : Pool) → Reachable b p → Step b p q → Reachable b q
