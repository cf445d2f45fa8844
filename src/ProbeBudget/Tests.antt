-- ===== src/ProbeBudget/Tests.antt =====
-- nabla/api/probe_budget.py: two calls on one permit.
use fastapi_sample.Prelude.{◌+◌, ◌≡◌, refl, true, [], ◌∷◌, Memᴰ, length, arith}
use fastapi_sample.ProbeBudget.{
  ProbeBudget, is_valid_budget, remaining_seconds, deadline, answered, timed_out, job, Pool,
  new_pool, remove_job, enter, acquire, leave, at,
}
use fastapi_sample.ProbeBudget.Runs.{enters, acquires, Reachable, starts, goes}
use fastapi_sample.ProbeBudget.Bounds.{
  deadline_at, all_before, all_until, Reachable-permits, Reachable-deadline,
}

abbrev budget : ProbeBudget
budget = record { deadline_seconds = 100; max_concurrency = 1; started_at = 7 }

is_valid : is_valid_budget budget ≡ true
unfolding is_valid_budget
is_valid = refl

abbrev both : Pool
both = record {
  now = 7;
  free = 1;
  queued = job "b" 107 ∷ job "a" 107 ∷ [];
  running = [];
  started = [];
  outcomes = [];
}

abbrev one : Pool
one = record {
  now = 7;
  free = 0;
  queued = job "b" 107 ∷ [];
  running = job "a" 107 ∷ [];
  started = 7 ∷ [];
  outcomes = [];
}

entered : enter budget "b" (enter budget "a" (new_pool budget)) ≡ both
unfolding enter remaining_seconds
entered = refl

acquired : acquire budget (job "a" 107) both ≡ one
unfolding acquire remaining_seconds remove_job
acquired = refl

-- The permit that comes after the deadline is given back.
too_late : acquire budget (job "b" 107) (at 107 (leave (job "a" 107) answered one)) ≡ record {
  now = 107;
  free = 1;
  queued = [];
  running = [];
  started = 7 ∷ [];
  outcomes = ("b", timed_out deadline) ∷ ("a", answered) ∷ [];
}
unfolding acquire leave remaining_seconds remove_job
too_late = refl

reached : Reachable budget one
unfolding enter acquire remaining_seconds remove_job
reached =
    goes both one
      (goes (enter budget "a" (new_pool budget)) both
        (goes (new_pool budget) (enter budget "a" (new_pool budget)) starts
          (enters "a" (new_pool budget)))
        (enters "b" (enter budget "a" (new_pool budget))))
      (acquires (job "a" 107) both (Memᴰ.tail (Memᴰ.head refl)) (omega arith))

Reachable-permits_example : one.free + length one.running ≡ 1
Reachable-permits_example = Reachable-permits budget one reached

Reachable-deadline_example :
    (all_before (deadline_at budget) one.started ≡ true)
    × (all_until (deadline_at budget) one.queued ≡ true)
    × (all_until (deadline_at budget) one.running ≡ true)
Reachable-deadline_example = Reachable-deadline budget one reached
