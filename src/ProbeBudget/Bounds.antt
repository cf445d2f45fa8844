-- ===== src/ProbeBudget/Bounds.antt =====
-- nabla/api/probe_budget.py: what the budget promises of all interleavings.
use fastapi_sample.Prelude.{
  String, ℕ, suc, ◌+◌, ◌≤◌, ◌≡◌, refl, Bool, true, List, [], ◌∷◌, Memᴰ, length, all, ltb, eqb,
  arith, eq_refl,
}
use fastapi_sample.ProbeBudget.{
  ProbeBudget, remaining_seconds, Job, Pool, remove_job, enter, acquire, give_up, leave, Outcome,
}
use fastapi_sample.ProbeBudget.Runs.{
  Step, enters, acquires, queue_expires, queue_cancelled, answers, origin_expires, origin_cancelled,
  passes, Reachable, starts, goes,
}

length-remove_job :
    (j : Job) (jobs : List Job) → Memᴰ j jobs → suc (length (remove_job j.id jobs)) ≡ length jobs
unfolding remove_job
length-remove_job j [] m = elim m [ ]
length-remove_job j (k ∷ ks) (Memᴰ.head e) = ground (arith, eq_refl j.id)
length-remove_job j (k ∷ ks) (Memᴰ.tail m) = ground (arith, length-remove_job j ks m)

-- The permits that are free and those of the running factories.
abbrev permits : Pool → ℕ
permits p = p.free + length p.running

leave-permits :
    (j : Job) (outcome : Outcome) (p : Pool)
    → Memᴰ j p.running
    → permits (leave j outcome p) ≡ permits p
unfolding leave
leave-permits j outcome p m = omega (arith, length-remove_job j p.running m)

Step-permits : (b : ProbeBudget) (p q : Pool) → Step b p q → permits q ≡ permits p
unfolding enter acquire give_up
Step-permits b _ _ (enters id p) = ground arith
Step-permits b _ _ (acquires j p m free) = ground arith
Step-permits b _ _ (queue_expires j p m late) = refl
Step-permits b _ _ (queue_cancelled j p m) = refl
Step-permits b _ _ (answers j p m) = leave-permits j _ p m
Step-permits b _ _ (origin_expires j p m late) = leave-permits j _ p m
Step-permits b _ _ (origin_cancelled j p m) = leave-permits j _ p m
Step-permits b _ _ (passes now p later) = refl

-- However the calls interleave, time out or are cancelled, the permits that are free and the
-- factories that run are together the concurrency of the budget.
pub Reachable-permits :
    (b : ProbeBudget) (p : Pool) → Reachable b p → p.free + length p.running ≡ b.max_concurrency
Reachable-permits b _ starts = omega arith
Reachable-permits b _ (goes p q r step) =
    omega (arith, Step-permits b p q step, Reachable-permits b p r)

abbrev pub deadline_at : ProbeBudget → ℕ
deadline_at b = b.started_at + b.deadline_seconds

-- Calls whose timeout is the budget's deadline, and starts before it.
abbrev pub all_until : ℕ → List Job → Bool
all_until t jobs = all (λ j. eqb j.until t) jobs

abbrev pub all_before : ℕ → List ℕ → Bool
all_before t times = all (λ n. ltb n t) times

record IsTimely (b : ProbeBudget) (p : Pool) : Type 0 where
  after_start : b.started_at ≤ p.now
  queued_until : all_until (deadline_at b) p.queued ≡ true
  running_until : all_until (deadline_at b) p.running ≡ true
  started_before : all_before (deadline_at b) p.started ≡ true

all_until-remove_job :
    (t : ℕ) (id : String) (jobs : List Job)
    → all_until t jobs ≡ true
    → all_until t (remove_job id jobs) ≡ true
unfolding remove_job
all_until-remove_job t id [] h = refl
all_until-remove_job t id (j ∷ js) h = ground (arith, all_until-remove_job t id js)

enter-IsTimely :
    (b : ProbeBudget) (id : String) (p : Pool) → IsTimely b p → IsTimely b (enter b id p)
unfolding enter remaining_seconds
enter-IsTimely b id p h = record {
  after_start = ground (arith, h.after_start);
  queued_until = ground (arith, h.after_start, h.queued_until);
  running_until = ground (arith, h.running_until);
  started_before = ground (arith, h.started_before);
}

acquire-IsTimely :
    (b : ProbeBudget) (j : Job) (p : Pool) → IsTimely b p → IsTimely b (acquire b j p)
unfolding acquire remaining_seconds
acquire-IsTimely b j p h =
    let removed = all_until-remove_job (deadline_at b) j.id p.queued h.queued_until in
    record {
      after_start = ground (arith, h.after_start);
      queued_until = ground (arith, removed);
      running_until = ground (arith, h.after_start, h.running_until);
      started_before = ground (arith, h.after_start, h.started_before);
    }

give_up-IsTimely :
    (b : ProbeBudget) (j : Job) (outcome : Outcome) (p : Pool)
    → IsTimely b p
    → IsTimely b (give_up j outcome p)
unfolding give_up
give_up-IsTimely b j outcome p h = record {
  after_start = h.after_start;
  queued_until = all_until-remove_job (deadline_at b) j.id p.queued h.queued_until;
  running_until = h.running_until;
  started_before = h.started_before;
}

leave-IsTimely :
    (b : ProbeBudget) (j : Job) (outcome : Outcome) (p : Pool)
    → IsTimely b p
    → IsTimely b (leave j outcome p)
unfolding leave
leave-IsTimely b j outcome p h = record {
  after_start = h.after_start;
  queued_until = h.queued_until;
  running_until = all_until-remove_job (deadline_at b) j.id p.running h.running_until;
  started_before = h.started_before;
}

Step-IsTimely : (b : ProbeBudget) (p q : Pool) → Step b p q → IsTimely b p → IsTimely b q
Step-IsTimely b _ _ (enters id p) h = enter-IsTimely b id p h
Step-IsTimely b _ _ (acquires j p m free) h = acquire-IsTimely b j p h
Step-IsTimely b _ _ (queue_expires j p m late) h = give_up-IsTimely b j _ p h
Step-IsTimely b _ _ (queue_cancelled j p m) h = give_up-IsTimely b j _ p h
Step-IsTimely b _ _ (answers j p m) h = leave-IsTimely b j _ p h
Step-IsTimely b _ _ (origin_expires j p m late) h = leave-IsTimely b j _ p h
Step-IsTimely b _ _ (origin_cancelled j p m) h = leave-IsTimely b j _ p h
Step-IsTimely b _ _ (passes now p later) h = record {
  after_start = omega (arith, h.after_start);
  queued_until = h.queued_until;
  running_until = h.running_until;
  started_before = h.started_before;
}

Reachable-IsTimely : (b : ProbeBudget) (p : Pool) → Reachable b p → IsTimely b p
Reachable-IsTimely b _ starts = record {
  after_start = omega arith;
  queued_until = refl;
  running_until = refl;
  started_before = refl;
}
Reachable-IsTimely b _ (goes p q r step) = Step-IsTimely b p q step (Reachable-IsTimely b p r)

-- However the calls interleave, no factory is started at or after the deadline of the budget, and
-- the timeout of every call that waits or runs is the deadline itself, however late the call came.
pub Reachable-deadline :
    (b : ProbeBudget) (p : Pool)
    → Reachable b p
    → (all_before (deadline_at b) p.started ≡ true)
      × (all_until (deadline_at b) p.queued ≡ true)
      × (all_until (deadline_at b) p.running ≡ true)
Reachable-deadline b p r =
    let t = Reachable-IsTimely b p r in (t.started_before, t.queued_until, t.running_until)
