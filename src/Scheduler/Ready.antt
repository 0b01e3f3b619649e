-- ===== src/Scheduler/Ready.antt =====
-- The ready queue's operations in libco/src/co_scheduler.c.
use libco.Base.{ℕ, Option, none, some, List, [], ◌∷◌}
use libco.Runtime.{World, ready, push_ready, set_state, set_sched}

-- `co_scheduler_enqueue`.
unfoldable pub enqueue : World → ℕ → World
enqueue w p = set_state (push_ready w p) p ready

dequeue_from : List ℕ → World → Option ℕ × World
dequeue_from [] w = (none, w)
dequeue_from (p ∷ rest) w = (some p, set_sched w (record w.sched { ready_queue = rest }))

-- `co_scheduler_dequeue`.
unfoldable pub dequeue : World → Option ℕ × World
unfolding dequeue_from
dequeue w = dequeue_from w.sched.ready_queue w
