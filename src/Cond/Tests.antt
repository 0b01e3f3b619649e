-- ===== src/Cond/Tests.antt =====
-- A condition variable at 300 on which the coroutines 51 and 52 wait, and a mutex at 200 that the
-- running coroutine 50 holds.
use libco.Base.{◌≡◌, refl, true, false, some, [], ◌∷◌, arith, store}
use libco.Runtime.{World, Routine, world, ok, waiting}
use libco.Runtime.Samples.{sample, routine}
use libco.Cond.{broadcast, timedwait}
use libco.Cond.Wake.{Woken, broadcast-Woken}

abbrev waiter : Routine
waiter = record routine { state = waiting; cond_wait_queue = some 300 }

abbrev pair : World
pair = record sample {
  routines = store (store sample.routines 51 waiter) 52 waiter;
  queues = store sample.queues 300 (51 ∷ 52 ∷ []);
  mutexes = λ _. record { locked = true; owner = some 50 };
}

-- A timed wait without memory for its timer leaves the line as it was.
rolled_back :
    (world (
        timedwait
          (λ _. false)
          1000
          (record pair {
            sched = record pair.sched {
              timer_heap = record { heap = λ _. 0; count = 0; capacity = 0 };
            };
          })
          300
          200
          5)).queues
      300
    ≡ 51 ∷ 52 ∷ []
unfolding timedwait
rolled_back = refl

broadcast-Woken_example :
    ((broadcast pair 300).0 ≡ ok) × Woken pair 300 (51 ∷ 52 ∷ []) [] (broadcast pair 300).1
broadcast-Woken_example = broadcast-Woken pair 300 (omega arith)
