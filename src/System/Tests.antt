-- ===== src/System/Tests.antt =====
-- Two coroutines, 50 and 51. The first locks the mutex at 200 and waits at 300; the second signals.
use libco.Base.{◌≡◌, ◌==◌, if◌then◌else◌, some, refl, none, [], ◌∷◌, arith}
use libco.Runtime.{World, waiting, ready, world, current}
use libco.Runtime.Samples.{sample, scheduler, routine}
use libco.Scheduler.{wake_timers}
use libco.Mutex.{lock}
use libco.Cond.{wait, signal}
use libco.Scheduler.{enter, leave}
use libco.Scheduler.Ready.{dequeue}
use libco.System.{Reach, start, step, enters, locks, waits, signals}

abbrev fresh : World
fresh = record sample {
  routines = λ _. record routine { state = ready };
  sched = record scheduler { ready_queue = 50 ∷ 51 ∷ []; current = none };
}

abbrev first_in : World
first_in = enter (dequeue fresh).1 50

abbrev locked : World
locked = world (lock first_in 200)

abbrev waiting_one : World
waiting_one = leave (world (wait locked 300 200)) 50

abbrev second_in : World
second_in = enter (dequeue waiting_one).1 51

abbrev signalled : World
signalled = (signal second_in 300).1

history : Reach signalled
unfolding enter dequeue lock wait leave current
history =
    step
      (step
        (step
          (step
            (step (start {w = fresh} (ground arith) (λ p i. refl) (λ q. refl) refl)
              (enters 50 (51 ∷ []) refl refl))
            (locks 50 200 refl (omega arith) refl))
          (waits 50 300 200 refl (omega arith) (omega arith) (omega arith) refl))
        (enters 51 [] refl refl))
      (signals 300 (omega arith))

ends : (signalled.sched.ready_queue ≡ 50 ∷ []) × (signalled.queues 300 ≡ [])
unfolding enter dequeue lock wait leave signal
ends = (refl, refl)

-- The coroutine 50 waits at 300 for 5 ms, from 1000 on; 51 is ready.
abbrev late_one : World
late_one = record sample {
  routines = λ p.
      if 50 == p
      then record routine { state = waiting; cond_wait_queue = some 300; wakeup_time = 1005 }
      else record routine { state = ready };
  queues = λ q. if 300 == q then 50 ∷ [] else [];
  sched = record scheduler {
    ready_queue = 51 ∷ [];
    current = none;
    timer_heap = record { heap = λ _. 50; count = 1; capacity = 16 };
  };
}

woken_late :
    ((wake_timers late_one 1005).sched.ready_queue ≡ 51 ∷ 50 ∷ [])
    × ((wake_timers late_one 1005).queues 300 ≡ [])
unfolding wake_timers
woken_late = (refl, refl)
