-- ===== src/Scheduler/Tests.antt =====
-- The scheduler with 51 and 52 ready, and with 51 asleep until 2000.
use libco.Base.{
  ℕ, ◌+◌, ◌-◌, ◌%◌, ◌<◌, ◌≡◌, ◌↔◌, refl, true, none, some, List, [], ◌∷◌, ◌++◌, arith, Option-cases,
  inl, inr, sym, false, length, Bool-cases, ◌==◌,
}
use mathlib.Core.List.{append-nil}
use libco.Timer.Push.{IsValid}
use libco.Runtime.{World, set_sched, Error, world, ok, ready, waiting, wakeups, current}
use libco.Runtime.Samples.{sample, routine, scheduler}
use libco.Coroutine
use libco.Coroutine.{yield_now, yield_as, sleep, finish}
use libco.Scheduler.{
  destroy, wake_timers, io_timeout, run, schedule, schedule_next, enter, leave, is_dead,
}
use libco.Scheduler.Ready.{dequeue}
use libco.Scheduler.Ends.{IsQuiet, Ended, Works, run-Ended}
use libco.Scheduler.Timers.{Fired, wake_timers-Fired}
use libco.Scheduler.Timeout.{IsExact, deadline, io_timeout-IsExact}
use libco.Scheduler.Wakeup.{sleep-wake_timers}
use libco.Base.Tally.{occ, tally}
use libco.Cond.{signal, timedwait}
use libco.Scheduler.Teardown.{destroy-occ}
use libco.Scheduler.Turns.{Appends, turns, played, turns-fifo, leave-ready}

abbrev yields : World → ℕ → Error × World
yields w p = (ok, world (yield_now w))

yields-Appends : Appends yields
unfolding yield_now yield_as
yields-Appends w p = elim (Option-cases (current w)) [
  | inl e ↦ rw e ([], sym (append-nil w.sched.ready_queue))
  | inr (q, e) ↦ rw e (q ∷ [], refl)
]

abbrev both_ready : World
both_ready = record sample {
  sched = record scheduler { ready_queue = 51 ∷ 52 ∷ []; current = none };
}

turns-fifo_example :
    (turns yields 2 both_ready ≡ played yields (51 ∷ 52 ∷ []) both_ready)
    × ((more : List ℕ) × ((turns yields 2 both_ready).sched.ready_queue ≡ [] ++ more))
turns-fifo_example = turns-fifo yields yields-Appends (51 ∷ 52 ∷ []) [] both_ready refl

-- After three turns of two coroutines that yield, the second is next.
around : (turns yields 3 both_ready).sched.ready_queue ≡ 52 ∷ 51 ∷ []
unfolding turns yield_now
around = refl

abbrev drowsy : World
drowsy = record sample { sched = record scheduler { current = some 51 } }

drowsy-IsValid : IsValid (wakeups drowsy) drowsy.sched.timer_heap
drowsy-IsValid = record {
  ordered = λ c p q. omega (arith, q);
  bounded = omega arith;
  nonempty = omega arith;
  fits = omega arith;
}

abbrev asleep : World
asleep = world (sleep (λ _. true) 1000 drowsy 1000)

asleep-IsValid : IsValid (wakeups asleep) asleep.sched.timer_heap
unfolding sleep
asleep-IsValid = record {
  ordered = λ c p q. omega (arith, p, q);
  bounded = omega arith;
  nonempty = omega arith;
  fits = omega arith;
}

wake_timers-Fired_example : Fired asleep 2000 (wake_timers asleep 2000)
wake_timers-Fired_example = wake_timers-Fired asleep 2000 asleep-IsValid

awake : (wake_timers asleep 2000).sched.ready_queue ≡ 51 ∷ []
unfolding sleep wake_timers
awake = refl

-- A sleep of 2 ^ 31 ms: the timeout is a negative `int`.
abbrev deep : World
deep = record sample {
  routines = λ _. record routine { state = waiting; wakeup_time = 2147484648 };
  sched = record scheduler {
    timer_heap = record { heap = λ _. 51; count = 1; capacity = 16 };
    current = none;
  };
}

io_timeout-IsExact_example :
    (io_timeout deep 1000 ≡ (deadline deep - 1000) % 4294967296)
    × (IsExact (io_timeout deep 1000) (deadline deep - 1000) ↔ (deadline deep - 1000 < 2147483648))
io_timeout-IsExact_example =
    io_timeout-IsExact deep 1000 (omega arith) (omega arith) (omega arith) (omega arith)

-- A coroutine that slept from 1000 for 1000 ms is awake at 2000.
sleep-wake_timers_example :
    (((wake_timers asleep 2000).routines 51).state ≡ ready)
    × (occ 51 (wake_timers asleep 2000).sched.ready_queue ≡ 1)
unfolding sleep current
sleep-wake_timers_example =
    sleep-wake_timers (λ _. true) 1000 drowsy asleep 1000 51 2000 (omega arith) refl drowsy-IsValid
      refl (omega arith) refl

-- 50 waits at 300 with a time-out and is signalled. Its timer is still set while it is ready.
abbrev signalled : World
signalled = (signal (world (timedwait (λ _. true) 1000 sample 300 200 5)) 300).1

signalled-IsValid : IsValid (wakeups signalled) signalled.sched.timer_heap
unfolding signal timedwait
signalled-IsValid = record {
  ordered = λ c p q. omega (arith, p, q);
  bounded = omega arith;
  nonempty = omega arith;
  fits = omega arith;
}

-- So it would be freed twice.
destroy-occ_example :
    occ 50 (destroy signalled).0
    ≡ occ 50 signalled.sched.ready_queue
      + tally 50 signalled.sched.timer_heap.count signalled.sched.timer_heap.heap
destroy-occ_example = destroy-occ signalled 50 signalled-IsValid

twice : (destroy signalled).0 ≡ 50 ∷ 50 ∷ []
unfolding signal timedwait destroy
twice = refl

-- Both coroutines finish in their first turn.
abbrev finishes : World → ℕ → Error × World
finishes w p = (ok, finish w p 0)

leave-IsQuiet : (w : World) (p : ℕ) → IsQuiet w → IsQuiet (leave w p)
unfolding leave Coroutine.destroy
leave-IsQuiet w p q = elim (Bool-cases (is_dead (w.routines p).state)) [
  | inr alive ↦ rw alive (record { timers = q.timers; outstanding = q.outstanding })
  | inl d ↦ rw d (elim (Bool-cases (p == 0)) [
    | inl z ↦ rw z (record { timers = q.timers; outstanding = q.outstanding })
    | inr n ↦ rw n (record { timers = q.timers; outstanding = q.outstanding })
  ])
]

finishes-Works : Works finishes (λ w t. w) (λ w. length w.sched.ready_queue)
unfolding schedule schedule_next dequeue enter finish
finishes-Works w p rest q e t =
    let left = finish (enter (set_sched w (record w.sched { ready_queue = rest })) p) p 0 in
    rw e (
      leave-IsQuiet left p (record { timers = q.timers; outstanding = q.outstanding }),
      rw (leave-ready left p) (omega arith),
    )

abbrev fresh : World
fresh = record both_ready { sched = record both_ready.sched { running = false }; active = false }

run-Ended_example :
    (e : Error) × (v : World) × (run finishes (λ w t. w) 3 (λ i. i) true fresh ≡ some (e, v))
    × Ended v e
    × (v.sched.running ≡ false)
    × (v.active ≡ false)
run-Ended_example =
    run-Ended finishes (λ w t. w) (λ w. length w.sched.ready_queue) finishes-Works 3 (λ i. i) fresh
      (record { timers = refl; outstanding = refl }) refl (omega arith)
