-- ===== src/Epoll/Tests.antt =====
-- The running coroutine 50 waits for input on descriptor 3, for 5 ms from 1000 on. Its context is at
-- 700. The mutex at 200 is held by 60.
use libco.Base.{ℕ, ◌≡◌, refl, true, some, List, [], ◌∷◌, arith}
use libco.Timer.Push.{IsValid}
use libco.Runtime.{World, world, ok, error, current, wakeups}
use libco.Runtime.Samples.{sample}
use libco.Mutex.{lock}
use libco.Scheduler.{wake_timers, enter}
use libco.Scheduler.Ready.{dequeue}
use libco.Epoll.{WaitCtx, done, add, wait_io, wait_io_resume, poll, events}
use libco.Epoll.Deliver.{named, Delivered, poll-Delivered}
use libco.Epoll.Calls.{Kernel}
use libco.Epoll.Timers.{Awaited, Resumed, wait_io-Awaited, wait_io_resume-Resumed}

abbrev start : World
start = record sample { mutexes = λ _. record { locked = true; owner = some 60 } }

abbrev ctxs : ℕ → WaitCtx
ctxs c = record { fd = 3; events = 1; revents = 0; timeout_ms = some 5; routine = some 50 }

registered : add (λ fd mask. done) (λ fd mask. done) (ctxs 700) ≡ ok
unfolding add
registered = refl

start-IsValid : IsValid (wakeups start) start.sched.timer_heap
start-IsValid = record {
  ordered = λ c p q. omega (arith, q);
  bounded = omega arith;
  nonempty = omega arith;
  fits = omega arith;
}

wait_io-Awaited_example :
    Awaited (λ _. true) start 1000 ok (some 5) 50 (wait_io (λ _. true) 1000 ok (some 5) start)
unfolding current
wait_io-Awaited_example =
    wait_io-Awaited (λ _. true) 1000 ok (some 5) start 50 refl start-IsValid refl (omega arith)

-- The peer hangs up: EPOLLIN and EPOLLHUP, reported twice.
abbrev hung_up : List (ℕ × ℕ)
hung_up = (700, 17) ∷ (700, 17) ∷ []

abbrev waiter : World
waiter = world (wait_io (λ _. true) 1000 ok (some 5) start)

poll-Delivered_example :
    let (e, count, later, v) = poll (events hung_up) ctxs waiter in
    Delivered waiter (50 ∷ 50 ∷ []) v
unfolding named
poll-Delivered_example = poll-Delivered hung_up ctxs waiter

-- The coroutine runs again, and its wait returns the error.
abbrev polled : World
polled = enter (dequeue (poll (events hung_up) ctxs waiter).3).1 50

abbrev seen : WaitCtx
seen = (poll (events hung_up) ctxs waiter).2 700

polled-IsValid : IsValid (wakeups polled) polled.sched.timer_heap
unfolding poll wait_io enter dequeue
polled-IsValid = record {
  ordered = λ c p q. omega (arith, p, q);
  bounded = omega arith;
  nonempty = omega arith;
  fits = omega arith;
}

wait_io_resume-Resumed_example : Resumed polled 50 seen (wait_io_resume polled 50 seen)
wait_io_resume-Resumed_example = wait_io_resume-Resumed polled 50 seen polled-IsValid

abbrev after : World
after = (wait_io_resume polled 50 seen).1

-- It then waits for the mutex. When the timer that was left behind is over, it is made ready while
-- its node is still linked into the mutex's queue.
abbrev torn : World
torn = wake_timers (world (lock after 200)) 1005

torn-queues :
    ((wait_io_resume polled 50 seen).0 ≡ error)
    × (torn.queues 200 ≡ 50 ∷ [])
    × (torn.sched.ready_queue ≡ 50 ∷ [])
unfolding poll wait_io enter dequeue wait_io_resume lock wake_timers
torn-queues = (refl, refl, refl)

abbrev kernel : Kernel
kernel = record {
  realloc = λ _. true;
  now = 1000;
  ctl_add = λ fd mask. done;
  ctl_mod = λ fd mask. done;
}
