-- ===== src/Epoll.antt =====
-- libco/src/platform/linux/iomux_epoll.c, libco/src/co_iomux.h: waiting for I/O with epoll.
-- The kernel is outside: `epoll_ctl` says what that call answers, and a list gives the events of
-- `epoll_wait`. A negative time-out is `none`. The scheduler's multiplexer is there, as create of the
-- scheduler requires. Bits are tested by division and set by addition, where they are apart.
pub mod Deliver
pub mod Timers
pub mod Calls
pub mod Life
pub mod Retry
mod Tests
use libco.Base.{
  ℕ, ◌+◌, ◌-◌, ◌/◌, ◌%◌, ◌^◌, ◌||◌, ◌&&◌, not, ◌==◌, Bool, true, false, Option, none, some, List,
  [], ◌∷◌, if◌then◌else◌, store, word, length,
}
use libco.Timer
use libco.Timer.{TimerHeap}
use libco.Runtime.{
  Error, State, World, Outcome, returns, suspends, ok, error, nomem, inval, platform, timeout,
  ready, waiting, current, set_routine, set_sched, set_timers, wakeups, push_ready,
}
use libco.Scheduler.{is_waiting}

-- `co_io_wait_ctx_t`, without the fields of Windows and the deadline, which is not used here.
pub record WaitCtx : Type 0 where
  pub fd : ℕ
  pub events : ℕ
  pub revents : ℕ
  pub timeout_ms : Option ℕ
  pub routine : Option ℕ

-- The answers of `epoll_ctl`: success, `EEXIST`, `ENOENT`, or another error.
pub data Answer : Type 0 where
  done exists absent refused : Answer

abbrev pub is_read : ℕ → Bool
is_read events = events % 2 == 1

abbrev pub is_write : ℕ → Bool
is_write events = events / 2 % 2 == 1

abbrev pub is_error : ℕ → Bool
is_error events = events / 4 % 2 == 1

-- The mask of an interest: EPOLLIN, EPOLLOUT, and EPOLLET, which is the top bit.
unfoldable pub interest : (events : ℕ) → ℕ
interest events = (if is_read events then 1 else 0) + (if is_write events then 4 else 0) + 2 ^ 31

-- The events of an answer of `epoll_wait`: EPOLLIN, EPOLLOUT, and EPOLLERR or EPOLLHUP.
unfoldable pub translate : (flags : ℕ) → ℕ
translate flags =
    (if flags % 2 == 1 then 1 else 0)
    + (if flags / 4 % 2 == 1 then 2 else 0)
    + (if flags / 8 % 2 == 1 || flags / 16 % 2 == 1 then 4 else 0)

modified : Answer → Error
modified done = ok
modified a = platform

-- `co_iomux_mod`, where `epoll_ctl` answers on a descriptor and a mask.
unfoldable pub mod_interest : (epoll_ctl : ℕ → ℕ → Answer) → WaitCtx → Error
unfolding modified interest
mod_interest epoll_ctl ctx = modified (epoll_ctl ctx.fd (interest ctx.events))

added : Answer → Error → Error
added done again = ok
added exists again = again
added a again = platform

-- `co_iomux_add`, with the answers to EPOLL_CTL_ADD and EPOLL_CTL_MOD.
unfoldable pub add : (ctl_add ctl_mod : ℕ → ℕ → Answer) → WaitCtx → Error
unfolding added mod_interest interest
add ctl_add ctl_mod ctx = added (ctl_add ctx.fd (interest ctx.events)) (mod_interest ctl_mod ctx)

-- One ready event: the coroutine of its context, if it still waits, is made ready.
unfoldable pub wake_waiter : World → ℕ → World
wake_waiter w p =
    let r = record (w.routines p) { state = ready; io_waiting = false } in
    let w1 = set_routine w p r in
    let w2 = set_sched w1 (record w1.sched {
      waiting_io_count = (w1.sched.waiting_io_count + (2 ^ 32 - 1)) % 2 ^ 32;
    }) in
    if is_waiting (w.routines p).state then push_ready w2 p else w

-- The loop of `co_iomux_poll` over the events, each the address of a context and the flags.
unfoldable pub deliver : List (ℕ × ℕ) → (ℕ → WaitCtx) → World → (ℕ → WaitCtx) × World
unfolding translate wake_waiter
deliver [] ctxs w = (ctxs, w)
deliver ((c, flags) ∷ events) ctxs w =
    let seen = store ctxs c (record (ctxs c) { revents = translate flags }) in
    if c == 0 then deliver events ctxs w else elim (ctxs c).routine [
      | none ↦ deliver events ctxs w
      | some p ↦ deliver events seen (wake_waiter w p)
    ]

-- The timer of a wait: with a time-out, a deadline and an entry in the heap.
unfoldable pub await_until : World → (p deadline : ℕ) → World
await_until w p deadline =
    set_routine w p (record (w.routines p) { wakeup_time = deadline; io_waiting = true })

abbrev pub set_io_waiting : World → ℕ → Bool → World
set_io_waiting w p b = set_routine w p (record (w.routines p) { io_waiting = b })

-- After the timer: the registration, whose result is given, and the switch.
unfoldable pub register : (registered : Error) → World → (p : ℕ) → Outcome
register ok w p =
    let w1 = set_routine w p (record (w.routines p) { state = waiting }) in
    suspends (
      set_sched w1
        (record w1.sched { waiting_io_count = (w1.sched.waiting_io_count + 1) % 2 ^ 32 }))
register e w p = returns e (set_io_waiting w p false)

-- The answer of the heap, with the heap after it.
unfoldable pub armed : Bool × TimerHeap → (registered : Error) → World → (p : ℕ) → Outcome
unfolding register
armed (true, timers) registered w p = register registered (set_timers w timers) p
armed (false, timers) registered w p = returns nomem (set_io_waiting w p false)

unfoldable pub wait_io_as :
    Option ℕ
    → (realloc : ℕ → Bool) → (now : ℕ) → (registered : Error) → (timeout_ms : Option ℕ) → World
    → Outcome
unfolding armed register await_until Timer.push
wait_io_as none realloc now registered timeout_ms w = returns inval w
wait_io_as (some p) realloc now registered timeout_ms w =
    let fresh = set_routine w p (record (w.routines p) { timed_out = false; io_waiting = false }) in
    elim timeout_ms [
      | none ↦ register registered fresh p
      | some ms ↦
          let w1 = await_until fresh p ((now + ms) % word) in
          armed (Timer.push (wakeups w1) realloc w.sched.timer_heap p) registered w1 p
    ]

-- `co_wait_io` up to its switch. `registered` is what `co_iomux_add` returns.
unfoldable pub wait_io :
    (realloc : ℕ → Bool)
    → (now : ℕ) → (registered : Error) → (timeout_ms : Option ℕ) → World
    → Outcome
unfolding wait_io_as current
wait_io realloc now registered timeout_ms w =
    wait_io_as (current w) realloc now registered timeout_ms w

-- `co_wait_io` from its switch on, in the coroutine `p` with the context `ctx`.
unfoldable pub wait_io_resume : World → (p : ℕ) → WaitCtx → Error × World
unfolding Timer.remove
wait_io_resume w p ctx =
    let w1 = set_io_waiting w p false in
    let cancelled = set_timers w1 (Timer.remove (wakeups w1) w1.sched.timer_heap p).1 in
    if (w.routines p).timed_out
    then (timeout, w)
    else if is_error ctx.revents
    then (error, w)
    else (ok, elim ctx.timeout_ms [ none ↦ w | some ms ↦ cancelled ])

-- What `epoll_wait` answers; no event means that the time is over.
pub data Waited : Type 0 where
  events : List (ℕ × ℕ) → Waited
  interrupted failed : Waited

-- `co_iomux_poll`: its result, the count that it writes, if it does, and what it leaves.
unfoldable pub poll : Waited → (ℕ → WaitCtx) → World → Error × Option ℕ × (ℕ → WaitCtx) × World
unfolding deliver
poll interrupted ctxs w = (ok, some 0, ctxs, w)
poll failed ctxs w = (platform, none, ctxs, w)
poll (events []) ctxs w = (timeout, some 0, ctxs, w)
poll (events (e ∷ es)) ctxs w =
    (ok, some (length (e ∷ es)), (deliver (e ∷ es) ctxs w).0, (deliver (e ∷ es) ctxs w).1)
