-- ===== src/Cond.antt =====
-- libco/src/sync/co_cond.c: the condition variable.
-- A condition variable is its wait queue, at its own address. The wait functions stop at the switch
-- to the scheduler; what they do when the coroutine is resumed is a function of its own. The time
-- is a parameter.
pub mod Wake
pub mod Queues
mod Tests
use libco.Base.{
  ℕ, ◌+◌, ◌%◌, Bool, true, false, Option, none, some, List, [], ◌∷◌, ◌||◌, ◌==◌, if◌then◌else◌,
  erase, word,
}
use libco.Timer
use libco.Timer.{TimerHeap}
use libco.Runtime.{
  Error, ok, nomem, inval, timeout, ready, World, Outcome, returns, suspends, current, wake, block,
  set_queue, set_routine, set_timers, wakeups,
}
use libco.Mutex.{lock, unlock}

-- `co_cond_create`, where `calloc` gives the address.
unfoldable pub create : (calloc : Option ℕ) → World → Option ℕ × World
create none w = (none, w)
create (some c) w = (some c, set_queue w c [])

unfoldable pub wait_as : Option ℕ → World → ℕ → ℕ → Outcome
unfolding block unlock
wait_as none w cond mutex = returns inval w
wait_as (some p) w cond mutex = suspends (unlock (block w cond p) mutex).1

-- `co_cond_wait` up to its switch.
unfoldable pub wait : World → (cond mutex : ℕ) → Outcome
unfolding wait_as current
wait w cond mutex =
    if cond == 0 || mutex == 0 then returns inval w else wait_as (current w) w cond mutex

-- The call of `co_mutex_lock` at the end of the waits, with what they then return. If the mutex is
-- held the coroutine waits for it, and returns the same later.
unfoldable pub relock : Outcome → Error → Outcome
relock (returns e w) result = returns result w
relock (suspends w) result = suspends w

-- `co_cond_wait` from its switch on.
unfoldable pub wait_resume : World → (mutex : ℕ) → Outcome
unfolding relock lock
wait_resume w mutex = relock (lock w mutex) ok

-- The registration of a timed wait: on the queue, with the queue on record.
unfoldable pub enrol : World → (p cond : ℕ) → World
unfolding block
enrol w p cond =
    let r = record (w.routines p) { cond_wait_queue = some cond; timed_out = false } in
    block (set_routine w p r) cond p

-- The roll-back after a timer that could not be registered.
unfoldable pub withdraw : World → (p cond : ℕ) → World
withdraw w p cond =
    let r = record (w.routines p) { state = ready; cond_wait_queue = none } in
    set_routine (set_queue w cond (erase p (w.queues cond))) p r

-- The waiter has its deadline. `timer` is the answer of `co_timer_heap_push` and the heap after it:
-- the mutex is released, or the registration is rolled back.
unfoldable pub suspend_timed : Bool × TimerHeap → World → (p cond mutex : ℕ) → Outcome
unfolding withdraw unlock
suspend_timed (true, timers) w p cond mutex = suspends (unlock (set_timers w timers) mutex).1
suspend_timed (false, timers) w p cond mutex = returns nomem (withdraw w p cond)

-- The registration with the deadline.
unfoldable pub enrol_until : World → (p cond deadline : ℕ) → World
unfolding enrol
enrol_until w p cond deadline =
    let w1 = enrol w p cond in set_routine w1 p (record (w1.routines p) { wakeup_time = deadline })

unfoldable pub timedwait_as :
    Option ℕ → (realloc : ℕ → Bool) → (now : ℕ) → World → (cond mutex timeout_ms : ℕ) → Outcome
unfolding enrol_until suspend_timed Timer.push
timedwait_as none realloc now w cond mutex timeout_ms = returns inval w
timedwait_as (some p) realloc now w cond mutex timeout_ms =
    let w1 = enrol_until w p cond ((now + timeout_ms) % word) in
    suspend_timed (Timer.push (wakeups w1) realloc w.sched.timer_heap p) w1 p cond mutex

-- `co_cond_timedwait` up to its switch.
unfoldable pub timedwait :
    (realloc : ℕ → Bool) → (now : ℕ) → World → (cond mutex timeout_ms : ℕ) → Outcome
unfolding timedwait_as current
timedwait realloc now w cond mutex timeout_ms =
    if cond == 0 || mutex == 0
    then returns inval w
    else if timeout_ms == 0
    then returns timeout w
    else timedwait_as (current w) realloc now w cond mutex timeout_ms

-- The result of a timed wait: the flag is read after the mutex is locked again.
unfoldable pub timedwait_result : World → (p : ℕ) → Error
timedwait_result w p = if (w.routines p).timed_out then timeout else ok

-- The timer of a waiter that was signalled is taken out of the heap.
unfoldable pub cancel_timer : World → (p : ℕ) → World
unfolding Timer.remove
cancel_timer w p = set_timers w (Timer.remove (wakeups w) w.sched.timer_heap p).1

-- `co_cond_timedwait` from its switch on, in the coroutine `p`.
unfoldable pub timedwait_resume : World → (p mutex : ℕ) → Outcome
unfolding relock lock timedwait_result cancel_timer
timedwait_resume w p mutex =
    let w1 = if (w.routines p).timed_out then w else cancel_timer w p in
    relock (lock w1 mutex) (timedwait_result w1 p)

-- One waiter, already off the queue, is made ready, and its timer, if it has one, stale.
unfoldable pub notify : World → ℕ → World
unfolding wake
notify w p = wake (set_routine w p (record (w.routines p) { cond_wait_queue = none })) p

unfoldable pub signal_to : List ℕ → World → ℕ → World
unfolding notify
signal_to [] w cond = w
signal_to (p ∷ rest) w cond = notify (set_queue w cond rest) p

-- `co_cond_signal`.
unfoldable pub signal : World → ℕ → Error × World
unfolding signal_to
signal w cond = if cond == 0 then (inval, w) else (ok, signal_to (w.queues cond) w cond)

-- The loop of `co_cond_broadcast`: it pops the waiters one by one.
unfoldable pub broadcast_loop : List ℕ → World → ℕ → World
unfolding notify
broadcast_loop [] w cond = w
broadcast_loop (p ∷ rest) w cond = broadcast_loop rest (notify (set_queue w cond rest) p) cond

-- `co_cond_broadcast`.
unfoldable pub broadcast : World → ℕ → Error × World
unfolding broadcast_loop
broadcast w cond = if cond == 0 then (inval, w) else (ok, broadcast_loop (w.queues cond) w cond)

-- `co_cond_destroy`, with the object whose memory is freed. That nobody waits is asserted.
unfoldable pub destroy : (cond : ℕ) → Error × Option ℕ
destroy cond = if cond == 0 then (inval, none) else (ok, some cond)
