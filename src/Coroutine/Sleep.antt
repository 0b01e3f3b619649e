-- ===== src/Coroutine/Sleep.antt =====
-- How long co_sleep sleeps.
use libco.Base.{
  ℕ, ◌+◌, ◌*◌, ◌%◌, ◌≡◌, ◌≢◌, ◌<◌, refl, Bool, true, false, some, arith, ◌==◌, store, word,
}
use mathlib.Core.Path.{fun_ext}
use libco.Base.Tally.{tally, tally-index}
use libco.Timer.{TimerHeap, push, parent}
use libco.Timer.Push.{IsValid, Pushed, PushResult, push-PushResult}
use libco.Runtime.{World, Outcome, returns, suspends, nomem, waiting, current, wakeups}
use libco.Coroutine.{sleep, sleep_as, drowse, fall_asleep}

-- The wake-up time of a coroutine that has no timer does not matter to the heap.
pub IsValid-store :
    (k : ℕ → ℕ) (h : TimerHeap) (p t : ℕ)
    → IsValid k h
    → tally p h.count h.heap ≡ 0
    → IsValid (store k p t) h
IsValid-store k h p t v out = record {
  ordered = λ c a b. ground (
    arith,
    v.ordered c a b,
    tally-index p h.count h.heap c b,
    tally-index p h.count h.heap (parent c) (omega arith),
  );
  bounded = v.bounded;
  nonempty = v.nonempty;
  fits = v.fits;
}

-- What a call of sleep with a duration above zero does, in the coroutine `p`.
pub data Slept (realloc : ℕ → Bool) (w : World) (now msec p : ℕ) : Outcome → Type 0 where
  asleep :
      {v : World}
      → (v.routines p).state ≡ waiting
      → (v.routines p).wakeup_time ≡ (now + msec) % word
      → v.sched.ready_queue ≡ w.sched.ready_queue
      → Pushed (wakeups v) w.sched.timer_heap p v.sched.timer_heap
      → Slept realloc w now msec p (suspends v)
  out_of_memory :
      {v : World}
      → v.sched ≡ w.sched
      → w.sched.timer_heap.count ≡ w.sched.timer_heap.capacity
      → realloc (w.sched.timer_heap.capacity * 16) ≡ false
      → Slept realloc w now msec p (returns nomem v)

-- In a coroutine without a timer, on a valid heap whose doubled size in bytes fits a `size_t`, a
-- sleep of more than no time suspends it with one timer in the heap, due at the time asked for,
-- and not on the ready queue. It returns at once only where the heap is full and could not grow,
-- and then the scheduler is as it was.
pub sleep-Slept :
    (realloc : ℕ → Bool) (now : ℕ) (w : World) (msec p : ℕ)
    → msec ≢ 0
    → current w ≡ some p
    → IsValid (wakeups w) w.sched.timer_heap
    → tally p w.sched.timer_heap.count w.sched.timer_heap.heap ≡ 0
    → w.sched.timer_heap.capacity * 16 < word
    → Slept realloc w now msec p (sleep realloc now w msec)
unfolding sleep sleep_as fall_asleep drowse
sleep-Slept realloc now w msec p h c v out fits =
    let some_time : (msec == 0) ≡ false = ground arith in
    rw (some_time, c)
      (go (push (wakeups w1) realloc w.sched.timer_heap p)
        (push-PushResult (wakeups w1) realloc w.sched.timer_heap p waked fits))
  where
    w1 : World
    w1 = drowse w p ((now + msec) % word)

    same : wakeups w1 ≡ store (wakeups w) p ((now + msec) % word)
    same = fun_ext (λ x. ground arith)

    waked : IsValid (wakeups w1) w.sched.timer_heap
    waked = rw same (IsValid-store (wakeups w) w.sched.timer_heap p ((now + msec) % word) v out)

    go :
        (r : Bool × TimerHeap)
        → PushResult (wakeups w1) realloc w.sched.timer_heap p r
        → Slept realloc w now msec p (fall_asleep r w1 p)
    go (true, g) k = asleep (ground arith) (ground arith) refl k
    go (false, g) k = out_of_memory refl k.1 k.2

-- What is known of a coroutine that fell asleep.
pub slept-asleep :
    {realloc : ℕ → Bool} {w v : World} {now msec p : ℕ}
    → Slept realloc w now msec p (suspends v)
    → ((v.routines p).state ≡ waiting)
      × ((v.routines p).wakeup_time ≡ (now + msec) % word)
      × (v.sched.ready_queue ≡ w.sched.ready_queue)
      × Pushed (wakeups v) w.sched.timer_heap p v.sched.timer_heap
slept-asleep (asleep s t r k) = (s, t, r, k)
