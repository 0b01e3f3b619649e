-- ===== src/Scheduler/Wakeup.antt =====
-- When the main loop wakes a coroutine that sleeps.
use libco.Base.{
  ℕ, ◌+◌, ◌*◌, ◌%◌, ◌≡◌, ◌≢◌, ◌<◌, refl, Bool, some, arith, if◌then◌else◌, word, inl, inr,
  Bool-cases, leb,
}
use libco.Base.Tally.{tally, occ}
use libco.Timer.Push.{IsValid}
use libco.Runtime.{World, suspends, ready, waiting, current, wakeups}
use libco.Coroutine.{sleep}
use libco.Coroutine.Sleep.{sleep-Slept, slept-asleep}
use libco.Scheduler.{wake_timers}
use libco.Scheduler.Timers.{is_due, fired-state, wake_timers-Fired}

-- Let a coroutine without a timer go to sleep, on a valid heap, and suspend. The timer loop at the
-- time `t` wakes it exactly if its deadline has come by then: before that it waits on, and from
-- then on it is ready, and once more on the ready queue.
pub sleep-wake_timers :
    (realloc : ℕ → Bool) (now : ℕ) (w v : World) (msec p t : ℕ)
    → msec ≢ 0
    → current w ≡ some p
    → IsValid (wakeups w) w.sched.timer_heap
    → tally p w.sched.timer_heap.count w.sched.timer_heap.heap ≡ 0
    → w.sched.timer_heap.capacity * 16 < word
    → sleep realloc now w msec ≡ suspends v
    → let woken = leb ((now + msec) % word) t in
      (((wake_timers v t).routines p).state ≡ (if woken then ready else waiting))
      × (occ p (wake_timers v t).sched.ready_queue
          ≡ occ p w.sched.ready_queue + (if woken then 1 else 0))
sleep-wake_timers realloc now w v msec p t h c ok out fits e =
    let (s, d, r, k) = slept-asleep (rw e at (sleep-Slept realloc now w msec p h c ok out fits)) in
    let f = wake_timers-Fired v t k.valid in
    let mine : tally p v.sched.timer_heap.count v.sched.timer_heap.heap ≡ 1 =
      ground (arith, k.added p, out) in
    let due : is_due v t p ≡ leb ((now + msec) % word) t = ground (arith, s, d, mine) in
    rw (f.resumed p, f.enqueued p, due, r)
      (elim (Bool-cases (leb ((now + msec) % word) t)) [
        | inl late ↦ rw late (fired-state (v.routines p), refl)
        | inr early ↦ rw early (s, refl)
      ])
