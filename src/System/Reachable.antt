-- ===== src/System/Reachable.antt =====
-- The invariant holds in every world that is reached.
use libco.Base.{ℕ, ◌≡◌, refl, ap, subst, true, some, List, [], ◌∷◌, arith, has, store}
use libco.Runtime.{World, suspends, world, current, wake}
use libco.Runtime.Placed.{Place, nowhere, on_ready, Placed, wake-Placed}
use libco.Mutex.Laws.{lock-Locked}
use libco.Mutex.Queues.{moved, lock-Placed, unlock-Placed}
use libco.Mutex.Fifo.{front_of, lock-taken}
use libco.Cond.Wake.{moved_to_ready, signal-Woken, broadcast-Woken}
use libco.Cond.Queues.{signal-Placed, broadcast-Placed, wait-Placed}
use libco.Coroutine.{yield_now, yield_as, finish}
use libco.Scheduler.Ready.{enqueue}
use libco.System.{
  Step, enters, locks, locks_later, unlocks, signals, broadcasts, waits, yields, finishes, Reach,
  start, step,
}
use libco.System.Invariant.{
  Sound, start-Sound, leave-Sound, enter-Sound, running-free, moved-free, ready-free,
  unlock-current, alike-Placed,
}

-- Some assignment of coroutines to queues fits the world.
abbrev pub IsSound : World → Type 0
IsSound w = (place : ℕ → Place) × Sound w place

front_of-has : (p : ℕ) (xs : List ℕ) → has p (front_of xs) ≡ true → has p xs ≡ true
front_of-has p [] h = h
front_of-has p (x ∷ xs) h = ground (arith, h)

yield-Placed :
    (w v : World) (place : ℕ → Place) (p : ℕ)
    → current w ≡ some p
    → place p ≡ nowhere
    → yield_now w ≡ suspends v
    → Placed w place
    → Placed v (store place p on_ready)
unfolding yield_now yield_as enqueue wake
yield-Placed w v place p c f e h =
    let made : suspends (enqueue w p) ≡ suspends v = rw c at e in
    subst (λ (u : World). Placed u (store place p on_ready)) (ap world made)
      (wake-Placed w place p h f)

finish-Placed :
    (w : World) (place : ℕ → Place) (p result : ℕ)
    → place p ≡ nowhere
    → Placed w place
    → Placed (finish w p result) place
unfolding finish
finish-Placed w place p result f h = record {
  ready_once = h.ready_once;
  queue_once = h.queue_once;
  agrees = λ x. ground (arith, h.agrees x, f);
}

step-IsSound : (w v : World) (place : ℕ → Place) → Sound w place → Step w v → IsSound v
step-IsSound w v place h (enters p rest c e) =
    (store place p nowhere, enter-Sound w place p rest e h.placed)
step-IsSound w v place h (locks p m c n e) =
    let (free, made) = lock-taken (rw e at (lock-Locked w m n)) in
    rw made (
      place,
      record { placed = alike-Placed w _ place refl refl (λ x. refl) h.placed; free = h.free },
    )
step-IsSound w v place h (locks_later {u} p m c n e) = (
  _,
  leave-Sound u _ p (rw e at (lock-Placed w place m p n h.placed c (running-free w place p c h))),
)
step-IsSound w v place h (unlocks m n) = (
  moved place (w.queues m),
  record {
    placed = unlock-Placed w place m n h.placed;
    free =
        rw (unlock-current w m n)
          (moved-free w place m (w.queues m) w.sched.current refl h.placed h.free);
  },
)
step-IsSound w v place h (signals cond n) = (
  moved_to_ready place (front_of (w.queues cond)),
  record {
    placed = signal-Placed w place cond n h.placed;
    free = rw (signal-Woken w cond n).1.running (
        ready-free w place cond (front_of (w.queues cond)) w.sched.current
          (λ p. front_of-has p (w.queues cond)) h.placed h.free);
  },
)
step-IsSound w v place h (broadcasts cond n) = (
  moved_to_ready place (w.queues cond),
  record {
    placed = broadcast-Placed w place cond n h.placed;
    free =
        rw (broadcast-Woken w cond n).1.running
          (ready-free w place cond (w.queues cond) w.sched.current (λ p i. i) h.placed h.free);
  },
)
step-IsSound w v place h (waits {u} p cond mutex c n k apart e) = (
  _,
  leave-Sound u _ p (
      rw e at (wait-Placed w place cond mutex p n k apart c (running-free w place p c h) h.placed)),
)
step-IsSound w v place h (yields {u} p c e) =
    (_, leave-Sound u _ p (yield-Placed w u place p c (running-free w place p c h) e h.placed))
step-IsSound w v place h (finishes p result c) = (
  _,
  leave-Sound _ place p (finish-Placed w place p result (running-free w place p c h) h.placed),
)

-- Spawn some coroutines and run them. Whatever mutexes they lock and unlock, whatever condition
-- variables they wait on and signal, and whenever they yield or end, each coroutine is always linked
-- into at most one queue, once: a ready one into the ready queue, a waiting one into the line that it
-- waits in, and the running one into none.
pub Reach-IsSound : (w : World) → Reach w → IsSound w
Reach-IsSound w (start d s n c) = (_, start-Sound w d s n c)
Reach-IsSound w (step {u} r t) = let (place, h) = Reach-IsSound u r in step-IsSound u w place h t
