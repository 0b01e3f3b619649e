-- ===== src/System.antt =====
-- The coroutines of one scheduler that use mutexes and condition variables: the steps of
-- libco/src/co_scheduler.c, co_routine.c, sync/co_mutex.c and sync/co_cond.c, in any order. Waits with
-- a time-out, sleeps and channels are not among them.
pub mod Invariant
pub mod Reachable
pub mod Timeouts
mod Tests
use libco.Base.{ℕ, ◌≡◌, ◌≢◌, none, some, true, List, [], ◌∷◌, has, IsDistinct}
use libco.Runtime.{World, ok, ready, returns, suspends, current}
use libco.Mutex.{lock, unlock}
use libco.Cond.{wait, signal, broadcast}
use libco.Coroutine.{yield_now, finish}
use libco.Scheduler.{enter, leave}
use libco.Scheduler.Ready.{dequeue}

-- A step: the scheduler enters the next coroutine, or the running one makes a call. A call that
-- suspends it ends with the scheduler's `leave`.
pub data Step (w : World) : World → Type 0 where
  enters :
      (p : ℕ) (rest : List ℕ)
      → w.sched.current ≡ none
      → w.sched.ready_queue ≡ p ∷ rest
      → Step w (enter (dequeue w).1 p)
  locks : {v : World} (p m : ℕ) → current w ≡ some p → m ≢ 0 → lock w m ≡ returns ok v → Step w v
  locks_later :
      {u : World} (p m : ℕ)
      → current w ≡ some p
      → m ≢ 0
      → lock w m ≡ suspends u
      → Step w (leave u p)
  unlocks : (m : ℕ) → m ≢ 0 → Step w (unlock w m).1
  signals : (cond : ℕ) → cond ≢ 0 → Step w (signal w cond).1
  broadcasts : (cond : ℕ) → cond ≢ 0 → Step w (broadcast w cond).1
  waits :
      {u : World} (p cond mutex : ℕ)
      → current w ≡ some p
      → cond ≢ 0
      → mutex ≢ 0
      → cond ≢ mutex
      → wait w cond mutex ≡ suspends u
      → Step w (leave u p)
  yields : {u : World} (p : ℕ) → current w ≡ some p → yield_now w ≡ suspends u → Step w (leave u p)
  finishes : (p result : ℕ) → current w ≡ some p → Step w (leave (finish w p result) p)

-- The worlds that steps lead to from one where some coroutines were spawned, each once, and none has
-- run.
pub data Reach : World → Type 0 where
  start :
      {w : World}
      → IsDistinct w.sched.ready_queue
      → ((p : ℕ) → has p w.sched.ready_queue ≡ true → (w.routines p).state ≡ ready)
      → ((q : ℕ) → w.queues q ≡ [])
      → w.sched.current ≡ none
      → Reach w
  step : {u v : World} → Reach u → Step u v → Reach v
