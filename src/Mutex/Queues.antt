-- ===== src/Mutex/Queues.antt =====
-- The mutex operations keep every coroutine on at most one queue.
use libco.Base.{
  ℕ, ◌≡◌, ◌≢◌, inl, inr, refl, false, some, List, [], ◌∷◌, arith, ◌==◌, if◌then◌else◌, store,
  store_self, Bool-cases,
}
use libco.Runtime.{World, Mutex, world, current}
use libco.Runtime.Placed.{
  Place, nowhere, on_ready, on_queue, Placed, wake-Placed, block-Placed, pop-Placed,
}
use libco.Mutex.{set_mutex, lock, unlock, unlock_to}

set_mutex-Placed :
    (w : World) (place : ℕ → Place) (m : ℕ) (x : Mutex)
    → Placed w place
    → Placed (set_mutex w m x) place
set_mutex-Placed w place m x h = record {
  ready_once = h.ready_once;
  queue_once = h.queue_once;
  agrees = h.agrees;
}

-- Let every coroutine be on at most one queue, in the state that goes with it, and the running one
-- on none. When it locks a held mutex that is not NULL it is then on the mutex's queue, and only
-- there; when it locks a free one it is on no queue. The other coroutines stay where they are.
pub lock-Placed :
    (w : World) (place : ℕ → Place) (m p : ℕ)
    → m ≢ 0
    → Placed w place
    → current w ≡ some p
    → place p ≡ nowhere
    → Placed
        (world (lock w m))
        (store place p (if (w.mutexes m).locked then on_queue m else nowhere))
unfolding lock
lock-Placed w place m p h pl c e =
    let named : (m == 0) ≡ false = ground arith in
    rw (named, c)
      (elim (Bool-cases (w.mutexes m).locked) [
        | inl held ↦ rw held (block-Placed w place m p pl e)
        | inr free ↦
            let same : store place p nowhere ≡ place = rw (← e) (store_self place p) in
            rw (free, same) (set_mutex-Placed w place m _ pl)
      ])

-- Unlocking moves the first waiter, if there is one, from the mutex's queue to the ready queue.
abbrev pub moved : (ℕ → Place) → List ℕ → ℕ → Place
moved place [] = place
moved place (p ∷ rest) = store (store place p nowhere) p on_ready

-- If every coroutine is on at most one queue, in the state that goes with it, this is so after an
-- unlock of a mutex that is not NULL, where the first waiter has moved from the mutex's line to
-- the ready queue.
pub unlock-Placed :
    (w : World) (place : ℕ → Place) (m : ℕ)
    → m ≢ 0
    → Placed w place
    → Placed (unlock w m).1 (moved place (w.queues m))
unfolding unlock
unlock-Placed w place m h pl =
    let named : (m == 0) ≡ false = ground arith in rw named (go (w.queues m) refl)
  where
    go : (line : List ℕ) → w.queues m ≡ line → Placed (unlock_to line w m) (moved place line)
    go [] e = set_mutex-Placed w place m _ pl
    go (p ∷ rest) e =
        wake-Placed _ (store place p nowhere) p
          (set_mutex-Placed _ _ m _ (pop-Placed w place m p rest pl e)) (ground arith)
