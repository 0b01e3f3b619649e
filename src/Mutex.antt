-- ===== src/Mutex.antt =====
-- libco/src/sync/co_mutex.c: the coroutine mutex.
-- A call that suspends returns at its switch to the scheduler. When the coroutine is resumed, the
-- rest of `co_mutex_lock` returns CO_OK.
pub mod Fifo
pub mod Laws
pub mod Queues
mod Tests
use libco.Base.{
  ℕ, Bool, true, false, Option, none, some, List, [], ◌∷◌, ◌&&◌, ◌==◌, if◌then◌else◌, store,
}
use libco.Runtime.{
  Error, ok, inval, busy, World, Mutex, Outcome, returns, suspends, current, wake, block, set_queue,
}

abbrev pub set_mutex : World → ℕ → Mutex → World
set_mutex w m x = record w { mutexes = store w.mutexes m x }

-- `co_mutex_create`, where `calloc` gives the address of the new mutex; its queue is empty.
unfoldable pub create : (calloc : Option ℕ) → World → Option ℕ × World
create none w = (none, w)
create (some m) w =
    (some m, set_queue (set_mutex w m (record { locked = false; owner = none })) m [])

-- The mutex is taken by the caller, who may be no coroutine.
abbrev pub take : World → ℕ → Option ℕ → World
take w m owner = set_mutex w m (record { locked = true; owner = owner })

unfoldable pub lock_as : Option ℕ → World → ℕ → Outcome
unfolding block
lock_as none w m = if (w.mutexes m).locked then returns busy w else returns ok (take w m none)
lock_as (some p) w m =
    if (w.mutexes m).locked then suspends (block w m p) else returns ok (take w m (some p))

-- `co_mutex_lock`.
unfoldable pub lock : World → ℕ → Outcome
unfolding lock_as current
lock w m = if m == 0 then returns inval w else lock_as (current w) w m

-- `co_mutex_trylock`.
unfoldable pub trylock : World → ℕ → Error × World
unfolding current
trylock w m =
    if m == 0
    then (inval, w)
    else if (w.mutexes m).locked
    then (busy, w)
    else (ok, take w m (current w))

-- The mutex passes to the first waiter, or is released. Locked, it stays locked when it passes.
unfoldable pub unlock_to : List ℕ → World → ℕ → World
unfolding wake
unlock_to [] w m = set_mutex w m (record { locked = false; owner = none })
unlock_to (p ∷ rest) w m =
    let w1 = set_queue w m rest in wake (set_mutex w1 m (record (w.mutexes m) { owner = some p })) p

-- `co_mutex_unlock`, on a mutex that is locked, as it asserts.
unfoldable pub unlock : World → ℕ → Error × World
unfolding unlock_to
unlock w m = if m == 0 then (inval, w) else (ok, unlock_to (w.queues m) w m)

-- `co_mutex_destroy`, with the object whose memory is freed. That nobody waits is asserted.
unfoldable pub destroy : (m : ℕ) → Error × Option ℕ
destroy m = if m == 0 then (inval, none) else (ok, some m)
