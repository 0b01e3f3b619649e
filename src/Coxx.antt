-- ===== src/Coxx.antt =====
-- libcoxx: the C++ wrappers. libcoxx/include/coxx/sync.hpp: the wait group, over the mutex at `mtx` and
-- the condition variable at `cv`. A call runs in stages, from one switch to the scheduler to the next;
-- the results of `co_mutex_lock` and `co_cond_wait` are not looked at, as in the code.
pub mod Lost
pub mod Task
pub mod Typed
pub mod Drain
pub mod Owned
pub mod Lifetime
pub mod Release
mod Tests
use libco.Base.{ℕ, ◌+◌, ◌-◌, ◌%◌, ◌^◌, ◌==◌, if◌then◌else◌}
use libco.Runtime.{Error, World, Outcome, returns, suspends}
use libco.Mutex.{lock, unlock}
use libco.Cond.{wait, wait_resume, broadcast}

-- The counter of a `WaitGroup`, an `int` as its 32 bits, and the runtime.
pub record Group : Type 0 where
  pub count : ℕ
  pub world : World

-- The end of a stage. A loop whose condition no one can change any more spins for ever.
pub data Stage : Type 0 where
  finishes : Group → Stage
  waits : Group → Stage
  spins : Group → Stage

-- The state that a stage leaves.
abbrev pub group : Stage → Group
group (finishes g) = g
group (waits g) = g
group (spins g) = g

-- The lock of a guard: where it is had, or where it fails, the guarded part runs.
unfoldable pub guarded : Outcome → (count : ℕ) → (Group → Stage) → Stage
guarded (returns e w) count part = part (record { count = count; world = w })
guarded (suspends w) count part = waits (record { count = count; world = w })

module _ (mtx cv : ℕ) where
  -- The guard is gone.
  unfoldable pub unguarded : (count : ℕ) → World → Stage
  unfolding unlock
  unguarded count w = finishes (record { count = count; world = (unlock w mtx).1 })

  unfoldable pub add_locked : (delta : ℕ) → Group → Stage
  unfolding unguarded
  add_locked delta g = unguarded ((g.count + delta) % 2 ^ 32) g.world

  -- `WaitGroup::add`, where `delta` is an `int` as its 32 bits.
  unfoldable pub add : (delta : ℕ) → Group → Stage
  unfolding guarded lock add_locked
  add delta g = guarded (lock g.world mtx) g.count (add_locked delta)

  unfoldable pub done_locked : Group → Stage
  unfolding unguarded broadcast
  done_locked g =
      let count = (g.count + (2 ^ 32 - 1)) % 2 ^ 32 in
      unguarded count (if count == 0 then (broadcast g.world cv).1 else g.world)

  -- `WaitGroup::done`.
  unfoldable pub done : Group → Stage
  unfolding guarded lock done_locked
  done g = guarded (lock g.world mtx) g.count done_locked

  -- A wait that returns at once does so each time that the loop calls it.
  unfoldable pub waiting : Outcome → (count : ℕ) → Stage
  waiting (returns e w) count = spins (record { count = count; world = w })
  waiting (suspends w) count = waits (record { count = count; world = w })

  -- The loop over the predicate, with the mutex held.
  unfoldable pub wait_locked : Group → Stage
  unfolding unguarded waiting wait
  wait_locked g =
      if g.count == 0 then unguarded g.count g.world else waiting (wait g.world cv mtx) g.count

  -- `WaitGroup::wait`.
  unfoldable pub wait_group : Group → Stage
  unfolding guarded lock wait_locked
  wait_group g = guarded (lock g.world mtx) g.count wait_locked

  -- And from the switch of `co_cond_wait` on.
  unfoldable pub wait_woken : Group → Stage
  unfolding guarded wait_resume wait_locked
  wait_woken g = guarded (wait_resume g.world mtx) g.count wait_locked
