-- ===== src/Coroutine/Stacks.antt =====
-- The stacks of coroutines through spawn and destroy.
use libco.Base.{
  ℕ, ◌≡◌, ◌≢◌, ◌<◌, ◌⊎◌, suc, refl, Bool, true, false, Option, none, some, List, [], ◌∷◌, ◌++◌,
  arith, ◌==◌, ◌||◌, not, has, erase, length, inc, word, inl, inr, Bool-cases, eq_self,
}
use libco.StackPool.{StackPool, alloc}
use libco.StackPool
use libco.StackPool.Owned.{Owned, IsAnswer, Allocated, alloc-Allocated, free-Owned}
use libco.Context
use libco.Runtime.{World, set_routine, ready}
use libco.Coroutine.{
  spawn, spawn_at, launch, init, init_on, settle, destroy, give_back, set_pool, blank,
}
use libco.Scheduler.Ready.{enqueue}

-- What a call of spawn leaves, where the stacks `used` were in use.
pub data Spawned (malloc : Option ℕ) (w : World) (used : List ℕ) (entry arg : ℕ)
    : Option ℕ × World → Type 0 where
  made :
      {v : World} (p stack : ℕ)
      → (v.routines p).state ≡ ready
      → (v.routines p).stack_base ≡ some stack
      → (v.routines p).scheduler ≡ true
      → (v.routines p).entry ≡ entry
      → (v.routines p).arg ≡ arg
      → (v.routines p).id ≡ w.sched.next_id
      → v.sched.ready_queue ≡ w.sched.ready_queue ++ p ∷ []
      → v.sched.active_routines ≡ inc w.sched.active_routines
      → Owned v.sched.stack_pool (stack ∷ used)
      → Spawned malloc w used entry arg (some p, v)
  failed :
      {v : World}
      → v.sched.ready_queue ≡ w.sched.ready_queue
      → v.sched.active_routines ≡ w.sched.active_routines
      → Owned v.sched.stack_pool used
        ⊎ ((malloc ≡ none) × (v.sched.stack_pool.stats.current_used ≡ inc (length used)))
      → Spawned malloc w used entry arg (none, v)

-- A stack that was handed out and comes back at once.
returned-Owned :
    (pool : StackPool) (used : List ℕ) (stack : ℕ)
    → Owned pool (stack ∷ used)
    → Owned (StackPool.free pool stack).0 used
returned-Owned pool used stack o =
    let out = (free-Owned pool (stack ∷ used) stack o (rw (eq_self stack) refl)).0 in
    rw (eq_self stack) at out

-- Init on a stack that was handed out.
launch_on-Spawned :
    (malloc : Option ℕ) (w : World) (used : List ℕ) (getcontext : Bool) (p stack entry arg size : ℕ)
    (pool : StackPool)
    → Owned pool (stack ∷ used)
    → Spawned malloc w used entry arg (
        launch
          (init_on (some stack) getcontext (set_pool (set_routine w p blank) pool) p entry arg size)
          p)
unfolding launch init_on settle Context.init enqueue
launch_on-Spawned malloc w used getcontext p stack entry arg size pool o =
    elim (Bool-cases (stack == 0 || size == 0)) [
      | inl bad ↦ rw bad (failed refl refl (inl (returned-Owned pool used stack o)))
      | inr fit ↦ rw fit (elim (Bool-cases getcontext) [
        | inr off ↦ rw off (failed refl refl (inl (returned-Owned pool used stack o)))
        | inl on ↦ rw on (
            made p stack (ground arith) (ground arith) (ground arith) (ground arith) (ground arith)
              (ground arith) refl refl o)
      ])
    ]

launch_alloc-Spawned :
    (stack malloc : Option ℕ) (w : World) (used : List ℕ) (getcontext : Bool) (p entry arg size : ℕ)
    (old pool : StackPool)
    → Allocated old used malloc stack pool
    → Spawned malloc w used entry arg (
        launch
          (init_on stack getcontext (set_pool (set_routine w p blank) pool) p entry arg size)
          p)
unfolding launch init_on
launch_alloc-Spawned none malloc w used getcontext p entry arg size old pool h =
    failed refl refl (inr (h.1, h.2))
launch_alloc-Spawned (some stack) malloc w used getcontext p entry arg size old pool h =
    launch_on-Spawned malloc w used getcontext p stack entry arg size pool h

-- Let the pool hold each stack once, and let malloc answer with no stack that is cached or in use.
-- Then spawn either makes a ready coroutine that is last in the ready queue, with a stack that
-- nobody else has, or returns NULL and leaves the ready queue and the count of coroutines alone.
-- In the second case the pool is as sound as before, unless malloc gave no stack: one that is not
-- there then counts as in use.
pub spawn-Spawned :
    (calloc malloc : Option ℕ) (getcontext given : Bool) (w : World) (entry arg stack_size : ℕ)
    (used : List ℕ)
    → Owned w.sched.stack_pool used
    → IsAnswer w.sched.stack_pool used malloc
    → suc (length used) < word
    → Spawned malloc w used entry arg (spawn calloc malloc getcontext given w entry arg stack_size)
unfolding spawn spawn_at init
spawn-Spawned calloc malloc getcontext given w entry arg stack_size used o a f =
    elim (Bool-cases (not (given || w.active) || entry == 0)) [
      | inl bad ↦ rw bad (failed refl refl (inl o))
      | inr good ↦ rw good (at_address calloc)
    ]
  where
    at_address :
        (calloc : Option ℕ)
        → Spawned malloc w used entry arg (spawn_at calloc malloc getcontext w entry arg stack_size)
    at_address none = failed refl refl (inl o)
    at_address (some p) = elim (Bool-cases (p == 0 || entry == 0)) [
      | inl bad ↦ rw bad (failed refl refl (inl o))
      | inr named ↦ rw named (
          launch_alloc-Spawned _ malloc w used getcontext p entry arg _ w.sched.stack_pool _
            (alloc-Allocated malloc w.sched.stack_pool used o a f))
    ]

-- Destroying a coroutine that has a scheduler and a stack in use puts the stack back: the pool
-- knows it as in use no longer, and the coroutine has none, so that a second call leaves the
-- scheduler as it is.
pub destroy-Owned :
    (w : World) (used : List ℕ) (p stack : ℕ)
    → p ≢ 0
    → Owned w.sched.stack_pool used
    → has stack used ≡ true
    → (w.routines p).stack_base ≡ some stack
    → (w.routines p).scheduler ≡ true
    → Owned (destroy w p).sched.stack_pool (erase stack used)
      × (((destroy w p).routines p).stack_base ≡ none)
      × ((destroy (destroy w p) p).sched ≡ (destroy w p).sched)
unfolding destroy give_back Context.destroy
destroy-Owned w used p stack h o m e s =
    let named : (p == 0) ≡ false = ground arith in
    rw (named, e, s)
      ((free-Owned w.sched.stack_pool used stack o m).0, rw (eq_self p) refl, rw (eq_self p) refl)
