-- ===== src/Coroutine.antt =====
-- libco/src/co_routine.c: the life of a coroutine.
-- `malloc` and `calloc` are the addresses that these calls return, `getcontext` and `realloc` say
-- whether those succeed, `now` is the time. The coroutine's entry function is not modelled: a call
-- that suspends stops at its switch.
pub mod Stacks
pub mod Sleep
mod Tests
use libco.Base.{
  ℕ, ◌+◌, ◌%◌, ◌||◌, ◌==◌, Bool, true, false, Option, none, some, if◌then◌else◌, inc, dec, word,
  not,
}
use libco.StackPool
use libco.StackPool.{StackPool, alloc}
use libco.Timer
use libco.Timer.{TimerHeap}
use libco.Context
use libco.Runtime.{
  Error, State, Routine, Scheduler, World, Outcome, returns, suspends, ok, error, nomem, inval,
  ready, waiting, dead, set_routine, set_state, set_sched, set_timers, wakeups, current,
}
use libco.Scheduler.Ready.{enqueue}

-- A coroutine from `calloc`.
abbrev pub blank : Routine
blank = record {
  id = 0;
  state = ready;
  context = record { stack_base = none; stack_size = 0 };
  stack_base = none;
  stack_size = 0;
  entry = 0;
  arg = 0;
  scheduler = false;
  wakeup_time = 0;
  chan_data = 0;
  cond_wait_queue = none;
  timed_out = false;
  io_waiting = false;
  result = 0;
}

abbrev pub set_pool : World → StackPool → World
set_pool w pool = set_sched w (record w.sched { stack_pool = pool })

-- The fields that init sets.
abbrev pub filled : Routine → (id stack stack_size entry arg : ℕ) → Routine
filled r id stack stack_size entry arg = record r {
  id = id;
  state = ready;
  stack_base = some stack;
  stack_size = stack_size;
  entry = entry;
  arg = arg;
  scheduler = true;
  result = 0;
}

-- The end of init: without a context the stack goes back to the pool.
unfoldable pub settle : Error → World → (stack : ℕ) → Error × World
unfolding StackPool.free
settle ok w stack = (ok, w)
settle e w stack = (e, set_pool w (StackPool.free w.sched.stack_pool stack).0)

-- `co_routine_entry_wrapper` is not NULL; its address does not matter.
abbrev entry_wrapper : ℕ
entry_wrapper = 1

unfoldable pub init_on :
    Option ℕ → (getcontext : Bool) → World → (p entry arg stack_size : ℕ) → Error × World
unfolding settle Context.init
init_on none getcontext w p entry arg stack_size = (nomem, w)
init_on (some stack) getcontext w p entry arg stack_size =
    let r = filled (w.routines p) w.sched.next_id stack stack_size entry arg in
    let (e, ctx) = Context.init getcontext r.context stack stack_size entry_wrapper in
    let w1 = set_routine w p (record r { context = ctx }) in
    settle e (set_sched w1 (record w1.sched { next_id = inc w1.sched.next_id })) stack

-- `co_routine_init`, where the scheduler is given.
unfoldable pub init :
    (malloc : Option ℕ) → (getcontext : Bool) → World → (p entry arg stack_size : ℕ) → Error × World
unfolding init_on alloc
init malloc getcontext w p entry arg stack_size =
    let size = if stack_size == 0 then w.sched.default_stack_size else stack_size in
    let (stack, pool) = alloc malloc w.sched.stack_pool in
    if p == 0 || entry == 0
    then (inval, w)
    else init_on stack getcontext (set_pool w pool) p entry arg size

-- The stack that destroy gives back, if the coroutine has one and a scheduler.
unfoldable pub give_back : Option ℕ → Bool → StackPool → StackPool
unfolding StackPool.free
give_back (some stack) true pool = (StackPool.free pool stack).0
give_back (some stack) false pool = pool
give_back none has_scheduler pool = pool

-- `co_routine_destroy`.
unfoldable pub destroy : World → ℕ → World
unfolding give_back Context.destroy
destroy w p =
    let r = w.routines p in
    let kept = if r.scheduler then none else r.stack_base in
    let r' = record r {
      context = Context.destroy r.context;
      stack_base = kept;
      scheduler = false;
      entry = 0;
      arg = 0;
    } in
    if p == 0
    then w
    else set_routine (set_pool w (give_back r.stack_base r.scheduler w.sched.stack_pool)) p r'

-- `co_routine_finish` up to its switch, from which it does not return.
unfoldable pub finish : World → (p result : ℕ) → World
finish w p result =
    let w1 = set_routine w p (record (w.routines p) { state = dead; result = result }) in
    set_sched w1 (record w1.sched { active_routines = dec w1.sched.active_routines })

-- The end of spawn: a coroutine that could not be set up is freed.
unfoldable pub launch : Error × World → (p : ℕ) → Option ℕ × World
unfolding enqueue
launch (ok, w) p =
    let counted = record w.sched {
      total_routines = inc w.sched.total_routines;
      active_routines = inc w.sched.active_routines;
    } in
    (some p, enqueue (set_sched w counted) p)
launch (e, w) p = (none, w)

unfoldable pub spawn_at :
    Option ℕ
    → (malloc : Option ℕ) → (getcontext : Bool) → World
    → (entry arg stack_size : ℕ) → Option ℕ × World
unfolding launch init
spawn_at none malloc getcontext w entry arg stack_size = (none, w)
spawn_at (some p) malloc getcontext w entry arg stack_size =
    launch (init malloc getcontext (set_routine w p blank) p entry arg stack_size) p

-- `co_spawn`; `given` says whether the scheduler is passed, or else is the thread's, if that runs.
unfoldable pub spawn :
    (calloc malloc : Option ℕ)
    → (getcontext given : Bool) → World
    → (entry arg stack_size : ℕ) → Option ℕ × World
unfolding spawn_at
spawn calloc malloc getcontext given w entry arg stack_size =
    if not (given || w.active) || entry == 0
    then (none, w)
    else spawn_at calloc malloc getcontext w entry arg stack_size

unfoldable pub yield_as : Option ℕ → World → Outcome
unfolding enqueue
yield_as none w = returns error w
yield_as (some p) w = suspends (enqueue w p)

-- `co_yield_now` up to its switch.
unfoldable pub yield_now : World → Outcome
unfolding yield_as current
yield_now w = yield_as (current w) w

-- A sleeper whose timer was registered, or not, for lack of memory.
unfoldable pub fall_asleep : Bool × TimerHeap → World → (p : ℕ) → Outcome
fall_asleep (true, timers) w p = suspends (set_timers w timers)
fall_asleep (false, timers) w p = returns nomem (set_state w p ready)

-- The sleeper's deadline and state.
unfoldable pub drowse : World → (p deadline : ℕ) → World
drowse w p deadline =
    set_routine w p (record (w.routines p) { wakeup_time = deadline; state = waiting })

unfoldable pub sleep_as : Option ℕ → (realloc : ℕ → Bool) → (now : ℕ) → World → (msec : ℕ) → Outcome
unfolding fall_asleep drowse Timer.push
sleep_as none realloc now w msec = returns error w
sleep_as (some p) realloc now w msec =
    let w1 = drowse w p ((now + msec) % word) in
    fall_asleep (Timer.push (wakeups w1) realloc w.sched.timer_heap p) w1 p

-- `co_sleep` up to its switch.
unfoldable pub sleep : (realloc : ℕ → Bool) → (now : ℕ) → World → (msec : ℕ) → Outcome
unfolding sleep_as yield_now current
sleep realloc now w msec =
    if msec == 0 then yield_now w else sleep_as (current w) realloc now w msec
