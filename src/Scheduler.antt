-- ===== src/Scheduler.antt =====
-- libco/src/co_scheduler.c: the scheduler and its main loop.
-- What a coroutine does from the switch into it to the switch back is the argument `body`, and what
-- the I/O multiplexer's poll does is the argument `poll`. The loop runs on fuel, since coroutines
-- can go on for ever. `given` says whether the pointer to the scheduler is not NULL.
pub mod Ready
pub mod Timers
pub mod Timeout
pub mod Turns
pub mod Ends
pub mod Wakeup
pub mod Teardown
mod Tests
use libco.Base.{
  ℕ, zero, suc, ◌+◌, ◌-◌, ◌%◌, ◌^◌, ◌||◌, ◌&&◌, not, ◌==◌, Bool, true, false, Option, none, some,
  List, [], ◌∷◌, ◌++◌, if◌then◌else◌, ltb, inc, dec, word, erase,
}
use libco.StackPool
use libco.Timer
use libco.Timer.{TimerHeap, peek, pop}
use libco.Runtime.{
  Error, State, Routine, Scheduler, World, ok, error, inval, ready, running, sleeping, waiting,
  dead, set_routine, set_state, set_queue, set_sched, set_timers, wakeups,
}
use libco.Coroutine
use libco.Scheduler.Ready.{enqueue, dequeue}

abbrev pub is_waiting : State → Bool
is_waiting waiting = true
is_waiting s = false

abbrev pub is_dead : State → Bool
is_dead dead = true
is_dead s = false

-- The timed wait is over: the coroutine leaves the queue on record, or its wait for I/O.
unfoldable pub time_out : Option ℕ → World → (p : ℕ) → World
time_out (some q) w p =
    set_routine (set_queue w q (erase p (w.queues q))) p
      (record (w.routines p) { timed_out = true; cond_wait_queue = none })
time_out none w p =
    if (w.routines p).io_waiting
    then set_routine
        (set_sched w (record w.sched {
          waiting_io_count = (w.sched.waiting_io_count + (2 ^ 32 - 1)) % 2 ^ 32;
        }))
        p (record (w.routines p) { io_waiting = false; timed_out = true })
    else w

-- What the main loop does with a coroutine that it popped off the heap. A stale timer is dropped.
unfoldable pub fire : World → (p : ℕ) → World
unfolding time_out enqueue
fire w p =
    if not (is_waiting (w.routines p).state)
    then w
    else enqueue (time_out (w.routines p).cond_wait_queue w p) p

-- The loop over the timers; the heap shrinks in each round, so its size is fuel enough.
unfoldable pub wake_loop : ℕ → World → (now : ℕ) → World
unfolding peek pop fire
wake_loop zero w now = w
wake_loop (suc k) w now = elim (peek w.sched.timer_heap) [
  | none ↦ w
  | some p ↦
      let rest = wake_loop k (fire (set_timers w (pop (wakeups w) w.sched.timer_heap).1) p) now in
      if ltb now (wakeups w p) then w else rest
]

unfoldable pub wake_timers : World → (now : ℕ) → World
unfolding wake_loop
wake_timers w now = wake_loop w.sched.timer_heap.count w now

-- -1 as a 32-bit `int`.
abbrev pub forever : ℕ
forever = 4294967295

-- The timeout of the poll, as the bits of an `int`: the time to the next deadline, as an `int64_t`
-- that is cut to 32 bits.
unfoldable pub io_timeout : World → (now : ℕ) → ℕ
unfolding peek
io_timeout w now = elim (peek w.sched.timer_heap) [
  | none ↦ forever
  | some p ↦
      let wait_ms = (wakeups w p + (word - now)) % word in
      if ltb 0 wait_ms && ltb wait_ms (2 ^ 63) then wait_ms % 2 ^ 32 else 0
]

abbrev pub set_current : World → Option ℕ → World
set_current w c = set_sched w (record w.sched { current = c })

-- `co_scheduler_schedule` up to its switch, for the coroutine at the front.
unfoldable pub enter : World → ℕ → World
enter w p =
    let w1 = set_state (set_current w (some p)) p running in
    set_sched w1 (record w1.sched { switch_count = inc w1.sched.switch_count })

-- And from there on.
unfoldable pub leave : World → ℕ → World
unfolding Coroutine.destroy
leave w p =
    let w1 = set_current w none in
    if is_dead (w1.routines p).state then Coroutine.destroy w1 p else w1

module _ (body : World → ℕ → Error × World) where
  unfoldable pub schedule_next : Option ℕ × World → Error × World
  unfolding enter leave
  schedule_next (none, w) = (ok, w)
  schedule_next (some p, w) = let (e, w1) = body (enter w p) p in (e, leave w1 p)

  -- `co_scheduler_schedule`.
  unfoldable pub schedule : World → Error × World
  unfolding schedule_next dequeue
  schedule w = schedule_next (dequeue w)

-- How a round of the main loop ends: with the next round, or with the loop.
pub data Round : Type 0 where
  continues : World → Round
  breaks : Error → World → Round

abbrev pub is_empty : List ℕ → Bool
is_empty [] = true
is_empty (p ∷ rest) = false

module _ (body : World → ℕ → Error × World) (poll : World → (timeout : ℕ) → World) where
  -- A round with no coroutine ready.
  unfoldable pub idle : World → (now : ℕ) → Round
  unfolding io_timeout Timer.empty
  idle w now =
      let w1 =
        if ltb 0 w.sched.waiting_io_count || not (Timer.empty w.sched.timer_heap)
        then poll w (io_timeout w now)
        else w in
      if is_empty w1.sched.ready_queue && Timer.empty w1.sched.timer_heap
      then breaks ok w1
      else continues w1

  unfoldable pub scheduled : Error × World → Round
  scheduled (ok, w) = continues w
  scheduled (e, w) = breaks e w

  unfoldable pub round : World → (now : ℕ) → Round
  unfolding wake_timers idle schedule scheduled
  round w now =
      let w1 = wake_timers w now in
      if is_empty w1.sched.ready_queue then idle w1 now else scheduled (schedule body w1)

  -- The main loop, where `clock` is the time in each round; `none` if the fuel runs out.
  unfoldable pub run_loop : ℕ → (clock : ℕ → ℕ) → World → Option (Error × World)
  unfolding round
  run_loop zero clock w = none
  run_loop (suc k) clock w =
      if w.sched.should_stop then some (ok, w) else elim (round w (clock 0)) [
        | continues v ↦ run_loop k (λ i. clock (suc i)) v
        | breaks e v ↦ some (e, v)
      ]

  -- The scheduler is made the thread's, or is so no longer.
  abbrev pub activate : Bool → World → World
  activate on w = record w { sched = record w.sched { running = on }; active = on }

  -- `co_scheduler_run`.
  unfoldable pub run : ℕ → (clock : ℕ → ℕ) → (given : Bool) → World → Option (Error × World)
  unfolding run_loop
  run fuel clock given w =
      let w1 = activate true w in
      let w2 = set_sched w1 (record w1.sched { should_stop = false }) in
      if not given
      then some (inval, w)
      else if w.sched.running
      then some (error, w)
      else elim (run_loop fuel clock w2) [ none ↦ none | some (e, v) ↦ some (e, activate false v) ]

-- `co_scheduler_create`. `made` and `iomux` say whether the memory of the scheduler and its
-- multiplexer could be had, `calloc` which other requests are met.
unfoldable pub create : (made iomux : Bool) → (calloc : ℕ → ℕ → Bool) → Option Scheduler
unfolding StackPool.create Timer.init
create made iomux calloc = elim (StackPool.create calloc 131072 16) [
  | none ↦ none
  | some pool ↦ elim (Timer.init calloc 16) [
    | none ↦ none
    | some heap ↦
        if made && iomux
        then some (record {
          ready_queue = [];
          timer_heap = heap;
          current = none;
          stack_pool = pool;
          default_stack_size = 131072;
          running = false;
          should_stop = false;
          total_routines = 0;
          active_routines = 0;
          switch_count = 0;
          waiting_io_count = 0;
          next_id = 1;
        })
        else none
  ]
]

-- The loop of `co_scheduler_destroy` over the ready queue, with the coroutines that it frees.
unfoldable pub free_ready : List ℕ → World → List ℕ × World
unfolding Coroutine.destroy
free_ready [] w = ([], w)
free_ready (p ∷ rest) w =
    let w1 = set_sched w (record w.sched { ready_queue = rest }) in
    let (freed, v) = free_ready rest (Coroutine.destroy w1 p) in (p ∷ freed, v)

-- And the one over the timers. The heap shrinks in each round.
unfoldable pub free_sleepers : ℕ → World → List ℕ × World
unfolding pop Coroutine.destroy
free_sleepers zero w = ([], w)
free_sleepers (suc k) w =
    let (popped, h) = pop (wakeups w) w.sched.timer_heap in
    elim popped [
      | none ↦ ([], w)
      | some p ↦
          let (freed, v) = free_sleepers k (Coroutine.destroy (set_timers w h) p) in (p ∷ freed, v)
    ]

-- `co_scheduler_destroy`: the coroutines and the stacks that are freed.
unfoldable pub destroy : World → List ℕ × List ℕ
unfolding free_ready free_sleepers StackPool.destroy
destroy w =
    let (ready_ones, w1) = free_ready w.sched.ready_queue w in
    let (sleepers, w2) = free_sleepers w1.sched.timer_heap.count w1 in
    (ready_ones ++ sleepers, StackPool.destroy w2.sched.stack_pool)
