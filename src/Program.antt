-- ===== src/Program.antt =====
-- The coroutines of one scheduler in a program that uses all of libco: the steps of
-- libco/src/co_scheduler.c, co_routine.c, sync/co_mutex.c, sync/co_cond.c, sync/co_channel.c and
-- platform/linux/iomux_epoll.c, in any order, with the time as it comes.
pub mod Fits
pub mod Moves
pub mod Switches
pub mod Channels
pub mod IoWaits
pub mod Invariant
pub mod Wakes
pub mod Blocks
pub mod Timers
pub mod TimedWaits
pub mod Resumes
pub mod Wakeups
pub mod Reachable
pub mod Tame
pub mod Ops
pub mod Exchanges
pub mod Acting
pub mod Lines
pub mod Quiet
pub mod Tracked
pub mod Rest
pub mod Turns
pub mod Lasting
pub mod Run
mod Tests
use libco.Base.{
  ℕ, ◌*◌, ◌<◌, ◌≡◌, ◌⊎◌, Bool, none, some, true, false, Option, List, [], ◌∷◌, has, IsDistinct,
  word, store,
}
use libco.Timer.Push.{IsValid}
use libco.Runtime.{Error, World, ok, ready, Outcome, returns, suspends, current, wakeups}
use libco.Mutex.{lock, trylock, unlock}
use libco.Cond.{wait, wait_resume, timedwait, timedwait_resume, signal, broadcast}
use libco.Channel.{send, trysend, recv, tryrecv, close}
use libco.Coroutine.{yield_now, sleep, finish}
use libco.Scheduler.{is_waiting, enter, leave, wake_timers}
use libco.Scheduler.Ready.{dequeue}
use libco.Epoll.{WaitCtx, is_error, wait_io, wait_io_resume, wake_waiter}

-- The call of libco that a coroutine is in and has yet to go on with: none, or the rest of
-- `co_cond_wait`, `co_cond_timedwait` or `co_wait_io`. The other calls return when they are resumed.
pub data Call : Type 0 where
  user : Call
  cond_wait : (mutex : ℕ) → Call
  cond_timedwait : (mutex : ℕ) → Call
  io_wait : (timeout_ms : Option ℕ) → Call

-- The runtime, and where each coroutine is.
pub record Program : Type 0 where
  pub world : World
  pub calls : ℕ → Call

-- What the running coroutine can do. `waits_on` and the like are the rest of a call.
pub data Op : Type 0 where
  locks trylocks unlocks signals broadcasts : ℕ → Op
  waits : (cond mutex : ℕ) → Op
  waits_on : (mutex : ℕ) → Op
  timed_waits : (realloc : ℕ → Bool) → (now cond mutex timeout_ms : ℕ) → Op
  timed_waits_on : (mutex : ℕ) → Op
  sends trysends receives tryreceives : (c ptr : ℕ) → Op
  closes : ℕ → Op
  yields : Op
  sleeps : (realloc : ℕ → Bool) → (now msec : ℕ) → Op
  waits_io : (realloc : ℕ → Bool) → (now : ℕ) → (registered : Error) → (timeout_ms : Option ℕ) → Op
  waits_io_on : WaitCtx → Op
  finishes : (result : ℕ) → Op

abbrev pub at_once : Error × World → Outcome
at_once r = returns r.0 r.1

unfoldable pub perform : World → (p : ℕ) → Op → Outcome
unfolding lock trylock unlock wait wait_resume timedwait timedwait_resume signal broadcast send
    trysend recv tryrecv close yield_now sleep finish wait_io wait_io_resume
perform w p (locks m) = lock w m
perform w p (trylocks m) = at_once (trylock w m)
perform w p (unlocks m) = at_once (unlock w m)
perform w p (signals cond) = at_once (signal w cond)
perform w p (broadcasts cond) = at_once (broadcast w cond)
perform w p (waits cond m) = wait w cond m
perform w p (waits_on m) = wait_resume w m
perform w p (timed_waits realloc now cond m ms) = timedwait realloc now w cond m ms
perform w p (timed_waits_on m) = timedwait_resume w p m
perform w p (sends c ptr) = send w c ptr
perform w p (trysends c ptr) = at_once (trysend w c ptr)
perform w p (receives c ptr) = recv w c ptr
perform w p (tryreceives c ptr) = at_once (tryrecv w c ptr)
perform w p (closes c) = at_once (close w c)
perform w p yields = yield_now w
perform w p (sleeps realloc now msec) = sleep realloc now w msec
perform w p (waits_io realloc now registered ms) = wait_io realloc now registered ms w
perform w p (waits_io_on ctx) = at_once (wait_io_resume w p ctx)
perform w p (finishes result) = suspends (finish w p result)

-- The call that a coroutine is in when it is suspended.
abbrev pub called : Op → Call
called (waits cond m) = cond_wait m
called (timed_waits realloc now cond m ms) = cond_timedwait m
called (waits_io realloc now registered ms) = io_wait ms
called op = user

abbrev pub call_after : Op → Outcome → Call
call_after op (returns e w) = user
call_after op (suspends w) = called op

-- A call that suspends ends in the scheduler.
unfoldable pub switched : Outcome → (p : ℕ) → World
unfolding leave
switched (returns e w) p = w
switched (suspends w) p = leave w p

-- The program after the running coroutine `p` has done `op`.
abbrev pub after : Program → (p : ℕ) → Op → Program
after s p op =
    let o = perform s.world p op in
    record { world = switched o p; calls = store s.calls p (call_after op o) }

-- Some coroutines were spawned, each once, and none has run; the others are not READY.
pub record Spawned (w : World) : Type 0 where
  pub distinct : IsDistinct w.sched.ready_queue
  pub all_ready : (p : ℕ) → has p w.sched.ready_queue ≡ true → (w.routines p).state ≡ ready
  pub all_in : (p : ℕ) → (w.routines p).state ≡ ready → has p w.sched.ready_queue ≡ true
  pub none_waits : (p : ℕ) → is_waiting (w.routines p).state ≡ false
  pub no_record : (p : ℕ) → (w.routines p).cond_wait_queue ≡ none
  pub no_lines : (q : ℕ) → w.queues q ≡ []
  pub no_timers : w.sched.timer_heap.count ≡ 0
  pub valid : IsValid (wakeups w) w.sched.timer_heap
  pub none_runs : w.sched.current ≡ none

module _ (is_cond : ℕ → Bool) where
  -- The lines of a channel are not condition variables.
  abbrev pub IsTyped : World → ℕ → Type 0
  IsTyped w c =
      (is_cond (w.channels c).send_queue ≡ false) × (is_cond (w.channels c).recv_queue ≡ false)

  -- What a coroutine in a call may do: go on with it, or anything if it is in none. `is_cond` says
  -- which addresses are condition variables; no mutex is, and no line of a channel. The size of a
  -- grown timer heap does not overflow. A wait for I/O with a time-out is registered, and meets no
  -- error event: then the code leaves the timer in the heap.
  abbrev pub IsLegal : World → Call → Op → Type 0
  IsLegal w call (locks m) = (call ≡ user) × (is_cond m ≡ false)
  IsLegal w call (trylocks m) = (call ≡ user) × (is_cond m ≡ false)
  IsLegal w call (unlocks m) = (call ≡ user) × (is_cond m ≡ false)
  IsLegal w call (signals cond) = (call ≡ user) × (is_cond cond ≡ true)
  IsLegal w call (broadcasts cond) = (call ≡ user) × (is_cond cond ≡ true)
  IsLegal w call (waits cond m) = (call ≡ user) × (is_cond cond ≡ true) × (is_cond m ≡ false)
  IsLegal w call (waits_on m) = (call ≡ cond_wait m) × (is_cond m ≡ false)
  IsLegal w call (timed_waits realloc now cond m ms) =
      (call ≡ user)
      × (is_cond cond ≡ true)
      × (is_cond m ≡ false)
      × (w.sched.timer_heap.capacity * 16 < word)
  IsLegal w call (timed_waits_on m) = (call ≡ cond_timedwait m) × (is_cond m ≡ false)
  IsLegal w call (sends c ptr) = (call ≡ user) × IsTyped w c
  IsLegal w call (trysends c ptr) = (call ≡ user) × IsTyped w c
  IsLegal w call (receives c ptr) = (call ≡ user) × IsTyped w c
  IsLegal w call (tryreceives c ptr) = (call ≡ user) × IsTyped w c
  IsLegal w call (closes c) = (call ≡ user) × IsTyped w c
  IsLegal w call yields = call ≡ user
  IsLegal w call (sleeps realloc now msec) =
      (call ≡ user) × (w.sched.timer_heap.capacity * 16 < word)
  IsLegal w call (waits_io realloc now registered ms) =
      (call ≡ user) × (w.sched.timer_heap.capacity * 16 < word) × ((registered ≡ ok) ⊎ (ms ≡ none))
  IsLegal w call (waits_io_on ctx) =
      (call ≡ io_wait ctx.timeout_ms) × ((is_error ctx.revents ≡ false) ⊎ (ctx.timeout_ms ≡ none))
  IsLegal w call (finishes result) = call ≡ user

  -- A step: the scheduler enters the next coroutine, or the running one does something; between two
  -- coroutines the scheduler wakes whose time has come, or whose wait for I/O, that still goes on,
  -- has an event.
  pub data Step (s : Program) : Program → Type 0 where
    enters :
        (p : ℕ) (rest : List ℕ)
        → s.world.sched.current ≡ none
        → s.world.sched.ready_queue ≡ p ∷ rest
        → Step s (record s { world = enter (dequeue s.world).1 p })
    does :
        (p : ℕ) (op : Op)
        → current s.world ≡ some p
        → IsLegal s.world (s.calls p) op
        → Step s (after s p op)
    time_passes :
        (now : ℕ)
        → s.world.sched.current ≡ none
        → Step s (record s { world = wake_timers s.world now })
    event :
        (p : ℕ) (timeout_ms : Option ℕ)
        → s.world.sched.current ≡ none
        → s.calls p ≡ io_wait timeout_ms
        → Step s (record s { world = wake_waiter s.world p })

  -- What steps lead to from a program whose coroutines were spawned and have not run.
  pub data Reach : Program → Type 0 where
    start : {w : World} → Spawned w → Reach (record { world = w; calls = λ _. user })
    step : {u v : Program} → Reach u → Step u v → Reach v
