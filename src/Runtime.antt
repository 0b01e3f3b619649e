-- ===== src/Runtime.antt =====
-- The data of libco's runtime: libco/include/libco/co.h, libco/src/co_routine.h,
-- libco/src/co_scheduler.h, and the objects of libco/src/sync/.
-- Objects live at addresses, and NULL is the address 0. There is one scheduler and one thread. A
-- list of nodes stands for each `co_queue_t`, as the refinement of co_queue.h allows: a coroutine
-- has one `queue_node`, so its address stands for its node.
pub mod Placed
pub mod Samples
use libco.Base.{
  ℕ, ◌+◌, Bool, true, false, Option, none, some, List, [], ◌∷◌, ◌++◌, ◌==◌, if◌then◌else◌, store,
}
use libco.Timer.{TimerHeap}
use libco.StackPool.{StackPool}

-- `co_error_t`.
pub data Error : Type 0 where
  ok error nomem inval platform timeout cancelled busy closed : Error

-- `co_state_t`.
pub data State : Type 0 where
  ready running sleeping waiting dead : State

-- The stack of `co_context_t`; the saved registers are not modelled.
pub record Context : Type 0 where
  pub stack_base : Option ℕ
  pub stack_size : ℕ

-- `struct co_routine`, without `name` and `detached`, which are set once and never read.
-- `scheduler` says whether the pointer is set, and `cond_wait_queue` is an address.
pub record Routine : Type 0 where
  pub id : ℕ
  pub state : State
  pub context : Context
  pub stack_base : Option ℕ
  pub stack_size : ℕ
  pub entry : ℕ
  pub arg : ℕ
  pub scheduler : Bool
  pub wakeup_time : ℕ
  pub chan_data : ℕ
  pub cond_wait_queue : Option ℕ
  pub timed_out : Bool
  pub io_waiting : Bool
  pub result : ℕ

-- `struct co_scheduler`, without `main_ctx` and the I/O multiplexer.
pub record Scheduler : Type 0 where
  pub ready_queue : List ℕ
  pub timer_heap : TimerHeap
  pub current : Option ℕ
  pub stack_pool : StackPool
  pub default_stack_size : ℕ
  pub running : Bool
  pub should_stop : Bool
  pub total_routines : ℕ
  pub active_routines : ℕ
  pub switch_count : ℕ
  pub waiting_io_count : ℕ
  pub next_id : ℕ

-- `struct co_mutex`. Its wait queue is the queue at the mutex's own address.
pub record Mutex : Type 0 where
  pub locked : Bool
  pub owner : Option ℕ

-- `struct co_channel`. The two queues are given by their addresses, the buffer by its elements.
pub record Channel : Type 0 where
  pub elem_size : ℕ
  pub capacity : ℕ
  pub buffer : ℕ → ℕ
  pub head : ℕ
  pub tail : ℕ
  pub count : ℕ
  pub send_queue : ℕ
  pub recv_queue : ℕ
  pub closed : Bool

-- All memory. `queues` holds the wait queues of mutexes, condition variables and channels, by
-- address. `cells` holds what users point channel calls at: an element for each address.
-- `active` says whether `tls_current_scheduler` is the scheduler or NULL.
pub record World : Type 0 where
  pub routines : ℕ → Routine
  pub sched : Scheduler
  pub active : Bool
  pub queues : ℕ → List ℕ
  pub mutexes : ℕ → Mutex
  pub channels : ℕ → Channel
  pub cells : ℕ → ℕ

abbrev pub set_routine : World → ℕ → Routine → World
set_routine w p r = record w { routines = store w.routines p r }

abbrev pub set_state : World → ℕ → State → World
set_state w p s = set_routine w p (record (w.routines p) { state = s })

abbrev pub set_queue : World → ℕ → List ℕ → World
set_queue w q xs = record w { queues = store w.queues q xs }

abbrev pub set_sched : World → Scheduler → World
set_sched w s = record w { sched = s }

-- `co_queue_push_back` and `co_queue_pop_front` on a list.
abbrev pub push_back : List ℕ → ℕ → List ℕ
push_back xs n = xs ++ n ∷ []

abbrev pub push_ready : World → ℕ → World
push_ready w p = set_sched w (record w.sched { ready_queue = push_back w.sched.ready_queue p })

abbrev pub push_wait : World → ℕ → ℕ → World
push_wait w q p = set_queue w q (push_back (w.queues q) p)

-- A coroutine is put on the ready queue: the three lines that signal, unlock and the channel share.
unfoldable pub wake : World → ℕ → World
wake w p = push_ready (set_state w p ready) p

-- The calling coroutine joins a wait queue.
unfoldable pub block : World → ℕ → ℕ → World
block w q p = push_wait (set_state w p waiting) q p

-- `co_current`: the running coroutine, if a scheduler is active.
unfoldable pub current : World → Option ℕ
current w = if w.active then w.sched.current else none

-- How a call goes on: it returns, or it switches to the scheduler. What it does when it is resumed
-- is then a function of its own.
pub data Outcome : Type 0 where
  returns : Error → World → Outcome
  suspends : World → Outcome

abbrev pub world : Outcome → World
world (returns e w) = w
world (suspends w) = w

-- The field through which the timer heap compares coroutines.
abbrev pub wakeups : World → ℕ → ℕ
wakeups w p = (w.routines p).wakeup_time

abbrev pub set_timers : World → TimerHeap → World
set_timers w h = set_sched w (record w.sched { timer_heap = h })
