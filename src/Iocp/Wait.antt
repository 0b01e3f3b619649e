-- ===== src/Iocp/Wait.antt =====
-- `co_wait_io_async`, `co_read` and `co_write`. Each of these calls runs in stages, from one switch
-- to the scheduler to the next. `now` is the time, `c` is the address of the wait context, and the
-- flags say which calls of Windows succeed, a pending operation included.
use libco.Base.{
  ℕ, ◌+◌, ◌-◌, ◌%◌, ◌^◌, ◌||◌, ◌==◌, Bool, true, false, Option, none, some, List, if◌then◌else◌,
  store, word,
}
use libco.Timer
use libco.Timer.{TimerHeap}
use libco.Runtime.{
  Error, World, ok, error, nomem, inval, platform, timeout, waiting, current, set_routine,
  set_sched, set_timers, set_state, wakeups,
}
use libco.Epoll.{await_until, set_io_waiting, is_error}
use libco.Iocp.{Iomux, IoCtx, Op, read, write, add}

-- What these calls change: the runtime, the multiplexer, the wait contexts, the sockets that they
-- made and did not close, the contexts that they allocated and did not free, and whether the extension
-- functions are loaded.
pub record Machine : Type 0 where
  pub world : World
  pub iomux : Iomux
  pub ctxs : ℕ → IoCtx
  pub sockets : List ℕ
  pub heap : List ℕ
  pub ext_funcs_loaded : Bool

-- The end of a stage: the call returns, or it waits in a switch to the scheduler.
pub data Io {ℓ} (A : Type ℓ) : Type ℓ where
  finishes : A → Machine → Io A
  waits : Machine → Io A

-- What `WSASetLastError` is called with.
pub data Code : Type 0 where
  wsa_einval wsa_etimedout : Code

-- `INVALID_SOCKET`.
abbrev pub invalid_socket : ℕ
invalid_socket = word - 1

abbrev pub set_world : Machine → World → Machine
set_world m w = record m { world = w }

unfoldable pub timer_set : Bool × TimerHeap → World → (p : ℕ) → Bool × World
timer_set (true, h) w p = (true, set_timers w h)
timer_set (false, h) w p = (false, set_io_waiting (set_timers w h) p false)

-- The timer of a wait: false if it cannot be set.
unfoldable pub set_timer :
    (realloc : ℕ → Bool) → (now : ℕ) → (timeout_ms : Option ℕ) → World → (p : ℕ) → Bool × World
unfolding timer_set await_until Timer.push
set_timer realloc now timeout_ms w p =
    let fresh = set_routine w p (record (w.routines p) { timed_out = false; io_waiting = false }) in
    elim timeout_ms [
      | none ↦ (true, fresh)
      | some ms ↦
          let w1 = await_until fresh p ((now + ms) % word) in
          timer_set (Timer.push (wakeups w1) realloc w1.sched.timer_heap p) w1 p
    ]

-- The coroutine waits, and is not put back on the ready queue.
unfoldable pub suspend : World → (p : ℕ) → World
suspend w p =
    let w1 = set_state w p waiting in
    set_sched w1 (record w1.sched { waiting_io_count = (w1.sched.waiting_io_count + 1) % 2 ^ 32 })

-- The timer of a wait that is over is taken out of the heap.
unfoldable pub clear_timer : (timeout_ms : Option ℕ) → World → (p : ℕ) → World
unfolding Timer.remove
clear_timer none w p = w
clear_timer (some ms) w p =
    let w1 = set_io_waiting w p false in
    set_timers w1 (Timer.remove (wakeups w1) w1.sched.timer_heap p).1

abbrev pub new_ctx : (fd : ℕ) → Op → (timeout_ms : Option ℕ) → (p accept_socket : ℕ) → IoCtx
new_ctx fd op timeout_ms p accept_socket = record {
  fd = fd;
  op_type = op;
  revents = 0;
  timeout_ms = timeout_ms;
  routine = some p;
  bytes_transferred = 0;
  accept_socket = accept_socket;
}

-- The submission of `co_wait_io_async`, which has no case for the other two operations.
unfoldable pub submitted : Op → Bool → Bool
submitted read b = b
submitted write b = b
submitted op b = false

unfoldable pub submit : Error × Iomux → Op → (submits : Bool) → Machine → (p : ℕ) → Io (Error × ℕ)
unfolding submitted suspend
submit (ok, io) op submits m p =
    let m1 = record m { iomux = io } in
    if submitted op submits
    then waits (set_world m1 (suspend m1.world p))
    else finishes (platform, 0) m1
submit (e, io) op submits m p =
    finishes (platform, 0) (record m { world = set_io_waiting m.world p false; iomux = io })

unfoldable pub associate :
    Bool × World
    → (fd : ℕ) → Op
    → (timeout_ms : Option ℕ) → (c : ℕ) → (associates submits : Bool) → Machine
    → (p : ℕ) → Io (Error × ℕ)
unfolding submit add
associate (false, w) fd op timeout_ms c associates submits m p = finishes (nomem, 0) (set_world m w)
associate (true, w) fd op timeout_ms c associates submits m p =
    let m1 = record m { world = w; ctxs = store m.ctxs c (new_ctx fd op timeout_ms p 0) } in
    submit (add associates m1.iomux fd) op submits m1 p

-- `co_wait_io_async` up to its first switch. The context keeps the arguments that are read later.
unfoldable pub wait_io_async :
    (realloc : ℕ → Bool)
    → (now : ℕ) → (associates submits : Bool) → (fd : ℕ) → Op
    → (timeout_ms : Option ℕ) → (c : ℕ) → Machine
    → Io (Error × ℕ)
unfolding associate set_timer current
wait_io_async realloc now associates submits fd op timeout_ms c m = elim (current m.world) [
  | none ↦ finishes (inval, 0) m
  | some p ↦
      associate (set_timer realloc now timeout_ms m.world p) fd op timeout_ms c associates submits m
        p
]

-- From there to its end, or after a time-out to the second switch, with the context at `c`.
unfoldable pub wait_io_async_resume : Machine → (p c : ℕ) → Io (Error × ℕ)
unfolding suspend clear_timer
wait_io_async_resume m p c =
    if (m.world.routines p).timed_out
    then waits (set_world m (suspend m.world p))
    else if is_error (m.ctxs c).revents
    then finishes (error, 0) m
    else finishes (ok, (m.ctxs c).bytes_transferred)
        (set_world m (clear_timer (m.ctxs c).timeout_ms m.world p))

-- From the second switch on.
unfoldable pub wait_io_async_cancelled : Machine → Io (Error × ℕ)
wait_io_async_cancelled m = finishes (timeout, 0) m

-- How `co_read` and `co_write` answer: the number of bytes, or none for -1, and the error code that
-- they set themselves, if they do.
unfoldable pub transferred : Io (Error × ℕ) → Io (Option ℕ × Option Code)
transferred (finishes (ok, n) m) = finishes (some n, none) m
transferred (finishes (timeout, n) m) = finishes (none, some wsa_etimedout) m
transferred (finishes (e, n) m) = finishes (none, none) m
transferred (waits m) = waits m

-- `co_read` up to its first switch. Later it does what `transferred` makes of the wait's stages.
unfoldable pub co_read :
    (realloc : ℕ → Bool)
    → (now : ℕ) → (associates submits : Bool) → (fd buf count : ℕ) → (timeout_ms : Option ℕ)
    → (c : ℕ) → Machine
    → Io (Option ℕ × Option Code)
unfolding transferred wait_io_async
co_read realloc now associates submits fd buf count timeout_ms c m =
    if fd == invalid_socket || buf == 0 || count == 0
    then finishes (none, some wsa_einval) m
    else transferred (wait_io_async realloc now associates submits fd read timeout_ms c m)

-- `co_write`, in the same way.
unfoldable pub co_write :
    (realloc : ℕ → Bool)
    → (now : ℕ) → (associates submits : Bool) → (fd buf count : ℕ) → (timeout_ms : Option ℕ)
    → (c : ℕ) → Machine
    → Io (Option ℕ × Option Code)
unfolding transferred wait_io_async
co_write realloc now associates submits fd buf count timeout_ms c m =
    if fd == invalid_socket || buf == 0 || count == 0
    then finishes (none, some wsa_einval) m
    else transferred (wait_io_async realloc now associates submits fd write timeout_ms c m)
