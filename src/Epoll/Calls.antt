-- ===== src/Epoll/Calls.antt =====
-- libco/src/platform/linux/iomux_epoll.c: the life of a multiplexer, O_NONBLOCK, and the four calls
-- for I/O. A call to the system is given by what it answers. A negative descriptor is `none`.
use libco.Base.{
  ℕ, ◌+◌, ◌-◌, ◌/◌, ◌%◌, ◌||◌, ◌==◌, not, Bool, Option, none, some, List, ◌∷◌, if◌then◌else◌, erase,
}
use libco.Runtime.{Error, World, Outcome, returns, suspends, ok, inval, platform, timeout, current}
use libco.Epoll.{WaitCtx, Answer, done, absent, add, wait_io, wait_io_resume}

-- `struct co_iomux`. The descriptor of the epoll instance is one that the system gave.
pub record Iomux : Type 0 where
  pub epfd : ℕ
  pub max_events : ℕ
  pub events : ℕ

-- What is held: open descriptors and memory.
pub record Held : Type 0 where
  pub descriptors : List ℕ
  pub memory : List ℕ

-- The checks of `co_iomux_create`: the multiplexer, if there is one, and what is held then.
unfoldable pub create_with :
    (structure epfd events : Option ℕ) → (max_events : ℕ) → Held → Option Iomux × Held
create_with none epfd events n h = (none, h)
create_with (some a) none events n h = (none, record h { memory = erase a (a ∷ h.memory) })
create_with (some a) (some d) none n h =
    (none, record { descriptors = erase d (d ∷ h.descriptors); memory = erase a (a ∷ h.memory) })
create_with (some a) (some d) (some b) n h = (
  some (record { epfd = d; max_events = n; events = b }),
  record { descriptors = d ∷ h.descriptors; memory = b ∷ a ∷ h.memory },
)

unfoldable pub event_limit : (max_events : Option ℕ) → ℕ
event_limit none = 1024
event_limit (some n) = if n == 0 then 1024 else n

-- `co_iomux_create`, with the answers of `calloc`, `epoll_create1` and `calloc`; `max_events` is none
-- where it is negative.
unfoldable pub create :
    (structure epfd events : Option ℕ) → (max_events : Option ℕ) → Held → Option Iomux × Held
unfolding create_with event_limit
create structure epfd events max_events h =
    create_with structure epfd events (event_limit max_events) h

-- `co_iomux_destroy` of the multiplexer at `structure`.
unfoldable pub destroy : (structure : ℕ) → Iomux → Held → Held
destroy structure io h = record {
  descriptors = erase io.epfd h.descriptors;
  memory = erase structure (erase io.events h.memory);
}

deleted : Answer → Error
deleted done = ok
deleted absent = ok
deleted a = platform

-- `co_iomux_del`.
unfoldable pub del : (epoll_ctl : ℕ → Answer) → (fd : Option ℕ) → Error
unfolding deleted
del epoll_ctl none = inval
del epoll_ctl (some fd) = deleted (epoll_ctl fd)

-- O_NONBLOCK in the flags of a file.
abbrev pub o_nonblock : ℕ
o_nonblock = 2048

abbrev pub is_nonblocking : (flags : ℕ) → Bool
is_nonblocking flags = flags / o_nonblock % 2 == 1

-- `co_set_nonblocking` on a descriptor with the given flags: the flags that it has then. `gets` and
-- `sets` say whether the two calls of `fcntl` succeed.
unfoldable pub set_nonblocking : (gets sets : Bool) → (fd : Option ℕ) → (flags : ℕ) → Error × ℕ
set_nonblocking gets sets none flags = (inval, flags)
set_nonblocking gets sets (some fd) flags =
    if not gets
    then (platform, flags)
    else if not sets
    then (platform, flags)
    else (ok, if is_nonblocking flags then flags else flags + o_nonblock)

-- `co_set_blocking`.
unfoldable pub set_blocking : (gets sets : Bool) → (fd : Option ℕ) → (flags : ℕ) → Error × ℕ
set_blocking gets sets none flags = (inval, flags)
set_blocking gets sets (some fd) flags =
    if not gets
    then (platform, flags)
    else if not sets
    then (platform, flags)
    else (ok, if is_nonblocking flags then flags - o_nonblock else flags)

-- The numbers of errors that the calls test or set. EWOULDBLOCK is EAGAIN on Linux.
abbrev pub eio : ℕ
eio = 5

abbrev pub eagain : ℕ
eagain = 11

abbrev pub einval : ℕ
einval = 22

abbrev pub etimedout : ℕ
etimedout = 110

abbrev pub einprogress : ℕ
einprogress = 115

-- The answer of a system call, and of these calls: a result, or -1 with `errno`.
pub data Result : Type 0 where
  got : ℕ → Result
  fails : (errno : ℕ) → Result

-- The end of a stage: the call returns, or it waits in a switch to the scheduler.
pub data Io : Type 0 where
  finishes : Result → World → Io
  waits : World → Io

-- What a wait needs: the memory of the heap, the time, and the answers to EPOLL_CTL_ADD and
-- EPOLL_CTL_MOD.
pub record Kernel : Type 0 where
  pub realloc : ℕ → Bool
  pub now : ℕ
  pub ctl_add : ℕ → ℕ → Answer
  pub ctl_mod : ℕ → ℕ → Answer

unfoldable pub errno_of : Error → ℕ
errno_of timeout = etimedout
errno_of e = eio

-- Before its switch a wait only returns errors.
unfoldable pub waited : Outcome → Io
unfolding errno_of
waited (returns e w) = finishes (fails (errno_of e)) w
waited (suspends w) = waits w

abbrev pub new_ctx : (fd events : ℕ) → (timeout_ms : Option ℕ) → World → WaitCtx
new_ctx fd events timeout_ms w = record {
  fd = fd;
  events = events;
  revents = 0;
  timeout_ms = timeout_ms;
  routine = current w;
}

-- The wait for an event on a descriptor, in the calls below.
unfoldable pub wait_for : Kernel → (fd events : ℕ) → (timeout_ms : Option ℕ) → World → Io
unfolding waited wait_io add
wait_for k fd events timeout_ms w = waited (
    wait_io k.realloc k.now (add k.ctl_add k.ctl_mod (new_ctx fd events timeout_ms w)) timeout_ms w)

-- The first attempt, where `blocked` is the error that makes the call wait.
unfoldable pub attempted : (blocked : ℕ) → Result → (wait : Io) → World → Io
attempted blocked (got n) wait w = finishes (got n) w
attempted blocked (fails e) wait w = if e == blocked then wait else finishes (fails e) w

-- `co_read` up to its switch, where `answer` is that of the first `read`.
unfoldable pub co_read :
    Kernel
    → (answer : Result) → (fd : Option ℕ) → (buf count : ℕ) → (timeout_ms : Option ℕ) → World
    → Io
unfolding attempted wait_for
co_read k answer none buf count timeout_ms w = finishes (fails einval) w
co_read k answer (some fd) buf count timeout_ms w =
    if buf == 0 || count == 0
    then finishes (fails einval) w
    else attempted eagain answer (wait_for k fd 1 timeout_ms w) w

-- `co_write`.
unfoldable pub co_write :
    Kernel
    → (answer : Result) → (fd : Option ℕ) → (buf count : ℕ) → (timeout_ms : Option ℕ) → World
    → Io
unfolding attempted wait_for
co_write k answer none buf count timeout_ms w = finishes (fails einval) w
co_write k answer (some fd) buf count timeout_ms w =
    if buf == 0 || count == 0
    then finishes (fails einval) w
    else attempted eagain answer (wait_for k fd 2 timeout_ms w) w

-- `co_accept`.
unfoldable pub co_accept :
    Kernel → (answer : Result) → (fd : Option ℕ) → (timeout_ms : Option ℕ) → World → Io
unfolding attempted wait_for
co_accept k answer none timeout_ms w = finishes (fails einval) w
co_accept k answer (some fd) timeout_ms w = attempted eagain answer (wait_for k fd 1 timeout_ms w) w

-- `co_connect`.
unfoldable pub co_connect :
    Kernel → (answer : Result) → (fd : Option ℕ) → (addr : ℕ) → (timeout_ms : Option ℕ) → World → Io
unfolding attempted wait_for
co_connect k answer none addr timeout_ms w = finishes (fails einval) w
co_connect k answer (some fd) addr timeout_ms w =
    if addr == 0
    then finishes (fails einval) w
    else attempted einprogress answer (wait_for k fd 2 timeout_ms w) w

-- After the wait: the answer of the second attempt, or the error of the wait.
unfoldable pub retried : (again : Result) → Error × World → Result × World
unfolding errno_of
retried again (ok, w) = (again, w)
retried again (e, w) = (fails (errno_of e), w)

-- `co_read`, `co_write` and `co_accept` from the switch on, where `again` answers the second call.
unfoldable pub io_resume : (again : Result) → World → (p : ℕ) → WaitCtx → Result × World
unfolding retried wait_io_resume
io_resume again w p ctx = retried again (wait_io_resume w p ctx)

-- What `getsockopt` answers for SO_ERROR: the error of the connection, which 0 stands for none of.
unfoldable pub connection : Result → Result
connection (fails e) = fails e
connection (got n) = if n == 0 then got 0 else fails n

-- `co_connect` from the switch on.
unfoldable pub co_connect_resume : (so_error : Result) → World → (p : ℕ) → WaitCtx → Result × World
unfolding retried connection wait_io_resume
co_connect_resume so_error w p ctx = retried (connection so_error) (wait_io_resume w p ctx)
