-- ===== src/Iocp.antt =====
-- libco/src/platform/windows/iomux_iocp.c: the multiplexer of Windows, an I/O completion port.
-- What a call of Windows answers is a parameter. A socket is a number, and NULL is 0. A negative
-- time-out is `none`. The multiplexer of the scheduler is there, as create of the scheduler requires.
pub mod Table
pub mod Deliver
pub mod Wait
pub mod Load
pub mod Accept
pub mod Connect
pub mod Balanced
pub mod Freed
pub mod Timed
pub mod Cancel
pub mod Created
mod Tests
use libco.Base.{
  ℕ, zero, suc, ◌+◌, ◌-◌, ◌||◌, ◌==◌, Bool, true, false, Option, none, some, List, [], ◌∷◌,
  if◌then◌else◌, store, ltb,
}
use libco.Runtime.{Error, World, Routine, ok, platform, timeout}
use libco.Scheduler.{is_waiting}
use libco.Epoll.{wake_waiter}

-- `struct co_iomux`, without `wsa_initialized`, which is set once and never read. The handle of the
-- port and the address of the buffer of packets are numbers.
pub record Iomux : Type 0 where
  pub iocp : ℕ
  pub entries : ℕ
  pub max_events : ℕ
  pub associated_sockets : ℕ → ℕ
  pub associated_count : ℕ

-- `co_io_op_t`.
pub data Op : Type 0 where
  read write accept connect : Op

-- `co_io_wait_ctx_t`, without `events` and the deadline, which are not used here, the buffers, and
-- the OVERLAPPED, whose address stands for the context's.
pub record IoCtx : Type 0 where
  pub fd : ℕ
  pub op_type : Op
  pub revents : ℕ
  pub timeout_ms : Option ℕ
  pub routine : Option ℕ
  pub bytes_transferred : ℕ
  pub accept_socket : ℕ

-- The search of `co_iomux_add`: from the index `i` on, with `left` entries to go.
unfoldable pub is_associated : (sockets : ℕ → ℕ) → (fd i left : ℕ) → Bool
is_associated sockets fd i zero = false
is_associated sockets fd i (suc left) = sockets i == fd || is_associated sockets fd (i + 1) left

unfoldable pub record_socket : Iomux → (fd : ℕ) → Iomux
record_socket io fd =
    if ltb io.associated_count 1024
    then record io {
      associated_sockets = store io.associated_sockets io.associated_count fd;
      associated_count = io.associated_count + 1;
    }
    else io

-- `co_iomux_add`. `associates` says whether `CreateIoCompletionPort` succeeds.
unfoldable pub add : (associates : Bool) → Iomux → (fd : ℕ) → Error × Iomux
unfolding is_associated record_socket
add associates io fd =
    if is_associated io.associated_sockets fd 0 io.associated_count
    then (ok, io)
    else if associates
    then (ok, record_socket io fd)
    else (platform, io)

-- The search of `co_iomux_del`.
unfoldable pub slot_of : (sockets : ℕ → ℕ) → (fd i left : ℕ) → Option ℕ
slot_of sockets fd i zero = none
slot_of sockets fd i (suc left) =
    let later = slot_of sockets fd (i + 1) left in if sockets i == fd then some i else later

-- `co_iomux_del`: the last entry fills the gap.
unfoldable pub del : Iomux → (fd : ℕ) → Error × Iomux
unfolding slot_of
del io fd = (
  ok,
  elim (slot_of io.associated_sockets fd 0 io.associated_count) [
    | none ↦ io
    | some i ↦ record io {
      associated_sockets =
          store io.associated_sockets i (io.associated_sockets (io.associated_count - 1));
      associated_count = io.associated_count - 1;
    }
  ],
)

-- A completion packet: the address of the context, or 0, the bytes, and the NTSTATUS.
pub record Packet : Type 0 where
  pub overlapped : ℕ
  pub bytes : ℕ
  pub status : ℕ

op_event : Op → ℕ
op_event read = 1
op_event write = 2
op_event accept = 1
op_event connect = 2

unfoldable pub revents_of : Op → (status : ℕ) → ℕ
unfolding op_event
revents_of op status = op_event op + (if status == 0 then 0 else 4)

-- The loop of `co_iomux_poll` over the packets. A coroutine is woken as with epoll.
unfoldable pub deliver : List Packet → (ℕ → IoCtx) → (woken : ℕ) → World → ℕ × (ℕ → IoCtx) × World
unfolding revents_of wake_waiter
deliver [] ctxs woken w = (woken, ctxs, w)
deliver (e ∷ es) ctxs woken w =
    let c = e.overlapped in
    let seen = store ctxs c (record (ctxs c) {
      bytes_transferred = e.bytes;
      revents = revents_of (ctxs c).op_type e.status;
    }) in
    if c == 0 then deliver es ctxs woken w else elim (ctxs c).routine [
      | none ↦ deliver es ctxs woken w
      | some p ↦
          deliver es seen (woken + (if is_waiting (w.routines p).state then 1 else 0))
            (wake_waiter w p)
    ]

-- What `GetQueuedCompletionStatusEx` answers.
pub data Dequeued : Type 0 where
  packets : List Packet → Dequeued
  timed_out failed : Dequeued

-- `co_iomux_poll`: its result, the count that it writes, if it does, and what it leaves.
unfoldable pub poll : Dequeued → (ℕ → IoCtx) → World → Error × Option ℕ × (ℕ → IoCtx) × World
unfolding deliver
poll timed_out ctxs w = (timeout, some 0, ctxs, w)
poll failed ctxs w = (platform, none, ctxs, w)
poll (packets es) ctxs w = let (woken, later, v) = deliver es ctxs 0 w in (ok, some woken, later, v)
