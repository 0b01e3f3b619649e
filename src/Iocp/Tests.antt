-- ===== src/Iocp/Tests.antt =====
-- The running coroutine 50 reads from socket 3 for 5 ms from 1000 on, with its context at 700. Other
-- calls accept on socket 3, with the client socket 9 and a context at 800.
use libco.Base.{
  ℕ, ◌+◌, ◌≡◌, refl, Bool, true, false, none, some, [], ◌∷◌, arith, store, has, if◌then◌else◌,
}
use libco.Timer.Push.{IsValid}
use libco.Runtime.{World, world, ok, current, wakeups, ready, waiting}
use libco.Mutex.{lock}
use libco.Runtime.Samples.{sample}
use libco.Scheduler.{wake_timers, fire}
use libco.Epoll.Deliver.{Delivered}
use libco.Base.Tally.{occ}
use libco.Iocp.{Iomux, read, add, Packet, packets, poll}
use libco.Iocp.Deliver.{named, Counted, poll-Reaped}
use libco.Iocp.Wait.{
  Machine, Io, finishes, waits, new_ctx, wait_io_async, wait_io_async_resume, wsa_etimedout,
  transferred, wait_io_async_cancelled,
}
use libco.Iocp.Timed.{Started, wait_io_async-Started}
use libco.Iocp.Accept.{Host, co_accept, co_accept_resume, co_accept_cancelled}
use libco.Iocp.Connect.{bound, co_connect, co_connect_resume, co_connect_cancelled}
use libco.Iocp.Balanced.{Opened, Closed, Released, co_accept-Released}
use libco.Iocp.Freed.{Begun, Freed, co_connect-Freed}
use libco.Iocp.Cancel.{resume-Cancelled}

abbrev empty : Iomux
empty = record {
  iocp = 1;
  entries = 2;
  max_events = 64;
  associated_sockets = λ i. 0;
  associated_count = 0;
}

abbrev two : Iomux
two = (add true (add true empty 3).1 9).1

abbrev both : ℕ → Bool
both = store (store (λ fd. false) 3 true) 9 true

abbrev start : Machine
start = record {
  world = sample;
  iomux = empty;
  ctxs = λ c. new_ctx 3 read (some 5) 50 0;
  sockets = 4 ∷ [];
  heap = [];
  ext_funcs_loaded = false;
}

sample-IsValid : IsValid (wakeups sample) sample.sched.timer_heap
sample-IsValid = record {
  ordered = λ c p q. omega (arith, q);
  bounded = omega arith;
  nonempty = omega arith;
  fits = omega arith;
}

wait_io_async-Started_example :
    Started
      (λ _. true)
      start
      1000
      50
      (some 5)
      read
      true
      (add true empty 3).0
      (wait_io_async (λ _. true) 1000 true true 3 read (some 5) 700 start)
unfolding current
wait_io_async-Started_example =
    wait_io_async-Started (λ _. true) 1000 true true 3 read (some 5) 700 start 50 refl
      sample-IsValid refl (omega arith)

abbrev machine {ℓ} : {A : Type ℓ} → Io A → Machine
machine (finishes a m) = m
machine (waits m) = m

-- The read completes: its packet is there twice.
abbrev waiter : Machine
waiter = machine (wait_io_async (λ _. true) 1000 true true 3 read (some 5) 700 start)

abbrev packet : Packet
packet = record { overlapped = 700; bytes = 12; status = 0 }

poll-Reaped_example :
    let (e, count, later, v) = poll (packets (packet ∷ packet ∷ [])) waiter.ctxs waiter.world in
    (woken : ℕ) × (count ≡ some woken)
    × Delivered waiter.world (named (packet ∷ packet ∷ []) waiter.ctxs) v
    × Counted woken waiter.world v
poll-Reaped_example = poll-Reaped (packet ∷ packet ∷ []) waiter.ctxs waiter.world

-- The limit is over before the packet comes, with the status of a cancelled operation.
abbrev timed_out : Machine
timed_out = record waiter { world = fire waiter.world 50 }

abbrev last : Packet
last = record { overlapped = 700; bytes = 0; status = 3221225760 }

resume-Cancelled_example :
    (v : Machine) × (wait_io_async_resume timed_out 50 700 ≡ waits v)
    × (co_accept_resume true none none timed_out 50 9 700 ≡ waits v)
    × (co_connect_resume true timed_out 50 700 ≡ waits v)
    × (let (e, count, ctxs, u) = poll (packets (last ∷ [])) v.ctxs v.world in
        ((u.routines 50).state
          ≡ (if has 50 (named (last ∷ []) timed_out.ctxs) then ready else waiting))
        × ((u.routines 50).timed_out ≡ true)
        × (occ 50 u.sched.ready_queue
            ≡ occ 50 timed_out.world.sched.ready_queue
              + (if has 50 (named (last ∷ []) timed_out.ctxs) then 1 else 0))
        × (u.sched.timer_heap ≡ timed_out.world.sched.timer_heap))
unfolding fire wait_io_async
resume-Cancelled_example = resume-Cancelled true none none timed_out 50 9 700 (last ∷ []) refl

-- So a read ends with WSAETIMEDOUT.
read-times_out :
    transferred (wait_io_async_cancelled timed_out) ≡ finishes (none, some wsa_etimedout) timed_out
unfolding transferred wait_io_async_cancelled
read-times_out = refl

-- Windows grants all calls, and the extension functions are loaded with the temporary socket 8.
abbrev host : Host
host = record {
  realloc = λ _. true;
  now = 1000;
  socket = some 9;
  calloc = some 800;
  temporary = some 8;
  accept_ex = true;
  connect_ex = true;
  sockaddrs = true;
  associates = true;
  submits = true;
}

abbrev accepting : Machine
accepting = machine (co_accept host 3 (some 5) start)

co_accept-Released_example :
    Opened start (co_accept host 3 (some 5) start)
    × Released true accepting 50 9 800 (co_accept_resume true none none accepting 50 9 800)
    × Closed accepting 9 800 (co_accept_cancelled accepting 9 800)
co_accept-Released_example =
    co_accept-Released host 3 (some 5) start true none none accepting 50 9 800

abbrev connecting : Machine
connecting = machine (co_connect host bound 3 16 (some 5) start)

co_connect-Freed_example :
    Begun start (co_connect host bound 3 16 (some 5) start)
    × Freed connecting 800 (co_connect_resume true connecting 50 800)
    × Freed connecting 800 (co_connect_cancelled connecting 800)
co_connect-Freed_example = co_connect-Freed host bound 3 16 (some 5) start true connecting 50 800

held_then : (accepting.sockets ≡ 9 ∷ 4 ∷ []) × (accepting.heap ≡ 800 ∷ [])
unfolding co_accept
held_then = (refl, refl)

-- Where WSARecv fails, the call returns with its timer in the heap and `io_waiting` set. The
-- coroutine then waits for a mutex that another one holds. When the timer is over, it is made ready
-- without the mutex, and the count of those that wait for I/O wraps around.
abbrev unsubmitted : Machine
unsubmitted = machine (wait_io_async (λ _. true) 1000 true false 3 read (some 5) 700 start)

abbrev locking : World
locking = world (
    lock (record unsubmitted.world { mutexes = λ _. record { locked = true; owner = some 60 } })
      200)

left_behind :
    ((wake_timers locking 1005).sched.ready_queue ≡ 50 ∷ [])
    × ((wake_timers locking 1005).queues 200 ≡ 50 ∷ [])
    × ((wake_timers locking 1005).sched.waiting_io_count ≡ 4294967295)
unfolding wait_io_async lock wake_timers
left_behind = (refl, refl, refl)

-- A socket that is closed stays in the table, as no call removes it. A new one with its number is not
-- associated again: the answer of the port is not asked for.
reused : add false two 3 ≡ (ok, two)
unfolding add
reused = refl
