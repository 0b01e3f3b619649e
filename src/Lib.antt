-- ===== src/Lib.antt =====
-- libco: a coroutine library in C, verified in part.
--
-- The program. A scheduler runs coroutines on one thread. It keeps the coroutines that can run in a
-- ready queue, the sleeping ones in a timer heap, and their stacks in a pool. A coroutine that has to
-- wait joins the wait queue of a mutex, a condition variable or a channel, and switches to the
-- scheduler; whoever ends the wait moves it to the ready queue. A coroutine is linked into queues by
-- one node of its own, so it can be on one queue at a time.
--
-- The files, with the code that each models:
-- - Base: shared names, words of 64 bits, lists, and counting the occurrences of a pointer.
-- - Queue (libco/src/co_queue.h): the circular doubly linked list with a sentinel. `Links` are the two
--   link fields of all nodes as functions of the node's address, and `Queue` is `co_queue_t`. Each
--   function has the name of the C function without `co_queue_`. Queue/Refine relates it to a list.
-- - Timer (libco/src/co_timer.c): the binary heap of wake-up times, `TimerHeap`. `heap_sift_up` and
--   `heap_sift_down` are `sift_up` and `sift_down`. The fuel of their loops is the index and the count:
--   the index falls, or grows below the count, in each round.
-- - StackPool (libco/src/co_stack_pool.c): the cache of stacks, with its counters.
-- - Allocator (libco/src/co_allocator.c): which function an allocation reaches.
-- - Runtime (libco/include/libco/co.h, libco/src/co_routine.h, libco/src/co_scheduler.h and the
--   headers of libco/src/sync): the data of the runtime, as one `World` with the objects by address.
--   A queue is a list here, as Queue/Refine and Queue/Separate allow. Runtime/Placed says where each
--   coroutine waits.
-- - Mutex, Cond, Channel (libco/src/sync/co_mutex.c, co_cond.c, co_channel.c): the synchronization
--   objects. A function that can suspend its coroutine is split at `co_context_swap`: it gives an
--   `Outcome`, and what it does later is a function of its own.
-- - Context (libco/src/platform/linux/context.c): the guards of a context and its recorded stack;
--   Context/Entry has the way of the entry function and its argument through the stack and the halves
--   of a pointer. Context/Fibers (libco/src/platform/windows/context.c) has the fibers of Windows.
-- - Coroutine (libco/src/co_routine.c): spawn, init, destroy, finish, yield and sleep.
-- - Scheduler (libco/src/co_scheduler.c): the ready queue, the timer loop, a turn of a coroutine, and the
--   main loop. What a coroutine does in its turn, and what the multiplexer's poll does, are arguments.
--   `run` has fuel, since coroutines can go on for ever; the timer loops have the heap's size, which
--   falls in each round.
-- - Epoll (libco/src/platform/linux/iomux_epoll.c, libco/src/co_iomux.h): the wait for I/O and the poll.
--   What the kernel answers is a parameter. Epoll/Calls has the life of a multiplexer, and `co_read`,
--   `co_write`, `co_accept` and `co_connect` up to their switch; `io_resume` and `co_connect_resume` are
--   what they do from there on.
-- - Iocp (libco/src/platform/windows/iomux_iocp.c): the multiplexer of Windows. Iocp has its table of
--   sockets and its poll, Iocp/Wait the wait with `co_read` and `co_write`, Iocp/Accept and
--   Iocp/Connect the calls that allocate their context, Iocp/Load the globals and the life of a
--   multiplexer. A call goes in up to three stages, since after a time-out it waits once more, for the
--   packet of the operation that it cancelled; `Machine` also lists what the calls hold.
-- - Program: coroutines that use all of this in any order, as a relation of steps on the world and the call
--   that each coroutine is in. Program/Fits is the invariant for one coroutine, Program/Invariant that for
--   the world, and the other modules keep it through the operations: Wakes and Channels those that take
--   waiters off lines, Blocks those that may wait in one, Timers, IoWaits and TimedWaits those that set a
--   timer, Resumes the rest of a timed call, Wakeups the time and the events of epoll. Program/Tame says what
--   may happen to the lines and to who is ready, and Ops, Exchanges, Acting, Lines and Quiet show it of the
--   operations; Program/Tracked follows the line that each coroutine asked for. Program/Turns and Program/Run
--   tie the steps to the scheduler's main loop, Program/Lasting bounds its rounds by a measure that each one
--   lessens, and Program/Rest is about where it ends. System is the part of it that needs no
--   assumption on addresses, with mutexes and condition variables only; System/Timeouts adds the loop over
--   the timers.
-- - Coxx (libcoxx/include/coxx/sync.hpp): the wait group of the C++ wrapper. Coxx/Task
--   (libcoxx/include/coxx/scheduler.hpp, libcoxx/src/scheduler.cpp): tasks, and the state that a task's
--   handle and its coroutine share; Coxx/Owned what the ends of the coroutine and of a join make of it. A loop over a call that fails each time spins, as a stage of its own.
--   Coxx/Typed (libcoxx/include/coxx/channel.hpp): receiving from `co::Channel`, and the loop over it,
--   whose fuel is one round more than there are elements.
-- - Demo (examples/demo_producer_consumer.c): producers and consumers over a ring buffer. A coroutine's
--   turn is a function from one `co_sleep` to the next, and the scheduler's order is a list of turns, any
--   list. Where `co_sleep` fails, the coroutine's next turn follows at once, which is one of these orders.
--   The items, of type `int`, stay far below 2 ^ 31 with the arguments of `main`, and are numbers here.
--   Demo/Ring has the buffer as a list, Demo/Fifo the order of the items, Demo/Progress and Demo/Deadlock
--   what a round of turns does at least.
-- - Echo (examples/demo_echo_server.c): the echo server, as it is built for Linux. A turn runs from the
--   answer of one call that can switch to the next such call; the turns come in any order. Echo/Balance
--   says what the server holds, Echo/Handlers is a turn of a client's handler, and Echo/Reachable has the
--   steps.
--
-- Choices. NULL is the address 0, and memory functions (`malloc`, `calloc`, `realloc`) and the clock are
-- parameters. `size_t` and `uint64_t` counters wrap at 2 ^ 64 where the code can reach that. An assertion
-- is not modelled; a theorem has what it needs of it as a hypothesis. A channel's element is one value,
-- which stands for its `elem_size` bytes.
--
-- Not modelled: the switch of the registers and of fibers, which the operating system does; the file for
-- macOS (libco/src/platform/macos/context.c), which repeats the one for Linux; the other programs of examples and benchmarks; the OVERLAPPED and the
-- buffers of Windows; and those methods of the C++ wrapper (libcoxx) that make one call of libco each.
pub mod Base
pub mod Queue
pub mod Timer
pub mod StackPool
pub mod Allocator
pub mod Runtime
pub mod Mutex
pub mod Cond
pub mod Channel
pub mod Context
pub mod Coroutine
pub mod Scheduler
pub mod Epoll
pub mod System
pub mod Iocp
pub mod Coxx
pub mod Program
pub mod Demo
pub mod Echo
