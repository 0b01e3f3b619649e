-- ===== src/Iocp/Cancel.antt =====
-- The end of a wait whose limit is over: the operation is cancelled, and its packet is awaited.
use libco.Base.{ℕ, ◌+◌, ◌≡◌, refl, Bool, true, Option, List, arith, if◌then◌else◌, has}
use libco.Base.Tally.{occ}
use libco.Runtime.{ready, waiting}
use libco.Iocp.{Packet, packets, poll}
use libco.Iocp.Deliver.{named, poll-Reaped}
use libco.Iocp.Wait.{Machine, waits, suspend, set_world, wait_io_async_resume}
use libco.Iocp.Accept.{co_accept_resume}
use libco.Iocp.Connect.{co_connect_resume}

-- A coroutine that its timer resumed does not return from its wait, its `co_accept` or its
-- `co_connect`, whatever their arguments: each switches away again and leaves the same machine.
-- There the coroutine waits, and a poll makes it ready just where a packet names it through its
-- context; it is still marked as timed out then. Its timers are as they were.
pub resume-Cancelled :
    (updates : Bool) (room : Option ℕ) (remote : Option (List ℕ)) (m : Machine) (p s c : ℕ)
    (es : List Packet)
    → (m.world.routines p).timed_out ≡ true
    → (v : Machine) × (wait_io_async_resume m p c ≡ waits v)
      × (co_accept_resume updates room remote m p s c ≡ waits v)
      × (co_connect_resume updates m p c ≡ waits v)
      × (let (e, count, ctxs, u) = poll (packets es) v.ctxs v.world in
          ((u.routines p).state ≡ (if has p (named es m.ctxs) then ready else waiting))
          × ((u.routines p).timed_out ≡ true)
          × (occ p u.sched.ready_queue
              ≡ occ p m.world.sched.ready_queue + (if has p (named es m.ctxs) then 1 else 0))
          × (u.sched.timer_heap ≡ m.world.sched.timer_heap))
unfolding wait_io_async_resume co_accept_resume co_connect_resume suspend
resume-Cancelled updates room remote m p s c es late =
    let v = set_world m (suspend m.world p) in
    let (woken, e, d, k) = poll-Reaped es m.ctxs v.world in
    (
      v,
      rw late refl,
      rw late refl,
      rw late refl,
      (
        rw (d.resumed p) (ground arith),
        rw (d.resumed p) (ground (arith, late)),
        rw (d.enqueued p) (ground arith),
        d.timers,
      ),
    )
