-- ===== src/Iocp/Timed.antt =====
-- The timer of `co_wait_io_async`: when it is set, and when it is left behind.
use libco.Base.{
  ℕ, ◌+◌, ◌*◌, ◌%◌, ◌^◌, ◌<◌, ◌≡◌, ◌≢◌, refl, sym, subst, Bool, true, false, Option, none, some,
  arith, store, word, inl, inr, Bool-cases,
}
use mathlib.Core.Path.{fun_ext}
use libco.Base.Tally.{tally}
use libco.Timer.{TimerHeap}
use libco.Timer.Push.{IsValid, Pushed, PushResult, push-PushResult}
use libco.Runtime.{
  Error, World, Routine, ok, nomem, platform, waiting, current, wakeups, set_routine,
}
use libco.Coroutine.Sleep.{IsValid-store}
use libco.Epoll.{await_until}
use libco.Epoll.Timers.{wakeups-set}
use libco.Iocp.{Iomux, Op, add}
use libco.Iocp.Wait.{
  Machine, Io, finishes, waits, timer_set, set_timer, suspend, submitted, submit, associate,
  wait_io_async,
}

abbrev pub is_limited : Option ℕ → Bool
is_limited none = false
is_limited (some ms) = true

-- The timer of a wait from `now` on: one entry more in the heap, due at the limit, if there is one.
pub data Timed (w : World) (now p : ℕ) (v : World) : Option ℕ → Type 0 where
  unlimited : v.sched.timer_heap ≡ w.sched.timer_heap → Timed w now p v none
  limited :
      (ms : ℕ)
      → (v.routines p).wakeup_time ≡ (now + ms) % word
      → Pushed (wakeups v) w.sched.timer_heap p v.sched.timer_heap
      → Timed w now p v (some ms)

Timed-set :
    (w v : World) (now p : ℕ) (limit : Option ℕ) (r : Routine)
    → r.wakeup_time ≡ (v.routines p).wakeup_time
    → Timed w now p v limit
    → Timed w now p (set_routine v p r) limit
Timed-set w v now p _ r e (unlimited s) = unlimited s
Timed-set w v now p _ r e (limited ms d k) = limited ms (ground (arith, d, e)) (
    subst (λ (f : ℕ → ℕ). Pushed f w.sched.timer_heap p v.sched.timer_heap)
      (sym (wakeups-set v p r e)) k)

Timed-suspend :
    (w v : World) (now p : ℕ) (limit : Option ℕ)
    → Timed w now p v limit
    → Timed w now p (suspend v p) limit
unfolding suspend
Timed-suspend w v now p _ (unlimited s) = unlimited s
Timed-suspend w v now p _ (limited ms d k) = limited ms (ground (arith, d)) (
    subst (λ (f : ℕ → ℕ). Pushed f w.sched.timer_heap p v.sched.timer_heap)
      (sym (wakeups-set v p _ refl)) k)

-- What `set_timer` does.
pub data TimerSet (realloc : ℕ → Bool) (w : World) (now p : ℕ) (limit : Option ℕ)
    : Bool × World → Type 0 where
  set :
      {v : World}
      → Timed w now p v limit
      → (v.routines p).io_waiting ≡ is_limited limit
      → (v.routines p).state ≡ (w.routines p).state
      → v.sched.waiting_io_count ≡ w.sched.waiting_io_count
      → TimerSet realloc w now p limit (true, v)
  unset :
      {v : World} (ms : ℕ)
      → limit ≡ some ms
      → w.sched.timer_heap.count ≡ w.sched.timer_heap.capacity
      → realloc (w.sched.timer_heap.capacity * 16) ≡ false
      → v.sched ≡ w.sched
      → (v.routines p).state ≡ (w.routines p).state
      → (v.routines p).io_waiting ≡ false
      → TimerSet realloc w now p limit (false, v)

set_timer-TimerSet :
    (realloc : ℕ → Bool) (now : ℕ) (limit : Option ℕ) (w : World) (p : ℕ)
    → IsValid (wakeups w) w.sched.timer_heap
    → tally p w.sched.timer_heap.count w.sched.timer_heap.heap ≡ 0
    → w.sched.timer_heap.capacity * 16 < word
    → TimerSet realloc w now p limit (set_timer realloc now limit w p)
unfolding set_timer
set_timer-TimerSet realloc now none w p v out fits =
    set (unlimited refl) (ground arith) (ground arith) refl
set_timer-TimerSet realloc now (some ms) w p v out fits = of_push _ (
    push-PushResult _ realloc w.sched.timer_heap p
      (rw same (IsValid-store (wakeups w) w.sched.timer_heap p ((now + ms) % word) v out)) fits)
  where
    fresh : World
    fresh = set_routine w p (record (w.routines p) { timed_out = false; io_waiting = false })

    w1 : World
    w1 = await_until fresh p ((now + ms) % word)

    same : wakeups w1 ≡ store (wakeups w) p ((now + ms) % word)
    same = fun_ext (λ x. ground arith)

    of_push :
        (r : Bool × TimerHeap)
        → PushResult (wakeups w1) realloc w.sched.timer_heap p r
        → TimerSet realloc w now p (some ms) (timer_set r w1 p)
    of_push (true, g) k = set (limited ms (ground arith) k) (ground arith) (ground arith) refl
    of_push (false, g) (e, full, refused) =
        unset ms refl full refused (rw e refl) (ground arith) (ground arith)

-- The end of the first stage of the wait for the operation `op` on a descriptor that is answered
-- with `registered`.
pub data Started (realloc : ℕ → Bool) (m : Machine) (now p : ℕ) (limit : Option ℕ) (op : Op)
    (submits : Bool) : (registered : Error) → Io (Error × ℕ) → Type 0 where
  pending :
      {v : Machine}
      → submitted op submits ≡ true
      → Timed m.world now p v.world limit
      → (v.world.routines p).state ≡ waiting
      → (v.world.routines p).io_waiting ≡ is_limited limit
      → v.world.sched.waiting_io_count ≡ (m.world.sched.waiting_io_count + 1) % 2 ^ 32
      → Started realloc m now p limit op submits ok (waits v)
  not_submitted :
      {v : Machine}
      → submitted op submits ≡ false
      → Timed m.world now p v.world limit
      → (v.world.routines p).state ≡ (m.world.routines p).state
      → (v.world.routines p).io_waiting ≡ is_limited limit
      → v.world.sched.waiting_io_count ≡ m.world.sched.waiting_io_count
      → Started realloc m now p limit op submits ok (finishes (platform, 0) v)
  not_associated :
      {e : Error} {v : Machine}
      → e ≢ ok
      → Timed m.world now p v.world limit
      → (v.world.routines p).state ≡ (m.world.routines p).state
      → (v.world.routines p).io_waiting ≡ false
      → v.world.sched.waiting_io_count ≡ m.world.sched.waiting_io_count
      → Started realloc m now p limit op submits e (finishes (platform, 0) v)
  no_memory :
      {e : Error} {v : Machine} (ms : ℕ)
      → limit ≡ some ms
      → m.world.sched.timer_heap.count ≡ m.world.sched.timer_heap.capacity
      → realloc (m.world.sched.timer_heap.capacity * 16) ≡ false
      → v.world.sched ≡ m.world.sched
      → (v.world.routines p).state ≡ (m.world.routines p).state
      → (v.world.routines p).io_waiting ≡ false
      → Started realloc m now p limit op submits e (finishes (nomem, 0) v)

submit-Started :
    (realloc : ℕ → Bool) (r : Error × Iomux) (submits : Bool) (op : Op) (base m : Machine)
    (now p : ℕ) (limit : Option ℕ)
    → Timed base.world now p m.world limit
    → (m.world.routines p).io_waiting ≡ is_limited limit
    → (m.world.routines p).state ≡ (base.world.routines p).state
    → m.world.sched.waiting_io_count ≡ base.world.sched.waiting_io_count
    → Started realloc base now p limit op submits r.0 (submit r op submits m p)
unfolding submit suspend
submit-Started realloc (ok, io) submits op base m now p limit t i s n =
    elim (Bool-cases (submitted op submits)) [
      | inl can ↦ rw can (
          pending can (Timed-suspend base.world m.world now p limit t) (ground arith)
            (ground (arith, i)) (rw n refl))
      | inr bad ↦ rw bad (not_submitted bad t s i n)
    ]
submit-Started realloc (e, io) submits op base m now p limit t i s n =
    not_associated (λ z. cc) (Timed-set base.world m.world now p limit _ refl t) (ground (arith, s))
      (ground arith) n

associate-Started :
    (realloc : ℕ → Bool) (r : Bool × World) (fd : ℕ) (op : Op) (c : ℕ) (associates submits : Bool)
    (m : Machine) (now p : ℕ) (limit : Option ℕ)
    → TimerSet realloc m.world now p limit r
    → Started realloc m now p limit op submits
        (add associates m.iomux fd).0
        (associate r fd op limit c associates submits m p)
unfolding associate
associate-Started realloc _ fd op c associates submits m now p limit (set t i s n) =
    submit-Started realloc (add associates m.iomux fd) submits op m _ now p limit t i s n
associate-Started realloc _ fd op c associates submits m now p limit
      (unset ms e full refused s a i) =
    no_memory ms e full refused s a i

-- In a coroutine without a timer, on a valid heap whose doubled size in bytes fits a `size_t`: a
-- wait with a limit sets one timer, due when the limit is over. If its socket was associated and the
-- operation could be submitted, the coroutine waits and is counted. If the socket could not be
-- associated, the call returns a failure, and so it does if the operation could not be submitted; both
-- leave the timer set, and the second one leaves `io_waiting` set as well. It fails for want of memory
-- only with a limit, where the heap is full and could not grow, and then the scheduler is as it was.
pub wait_io_async-Started :
    (realloc : ℕ → Bool) (now : ℕ) (associates submits : Bool) (fd : ℕ) (op : Op) (limit : Option ℕ)
    (c : ℕ) (m : Machine) (p : ℕ)
    → current m.world ≡ some p
    → IsValid (wakeups m.world) m.world.sched.timer_heap
    → tally p m.world.sched.timer_heap.count m.world.sched.timer_heap.heap ≡ 0
    → m.world.sched.timer_heap.capacity * 16 < word
    → Started realloc m now p limit op submits
        (add associates m.iomux fd).0
        (wait_io_async realloc now associates submits fd op limit c m)
unfolding wait_io_async
wait_io_async-Started realloc now associates submits fd op limit c m p e v out fits =
    rw (e, wait_io_async)
      (associate-Started realloc _ fd op c associates submits m now p limit
        (set_timer-TimerSet realloc now limit m.world p v out fits))
