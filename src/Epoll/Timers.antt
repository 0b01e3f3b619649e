-- ===== src/Epoll/Timers.antt =====
-- The timer of a wait for I/O: when it is set, and when it is left behind.
use libco.Base.{
  ℕ, ◌+◌, ◌*◌, ◌%◌, ◌<◌, ◌≡◌, ◌≢◌, refl, ◌∙◌, sym, ap, subst, ◌&&◌, Bool, true, false, Option, none,
  some, arith, ◌==◌, if◌then◌else◌, store, word, ltb, inl, inr, Bool-cases, Option-cases,
}
use mathlib.Core.Path.{fun_ext}
use libco.Base.Tally.{tally}
use libco.Timer.{TimerHeap}
use libco.Timer.Push.{IsValid, Pushed, PushResult, push-PushResult}
use libco.Timer.Remove.{RemoveResult, remove-RemoveResult}
use libco.Runtime.{
  World, Scheduler, Routine, Error, Outcome, returns, suspends, ok, error, nomem, timeout, waiting,
  current, wakeups, set_routine,
}
use libco.Coroutine.Sleep.{IsValid-store}
use libco.Epoll.{
  WaitCtx, is_error, wait_io, wait_io_as, wait_io_resume, armed, register, await_until,
  set_io_waiting,
}

-- What the first half of a wait does.
pub data Awaited (realloc : ℕ → Bool) (w : World) (now : ℕ) (registered : Error) (limit : Option ℕ)
    (p : ℕ) : Outcome → Type 0 where
  unbounded :
      {v : World}
      → limit ≡ none
      → registered ≡ ok
      → (v.routines p).state ≡ waiting
      → (v.routines p).timed_out ≡ false
      → wakeups v ≡ wakeups w
      → v.sched.timer_heap ≡ w.sched.timer_heap
      → Awaited realloc w now registered limit p (suspends v)
  bounded :
      {v : World} (ms : ℕ)
      → limit ≡ some ms
      → registered ≡ ok
      → (v.routines p).state ≡ waiting
      → (v.routines p).io_waiting ≡ true
      → (v.routines p).timed_out ≡ false
      → (v.routines p).wakeup_time ≡ (now + ms) % word
      → Pushed (wakeups v) w.sched.timer_heap p v.sched.timer_heap
      → Awaited realloc w now registered limit p (suspends v)
  unregistered :
      {v : World}
      → limit ≡ none
      → registered ≢ ok
      → v.sched ≡ w.sched
      → Awaited realloc w now registered limit p (returns registered v)
  left_armed :
      {v : World} (ms : ℕ)
      → limit ≡ some ms
      → registered ≢ ok
      → (v.routines p).state ≡ (w.routines p).state
      → (v.routines p).io_waiting ≡ false
      → (v.routines p).wakeup_time ≡ (now + ms) % word
      → Pushed (wakeups v) w.sched.timer_heap p v.sched.timer_heap
      → Awaited realloc w now registered limit p (returns registered v)
  no_memory :
      {v : World} (ms : ℕ)
      → limit ≡ some ms
      → w.sched.timer_heap.count ≡ w.sched.timer_heap.capacity
      → realloc (w.sched.timer_heap.capacity * 16) ≡ false
      → v.sched ≡ w.sched
      → (v.routines p).state ≡ (w.routines p).state
      → Awaited realloc w now registered limit p (returns nomem v)

-- What the second half does: it takes the timer out of the heap only where it returns OK.
pub data Resumed (w : World) (p : ℕ) (ctx : WaitCtx) : Error × World → Type 0 where
  late : (w.routines p).timed_out ≡ true → Resumed w p ctx (timeout, w)
  broken :
      (w.routines p).timed_out ≡ false → is_error ctx.revents ≡ true → Resumed w p ctx (error, w)
  plain :
      (w.routines p).timed_out ≡ false
      → is_error ctx.revents ≡ false
      → ctx.timeout_ms ≡ none
      → Resumed w p ctx (ok, w)
  cancelled :
      {v : World} (ms : ℕ)
      → (w.routines p).timed_out ≡ false
      → is_error ctx.revents ≡ false
      → ctx.timeout_ms ≡ some ms
      → IsValid (wakeups v) v.sched.timer_heap
      → ((x : ℕ)
          → tally x v.sched.timer_heap.count v.sched.timer_heap.heap
              + (if (x == p) && ltb 0 (tally p w.sched.timer_heap.count w.sched.timer_heap.heap)
                  then 1
                  else 0)
            ≡ tally x w.sched.timer_heap.count w.sched.timer_heap.heap)
      → Resumed w p ctx (ok, v)

removed :
    (k : ℕ → ℕ) (h : TimerHeap) (p : ℕ) (r : Bool × TimerHeap)
    → IsValid k h
    → RemoveResult k h p r
    → IsValid k r.1
      × ((x : ℕ)
          → tally x r.1.count r.1.heap
              + (if (x == p) && ltb 0 (tally p h.count h.heap) then 1 else 0)
            ≡ tally x h.count h.heap)
removed k h p (true, g) v t = (t.valid, λ x. ground (arith, t.taken x, t.taken p))
removed k h p (false, g) v (e, z) = (rw e v, λ x. rw (e, z) (ground arith))

-- On a valid heap, the resumed coroutine takes one timer of its own out of the heap, if it has one
-- there, and leaves those of the others, but only where its wait succeeded and had a limit. After
-- a time-out, and after an error event, it leaves the heap as it is: so an error event leaves the
-- timer set.
pub wait_io_resume-Resumed :
    (w : World) (p : ℕ) (ctx : WaitCtx)
    → IsValid (wakeups w) w.sched.timer_heap
    → Resumed w p ctx (wait_io_resume w p ctx)
unfolding wait_io_resume
wait_io_resume-Resumed w p ctx v = elim (Bool-cases (w.routines p).timed_out) [
  | inl late_one ↦ rw late_one (late late_one)
  | inr in_time ↦ rw in_time (elim (Bool-cases (is_error ctx.revents)) [
    | inl bad ↦ rw bad (broken in_time bad)
    | inr good ↦ rw good (elim (Option-cases ctx.timeout_ms) [
      | inl e ↦ rw e (plain in_time good refl)
      | inr (ms, e) ↦ rw e (
          let (valid, taken) =
            removed (wakeups (set_io_waiting w p false)) w.sched.timer_heap p _ (rw same v) (
              remove-RemoveResult (wakeups (set_io_waiting w p false)) w.sched.timer_heap p
                (rw same v)) in
          cancelled ms in_time good refl valid taken)
    ])
  ])
]
  where
    same : wakeups (set_io_waiting w p false) ≡ wakeups w
    same = fun_ext (λ x. ground arith)

pub wakeups-set :
    (v : World) (p : ℕ) (r : Routine)
    → r.wakeup_time ≡ (v.routines p).wakeup_time
    → wakeups (set_routine v p r) ≡ wakeups v
wakeups-set v p r e = fun_ext (λ x. ground (arith, e))

register-Awaited :
    (realloc : ℕ → Bool) (r : Error) (w v : World) (now p : ℕ)
    → v.sched ≡ w.sched
    → (v.routines p).timed_out ≡ false
    → wakeups v ≡ wakeups w
    → Awaited realloc w now r none p (register r v p)
unfolding register
register-Awaited realloc ok w v now p e o k =
    unbounded refl refl (ground arith) (ground (arith, o)) (wakeups-set v p _ refl ∙ k)
      (ap (λ (s : Scheduler). s.timer_heap) e)
register-Awaited realloc r w v now p e o k = unregistered refl (λ z. cc) e

armed-Awaited :
    (timer : Bool × TimerHeap) (r : Error) (realloc : ℕ → Bool) (w v : World) (now ms p : ℕ)
    → v.sched ≡ w.sched
    → (v.routines p).wakeup_time ≡ (now + ms) % word
    → (v.routines p).io_waiting ≡ true
    → (v.routines p).timed_out ≡ false
    → (v.routines p).state ≡ (w.routines p).state
    → PushResult (wakeups v) realloc w.sched.timer_heap p timer
    → Awaited realloc w now r (some ms) p (armed timer r v p)
unfolding armed register
armed-Awaited (true, g) ok realloc w v now ms p e t i o a k =
    bounded ms refl refl (ground arith) (ground (arith, i)) (ground (arith, o)) (ground (arith, t))
      (subst (λ (f : ℕ → ℕ). Pushed f w.sched.timer_heap p g) (sym (wakeups-set v p _ refl)) k)
armed-Awaited (true, g) r realloc w v now ms p e t i o a k =
    left_armed ms refl (λ z. cc) (ground (arith, a)) (ground arith) (ground (arith, t))
      (subst (λ (f : ℕ → ℕ). Pushed f w.sched.timer_heap p g) (sym (wakeups-set v p _ refl)) k)
armed-Awaited (false, g) r realloc w v now ms p e t i o a (same, full, refused) =
    no_memory ms refl full refused e (ground (arith, a))

-- In a coroutine without a timer, on a valid heap whose doubled size in bytes fits a `size_t`:
-- with a limit, the wait sets one timer, due when the limit is over, and suspends the coroutine if
-- the descriptor was registered; if not, it returns that error, and the timer is still set. Without a
-- limit it sets no timer, and suspends or returns that error likewise. It returns CO_ERROR_NOMEM only
-- with a limit, where the heap is full and there is no memory for twice as many timers, and then the
-- scheduler is as it was.
pub wait_io-Awaited :
    (realloc : ℕ → Bool) (now : ℕ) (registered : Error) (limit : Option ℕ) (w : World) (p : ℕ)
    → current w ≡ some p
    → IsValid (wakeups w) w.sched.timer_heap
    → tally p w.sched.timer_heap.count w.sched.timer_heap.heap ≡ 0
    → w.sched.timer_heap.capacity * 16 < word
    → Awaited realloc w now registered limit p (wait_io realloc now registered limit w)
unfolding wait_io wait_io_as
wait_io-Awaited realloc now registered limit w p c v out fits = rw c (at_limit limit)
  where
    fresh : World
    fresh = set_routine w p (record (w.routines p) { timed_out = false; io_waiting = false })

    same :
        (ms : ℕ)
        → wakeups (await_until fresh p ((now + ms) % word))
          ≡ store (wakeups w) p ((now + ms) % word)
    same ms = fun_ext (λ x. ground arith)

    at_limit :
        (l : Option ℕ)
        → Awaited realloc w now registered l p (wait_io_as (some p) realloc now registered l w)
    at_limit none =
        register-Awaited realloc registered w fresh now p refl (ground arith)
          (wakeups-set w p _ refl)
    at_limit (some ms) =
        armed-Awaited _ registered realloc w (await_until fresh p ((now + ms) % word)) now ms p refl
          (ground arith) (ground arith) (ground arith) (ground arith)
          (push-PushResult _ realloc w.sched.timer_heap p
            (rw (same ms)
              (IsValid-store (wakeups w) w.sched.timer_heap p ((now + ms) % word) v out))
            fits)
