-- ===== src/Program/IoWaits.antt =====
-- `co_wait_io` may give the running coroutine a timer.
use libco.Base.{
  ℕ, ◌+◌, ◌*◌, ◌%◌, ◌<◌, ◌≡◌, ◌⊎◌, refl, Bool, true, false, Option, none, some, arith, store, inl,
  inr, eq_self, word, subst,
}
use mathlib.Core.Path.{fun_ext}
use libco.Timer.{TimerHeap}
use libco.Timer.Push.{IsValid, Pushed, PushResult, push-PushResult}
use libco.Runtime.{World, Error, current, wakeups, ok, set_routine}
use libco.Runtime.Placed.{Place}
use libco.System.Timeouts.{timers}
use libco.Epoll.{wait_io, wait_io_as, armed, register, await_until}
use libco.Program.{Call, io_wait}
use libco.Program.Invariant.{Sound}
use libco.Program.Blocks.{Kept}
use libco.Program.Timers.{
  Alone, untimed-Core, untimed-Somewhere, timed-Somewhere, unlisted_now, not_waiting, still-IsValid,
}

module _ (is_cond : ℕ → Bool) (w : World) (calls : ℕ → Call) (place : ℕ → Place) (p : ℕ)
    (c : current w ≡ some p) (h : Sound is_cond w calls place) (z : timers w p ≡ 0) where
  -- A wait for I/O: its registration, with no timer yet.
  abbrev fresh : World
  fresh = set_routine w p (record (w.routines p) { timed_out = false; io_waiting = false })

  untimed-Kept :
      (registered : Error) → Kept is_cond calls p (io_wait none) (register registered fresh p)
  unfolding register
  untimed-Kept ok = (
    place,
    record {
      core =
          untimed-Core is_cond w calls place p c h z _ (store calls p (io_wait none))
            (λ x o. ground arith)
            (record {
              others = λ x o. ground arith;
              ready_queue = refl;
              queues = refl;
              no_record = rw (eq_self p) (unlisted_now is_cond w calls place p c h z);
            })
            refl (inr (ground arith));
      free = tt;
      runs_now = inl refl;
    },
  )
  untimed-Kept e =
      untimed-Somewhere is_cond w calls place p c h z _
        (record {
          others = λ x o. ground arith;
          ready_queue = refl;
          queues = refl;
          no_record = rw (eq_self p) (unlisted_now is_cond w calls place p c h z);
        })
        refl refl (ground (arith, (not_waiting is_cond w calls place p c h z)))

  await_until-Alone :
      (deadline : ℕ) → Alone is_cond w calls place p c h z (await_until fresh p deadline)
  unfolding await_until
  await_until-Alone deadline = record {
    others = λ x o. ground arith;
    ready_queue = refl;
    queues = refl;
    no_record = rw (eq_self p) (unlisted_now is_cond w calls place p c h z);
  }

  armed-Kept :
      (realloc : ℕ → Bool) (ms deadline : ℕ) (r : Bool × TimerHeap)
      → PushResult (wakeups (await_until fresh p deadline)) realloc w.sched.timer_heap p r
      → Kept is_cond calls p (io_wait (some ms)) (armed r ok (await_until fresh p deadline) p)
  unfolding armed register await_until
  armed-Kept realloc ms deadline (true, g) k =
      timed-Somewhere is_cond w calls place p c h z _ (io_wait (some ms))
        (record {
          others = λ x o. ground arith;
          ready_queue = refl;
          queues = refl;
          no_record = rw (eq_self p) (unlisted_now is_cond w calls place p c h z);
        })
        (subst (λ (t : ℕ → ℕ). Pushed t w.sched.timer_heap p g) (fun_ext (λ x. ground arith)) k)
        (ground arith)
  armed-Kept realloc ms deadline (false, g) k =
      untimed-Somewhere is_cond w calls place p c h z _
        (record {
          others = λ x o. ground arith;
          ready_queue = refl;
          queues = refl;
          no_record = rw (eq_self p) (unlisted_now is_cond w calls place p c h z);
        })
        refl refl (ground (arith, (not_waiting is_cond w calls place p c h z)))

  -- With a time-out the registration has to succeed: else the timer is left in the heap.
  pub wait_io-Kept :
      (realloc : ℕ → Bool) (now : ℕ) (registered : Error) (ms : Option ℕ)
      → w.sched.timer_heap.capacity * 16 < word
      → (registered ≡ ok) ⊎ (ms ≡ none)
      → Kept is_cond calls p (io_wait ms) (wait_io realloc now registered ms w)
  unfolding wait_io wait_io_as
  wait_io-Kept realloc now registered none fits e = rw c (untimed-Kept registered)
  wait_io-Kept realloc now registered (some ms) fits (inr e) = absurd (cc e)
  wait_io-Kept realloc now registered (some ms) fits (inl e) =
      let deadline = (now + ms) % word in
      let waked : IsValid (wakeups (await_until fresh p deadline)) w.sched.timer_heap =
        still-IsValid is_cond w calls place p c h z (await_until fresh p deadline)
          (await_until-Alone deadline) in
      rw (c, e)
        (armed-Kept realloc ms deadline _ (
          push-PushResult (wakeups (await_until fresh p deadline)) realloc w.sched.timer_heap p
            waked fits))
