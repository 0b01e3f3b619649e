-- ===== src/Program/Resumes.antt =====
-- A coroutine that goes on with a timed call takes its timer out of the heap.
use libco.Base.{
  ℕ, ◌≡◌, ◌⊎◌, refl, Bool, true, false, Option, none, some, arith, store, inl, inr, Bool-cases,
  Option-cases, subst,
}
use libco.Timer.{TimerHeap}
use libco.Timer.Remove.{RemoveResult, remove-RemoveResult}
use libco.Runtime.{World, current, wakeups, set_timers}
use libco.Runtime.Placed.{Place, nowhere}
use libco.Mutex.{lock}
use libco.Cond.{timedwait_resume, cancel_timer}
use libco.Cond.Queues.{set_timers-Placed}
use libco.Epoll.{WaitCtx, is_error, wait_io_resume, set_io_waiting}
use libco.Scheduler.{is_waiting}
use libco.System.Timeouts.{timers}
use libco.System.Invariant.{current-running}
use libco.Program.{Call, user, cond_timedwait, io_wait}
use libco.Program.Fits.{Fits, timedwait-calm, io-calm}
use libco.Program.Moves.{fewer-Fits}
use libco.Program.Invariant.{Core, Sound, Somewhere, changed-Core, alike-Core, IsFree}
use libco.Program.Blocks.{Kept, here, no_line, lock-Kept, keeps-relock}
use libco.Program.Timers.{untimed-Core}

module _ (is_cond : ℕ → Bool) (calls : ℕ → Call) (place : ℕ → Place) (p : ℕ) where
  free_now :
      (w : World) → current w ≡ some p → Sound is_cond w calls place → IsFree (some p) w place
  free_now w c h = subst (λ (r : Option ℕ). IsFree r w place) (current-running w p c) h.free

  -- A coroutine with no timer is in no call of libco any more.
  pub freed-Sound :
      (w : World)
      → current w ≡ some p
      → Sound is_cond w calls place
      → timers w p ≡ 0
      → Sound is_cond w (store calls p user) place
  freed-Sound w c h z = record {
    core =
        untimed-Core is_cond w calls place p c h z w (store calls p user) (λ x o. ground arith)
          (record {
            others = λ x o. refl;
            ready_queue = refl;
            queues = refl;
            no_record = no_line is_cond w calls place p c h z;
          })
          refl (inl (free_now w c h).1);
    free = h.free;
    runs_now = h.runs_now;
  }

  -- The timer of a coroutine that has at most one is gone.
  cancelled-Core :
      (w : World) (r : Bool × TimerHeap)
      → is_waiting (w.routines p).state ≡ false
      → Core is_cond w calls place
      → RemoveResult (wakeups w) w.sched.timer_heap p r
      → Core is_cond (set_timers w r.1) calls place × (timers (set_timers w r.1) p ≡ 0)
  cancelled-Core w (true, g) idle h t =
      let left : timers (set_timers w g) p ≡ 0 = ground (arith, t.taken p, (h.fits p).once) in
      (
        changed-Core is_cond w (set_timers w g) calls calls place place p h
            (λ x o. (refl, ground (arith, t.taken x), refl, refl))
            (set_timers-Placed w place g h.placed) t.valid
            (fewer-Fits is_cond (calls p) (place p) (w.routines p) (timers w p) (h.fits p) _
              (omega (arith, left)) idle),
        left,
      )
  cancelled-Core w (false, g) idle h (same, z) = rw same (h, z)

  cancelled-Sound :
      (w : World) (r : Bool × TimerHeap)
      → current w ≡ some p
      → Sound is_cond w calls place
      → RemoveResult (wakeups w) w.sched.timer_heap p r
      → Sound is_cond (set_timers w r.1) (store calls p user) place
        × (timers (set_timers w r.1) p ≡ 0)
        × (current (set_timers w r.1) ≡ some p)
  unfolding current
  cancelled-Sound w r c h t =
      let (core, z) = cancelled-Core w r (free_now w c h).1 h.core t in
      (
        freed-Sound (set_timers w r.1) c
            (record {
              core = core;
              free = IsFree-set w.sched.current h.free;
              runs_now = h.runs_now;
            })
            z,
        z,
        c,
      )
    where
      IsFree-set : (o : Option ℕ) → IsFree o w place → IsFree o (set_timers w r.1) place
      IsFree-set none f = tt
      IsFree-set (some q) f = f

  module _ (w : World) (c : current w ≡ some p) (h : Sound is_cond w calls place) where
    -- The coroutine as it runs.
    now-Fits :
        (call : Call) → calls p ≡ call → Fits is_cond call nowhere (w.routines p) (timers w p)
    now-Fits call e = rw (e, (free_now w c h).0) at (h.core.fits p)

    pub timedwait_resume-Kept :
        (m : ℕ)
        → calls p ≡ cond_timedwait m
        → Kept is_cond (store calls p user) p user (timedwait_resume w p m)
    unfolding timedwait_resume cancel_timer
    timedwait_resume-Kept m e = elim (Bool-cases (w.routines p).timed_out) [
      | inl late ↦
          let z : timers w p ≡ 0 =
            timedwait-calm is_cond (w.routines p) (timers w p) m (now-Fits _ e) late in
          rw late (
            keeps-relock is_cond (store calls p user) p _ (lock w m)
              (lock-Kept is_cond w (store calls p user) place p c (freed-Sound w c h z) z m))
      | inr in_time ↦
          let (s, z, c') =
            cancelled-Sound w _ c h
              (remove-RemoveResult (wakeups w) w.sched.timer_heap p h.core.valid) in
          rw in_time (
            keeps-relock is_cond (store calls p user) p _ (lock (cancel_timer w p) m)
              (lock-Kept is_cond (cancel_timer w p) (store calls p user) place p c' s z m))
    ]

    abbrev quiet : World
    quiet = set_io_waiting w p false

    quiet-Sound : Sound is_cond quiet calls place
    quiet-Sound = record {
      core =
          alike-Core is_cond w _ calls place refl refl refl (λ x. ground arith) (λ x. ground arith)
            (λ x. ground arith) (λ x. ground arith) h.core;
      free = IsFree-quiet w.sched.current h.free;
      runs_now = h.runs_now;
    }
      where
        IsFree-quiet : (o : Option ℕ) → IsFree o w place → IsFree o quiet place
        IsFree-quiet none f = tt
        IsFree-quiet (some q) (f, s) = (f, ground (arith, s))

    -- A wait that had a limit must not meet an error event: the code returns, and leaves its timer.
    pub wait_io_resume-Somewhere :
        (ctx : WaitCtx)
        → calls p ≡ io_wait ctx.timeout_ms
        → (is_error ctx.revents ≡ false) ⊎ (ctx.timeout_ms ≡ none)
        → Somewhere is_cond (some p) (wait_io_resume w p ctx).1 (store calls p user)
    unfolding wait_io_resume current
    wait_io_resume-Somewhere ctx e ok_or_untimed = elim (Bool-cases (w.routines p).timed_out) [
      | inl late ↦
          rw late (same (io-calm is_cond (w.routines p) (timers w p) _ (now-Fits _ e) (inl late)))
      | inr in_time ↦ rw in_time (elim (Bool-cases (is_error ctx.revents)) [
        | inl bad ↦ rw bad (elim ok_or_untimed [
          | inl good ↦ absurd (cc (bad, good))
          | inr n ↦ same (io-calm is_cond (w.routines p) (timers w p) _ (now-Fits _ e) (inr n))
        ])
        | inr good ↦ rw good (elim (Option-cases ctx.timeout_ms) [
          | inl n ↦
              rw n (same (io-calm is_cond (w.routines p) (timers w p) _ (now-Fits _ e) (inr n)))
          | inr (ms, f) ↦ rw f (
              let (s, z, c') = cancelled-Sound quiet _ c quiet-Sound (
                remove-RemoveResult (wakeups quiet) quiet.sched.timer_heap p
                  quiet-Sound.core.valid) in
              here is_cond _ (store calls p user) place p c' s z)
        ])
      ])
    ]
      where
        same : timers w p ≡ 0 → Somewhere is_cond (some p) w (store calls p user)
        same z = here is_cond w (store calls p user) place p c (freed-Sound w c h z) z
