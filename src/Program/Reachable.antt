-- ===== src/Program/Reachable.antt =====
-- The invariant holds in every program that is reached.
use libco.Base.{
  ℕ, ◌≡◌, refl, Bool, true, false, Option, none, some, arith, if◌then◌else◌, has, store, inl, inr,
  subst, ap, ◌∙◌, sym,
}
use mathlib.Core.Path.{fun_ext}
use libco.Base.Tally.{tally}
use libco.Runtime.{World, Outcome, returns, suspends, current}
use libco.Runtime.Placed.{Place, nowhere, on_ready}
use libco.Scheduler.{leave}
use libco.System.Timeouts.{timers}
use libco.System.Invariant.{current-running, start-Sound as start-placed}
use libco.Program.{
  Program, Spawned, Call, user, cond_wait, Op, perform, called, call_after, switched, IsLegal, Step,
  enters, does, time_passes, event, Reach, start, step,
}
use libco.Program.{
  locks, trylocks, unlocks, signals, broadcasts, waits, waits_on, timed_waits, timed_waits_on,
  sends, trysends, receives, tryreceives, closes, yields, sleeps, waits_io, waits_io_on, finishes,
}
use libco.Program.Fits.{calm, user-calm, cond_wait-calm}
use libco.Program.Invariant.{Core, Sound, SoundFor, Somewhere, IsFree}
use libco.Program.Wakes.{unlock-Somewhere, signal-Somewhere, broadcast-Somewhere, trylock-Somewhere}
use libco.Program.Channels.{close-Somewhere, trysend-Somewhere, tryrecv-Somewhere}
use libco.Program.Switches.{leave-Sound, enter-Sound}
use libco.Program.Blocks.{
  Kept, here, lock-Kept, relock-Kept, wait-Kept, send-Kept, recv-Kept, yield-Kept, finish-Kept,
}
use libco.Program.Timers.{sleep-Kept}
use libco.Program.IoWaits.{wait_io-Kept}
use libco.Program.TimedWaits.{timedwait-Kept}
use libco.Program.Resumes.{freed-Sound, timedwait_resume-Kept, wait_io_resume-Somewhere}
use libco.Program.Wakeups.{
  wake_timers-Core, wake_timers-Outside, wake_waiter-Core, wake_waiter-Outside,
}

module _ (is_cond : ℕ → Bool) where
  -- The running coroutine, in no call and with no timer.
  module _ (w : World) (calls : ℕ → Call) (place : ℕ → Place) (p : ℕ) (c : current w ≡ some p)
      (h : Sound is_cond w calls place) where
    free_now : IsFree (some p) w place
    free_now = subst (λ (r : Option ℕ). IsFree r w place) (current-running w p c) h.free

    user-idle : calls p ≡ user → timers w p ≡ 0
    user-idle e =
        user-calm is_cond (w.routines p) (timers w p) (rw (e, free_now.0) at (h.core.fits p))
          free_now.1

    wait-idle : (m : ℕ) → calls p ≡ cond_wait m → timers w p ≡ 0
    wait-idle m e =
        cond_wait-calm is_cond (w.routines p) (timers w p) m (rw (e, free_now.0) at (h.core.fits p))

    abbrev mine : ℕ → Call
    mine = store calls p user

    idle-Sound : timers w p ≡ 0 → Sound is_cond w mine place
    idle-Sound z = freed-Sound is_cond calls place p w c h z

    idle-here : timers w p ≡ 0 → Somewhere is_cond (some p) w mine
    idle-here z = here is_cond w mine place p c (idle-Sound z) z

    perform-Kept :
        (op : Op)
        → IsLegal is_cond w (calls p) op
        → Kept is_cond mine p (called op) (perform w p op)
    unfolding perform
    perform-Kept (locks m) (u, n) =
        let z = user-idle u in lock-Kept is_cond w mine place p c (idle-Sound z) z m
    perform-Kept (trylocks m) (u, n) =
        trylock-Somewhere is_cond mine (some p) w m (idle-here (user-idle u))
    perform-Kept (unlocks m) (u, n) =
        unlock-Somewhere is_cond mine (some p) w m n (idle-here (user-idle u))
    perform-Kept (signals cond) (u, n) =
        signal-Somewhere is_cond mine (some p) w cond (idle-here (user-idle u))
    perform-Kept (broadcasts cond) (u, n) =
        broadcast-Somewhere is_cond mine (some p) w cond (idle-here (user-idle u))
    perform-Kept (waits cond m) (u, k, n) =
        let z = user-idle u in wait-Kept is_cond w mine place p c (idle-Sound z) z cond m n
    perform-Kept (waits_on m) (u, n) =
        let z = wait-idle m u in relock-Kept is_cond w mine place p c (idle-Sound z) z m
    perform-Kept (timed_waits realloc now cond m ms) (u, k, n, fits) =
        let z = user-idle u in
        timedwait-Kept is_cond w mine place p c (idle-Sound z) z cond m _ k n realloc now ms refl
          fits
    perform-Kept (timed_waits_on m) (u, n) = timedwait_resume-Kept is_cond calls place p w c h m u
    perform-Kept (sends ch ptr) (u, (s, r)) =
        let z = user-idle u in send-Kept is_cond w mine place p c (idle-Sound z) z ch ptr r
    perform-Kept (trysends ch ptr) (u, (s, r)) =
        trysend-Somewhere is_cond mine (some p) w ch ptr r (idle-here (user-idle u))
    perform-Kept (receives ch ptr) (u, (s, r)) =
        let z = user-idle u in recv-Kept is_cond w mine place p c (idle-Sound z) z ch ptr s
    perform-Kept (tryreceives ch ptr) (u, (s, r)) =
        tryrecv-Somewhere is_cond mine (some p) w ch ptr s (idle-here (user-idle u))
    perform-Kept (closes ch) (u, (s, r)) =
        close-Somewhere is_cond mine (some p) w ch s r (idle-here (user-idle u))
    perform-Kept yields u =
        let z = user-idle u in yield-Kept is_cond w mine place p c (idle-Sound z) z
    perform-Kept (sleeps realloc now msec) (u, fits) =
        let z = user-idle u in
        sleep-Kept is_cond w mine place p c (idle-Sound z) z realloc now msec fits
    perform-Kept (waits_io realloc now registered ms) (u, fits, e) =
        let z = user-idle u in
        wait_io-Kept is_cond w mine place p c (idle-Sound z) z realloc now registered ms fits e
    perform-Kept (waits_io_on ctx) (u, e) =
        wait_io_resume-Somewhere is_cond calls place p w c h ctx u e
    perform-Kept (finishes result) u =
        let z = user-idle u in finish-Kept is_cond w mine place p c (idle-Sound z) z result

  -- Some assignment of the coroutines to queues fits the program.
  abbrev pub IsOrderly : Program → Type 0
  IsOrderly s = (place : ℕ → Place) × Sound is_cond s.world s.calls place

  switched-IsOrderly :
      (calls : ℕ → Call) (p : ℕ) (op : Op) (o : Outcome)
      → Kept is_cond (store calls p user) p (called op) o
      → IsOrderly (record { world = switched o p; calls = store calls p (call_after op o) })
  unfolding switched
  switched-IsOrderly calls p op (returns e v) (place, h) = (
    place,
    subst (λ (r : Option ℕ). SoundFor is_cond r v (store calls p user) place)
        (elim h.runs_now [ inl no_way ↦ absurd (cc no_way) | inr now ↦ sym now ]) h,
  )
  switched-IsOrderly calls p op (suspends v) (place, h) = (
    place,
    subst (λ (k : ℕ → Call). Sound is_cond (leave v p) k place) (fun_ext (λ x. ground arith))
        (leave-Sound is_cond v _ place p h.core),
  )

  outside :
      (w : World) (calls : ℕ → Call) (place : ℕ → Place)
      → w.sched.current ≡ none
      → Core is_cond w calls place
      → Sound is_cond w calls place
  outside w calls place c h =
      subst (λ (r : Option ℕ). SoundFor is_cond r w calls place) (sym c)
        (record { core = h; free = tt; runs_now = inl refl })

  step-IsOrderly :
      (s t : Program) (place : ℕ → Place)
      → Sound is_cond s.world s.calls place
      → Step is_cond s t
      → IsOrderly t
  step-IsOrderly s t place h (enters p rest c e) =
      (store place p nowhere, enter-Sound is_cond s.world s.calls place p rest e h.core)
  step-IsOrderly s t place h (does p op c legal) =
      switched-IsOrderly s.calls p op (perform s.world p op)
        (perform-Kept s.world s.calls place p c h op legal)
  step-IsOrderly s t place h (time_passes now c) =
      let (later, k) = wake_timers-Core is_cond s.calls s.world now place h.core in
      (later, outside _ s.calls later ((wake_timers-Outside s.world now).0 ∙ c) k)
  step-IsOrderly s t place h (event p ms c e) =
      let (later, k) = wake_waiter-Core is_cond s.calls s.world place p ms e h.core in
      (later, outside _ s.calls later ((wake_waiter-Outside s.world p).0 ∙ c) k)

  start-IsOrderly : (w : World) → Spawned w → IsOrderly (record { world = w; calls = λ _. user })
  start-IsOrderly w s = (
    place,
    outside w (λ _. user) place s.none_runs
        (record {
          placed = (start-placed w s.distinct s.all_ready s.no_lines s.none_runs).placed;
          fits = λ p.
              calm is_cond user (place p) (w.routines p) (timers w p)
                (ap (λ (i : ℕ). tally p i w.sched.timer_heap.heap) s.no_timers) (s.no_record p)
                (λ o h. let no_way : false ≡ true = o in absurd (cc no_way))
                (λ h e. let no_way = rw (s.none_waits p) at h in absurd (cc no_way));
          valid = s.valid;
        }),
  )
    where
      place : ℕ → Place
      place p = if has p w.sched.ready_queue then on_ready else nowhere

  -- What is reached is orderly.
  pub Reach-IsOrderly : (s : Program) → Reach is_cond s → IsOrderly s
  Reach-IsOrderly s (start w) = start-IsOrderly _ w
  Reach-IsOrderly s (step {u} r m) =
      let (place, h) = Reach-IsOrderly u r in step-IsOrderly u s place h m
