-- ===== src/Program/Wakeups.antt =====
-- What wakes a coroutine from outside: the time, in the loop over the timers, and an event of I/O.
use libco.Base.{
  ℕ, zero, suc, ◌+◌, ◌-◌, ◌≡◌, refl, Bool, true, false, Option, ◌∙◌, arith, ◌==◌, store, inl, inr,
  Bool-cases, Option-cases, eq_self, ltb,
}
use libco.Timer.{TimerHeap, peek, pop}
use libco.Timer.Pop.{Taken, pop-Taken}
use libco.Runtime.{World, wakeups, set_timers}
use libco.Runtime.Placed.{Place, nowhere, on_ready}
use libco.Cond.Queues.{set_timers-Placed}
use libco.Epoll.{wake_waiter}
use libco.Scheduler.{is_waiting, fire, time_out, wake_loop, wake_timers}
use libco.Scheduler.Ready.{enqueue}
use libco.Scheduler.Timers.{fire-routines, fire-timers, fire-IsValid}
use libco.System.Timeouts.{timers, fire-Placed, asleep-Placed}
use libco.Program.{Call, io_wait}
use libco.Program.Fits.{Fits}
use libco.Program.Moves.{fewer-Fits, fired-Fits, event-Fits}
use libco.Program.Invariant.{Core, changed-Core, IsValid-eq}

module _ (is_cond : ℕ → Bool) (calls : ℕ → Call) where
  dropped-Core :
      (w : World) (place : ℕ → Place) (p : ℕ) (g : TimerHeap)
      → Core is_cond w calls place
      → Taken (wakeups w) w.sched.timer_heap p g
      → is_waiting (w.routines p).state ≡ false
      → Core is_cond (set_timers w g) calls place
  dropped-Core w place p g h t idle =
      changed-Core is_cond w (set_timers w g) calls calls place place p h
        (λ x o. (refl, ground (arith, t.taken x), refl, refl))
        (set_timers-Placed w place g h.placed) t.valid
        (fewer-Fits is_cond (calls p) (place p) (w.routines p) (timers w p) (h.fits p) _
          (omega (arith, t.taken p)) idle)

  fired-now :
      (w : World) (place : ℕ → Place) (p : ℕ) (g : TimerHeap)
      → Core is_cond w calls place
      → Taken (wakeups w) w.sched.timer_heap p g
      → is_waiting (w.routines p).state ≡ true
      → let v = fire (set_timers w g) p in
        Fits is_cond (calls p) on_ready (v.routines p) (timers v p)
  fired-now w place p g h t waits =
      rw (fire-routines (set_timers w g) p p, fire-timers (set_timers w g) p, eq_self p, waits)
        (fired-Fits is_cond (calls p) (place p) (w.routines p) (timers w p) (h.fits p) _
          (ground (arith, t.taken p)))

  -- The coroutine whose timer ran out is made ready, wherever it waits.
  fire-Core :
      (w : World) (place : ℕ → Place) (p : ℕ) (g : TimerHeap)
      → Core is_cond w calls place
      → Taken (wakeups w) w.sched.timer_heap p g
      → (later : ℕ → Place) × Core is_cond (fire (set_timers w g) p) calls later
  unfolding fire
  fire-Core w place p g h t = elim (Bool-cases (is_waiting (w.routines p).state)) [
    | inr idle ↦ (place, rw idle (dropped-Core w place p g h t idle))
    | inl waits ↦
        let v = fire (set_timers w g) p in
        let one : timers w p ≡ timers v p + 1 =
          rw (fire-timers (set_timers w g) p) (ground (arith, t.taken p)) in
        (
          store place p on_ready,
          changed-Core is_cond w v calls calls place (store place p on_ready) p h
              (λ x o. (
                fire-routines (set_timers w g) p x ∙ ground arith,
                rw (fire-timers (set_timers w g) p) (ground (arith, t.taken x)),
                refl,
                ground arith,
              ))
              (fire-Placed (set_timers w g) place p (set_timers-Placed w place g h.placed) waits
                ((h.fits p).timed waits (omega (arith, one))))
              (fire-IsValid (set_timers w g) p t.valid)
              (rw (eq_self p) (fired-now w place p g h t waits)),
        )
  ]

  wake_loop-Core :
      (k : ℕ) (w : World) (now : ℕ) (place : ℕ → Place)
      → Core is_cond w calls place
      → (later : ℕ → Place) × Core is_cond (wake_loop k w now) calls later
  unfolding wake_loop peek
  wake_loop-Core zero w now place h = (place, h)
  wake_loop-Core (suc k) w now place h = elim (Bool-cases (w.sched.timer_heap.count == 0)) [
    | inl e ↦ (place, rw (e, wake_loop) h)
    | inr e ↦
        rw (e, wake_loop)
          (elim (Bool-cases (ltb now (wakeups w (w.sched.timer_heap.heap 0)))) [
            | inl not_yet ↦ (place, rw not_yet h)
            | inr due ↦
                let (took, t, least) =
                  pop-Taken (wakeups w) w.sched.timer_heap {n = w.sched.timer_heap.count - 1}
                    h.valid (ground (arith, e)) in
                let (next, k1) = fire-Core w place (w.sched.timer_heap.heap 0) _ h t in
                rw due (wake_loop-Core k _ now next k1)
          ])
  ]

  pub wake_timers-Core :
      (w : World) (now : ℕ) (place : ℕ → Place)
      → Core is_cond w calls place
      → (later : ℕ → Place) × Core is_cond (wake_timers w now) calls later
  unfolding wake_timers
  wake_timers-Core w now place h = wake_loop-Core w.sched.timer_heap.count w now place h

  -- An event of a wait that still goes on; that of one that has timed out wakes nobody.
  pub wake_waiter-Core :
      (w : World) (place : ℕ → Place) (p : ℕ) (timeout_ms : Option ℕ)
      → calls p ≡ io_wait timeout_ms
      → Core is_cond w calls place
      → (later : ℕ → Place) × Core is_cond (wake_waiter w p) calls later
  unfolding wake_waiter
  wake_waiter-Core w place p ms e h = elim (Bool-cases (is_waiting (w.routines p).state)) [
    | inr idle ↦ (place, rw idle h)
    | inl waits ↦
        let off : place p ≡ nowhere = (h.fits p).apart (rw e refl) waits in
        let v = wake_waiter w p in
        (
          store place p on_ready,
          changed-Core is_cond w v calls calls place (store place p on_ready) p h
              (λ x o. (ground arith, ground arith, refl, ground arith))
              (asleep-Placed w v place p h.placed (rw waits refl) (λ x. ground (arith, waits)) off
                (rw waits refl))
              (IsValid-eq is_cond w v (rw waits refl) (λ x. ground (arith, waits)) h.valid)
              (rw (eq_self p, waits, e)
                (event-Fits is_cond ms (w.routines p) _ (timers w p) (rw (off, e) at (h.fits p))
                  (ground arith) (ground arith) (ground arith))),
        )
  ]

-- Neither changes who runs, nor whether the scheduler does.
abbrev pub Outside : World → World → Type 0
Outside w v = (v.sched.current ≡ w.sched.current) × (v.active ≡ w.active)

fire-Outside : (w : World) (p : ℕ) → Outside w (fire w p)
unfolding fire time_out enqueue
fire-Outside w p = elim (Bool-cases (is_waiting (w.routines p).state)) [
  | inl waits ↦ rw waits (elim (Option-cases (w.routines p).cond_wait_queue) [
    | inl e ↦ rw e (ground (arith, e), ground (arith, e))
    | inr (q, e) ↦ rw e (refl, refl)
  ])
  | inr idle ↦ rw idle (refl, refl)
]

wake_loop-Outside : (k : ℕ) (w : World) (now : ℕ) → Outside w (wake_loop k w now)
unfolding wake_loop peek
wake_loop-Outside zero w now = (refl, refl)
wake_loop-Outside (suc k) w now = elim (Bool-cases (w.sched.timer_heap.count == 0)) [
  | inl e ↦ rw (e, wake_loop) (refl, refl)
  | inr e ↦
      rw (e, wake_loop)
        (elim (Bool-cases (ltb now (wakeups w (w.sched.timer_heap.heap 0)))) [
          | inl not_yet ↦ rw not_yet (refl, refl)
          | inr due ↦
              let w1 = set_timers w (pop (wakeups w) w.sched.timer_heap).1 in
              let (c, a) = fire-Outside w1 (w.sched.timer_heap.heap 0) in
              let (d, b) = wake_loop-Outside k (fire w1 (w.sched.timer_heap.heap 0)) now in
              rw due (d ∙ c, b ∙ a)
        ])
]

pub wake_timers-Outside : (w : World) (now : ℕ) → Outside w (wake_timers w now)
unfolding wake_timers
wake_timers-Outside w now = wake_loop-Outside w.sched.timer_heap.count w now

pub wake_waiter-Outside : (w : World) (p : ℕ) → Outside w (wake_waiter w p)
unfolding wake_waiter
wake_waiter-Outside w p = (ground arith, ground arith)
