-- ===== src/Program/TimedWaits.antt =====
-- `co_cond_timedwait`, before its switch and after.
use libco.Base.{
  ℕ, ◌+◌, ◌*◌, ◌%◌, ◌<◌, ◌≡◌, refl, Bool, true, false, none, some, arith, ◌==◌, ◌||◌, store, inl,
  inr, Bool-cases, eq_self, word, subst,
}
use mathlib.Core.Path.{fun_ext}
use libco.Timer.{TimerHeap}
use libco.Timer.Push.{IsValid, Pushed, PushResult, push-PushResult}
use libco.Runtime.{World, current, wakeups, set_timers, block}
use libco.Runtime.Placed.{Place, nowhere, on_queue, Placed}
use libco.Cond.{timedwait, timedwait_as, suspend_timed, enrol, enrol_until, withdraw}
use libco.Cond.Queues.{enrol_until-Placed, withdraw-Placed, set_timers-Placed}
use libco.Coroutine.Sleep.{IsValid-store}
use libco.System.Timeouts.{timers}
use libco.System.Invariant.{current-running}
use libco.Program.{Call, cond_timedwait}
use libco.Program.Fits.{calm, listed-Fits}
use libco.Program.Invariant.{Core, Sound, changed-Core}
use libco.Program.Wakes.{unlock-Somewhere}
use libco.Program.Blocks.{Kept, here, off_queues}

module _ (is_cond : ℕ → Bool) (w : World) (calls : ℕ → Call) (place : ℕ → Place) (p : ℕ)
    (c : current w ≡ some p) (h : Sound is_cond w calls place) (z : timers w p ≡ 0)
    (cond m deadline : ℕ) (cond_yes : is_cond cond ≡ true) (m_no : is_cond m ≡ false) where
  abbrev waiter : World
  waiter = enrol_until w p cond deadline

  waiter-IsValid : IsValid (wakeups waiter) w.sched.timer_heap
  unfolding enrol_until enrol block
  waiter-IsValid =
      let same : wakeups waiter ≡ store (wakeups w) p deadline = fun_ext (λ x. ground arith) in
      rw same (IsValid-store (wakeups w) w.sched.timer_heap p deadline h.core.valid z)

  withdrawn-IsValid : IsValid (wakeups (withdraw waiter p cond)) w.sched.timer_heap
  unfolding withdraw
  withdrawn-IsValid =
      let same : wakeups (withdraw waiter p cond) ≡ wakeups waiter = fun_ext (λ x. ground arith) in
      rw same waiter-IsValid

  off : place p ≡ nowhere
  off = off_queues is_cond w calls place p c h z

  back : store (store place p (on_queue cond)) p nowhere ≡ place
  back = fun_ext (λ x. ground (arith, off))

  waiter-Core :
      (g : TimerHeap)
      → Pushed (wakeups waiter) w.sched.timer_heap p g
      → Core is_cond
          (set_timers waiter g)
          (store calls p (cond_timedwait m))
          (store place p (on_queue cond))
  unfolding enrol_until enrol block
  waiter-Core g k =
      changed-Core is_cond w (set_timers waiter g) calls (store calls p (cond_timedwait m)) place
        (store place p (on_queue cond)) p h.core
        (λ x o. (ground arith, ground (arith, k.added x), ground arith, ground arith))
        (set_timers-Placed waiter (store place p (on_queue cond)) g
          (enrol_until-Placed w place cond p deadline off h.core.placed))
        k.valid
        (rw (eq_self p) (
          listed-Fits is_cond m cond _ (timers (set_timers waiter g) p)
            (ground (arith, k.added p, z)) refl cond_yes refl))

  suspend_timed-Kept :
      (realloc : ℕ → Bool) (r : Bool × TimerHeap)
      → PushResult (wakeups waiter) realloc w.sched.timer_heap p r
      → Kept is_cond calls p (cond_timedwait m) (suspend_timed r waiter p cond m)
  unfolding suspend_timed withdraw enrol_until enrol block
  suspend_timed-Kept realloc (true, g) k =
      unlock-Somewhere is_cond (store calls p (cond_timedwait m)) none (set_timers waiter g) m m_no
        (_, record { core = waiter-Core g k; free = tt; runs_now = inl refl })
  suspend_timed-Kept realloc (false, g) k = (
    place,
    record {
      core =
          changed-Core is_cond w (withdraw waiter p cond) calls calls place place p h.core
            (λ x o. ground arith)
            (subst (Placed (withdraw waiter p cond)) back (
              withdraw-Placed waiter (store place p (on_queue cond)) p cond (ground arith)
                (enrol_until-Placed w place cond p deadline off h.core.placed)))
            withdrawn-IsValid
            (calm is_cond (calls p) (place p) _ (timers w p) z (ground arith) (λ i s. off)
              (λ s. let no_way = rw (eq_self p) at s in absurd (cc no_way)));
      free = (off, ground arith);
      runs_now = inr (current-running w p c);
    },
  )

  pub timedwait-Kept :
      (realloc : ℕ → Bool) (now timeout_ms : ℕ)
      → deadline ≡ (now + timeout_ms) % word
      → w.sched.timer_heap.capacity * 16 < word
      → Kept is_cond calls p (cond_timedwait m) (timedwait realloc now w cond m timeout_ms)
  unfolding timedwait timedwait_as
  timedwait-Kept realloc now timeout_ms due fits = elim (Bool-cases (cond == 0 || m == 0)) [
    | inl null ↦ rw null (here is_cond w calls place p c h z)
    | inr named ↦ rw named (elim (Bool-cases (timeout_ms == 0)) [
      | inl at_once ↦ rw at_once (here is_cond w calls place p c h z)
      | inr later ↦
          rw (later, c, ← due)
            (suspend_timed-Kept realloc _
              (push-PushResult (wakeups waiter) realloc w.sched.timer_heap p waiter-IsValid fits))
    ])
  ]
