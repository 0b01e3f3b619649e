-- ===== src/Program/Timers.antt =====
-- The calls that give the running coroutine a timer: `co_sleep` and `co_wait_io`.
use libco.Base.{
  ℕ, ◌+◌, ◌*◌, ◌%◌, ◌<◌, ◌≡◌, ◌⊎◌, refl, Bool, true, false, Option, none, some, arith, ◌==◌, store,
  inl, inr, Bool-cases, eq_self, word, ap, subst, ◌∙◌,
}
use mathlib.Core.Path.{fun_ext}
use libco.Timer.{TimerHeap}
use libco.Timer.Push.{IsValid, Pushed, PushResult, push-PushResult}
use libco.Runtime.{World, Routine, current, wakeups, set_timers}
use libco.Runtime.Placed.{Place, nowhere}
use libco.Coroutine.{sleep, sleep_as, fall_asleep, drowse}
use libco.Coroutine.Sleep.{IsValid-store}
use libco.Scheduler.{is_waiting}
use libco.System.Timeouts.{timers}
use libco.System.Invariant.{current-running}
use libco.Program.{Call, user}
use libco.Program.Fits.{MayWait, is_io, calm, off_line}
use libco.Program.Invariant.{Core, Sound, Somewhere, IsFree, changed-Core, nowhere-Placed}
use libco.Program.Blocks.{Kept, off_queues, yield-Kept, no_line}

module _ (is_cond : ℕ → Bool) (w : World) (calls : ℕ → Call) (place : ℕ → Place) (p : ℕ)
    (c : current w ≡ some p) (h : Sound is_cond w calls place) (z : timers w p ≡ 0) where
  off : place p ≡ nowhere
  off = off_queues is_cond w calls place p c h z

  -- What the coroutine does to itself.
  pub record Alone (v : World) : Type 0 where
    pub others : (x : ℕ) → (p == x) ≡ false → v.routines x ≡ w.routines x
    pub ready_queue : v.sched.ready_queue ≡ w.sched.ready_queue
    pub queues : v.queues ≡ w.queues
    pub no_record : (v.routines p).cond_wait_queue ≡ none

  -- Its own time may change while it has no timer.
  pub still-IsValid : (v : World) → Alone v → IsValid (wakeups v) w.sched.timer_heap
  still-IsValid v a =
      let same : wakeups v ≡ store (wakeups w) p (wakeups v p) = fun_ext (λ x.
        elim (Bool-cases (p == x)) [
          | inl e ↦ let it : p ≡ x = ground arith in rw (e, it) refl
          | inr e ↦ rw e (ap (λ (r : Routine). r.wakeup_time) (a.others x e))
        ]) in
      rw same (IsValid-store (wakeups w) w.sched.timer_heap p (wakeups v p) h.core.valid z)

  -- With no timer.
  pub untimed-Core :
      (v : World) (calls' : ℕ → Call)
      → ((x : ℕ) → (p == x) ≡ false → calls' x ≡ calls x)
      → Alone v
      → v.sched.timer_heap ≡ w.sched.timer_heap
      → (is_waiting (v.routines p).state ≡ false) ⊎ (is_io (calls' p) ≡ true)
      → Core is_cond v calls' place
  untimed-Core v calls' k a t idle =
      changed-Core is_cond w v calls calls' place place p h.core
        (λ x o. (a.others x o, rw t refl, k x o, refl))
        (nowhere-Placed w v place p off a.ready_queue a.queues (λ x o. rw (a.others x o) refl)
          h.core.placed)
        (rw t (still-IsValid v a))
        (rw t (
          calm is_cond (calls' p) (place p) (v.routines p) (timers w p) z a.no_record (λ i s. off)
            (λ s e. elim idle [ inl n ↦ absurd (cc (s, n)) | inr i ↦ i ])))

  -- With one.
  pub timed-Core :
      (v : World) (call : Call)
      → Alone v
      → Pushed (wakeups v) w.sched.timer_heap p v.sched.timer_heap
      → MayWait call nowhere (v.routines p)
      → Core is_cond v (store calls p call) place
  timed-Core v call a k m =
      changed-Core is_cond w v calls (store calls p call) place place p h.core
        (λ x o. (a.others x o, ground (arith, k.added x), ground arith, refl))
        (nowhere-Placed w v place p off a.ready_queue a.queues (λ x o. rw (a.others x o) refl)
          h.core.placed)
        k.valid
        (rw (eq_self p) (
          off_line is_cond call (place p) (v.routines p) (timers v p) (ground (arith, k.added p, z))
            a.no_record off m))

  pub untimed-Somewhere :
      (v : World)
      → Alone v
      → v.sched.timer_heap ≡ w.sched.timer_heap
      → v.sched.current ≡ w.sched.current
      → is_waiting (v.routines p).state ≡ false
      → Somewhere is_cond (some p) v calls
  untimed-Somewhere v a t r s = (
    place,
    record {
      core = untimed-Core v calls (λ x o. refl) a t (inl s);
      free = (off, s);
      runs_now = inr (r ∙ current-running w p c);
    },
  )

  pub timed-Somewhere :
      (v : World) (call : Call)
      → Alone v
      → Pushed (wakeups v) w.sched.timer_heap p v.sched.timer_heap
      → MayWait call nowhere (v.routines p)
      → Somewhere is_cond none v (store calls p call)
  timed-Somewhere v call a k m =
      (place, record { core = timed-Core v call a k m; free = tt; runs_now = inl refl })

  pub not_waiting : is_waiting (w.routines p).state ≡ false
  not_waiting = (subst (λ (r : Option ℕ). IsFree r w place) (current-running w p c) h.free).1

  pub unlisted_now : (w.routines p).cond_wait_queue ≡ none
  unlisted_now = no_line is_cond w calls place p c h z

  drowse-Alone : (deadline : ℕ) (g : TimerHeap) → Alone (set_timers (drowse w p deadline) g)
  unfolding drowse
  drowse-Alone deadline g = record {
    others = λ x o. ground arith;
    ready_queue = refl;
    queues = refl;
    no_record = rw (eq_self p) unlisted_now;
  }

  fall_asleep-Kept :
      (realloc : ℕ → Bool) (deadline : ℕ) (r : Bool × TimerHeap)
      → PushResult (wakeups (drowse w p deadline)) realloc w.sched.timer_heap p r
      → Kept is_cond calls p user (fall_asleep r (drowse w p deadline) p)
  unfolding fall_asleep drowse
  fall_asleep-Kept realloc deadline (true, g) k =
      timed-Somewhere (set_timers (drowse w p deadline) g) user (drowse-Alone deadline g) k
        (ground arith, refl)
  fall_asleep-Kept realloc deadline (false, g) k =
      untimed-Somewhere _
        (record {
          others = λ x o. ground arith;
          ready_queue = refl;
          queues = refl;
          no_record = rw (eq_self p) unlisted_now;
        })
        refl refl (ground arith)

  pub sleep-Kept :
      (realloc : ℕ → Bool) (now msec : ℕ)
      → w.sched.timer_heap.capacity * 16 < word
      → Kept is_cond calls p user (sleep realloc now w msec)
  unfolding sleep sleep_as
  sleep-Kept realloc now msec fits = elim (Bool-cases (msec == 0)) [
    | inl at_once ↦ rw at_once (yield-Kept is_cond w calls place p c h z)
    | inr later ↦
        let deadline = (now + msec) % word in
        rw (later, c)
          (fall_asleep-Kept realloc deadline _ (
            push-PushResult (wakeups (drowse w p deadline)) realloc w.sched.timer_heap p
              (still-IsValid (set_timers (drowse w p deadline) w.sched.timer_heap)
                (drowse-Alone deadline w.sched.timer_heap))
              fits))
  ]
