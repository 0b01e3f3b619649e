-- ===== src/Program/Invariant.antt =====
-- The invariant of a program, and how it is kept when one coroutine is woken, blocked, entered or left.
use libco.Base.{
  ℕ, ◌≡◌, ◌⊎◌, refl, Bool, false, Option, none, some, List, ◌∷◌, arith, ◌==◌, store, inl, inr,
  Bool-cases, eq_self, subst,
}
use mathlib.Core.Path.{fun_ext}
use libco.Timer.Push.{IsValid}
use libco.Runtime.{World, wakeups, wake, block, set_queue}
use libco.Runtime.Placed.{
  Place, nowhere, on_ready, on_queue, Placed, wake-Placed, block-Placed, pop-Placed, front-on,
}
use libco.Cond.Queues.{set_routine-Placed}
use libco.Cond.{notify}
use libco.Scheduler.{is_waiting}
use libco.System.Timeouts.{timers}
use libco.System.Invariant.{alike-Placed}
use libco.Program.{Call}
use libco.Program.Fits.{Fits, is_io, calm, unlisted}
use libco.Program.Moves.{same-Fits, woken-Fits, notified-Fits}

-- The running coroutine, if there is one, is on no queue, and does not wait. An operation that had
-- to give up a wait leaves it READY.
abbrev pub IsFree : Option ℕ → World → (ℕ → Place) → Type 0
IsFree none w place = Unit {0}
IsFree (some p) w place = (place p ≡ nowhere) × (is_waiting (w.routines p).state ≡ false)

-- A coroutine on no queue may be in any state.
pub nowhere-Placed :
    (w v : World) (place : ℕ → Place) (p : ℕ)
    → place p ≡ nowhere
    → v.sched.ready_queue ≡ w.sched.ready_queue
    → v.queues ≡ w.queues
    → ((x : ℕ) → (p == x) ≡ false → (v.routines x).state ≡ (w.routines x).state)
    → Placed w place
    → Placed v place
nowhere-Placed w v place p e r q s h = record {
  ready_once = λ x. rw r (h.ready_once x);
  queue_once = λ x c. rw q (h.queue_once x c);
  agrees = λ x. elim (Bool-cases (p == x)) [
    | inl same ↦ let it : p ≡ x = ground arith in rw (← it, e) tt
    | inr other ↦ rw (s x other) (h.agrees x)
  ];
}

-- A waiter's new place.
abbrev pub woken_place : (ℕ → Place) → ℕ → ℕ → Place
woken_place place p = store (store place p nowhere) p on_ready

module _ (is_cond : ℕ → Bool) where
  -- Every coroutine is on at most one queue, once, in the state that goes with it, and has a timer
  -- only where it may; the timer heap is valid.
  pub record Core (w : World) (calls : ℕ → Call) (place : ℕ → Place) : Type 0 where
    pub placed : Placed w place
    pub fits : (p : ℕ) → Fits is_cond (calls p) (place p) (w.routines p) (timers w p)
    pub valid : IsValid (wakeups w) w.sched.timer_heap

  -- And the one that runs, if any does, is on none.
  pub record SoundFor (runs : Option ℕ) (w : World) (calls : ℕ → Call) (place : ℕ → Place)
      : Type 0 where
    pub core : Core w calls place
    pub free : IsFree runs w place
    pub runs_now : (runs ≡ none) ⊎ (w.sched.current ≡ runs)

  abbrev pub Sound : World → (ℕ → Call) → (ℕ → Place) → Type 0
  Sound w = SoundFor w.sched.current w

  -- For some assignment of the coroutines to queues.
  abbrev pub Somewhere : Option ℕ → World → (ℕ → Call) → Type 0
  Somewhere runs w calls = (place : ℕ → Place) × SoundFor runs w calls place

  pub IsValid-eq :
      (w v : World)
      → v.sched.timer_heap ≡ w.sched.timer_heap
      → ((p : ℕ) → wakeups v p ≡ wakeups w p)
      → IsValid (wakeups w) w.sched.timer_heap
      → IsValid (wakeups v) v.sched.timer_heap
  IsValid-eq w v t k h = let same : wakeups v ≡ wakeups w = fun_ext k in rw (same, t) h

  -- What the invariant does not read.
  pub alike-Core :
      (w v : World) (calls : ℕ → Call) (place : ℕ → Place)
      → v.sched.ready_queue ≡ w.sched.ready_queue
      → v.sched.timer_heap ≡ w.sched.timer_heap
      → v.queues ≡ w.queues
      → ((p : ℕ) → (v.routines p).state ≡ (w.routines p).state)
      → ((p : ℕ) → (v.routines p).cond_wait_queue ≡ (w.routines p).cond_wait_queue)
      → ((p : ℕ) → (v.routines p).timed_out ≡ (w.routines p).timed_out)
      → ((p : ℕ) → wakeups v p ≡ wakeups w p)
      → Core w calls place
      → Core v calls place
  alike-Core w v calls place r t q s c o k h = record {
    placed = alike-Placed w v place r q s h.placed;
    fits = λ p. rw t (
        same-Fits is_cond (calls p) (place p) (w.routines p) (timers w p) (h.fits p) (v.routines p)
          (s p) (c p) (o p));
    valid = IsValid-eq w v t k h.valid;
  }

  -- All is as it was but for one coroutine.
  abbrev pub Elsewhere :
      World → World → (ℕ → Call) → (ℕ → Call) → (ℕ → Place) → (ℕ → Place) → ℕ → Type 0
  Elsewhere w v calls calls' place place' p =
      (x : ℕ)
      → (p == x) ≡ false
      → (v.routines x ≡ w.routines x)
        × (timers v x ≡ timers w x)
        × (calls' x ≡ calls x)
        × (place' x ≡ place x)

  pub changed-Core :
      (w v : World) (calls calls' : ℕ → Call) (place place' : ℕ → Place) (p : ℕ)
      → Core w calls place
      → Elsewhere w v calls calls' place place' p
      → Placed v place'
      → IsValid (wakeups v) v.sched.timer_heap
      → Fits is_cond (calls' p) (place' p) (v.routines p) (timers v p)
      → Core v calls' place'
  changed-Core w v calls calls' place place' p h alike placed valid f = record {
    placed = placed;
    fits = λ x. elim (Bool-cases (p == x)) [
      | inl e ↦
          let it : p ≡ x = ground arith in
          subst (λ (y : ℕ). Fits is_cond (calls' y) (place' y) (v.routines y) (timers v y)) it f
      | inr e ↦ let (r, t, c, a) = alike x e in rw (r, t, c, a) (h.fits x)
    ];
    valid = valid;
  }

  module _ (w : World) (calls : ℕ → Call) (place : ℕ → Place) (q p : ℕ) (rest : List ℕ)
      (e : w.queues q ≡ p ∷ rest) (h : Core w calls place) where
    there : place p ≡ on_queue q
    there = front-on w place q p rest h.placed e

    -- The front of a line is woken.
    pub woken-Core :
        is_cond q ≡ false → Core (wake (set_queue w q rest) p) calls (woken_place place p)
    unfolding wake
    woken-Core n =
        changed-Core w (wake (set_queue w q rest) p) calls calls place (woken_place place p) p h
          (λ x o. ground arith)
          (wake-Placed _ (store place p nowhere) p (pop-Placed w place q p rest h.placed e)
            (ground arith))
          (IsValid-eq w (wake (set_queue w q rest) p) refl (λ x. ground arith) h.valid)
          (rw (eq_self p) (
            woken-Fits is_cond (calls p) (place p) (w.routines p) (timers w p) (h.fits p) q there
              n))

    -- Or notified, at a condition variable.
    pub notified-Core : Core (notify (set_queue w q rest) p) calls (woken_place place p)
    unfolding notify wake
    notified-Core =
        changed-Core w (notify (set_queue w q rest) p) calls calls place (woken_place place p) p h
          (λ x o. ground arith)
          (wake-Placed _ (store place p nowhere) p
            (set_routine-Placed _ (store place p nowhere) p _ refl
              (pop-Placed w place q p rest h.placed e))
            (ground arith))
          (IsValid-eq w (notify (set_queue w q rest) p) refl (λ x. ground arith) h.valid)
          (rw (eq_self p) (
            notified-Fits is_cond (calls p) (place p) (w.routines p) (timers w p) (h.fits p) q
              there))

    pub woken-IsFree :
        (c : Option ℕ) (v : World)
        → ((x : ℕ) → (p == x) ≡ false → (v.routines x).state ≡ (w.routines x).state)
        → IsFree c w place
        → IsFree c v (woken_place place p)
    woken-IsFree none v same f = tt
    woken-IsFree (some c) v same (f, s) = elim (Bool-cases (p == c)) [
      | inl o ↦
          let it : p ≡ c = ground arith in
          let no_way : on_queue q ≡ nowhere = cc (there, f, it) in absurd (cc no_way)
      | inr o ↦ (rw o f, rw (same c o) s)
    ]

  -- A coroutine that no longer runs, and has no timer, is blocked in a line.
  pub blocked-Core :
      (w : World) (calls : ℕ → Call) (place : ℕ → Place) (q p : ℕ) (call : Call)
      → Core w calls place
      → place p ≡ nowhere
      → timers w p ≡ 0
      → is_io call ≡ false
      → Core (block w q p) (store calls p call) (store place p (on_queue q))
  unfolding block
  blocked-Core w calls place q p call h e z i =
      changed-Core w (block w q p) calls (store calls p call) place (store place p (on_queue q)) p h
        (λ x o. ground arith) (block-Placed w place q p h.placed e)
        (IsValid-eq w (block w q p) refl (λ x. ground arith) h.valid)
        (rw (eq_self p) (
          calm is_cond call (on_queue q) _ (timers w p) z
            (unlisted is_cond (w.routines p) (timers w p) (calls p) (rw e at (h.fits p)))
            (λ yes_io. let no_way = rw i at yes_io in absurd (cc no_way))
            (λ s off. let no_way : on_queue q ≡ nowhere = off in absurd (cc no_way))))
