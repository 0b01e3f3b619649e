-- ===== src/Cond/Queues.antt =====
-- The functions of co_cond.c keep every coroutine on at most one queue.
use libco.Base.{
  ℕ, ◌+◌, ◌≡◌, ◌≢◌, sym, subst, refl, Bool, true, false, some, List, [], ◌∷◌, ◌++◌, arith, ◌==◌,
  ◌||◌, has, store, ◌%◌, word, inl, inr, Bool-cases,
}
use libco.Base.Tally.{occ-erase, occ-out}
use libco.Timer.{TimerHeap, push}
use mathlib.Core.List.{append-nil}
use mathlib.Core.Path.{fun_ext}
use libco.Mutex.Fifo.{front_of}
use libco.Queue.Refine.{rest}
use libco.Runtime.{
  World, Routine, set_routine, set_timers, wakeups, Outcome, returns, suspends, current, world,
  block,
}
use libco.Runtime.Placed.{Place, nowhere, on_queue, Placed, block-Placed}
use libco.Mutex.{unlock}
use libco.Mutex.Queues.{moved, unlock-Placed}
use libco.Cond.{
  signal, broadcast, wait, timedwait, timedwait_as, withdraw, enrol, enrol_until, suspend_timed,
}
use libco.Cond.Wake.{Woken-Placed, signal-Woken, broadcast-Woken, moved_to_ready}

front_of-rest : (xs : List ℕ) → xs ≡ front_of xs ++ rest xs
unfolding rest
front_of-rest [] = refl
front_of-rest (x ∷ xs) = refl

-- If every coroutine is on at most one queue, in the state that goes with it, this is so after a
-- signal of a condition variable that is not NULL, where the first waiter is on the ready queue
-- and the others are where they were.
pub signal-Placed :
    (w : World) (place : ℕ → Place) (cond : ℕ)
    → cond ≢ 0
    → Placed w place
    → Placed (signal w cond).1 (moved_to_ready place (front_of (w.queues cond)))
signal-Placed w place cond h pl =
    Woken-Placed w _ place cond (front_of (w.queues cond)) (rest (w.queues cond))
      (signal-Woken w cond h).1 (front_of-rest (w.queues cond)) pl

-- If every coroutine is on at most one queue, in the state that goes with it, this is so after a
-- broadcast on a condition variable that is not NULL, where all that waited are on the ready queue
-- and the others are where they were.
pub broadcast-Placed :
    (w : World) (place : ℕ → Place) (cond : ℕ)
    → cond ≢ 0
    → Placed w place
    → Placed (broadcast w cond).1 (moved_to_ready place (w.queues cond))
broadcast-Placed w place cond h pl =
    Woken-Placed w _ place cond (w.queues cond) [] (broadcast-Woken w cond h).1
      (sym (append-nil (w.queues cond))) pl

block-queues : (w : World) (q r p : ℕ) → q ≢ r → (block w q p).queues r ≡ w.queues r
unfolding block
block-queues w q r p h = ground arith

block-unlock-Placed :
    (w : World) (place : ℕ → Place) (cond mutex p : ℕ)
    → mutex ≢ 0
    → cond ≢ mutex
    → place p ≡ nowhere
    → Placed w place
    → Placed
        (unlock (block w cond p) mutex).1
        (moved (store place p (on_queue cond)) (w.queues mutex))
block-unlock-Placed w place cond mutex p hm apart e pl =
    subst
      (λ (line : List ℕ).
        Placed (unlock (block w cond p) mutex).1 (moved (store place p (on_queue cond)) line))
      (block-queues w cond mutex p apart)
      (unlock-Placed (block w cond p) (store place p (on_queue cond)) mutex hm
        (block-Placed w place cond p pl e))

-- Let every coroutine be on at most one queue, in the state that goes with it, and the running one
-- on none. When it waits, on objects that are not NULL and at different addresses, it is then on
-- the condition variable's queue, and only there; the first waiter of the mutex, which is
-- released, is on the ready queue.
pub wait-Placed :
    (w : World) (place : ℕ → Place) (cond mutex p : ℕ)
    → cond ≢ 0
    → mutex ≢ 0
    → cond ≢ mutex
    → current w ≡ some p
    → place p ≡ nowhere
    → Placed w place
    → Placed (world (wait w cond mutex)) (moved (store place p (on_queue cond)) (w.queues mutex))
unfolding wait
wait-Placed w place cond mutex p hc hm apart c e pl =
    let named : (cond == 0 || mutex == 0) ≡ false = ground arith in
    rw (named, c) (block-unlock-Placed w place cond mutex p hm apart e pl)

pub set_routine-Placed :
    (w : World) (place : ℕ → Place) (p : ℕ) (r : Routine)
    → r.state ≡ (w.routines p).state
    → Placed w place
    → Placed (set_routine w p r) place
set_routine-Placed w place p r e pl = record {
  ready_once = pl.ready_once;
  queue_once = pl.queue_once;
  agrees = λ x. ground (arith, pl.agrees x);
}

pub set_timers-Placed :
    (w : World) (place : ℕ → Place) (h : TimerHeap) → Placed w place → Placed (set_timers w h) place
set_timers-Placed w place h pl = record {
  ready_once = pl.ready_once;
  queue_once = pl.queue_once;
  agrees = pl.agrees;
}

pub withdraw-Placed :
    (w : World) (place : ℕ → Place) (p cond : ℕ)
    → place p ≡ on_queue cond
    → Placed w place
    → Placed (withdraw w p cond) (store place p nowhere)
unfolding withdraw
withdraw-Placed w place p cond e pl = record {
  ready_once = λ x. ground (arith, pl.ready_once x);
  queue_once = λ x q.
      ground (arith, pl.queue_once x q, pl.queue_once p cond, occ-erase x p (w.queues cond) linked);
  agrees = λ x. ground (arith, pl.agrees x);
}
  where
    linked : has p (w.queues cond) ≡ true
    linked = elim (Bool-cases (has p (w.queues cond))) [
      | inl m ↦ m
      | inr out ↦ absurd (ground (arith, occ-out p (w.queues cond) out, pl.queue_once p cond))
    ]

-- Where the coroutines are after a wait that may return at once.
abbrev pub PlacedAfter : (ℕ → Place) → (ℕ → Place) → Outcome → Type 0
PlacedAfter place later (returns e v) = Placed v place
PlacedAfter place later (suspends v) = Placed v later

pub enrol_until-Placed :
    (w : World) (place : ℕ → Place) (cond p deadline : ℕ)
    → place p ≡ nowhere
    → Placed w place
    → Placed (enrol_until w p cond deadline) (store place p (on_queue cond))
unfolding enrol_until enrol
enrol_until-Placed w place cond p deadline e pl =
    set_routine-Placed (enrol w p cond) _ p _ refl
      (block-Placed _ place cond p (set_routine-Placed w place p _ refl pl) e)

enrol_until-queues :
    (w : World) (q r p deadline : ℕ) → q ≢ r → (enrol_until w p q deadline).queues r ≡ w.queues r
unfolding enrol_until enrol block
enrol_until-queues w q r p deadline h = ground arith

suspend_timed-PlacedAfter :
    (timer : Bool × TimerHeap) (w : World) (place : ℕ → Place) (p cond mutex : ℕ)
    → mutex ≢ 0
    → place p ≡ on_queue cond
    → Placed w place
    → PlacedAfter
        (store place p nowhere)
        (moved place (w.queues mutex))
        (suspend_timed timer w p cond mutex)
unfolding suspend_timed
suspend_timed-PlacedAfter (true, timers) w place p cond mutex hm e pl =
    unlock-Placed (set_timers w timers) place mutex hm (set_timers-Placed w place timers pl)
suspend_timed-PlacedAfter (false, timers) w place p cond mutex hm e pl =
    withdraw-Placed w place p cond e pl

-- Let every coroutine be on at most one queue, in the state that goes with it, and the running one
-- on none. A timed wait on objects at different addresses that suspends leaves it on the condition
-- variable's queue, and only there, with the first waiter of the mutex on the ready queue. Where
-- it returns at once, for a bad argument, a zero timeout or a timer that could not be registered,
-- every coroutine is where it was.
pub timedwait-PlacedAfter :
    (realloc : ℕ → Bool) (now : ℕ) (w : World) (place : ℕ → Place) (cond mutex timeout_ms p : ℕ)
    → cond ≢ mutex
    → current w ≡ some p
    → place p ≡ nowhere
    → Placed w place
    → PlacedAfter place
        (moved (store place p (on_queue cond)) (w.queues mutex))
        (timedwait realloc now w cond mutex timeout_ms)
unfolding timedwait timedwait_as
timedwait-PlacedAfter realloc now w place cond mutex timeout_ms p apart c e pl =
    elim (Bool-cases (cond == 0 || mutex == 0)) [
      | inl bad ↦ rw bad pl
      | inr named ↦ rw named (elim (Bool-cases (timeout_ms == 0)) [
        | inl at_once ↦ rw at_once pl
        | inr later ↦ rw (later, c) (waits (ground (arith, named)))
      ])
    ]
  where
    deadline : ℕ
    deadline = (now + timeout_ms) % word

    back : store (store place p (on_queue cond)) p nowhere ≡ place
    back = fun_ext (λ x. ground (arith, e))

    waits :
        mutex ≢ 0
        → PlacedAfter place
            (moved (store place p (on_queue cond)) (w.queues mutex))
            (timedwait_as (some p) realloc now w cond mutex timeout_ms)
    waits hm =
        rw (back, enrol_until-queues w cond mutex p deadline apart) at
          (suspend_timed-PlacedAfter
            (push (wakeups (enrol_until w p cond deadline)) realloc w.sched.timer_heap p)
            (enrol_until w p cond deadline) (store place p (on_queue cond)) p cond mutex hm
            (ground arith) (enrol_until-Placed w place cond p deadline e pl))
