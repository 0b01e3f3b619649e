-- ===== src/Cond/Wake.antt =====
-- Whom the wake-ups of co_cond.c reach: the front of the line, or all of it, in order.
use libco.Base.{
  ℕ, ◌≡◌, ◌≢◌, sym, refl, true, false, none, List, [], ◌∷◌, ◌++◌, arith, ◌==◌, if◌then◌else◌, has,
  ◌+◌, inl, inr, Bool-cases,
}
use libco.Mutex.Fifo.{front_of}
use libco.Queue.Refine.{rest}
use libco.Base.Tally.{occ, occ-append, occ-has, occ-out}
use libco.Runtime.Placed.{Place, on_ready, on_queue, is_on, Placed, on_queue-is_on}
use libco.Runtime.{World, Routine, ok, ready, set_queue, wake}
use libco.Cond.{notify, signal, signal_to, broadcast, broadcast_loop}
use mathlib.Core.List.{append-nil, append_assoc}

-- A coroutine that was woken: it is ready, and no condition variable is on its record.
abbrev pub freed : Routine → Routine
freed r = record r { state = ready; cond_wait_queue = none }

-- Of the line at `cond`, the coroutines `moved` went to the end of the ready queue, in order, and
-- `left` stayed. No timer, mutex, channel or cell
-- changed.
pub record Woken (w : World) (cond : ℕ) (moved left : List ℕ) (v : World) : Type 0 where
  pub line : (q : ℕ) → v.queues q ≡ (if cond == q then left else w.queues q)
  pub in_order : v.sched.ready_queue ≡ w.sched.ready_queue ++ moved
  pub woken : (p : ℕ) → v.routines p ≡ (if has p moved then freed (w.routines p) else w.routines p)
  pub timers : v.sched.timer_heap ≡ w.sched.timer_heap
  pub running : v.sched.current ≡ w.sched.current
  pub mutexes : v.mutexes ≡ w.mutexes
  pub channels : v.channels ≡ w.channels
  pub cells : v.cells ≡ w.cells

-- One after the other.
Woken-∷ :
    {u v w : World} {cond p : ℕ} {moved left rest : List ℕ}
    → Woken u cond (p ∷ []) left v
    → Woken v cond moved rest w
    → Woken u cond (p ∷ moved) rest w
Woken-∷ {u} {v} {w} {cond} {p} {moved} {left} {rest} h k = record {
  line = λ q. ground (arith, h.line q, k.line q);
  in_order = rw (k.in_order, h.in_order) (append_assoc u.sched.ready_queue (p ∷ []) moved);
  woken = λ x. ground (arith, h.woken x, k.woken x);
  timers = cc (h.timers, k.timers);
  running = cc (h.running, k.running);
  mutexes = cc (h.mutexes, k.mutexes);
  channels = cc (h.channels, k.channels);
  cells = cc (h.cells, k.cells);
}

notify-Woken :
    (w : World) (cond p : ℕ) (rest : List ℕ)
    → Woken w cond (p ∷ []) rest (notify (set_queue w cond rest) p)
unfolding notify wake
notify-Woken w cond p rest = record {
  line = λ q. refl;
  in_order = refl;
  woken = λ x. ground arith;
  timers = refl;
  running = refl;
  mutexes = refl;
  channels = refl;
  cells = refl;
}

broadcast_loop-Woken :
    (line : List ℕ) (w : World) (cond : ℕ)
    → w.queues cond ≡ line
    → Woken w cond line [] (broadcast_loop line w cond)
unfolding broadcast_loop
broadcast_loop-Woken [] w cond e = record {
  line = λ q. ground (arith, e);
  in_order = sym (append-nil w.sched.ready_queue);
  woken = λ x. refl;
  timers = refl;
  running = refl;
  mutexes = refl;
  channels = refl;
  cells = refl;
}
broadcast_loop-Woken (p ∷ rest) w cond e =
    let first = notify-Woken w cond p rest in
    let all =
      broadcast_loop-Woken rest (notify (set_queue w cond rest) p) cond
        (ground (arith, first.line cond)) in
    Woken-∷ first all

-- Broadcast on a condition variable that is not NULL makes every waiter ready, in the order in
-- which they came to wait, clears their queue on record, leaves the line empty, and changes no
-- timer, mutex or channel.
pub broadcast-Woken :
    (w : World) (cond : ℕ)
    → cond ≢ 0
    → ((broadcast w cond).0 ≡ ok) × Woken w cond (w.queues cond) [] (broadcast w cond).1
unfolding broadcast
broadcast-Woken w cond h =
    let named : (cond == 0) ≡ false = ground arith in
    rw named (refl, broadcast_loop-Woken (w.queues cond) w cond refl)

signal_to-Woken :
    (line : List ℕ) (w : World) (cond : ℕ)
    → w.queues cond ≡ line
    → Woken w cond (front_of line) (rest line) (signal_to line w cond)
unfolding signal_to rest
signal_to-Woken [] w cond e = record {
  line = λ q. ground (arith, e);
  in_order = sym (append-nil w.sched.ready_queue);
  woken = λ x. refl;
  timers = refl;
  running = refl;
  mutexes = refl;
  channels = refl;
  cells = refl;
}
signal_to-Woken (p ∷ others) w cond e = notify-Woken w cond p others

-- Signal on a condition variable that is not NULL makes the coroutine ready that has waited
-- longest, if one waits, clears its queue on record, leaves the others in line, and changes no
-- timer, mutex or channel.
pub signal-Woken :
    (w : World) (cond : ℕ)
    → cond ≢ 0
    → ((signal w cond).0 ≡ ok)
      × Woken w cond (front_of (w.queues cond)) (rest (w.queues cond)) (signal w cond).1
unfolding signal
signal-Woken w cond h =
    let named : (cond == 0) ≡ false = ground arith in
    rw named (refl, signal_to-Woken (w.queues cond) w cond refl)

-- Where the coroutines are once those of `moved` are ready.
abbrev pub moved_to_ready : (ℕ → Place) → List ℕ → ℕ → Place
moved_to_ready place moved p = if has p moved then on_ready else place p

pub Woken-Placed :
    (w v : World) (place : ℕ → Place) (cond : ℕ) (moved left : List ℕ)
    → Woken w cond moved left v
    → w.queues cond ≡ moved ++ left
    → Placed w place
    → Placed v (moved_to_ready place moved)
Woken-Placed w v place cond moved left k e h = record {
  ready_once = λ x.
      rw (k.in_order, occ-append x w.sched.ready_queue moved)
        (elim (Bool-cases (has x moved)) [
          | inl m ↦ rw m (ground (arith, h.ready_once x, parts x, was x m, occ-has x moved m))
          | inr out ↦ rw out (omega (arith, h.ready_once x, occ-out x moved out))
        ]);
  queue_once = λ x q. rw (k.line q) (elim (Bool-cases (has x moved)) [
    | inl m ↦ rw m (ground (arith, h.queue_once x q, parts x, was x m, occ-has x moved m))
    | inr out ↦ rw out (ground (arith, h.queue_once x q, parts x, occ-out x moved out))
  ]);
  agrees = λ x.
      rw (k.woken x)
        (elim (Bool-cases (has x moved)) [ inl m ↦ rw m refl | inr out ↦ rw out (h.agrees x) ]);
}
  where
    parts : (x : ℕ) → occ x moved + occ x left ≡ is_on cond (place x)
    parts x = rw (← occ-append x moved left, ← e) (h.queue_once x cond)

    was : (x : ℕ) → has x moved ≡ true → place x ≡ on_queue cond
    was x m = on_queue-is_on cond (place x) (omega (arith, parts x, occ-has x moved m))
