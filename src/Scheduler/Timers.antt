-- ===== src/Scheduler/Timers.antt =====
-- The timer loop of `co_scheduler_run`: whom it wakes.
use libco.Base.{
  ℕ, zero, suc, ◌+◌, ◌-◌, ◌≤◌, ◌≡◌, ◌⊎◌, refl, ap, ◌&&◌, not, Bool, true, false, none, some, [],
  ◌∷◌, arith, ltb, leb, ◌==◌, if◌then◌else◌, Bool-cases, Option-cases, inl, inr,
}
use mathlib.Core.Path.{fun_ext}
use libco.Base.Tally.{tally, occ, occ-append}
use libco.Timer.{TimerHeap, peek}
use libco.Timer.Order.{root_least}
use libco.Timer.Push.{IsValid}
use libco.Timer.Pop.{Taken, pop-Taken}
use libco.Timer.Remove.{tally-zero}
use libco.Runtime.{World, Routine, ready, wakeups, set_timers}
use libco.Scheduler.Ready.{enqueue}
use libco.Scheduler.{is_waiting, time_out, fire, wake_loop, wake_timers}

-- The coroutine after its timer has fired.
unfoldable pub fired : Routine → Routine
fired r = elim r.cond_wait_queue [
  | some q ↦ record r { state = ready; timed_out = true; cond_wait_queue = none }
  | none ↦
      if r.io_waiting
      then record r { state = ready; timed_out = true; io_waiting = false }
      else record r { state = ready }
]

pub fire-routines :
    (w : World) (p x : ℕ)
    → (fire w p).routines x
      ≡ (if (x == p) && is_waiting (w.routines p).state then fired (w.routines x) else w.routines x)
unfolding fire time_out enqueue fired
fire-routines w p x = elim (Bool-cases (is_waiting (w.routines p).state)) [
  | inl waits ↦ rw waits (elim (Option-cases (w.routines p).cond_wait_queue) [
    | inl e ↦ rw e (ground (arith, e))
    | inr (q, e) ↦ rw e (ground (arith, e))
  ])
  | inr idle ↦ rw idle (ground arith)
]

fire-ready :
    (w : World) (p x : ℕ)
    → occ x (fire w p).sched.ready_queue
      ≡ occ x w.sched.ready_queue + (if (x == p) && is_waiting (w.routines p).state then 1 else 0)
unfolding fire time_out enqueue
fire-ready w p x = elim (Bool-cases (is_waiting (w.routines p).state)) [
  | inl waits ↦ rw waits (elim (Option-cases (w.routines p).cond_wait_queue) [
    | inl e ↦ rw e (ground (arith, occ-append x w.sched.ready_queue (p ∷ [])))
    | inr (q, e) ↦ rw e (ground (arith, occ-append x w.sched.ready_queue (p ∷ [])))
  ])
  | inr idle ↦ rw idle (ground arith)
]

pub fire-timers : (w : World) (p : ℕ) → (fire w p).sched.timer_heap ≡ w.sched.timer_heap
unfolding fire time_out enqueue
fire-timers w p = elim (Bool-cases (is_waiting (w.routines p).state)) [
  | inl waits ↦ rw waits (elim (Option-cases (w.routines p).cond_wait_queue) [
    | inl e ↦ rw e (ground (arith, e))
    | inr (q, e) ↦ rw e refl
  ])
  | inr idle ↦ rw idle refl
]

fire-wakeup : (w : World) (p x : ℕ) → wakeups (fire w p) x ≡ wakeups w x
unfolding fire time_out enqueue
fire-wakeup w p x = elim (Bool-cases (is_waiting (w.routines p).state)) [
  | inl waits ↦ rw waits (elim (Option-cases (w.routines p).cond_wait_queue) [
    | inl e ↦ rw e (ground (arith, e))
    | inr (q, e) ↦ rw e (ground arith)
  ])
  | inr idle ↦ rw idle refl
]

-- Whether a coroutine waits with a timer that has run out.
abbrev pub is_due : World → (now p : ℕ) → Bool
is_due w now p =
    let h = w.sched.timer_heap in
    is_waiting (w.routines p).state && (leb (wakeups w p) now && ltb 0 (tally p h.count h.heap))

-- What the loop over the timers does.
pub record Fired (w : World) (now : ℕ) (v : World) : Type 0 where
  pub valid : IsValid (wakeups v) v.sched.timer_heap
  pub kept :
      (x : ℕ)
      → tally x v.sched.timer_heap.count v.sched.timer_heap.heap ≡ (
          if ltb now (wakeups w x)
          then tally x w.sched.timer_heap.count w.sched.timer_heap.heap
          else 0)
  pub resumed :
      (x : ℕ) → v.routines x ≡ (if is_due w now x then fired (w.routines x) else w.routines x)
  pub enqueued :
      (x : ℕ)
      → occ x v.sched.ready_queue ≡ occ x w.sched.ready_queue + (if is_due w now x then 1 else 0)

-- Nothing is due.
Fired-none :
    (w : World) (now : ℕ)
    → IsValid (wakeups w) w.sched.timer_heap
    → ((x : ℕ)
        → (ltb now (wakeups w x) ≡ true)
          ⊎ (tally x w.sched.timer_heap.count w.sched.timer_heap.heap ≡ 0))
    → Fired w now w
Fired-none w now v none_due = record {
  valid = v;
  kept = λ x. ground (arith, none_due x);
  resumed = λ x. ground (arith, none_due x);
  enqueued = λ x. ground (arith, none_due x);
}

pub fired-state : (r : Routine) → (fired r).state ≡ ready
unfolding fired
fired-state r = elim (Option-cases r.cond_wait_queue) [
  | inl e ↦ rw e (ground arith)
  | inr (q, e) ↦ rw e refl
]

-- After the root was fired, the others are due as before, and it is not.
is_due-fire :
    (w : World) (now p x : ℕ) (h : TimerHeap)
    → Taken (wakeups w) w.sched.timer_heap p h
    → is_due (fire (set_timers w h) p) now x ≡ (not (x == p) && is_due w now x)
is_due-fire w now p x h t =
    rw
      (
        fire-routines (set_timers w h) p x,
        fire-wakeup (set_timers w h) p x,
        fire-timers (set_timers w h) p,
      )
      (elim (Bool-cases (x == p)) [
        | inl same ↦ rw same (elim (Bool-cases (is_waiting (w.routines p).state)) [
          | inl waits ↦ rw (waits, fired-state (w.routines x)) refl
          | inr idle ↦ let e : x ≡ p = ground (arith, same) in rw (idle, e, idle) refl
        ])
        | inr other ↦ rw other (ground (arith, t.taken x))
      ])

-- The root is taken and fired, and the loop goes on.
Fired-next :
    (w v : World) (now p : ℕ) (h : TimerHeap)
    → leb (wakeups w p) now ≡ true
    → Taken (wakeups w) w.sched.timer_heap p h
    → Fired (fire (set_timers w h) p) now v
    → Fired w now v
Fired-next w v now p h due t f = record {
  valid = f.valid;
  kept = λ x. rw (f.kept x, fire-wakeup w1 p x, fire-timers w1 p) (ground (arith, t.taken x));
  resumed = λ x.
      rw (f.resumed x, is_due-fire w now p x h t, fire-routines w1 p x) (ground (arith, t.taken x));
  enqueued = λ x.
      rw (f.enqueued x, is_due-fire w now p x h t, fire-ready w1 p x) (ground (arith, t.taken x));
}
  where
    w1 : World
    w1 = set_timers w h

pub fire-IsValid :
    (w : World) (p : ℕ)
    → IsValid (wakeups w) w.sched.timer_heap
    → IsValid (wakeups (fire w p)) (fire w p).sched.timer_heap
fire-IsValid w p v =
    let same : wakeups (fire w p) ≡ wakeups w = fun_ext (fire-wakeup w p) in
    rw (same, fire-timers w p) v

wake_loop-Fired :
    (k : ℕ) (w : World) (now : ℕ)
    → IsValid (wakeups w) w.sched.timer_heap
    → w.sched.timer_heap.count ≤ k
    → Fired w now (wake_loop k w now)
unfolding wake_loop peek
wake_loop-Fired zero w now v le =
    let e : w.sched.timer_heap.count ≡ 0 = omega (arith, le) in
    Fired-none w now v (λ x. inr (ap (λ (n : ℕ). tally x n w.sched.timer_heap.heap) e))
wake_loop-Fired (suc k) w now v le = elim (Bool-cases (w.sched.timer_heap.count == 0)) [
  | inl e ↦
      rw (e, wake_loop)
        (Fired-none w now v (λ x.
          inr (ap (λ (n : ℕ). tally x n w.sched.timer_heap.heap) {y = 0} (ground (arith, e)))))
  | inr e ↦
      rw (e, wake_loop)
        (elim (Bool-cases (ltb now (wakeups w root))) [
          | inl later ↦ rw (later) (Fired-none w now v (none_due later))
          | inr due ↦
              let (took, t, least) =
                pop-Taken (wakeups w) w.sched.timer_heap {n = w.sched.timer_heap.count - 1} v
                  (ground (arith, e)) in
              rw due (
                Fired-next w _ now root _ (ground (arith, due)) t (
                  wake_loop-Fired k _ now (fire-IsValid (set_timers w _) root t.valid)
                    (rw (fire-timers (set_timers w _) root) (omega (arith, le, t.counted)))))
        ])
]
  where
    root : ℕ
    root = w.sched.timer_heap.heap 0

    none_due :
        ltb now (wakeups w root) ≡ true
        → (x : ℕ)
        → (ltb now (wakeups w x) ≡ true)
          ⊎ (tally x w.sched.timer_heap.count w.sched.timer_heap.heap ≡ 0)
    none_due later x = elim (Bool-cases (ltb now (wakeups w x))) [
      | inl l ↦ inl l
      | inr d ↦ inr (
          tally-zero x w.sched.timer_heap.count w.sched.timer_heap.heap (λ c p. λ same. absurd (
            ground (
              arith,
              later,
              d,
              same,
              root_least (wakeups w) w.sched.timer_heap.count w.sched.timer_heap.heap c v.ordered p,
            ))))
    ]

-- On a valid timer heap, the loop takes exactly the timers that have run out off it, and leaves a
-- valid heap. The coroutines among them that still wait are made ready, each once, with their
-- time-out on record where they were in a timed wait, and no other coroutine is touched.
pub wake_timers-Fired :
    (w : World) (now : ℕ) → IsValid (wakeups w) w.sched.timer_heap → Fired w now (wake_timers w now)
unfolding wake_timers
wake_timers-Fired w now v = wake_loop-Fired w.sched.timer_heap.count w now v (omega arith)
