-- ===== src/System/Timeouts.antt =====
-- Time-outs keep every coroutine on at most one queue.
use libco.Base.{
  ℕ, zero, suc, ◌+◌, ◌-◌, ◌<◌, ◌≡◌, refl, true, Option, none, some, [], ◌∷◌, ◌++◌, arith, ◌==◌,
  if◌then◌else◌, has, erase, store, inl, inr, Bool-cases, Option-cases, ltb,
}
use libco.Base.Tally.{tally, occ, occ-out, occ-erase, occ-append}
use libco.Timer.{TimerHeap, peek}
use libco.Timer.Push.{IsValid}
use libco.Timer.Pop.{Taken, pop-Taken}
use libco.Runtime.{World, ready, wakeups, set_timers}
use libco.Runtime.Placed.{Place, nowhere, on_ready, on_queue, Placed}
use libco.Cond.Queues.{set_timers-Placed}
use libco.Scheduler.Timers.{fire-routines, fire-timers, fire-IsValid, fired-state}
use libco.Scheduler.{is_waiting, fire, time_out, wake_loop, wake_timers}
use libco.Scheduler.Ready.{enqueue}

-- Where a coroutine with a timer waits: in the line on record, or asleep, in none.
abbrev pub recorded : Option ℕ → Place
recorded none = nowhere
recorded (some q) = on_queue q

abbrev pub timers : World → ℕ → ℕ
timers w x = tally x w.sched.timer_heap.count w.sched.timer_heap.heap

-- Every coroutine that waits and has a timer waits where the record says.
abbrev pub IsTimed : World → (ℕ → Place) → Type 0
IsTimed w place =
    (p : ℕ)
    → is_waiting (w.routines p).state ≡ true
    → 0 < timers w p
    → place p ≡ recorded (w.routines p).cond_wait_queue

-- A coroutine that is on no queue, or that is taken off the queue that it is on, is made ready.
module _ (w v : World) (place : ℕ → Place) (p : ℕ) (h : Placed w place)
    (ready_queue : v.sched.ready_queue ≡ w.sched.ready_queue ++ p ∷ [])
    (states : (x : ℕ)
      → (v.routines x).state ≡ (if x == p then ready else (w.routines x).state)) where
  now_ready :
      (x : ℕ) → occ x v.sched.ready_queue ≡ occ x w.sched.ready_queue + (if x == p then 1 else 0)
  now_ready x = rw ready_queue (ground (arith, occ-append x w.sched.ready_queue (p ∷ [])))

  pub asleep-Placed : place p ≡ nowhere → v.queues ≡ w.queues → Placed v (store place p on_ready)
  asleep-Placed e q = record {
    ready_once = λ x. ground (arith, h.ready_once x, now_ready x, e);
    queue_once = λ x c. rw q (ground (arith, h.queue_once x c, e));
    agrees = λ x. ground (arith, h.agrees x, states x);
  }

  queued-Placed :
      (q : ℕ)
      → place p ≡ on_queue q
      → v.queues ≡ store w.queues q (erase p (w.queues q))
      → Placed v (store place p on_ready)
  queued-Placed q e lines = record {
    ready_once = λ x. ground (arith, h.ready_once x, now_ready x, e);
    queue_once = λ x c.
        rw lines (
          ground (arith, h.queue_once x c, h.queue_once p q, e, occ-erase x p (w.queues q) linked));
    agrees = λ x. ground (arith, h.agrees x, states x);
  }
    where
      linked : has p (w.queues q) ≡ true
      linked = elim (Bool-cases (has p (w.queues q))) [
        | inl m ↦ m
        | inr out ↦ absurd (ground (arith, occ-out p (w.queues q) out, h.queue_once p q, e))
      ]

pub fire-Placed :
    (w : World) (place : ℕ → Place) (p : ℕ)
    → Placed w place
    → is_waiting (w.routines p).state ≡ true
    → place p ≡ recorded (w.routines p).cond_wait_queue
    → Placed (fire w p) (store place p on_ready)
unfolding fire time_out enqueue
fire-Placed w place p h waits e = rw waits (elim (Option-cases (w.routines p).cond_wait_queue) [
  | inl o ↦
      let where_it_is : place p ≡ nowhere = rw o at e in
      rw o (elim (Bool-cases (w.routines p).io_waiting) [
        | inl i ↦ rw i (asleep-Placed w _ place p h refl (λ x. ground arith) where_it_is refl)
        | inr i ↦ rw i (asleep-Placed w _ place p h refl (λ x. ground arith) where_it_is refl)
      ])
  | inr (q, o) ↦
      let where_it_is : place p ≡ on_queue q = rw o at e in
      rw o (queued-Placed w _ place p h refl (λ x. ground arith) q where_it_is refl)
])

-- What a place of each coroutine is to a world in which time-outs can happen.
pub record Timely (w : World) (place : ℕ → Place) : Type 0 where
  pub placed : Placed w place
  pub timed : IsTimed w place

fire-IsTimed :
    (w : World) (place : ℕ → Place) (p : ℕ) (h : TimerHeap)
    → IsTimed w place
    → is_waiting (w.routines p).state ≡ true
    → Taken (wakeups w) w.sched.timer_heap p h
    → IsTimed (fire (set_timers w h) p) (store place p on_ready)
fire-IsTimed w place p h timed waits t x =
    rw (fire-routines (set_timers w h) p x, fire-timers (set_timers w h) p)
      (elim (Bool-cases (x == p)) [
        | inl same ↦
            rw (same, waits)
              (λ still has_one. let no_way = rw (fired-state (w.routines x)) at still in absurd cc)
        | inr other ↦ rw other (λ still has_one.
            let kept = timed x still (omega (arith, t.taken x, has_one)) in
            ground (arith, other, kept))
      ])

fire-Timely :
    (w : World) (place : ℕ → Place) (p : ℕ) (h : TimerHeap)
    → Timely w place
    → Taken (wakeups w) w.sched.timer_heap p h
    → (later : ℕ → Place) × Timely (fire (set_timers w h) p) later
unfolding fire
fire-Timely w place p h k t = elim (Bool-cases (is_waiting (w.routines p).state)) [
  | inl waits ↦ (
    store place p on_ready,
    record {
      placed =
          fire-Placed (set_timers w h) place p (set_timers-Placed w place h k.placed) waits
            (k.timed p waits (ground (arith, t.taken p)));
      timed = fire-IsTimed w place p h k.timed waits t;
    },
  )
  | inr idle ↦ (
    place,
    rw (idle, fire)
        (record {
          placed = set_timers-Placed w place h k.placed;
          timed = λ x waits one. k.timed x waits (omega (arith, t.taken x, one));
        }),
  )
]

wake_loop-Timely :
    (k : ℕ) (w : World) (now : ℕ) (place : ℕ → Place)
    → Timely w place
    → IsValid (wakeups w) w.sched.timer_heap
    → (later : ℕ → Place) × Timely (wake_loop k w now) later
unfolding wake_loop peek
wake_loop-Timely zero w now place h v = (place, h)
wake_loop-Timely (suc k) w now place h v = elim (Bool-cases (w.sched.timer_heap.count == 0)) [
  | inl e ↦ (place, rw (e, wake_loop) h)
  | inr e ↦
      rw (e, wake_loop)
        (elim (Bool-cases (ltb now (wakeups w (w.sched.timer_heap.heap 0)))) [
          | inl not_yet ↦ (place, rw not_yet h)
          | inr due ↦
              let (took, t, least) =
                pop-Taken (wakeups w) w.sched.timer_heap {n = w.sched.timer_heap.count - 1} v
                  (ground (arith, e)) in
              let (next, k1) = fire-Timely w place (w.sched.timer_heap.heap 0) _ h t in
              rw due (
                wake_loop-Timely k _ now next k1
                  (fire-IsValid (set_timers w _) (w.sched.timer_heap.heap 0) t.valid))
        ])
]

-- Let every coroutine be on at most one queue, in the state that goes with it; let the timer heap be
-- valid, and let every coroutine that waits and has a timer be in the line that it has on record, or
-- in none if it has none on record. All this is so after the loop over the timers, whichever of them
-- have run out: a coroutine that is timed out leaves its line when it joins the ready queue.
pub wake_timers-Timely :
    (w : World) (now : ℕ) (place : ℕ → Place)
    → Placed w place
    → IsTimed w place
    → IsValid (wakeups w) w.sched.timer_heap
    → (later : ℕ → Place) × Timely (wake_timers w now) later
unfolding wake_timers
wake_timers-Timely w now place placed timed v =
    wake_loop-Timely w.sched.timer_heap.count w now place
      (record { placed = placed; timed = timed }) v
