-- ===== src/Scheduler/Teardown.antt =====
-- What `co_scheduler_destroy` frees.
use libco.Base.{
  ℕ, zero, suc, ◌+◌, ◌-◌, ◌≡◌, ◌≤◌, refl, sym, ap, Option, none, some, List, [], ◌∷◌, arith, ◌==◌,
  inl, inr, Bool-cases,
}
use mathlib.Core.Path.{fun_ext}
use libco.Base.Tally.{tally, occ, occ-append}
use libco.Timer.{TimerHeap, pop}
use libco.Timer.Push.{IsValid}
use libco.Timer.Pop.{pop-Taken, pop-none}
use libco.Runtime.{World, wakeups, set_timers, set_sched}
use libco.Coroutine
use libco.Scheduler.{free_ready, free_sleepers, destroy}

destroy-timers : (w : World) (p : ℕ) → (Coroutine.destroy w p).sched.timer_heap ≡ w.sched.timer_heap
unfolding Coroutine.destroy
destroy-timers w p = elim (Bool-cases (p == 0)) [ inl z ↦ rw z refl | inr n ↦ rw n refl ]

destroy-wakeups : (w : World) (p : ℕ) → wakeups (Coroutine.destroy w p) ≡ wakeups w
unfolding Coroutine.destroy
destroy-wakeups w p =
    fun_ext (λ x. elim (Bool-cases (p == 0)) [ inl z ↦ rw z refl | inr n ↦ rw n (ground arith) ])

free_ready-lem :
    (line : List ℕ) (w : World)
    → ((free_ready line w).0 ≡ line)
      × ((free_ready line w).1.sched.timer_heap ≡ w.sched.timer_heap)
      × (wakeups (free_ready line w).1 ≡ wakeups w)
unfolding free_ready
free_ready-lem [] w = (refl, refl, refl)
free_ready-lem (p ∷ rest) w =
    let w1 = set_sched w (record w.sched { ready_queue = rest }) in
    let (same, timers, times) = free_ready-lem rest (Coroutine.destroy w1 p) in
    (rw same refl, rw timers (destroy-timers w1 p), rw times (destroy-wakeups w1 p))

free_sleepers-none :
    (k : ℕ) (w : World)
    → (pop (wakeups w) w.sched.timer_heap).0 ≡ none
    → (free_sleepers (suc k) w).0 ≡ []
unfolding free_sleepers
free_sleepers-none k w e = rw (e, free_sleepers) refl

free_sleepers-some :
    (k : ℕ) (w : World) (p : ℕ)
    → (pop (wakeups w) w.sched.timer_heap).0 ≡ some p
    → (free_sleepers (suc k) w).0
      ≡ p
        ∷ (free_sleepers k
            (Coroutine.destroy (set_timers w (pop (wakeups w) w.sched.timer_heap).1) p)).0
unfolding free_sleepers
free_sleepers-some k w p e = rw (e, free_sleepers) refl

free_sleepers-occ :
    (k : ℕ) (w : World) (x : ℕ)
    → IsValid (wakeups w) w.sched.timer_heap
    → w.sched.timer_heap.count ≤ k
    → occ x (free_sleepers k w).0 ≡ tally x w.sched.timer_heap.count w.sched.timer_heap.heap
unfolding free_sleepers
free_sleepers-occ zero w x v le =
    ap (λ (n : ℕ). tally x n w.sched.timer_heap.heap) {x = 0} {y = w.sched.timer_heap.count}
      (omega (arith, le))
free_sleepers-occ (suc k) w x v le = elim (Bool-cases (w.sched.timer_heap.count == 0)) [
  | inl e ↦
      let none_left : w.sched.timer_heap.count ≡ 0 = ground (arith, e) in
      rw
        (free_sleepers-none k w (
          ap (λ (r : Option ℕ × TimerHeap). r.0)
            (pop-none (wakeups w) w.sched.timer_heap none_left)))
        (ap (λ (n : ℕ). tally x n w.sched.timer_heap.heap) {x = 0} {y = w.sched.timer_heap.count}
          (sym none_left))
  | inr e ↦
      let (took, t, least) =
        pop-Taken (wakeups w) w.sched.timer_heap {n = w.sched.timer_heap.count - 1} v
          (ground (arith, e)) in
      let w1 = set_timers w (pop (wakeups w) w.sched.timer_heap).1 in
      let root = w.sched.timer_heap.heap 0 in
      let valid : IsValid (wakeups (Coroutine.destroy w1 root))
          (Coroutine.destroy w1 root).sched.timer_heap =
        rw (destroy-wakeups w1 root, destroy-timers w1 root) t.valid in
      let same = ap (λ (g : TimerHeap). tally x g.count g.heap) (destroy-timers w1 root) in
      let later =
        free_sleepers-occ k (Coroutine.destroy w1 root) x valid
          (rw (destroy-timers w1 root) (omega (arith, le, t.counted))) in
      rw (free_sleepers-some k w root took) (omega (arith, later, same, t.taken x))
]

-- With a valid timer heap, each coroutine is freed as often as it stands in the ready queue and in
-- the heap together: once if it is in one of them, but twice if it was made ready while its timer
-- was still set.
pub destroy-occ :
    (w : World) (x : ℕ)
    → IsValid (wakeups w) w.sched.timer_heap
    → occ x (destroy w).0
      ≡ occ x w.sched.ready_queue + tally x w.sched.timer_heap.count w.sched.timer_heap.heap
unfolding destroy
destroy-occ w x v =
    let (same, timers, times) = free_ready-lem w.sched.ready_queue w in
    let w1 = (free_ready w.sched.ready_queue w).1 in
    let valid : IsValid (wakeups w1) w1.sched.timer_heap = rw (times, timers) v in
    rw
      (
        same,
        occ-append x w.sched.ready_queue (free_sleepers w1.sched.timer_heap.count w1).0,
        free_sleepers-occ w1.sched.timer_heap.count w1 x valid (omega arith),
        timers,
      )
      refl
