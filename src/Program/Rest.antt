-- ===== src/Program/Rest.antt =====
-- A program that has come to rest: no coroutine is ready, and no timer is left.
use libco.Base.{
  ℕ, ◌≡◌, ◌≢◌, ◌⊎◌, refl, sym, ◌∙◌, ap, Bool, true, none, some, [], arith, has, inl, inr,
  Bool-cases,
}
use libco.Base.Tally.{tally, occ, occ-out}
use libco.Runtime.{World, ready}
use libco.Runtime.Placed.{Place, nowhere, on_ready, on_queue}
use libco.Scheduler.{is_waiting}
use libco.System.Timeouts.{timers}
use libco.Program.{Program, Reach}
use libco.Program.Fits.{is_io}
use libco.Program.Invariant.{Sound}
use libco.Program.Tracked.{lines_of, Reach-IsTracked}

module _ (is_cond : ℕ → Bool) where
  no_timers : (w : World) (p : ℕ) → w.sched.timer_heap.count ≡ 0 → timers w p ≡ 0
  no_timers w p e = ap (λ (i : ℕ). tally p i w.sched.timer_heap.heap) e

  rest-found :
      (s : Program) (place : ℕ → Place) (p : ℕ)
      → Sound is_cond s.world s.calls place
      → s.world.sched.ready_queue ≡ []
      → s.world.sched.timer_heap.count ≡ 0
      → is_waiting (s.world.routines p).state ≡ true
      → (a : Place) → place p ≡ a
      → ((q : ℕ) × (has p (s.world.queues q) ≡ true)) ⊎ (is_io (s.calls p) ≡ true)
  rest-found s place p h r t w nowhere e = elim ((h.core.fits p).found w e) [
    | inl k ↦ absurd (omega (arith, k, no_timers s.world p t))
    | inr i ↦ inr i
  ]
  rest-found s place p h r t w on_ready e =
      absurd (ground (arith, h.core.placed.ready_once p, ap (occ p) r, e))
  rest-found s place p h r t w (on_queue q) e = elim (Bool-cases (has p (s.world.queues q))) [
    | inl m ↦ inl (q, m)
    | inr out ↦
        absurd (ground (arith, h.core.placed.queue_once p q, occ-out p (s.world.queues q) out, e))
  ]

  -- With nobody ready and no timer, a coroutine that waits is in the line that it asked for, or waits
  -- for I/O.
  pub Reach-rest :
      (s : Program) (p : ℕ)
      → (r : Reach is_cond s) → s.world.sched.ready_queue ≡ []
      → s.world.sched.timer_heap.count ≡ 0
      → is_waiting (s.world.routines p).state ≡ true
      → ((q : ℕ) × (has p (s.world.queues q) ≡ true) × (lines_of is_cond r p ≡ some q))
        ⊎ (is_io (s.calls p) ≡ true)
  Reach-rest s p r e t w =
      let ((place, k), tracked) = Reach-IsTracked is_cond s r in
      elim (rest-found s place p k e t w (place p) refl) [
        | inl (q, m) ↦ inl (q, m, tracked.in_line p q m)
        | inr i ↦ inr i
      ]

  -- Nor is a coroutine READY when none runs.
  pub Reach-no_ready :
      (s : Program) (p : ℕ)
      → Reach is_cond s
      → s.world.sched.ready_queue ≡ []
      → s.world.sched.current ≡ none
      → (s.world.routines p).state ≢ ready
  Reach-no_ready s p r e c h = elim ((Reach-IsTracked is_cond s r).1.ready_in p h) [
    | inl k ↦ let no_way = rw e at k in absurd (cc no_way)
    | inr now ↦ let no_way = sym c ∙ now in absurd (cc no_way)
  ]
