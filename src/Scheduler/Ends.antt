-- ===== src/Scheduler/Ends.antt =====
-- When `co_scheduler_run` ends: coroutines that neither sleep nor wait for I/O, and of which each turn
-- leaves less to do.
use libco.Base.{
  ℕ, zero, suc, ◌<◌, ◌≡◌, ◌≢◌, refl, ◌∙◌, true, false, Option, some, List, [], ◌∷◌, arith,
  if◌then◌else◌, inl, inr, Bool-cases, if_false,
}
use libco.Timer
use libco.Runtime.{World, Error, ok}
use libco.Scheduler.{
  is_empty, Round, continues, breaks, schedule, scheduled, idle, round, run_loop, run, activate,
  wake_timers, wake_loop,
}

-- No timer is set, and nobody waits for I/O.
pub record IsQuiet (w : World) : Type 0 where
  pub timers : w.sched.timer_heap.count ≡ 0
  pub outstanding : w.sched.waiting_io_count ≡ 0

-- The loop ended with an error of a turn, or on request, or with nobody ready.
pub data Ended (v : World) : Error → Type 0 where
  failed : {e : Error} → e ≢ ok → Ended v e
  stopped : v.sched.should_stop ≡ true → Ended v ok
  finished : v.sched.ready_queue ≡ [] → Ended v ok

Ended-same :
    (v u : World) (e : Error)
    → u.sched.ready_queue ≡ v.sched.ready_queue
    → u.sched.should_stop ≡ v.sched.should_stop
    → Ended v e
    → Ended u e
Ended-same v u _ r s (failed n) = failed n
Ended-same v u _ r s (stopped e) = stopped (s ∙ e)
Ended-same v u _ r s (finished e) = finished (r ∙ e)

-- The world in which the loop of a run starts.
abbrev pub started : World → World
started w = record w {
  sched = record w.sched { running = true; should_stop = false };
  active = true;
}

module _ (body : World → ℕ → Error × World) (poll : World → (timeout : ℕ) → World)
    (work : World → ℕ) where
  -- A turn that succeeds leaves no timer and nobody waiting for I/O, and less to do.
  abbrev pub Works : Type 0
  Works =
      (w : World) (p : ℕ) (rest : List ℕ)
      → IsQuiet w
      → w.sched.ready_queue ≡ p ∷ rest
      → (schedule body w).0 ≡ ok
      → IsQuiet (schedule body w).1 × (work (schedule body w).1 < work w)

  -- What a round with a loop's end after it, or the loop's next round, does.
  pub data RoundResult (w : World) : Round → Type 0 where
    over : {e : Error} {v : World} → Ended v e → RoundResult w (breaks e v)
    goes_on : {v : World} → IsQuiet v → work v < work w → RoundResult w (continues v)

  scheduled-RoundResult :
      (w : World) (r : Error × World)
      → (r.0 ≡ ok → IsQuiet r.1 × (work r.1 < work w))
      → RoundResult w (scheduled body poll r)
  unfolding scheduled
  scheduled-RoundResult w (ok, v) h = let (q, less) = h refl in goes_on q less
  scheduled-RoundResult w (e, v) h = over (failed (λ z. absurd cc))

  idle-RoundResult :
      (w : World) (now : ℕ)
      → IsQuiet w
      → w.sched.ready_queue ≡ []
      → RoundResult w (idle body poll w now)
  unfolding idle Timer.empty
  idle-RoundResult w now q e = rw (q.timers, q.outstanding, e) (over (finished refl))

  wake_timers-IsQuiet : (w : World) (now : ℕ) → IsQuiet w → wake_timers w now ≡ w
  unfolding wake_timers wake_loop
  wake_timers-IsQuiet w now q = rw q.timers refl

  pub round-RoundResult :
      Works → (w : World) (now : ℕ) → IsQuiet w → RoundResult w (round body poll w now)
  unfolding round
  round-RoundResult works w now q =
      rw (wake_timers-IsQuiet w now q) (at_queue w.sched.ready_queue refl)
    where
      at_queue :
          (xs : List ℕ)
          → w.sched.ready_queue ≡ xs
          → RoundResult w
              (if is_empty xs then idle body poll w now else scheduled body poll (schedule body w))
      at_queue [] e = idle-RoundResult w now q e
      at_queue (p ∷ rest) e = scheduled-RoundResult w (schedule body w) (works w p rest q e)

  -- How a loop ends, with `k` for its fuel.
  abbrev LoopEnds : ℕ → (ℕ → ℕ) → World → Type 0
  LoopEnds k clock w =
      (e : Error) × (v : World) × (run_loop body poll k clock w ≡ some (e, v)) × Ended v e

  after_round :
      (k : ℕ) (clock : ℕ → ℕ) (w : World) (r : Round)
      → RoundResult w r
      → ((v : World) → IsQuiet v → work v < work w → LoopEnds k clock v)
      → (e : Error) × (v : World) × ((elim r as (λ (x : Round). Option (Error × World)) [
        | continues v ↦ run_loop body poll k clock v
        | breaks e v ↦ some (e, v)
      ])
          ≡ some (e, v))
        × Ended v e
  after_round k clock w _ (over {e} {v} d) h = (e, v, refl, d)
  after_round k clock w _ (goes_on {v} q less) h = h v q less

  run_loop-Ended :
      Works → (k : ℕ) (clock : ℕ → ℕ) (w : World) → IsQuiet w → work w < k → LoopEnds k clock w
  unfolding run_loop
  run_loop-Ended works zero clock w q h = absurd (omega (arith, h))
  run_loop-Ended works (suc k) clock w q h = elim (Bool-cases w.sched.should_stop) [
    | inl stop ↦ (ok, w, rw stop refl, stopped stop)
    | inr goes ↦
        let (e, v, r, d) =
          after_round k (λ i. clock (suc i)) w (round body poll w (clock 0))
            (round-RoundResult works w (clock 0) q)
            (λ v q2 less.
              run_loop-Ended works k (λ i. clock (suc i)) v q2 (omega (arith, h, less))) in
        (e, v, if_false w.sched.should_stop _ _ goes ∙ r, d)
  ]

  -- A run of a scheduler that is not running ends, and says how, with any fuel above the amount of work
  -- that is there at its start: where no timer is set and nobody waits for I/O, and a turn that succeeds
  -- keeps that and lowers the work. It ends with the error of a turn, or with OK; then it was asked to
  -- stop, or nobody is ready. The scheduler is then no longer running, nor the thread's.
  pub run-Ended :
      Works
      → (fuel : ℕ) (clock : ℕ → ℕ) (w : World) → IsQuiet w
      → w.sched.running ≡ false
      → work (started w) < fuel
      → (e : Error) × (v : World) × (run body poll fuel clock true w ≡ some (e, v))
        × Ended v e
        × (v.sched.running ≡ false)
        × (v.active ≡ false)
  unfolding run
  run-Ended works fuel clock w q idle enough =
      let (e, v, r, d) =
        run_loop-Ended works fuel clock (started w)
          (record { timers = q.timers; outstanding = q.outstanding }) enough in
      (e, activate body poll false v, rw (idle, r) refl, Ended-same v _ e refl refl d, refl, refl)
