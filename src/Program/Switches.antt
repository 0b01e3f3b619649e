-- ===== src/Program/Switches.antt =====
-- The switches between the scheduler and a coroutine keep the invariant.
use libco.Base.{
  ℕ, ◌≡◌, refl, ap, Bool, none, List, ◌∷◌, arith, ◌==◌, store, inl, inr, Bool-cases, eq_self,
}
use libco.Runtime.{World, set_sched}
use libco.Runtime.Placed.{Place, nowhere, on_ready}
use libco.Scheduler.{enter, leave, is_dead}
use libco.Scheduler.Ready.{dequeue}
use libco.Coroutine
use libco.System.Timeouts.{timers}
use libco.Base.Tally.{occ}
use libco.System.Invariant.{on_ready-is_on, enter-Sound as entered_before}
use libco.Program.{Call}
use libco.Program.Moves.{entered-Fits}
use libco.Program.Invariant.{Core, Sound, alike-Core, changed-Core, IsValid-eq}

module _ (is_cond : ℕ → Bool) where
  -- A coroutine that was switched away from, be it at its end.
  pub leave-Sound :
      (w : World) (calls : ℕ → Call) (place : ℕ → Place) (p : ℕ)
      → Core is_cond w calls place
      → Sound is_cond (leave w p) calls place
  unfolding leave Coroutine.destroy
  leave-Sound w calls place p h = elim (Bool-cases (is_dead (w.routines p).state)) [
    | inl d ↦ rw d (elim (Bool-cases (p == 0)) [
      | inl z ↦ rw z (record { core = plain; free = tt; runs_now = inl refl })
      | inr n ↦ rw n (record {
        core =
            alike-Core is_cond w _ calls place refl refl refl (λ x. ground arith)
              (λ x. ground arith) (λ x. ground arith) (λ x. ground arith) h;
        free = tt;
        runs_now = inl refl;
      })
    ])
    | inr alive ↦ rw alive (record { core = plain; free = tt; runs_now = inl refl })
  ]
    where
      plain : Core is_cond (record w { sched = record w.sched { current = none } }) calls place
      plain =
          alike-Core is_cond w _ calls place refl refl refl (λ x. refl) (λ x. refl) (λ x. refl)
            (λ x. refl) h

  pub enter-Sound :
      (w : World) (calls : ℕ → Call) (place : ℕ → Place) (p : ℕ) (rest : List ℕ)
      → w.sched.ready_queue ≡ p ∷ rest
      → Core is_cond w calls place
      → Sound is_cond (enter (dequeue w).1 p) calls (store place p nowhere)
  unfolding enter dequeue
  enter-Sound w calls place p rest e h = rw e (record {
    core =
        changed-Core is_cond w (enter (set_sched w (record w.sched { ready_queue = rest })) p) calls
          calls place (store place p nowhere) p h (λ x o. ground arith)
          (rw e at (entered_before w place p rest e h.placed).placed)
          (IsValid-eq is_cond w (enter (set_sched w (record w.sched { ready_queue = rest })) p) refl
            (λ x. ground arith) h.valid)
          (rw (eq_self p) (
            entered-Fits is_cond (calls p) (w.routines p) (timers w p)
              (rw was at (h.placed.agrees p)) (rw was at (h.fits p))));
    free = (ground arith, ground arith);
    runs_now = inr refl;
  })
    where
      was : place p ≡ on_ready
      was = on_ready-is_on (place p) (ground (arith, h.placed.ready_once p, ap (occ p) e))
