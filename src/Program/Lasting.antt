-- ===== src/Program/Lasting.antt =====
-- When the main loop of libco/src/co_scheduler.c ends: with each round that goes on, less is left to do.
use libco.Base.{
  ℕ, zero, suc, ◌<◌, ◌≡◌, refl, ◌∙◌, Option, some, arith, inl, inr, Bool-cases, if_false,
}
use libco.Runtime.{World, Error, ok}
use libco.Scheduler.{Round, continues, breaks, round, run_loop}

-- The times of the rounds after the first.
abbrev pub later : (ℕ → ℕ) → ℕ → ℕ
later clock i = clock (suc i)

module _ (body : World → ℕ → Error × World) (poll : World → (timeout : ℕ) → World)
    (Going : (ℕ → ℕ) → World → Type 0) (work : (ℕ → ℕ) → World → ℕ) where
  -- A round after which the loop goes on leaves less work for the times that come, in a world that
  -- `Going` holds of, where it held before.
  abbrev pub Lessens : Type 0
  Lessens =
      (clock : ℕ → ℕ) (w v : World)
      → Going clock w
      → round body poll w (clock 0) ≡ continues v
      → Going (later clock) v × (work (later clock) v < work clock w)

  pub run_loop-lasts :
      Lessens
      → (k : ℕ) (clock : ℕ → ℕ) (w : World) → Going clock w
      → work clock w < k
      → (o : Error × World) × (run_loop body poll k clock w ≡ some o)
  unfolding run_loop
  run_loop-lasts less zero clock w g h = absurd (omega (arith, h))
  run_loop-lasts less (suc k) clock w g h = elim (Bool-cases w.sched.should_stop) [
    | inl stop ↦ ((ok, w), rw stop refl)
    | inr on ↦
        let (o, r) =
          go (λ v on fewer. run_loop-lasts less k (later clock) v on fewer)
            (round body poll w (clock 0)) refl in
        (o, if_false w.sched.should_stop _ _ on ∙ r)
  ]
    where
      go :
          ((v : World)
            → Going (later clock) v
            → work (later clock) v < k
            → (o : Error × World) × (run_loop body poll k (later clock) v ≡ some o))
          → (r : Round) → round body poll w (clock 0) ≡ r
          → (o : Error × World) × ((elim r as (λ (x : Round). Option (Error × World)) [
            | continues v ↦ run_loop body poll k (λ i. clock (suc i)) v
            | breaks e v ↦ some (e, v)
          ])
              ≡ some o)
      go rest (continues v) e =
          let (on, fewer) = less clock w v g e in rest v on (omega (arith, h, fewer))
      go rest (breaks e v) _ = ((e, v), refl)
