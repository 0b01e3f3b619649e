-- ===== src/Scheduler/Turns.antt =====
-- The order in which `co_scheduler_schedule` lets coroutines run.
use libco.Base.{
  ℕ, zero, suc, ◌≡◌, refl, sym, ap, ◌∙◌, List, [], ◌∷◌, ◌++◌, length, ◌==◌, Bool-cases, inl, inr,
}
use mathlib.Core.List.{append_assoc, append-nil}
use libco.Runtime.{World, Error, set_sched}
use libco.Coroutine
use libco.Scheduler.Ready.{dequeue}
use libco.Scheduler.{schedule, schedule_next, enter, leave, is_dead}

-- Coroutines only add to the ready queue, at its end.
abbrev pub Appends : (World → ℕ → Error × World) → Type 0
Appends body =
    (w : World) (p : ℕ)
    → (more : List ℕ) × ((body w p).1.sched.ready_queue ≡ w.sched.ready_queue ++ more)

pub leave-ready : (w : World) (p : ℕ) → (leave w p).sched.ready_queue ≡ w.sched.ready_queue
unfolding leave Coroutine.destroy
leave-ready w p = elim (Bool-cases (is_dead (w.routines p).state)) [
  | inl d ↦ rw d (elim (Bool-cases (p == 0)) [ inl z ↦ rw z refl | inr n ↦ rw n refl ])
  | inr alive ↦ rw alive refl
]

module _ (body : World → ℕ → Error × World) where
  -- Some calls of schedule in a row.
  unfoldable pub turns : ℕ → World → World
  unfolding schedule
  turns zero w = w
  turns (suc k) w = turns k (schedule body w).1

  -- Turns of these coroutines, one after the other: each is taken off the ready queue and entered, does
  -- what it does in its turn, and is left.
  unfoldable pub played : List ℕ → World → World
  unfolding enter leave dequeue
  played [] w = w
  played (p ∷ ps) w = played ps (leave (body (enter (dequeue w).1 p) p).1 p)

  schedule-ready :
      Appends body
      → (w : World) (x : ℕ) (zs : List ℕ) → w.sched.ready_queue ≡ x ∷ zs
      → (more : List ℕ) × ((schedule body w).1.sched.ready_queue ≡ zs ++ more)
  unfolding schedule schedule_next dequeue
  schedule-ready a w x zs e =
      let w1 = set_sched w (record w.sched { ready_queue = zs }) in
      let (more, f) = a (enter w1 x) x in
      (more, rw (e, leave-ready (body (enter w1 x) x).1 x, f) (unfold enter in refl))

  schedule-played :
      (w : World) (x : ℕ) (zs : List ℕ)
      → w.sched.ready_queue ≡ x ∷ zs
      → (schedule body w).1 ≡ leave (body (enter (dequeue w).1 x) x).1 x
  unfolding schedule schedule_next dequeue
  schedule-played w x zs e = rw e refl

  -- If coroutines only ever append to the ready queue, then as many calls of schedule as there are
  -- coroutines at its front are a turn of each of these, in their order, and nothing else, whatever
  -- they do in their turns and however many others they make ready. Those behind them come next.
  pub turns-fifo :
      Appends body
      → (xs ys : List ℕ) (w : World) → w.sched.ready_queue ≡ xs ++ ys
      → (turns (length xs) w ≡ played xs w)
        × ((more : List ℕ) × ((turns (length xs) w).sched.ready_queue ≡ ys ++ more))
  unfolding turns played
  turns-fifo a [] ys w e = (refl, ([], rw e (sym (append-nil ys))))
  turns-fifo a (x ∷ xs) ys w e =
      let (more, f) = schedule-ready a w x (xs ++ ys) e in
      let (same, (more', g)) =
        turns-fifo a xs (ys ++ more) (schedule body w).1 (rw f (append_assoc xs ys more)) in
      (
        same ∙ ap (played xs) (schedule-played w x (xs ++ ys) e),
        (more ++ more', rw g (append_assoc ys more more')),
      )
