-- ===== src/Mutex/Tests.antt =====
-- Two coroutines, 50 and 51, and the mutex at 300.
use libco.Base.{◌≡◌, refl, some, [], ◌∷◌, arith}
use libco.Runtime.{World, world, current}
use libco.Runtime.Samples.{sample, switch}
use libco.Mutex.{lock, unlock}
use libco.Mutex.Fifo.{Run, start, acquired, waited, released, elsewhere, IsFair, Run-IsFair}

abbrev held : World
held = world (lock sample 300)

-- Coroutine 51 finds the mutex held, and then 50 unlocks it.
abbrev contended : World
contended = world (lock (switch held 51) 300)

abbrev passed : World
passed = (unlock (switch contended 50) 300).1

hand_over :
    (contended.queues 300 ≡ 51 ∷ [])
    × ((passed.mutexes 300).owner ≡ some 51)
    × (passed.sched.ready_queue ≡ 51 ∷ [])
unfolding lock unlock
hand_over = (refl, refl, refl)

turns : Run 300 passed (50 ∷ 51 ∷ []) (50 ∷ 51 ∷ [])
unfolding lock unlock current
turns =
    released {w = switch contended 50}
      (elsewhere {v = switch contended 50}
        (waited 51
          (elsewhere {v = switch held 51}
            (acquired 50 (start {w = sample} refl refl refl) refl refl) refl refl)
          refl refl)
        refl refl)
      refl refl

Run-IsFair_example : IsFair (passed.mutexes 300) (passed.queues 300) (50 ∷ 51 ∷ []) (50 ∷ 51 ∷ [])
Run-IsFair_example = Run-IsFair 300 (omega arith) turns
