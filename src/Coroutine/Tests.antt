-- ===== src/Coroutine/Tests.antt =====
-- Spawning and destroying the coroutine at 60.
use libco.Base.{ℕ, ◌≡◌, refl, true, Option, some, [], ◌∷◌, arith}
use libco.StackPool.Owned.{Owned}
use libco.Runtime.{World}
use libco.Runtime.Samples.{sample}
use libco.Coroutine.{spawn}
use libco.Coroutine.Stacks.{Spawned, spawn-Spawned}

sample-Owned : Owned sample.sched.stack_pool []
sample-Owned = record {
  within = omega arith;
  once = λ x. omega arith;
  counted = refl;
  fits = omega arith;
}

abbrev spawned : Option ℕ × World
spawned = spawn (some 60) (some 7000) true true sample 9 5 0

spawn-Spawned_example : Spawned (some 7000) sample [] 9 5 spawned
spawn-Spawned_example =
    spawn-Spawned (some 60) (some 7000) true true sample 9 5 0 [] sample-Owned refl (omega arith)

spawned-Owned : Owned spawned.1.sched.stack_pool (7000 ∷ [])
unfolding spawn
spawned-Owned = record {
  within = omega arith;
  once = λ x. ground arith;
  counted = refl;
  fits = omega arith;
}

-- A coroutine that asks for more than the pool's size gets a stack of the pool's size, and its
-- context is told the larger size.
oversized :
    let v = (spawn (some 60) (some 7000) true true sample 9 5 1000000).1 in
    (v.sched.stack_pool.stack_size ≡ 131072) × ((v.routines 60).context.stack_size ≡ 1000000)
unfolding spawn
oversized = (refl, refl)
