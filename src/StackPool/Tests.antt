-- ===== src/StackPool/Tests.antt =====
-- co_stack_pool.c at a pool with room for one stack.
use libco.Base.{ℕ, ◌≡◌, refl, Bool, true, some, [], ◌∷◌, arith, store}
use libco.StackPool.{StackPool, no_stats, create, alloc, free}
use libco.StackPool.Owned.{Owned}
use libco.StackPool.Trace.{Reach, created, allocated, returned, AreConsistent, Reach-Owned}

abbrev granted : ℕ → ℕ → Bool
granted count size = true

abbrev fresh : StackPool
fresh = record { stack_size = 4096; stacks = λ _. 0; capacity = 1; count = 0; stats = no_stats }

fresh-create : create granted 4096 1 ≡ some fresh
unfolding create
fresh-create = refl

-- One stack, 80, was handed out and returned: it is in the cache.
abbrev cached : StackPool
cached = record {
  stack_size = 4096;
  stacks = store (λ _. 0) 0 80;
  capacity = 1;
  count = 1;
  stats = record {
    total_allocs = 2;
    total_frees = 1;
    cache_hits = 0;
    cache_misses = 2;
    current_used = 1;
  };
}

cached-Owned : Owned cached (90 ∷ [])
cached-Owned = record {
  within = omega arith;
  once = λ x. ground arith;
  counted = refl;
  fits = omega arith;
}

-- Two stacks go out, the first comes back.
abbrev step1 : StackPool
step1 = (alloc (some 80) fresh).1

abbrev step2 : StackPool
step2 = (alloc (some 90) step1).1

life : Reach fresh (free step2 80).0 (90 ∷ [])
unfolding alloc free
life =
    returned 80
      (allocated (some 90) 90 (allocated (some 80) 80 created (ground arith) (omega arith) refl)
        (ground arith) (omega arith) refl)
      refl

Reach-Owned_example : Owned (free step2 80).0 (90 ∷ []) × AreConsistent (free step2 80).0.stats
Reach-Owned_example = Reach-Owned granted 4096 1 fresh-create life
