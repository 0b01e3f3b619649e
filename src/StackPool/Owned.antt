-- ===== src/StackPool/Owned.antt =====
-- Who holds a stack: the pool's cache, or a coroutine.
use libco.Base.{
  ℕ, ap, suc, ◌+◌, ◌≤◌, ◌<◌, ◌≡◌, refl, true, false, Option, none, some, List, ◌∷◌, arith, ltb,
  ◌==◌, if◌then◌else◌, store, inc, word, has, erase, length, length-erase, Bool-cases, inl, inr,
}
use libco.Base.Tally.{tally, tally-pred, tally-store_out, occ, occ-erase}
use libco.StackPool.{StackPool, alloc, free}

-- The pool, with the stacks that it has handed out and not got back.
pub record Owned (pool : StackPool) (used : List ℕ) : Type 0 where
  pub within : pool.count ≤ pool.capacity
  -- No stack is held twice: not in the cache, not by two coroutines, not by both.
  pub once : (x : ℕ) → tally x pool.count pool.stacks + occ x used ≤ 1
  pub counted : pool.stats.current_used ≡ length used
  pub fits : length used < word

-- A stack that nobody holds, as `malloc` returns.
abbrev pub IsFresh : StackPool → List ℕ → ℕ → Type 0
IsFresh pool used x = tally x pool.count pool.stacks + occ x used ≡ 0

-- An answer of `malloc`: NULL, or a stack that nobody holds.
abbrev pub IsAnswer : StackPool → List ℕ → Option ℕ → Type 0
IsAnswer pool used none = Unit {0}
IsAnswer pool used (some x) = IsFresh pool used x

-- What a call of alloc leaves: the stack it returns is the caller's alone. It returns NULL only
-- if the cache is empty and `malloc` failed, and then still counts a stack in use.
abbrev pub Allocated : StackPool → List ℕ → Option ℕ → Option ℕ → StackPool → Type 0
Allocated pool used malloc none pool' =
    (pool.count ≡ 0) × (malloc ≡ none) × (pool'.stats.current_used ≡ inc (length used))
Allocated pool used malloc (some x) pool' = Owned pool' (x ∷ used)

-- With a stack that is handed out, and with whatever malloc answers as long as it is no stack in
-- the cache or in use, the pool still knows every stack once; alloc returns NULL only if the cache
-- is empty and malloc failed, and then counts a stack in use that is not.
pub alloc-Allocated :
    (malloc : Option ℕ) (pool : StackPool) (used : List ℕ)
    → Owned pool used
    → IsAnswer pool used malloc
    → suc (length used) < word
    → Allocated pool used malloc (alloc malloc pool).0 (alloc malloc pool).1
unfolding alloc
alloc-Allocated malloc pool used o a f = elim (Bool-cases (ltb 0 pool.count)) [
  | inl hit ↦ rw hit (record {
    within = omega (arith, o.within);
    once = λ x. ground (arith, hit, o.once x, tally-pred x pool.count pool.stacks);
    counted = omega (arith, o.counted);
    fits = f;
  })
  | inr miss ↦ rw miss (missed malloc a miss)
]
  where
    missed :
        (m : Option ℕ)
        → IsAnswer pool used m
        → ltb 0 pool.count ≡ false
        → Allocated pool used m m (record pool {
          stats = record pool.stats {
            total_allocs = inc pool.stats.total_allocs;
            cache_misses = inc pool.stats.cache_misses;
            current_used = inc pool.stats.current_used;
          };
        })
    missed none b e = (ground (arith, e), refl, ap inc o.counted)
    missed (some x) b e = record {
      within = o.within;
      once = λ y. ground (arith, o.once y);
      counted = omega (arith, o.counted);
      fits = f;
    }

-- Whether a stack is the one that goes back to the C library.
abbrev pub given_back : ℕ → Option ℕ → ℕ
given_back x none = 0
given_back x (some y) = if x == y then 1 else 0

-- A stack in use that is returned is cached or given back to the C library, never both and never
-- neither. The pool then knows it as in use no longer, and holds every stack once.
pub free-Owned :
    (pool : StackPool) (used : List ℕ) (stack : ℕ)
    → Owned pool used
    → has stack used ≡ true
    → let (pool', given) = free pool stack in
      Owned pool' (erase stack used)
      × ((x : ℕ)
          → tally x pool'.count pool'.stacks + given_back x given
            ≡ tally x pool.count pool.stacks + (if x == stack then 1 else 0))
unfolding free
free-Owned pool used stack o h = elim (Bool-cases (ltb pool.count pool.capacity)) [
  | inl room ↦ rw room (
    record {
      within = ground arith;
      once = λ x. ground (arith, o.once x, one_more x, cached x, occ-erase x stack used h);
      counted = omega (arith, o.counted, o.fits, length-erase stack used h);
      fits = omega (arith, o.fits, length-erase stack used h);
    },
    λ x. ground (arith, one_more x, cached x),
  )
  | inr full ↦ rw full (
    record {
      within = o.within;
      once = λ x. ground (arith, o.once x, occ-erase x stack used h);
      counted = omega (arith, o.counted, o.fits, length-erase stack used h);
      fits = omega (arith, o.fits, length-erase stack used h);
    },
    λ x. refl,
  )
]
  where
    stacks : ℕ → ℕ
    stacks = store pool.stacks pool.count stack

    one_more : (x : ℕ) → tally x (pool.count + 1) stacks ≡ tally x (suc pool.count) stacks
    one_more x = ap (λ (n : ℕ). tally x n stacks) {y = suc pool.count} (omega arith)

    cached :
        (x : ℕ)
        → tally x (suc pool.count) stacks
          ≡ tally x pool.count pool.stacks + (if x == stack then 1 else 0)
    cached x = ground (arith, tally-store_out x pool.count pool.stacks pool.count stack)
