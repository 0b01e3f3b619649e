-- ===== src/StackPool/Trace.antt =====
-- The life of a pool: every sequence of allocations and returns, its creation and its end.
use libco.Base.{
  ℕ, ap, zero, suc, ◌+◌, ◌-◌, ◌<◌, ◌%◌, ◌≡◌, refl, Bool, true, Option, some, List, [], ◌∷◌, arith,
  ltb, word, has, erase, length, Bool-cases, inl, inr,
}
use libco.Base.Tally.{tally, tally-store_out, occ}
use libco.StackPool.{
  StackPool, Stats, no_stats, create, alloc, free, destroy, destroy_loop, reset_stats,
}
use libco.StackPool.Owned.{Owned, IsAnswer, alloc-Allocated, free-Owned}

-- What the pool's users may do: ask for a stack, while `malloc` can answer, and return one.
pub data Reach (start : StackPool) : StackPool → List ℕ → Type 0 where
  created : Reach start start []
  allocated :
      {pool : StackPool} {used : List ℕ} (malloc : Option ℕ) (x : ℕ)
      → Reach start pool used
      → IsAnswer pool used malloc
      → suc (length used) < word
      → (alloc malloc pool).0 ≡ some x
      → Reach start (alloc malloc pool).1 (x ∷ used)
  returned :
      {pool : StackPool} {used : List ℕ} (stack : ℕ)
      → Reach start pool used
      → has stack used ≡ true
      → Reach start (free pool stack).0 (erase stack used)

create-eq :
    (calloc : ℕ → ℕ → Bool) (stack_size capacity : ℕ) {pool : StackPool}
    → create calloc stack_size capacity ≡ some pool
    → (pool.count ≡ 0) × (pool.stats ≡ no_stats)
unfolding create
create-eq calloc stack_size capacity e = ground arith

-- Every lookup, hit or miss, is counted once, and the stacks in use are those handed out less
-- those returned, modulo 2 ^ 64.
pub record AreConsistent (s : Stats) : Type 0 where
  pub lookups : s.total_allocs % word ≡ (s.cache_hits + s.cache_misses) % word
  pub balance : s.total_allocs % word ≡ (s.total_frees + s.current_used) % word

alloc-AreConsistent :
    (malloc : Option ℕ) (pool : StackPool)
    → AreConsistent pool.stats
    → AreConsistent (alloc malloc pool).1.stats
unfolding alloc
alloc-AreConsistent malloc pool c = elim (Bool-cases (ltb 0 pool.count)) [
  | inl hit ↦ rw hit (omega (arith, c.lookups, c.balance))
  | inr miss ↦ rw miss (omega (arith, c.lookups, c.balance))
]

free-AreConsistent :
    (pool : StackPool) (stack : ℕ)
    → AreConsistent pool.stats
    → AreConsistent (free pool stack).0.stats
unfolding free
free-AreConsistent pool stack c = elim (Bool-cases (ltb pool.count pool.capacity)) [
  | inl room ↦ rw room (omega (arith, c.lookups, c.balance))
  | inr full ↦ rw full (omega (arith, c.lookups, c.balance))
]

-- From the creation of a pool on, whatever its users ask for and return, as long as malloc answers
-- only with stacks that are not held and somebody gets one, the pool is within its capacity, no
-- stack is held twice, and the statistics add up.
pub Reach-Owned :
    (calloc : ℕ → ℕ → Bool) (stack_size capacity : ℕ) {start : StackPool} {pool : StackPool}
    {used : List ℕ}
    → create calloc stack_size capacity ≡ some start
    → Reach start pool used
    → Owned pool used × AreConsistent pool.stats
Reach-Owned calloc stack_size capacity {start} e created =
    let c = create-eq calloc stack_size capacity e in
    (
      record {
        within = omega (arith, c.0);
        once = λ x. rw c.0 (omega arith);
        counted = rw c.1;
        fits = omega arith;
      },
      rw c.1 (omega arith),
    )
Reach-Owned calloc stack_size capacity e (allocated {pool} {used} malloc x r a f got) =
    let ih = Reach-Owned calloc stack_size capacity e r in
    (rw got at (alloc-Allocated malloc pool used ih.0 a f), alloc-AreConsistent malloc pool ih.1)
Reach-Owned calloc stack_size capacity e (returned {pool} {used} stack r h) =
    let ih = Reach-Owned calloc stack_size capacity e r in
    ((free-Owned pool used stack ih.0 h).0, free-AreConsistent pool stack ih.1)

destroy_loop-tally :
    (x left i : ℕ) (a : ℕ → ℕ) → occ x (destroy_loop left i a) + tally x i a ≡ tally x (left + i) a
unfolding destroy_loop
destroy_loop-tally x zero i a = let e : 0 + i ≡ i = omega arith in rw e (omega arith)
destroy_loop-tally x (suc left) i a =
    let e : suc left + i ≡ left + suc i = omega arith in
    rw e (omega (arith, destroy_loop-tally x left (suc i) a))

-- The end of the pool frees every cached stack, each exactly once, and nothing else.
pub destroy-tally :
    (pool : StackPool) (x : ℕ) → occ x (destroy pool) ≡ tally x pool.count pool.stacks
unfolding destroy
destroy-tally pool x =
    let e : pool.count + 0 ≡ pool.count = omega arith in
    omega (
      arith,
      destroy_loop-tally x pool.count 0 pool.stacks,
      ap (λ (n : ℕ). tally x n pool.stacks) {y = pool.count} e,
    )

-- A stack that is returned to a pool with room is the next one handed out, whatever `malloc` would
-- answer, and then the cache holds what it held before.
pub alloc-free :
    (malloc : Option ℕ) (pool : StackPool) (stack : ℕ)
    → pool.count < pool.capacity
    → let (r, pool') = alloc malloc (free pool stack).0 in
      (r ≡ some stack)
      × (pool'.count ≡ pool.count)
      × ((x : ℕ) → tally x pool'.count pool'.stacks ≡ tally x pool.count pool.stacks)
unfolding alloc free
alloc-free malloc pool stack h =
    let room : ltb pool.count pool.capacity ≡ true = ground arith in
    let some_left : ltb 0 (pool.count + 1) ≡ true = ground arith in
    let e : pool.count + 1 - 1 ≡ pool.count = omega arith in
    rw (room, some_left, e)
      (
        ground arith,
        refl,
        λ x. tally-store_out x pool.count pool.stacks pool.count stack (omega arith),
      )

-- The counters restart, but for the stacks in use; so the next returns still balance.
pub reset_stats-Owned :
    (pool : StackPool) (used : List ℕ) → Owned pool used → Owned (reset_stats pool) used
unfolding reset_stats
reset_stats-Owned pool used o = record {
  within = o.within;
  once = o.once;
  counted = o.counted;
  fits = o.fits;
}
