-- ===== src/StackPool.antt =====
-- libco/src/co_stack_pool.c: the cache of coroutine stacks.
-- A stack is an address. The pointer array is a function of the index. What `malloc` and `calloc`
-- return is a parameter of the calls that use them.
pub mod Owned
pub mod Trace
mod Tests
use libco.Base.{
  ℕ, zero, suc, ◌+◌, ◌-◌, Bool, true, false, Option, none, some, List, [], ◌∷◌, ltb, ◌==◌,
  if◌then◌else◌, store, inc, dec,
}

-- `co_stack_pool_stats_t`.
pub record Stats : Type 0 where
  pub total_allocs : ℕ
  pub total_frees : ℕ
  pub cache_hits : ℕ
  pub cache_misses : ℕ
  pub current_used : ℕ

abbrev pub no_stats : Stats
no_stats = record {
  total_allocs = 0;
  total_frees = 0;
  cache_hits = 0;
  cache_misses = 0;
  current_used = 0;
}

-- `struct co_stack_pool`.
pub record StackPool : Type 0 where
  pub stack_size : ℕ
  pub stacks : ℕ → ℕ
  pub capacity : ℕ
  pub count : ℕ
  pub stats : Stats

-- `calloc` says whether each request, a count and a size, is met; a pool has 72 bytes, a pointer 8.
unfoldable pub create :
    (calloc : ℕ → ℕ → Bool) → (stack_size initial_capacity : ℕ) → Option StackPool
create calloc stack_size initial_capacity =
    let pool : StackPool = record {
      stack_size = stack_size;
      stacks = λ _. 0;
      capacity = initial_capacity;
      count = 0;
      stats = no_stats;
    } in
    if stack_size == 0
    then none
    else if calloc 1 72
    then (if ltb 0 initial_capacity
        then (if calloc initial_capacity 8 then some pool else none)
        else some pool)
    else none

-- The stacks that `co_stack_pool_destroy` frees, in order.
destroy_loop : (left i : ℕ) → (ℕ → ℕ) → List ℕ
destroy_loop zero i stacks = []
destroy_loop (suc left) i stacks = stacks i ∷ destroy_loop left (suc i) stacks

unfoldable pub destroy : StackPool → List ℕ
unfolding destroy_loop
destroy pool = destroy_loop pool.count 0 pool.stacks

-- `co_stack_pool_alloc`, where `malloc` is the answer to the request for a new stack.
unfoldable pub alloc : (malloc : Option ℕ) → StackPool → Option ℕ × StackPool
alloc malloc pool =
    let s = pool.stats in
    let hit = record s {
      total_allocs = inc s.total_allocs;
      cache_hits = inc s.cache_hits;
      current_used = inc s.current_used;
    } in
    let miss = record s {
      total_allocs = inc s.total_allocs;
      cache_misses = inc s.cache_misses;
      current_used = inc s.current_used;
    } in
    if ltb 0 pool.count
    then (some (pool.stacks (pool.count - 1)), record pool { count = pool.count - 1; stats = hit })
    else (malloc, record pool { stats = miss })

-- `co_stack_pool_free`, with the stack that it gives back to the C library, if any.
unfoldable pub free : StackPool → ℕ → StackPool × Option ℕ
free pool stack =
    let s = pool.stats in
    let counted = record s { total_frees = inc s.total_frees; current_used = dec s.current_used } in
    if ltb pool.count pool.capacity
    then (
      record pool {
        stacks = store pool.stacks pool.count stack;
        count = pool.count + 1;
        stats = counted;
      },
      none,
    )
    else (record pool { stats = counted }, some stack)

unfoldable pub available : StackPool → ℕ
available pool = pool.count

unfoldable pub get_stats : StackPool → Stats
get_stats pool = pool.stats

-- The other counters restart; the number of stacks in use is kept.
unfoldable pub reset_stats : StackPool → StackPool
reset_stats pool = record pool {
  stats = record no_stats { current_used = pool.stats.current_used };
}
