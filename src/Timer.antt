-- ===== src/Timer.antt =====
-- libco/src/co_timer.c: the min-heap of sleeping coroutines, ordered by wakeup time.
-- The array is a function of the index, so a `realloc` that grows it leaves arbitrary values in
-- the new slots; that no slot past the capacity is used is part of the theorems. The heap holds
-- pointers, and the wakeup times are read through them: `wakeup` is that field of every coroutine.
-- Indices stay below twice the count, so their arithmetic does not wrap.
pub mod Order
pub mod Up
mod Tests
pub mod Down
pub mod Pop
pub mod Push
pub mod Remove
use libco.Base.{
  ℕ, zero, suc, ◌+◌, ◌-◌, ◌*◌, ◌/◌, Bool, true, false, Option, none, some, ◌&&◌, ltb, leb, ◌==◌,
  if◌then◌else◌, store, mul_size, inc, dec,
}

-- `co_timer_heap_t`.
pub record TimerHeap : Type 0 where
  pub heap : ℕ → ℕ
  pub count : ℕ
  pub capacity : ℕ

abbrev pub parent : ℕ → ℕ
parent c = (c - 1) / 2

-- The search loop of `co_timer_heap_remove`, with `left` rounds to go.
unfoldable pub find : (left i routine : ℕ) → (ℕ → ℕ) → Option ℕ
find zero i routine a = none
find (suc left) i routine a = if a i == routine then some i else find left (suc i) routine a

module _ (wakeup : ℕ → ℕ) where
  -- The loop of `heap_sift_up`, with the write of `item` that follows it. It moves parents down
  -- into the hole at `idx`. `idx` rounds are enough, since the index falls in each.
  unfoldable pub sift_up_loop : ℕ → (ℕ → ℕ) → (item idx : ℕ) → ℕ → ℕ
  sift_up_loop zero a item idx = store a idx item
  sift_up_loop (suc k) a item idx =
      let rise = sift_up_loop k (store a idx (a (parent idx))) item (parent idx) in
      if ltb 0 idx
      then (if leb (wakeup (a (parent idx))) (wakeup item) then store a idx item else rise)
      else store a idx item

  unfoldable pub sift_up : (ℕ → ℕ) → (idx : ℕ) → ℕ → ℕ
  unfolding sift_up_loop
  sift_up a idx = sift_up_loop idx a (a idx) idx

  -- The smaller child of `idx`; the right one is read only if it exists.
  unfoldable pub smaller_child : (ℕ → ℕ) → (count idx : ℕ) → ℕ
  smaller_child a count idx =
      let child = 2 * idx + 1 in
      let right = child + 1 in
      if ltb right count && ltb (wakeup (a right)) (wakeup (a child)) then right else child

  -- The loop of `heap_sift_down`. The index grows in each round and stays below `count`.
  unfoldable pub sift_down_loop : ℕ → (ℕ → ℕ) → (count item idx : ℕ) → ℕ → ℕ
  unfolding smaller_child
  sift_down_loop zero a count item idx = store a idx item
  sift_down_loop (suc k) a count item idx =
      let child = smaller_child a count idx in
      let sink = sift_down_loop k (store a idx (a child)) count item child in
      if ltb idx (count / 2)
      then (if leb (wakeup item) (wakeup (a child)) then store a idx item else sink)
      else store a idx item

  unfoldable pub sift_down : (ℕ → ℕ) → (count idx : ℕ) → ℕ → ℕ
  unfolding sift_down_loop
  sift_down a count idx = sift_down_loop count a count (a idx) idx

  -- The end of `co_timer_heap_push`, past the check of the capacity.
  unfoldable pub insert : TimerHeap → ℕ → TimerHeap
  unfolding sift_up
  insert h routine = record h {
    heap = sift_up (store h.heap h.count routine) h.count;
    count = inc h.count;
  }

  -- `co_timer_heap_push`. `realloc` says whether a request for that many bytes is met; a pointer
  -- has 8 of them.
  unfoldable pub push : (realloc : ℕ → Bool) → TimerHeap → ℕ → Bool × TimerHeap
  unfolding insert
  push realloc h routine =
      let new_capacity = mul_size h.capacity 2 in
      let grown = record h { capacity = new_capacity } in
      if leb h.capacity h.count
      then (if realloc (mul_size new_capacity 8) then (true, insert grown routine) else (false, h))
      else (true, insert h routine)

  -- `co_timer_heap_pop`.
  -- The count is positive where it is lowered.
  unfoldable pub pop : TimerHeap → Option ℕ × TimerHeap
  unfolding sift_down
  pop h =
      let count = h.count - 1 in
      let moved = sift_down (store h.heap 0 (h.heap count)) count 0 in
      if h.count == 0 then (none, h) else (
        some (h.heap 0),
        record h { heap = if ltb 0 count then moved else h.heap; count = count },
      )

  -- Where the last element has taken the place of the one removed at `i`.
  unfoldable pub resift : (ℕ → ℕ) → (count i : ℕ) → ℕ → ℕ
  unfolding sift_up sift_down
  resift a count i =
      if ltb 0 i && ltb (wakeup (a i)) (wakeup (a (parent i)))
      then sift_up a i
      else sift_down a count i

  unfoldable pub remove_at : TimerHeap → ℕ → TimerHeap
  unfolding resift
  remove_at h i =
      let count = h.count - 1 in
      let moved = resift (store h.heap i (h.heap count)) count i in
      record h { heap = if ltb i count then moved else h.heap; count = count }

  -- `co_timer_heap_remove`.
  unfoldable pub remove : TimerHeap → ℕ → Bool × TimerHeap
  unfolding find remove_at
  remove h routine = elim (find h.count 0 routine h.heap) [
    | none ↦ (false, h)
    | some i ↦ (true, remove_at h i)
  ]

-- `co_timer_heap_init`; `calloc` says whether a request is met, and its memory is zeroed.
unfoldable pub init : (calloc : ℕ → ℕ → Bool) → ℕ → Option TimerHeap
init calloc initial_capacity =
    if initial_capacity == 0
    then none
    else if calloc initial_capacity 8
    then some (record { heap = λ _. 0; count = 0; capacity = initial_capacity })
    else none

unfoldable pub destroy : TimerHeap → TimerHeap
destroy h = record { heap = λ _. 0; count = 0; capacity = 0 }

unfoldable pub peek : TimerHeap → Option ℕ
peek h = if h.count == 0 then none else some (h.heap 0)

unfoldable pub size : TimerHeap → ℕ
size h = h.count

unfoldable pub empty : TimerHeap → Bool
empty h = h.count == 0
