-- ===== src/Queue/Iterate.antt =====
-- The iteration macro of co_queue.h.
use libco.Base.{
  ℕ, suc, zero, ◌≡◌, false, Option, none, some, List, [], ◌∷◌, arith, ◌==◌, if◌then◌else◌, has,
  length,
}
use mathlib.Core.List.{foldl}
use libco.Queue.{Links, Queue}
use libco.Queue.Chain.{Chain}
use libco.Queue.Refine.{Holds}

module _ {S : Type 0} (body : S → ℕ → S) where
  -- `for (node = head.next; node != &head; node = node->next)` from `node`, on fuel. The body
  -- works on a state of its own and leaves the links alone.
  foreach_loop : ℕ → Links → ℕ → ℕ → S → Option S
  foreach_loop zero m head node s = none
  foreach_loop (suc k) m head node s =
      let rest = foreach_loop k m head (m.next node) (body s node) in
      if node == head then some s else rest

  unfoldable pub foreach : Links → Queue → S → Option S
  unfolding foreach_loop
  foreach m q s = foreach_loop (suc q.size) m q.head (m.next q.head) s

  foreach_loop-foldl :
      (m : Links) (a : ℕ) (xs : List ℕ) (b : ℕ) (s : S)
      → Chain m a xs b
      → has b xs ≡ false
      → foreach_loop (suc (length xs)) m b (m.next a) s ≡ some (foldl body s xs)
  unfolding foreach_loop
  foreach_loop-foldl m a [] b s c out = ground (arith, c.forth)
  foreach_loop-foldl m a (x ∷ xs) b s c out =
      let next : m.next a ≡ x = c.0.forth in
      let more : (x == b) ≡ false = ground arith in
      rw (next, more) (foreach_loop-foldl m x xs b (body s x) c.1 (ground arith))

  -- On a queue that holds a list, `co_queue_foreach` runs a body that leaves the links alone once
  -- for each node, from the front to the back, and ends.
  pub foreach-foldl :
      (m : Links) (q : Queue) (xs : List ℕ) (s : S)
      → Holds m q xs
      → foreach m q s ≡ some (foldl body s xs)
  unfolding foreach
  foreach-foldl m q xs s h =
      rw h.size (foreach_loop-foldl m q.head xs q.head s h.chain h.distinct.0)
