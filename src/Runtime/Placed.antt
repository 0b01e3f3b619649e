-- ===== src/Runtime/Placed.antt =====
-- The discipline of the shared queue nodes: every coroutine is on at most one queue, and its state
-- says which kind.
use libco.Base.{ℕ, ◌<◌, ap, ◌+◌, ◌≡◌, List, [], ◌∷◌, ◌++◌, arith, ◌==◌, if◌then◌else◌, store}
use libco.Base.Tally.{occ}
use libco.Runtime.{World, State, ready, waiting, wake, block, set_queue}

-- Where a coroutine's node is linked.
pub data Place : Type 0 where
  nowhere : Place
  on_ready : Place
  on_queue : ℕ → Place

abbrev pub is_on_ready : Place → ℕ
is_on_ready nowhere = 0
is_on_ready on_ready = 1
is_on_ready (on_queue q) = 0

abbrev pub is_on : ℕ → Place → ℕ
is_on q nowhere = 0
is_on q on_ready = 0
is_on q (on_queue r) = if r == q then 1 else 0

abbrev pub Agrees : Place → State → Type 0
Agrees nowhere s = Unit {0}
Agrees on_ready s = s ≡ ready
Agrees (on_queue q) s = s ≡ waiting

-- `place` is where each coroutine is: it is linked there once, and nowhere else.
pub record Placed (w : World) (place : ℕ → Place) : Type 0 where
  pub ready_once : (p : ℕ) → occ p w.sched.ready_queue ≡ is_on_ready (place p)
  pub queue_once : (p q : ℕ) → occ p (w.queues q) ≡ is_on q (place p)
  pub agrees : (p : ℕ) → Agrees (place p) (w.routines p).state

pub occ-snoc : (x y : ℕ) (xs : List ℕ) → occ x (xs ++ y ∷ []) ≡ occ x xs + (if x == y then 1 else 0)
occ-snoc x y [] = ground arith
occ-snoc x y (z ∷ xs) = ground (arith, occ-snoc x y xs)

-- A coroutine that is on no queue is woken or blocked: it is then on that one queue.
pub wake-Placed :
    (w : World) (place : ℕ → Place) (p : ℕ)
    → Placed w place
    → place p ≡ nowhere
    → Placed (wake w p) (store place p on_ready)
unfolding wake
wake-Placed w place p h e = record {
  ready_once = λ x. ground (arith, h.ready_once x, occ-snoc x p w.sched.ready_queue);
  queue_once = λ x q. ground (arith, h.queue_once x q);
  agrees = λ x. ground (arith, h.agrees x);
}

pub block-Placed :
    (w : World) (place : ℕ → Place) (q p : ℕ)
    → Placed w place
    → place p ≡ nowhere
    → Placed (block w q p) (store place p (on_queue q))
unfolding block
block-Placed w place q p h e = record {
  ready_once = λ x. ground (arith, h.ready_once x);
  queue_once = λ x r. ground (arith, h.queue_once x r, occ-snoc x p (w.queues q));
  agrees = λ x. ground (arith, h.agrees x);
}

pub on_queue-is_on : (q : ℕ) (a : Place) → 0 < is_on q a → a ≡ on_queue q
on_queue-is_on q nowhere h = absurd (omega arith)
on_queue-is_on q on_ready h = absurd (omega arith)
on_queue-is_on q (on_queue r) h = ground arith

pub front-on :
    (w : World) (place : ℕ → Place) (q p : ℕ) (rest : List ℕ)
    → Placed w place
    → w.queues q ≡ p ∷ rest
    → place p ≡ on_queue q
front-on w place q p rest h e =
    on_queue-is_on q (place p) (ground (arith, h.queue_once p q, ap (occ p) e))

-- The front of a wait queue is taken off it.
pub pop-Placed :
    (w : World) (place : ℕ → Place) (q p : ℕ) (rest : List ℕ)
    → Placed w place
    → w.queues q ≡ p ∷ rest
    → Placed (set_queue w q rest) (store place p nowhere)
pop-Placed w place q p rest h e = record {
  ready_once = λ x. ground (arith, h.ready_once x, front-on w place q p rest h e);
  queue_once = λ x r.
      ground
        (arith, h.queue_once x r, h.queue_once x q, front-on w place q p rest h e, ap (occ x) e);
  agrees = λ x. ground (arith, h.agrees x);
}
