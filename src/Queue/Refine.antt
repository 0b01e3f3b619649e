-- ===== src/Queue/Refine.antt =====
-- co_queue.h refines a double-ended list of addresses.
use libco.Base.{
  ℕ, suc, sym, ap, ◌↔◌, ◌<◌, ◌≡◌, refl, ◌≢◌, true, false, Option, none, some, List, [], ◌∷◌, ◌++◌,
  arith, ◌==◌, has, has-append, has-erase, length-erase, length-append, IsDistinct, IsDistinct-snoc,
  IsDistinct-erase, erase, length, word,
}
use libco.Queue.{
  Links, Queue, node_init, node_is_linked, init, empty, size, push_back, push_front, unlink, remove,
  pop_front, front, back,
}
use libco.Queue.Chain.{Chain}
use libco.Queue.Relink.{Skips, Chain-snoc, Chain-cons, Chain-erase, next-ne, prev-ne}

-- In the memory `m` the queue `q` holds the nodes `xs`, front first.
pub record Holds (m : Links) (q : Queue) (xs : List ℕ) : Type 0 where
  pub chain : Chain m q.head xs q.head
  pub distinct : IsDistinct (q.head ∷ xs)
  pub size : q.size ≡ length xs
  pub fits : length xs < word

-- A node outside the list of another queue, its sentinel included.
abbrev pub IsApart : ℕ → Queue → List ℕ → Type 0
IsApart n q xs = has n (q.head ∷ xs) ≡ false

pub init-Holds : (m : Links) (head : ℕ) → Holds (init m head).0 (init m head).1 []
unfolding init node_init
init-Holds m head = ground arith

pub push_back-Holds :
    (m : Links) (q : Queue) (xs : List ℕ) (n : ℕ)
    → Holds m q xs
    → IsApart n q xs
    → suc (length xs) < word
    → Holds (push_back m q n).0 (push_back m q n).1 (xs ++ n ∷ [])
unfolding push_back
push_back-Holds m q xs n h out fit = record {
  chain =
      Chain-snoc m _ q.head xs q.head n (λ c. refl, λ c. refl) h.chain h.distinct h.distinct.0 out
        (ground arith);
  distinct = ground (arith, IsDistinct-snoc n xs, has-append q.head xs (n ∷ []));
  size = omega (arith, length-append xs (n ∷ []), h.size);
  fits = omega (arith, length-append xs (n ∷ []));
}

pub push_front-Holds :
    (m : Links) (q : Queue) (xs : List ℕ) (n : ℕ)
    → Holds m q xs
    → IsApart n q xs
    → suc (length xs) < word
    → Holds (push_front m q n).0 (push_front m q n).1 (n ∷ xs)
unfolding push_front
push_front-Holds m q xs n h out fit = record {
  chain =
      Chain-cons m _ q.head xs q.head n (λ c. refl, λ c. refl) h.chain h.distinct h.distinct out
        (ground arith);
  distinct = ground arith;
  size = omega (arith, h.size);
  fits = omega arith;
}

unlink-Skips : (m : Links) (n : ℕ) → m.next n ≢ n → m.prev n ≢ n → Skips m (unlink m n) n
unfolding unlink node_init
unlink-Skips m n h k = (λ c. ground arith, λ c. ground arith)

node_is_linked-mem :
    (m : Links) (q : Queue) (xs : List ℕ) (n : ℕ)
    → Holds m q xs
    → has n xs ≡ true
    → node_is_linked m n ≡ true
unfolding node_is_linked
node_is_linked-mem m q xs n h i = ground (arith, next-ne m q.head xs q.head n h.chain h.distinct.1)

-- Removing a node of the queue takes it out of the list and leaves it unlinked.
pub remove-Holds :
    (m : Links) (q : Queue) (xs : List ℕ) (n : ℕ)
    → Holds m q xs
    → has n xs ≡ true
    → Holds (remove m q n).0 (remove m q n).1 (erase n xs)
      × (node_is_linked (remove m q n).0 n ≡ false)
unfolding remove
remove-Holds m q xs n h i = rw (node_is_linked-mem m q xs n h i) (
  record {
    chain = Chain-erase m _ q.head xs q.head n w h.chain h.distinct h.distinct.0 i out out;
    distinct = (has-erase q.head n xs h.distinct.0, IsDistinct-erase n xs h.distinct.1);
    size = omega (arith, length-erase n xs i, h.size, h.fits);
    fits = omega (arith, length-erase n xs i, h.fits);
  },
  ground (arith, w.0 n),
)
  where
    out : n ≢ q.head
    out = ground arith

    w : Skips m (unlink m n) n
    w =
        unlink-Skips m n (next-ne m q.head xs q.head n h.chain h.distinct.1 i out)
          (prev-ne m q.head xs q.head n h.chain h.distinct i)

-- The list's side of `co_queue_pop_front`, `co_queue_front` and `co_queue_back`.
unfoldable pub first : List ℕ → Option ℕ
first [] = none
first (x ∷ xs) = some x

unfoldable pub rest : List ℕ → List ℕ
rest [] = []
rest (x ∷ xs) = xs

unfoldable pub last : List ℕ → Option ℕ
last [] = none
last (x ∷ []) = some x
last (x ∷ y ∷ xs) = last (y ∷ xs)

pub head-remove : (m : Links) (q : Queue) (n : ℕ) → (remove m q n).1.head ≡ q.head
unfolding remove
head-remove m q n = ground arith

pub pop_front-remove :
    (m : Links) (q : Queue) (x : ℕ) (xs : List ℕ)
    → Holds m q (x ∷ xs)
    → pop_front m q ≡ (some x, (remove m q x).0, (remove m q x).1)
unfolding pop_front
pop_front-remove m q x xs h =
    let more : (q.size == 0) ≡ false = ground (arith, h.size) in rw (more, h.chain.0.forth)

pub remove-front :
    (m : Links) (q : Queue) (x : ℕ) (xs : List ℕ)
    → Holds m q (x ∷ xs)
    → Holds (remove m q x).0 (remove m q x).1 xs
remove-front m q x xs h = rw same at (remove-Holds m q (x ∷ xs) x h (ground arith)).0
  where
    same : erase x (x ∷ xs) ≡ xs
    same = ground arith

-- What a pop from a queue of these nodes leaves.
abbrev pub PopResult : Links → Queue → List ℕ → Option ℕ × Links × Queue → Type 0
PopResult m q [] (node, m', q') = (node ≡ none) × (m' ≡ m) × (q' ≡ q)
PopResult m q (x ∷ xs) (node, m', q') =
    (node ≡ some x) × Holds m' q' xs × (node_is_linked m' x ≡ false)

-- On a queue that holds a list, `co_queue_pop_front` takes the first node, leaves the others in
-- order, and leaves the node that it returns unlinked; on an empty queue it returns NULL and
-- changes nothing.
pub pop_front-PopResult :
    (m : Links) (q : Queue) (xs : List ℕ) → Holds m q xs → PopResult m q xs (pop_front m q)
unfolding pop_front
pop_front-PopResult m q [] h =
    let none_left : (q.size == 0) ≡ true = ground (arith, h.size) in rw none_left (refl, refl, refl)
pop_front-PopResult m q (x ∷ xs) h =
    rw (pop_front-remove m q x xs h)
      (refl, remove-front m q x xs h, (remove-Holds m q (x ∷ xs) x h (ground arith)).1)

pub pop_front-first :
    (m : Links) (q : Queue) (xs : List ℕ)
    → Holds m q xs
    → let (node, m', q') = pop_front m q in (node ≡ first xs) × Holds m' q' (rest xs)
unfolding first rest
pop_front-first m q [] h = let (a, b, c) = pop_front-PopResult m q [] h in rw (a, b, c) (refl, h)
pop_front-first m q (x ∷ xs) h = let (a, b, c) = pop_front-PopResult m q (x ∷ xs) h in (a, b)

prev-last :
    (m : Links) (a x : ℕ) (xs : List ℕ) (b : ℕ)
    → Chain m a (x ∷ xs) b
    → last (x ∷ xs) ≡ some (m.prev b)
unfolding last
prev-last m a x [] b c = ground arith
prev-last m a x (y ∷ xs) b c = prev-last m x y xs b c.1

-- On a queue that holds a list, size, front and back are the length, the first and the last of the
-- list, and empty is true exactly if the list is empty.
pub queries-agree :
    (m : Links) (q : Queue) (xs : List ℕ)
    → Holds m q xs
    → (size q ≡ length xs)
      × (front m q ≡ first xs)
      × (back m q ≡ last xs)
      × ((empty q ≡ true) ↔ (xs ≡ []))
unfolding size front back first empty last
queries-agree m q [] h = let none_left : q.size ≡ 0 = h.size in ground (arith, none_left)
queries-agree m q (x ∷ xs) h =
    let more : (q.size == 0) ≡ false = ground (arith, h.size) in
    (
      h.size,
      rw more (ap some h.chain.0.forth),
      rw more (sym (prev-last m q.head x xs q.head h.chain)),
      (λ e. cc, λ e. cc),
    )
