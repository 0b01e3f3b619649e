-- ===== src/Queue/Deque.antt =====
-- Sequences of calls of co_queue.h against the same calls on a list.
use libco.Base.{
  ℕ, suc, ◌<◌, ◌≡◌, refl, true, false, Option, List, [], ◌∷◌, ◌++◌, arith, has, erase, length, word,
}
use libco.Queue.{Links, Queue, push_back, push_front, remove, pop_front}
use libco.Queue.Refine.{
  Holds, push_back-Holds, push_front-Holds, pop_front-first, remove-Holds, head-remove, first, rest,
}

-- A call, with the node that it is given.
pub data Call : Type 0 where
  back_in front_in out : ℕ → Call
  pop : Call

-- What `co_queue_pop_front` returns is the reply; the other calls return nothing.
unfoldable pub run : Links → Queue → List Call → List (Option ℕ) × Links × Queue
run m q [] = ([], m, q)
run m q (back_in n ∷ cs) = let (m', q') = push_back m q n in run m' q' cs
run m q (front_in n ∷ cs) = let (m', q') = push_front m q n in run m' q' cs
run m q (out n ∷ cs) = let (m', q') = remove m q n in run m' q' cs
run m q (pop ∷ cs) =
    let (r, m', q') = pop_front m q in let (rs, m2, q2) = run m' q' cs in (r ∷ rs, m2, q2)

-- The calls on a list, front first.
unfoldable pub spec : List ℕ → List Call → List (Option ℕ) × List ℕ
spec xs [] = ([], xs)
spec xs (back_in n ∷ cs) = spec (xs ++ n ∷ []) cs
spec xs (front_in n ∷ cs) = spec (n ∷ xs) cs
spec xs (out n ∷ cs) = spec (erase n xs) cs
spec xs (pop ∷ cs) = let (rs, ys) = spec (rest xs) cs in (first xs ∷ rs, ys)

-- The callers keep to this: a node that is added is on no list and is not the sentinel, a node
-- that is removed is on this one, and the size fits a `size_t`.
abbrev pub IsAllowed : ℕ → List ℕ → List Call → Type 0
IsAllowed head xs [] = Unit {0}
IsAllowed head xs (back_in n ∷ cs) =
    (has n (head ∷ xs) ≡ false) × (suc (length xs) < word) × IsAllowed head (xs ++ n ∷ []) cs
IsAllowed head xs (front_in n ∷ cs) =
    (has n (head ∷ xs) ≡ false) × (suc (length xs) < word) × IsAllowed head (n ∷ xs) cs
IsAllowed head xs (out n ∷ cs) = (has n xs ≡ true) × IsAllowed head (erase n xs) cs
IsAllowed head xs (pop ∷ cs) = IsAllowed head (rest xs) cs

head-pop_front : (m : Links) (q : Queue) (xs : List ℕ) → (pop_front m q).2.head ≡ q.head
unfolding pop_front
head-pop_front m q xs = ground (arith, head-remove m q (m.next q.head))

-- From any queue that holds a list, a sequence of calls that is allowed there (only nodes on no
-- list are pushed, only nodes of this one removed, and the size fits) returns what the list
-- operations return, and leaves a queue that holds the final list.
pub run-spec :
    (cs : List Call) (m : Links) (q : Queue) (xs : List ℕ)
    → Holds m q xs
    → IsAllowed q.head xs cs
    → let (replies, m', q') = run m q cs in (replies ≡ (spec xs cs).0) × Holds m' q' (spec xs cs).1
unfolding run spec
run-spec [] m q xs h ok = (refl, h)
run-spec (back_in n ∷ cs) m q xs h ok =
    run-spec cs _ _ (xs ++ n ∷ []) (push_back-Holds m q xs n h ok.0 ok.1) (unfold push_back in ok.2)
run-spec (front_in n ∷ cs) m q xs h ok =
    run-spec cs _ _ (n ∷ xs) (push_front-Holds m q xs n h ok.0 ok.1) (unfold push_front in ok.2)
run-spec (out n ∷ cs) m q xs h ok =
    run-spec cs _ _ (erase n xs) (remove-Holds m q xs n h ok.0).0 (rw head-remove ok.1)
run-spec (pop ∷ cs) m q xs h ok =
    let popped = pop_front-first m q xs h in
    let later =
      run-spec cs (pop_front m q).1 (pop_front m q).2 (rest xs) popped.1
        (rw (head-pop_front m q xs) ok) in
    (ground (arith, popped.0, later.0), later.1)
