-- ===== src/Queue/Separate.antt =====
-- Queues that share no node do not disturb each other, and a node that moves between two of them.
use libco.Base.{
  ℕ, suc, ◌<◌, ◌≡◌, refl, true, false, some, List, [], ◌∷◌, ◌++◌, arith, Bool-cases, inl, inr, has,
  has-append, IsDistinct, length, word,
}
use libco.Queue.{Links, Queue, node_init, push_back, unlink, remove, pop_front}
use libco.Queue.Chain.{Chain-frame, last-mem, prev-mem, next-mem}
use libco.Queue.Refine.{
  Holds, IsApart, push_back-Holds, pop_front-remove, remove-front, head-remove,
}

-- The memory `g` agrees with `m` on the nodes of `xs`.
abbrev pub SameOn : List ℕ → Links → Links → Type 0
SameOn xs m g = (c : ℕ) → has c xs ≡ true → (g.next c ≡ m.next c) × (g.prev c ≡ m.prev c)

abbrev pub AreApart : Queue → List ℕ → Queue → List ℕ → Type 0
AreApart q xs r ys = (c : ℕ) → has c (r.head ∷ ys) ≡ true → has c (q.head ∷ xs) ≡ false

pub Holds-frame :
    (m g : Links) (q : Queue) (xs : List ℕ) → SameOn (q.head ∷ xs) m g → Holds m q xs → Holds g q xs
Holds-frame m g q xs same h = record {
  chain =
      Chain-frame m g q.head xs q.head h.chain (λ c i. (same c i).0)
        (λ c i. (same c (ground (arith, has-append c xs (q.head ∷ [])))).1);
  distinct = h.distinct;
  size = h.size;
  fits = h.fits;
}

pub push_back-SameOn :
    (m : Links) (q r : Queue) (xs ys : List ℕ) (n : ℕ)
    → Holds m q xs
    → AreApart q xs r ys
    → IsApart n r ys
    → SameOn (r.head ∷ ys) m (push_back m q n).0
unfolding push_back
push_back-SameOn m q r xs ys n h apart out c i =
    ground (arith, apart c i, last-mem m q.head xs q.head h.chain)

pub remove-SameOn :
    (m : Links) (q r : Queue) (xs ys : List ℕ) (n : ℕ)
    → Holds m q xs
    → AreApart q xs r ys
    → has n xs ≡ true
    → SameOn (r.head ∷ ys) m (remove m q n).0
unfolding remove unlink node_init
remove-SameOn m q r xs ys n h apart j c i = ground (
  arith,
  apart c i,
  prev-mem m q.head xs q.head n h.chain,
  next-mem m q.head xs q.head n h.chain,
  has-append (m.next n) xs (q.head ∷ []),
)

not-mem-rest : (x a : ℕ) (xs : List ℕ) → IsDistinct (a ∷ x ∷ xs) → has x (a ∷ xs) ≡ false
not-mem-rest x a xs d = ground arith

-- Let two queues of different nodes hold lists, the first not empty, with room for one more in the
-- count of the second. When the front node of the first is moved to the back of the second, both
-- hold the lists that one expects, although the two share the node's link fields.
pub pop_front-push_back :
    (m : Links) (q r : Queue) (x : ℕ) (xs ys : List ℕ)
    → Holds m q (x ∷ xs)
    → Holds m r ys
    → AreApart q (x ∷ xs) r ys
    → suc (length ys) < word
    → let (node, m1, q') = pop_front m q in
      let (m2, r') = push_back m1 r x in
      (node ≡ some x) × Holds m2 q' xs × Holds m2 r' (ys ++ x ∷ [])
pop_front-push_back m q r x xs ys h k apart fit = rw (pop_front-remove m q x xs h) (
  refl,
  Holds-frame m1 _ q' xs (push_back-SameOn m1 r q' ys xs x k' away out') (remove-front m q x xs h),
  push_back-Holds m1 r ys x k' out fit,
)
  where
    m1 : Links
    m1 = (remove m q x).0

    q' : Queue
    q' = (remove m q x).1

    k' : Holds m1 r ys
    k' = Holds-frame m m1 r ys (remove-SameOn m q r (x ∷ xs) ys x h apart (ground arith)) k

    out : IsApart x r ys
    out = elim (Bool-cases (has x (r.head ∷ ys))) [ inl i ↦ ground (arith, apart x i) | inr o ↦ o ]

    out' : IsApart x q' xs
    out' = rw head-remove (not-mem-rest x q.head xs h.distinct)

    away : AreApart r ys q' xs
    away c i = elim (Bool-cases (has c (r.head ∷ ys))) [
      | inl j ↦ ground (arith, apart c j, head-remove m q x)
      | inr o ↦ o
    ]
