-- ===== src/Queue/Chain.antt =====
-- Segments of a doubly linked list, as the lists of addresses that they run through.
use libco.Base.{ℕ, ◌≡◌, true, List, [], ◌∷◌, ◌++◌, arith, has}
use libco.Queue.{Links}

-- `b` follows `a`.
pub record Linked (m : Links) (a b : ℕ) : Type 0 where
  pub forth : m.next a ≡ b
  pub back : m.prev b ≡ a

-- From `a` the links lead through `xs` to `b`, and back.
abbrev pub Chain : Links → ℕ → List ℕ → ℕ → Type 0
Chain m a [] b = Linked m a b
Chain m a (x ∷ xs) b = Linked m a x × Chain m x xs b

-- The segment reads `next` at all its nodes but the last and `prev` at all but the first.
pub Chain-frame :
    (m g : Links) (a : ℕ) (xs : List ℕ) (b : ℕ)
    → Chain m a xs b
    → ((c : ℕ) → has c (a ∷ xs) ≡ true → g.next c ≡ m.next c)
    → ((c : ℕ) → has c (xs ++ b ∷ []) ≡ true → g.prev c ≡ m.prev c)
    → Chain g a xs b
Chain-frame m g a [] b c n p = ground (arith, n a, p b)
Chain-frame m g a (x ∷ xs) b c n p = (
  ground (arith, n a, p x),
  Chain-frame m g x xs b c.1 (λ d h. n d (ground arith)) (λ d h. p d (ground arith)),
)

-- The predecessor of the end is the last node.
pub last-mem :
    (m : Links) (a : ℕ) (xs : List ℕ) (b : ℕ) → Chain m a xs b → has (m.prev b) (a ∷ xs) ≡ true
last-mem m a [] b c = ground arith
last-mem m a (x ∷ xs) b c = ground (arith, last-mem m x xs b c.1)

-- The neighbours of a node of the segment are on it.
pub prev-mem :
    (m : Links) (a : ℕ) (xs : List ℕ) (b n : ℕ)
    → Chain m a xs b
    → has n xs ≡ true
    → has (m.prev n) (a ∷ xs) ≡ true
prev-mem m a [] b n c h = cc
prev-mem m a (x ∷ xs) b n c h = ground (arith, prev-mem m x xs b n c.1)

pub next-mem :
    (m : Links) (a : ℕ) (xs : List ℕ) (b n : ℕ)
    → Chain m a xs b
    → has n (a ∷ xs) ≡ true
    → has (m.next n) (xs ++ b ∷ []) ≡ true
next-mem m a [] b n c h = ground arith
next-mem m a (x ∷ xs) b n c h = ground (arith, next-mem m x xs b n c.1)
