-- ===== src/Queue/Relink.antt =====
-- What the link updates of co_queue.h do to a segment.
use libco.Base.{
  ℕ, ◌≡◌, ◌≢◌, true, false, List, [], ◌∷◌, ◌++◌, arith, ◌==◌, if◌then◌else◌, Bool-cases, inl, inr,
  has, has-append, IsDistinct, erase,
}
use libco.Queue.{Links}
use libco.Queue.Chain.{Linked, Chain, Chain-frame, last-mem, prev-mem, next-mem}

-- The links that put `n` between `t` and `b`.
abbrev pub Between : Links → Links → ℕ → ℕ → ℕ → Type 0
Between m g t n b =
    ((c : ℕ) → g.next c ≡ (if t == c then n else if n == c then b else m.next c))
    × ((c : ℕ) → g.prev c ≡ (if b == c then n else if n == c then t else m.prev c))

pub Chain-snoc :
    (m g : Links) (a : ℕ) (xs : List ℕ) (b n : ℕ)
    → Between m g (m.prev b) n b
    → Chain m a xs b
    → IsDistinct (a ∷ xs)
    → has b xs ≡ false
    → has n (a ∷ xs) ≡ false
    → n ≢ b
    → Chain g a (xs ++ n ∷ []) b
Chain-snoc m g a [] b n w c d e f ne = ground (arith, w.0 a, w.0 n, w.1 n, w.1 b)
Chain-snoc m g a (x ∷ xs) b n w c d e f ne = (
  ground (arith, w.0 a, w.1 x, last-mem m x xs b c.1),
  Chain-snoc m g x xs b n w c.1 d.1 (ground arith) (ground arith) ne,
)

pub Chain-cons :
    (m g : Links) (a : ℕ) (xs : List ℕ) (b n : ℕ)
    → Between m g a n (m.next a)
    → Chain m a xs b
    → IsDistinct (a ∷ xs)
    → IsDistinct (b ∷ xs)
    → has n (a ∷ xs) ≡ false
    → n ≢ b
    → Chain g a (n ∷ xs) b
Chain-cons m g a [] b n w c d d' f ne = ground (arith, w.0 a, w.0 n, w.1 n, w.1 b)
Chain-cons m g a (x ∷ xs) b n w c d d' f ne = (
  ground (arith, w.0 a, w.1 n),
  (
    ground (arith, w.0 n, w.1 x),
    Chain-frame m g x xs b c.1 (λ k h. ground (arith, w.0 k))
        (λ k h. ground (arith, w.1 k, has-append k xs (b ∷ []))),
  ),
)

-- The links that skip `n`, which then points at itself.
abbrev pub Skips : Links → Links → ℕ → Type 0
Skips m g n =
    ((c : ℕ) → g.next c ≡ (if n == c then n else if m.prev n == c then m.next n else m.next c))
    × ((c : ℕ) → g.prev c ≡ (if n == c then n else if m.next n == c then m.prev n else m.prev c))

Chain-skip :
    (m g : Links) (a : ℕ) (xs : List ℕ) (b n : ℕ)
    → Skips m g n
    → Linked m a n
    → Chain m n xs b
    → has a xs ≡ false
    → IsDistinct (n ∷ xs)
    → has b xs ≡ false
    → n ≢ a
    → n ≢ b
    → Chain g a xs b
Chain-skip m g a [] b n w l c d d' e na nb = ground (arith, w.0 a, w.1 b)
Chain-skip m g a (x ∷ xs) b n w l c d d' e na nb = (
  ground (arith, w.0 a, w.1 x),
  Chain-frame m g x xs b c.1 (λ k h. ground (arith, w.0 k))
      (λ k h. ground (arith, w.1 k, has-append k xs (b ∷ []))),
)

pub Chain-erase :
    (m g : Links) (a : ℕ) (xs : List ℕ) (b n : ℕ)
    → Skips m g n
    → Chain m a xs b
    → IsDistinct (a ∷ xs)
    → has b xs ≡ false
    → has n xs ≡ true
    → n ≢ a
    → n ≢ b
    → Chain g a (erase n xs) b
Chain-erase m g a [] b n w c d e h na nb = cc
Chain-erase m g a (x ∷ xs) b n w c d e h na nb = elim (Bool-cases (n == x)) [
  | inl hit ↦ rw hit (
      Chain-skip m g a xs b n w (ground arith) (ground arith) (ground arith) (ground arith)
        (ground arith) na nb)
  | inr miss ↦ rw miss (
    ground (
      arith,
      w.0 a,
      w.1 x,
      prev-mem m x xs b n c.1,
      next-mem m x xs b n c.1,
      has-append x xs (b ∷ []),
    ),
    Chain-erase m g x xs b n w c.1 d.1 (ground arith) (ground arith) (ground arith) nb,
  )
]

-- No node of a list of distinct nodes is its own neighbour.
pub next-ne :
    (m : Links) (a : ℕ) (xs : List ℕ) (b n : ℕ)
    → Chain m a xs b
    → IsDistinct xs
    → has n xs ≡ true
    → n ≢ b
    → m.next n ≢ n
next-ne m a [] b n c d h nb = cc
next-ne m a (x ∷ []) b n c d h nb = ground arith
next-ne m a (x ∷ y ∷ xs) b n c d h nb = ground (arith, next-ne m x (y ∷ xs) b n c.1 d.1)

pub prev-ne :
    (m : Links) (a : ℕ) (xs : List ℕ) (b n : ℕ)
    → Chain m a xs b
    → IsDistinct (a ∷ xs)
    → has n xs ≡ true
    → m.prev n ≢ n
prev-ne m a [] b n c d h = cc
prev-ne m a (x ∷ xs) b n c d h = ground (arith, prev-ne m x xs b n c.1 d.1)
