-- ===== src/Timer/Order.antt =====
-- The heap order of co_timer.c, and the heap's contents as a multiset.
use libco.Base.{ℕ, zero, suc, ◌≤◌, ◌<◌, ◌≡◌, ◌≢◌, arith, store}
use libco.Base.Tally.{tally, tally-store}
use libco.Timer.{parent}

-- One round of a sift trades two entries.
pub swap-tally :
    (x n : ℕ) (a : ℕ → ℕ) (item i j : ℕ)
    → i < n
    → j < n
    → i ≢ j
    → tally x n (store (store a i (a j)) j item) ≡ tally x n (store a i item)
swap-tally x n a item i j p q r = ground (
  arith,
  tally-store x n a i item,
  tally-store x n (store a i (a j)) j item,
  tally-store x n a i (a j),
)

module _ (wakeup : ℕ → ℕ) where
  abbrev pub key : (ℕ → ℕ) → ℕ → ℕ
  key a i = wakeup (a i)

  -- No entry among the first `n` is due before its parent.
  abbrev pub IsHeap : ℕ → (ℕ → ℕ) → Type 0
  IsHeap n a = (c : ℕ) → 0 < c → c < n → key a (parent c) ≤ key a c

  -- The children of `i` are not due before the parent of `i`.
  abbrev pub IsBridged : ℕ → (ℕ → ℕ) → ℕ → Type 0
  IsBridged n a i = (c : ℕ) → 0 < c → c < n → parent c ≡ i → 0 < i → key a (parent i) ≤ key a c

  -- `b` is a heap of the first `n` entries of `a`, and the same as `a` past those.
  pub record Sifted (n : ℕ) (a b : ℕ → ℕ) : Type 0 where
    pub ordered : IsHeap n b
    pub same : (x : ℕ) → tally x n b ≡ tally x n a
    pub beyond : (c : ℕ) → n ≤ c → b c ≡ a c

  pub root_least_below :
      (k n : ℕ) (a : ℕ → ℕ) (i : ℕ) → IsHeap n a → i < k → i < n → key a 0 ≤ key a i
  root_least_below zero n a i h f p = absurd (omega arith)
  root_least_below (suc k) n a i h f p = ground (arith, h i, root_least_below k n a (parent i) h)

  -- The root is due no later than any other entry.
  pub root_least : (n : ℕ) (a : ℕ → ℕ) (i : ℕ) → IsHeap n a → i < n → key a 0 ≤ key a i
  root_least n a i h p = root_least_below (suc i) n a i h (omega arith) p
