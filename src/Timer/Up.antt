-- ===== src/Timer/Up.antt =====
-- `heap_sift_up` restores the heap.
use libco.Base.{
  ℕ, zero, suc, ◌≤◌, ◌<◌, ◌≢◌, ◌∙◌, refl, arith, ltb, leb, store, store_self, Bool-cases, inl, inr,
}
use libco.Timer.{parent, sift_up_loop, sift_up}
use libco.Timer.Order.{swap-tally, key, IsBridged, Sifted}

module _ (wakeup : ℕ → ℕ) where
  -- Only the edge above `i` may be out of order.
  pub record UpInv (n : ℕ) (a : ℕ → ℕ) (i : ℕ) : Type 0 where
    pub edges : (c : ℕ) → 0 < c → c < n → c ≢ i → key wakeup a (parent c) ≤ key wakeup a c
    pub bridged : IsBridged wakeup n a i

  -- One round of the loop trades the item with its parent.
  swap-UpInv :
      (n : ℕ) (a : ℕ → ℕ) (item i : ℕ)
      → UpInv n (store a i item) i
      → 0 < i
      → i < n
      → wakeup item < wakeup (a (parent i))
      → UpInv n (store (store a i (a (parent i))) (parent i) item) (parent i)
  swap-UpInv n a item i v pos inside below = record {
    edges = λ c p q r. ground (arith, v.edges c, v.edges (parent i), v.bridged c);
    bridged = λ c p q r s. ground (arith, v.edges c, v.edges (parent i), v.bridged c);
  }

  sift_up_loop-Sifted :
      (k n : ℕ) (a : ℕ → ℕ) (item i : ℕ)
      → i ≤ k
      → i < n
      → UpInv n (store a i item) i
      → Sifted wakeup n (store a i item) (sift_up_loop wakeup k a item i)
  unfolding sift_up_loop
  sift_up_loop-Sifted zero n a item i f p v = record {
    ordered = λ c q r. v.edges c q r (omega arith);
    same = λ x. refl;
    beyond = λ c q. refl;
  }
  sift_up_loop-Sifted (suc k) n a item i f p v = elim (Bool-cases (ltb 0 i)) [
    | inr root ↦ rw root (record {
      ordered = λ c q r. v.edges c q r (ground arith);
      same = λ x. refl;
      beyond = λ c q. refl;
    })
    | inl pos ↦ rw pos (elim (Bool-cases (leb (wakeup (a (parent i))) (wakeup item))) [
      | inl settled ↦ rw settled (record {
        ordered = λ c q r. ground (arith, v.edges c);
        same = λ x. refl;
        beyond = λ c q. refl;
      })
      | inr below ↦ rw below (
          Sifted-swap (ground arith) p (
            sift_up_loop-Sifted k n (store a i (a (parent i))) item (parent i) (ground arith)
              (ground arith) (swap-UpInv n a item i v (ground arith) p (ground arith))))
    ])
  ]
    where
      Sifted-swap :
          {b : ℕ → ℕ}
          → 0 < i
          → i < n
          → Sifted wakeup n (store (store a i (a (parent i))) (parent i) item) b
          → Sifted wakeup n (store a i item) b
      Sifted-swap pos q s = record {
        ordered = s.ordered;
        same = λ x. s.same x ∙ swap-tally x n a item i (parent i) p (omega arith) (omega arith);
        beyond = λ c r. ground (arith, s.beyond c r);
      }

  -- `heap_sift_up` turns an array with one entry due too early for its place into a heap of the
  -- same entries.
  pub sift_up-Sifted :
      (n : ℕ) (a : ℕ → ℕ) (i : ℕ) → i < n → UpInv n a i → Sifted wakeup n a (sift_up wakeup a i)
  unfolding sift_up
  sift_up-Sifted n a i p v =
      rw (store_self a i) at
        (sift_up_loop-Sifted i n a (a i) i (omega arith) p (rw (store_self a i) v))
