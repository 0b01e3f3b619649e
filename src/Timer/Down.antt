-- ===== src/Timer/Down.antt =====
-- `heap_sift_down` restores the heap.
use libco.Base.{
  ℕ, zero, suc, ◌+◌, ◌*◌, ◌/◌, ◌≤◌, ◌<◌, ◌≡◌, ◌≢◌, ◌∙◌, refl, ◌⊎◌, arith, ltb, leb, store,
  store_self, Bool-cases, inl, inr,
}
use libco.Timer.{parent, smaller_child, sift_down_loop, sift_down}
use libco.Timer.Order.{swap-tally, key, IsHeap, IsBridged, Sifted}

module _ (wakeup : ℕ → ℕ) where
  -- Only the edges below `i` may be out of order.
  pub record DownInv (n : ℕ) (a : ℕ → ℕ) (i : ℕ) : Type 0 where
    pub edges : (c : ℕ) → 0 < c → c < n → parent c ≢ i → key wakeup a (parent c) ≤ key wakeup a c
    pub bridged : IsBridged wakeup n a i

  -- `m` is the child of `i` that is due first.
  record IsSmallerChild (n : ℕ) (a : ℕ → ℕ) (i m : ℕ) : Type 0 where
    inside : m < n
    above : i < m
    child : parent m ≡ i
    least : (c : ℕ) → 0 < c → c < n → parent c ≡ i → wakeup (a m) ≤ wakeup (a c)

  smaller_child-IsSmallerChild :
      (n : ℕ) (a : ℕ → ℕ) (i : ℕ) → i < n / 2 → IsSmallerChild n a i (smaller_child wakeup a n i)
  unfolding smaller_child
  smaller_child-IsSmallerChild n a i h = record {
    inside = ground arith;
    above = ground arith;
    child = ground arith;
    least = λ c p q r. let e : (c ≡ 2 * i + 1) ⊎ (c ≡ 2 * i + 1 + 1) = omega arith in ground arith;
  }

  swap-DownInv :
      (n : ℕ) (a : ℕ → ℕ) (item i m : ℕ)
      → DownInv n (store a i item) i
      → IsSmallerChild n a i m
      → wakeup (a m) < wakeup item
      → DownInv n (store (store a i (a m)) m item) m
  swap-DownInv n a item i m v s below = record {
    edges =
        λ c p q r. ground (arith, v.edges c, v.bridged m, s.least c, s.child, s.above, s.inside);
    bridged = λ c p q r t. ground (arith, v.edges c, s.child, s.above, s.inside);
  }

  Sifted-swap :
      (n : ℕ) (a : ℕ → ℕ) (item i m : ℕ) {b : ℕ → ℕ}
      → i < m
      → m < n
      → Sifted wakeup n (store (store a i (a m)) m item) b
      → Sifted wakeup n (store a i item) b
  Sifted-swap n a item i m p q s = record {
    ordered = s.ordered;
    same = λ x. s.same x ∙ swap-tally x n a item i m (omega arith) q (omega arith);
    beyond = λ c r. ground (arith, s.beyond c r);
  }

  Sifted-here : (n : ℕ) (a : ℕ → ℕ) → IsHeap wakeup n a → Sifted wakeup n a a
  Sifted-here n a h = record { ordered = h; same = λ x. refl; beyond = λ c q. refl }

  sift_down_loop-Sifted :
      (k n : ℕ) (a : ℕ → ℕ) (item i : ℕ)
      → n ≤ i + k
      → DownInv n (store a i item) i
      → Sifted wakeup n (store a i item) (sift_down_loop wakeup k a n item i)
  unfolding sift_down_loop
  sift_down_loop-Sifted zero n a item i f v = Sifted-here n _ (λ c p q. v.edges c p q (omega arith))
  sift_down_loop-Sifted (suc k) n a item i f v = elim (Bool-cases (ltb i (n / 2))) [
    | inr leaf ↦ rw leaf (Sifted-here n _ (λ c p q. v.edges c p q (ground arith)))
    | inl more ↦
        let m = smaller_child wakeup a n i in
        let s = smaller_child-IsSmallerChild n a i (ground arith) in
        rw more (elim (Bool-cases (leb (wakeup item) (wakeup (a m)))) [
          | inl settled ↦
              rw settled (Sifted-here n _ (λ c p q. ground (arith, v.edges c, s.least c)))
          | inr below ↦ rw below (
              Sifted-swap n a item i m s.above s.inside (
                sift_down_loop-Sifted k n (store a i (a m)) item m (omega (arith, s.above))
                  (swap-DownInv n a item i m v s (ground arith))))
        ])
  ]

  -- `heap_sift_down` turns an array with one entry due too late for its place into a heap of the
  -- same entries.
  pub sift_down-Sifted :
      (n : ℕ) (a : ℕ → ℕ) (i : ℕ) → DownInv n a i → Sifted wakeup n a (sift_down wakeup a n i)
  unfolding sift_down
  sift_down-Sifted n a i v =
      rw (store_self a i) at
        (sift_down_loop-Sifted n n a (a i) i (omega arith) (rw (store_self a i) v))
