-- ===== src/Timer/Pop.antt =====
-- `co_timer_heap_pop` and `co_timer_heap_remove`.
use libco.Base.{
  ℕ, zero, suc, ◌+◌, ◌-◌, ◌≤◌, ◌<◌, ◌≡◌, refl, ◌&&◌, true, false, none, some, arith, ltb, ◌==◌,
  if◌then◌else◌, store, Bool-cases, inl, inr,
}
use libco.Timer.{TimerHeap, parent, sift_down, resift, remove_at, pop}
use libco.Base.Tally.{tally, tally-store}
use libco.Timer.Order.{root_least, Sifted}
use libco.Timer.Up.{sift_up-Sifted}
use libco.Timer.Down.{sift_down-Sifted}
use libco.Timer.Push.{IsValid}

module _ (wakeup : ℕ → ℕ) where
  -- `g` is a valid heap of the coroutines of `h` but one.
  pub record Taken (h : TimerHeap) (routine : ℕ) (g : TimerHeap) : Type 0 where
    pub valid : IsValid wakeup g
    pub counted : h.count ≡ g.count + 1
    pub taken :
        (x : ℕ) → tally x h.count h.heap ≡ tally x g.count g.heap + (if x == routine then 1 else 0)

  -- The last entry fills the gap at `i` and finds its place.
  Taken-Sifted :
      (h : TimerHeap) (n i : ℕ) (b : ℕ → ℕ)
      → IsValid wakeup h
      → h.count ≡ suc n
      → i < n
      → Sifted wakeup n (store h.heap i (h.heap n)) b
      → Taken h (h.heap i) (record h { heap = b; count = n })
  Taken-Sifted h n i b v e p s = record {
    valid = record {
      ordered = s.ordered;
      bounded = omega (arith, v.bounded);
      nonempty = v.nonempty;
      fits = v.fits;
    };
    counted = omega arith;
    taken = λ x. rw e (ground (arith, s.same x, tally-store x n h.heap i (h.heap n)));
  }

  Taken-last :
      (h : TimerHeap) (n : ℕ)
      → IsValid wakeup h
      → h.count ≡ suc n
      → Taken h (h.heap n) (record h { count = n })
  Taken-last h n v e = record {
    valid = record {
      ordered = λ c p q. v.ordered c p (omega arith);
      bounded = omega (arith, v.bounded);
      nonempty = v.nonempty;
      fits = v.fits;
    };
    counted = omega arith;
    taken = λ x. rw e (ground arith);
  }

  -- On a valid heap that is not empty, pop returns the root, which is due no later than any other
  -- entry, and leaves a valid heap of the others.
  pub pop-Taken :
      (h : TimerHeap) {n : ℕ}
      → IsValid wakeup h
      → h.count ≡ suc n
      → ((pop wakeup h).0 ≡ some (h.heap 0))
        × Taken h (h.heap 0) (pop wakeup h).1
        × ((i : ℕ) → i < h.count → wakeup (h.heap 0) ≤ wakeup (h.heap i))
  unfolding pop
  pop-Taken h {n} v e =
      let more : (h.count == 0) ≡ false = ground arith in
      let left : h.count - 1 ≡ n = omega arith in
      rw (more, left) (refl, go n e, λ i p. root_least wakeup h.count h.heap i v.ordered p)
    where
      go :
          (k : ℕ)
          → h.count ≡ suc k
          → Taken h (h.heap 0) (record h {
            heap = if ltb 0 k then sift_down wakeup (store h.heap 0 (h.heap k)) k 0 else h.heap;
            count = k;
          })
      go zero f = Taken-last h zero v f
      go (suc k) f =
          let pos : ltb 0 (suc k) ≡ true = ground arith in
          rw pos (
            Taken-Sifted h (suc k) 0 _ v f (omega arith) (
              sift_down-Sifted wakeup (suc k) _ 0 (record {
                edges = λ c p q r. ground (arith, v.ordered c);
                bridged = λ c p q r t. absurd (omega arith);
              })))

  pub pop-none : (h : TimerHeap) → h.count ≡ 0 → pop wakeup h ≡ (none, h)
  unfolding pop
  pop-none h e = ground arith

  resift-Sifted :
      (h : TimerHeap) (n i : ℕ)
      → IsValid wakeup h
      → h.count ≡ suc n
      → i < n
      → let a = store h.heap i (h.heap n) in Sifted wakeup n a (resift wakeup a n i)
  unfolding resift
  resift-Sifted h n i v e p =
      let a = store h.heap i (h.heap n) in
      elim (Bool-cases (ltb 0 i && ltb (wakeup (a i)) (wakeup (a (parent i))))) [
        | inl early ↦ rw early (
            sift_up-Sifted wakeup n a i p (record {
              edges = λ c q r t. ground (arith, v.ordered c, v.ordered i);
              bridged = λ c q r t u. ground (arith, v.ordered c, v.ordered i);
            }))
        | inr late ↦ rw late (
            sift_down-Sifted wakeup n a i (record {
              edges = λ c q r t. ground (arith, v.ordered c, v.ordered i);
              bridged = λ c q r t u. ground (arith, v.ordered c, v.ordered i);
            }))
      ]

  -- Removing by index takes out that entry, wherever it stands.
  pub remove_at-Taken :
      (h : TimerHeap) (i : ℕ)
      → IsValid wakeup h
      → i < h.count
      → Taken h (h.heap i) (remove_at wakeup h i)
  unfolding remove_at
  remove_at-Taken h i v p =
      let e : h.count ≡ suc (h.count - 1) = omega arith in
      elim (Bool-cases (ltb i (h.count - 1))) [
        | inl inner ↦ rw inner (
            Taken-Sifted h (h.count - 1) i _ v e (ground arith)
              (resift-Sifted h _ i v e (ground arith)))
        | inr end ↦
            let at : i ≡ h.count - 1 = ground arith in rw (end, at) (Taken-last h (h.count - 1) v e)
      ]
