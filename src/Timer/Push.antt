-- ===== src/Timer/Push.antt =====
-- `co_timer_heap_push`.
use libco.Base.{
  ℕ, suc, ◌+◌, ◌*◌, ◌≤◌, ◌<◌, ◌≡◌, ◌∙◌, refl, Bool, true, false, arith, leb, ◌==◌, if◌then◌else◌,
  store, Bool-cases, leb→le, inl, inr, word, inc, mul_size,
}
use libco.Timer.{TimerHeap, sift_up, insert, push}
use libco.Base.Tally.{tally, tally-store_out}
use libco.Timer.Order.{IsHeap, Sifted}
use libco.Timer.Up.{sift_up-Sifted}

module _ (wakeup : ℕ → ℕ) where
  -- What every operation of the heap keeps.
  pub record IsValid (h : TimerHeap) : Type 0 where
    pub ordered : IsHeap wakeup h.count h.heap
    pub bounded : h.count ≤ h.capacity
    pub nonempty : 0 < h.capacity
    pub fits : h.capacity < word

  -- `g` is a valid heap of the coroutines of `h` and one more.
  pub record Pushed (h : TimerHeap) (routine : ℕ) (g : TimerHeap) : Type 0 where
    pub valid : IsValid g
    pub counted : g.count ≡ h.count + 1
    pub added :
        (x : ℕ) → tally x g.count g.heap ≡ tally x h.count h.heap + (if x == routine then 1 else 0)

  insert-Pushed :
      (h g : TimerHeap) (routine : ℕ)
      → IsValid h
      → g.heap ≡ h.heap
      → g.count ≡ h.count
      → h.count < g.capacity
      → g.capacity < word
      → Pushed h routine (insert wakeup g routine)
  unfolding insert
  insert-Pushed h g routine v same_heap same_count room fits =
      rw (same_heap, same_count)
        (record {
          valid = record {
            ordered = λ c p q. s.ordered c p (omega arith);
            bounded = omega arith;
            nonempty = omega arith;
            fits = fits;
          };
          counted = omega arith;
          added = λ x.
              rw one_more
                (s.same x ∙ ground (arith, tally-store_out x h.count h.heap h.count routine));
        })
    where
      a : ℕ → ℕ
      a = store h.heap h.count routine

      one_more : inc h.count ≡ suc h.count
      one_more = omega arith

      s : Sifted wakeup (suc h.count) a (sift_up wakeup a h.count)
      s = sift_up-Sifted wakeup (suc h.count) a h.count (omega arith) (record {
        edges = λ c p q r. ground (arith, v.ordered c);
        bridged = λ c p q r t. absurd (omega arith);
      })

  -- A push that succeeds adds the coroutine. One that fails changes nothing, and it fails only
  -- where a full heap cannot grow to twice its capacity.
  abbrev pub PushResult : (ℕ → Bool) → TimerHeap → ℕ → Bool × TimerHeap → Type 0
  PushResult realloc h routine (true, g) = Pushed h routine g
  PushResult realloc h routine (false, g) =
      (g ≡ h) × (h.count ≡ h.capacity) × (realloc (h.capacity * 16) ≡ false)

  -- A push on a valid heap, whose doubled capacity in bytes fits a `size_t`, adds the coroutine, or
  -- fails and changes nothing, where the heap is full and there is no memory for twice as many.
  pub push-PushResult :
      (realloc : ℕ → Bool) (h : TimerHeap) (routine : ℕ)
      → IsValid h
      → h.capacity * 16 < word
      → PushResult realloc h routine (push wakeup realloc h routine)
  unfolding push
  push-PushResult realloc h routine v fits = elim (Bool-cases (leb h.capacity h.count)) [
    | inr room ↦ rw room (insert-Pushed h h routine v refl refl (ground arith) v.fits)
    | inl full ↦
        let doubled : mul_size h.capacity 2 ≡ h.capacity * 2 = omega arith in
        let bytes : mul_size (h.capacity * 2) 8 ≡ h.capacity * 16 = omega arith in
        let at_end : h.count ≡ h.capacity =
          omega (arith, leb→le h.capacity h.count full, v.bounded) in
        rw (full, doubled, bytes)
          (elim (Bool-cases (realloc (h.capacity * 16))) [
            | inl granted ↦ rw granted (
                insert-Pushed h (record h { capacity = h.capacity * 2 }) routine v refl refl
                  (omega arith) (omega arith))
            | inr refused ↦ rw refused (refl, at_end, refused)
          ])
  ]
