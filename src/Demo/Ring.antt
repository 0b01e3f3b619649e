-- ===== src/Demo/Ring.antt =====
-- The ring buffer of the demo (examples/demo_producer_consumer.c) as a list.
use libco.Base.{
  ℕ, zero, ◌+◌, ◌-◌, ◌≤◌, ◌<◌, ◌≡◌, ◌==◌, leb, length, Bool, Bool-cases, leb→le, leb-false, store,
  inl, inr, ◌∙◌, Option, true, false, none, some, List, [], ◌∷◌, ◌++◌, arith, if◌then◌else◌, ltb,
  refl, suc, ap,
}
use libco.Channel.Ring.{slots, slots-snoc, next}
use libco.Demo.{Queue, queue_size, queue_push, queue_pop}

-- The items in the queue, oldest first.
unfoldable pub contents : Queue → List ℕ
contents q = slots queue_size q.buffer q.head q.count

-- The indices are in range and `count` apart.
pub record IsRing (q : Queue) : Type 0 where
  pub bounded : q.count ≤ queue_size
  pub head_in : q.head < queue_size
  pub tail_at : q.tail ≡ (
      if ltb (q.head + q.count) queue_size then q.head + q.count else q.head + q.count - queue_size)

-- What a push gives.
pub data Pushed (q : Queue) (v : ℕ) : Bool × Queue → Type 0 where
  full : queue_size ≤ q.count → Pushed q v (false, q)
  room :
      {after : Queue}
      → q.count < queue_size
      → IsRing after
      → contents after ≡ contents q ++ v ∷ []
      → Pushed q v (true, after)

pub queue_push-Pushed : (q : Queue) (v : ℕ) → IsRing q → Pushed q v (queue_push q v)
unfolding queue_push contents
queue_push-Pushed q v r = elim (Bool-cases (leb queue_size q.count)) [
  | inl e ↦ rw e (full (leb→le queue_size q.count e))
  | inr e ↦
      let h = leb-false queue_size q.count e in
      let more : q.count + 1 ≡ suc q.count = omega arith in
      let grown = slots-snoc queue_size q.buffer q.head q.count q.tail v r.head_in h r.tail_at in
      rw e (
        room h
          (record {
            bounded = omega arith;
            head_in = r.head_in;
            tail_at = ground (arith, r.tail_at, r.head_in);
          })
          (ap (λ n. slots queue_size (store q.buffer q.tail v) q.head n) more ∙ grown))
]

-- What a pop gives.
pub data Popped (q : Queue) : Option ℕ × Queue → Type 0 where
  empty : q.count ≡ 0 → Popped q (none, q)
  item :
      {v : ℕ} {after : Queue}
      → 0 < q.count
      → IsRing after
      → contents q ≡ v ∷ contents after
      → Popped q (some v, after)

pub queue_pop-Popped : (q : Queue) → IsRing q → Popped q (queue_pop q)
unfolding queue_pop contents slots
queue_pop-Popped q r = elim (Bool-cases (q.count == 0)) [
  | inl e ↦ rw e (empty (ground (arith, e)))
  | inr e ↦ rw e (
      item (ground arith)
        (record {
          bounded = omega (arith, r.bounded);
          head_in = omega arith;
          tail_at = ground (arith, r.tail_at, r.head_in, r.bounded);
        })
        (ap (slots queue_size q.buffer q.head) {y = suc (q.count - 1)} (ground arith)))
]

slots-length : (size : ℕ) (a : ℕ → ℕ) (i n : ℕ) → length (slots size a i n) ≡ n
unfolding slots
slots-length size a i zero = refl
slots-length size a i (suc n) = ap suc (slots-length size a (next size i) n)

pub contents-length : (q : Queue) → length (contents q) ≡ q.count
unfolding contents
contents-length q = slots-length queue_size q.buffer q.head q.count

pub contents-nil : (q : Queue) → q.count ≡ 0 → contents q ≡ []
unfolding contents slots
contents-nil q e = rw e refl
