-- ===== src/Channel/Ring.antt =====
-- The ring buffer of a channel as a list.
use libco.Base.{
  ℕ, zero, suc, ◌+◌, ◌-◌, ◌%◌, ◌<◌, ◌≤◌, ◌≡◌, ◌≢◌, ap, ◌∙◌, List, [], ◌∷◌, ◌++◌, arith,
  if◌then◌else◌, store, ltb,
}
use mathlib.Core.Path.{ap₂}
use libco.Runtime.{Channel}
use libco.Channel.{put, drop}

-- The next slot.
abbrev pub next : ℕ → ℕ → ℕ
next size i = (i + 1) % size

-- The `n` elements from slot `i` on, going round at `size`.
unfoldable pub slots : (size : ℕ) → (ℕ → ℕ) → (i n : ℕ) → List ℕ
slots size a i zero = []
slots size a i (suc n) = a i ∷ slots size a (next size i) n

-- The buffered elements, oldest first.
unfoldable pub buffered : Channel → List ℕ
buffered ch = slots ch.capacity ch.buffer ch.head ch.count

-- The slot `n` places after `i`, without a division.
abbrev after : ℕ → ℕ → ℕ → ℕ
after size i n = if ltb (i + n) size then i + n else i + n - size

next-after : (size i : ℕ) → i < size → next size i ≡ after size i 1
next-after size i h = grind arith

next-lt : (size i : ℕ) → i < size → next size i < size
next-lt size i h = ground (arith, next-after size i h)

after-suc :
    (size i d : ℕ) → i < size → suc d < size → after size i (suc d) ≡ after size (next size i) d
after-suc size i d h k = ground (arith, next-after size i h)

after-ne : (size i d : ℕ) → i < size → suc d < size → after size i (suc d) ≢ i
after-ne size i d h k = ground arith

-- A write just behind the elements appends.
pub slots-snoc :
    (size : ℕ) (a : ℕ → ℕ) (i n j v : ℕ)
    → i < size
    → n < size
    → j ≡ after size i n
    → slots size (store a j v) i (suc n) ≡ slots size a i n ++ v ∷ []
unfolding slots
slots-snoc size a i zero j v h k e = ground arith
slots-snoc size a i (suc n) j v h k e =
    let rest =
      slots-snoc size a (next size i) n j v (next-lt size i h) (omega arith)
        (e ∙ after-suc size i n h k) in
    let kept : store a j v i ≡ a i = ground (arith, after-ne size i n h k) in
    ap₂ (λ (x : ℕ) (xs : List ℕ). x ∷ xs) kept rest

-- What every operation keeps of a buffer: the indices are in range and `count` apart.
pub record IsRing (ch : Channel) : Type 0 where
  pub bounded : ch.count ≤ ch.capacity
  pub head_in : ch.head ≤ ch.capacity - 1
  pub tail_at : ch.tail ≡ (
      if ltb (ch.head + ch.count) ch.capacity
      then ch.head + ch.count
      else ch.head + ch.count - ch.capacity)

pub put-IsRing : (ch : Channel) (v : ℕ) → IsRing ch → ch.count < ch.capacity → IsRing (put ch v)
put-IsRing ch v r h = record {
  bounded = omega arith;
  head_in = r.head_in;
  tail_at = ground (arith, r.tail_at, r.head_in, next-after ch.capacity ch.tail);
}

pub drop-IsRing : (ch : Channel) → IsRing ch → 0 < ch.count → IsRing (drop ch)
drop-IsRing ch r h = record {
  bounded = omega (arith, r.bounded);
  head_in = ground (arith, r.head_in, r.bounded, next-after ch.capacity ch.head);
  tail_at = ground (arith, r.tail_at, r.head_in, r.bounded, next-after ch.capacity ch.head);
}

pub buffered-put :
    (ch : Channel) (v : ℕ)
    → IsRing ch
    → ch.count < ch.capacity
    → buffered (put ch v) ≡ buffered ch ++ v ∷ []
unfolding buffered
buffered-put ch v r h =
    let more : ch.count + 1 ≡ suc ch.count = omega arith in
    rw more (
      slots-snoc ch.capacity ch.buffer ch.head ch.count ch.tail v (omega (arith, r.head_in)) h
        r.tail_at)

pub buffered-drop :
    (ch : Channel) → 0 < ch.count → buffered ch ≡ ch.buffer ch.head ∷ buffered (drop ch)
unfolding buffered slots
buffered-drop ch h = ap (slots ch.capacity ch.buffer ch.head) {y = suc (ch.count - 1)} (omega arith)

pub buffered-nil : (ch : Channel) → ch.count ≡ 0 → buffered ch ≡ []
unfolding buffered slots
buffered-nil ch e = rw e
