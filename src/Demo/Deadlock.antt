-- ===== src/Demo/Deadlock.antt =====
-- The states of the demo (examples/demo_producer_consumer.c) where no coroutine can go on.
use libco.Base.{
  ℕ, suc, ◌+◌, ◌*◌, ◌≤◌, ◌<◌, ◌≡◌, refl, true, inl, inr, List, [], ◌∷◌, arith, leb, ltb, Bool-cases,
  ltb→lt, leb-false,
}
use libco.Demo.{queue_size, Shared, Routine, producer, consumer, for_at, while_at, finished}
use libco.Demo.Fifo.{puts, takes, AllFit, total, IsFifo-length, IsSound}
use libco.Demo.Progress.{left, idles}

-- Of each coroutine, how many items it is to put and to take.
abbrev pub to_put : Routine → ℕ
to_put (producer args p) = args.produce_count
to_put (consumer args p) = 0

abbrev pub to_take : Routine → ℕ
to_take (producer args p) = 0
to_take (consumer args p) = args.consume_count

abbrev AllIdle : List Routine → (count : ℕ) → Type 0
AllIdle rs c = (j : ℕ) → idles j rs c ≡ true

puts-le : (rs : List Routine) → AllFit rs → total puts rs ≤ total to_put rs
puts-le [] h = omega arith
puts-le (producer args (for_at i) ∷ rs) (h, k) = omega (arith, puts-le rs k)
puts-le (producer args (while_at i) ∷ rs) (h, k) = omega (arith, puts-le rs k)
puts-le (producer args finished ∷ rs) (h, k) = omega (arith, puts-le rs k)
puts-le (consumer args p ∷ rs) (h, k) = omega (arith, puts-le rs k)

-- Where nobody can do anything and the queue is not empty, the consumers are over.
takes-all :
    (rs : List Routine) (c : ℕ)
    → AllFit rs
    → AllIdle rs c
    → 0 < c
    → total takes rs ≡ total to_take rs
takes-all [] c h d n = refl
takes-all (producer args p ∷ rs) c (h, k) d n = omega (arith, takes-all rs c k (λ j. d (suc j)) n)
takes-all (consumer args (for_at i) ∷ rs) c (h, k) d n =
    ground (arith, d 0, takes-all rs c k (λ j. d (suc j)) n)
takes-all (consumer args (while_at i) ∷ rs) c (h, k) d n =
    ground (arith, d 0, takes-all rs c k (λ j. d (suc j)) n)
takes-all (consumer args finished ∷ rs) c (h, k) d n =
    omega (arith, takes-all rs c k (λ j. d (suc j)) n)

-- Where it is not full, the producers are over, and what is left is in the consumers' loops.
puts-all :
    (rs : List Routine) (c : ℕ)
    → AllFit rs
    → AllIdle rs c
    → c < queue_size
    → (total puts rs ≡ total to_put rs)
      × (total left rs + 2 * total takes rs ≤ 2 * total to_take rs)
puts-all [] c h d n = (refl, omega arith)
puts-all (producer args (for_at i) ∷ rs) c (h, k) d n = absurd (ground (arith, d 0))
puts-all (producer args (while_at i) ∷ rs) c (h, k) d n = absurd (ground (arith, d 0))
puts-all (producer args finished ∷ rs) c (h, k) d n =
    let (a, b) = puts-all rs c k (λ j. d (suc j)) n in (omega (arith, a), omega (arith, b))
puts-all (consumer args (for_at i) ∷ rs) c (h, k) d n =
    let (a, b) = puts-all rs c k (λ j. d (suc j)) n in
    let inside : i < args.consume_count = ground (arith, d 0) in
    (omega (arith, a), omega (arith, b))
puts-all (consumer args (while_at i) ∷ rs) c (h, k) d n =
    let (a, b) = puts-all rs c k (λ j. d (suc j)) n in (omega (arith, a), omega (arith, b))
puts-all (consumer args finished ∷ rs) c (h, k) d n =
    let (a, b) = puts-all rs c k (λ j. d (suc j)) n in (omega (arith, a), omega (arith, b))

-- In between, all are over.
left-none :
    (rs : List Routine) (c : ℕ)
    → AllFit rs
    → AllIdle rs c
    → 0 < c
    → c < queue_size
    → total left rs ≡ 0
left-none [] c h d n m = refl
left-none (producer args finished ∷ rs) c (h, k) d n m =
    omega (arith, left-none rs c k (λ j. d (suc j)) n m)
left-none (consumer args finished ∷ rs) c (h, k) d n m =
    omega (arith, left-none rs c k (λ j. d (suc j)) n m)
left-none (producer args (for_at i) ∷ rs) c (h, k) d n m = absurd (ground (arith, d 0))
left-none (producer args (while_at i) ∷ rs) c (h, k) d n m = absurd (ground (arith, d 0))
left-none (consumer args (for_at i) ∷ rs) c (h, k) d n m = absurd (ground (arith, d 0))
left-none (consumer args (while_at i) ∷ rs) c (h, k) d n m = absurd (ground (arith, d 0))

-- Where nobody can do anything, all are over: the queue is not full, for the consumers would be over
-- and have taken all that there is to make; and where it is empty, they have taken it.
pub idle-none :
    (rs : List Routine) (s : Shared)
    → IsSound rs s
    → total to_put rs ≡ total to_take rs
    → ((j : ℕ) → idles j rs s.queue.count ≡ true)
    → total left rs ≡ 0
idle-none rs s v e d =
    let c = s.queue.count in
    let balance = IsFifo-length s v.fifo in
    let some_left = puts-le rs v.fits in
    elim (Bool-cases (leb queue_size c)) [
      | inl full ↦
          let all = takes-all rs c v.fits d (ground (arith, full)) in
          absurd (ground (arith, full, all, balance, e, some_left, v.put, v.taken))
      | inr room ↦
          let h = leb-false queue_size c room in
          let (a, b) = puts-all rs c v.fits d h in
          elim (Bool-cases (ltb 0 c)) [
            | inl some_in ↦ left-none rs c v.fits d (ltb→lt 0 c some_in) h
            | inr nothing ↦ ground (arith, nothing, a, b, balance, e, v.put, v.taken)
          ]
    ]
