-- ===== src/Demo/Progress.antt =====
-- What is left to do in the demo (examples/demo_producer_consumer.c), and turns that do nothing.
use libco.Base.{
  ℕ, Bool, Option, zero, suc, ◌+◌, ◌-◌, ◌*◌, ◌≤◌, ◌<◌, ◌==◌, ◌≡◌, ◌⊎◌, ◌&&◌, refl, sym, ap, subst,
  ◌∙◌, inl, inr, true, List, [], ◌∷◌, arith, has, leb, ltb, Bool-cases, ltb→lt,
}
use libco.Demo.{
  Queue, queue_size, ProducerArgs, ConsumerArgs, Place, for_at, while_at, finished, Shared, pushed,
  try_push, producer_routine, popped, try_pop, consumer_routine, Routine, producer, consumer, turn,
  turn_at, run,
}
use libco.Demo.Ring.{Pushed, full, room, queue_push-Pushed, Popped, empty, item, queue_pop-Popped}
use libco.Demo.Fifo.{Fits, AllFit, total, IsFifo, IsSound, turn_at-IsSound}

-- What is left of a loop up to `n`, with the turn that ends the coroutine.
abbrev pub left_of : ℕ → Place → ℕ
left_of n (for_at i) = n - i + 1
left_of n (while_at i) = n - i + 1
left_of n finished = 0

abbrev pub left : Routine → ℕ
left (producer args p) = left_of args.produce_count p
left (consumer args p) = left_of args.consume_count p

-- Whether a turn does nothing: the coroutine is over, or meets the queue as it cannot use it.
abbrev idle_at : ℕ → Place → Bool → Bool
idle_at n (for_at i) blocked = ltb i n && blocked
idle_at n (while_at i) blocked = blocked
idle_at n finished blocked = true

abbrev pub is_idle : Routine → (count : ℕ) → Bool
is_idle (producer args p) c = idle_at args.produce_count p (leb queue_size c)
is_idle (consumer args p) c = idle_at args.consume_count p (c == 0)

-- Either something was done, or nothing can be with this queue.
abbrev Moved : Routine → Shared → Routine → Shared → Type 0
Moved r s x t = (left x < left r) ⊎ ((t ≡ s) × (left x ≡ left r) × (is_idle x s.queue.count ≡ true))

pushed-Moved :
    (args : ProducerArgs) (p : Place) (i : ℕ) (s : Shared) {o : Bool × Queue}
    → left_of args.produce_count p ≡ args.produce_count - i + 1
    → i < args.produce_count
    → Pushed s.queue (args.id * 100 + i) o
    → let t = pushed args i s o in Moved (producer args p) s (producer args t.place) t.shared
unfolding pushed
pushed-Moved args p i s e h (full k) = inr (refl, sym e, ground arith)
pushed-Moved args p i s e h (room k r c) = inl (omega (arith, e))

popped-Moved :
    (args : ConsumerArgs) (p : Place) (i : ℕ) (s : Shared) {o : Option ℕ × Queue}
    → left_of args.consume_count p ≡ args.consume_count - i + 1
    → i < args.consume_count
    → Popped s.queue o
    → let t = popped args i s o in Moved (consumer args p) s (consumer args t.place) t.shared
unfolding popped
popped-Moved args p i s e h (empty k) = inr (refl, sym e, ground arith)
popped-Moved args p i s e h (item k r c) = inl (omega (arith, e))

turn-Moved : (r : Routine) (s : Shared) → Fits r → IsFifo s → let (x, t) = turn r s in Moved r s x t
unfolding turn producer_routine consumer_routine try_push try_pop
turn-Moved (producer args (for_at i)) s h f = elim (Bool-cases (ltb i args.produce_count)) [
  | inl e ↦ rw e (
      pushed-Moved args (for_at i) i s refl (ltb→lt i args.produce_count e)
        (queue_push-Pushed s.queue (args.id * 100 + i) f.ring))
  | inr e ↦ rw e (inl (omega arith))
]
turn-Moved (producer args (while_at i)) s h f =
    pushed-Moved args (while_at i) i s refl h (queue_push-Pushed s.queue (args.id * 100 + i) f.ring)
turn-Moved (producer args finished) s h f = inr (refl, refl, refl)
turn-Moved (consumer args (for_at i)) s h f = elim (Bool-cases (ltb i args.consume_count)) [
  | inl e ↦ rw e (
      popped-Moved args (for_at i) i s refl (ltb→lt i args.consume_count e)
        (queue_pop-Popped s.queue f.ring))
  | inr e ↦ rw e (inl (omega arith))
]
turn-Moved (consumer args (while_at i)) s h f =
    popped-Moved args (while_at i) i s refl h (queue_pop-Popped s.queue f.ring)
turn-Moved (consumer args finished) s h f = inr (refl, refl, refl)

-- Of the coroutine at an index, if there is one.
abbrev pub idles : ℕ → List Routine → (count : ℕ) → Bool
idles i [] c = true
idles zero (r ∷ rs) c = is_idle r c
idles (suc i) (r ∷ rs) c = idles i rs c

-- Turns that did something, or that left all as it was, and those of the indices `is` idle.
pub record Quiet (is : List ℕ) (rs : List Routine) (s : Shared) (xs : List Routine) (t : Shared)
    : Type 0 where
  pub same : t ≡ s
  pub kept : total left xs ≡ total left rs
  pub idle : (j : ℕ) → has j is ≡ true → idles j xs s.queue.count ≡ true
  pub stays : (j : ℕ) → idles j rs s.queue.count ≡ true → idles j xs s.queue.count ≡ true

idles-head :
    (x r : Routine) (rs : List Routine) (c : ℕ)
    → is_idle x c ≡ true
    → (j : ℕ) → idles j (r ∷ rs) c ≡ true
    → idles j (x ∷ rs) c ≡ true
idles-head x r rs c d zero e = d
idles-head x r rs c d (suc j) e = e

idles-tail :
    (r : Routine) (xs rs : List Routine) (c : ℕ)
    → ((j : ℕ) → idles j rs c ≡ true → idles j xs c ≡ true)
    → (j : ℕ) → idles j (r ∷ rs) c ≡ true
    → idles j (r ∷ xs) c ≡ true
idles-tail r xs rs c q zero e = e
idles-tail r xs rs c q (suc j) e = q j e

turn_at-idles :
    (i : ℕ) (rs : List Routine) (s : Shared)
    → AllFit rs
    → IsFifo s
    → let (xs, t) = turn_at i rs s in
      (total left xs < total left rs)
      ⊎ ((t ≡ s)
          × (total left xs ≡ total left rs)
          × (idles i xs s.queue.count ≡ true)
          × ((j : ℕ) → idles j rs s.queue.count ≡ true → idles j xs s.queue.count ≡ true))
unfolding turn_at
turn_at-idles i [] s h f = inr (refl, refl, refl, λ j e. e)
turn_at-idles zero (r ∷ rs) s (h, k) f = elim (turn-Moved r s h f) [
  | inl less ↦ inl (omega arith)
  | inr (e, l, d) ↦ inr (e, omega arith, d, idles-head (turn r s).0 r rs s.queue.count d)
]
turn_at-idles (suc i) (r ∷ rs) s (h, k) f = elim (turn_at-idles i rs s k f) [
  | inl less ↦ inl (omega arith)
  | inr (e, l, d, q) ↦ inr (e, omega arith, d, idles-tail r (turn_at i rs s).0 rs s.queue.count q)
]

left-turn_at :
    (i : ℕ) (rs : List Routine) (s : Shared)
    → AllFit rs
    → IsFifo s
    → total left (turn_at i rs s).0 ≤ total left rs
left-turn_at i rs s h f = elim (turn_at-idles i rs s h f) [
  | inl less ↦ omega arith
  | inr (e, l, d, q) ↦ omega arith
]

left-run :
    (is : List ℕ) (rs : List Routine) (s : Shared)
    → IsSound rs s
    → total left (run is rs s).0 ≤ total left rs
unfolding run
left-run [] rs s v = omega arith
left-run (i ∷ is) rs s v =
    let (xs, t) = turn_at i rs s in
    let rest = left-run is xs t (turn_at-IsSound i rs s v) in
    omega (arith, left-turn_at i rs s v.fits v.fifo)

Quiet-∷ :
    {i : ℕ} {is : List ℕ} {rs xs ys : List Routine} {s t u : Shared}
    → t ≡ s
    → total left xs ≡ total left rs
    → idles i xs s.queue.count ≡ true
    → ((j : ℕ) → idles j rs s.queue.count ≡ true → idles j xs s.queue.count ≡ true)
    → Quiet is xs t ys u
    → Quiet (i ∷ is) rs s ys u
Quiet-∷ {i} {is} {rs} {xs} {ys} {s} {t} {u} e l d q z =
    let c : t.queue.count ≡ s.queue.count = ap (λ v. v.queue.count) e in
    let stays : (j : ℕ) → idles j xs s.queue.count ≡ true → idles j ys s.queue.count ≡ true =
      subst (λ k. (j : ℕ) → idles j xs k ≡ true → idles j ys k ≡ true) c z.stays in
    record {
      same = z.same ∙ e;
      kept = z.kept ∙ l;
      idle = λ j h. elim (Bool-cases (j == i)) [
        | inl here ↦ stays j (subst (λ k. idles k xs s.queue.count ≡ true) (ground (arith, here)) d)
        | inr there ↦ subst (λ k. idles j ys k ≡ true) c (z.idle j (rw there at h))
      ];
      stays = λ j p. stays j (q j p);
    }

-- Turns that do nothing leave those that had them idle.
pub run-Quiet :
    (is : List ℕ) (rs : List Routine) (s : Shared)
    → IsSound rs s
    → let (xs, t) = run is rs s in (total left xs < total left rs) ⊎ Quiet is rs s xs t
unfolding run
run-Quiet [] rs s v = inr (record { same = refl; kept = refl; idle = λ j e. cc; stays = λ j e. e })
run-Quiet (i ∷ is) rs s v =
    let (xs, t) = turn_at i rs s in
    let w : IsSound xs t = turn_at-IsSound i rs s v in
    elim (turn_at-idles i rs s v.fits v.fifo) [
      | inl less ↦ inl (omega (arith, left-run is xs t w))
      | inr (e, l, d, q) ↦ elim (run-Quiet is xs t w) [
        | inl less ↦ inl (omega arith)
        | inr z ↦ inr (Quiet-∷ e l d q z)
      ]
    ]
