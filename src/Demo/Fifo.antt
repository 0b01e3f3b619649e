-- ===== src/Demo/Fifo.antt =====
-- The order of the items in the demo (examples/demo_producer_consumer.c).
use libco.Base.{
  ℕ, Bool, Option, zero, suc, ◌+◌, ◌*◌, ◌≤◌, ◌<◌, ◌≡◌, refl, sym, ap, ◌∙◌, inl, inr, List, [], ◌∷◌,
  ◌++◌, arith, length, length-append, ltb, Bool-cases, ltb→lt,
}
use mathlib.Core.List.{append_assoc}
use libco.Demo.{
  Queue, ProducerArgs, ConsumerArgs, Place, for_at, while_at, finished, Shared, pushed, try_push,
  producer_routine, popped, try_pop, consumer_routine, Routine, producer, consumer, turn, turn_at,
  run,
}
use libco.Demo.Ring.{
  contents, IsRing, Pushed, full, room, queue_push-Pushed, Popped, empty, item, queue_pop-Popped,
  contents-length,
}

-- How many items a coroutine with a loop up to `n` has put or taken.
abbrev pub made : ℕ → Place → ℕ
made n (for_at i) = i
made n (while_at i) = i
made n finished = n

-- It is inside its loop where it retries.
abbrev pub IsPlaced : ℕ → Place → Type 0
IsPlaced n (for_at i) = i ≤ n
IsPlaced n (while_at i) = i < n
IsPlaced n finished = n ≤ n

abbrev pub puts : Routine → ℕ
puts (producer args p) = made args.produce_count p
puts (consumer args p) = 0

abbrev pub takes : Routine → ℕ
takes (producer args p) = 0
takes (consumer args p) = made args.consume_count p

abbrev pub Fits : Routine → Type 0
Fits (producer args p) = IsPlaced args.produce_count p
Fits (consumer args p) = IsPlaced args.consume_count p

-- A sum over the coroutines.
abbrev pub total : (Routine → ℕ) → List Routine → ℕ
total f [] = 0
total f (r ∷ rs) = f r + total f rs

abbrev pub AllFit : List Routine → Type 0
AllFit [] = Unit {0}
AllFit (r ∷ rs) = Fits r × AllFit rs

-- The queue holds what was produced and not consumed, in order.
pub record IsFifo (s : Shared) : Type 0 where
  pub ring : IsRing s.queue
  pub order : s.produced ≡ s.consumed ++ contents s.queue

-- What a turn of one coroutine does: the items that it counts are those that it prints.
pub record Turned (r : Routine) (s : Shared) (x : Routine) (t : Shared) : Type 0 where
  pub fifo : IsFifo t
  pub fits : Fits x
  pub put : puts x + length s.produced ≡ puts r + length t.produced
  pub taken : takes x + length s.consumed ≡ takes r + length t.consumed

pushed-Turned :
    (args : ProducerArgs) (p : Place) (i : ℕ) (s : Shared) {o : Bool × Queue}
    → made args.produce_count p ≡ i
    → i < args.produce_count
    → IsFifo s
    → Pushed s.queue (args.id * 100 + i) o
    → let t = pushed args i s o in Turned (producer args p) s (producer args t.place) t.shared
unfolding pushed
pushed-Turned args p i s e h f (full k) = record {
  fifo = f;
  fits = h;
  put = omega (arith, e);
  taken = refl;
}
pushed-Turned args p i s e h f (room k r c) = record {
  fifo = record {
    ring = r;
    order = rw (f.order, c) (append_assoc s.consumed (contents s.queue) ((args.id * 100 + i) ∷ []));
  };
  fits = omega arith;
  put = omega (arith, e, length-append s.produced ((args.id * 100 + i) ∷ []));
  taken = refl;
}

popped-Turned :
    (args : ConsumerArgs) (p : Place) (i : ℕ) (s : Shared) {o : Option ℕ × Queue}
    → made args.consume_count p ≡ i
    → i < args.consume_count
    → IsFifo s
    → Popped s.queue o
    → let t = popped args i s o in Turned (consumer args p) s (consumer args t.place) t.shared
unfolding popped
popped-Turned args p i s e h f (empty k) = record {
  fifo = f;
  fits = h;
  put = refl;
  taken = omega (arith, e);
}
popped-Turned args p i s e h f (item {v} {after} k r c) = record {
  fifo = record {
    ring = r;
    order = f.order ∙ rw c (sym (append_assoc s.consumed (v ∷ []) (contents after)));
  };
  fits = omega arith;
  put = refl;
  taken = omega (arith, e, length-append s.consumed (v ∷ []));
}

-- A turn of one coroutine.
turn-Turned :
    (r : Routine) (s : Shared) → Fits r → IsFifo s → let (x, t) = turn r s in Turned r s x t
unfolding turn producer_routine consumer_routine try_push try_pop
turn-Turned (producer args (for_at i)) s h f = elim (Bool-cases (ltb i args.produce_count)) [
  | inl e ↦ rw e (
      pushed-Turned args (for_at i) i s refl (ltb→lt i args.produce_count e) f
        (queue_push-Pushed s.queue (args.id * 100 + i) f.ring))
  | inr e ↦ rw e (record { fifo = f; fits = omega arith; put = ground arith; taken = refl })
]
turn-Turned (producer args (while_at i)) s h f =
    pushed-Turned args (while_at i) i s refl h f
      (queue_push-Pushed s.queue (args.id * 100 + i) f.ring)
turn-Turned (producer args finished) s h f = record { fifo = f; fits = h; put = refl; taken = refl }
turn-Turned (consumer args (for_at i)) s h f = elim (Bool-cases (ltb i args.consume_count)) [
  | inl e ↦ rw e (
      popped-Turned args (for_at i) i s refl (ltb→lt i args.consume_count e) f
        (queue_pop-Popped s.queue f.ring))
  | inr e ↦ rw e (record { fifo = f; fits = omega arith; put = refl; taken = ground arith })
]
turn-Turned (consumer args (while_at i)) s h f =
    popped-Turned args (while_at i) i s refl h f (queue_pop-Popped s.queue f.ring)
turn-Turned (consumer args finished) s h f = record { fifo = f; fits = h; put = refl; taken = refl }

-- What holds of the coroutines and the queue together: what was printed is what was counted.
pub record IsSound (rs : List Routine) (s : Shared) : Type 0 where
  pub fifo : IsFifo s
  pub fits : AllFit rs
  pub put : total puts rs ≡ length s.produced
  pub taken : total takes rs ≡ length s.consumed

turn_at-Turned :
    (i : ℕ) (rs : List Routine) (s : Shared)
    → AllFit rs
    → IsFifo s
    → let (xs, t) = turn_at i rs s in
      IsFifo t
      × AllFit xs
      × (total puts xs + length s.produced ≡ total puts rs + length t.produced)
      × (total takes xs + length s.consumed ≡ total takes rs + length t.consumed)
unfolding turn_at
turn_at-Turned i [] s h f = (f, h, refl, refl)
turn_at-Turned zero (r ∷ rs) s (h, k) f =
    let e = turn-Turned r s h f in
    (e.fifo, (e.fits, k), omega (arith, e.put), omega (arith, e.taken))
turn_at-Turned (suc i) (r ∷ rs) s (h, k) f =
    let (g, l, a, b) = turn_at-Turned i rs s k f in (g, (h, l), omega (arith, a), omega (arith, b))

pub turn_at-IsSound :
    (i : ℕ) (rs : List Routine) (s : Shared)
    → IsSound rs s
    → let (xs, t) = turn_at i rs s in IsSound xs t
turn_at-IsSound i rs s v =
    let (f, h, a, b) = turn_at-Turned i rs s v.fits v.fifo in
    record { fifo = f; fits = h; put = omega (arith, a, v.put); taken = omega (arith, b, v.taken) }

-- Take a sound state: the items produced are those consumed, then those in the queue, in order, the
-- indices of the queue agree and it holds 10 items at most, each coroutine is within its loop, and
-- they count as many items as were produced and consumed. After turns of the coroutines in any order,
-- failed tries on a full or an empty queue included, the state is sound again.
pub run-IsSound :
    (is : List ℕ) (rs : List Routine) (s : Shared)
    → IsSound rs s
    → let (xs, t) = run is rs s in IsSound xs t
unfolding run
run-IsSound [] rs s v = v
run-IsSound (i ∷ is) rs s v =
    let (xs, t) = turn_at i rs s in run-IsSound is xs t (turn_at-IsSound i rs s v)

-- What was produced is what was consumed and what is in the queue.
pub IsFifo-length : (s : Shared) → IsFifo s → length s.produced ≡ length s.consumed + s.queue.count
IsFifo-length s f =
    ap length f.order
    ∙ length-append s.consumed (contents s.queue)
    ∙ ap (λ n. length s.consumed + n) (contents-length s.queue)
