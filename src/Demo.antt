-- ===== src/Demo.antt =====
-- examples/demo_producer_consumer.c: producers and consumers that share a ring buffer, and sleep
-- where it is full or empty. A turn of a coroutine runs from one `co_sleep` to the next.
pub mod Ring
pub mod Fifo
pub mod Progress
pub mod Deadlock
pub mod Ends
mod Tests
use libco.Base.{
  ℕ, zero, suc, ◌+◌, ◌-◌, ◌*◌, ◌%◌, ◌==◌, ◌≡◌, Bool, true, false, Option, none, some, List, [], ◌∷◌,
  ◌++◌, if◌then◌else◌, leb, ltb, store,
}

abbrev pub queue_size : ℕ
queue_size = 10

pub record Queue : Type 0 where
  pub buffer : ℕ → ℕ
  pub head : ℕ
  pub tail : ℕ
  pub count : ℕ

-- Whether the value was taken in, and the queue.
unfoldable pub queue_push : Queue → (value : ℕ) → Bool × Queue
queue_push q value = if leb queue_size q.count then (false, q) else (
  true,
  record q {
    buffer = store q.buffer q.tail value;
    tail = (q.tail + 1) % queue_size;
    count = q.count + 1;
  },
)

-- The value, where there is one, and the queue.
unfoldable pub queue_pop : Queue → Option ℕ × Queue
queue_pop q = if q.count == 0 then (none, q) else (
  some (q.buffer q.head),
  record q { head = (q.head + 1) % queue_size; count = q.count - 1 },
)

pub record ProducerArgs : Type 0 where
  pub id : ℕ
  pub produce_count : ℕ
  pub interval_ms : ℕ

pub record ConsumerArgs : Type 0 where
  pub id : ℕ
  pub consume_count : ℕ
  pub interval_ms : ℕ

-- Where a coroutine goes on: at the test of its `for` with this `i`, at the test of its `while`, or
-- nowhere.
pub data Place : Type 0 where
  for_at : ℕ → Place
  while_at : ℕ → Place
  finished : Place

-- The queue, and the items that the coroutines print, in order.
pub record Shared : Type 0 where
  pub queue : Queue
  pub produced : List ℕ
  pub consumed : List ℕ

-- How a turn ends: where the coroutine goes on, how long it sleeps if it does, and what it leaves.
pub record Turn : Type 0 where
  pub place : Place
  pub sleeps : Option ℕ
  pub shared : Shared

-- After the test of the `while` of a producer, with the item made.
unfoldable pub pushed : ProducerArgs → ℕ → Shared → Bool × Queue → Turn
pushed args i s (false, q) = record { place = while_at i; sleeps = some 10; shared = s }
pushed args i s (true, q) = record {
  place = for_at (i + 1);
  sleeps = some args.interval_ms;
  shared = record s { queue = q; produced = s.produced ++ (args.id * 100 + i) ∷ [] };
}

unfoldable pub try_push : ProducerArgs → ℕ → Shared → Turn
unfolding pushed queue_push
try_push args i s = pushed args i s (queue_push s.queue (args.id * 100 + i))

abbrev pub ends : Shared → Turn
ends s = record { place = finished; sleeps = none; shared = s }

-- `producer_routine`.
unfoldable pub producer_routine : ProducerArgs → Place → Shared → Turn
unfolding try_push
producer_routine args (for_at i) s = if ltb i args.produce_count then try_push args i s else ends s
producer_routine args (while_at i) s = try_push args i s
producer_routine args finished s = ends s

-- After the test of the `while` of a consumer.
unfoldable pub popped : ConsumerArgs → ℕ → Shared → Option ℕ × Queue → Turn
popped args i s (none, q) = record { place = while_at i; sleeps = some 10; shared = s }
popped args i s (some value, q) = record {
  place = for_at (i + 1);
  sleeps = some args.interval_ms;
  shared = record s { queue = q; consumed = s.consumed ++ value ∷ [] };
}

unfoldable pub try_pop : ConsumerArgs → ℕ → Shared → Turn
unfolding popped queue_pop
try_pop args i s = popped args i s (queue_pop s.queue)

-- `consumer_routine`.
unfoldable pub consumer_routine : ConsumerArgs → Place → Shared → Turn
unfolding try_pop
consumer_routine args (for_at i) s = if ltb i args.consume_count then try_pop args i s else ends s
consumer_routine args (while_at i) s = try_pop args i s
consumer_routine args finished s = ends s

pub data Routine : Type 0 where
  producer : ProducerArgs → Place → Routine
  consumer : ConsumerArgs → Place → Routine

-- A turn of one coroutine.
unfoldable pub turn : Routine → Shared → Routine × Shared
unfolding producer_routine consumer_routine
turn (producer args p) s = let t = producer_routine args p s in (producer args t.place, t.shared)
turn (consumer args p) s = let t = consumer_routine args p s in (consumer args t.place, t.shared)

-- A turn of the coroutine at an index.
unfoldable pub turn_at : ℕ → List Routine → Shared → List Routine × Shared
unfolding turn
turn_at i [] s = ([], s)
turn_at zero (r ∷ rs) s = let (x, t) = turn r s in (x ∷ rs, t)
turn_at (suc i) (r ∷ rs) s = let (xs, t) = turn_at i rs s in (r ∷ xs, t)

-- Turns in the order that the scheduler gives them.
unfoldable pub run : List ℕ → List Routine → Shared → List Routine × Shared
unfolding turn_at
run [] rs s = (rs, s)
run (i ∷ is) rs s = let (xs, t) = turn_at i rs s in run is xs t

-- `main`: the queue is empty, and nobody has run.
abbrev pub start : Shared
start = record {
  queue = record { buffer = λ _. 0; head = 0; tail = 0; count = 0 };
  produced = [];
  consumed = [];
}

abbrev pub main_routines : List Routine
main_routines =
    producer (record { id = 1; produce_count = 5; interval_ms = 30 }) (for_at 0)
    ∷ producer (record { id = 2; produce_count = 3; interval_ms = 50 }) (for_at 0)
    ∷ consumer (record { id = 1; consume_count = 4; interval_ms = 40 }) (for_at 0)
    ∷ consumer (record { id = 2; consume_count = 4; interval_ms = 60 }) (for_at 0)
    ∷ []
