-- ===== src/Channel.antt =====
-- libco/src/sync/co_channel.c: the channel, a ring buffer with two wait queues.
-- An element is one value, copied whole, at an address of `cells`; slot `i` of the buffer is the
-- element at `i * elem_size`. A call that suspends returns at its switch to the scheduler, and
-- `resume` is the rest of send and recv.
pub mod Receive
pub mod Refused
pub mod Calls
pub mod Close
pub mod Fifo
pub mod Ring
pub mod Stream
mod Tests
use libco.Base.{
  ℕ, suc, ◌+◌, ◌-◌, ◌*◌, ◌%◌, Bool, true, false, Option, none, some, List, [], ◌∷◌, ◌||◌, ◌==◌,
  if◌then◌else◌, ltb, store, mul_size,
}
use libco.Runtime.{
  Error, ok, inval, busy, closed, World, Channel, Outcome, returns, suspends, current, wake, block,
  set_queue, set_routine,
}

abbrev pub set_channel : World → ℕ → Channel → World
set_channel w c ch = record w { channels = store w.channels c ch }

-- `memcpy` of one element.
abbrev pub set_cell : World → ℕ → ℕ → World
set_cell w a v = record w { cells = store w.cells a v }

-- `co_channel_create`: `calloc` gives the address, with those of the two queues in it, and `malloc`
-- says whether the buffer's bytes are granted.
unfoldable pub create :
    (calloc : Option (ℕ × ℕ × ℕ))
    → (malloc : ℕ → Bool) → World
    → (elem_size capacity : ℕ) → Option ℕ × World
create none malloc w elem_size capacity = (none, w)
create (some (c, send_queue, recv_queue)) malloc w elem_size capacity =
    let ch : Channel = record {
      elem_size = elem_size;
      capacity = capacity;
      buffer = λ _. 0;
      head = 0;
      tail = 0;
      count = 0;
      send_queue = send_queue;
      recv_queue = recv_queue;
      closed = false;
    } in
    let made = set_queue (set_queue (set_channel w c ch) send_queue []) recv_queue [] in
    if elem_size == 0
    then (none, w)
    else if ltb 0 capacity
    then (if malloc (mul_size elem_size capacity) then (some c, made) else (none, w))
    else (some c, made)

-- The element `v` is written behind the buffered ones.
abbrev pub put : Channel → ℕ → Channel
put ch v = record ch {
  buffer = store ch.buffer ch.tail v;
  tail = (ch.tail + 1) % ch.capacity;
  count = ch.count + 1;
}

-- The oldest element is taken off the buffer.
abbrev pub drop : Channel → Channel
drop ch = record ch { head = (ch.head + 1) % ch.capacity; count = ch.count - 1 }

-- The first two priorities of a send: a waiting receiver, then room in the buffer. `none` if
-- neither is there.
unfoldable pub send_to : List ℕ → World → (c ptr : ℕ) → Option World
unfolding wake
send_to (p ∷ rest) w c ptr =
    let w1 = set_queue w (w.channels c).recv_queue rest in
    let w2 = set_cell w1 (w.routines p).chan_data (w.cells ptr) in some (wake w2 p)
send_to [] w c ptr =
    if ltb (w.channels c).count (w.channels c).capacity
    then some (set_channel w c (put (w.channels c) (w.cells ptr)))
    else none

unfoldable pub send_now : World → (c ptr : ℕ) → Option World
unfolding send_to
send_now w c ptr = send_to (w.queues (w.channels c).recv_queue) w c ptr

-- The coroutine points `chan_data` at its element, or at where one is to go, and waits.
unfoldable pub wait_as : Option ℕ → World → (queue ptr : ℕ) → Outcome
unfolding block
wait_as none w queue ptr = returns inval w
wait_as (some p) w queue ptr =
    suspends (block (set_routine w p (record (w.routines p) { chan_data = ptr })) queue p)

-- `co_channel_send` up to its switch.
unfoldable pub send : World → (c ptr : ℕ) → Outcome
unfolding send_now wait_as current
send w c ptr =
    if c == 0 || ptr == 0
    then returns inval w
    else if (w.channels c).closed
    then returns closed w
    else elim (send_now w c ptr) [
      | some v ↦ returns ok v
      | none ↦ wait_as (current w) w (w.channels c).send_queue ptr
    ]

-- `co_channel_trysend`.
unfoldable pub trysend : World → (c ptr : ℕ) → Error × World
unfolding send_now
trysend w c ptr =
    if c == 0 || ptr == 0
    then (inval, w)
    else if (w.channels c).closed
    then (closed, w)
    else elim (send_now w c ptr) [ some v ↦ (ok, v) | none ↦ (busy, w) ]

-- Space was freed: the first waiting sender's element moves into the buffer.
unfoldable pub refill : List ℕ → World → (c : ℕ) → World
unfolding wake
refill [] w c = w
refill (p ∷ rest) w c =
    let w1 = set_queue w (w.channels c).send_queue rest in
    wake (set_channel w1 c (put (w.channels c) (w.cells (w.routines p).chan_data))) p

-- A receive where nothing is buffered takes the element of the first waiting sender.
unfoldable pub recv_from : List ℕ → World → (c ptr : ℕ) → Option World
unfolding wake
recv_from [] w c ptr = none
recv_from (p ∷ rest) w c ptr =
    let w1 = set_queue w (w.channels c).send_queue rest in
    some (wake (set_cell w1 ptr (w.cells (w.routines p).chan_data)) p)

-- The first two priorities of a receive.
unfoldable pub recv_now : World → (c ptr : ℕ) → Option World
unfolding refill recv_from
recv_now w c ptr =
    let ch = w.channels c in
    let w1 = set_channel (set_cell w ptr (ch.buffer ch.head)) c (drop ch) in
    if ltb 0 ch.count
    then some (refill (w1.queues ch.send_queue) w1 c)
    else recv_from (w.queues ch.send_queue) w c ptr

-- `co_channel_recv` up to its switch.
unfoldable pub recv : World → (c ptr : ℕ) → Outcome
unfolding recv_now wait_as current
recv w c ptr = if c == 0 || ptr == 0 then returns inval w else elim (recv_now w c ptr) [
  | some v ↦ returns ok v
  | none ↦
      if (w.channels c).closed
      then returns closed w
      else wait_as (current w) w (w.channels c).recv_queue ptr
]

-- `co_channel_tryrecv`.
unfoldable pub tryrecv : World → (c ptr : ℕ) → Error × World
unfolding recv_now
tryrecv w c ptr = if c == 0 || ptr == 0 then (inval, w) else elim (recv_now w c ptr) [
  | some v ↦ (ok, v)
  | none ↦ if (w.channels c).closed then (closed, w) else (busy, w)
]

-- What send and recv return when their coroutine is resumed.
unfoldable pub resume : World → (c : ℕ) → Error
resume w c = if (w.channels c).closed then closed else ok

-- The loops of `co_channel_close`, which empty one queue.
unfoldable pub wake_all : List ℕ → World → (queue : ℕ) → World
unfolding wake
wake_all [] w queue = w
wake_all (p ∷ rest) w queue = wake_all rest (wake (set_queue w queue rest) p) queue

-- `co_channel_close`.
unfoldable pub close : World → (c : ℕ) → Error × World
unfolding wake_all
close w c =
    let ch = w.channels c in
    let w1 = set_channel w c (record ch { closed = true }) in
    let w2 = wake_all (w1.queues ch.recv_queue) w1 ch.recv_queue in
    if c == 0
    then (inval, w)
    else if ch.closed
    then (closed, w)
    else (ok, wake_all (w2.queues ch.send_queue) w2 ch.send_queue)

unfoldable pub len : World → (c : ℕ) → ℕ
len w c = if c == 0 then 0 else (w.channels c).count

unfoldable pub cap : World → (c : ℕ) → ℕ
cap w c = if c == 0 then 0 else (w.channels c).capacity

unfoldable pub is_closed : World → (c : ℕ) → Bool
is_closed w c = if c == 0 then true else (w.channels c).closed

-- `co_channel_destroy`, with the object whose memory is freed. That nobody waits is asserted. The buffer goes with the channel.
unfoldable pub destroy : (c : ℕ) → Error × Option ℕ
destroy c = if c == 0 then (inval, none) else (ok, some c)
