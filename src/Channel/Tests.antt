-- ===== src/Channel/Tests.antt =====
-- A channel of two slots at 400, with its lines at 101 and 102. Coroutine 50 runs; the cell at an
-- address holds the address.
use libco.Base.{◌≡◌, refl, [], ◌∷◌, arith}
use libco.Runtime.{World, world, ok, closed}
use libco.Runtime.Samples.{sample, switch}
use libco.Channel.{send, recv, close, resume}
use libco.Channel.Ring.{buffered, slots}
use libco.Channel.Stream.{stream}
use libco.Channel.Close.{Closed, close-Closed}

-- Two sends fill the buffer, the third waits, and a receive takes the first element and makes room.
abbrev one : World
one = world (send sample 400 7)

abbrev two : World
two = world (send one 400 8)

abbrev three : World
three = world (send two 400 9)

abbrev taken : World
taken = world (recv (switch three 51) 400 77)

exchange :
    (stream three 400 ≡ 7 ∷ 8 ∷ 9 ∷ [])
    × (taken.cells 77 ≡ 7)
    × (buffered (taken.channels 400) ≡ 8 ∷ 9 ∷ [])
    × (taken.sched.ready_queue ≡ 50 ∷ [])
unfolding send recv stream buffered slots
exchange = (refl, refl, refl, refl)

-- With the third sender waiting, the channel is closed.
close-Closed_example : ((close three 400).0 ≡ ok) × Closed three 400 (close three 400).1
unfolding send
close-Closed_example = close-Closed three 400 (omega arith) refl (omega arith)

-- The third element is in the buffer after the receive; closing then makes its sender see CLOSED.
served_but_closed :
    (buffered (taken.channels 400) ≡ 8 ∷ 9 ∷ []) × (resume (close taken 400).1 400 ≡ closed)
unfolding send recv close buffered slots resume
served_but_closed = (refl, refl)
