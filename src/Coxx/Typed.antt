-- ===== src/Coxx/Typed.antt =====
-- libcoxx/include/coxx/channel.hpp: co::Channel<T>, over the channel at `c`. A call that suspends ends
-- at its switch, and `recv_woken` is the rest of a receive.
use libco.Base.{ℕ, zero, suc, Option, none, some, List, [], ◌∷◌, ◌++◌}
use libco.Runtime.{Error, ok, World, Outcome, returns, suspends}
use libco.Channel.{recv, tryrecv, resume}

-- What a receive gives, or that it waits.
pub data Asked : Type 0 where
  received : Option ℕ → World → Asked
  waits : World → Asked

-- The value at `val`, the local variable of a receive, or `nullopt`.
unfoldable pub taken : Error → World → (val : ℕ) → Option ℕ
taken ok w val = some (w.cells val)
taken _ w val = none

unfoldable pub asked : Outcome → (val : ℕ) → Asked
unfolding taken
asked (returns e w) val = received (taken e w val) w
asked (suspends w) val = waits w

-- `recv`.
unfoldable pub recv_value : World → (c val : ℕ) → Asked
unfolding asked recv
recv_value w c val = asked (recv w c val) val

-- And from the switch on.
unfoldable pub recv_woken : World → (c val : ℕ) → Option ℕ
unfolding taken resume
recv_woken w c val = taken (resume w c) w val

-- `try_recv`.
unfoldable pub try_recv : World → (c val : ℕ) → Option ℕ × World
unfolding taken tryrecv
try_recv w c val = let (e, v) = tryrecv w c val in (taken e v val, v)

-- How far a loop `for (T x : channel)` gets, with the values that its body was given.
pub data Loop : Type 0 where
  leaves : List ℕ → World → Loop
  suspended : List ℕ → World → Loop
  unfinished : Loop

-- The loop, whose body leaves the runtime alone: `begin` and `++` receive, `!=` looks for a value.
unfoldable pub each : (fuel c val : ℕ) → (seen : List ℕ) → World → Loop
unfolding recv_value
each zero c val seen w = unfinished
each (suc n) c val seen w = elim (recv_value w c val) [
  | received x v ↦ elim x [ none ↦ leaves seen v | some a ↦ each n c val (seen ++ a ∷ []) v ]
  | waits v ↦ suspended seen v
]
