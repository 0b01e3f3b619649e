-- ===== src/Channel/Fifo.antt =====
-- A channel over every interleaving of sends and receives, until it is closed.
use libco.Base.{ℕ, ◌≡◌, inl, inr, false, some, List, [], ◌∷◌, ◌++◌, arith, store, has, eq_self}
use libco.Runtime.{ok, World, returns, suspends, current, wake, set_queue}
use libco.Channel.{set_cell, send_now, send, recv}
use libco.Channel.Ring.{buffered-nil}
use libco.Channel.Stream.{senders, receivers, stream, IsSound, IsClear}

-- Where a send that led from `w` to `v` found a receiver waiting: what then is where that one asked.
unfoldable pub delivered_to : List ℕ → (w v : World) → List ℕ
delivered_to [] w v = []
delivered_to (p ∷ ps) w v = v.cells (w.routines p).chan_data ∷ []

abbrev pub delivered : (w v : World) → (c : ℕ) → List ℕ
delivered w v c = delivered_to (receivers w c) w v

-- What can happen to a channel. `sent` are the elements of the sends that did not fail, and `got`
-- those that are then found where a receiver asked for them, each in order. A coroutine that calls is on
-- no line. A receive does not point at a waiting sender's element. In between, anything
-- happens that leaves the channel, its lines and the waiting senders' elements alone.
pub data Run (c : ℕ) : World → List ℕ → List ℕ → Type 0 where
  start : {w : World} → IsSound w c → stream w c ≡ [] → Run c w [] []
  sent_now :
      {w v : World} {sent got : List ℕ} (ptr : ℕ)
      → Run c w sent got
      → send w c ptr ≡ returns ok v
      → Run c v (sent ++ w.cells ptr ∷ []) (got ++ delivered w v c)
  sent_later :
      {w v : World} {sent got : List ℕ} (p ptr : ℕ)
      → Run c w sent got
      → current w ≡ some p
      → has p (senders w c) ≡ false
      → send w c ptr ≡ suspends v
      → Run c v (sent ++ w.cells ptr ∷ []) got
  got_now :
      {w v : World} {sent got : List ℕ} (ptr : ℕ)
      → Run c w sent got
      → IsClear w c ptr
      → recv w c ptr ≡ returns ok v
      → Run c v sent (got ++ v.cells ptr ∷ [])
  got_later :
      {w v : World} {sent got : List ℕ} (p ptr : ℕ)
      → Run c w sent got
      → current w ≡ some p
      → recv w c ptr ≡ suspends v
      → Run c v sent got
  elsewhere :
      {w v : World} {sent got : List ℕ}
      → Run c w sent got
      → v.channels c ≡ w.channels c
      → senders v c ≡ senders w c
      → receivers v c ≡ receivers w c
      → stream v c ≡ stream w c
      → Run c v sent got

-- The channel is sound, and what was sent is what was received, then what is under way.
pub record InOrder (w : World) (c : ℕ) (sent got : List ℕ) : Type 0 where
  pub sound : IsSound w c
  pub order : sent ≡ got ++ stream w c

-- A send that finds a receiver delivers to the first one: its element is where that one asked.
pub send_now-deliver :
    (w : World) (c ptr p : ℕ) (ps : List ℕ)
    → IsSound w c
    → receivers w c ≡ p ∷ ps
    → let v =
        wake
          (set_cell
            (set_queue w (w.channels c).recv_queue ps)
            (w.routines p).chan_data
            (w.cells ptr))
          p in
      (send_now w c ptr ≡ some v)
      × IsSound v c
      × (v.cells (w.routines p).chan_data ≡ w.cells ptr)
      × (stream w c ≡ [])
      × (stream v c ≡ [])
unfolding send_now stream wake
send_now-deliver w c ptr p ps s e =
    let (z, n) = nothing_there in
    let no_line : store w.queues (w.channels c).recv_queue ps (w.channels c).send_queue ≡ [] =
      ground (arith, n, s.apart) in
    (
      rw e,
      record { ring = s.ring; apart = s.apart; full = inl no_line; idle = inr (z, no_line) },
      rw (eq_self (w.routines p).chan_data),
      rw (buffered-nil (w.channels c) z, n),
      rw (buffered-nil (w.channels c) z, no_line),
    )
  where
    nothing_there : ((w.channels c).count ≡ 0) × (senders w c ≡ [])
    nothing_there = elim s.idle [ inl f ↦ cc | inr zn ↦ zn ]
