-- ===== src/Channel/Refused.antt =====
-- When a send or a receive finds nothing to do at once, and the line that the caller then joins.
use libco.Base.{ℕ, ◌≡◌, inl, inr, refl, false, none, List, [], ◌∷◌, arith, ltb, Bool-cases}
use libco.Runtime.{World, block}
use libco.Channel.{send_now, send_to, recv_now, recv_from}
use libco.Channel.Stream.{senders, receivers, stream, IsSound, wait_at}

-- `send_now` fails only where the buffer is full and nobody waits to receive.
pub send_now-none :
    (w : World) (c ptr : ℕ)
    → send_now w c ptr ≡ none
    → IsSound w c
    → (receivers w c ≡ []) × ((w.channels c).count ≡ (w.channels c).capacity)
unfolding send_now send_to
send_now-none w c ptr e s = go (receivers w c) refl
  where
    go :
        (line : List ℕ)
        → receivers w c ≡ line
        → (receivers w c ≡ []) × ((w.channels c).count ≡ (w.channels c).capacity)
    go [] f = elim (Bool-cases (ltb (w.channels c).count (w.channels c).capacity)) [
      | inl room ↦ let no_way = rw (f, send_to, room) at e in cc
      | inr no_room ↦ (f, ground (arith, no_room, s.ring.bounded))
    ]
    go (p ∷ ps) f = let no_way = rw f at e in cc

pub send_now-full :
    (w : World) (c ptr : ℕ)
    → receivers w c ≡ []
    → ltb (w.channels c).count (w.channels c).capacity ≡ false
    → send_now w c ptr ≡ none
unfolding send_now send_to
send_now-full w c ptr f e = rw (f, e)

-- `recv_now` fails only where nothing is buffered and nobody waits to send.
pub recv_now-none :
    (w : World) (c ptr : ℕ)
    → recv_now w c ptr ≡ none
    → (senders w c ≡ []) × ((w.channels c).count ≡ 0)
unfolding recv_now recv_from
recv_now-none w c ptr e = elim (Bool-cases (ltb 0 (w.channels c).count)) [
  | inl more ↦ let no_way = rw more at e in cc
  | inr empty ↦ go (senders w c) refl (rw empty at e) (ground arith)
]
  where
    go :
        (line : List ℕ)
        → senders w c ≡ line
        → recv_from (senders w c) w c ptr ≡ none
        → (w.channels c).count ≡ 0
        → (senders w c ≡ []) × ((w.channels c).count ≡ 0)
    go [] f g z = (f, z)
    go (p ∷ ps) f g z = let no_way = rw f at g in cc

-- A coroutine that waits to receive is on the receivers' line, and nothing is under way.
pub join-receivers :
    (w : World) (c p ptr : ℕ)
    → IsSound w c
    → senders w c ≡ []
    → (w.channels c).count ≡ 0
    → let v = wait_at w p (w.channels c).recv_queue ptr in IsSound v c × (stream v c ≡ stream w c)
unfolding block stream
join-receivers w c p ptr s n z =
    let no_line : (wait_at w p (w.channels c).recv_queue ptr).queues (w.channels c).send_queue
        ≡ [] =
      ground (arith, n, s.apart) in
    (
      record { ring = s.ring; apart = s.apart; full = inl no_line; idle = inr (z, no_line) },
      rw (no_line, n),
    )
