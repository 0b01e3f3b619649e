-- ===== src/Channel/Stream.antt =====
-- What is under way in a channel: the buffered elements, then those of the waiting senders.
use libco.Base.{
  ℕ, ◌<◌, ◌≡◌, ◌≢◌, ◌⊎◌, inl, inr, refl, ap, ◌∙◌, sym, true, false, some, List, [], ◌∷◌, ◌++◌,
  arith, ltb, has, eq_self,
}
use mathlib.Core.Path.{ap₂}
use mathlib.Core.List.{append-nil, append_assoc}
use libco.Runtime.{World, Routine, wake, block, set_routine}
use libco.Channel.{set_channel, set_cell, put, drop, send_now, send_to, recv_now, refill}
use libco.Channel.Ring.{buffered, IsRing, put-IsRing, drop-IsRing, buffered-put}

-- The elements that the coroutines of a line point at.
abbrev pub values : (ℕ → ℕ) → (ℕ → Routine) → List ℕ → List ℕ
values cells routines [] = []
values cells routines (p ∷ ps) = cells (routines p).chan_data ∷ values cells routines ps

abbrev pub senders : World → ℕ → List ℕ
senders w c = w.queues (w.channels c).send_queue

abbrev pub receivers : World → ℕ → List ℕ
receivers w c = w.queues (w.channels c).recv_queue

unfoldable pub stream : World → ℕ → List ℕ
stream w c = buffered (w.channels c) ++ values w.cells w.routines (senders w c)

-- A channel as the operations keep it: senders wait only at a full buffer, and receivers only
-- where there is nothing to receive.
pub record IsSound (w : World) (c : ℕ) : Type 0 where
  pub ring : IsRing (w.channels c)
  pub apart : (w.channels c).send_queue ≢ (w.channels c).recv_queue
  pub full : (senders w c ≡ []) ⊎ ((w.channels c).count ≡ (w.channels c).capacity)
  pub idle : (receivers w c ≡ []) ⊎ (((w.channels c).count ≡ 0) × (senders w c ≡ []))

-- The values of a line do not depend on a coroutine that is not on it, nor on other cells.
pub values-eq :
    (f g : ℕ → ℕ) (r s : ℕ → Routine) (ps : List ℕ)
    → ((p : ℕ) → has p ps ≡ true → f (r p).chan_data ≡ g (s p).chan_data)
    → values f r ps ≡ values g s ps
values-eq f g r s [] h = refl
values-eq f g r s (p ∷ ps) h =
    ground (arith, h p (ground arith), values-eq f g r s ps (λ q i. h q (ground arith)))

pub values-snoc :
    (f : ℕ → ℕ) (r : ℕ → Routine) (ps : List ℕ) (p : ℕ)
    → values f r (ps ++ p ∷ []) ≡ values f r ps ++ f (r p).chan_data ∷ []
values-snoc f r [] p = refl
values-snoc f r (q ∷ ps) p = ap (λ (xs : List ℕ). f (r q).chan_data ∷ xs) (values-snoc f r ps p)

-- No receiver waits at a buffer with elements.
pub none_waits : (w : World) (c : ℕ) → IsSound w c → 0 < (w.channels c).count → receivers w c ≡ []
none_waits w c s h = elim s.idle [ inl e ↦ e | inr (e, f) ↦ absurd (omega arith) ]

-- No sender waits at a buffer with room.
pub no_sender :
    (w : World) (c : ℕ)
    → IsSound w c
    → (w.channels c).count < (w.channels c).capacity
    → senders w c ≡ []
no_sender w c s h = elim s.full [ inl e ↦ e | inr e ↦ absurd (omega arith) ]

-- A send with nobody waiting to receive and room in the buffer.
pub send_now-put :
    (w : World) (c ptr : ℕ)
    → IsSound w c
    → receivers w c ≡ []
    → (w.channels c).count < (w.channels c).capacity
    → let v = set_channel w c (put (w.channels c) (w.cells ptr)) in
      (send_now w c ptr ≡ some v) × IsSound v c × (stream v c ≡ stream w c ++ w.cells ptr ∷ [])
unfolding send_now stream
send_now-put w c ptr s e h =
    let room : ltb (w.channels c).count (w.channels c).capacity ≡ true = ground arith in
    rw (e, eq_self c, send_to, room)
      (
        refl,
        record {
          ring = rw (eq_self c) (put-IsRing (w.channels c) (w.cells ptr) s.ring h);
          apart = rw (eq_self c) s.apart;
          full = inl (rw (eq_self c) (no_sender w c s h));
          idle = inl (rw (eq_self c) e);
        },
        rw (buffered-put (w.channels c) (w.cells ptr) s.ring h, no_sender w c s h)
            (simp append-nil),
      )

-- A coroutine that waits with `chan_data` at `ptr`.
abbrev pub wait_at : World → (p queue ptr : ℕ) → World
wait_at w p queue ptr = block (set_routine w p (record (w.routines p) { chan_data = ptr })) queue p

values-wait_at :
    (w : World) (p queue ptr : ℕ) (ps : List ℕ)
    → has p ps ≡ false
    → values w.cells (wait_at w p queue ptr).routines (ps ++ p ∷ [])
      ≡ values w.cells w.routines ps ++ w.cells ptr ∷ []
unfolding block
values-wait_at w p queue ptr ps out =
    let r = (wait_at w p queue ptr).routines in
    let kept : values w.cells r ps ≡ values w.cells w.routines ps =
      values-eq w.cells w.cells r w.routines ps (λ q i. ground arith) in
    let new : w.cells (r p).chan_data ≡ w.cells ptr = rw (eq_self p) in
    values-snoc w.cells r ps p ∙ ap₂ (λ (xs : List ℕ) (x : ℕ). xs ++ x ∷ []) kept new

-- A coroutine that is not in line joins the senders with its element.
pub join-senders :
    (w : World) (c p ptr : ℕ)
    → IsSound w c
    → receivers w c ≡ []
    → (w.channels c).count ≡ (w.channels c).capacity
    → has p (senders w c) ≡ false
    → let v = wait_at w p (w.channels c).send_queue ptr in
      IsSound v c × (stream v c ≡ stream w c ++ w.cells ptr ∷ [])
unfolding block stream
join-senders w c p ptr s e f out = (
  record { ring = s.ring; apart = s.apart; full = inr f; idle = inl (ground (arith, e, s.apart)) },
  rw
      (
        eq_self (w.channels c).send_queue,
        values-wait_at w p (w.channels c).send_queue ptr (senders w c) out,
      )
      (sym (append_assoc (buffered (w.channels c)) _ _)),
)

-- Where a receive puts its element no waiting sender's element lies.
abbrev pub IsClear : World → ℕ → ℕ → Type 0
IsClear w c ptr = (p : ℕ) → has p (senders w c) ≡ true → (w.routines p).chan_data ≢ ptr

-- What a receive that finds an element does with it.
pub record Received (w : World) (c ptr x : ℕ) (xs : List ℕ) (v : World) : Type 0 where
  pub sound : IsSound v c
  pub got : v.cells ptr ≡ x
  pub left : stream v c ≡ xs

-- The first sender's element leaves with the sender.
pub values-wake :
    (f g : ℕ → ℕ) (w : World) (p : ℕ) (ps : List ℕ)
    → ((q : ℕ) → has q ps ≡ true → f (w.routines q).chan_data ≡ g (w.routines q).chan_data)
    → values f (wake w p).routines ps ≡ values g w.routines ps
unfolding wake
values-wake f g w p ps h =
    values-eq f g (wake w p).routines w.routines ps (λ q i. ground (arith, h q i))

-- A buffered element is received and nobody waits to send.
pub recv_now-buffered :
    (w : World) (c ptr : ℕ)
    → IsSound w c
    → 0 < (w.channels c).count
    → senders w c ≡ []
    → let ch = w.channels c in
      let v = set_channel (set_cell w ptr (ch.buffer ch.head)) c (drop ch) in
      (recv_now w c ptr ≡ some v) × Received w c ptr (ch.buffer ch.head) (buffered (drop ch)) v
unfolding recv_now stream
recv_now-buffered w c ptr s h e =
    let ch = w.channels c in
    let more : ltb 0 ch.count ≡ true = ground arith in
    rw (more, e, refill)
      (
        refl,
        record {
          sound = record {
            ring = rw (eq_self c) (drop-IsRing ch s.ring h);
            apart = rw (eq_self c) s.apart;
            full = inl (rw (eq_self c) e);
            idle = inl (rw (eq_self c) (none_waits w c s h));
          };
          got = rw (eq_self ptr);
          left = rw (eq_self c, e) (append-nil (buffered (drop ch)));
        },
      )
