-- ===== src/Channel/Receive.antt =====
-- A receive takes the front of the stream.
use libco.Base.{
  ℕ, ◌<◌, ◌≡◌, inl, inr, refl, ap, true, false, none, some, List, [], ◌∷◌, ◌++◌, arith, store, ltb,
  has, Bool-cases, eq_self,
}
use mathlib.Core.Path.{subst₂}
use mathlib.Core.List.{append-nil, append_assoc}
use libco.Runtime.{World, Channel, wake, set_queue}
use libco.Channel.{set_channel, set_cell, put, drop, recv_now, recv_from}
use libco.Channel.Ring.{
  buffered, put-IsRing, drop-IsRing, buffered-put, buffered-drop, buffered-nil,
}
use libco.Channel.Stream.{
  values, senders, stream, IsSound, IsClear, Received, values-wake, none_waits, recv_now-buffered,
}

module _ (w : World) (c ptr p : ℕ) (ps : List ℕ) (s : IsSound w c) (clear : IsClear w c ptr)
    (e : senders w c ≡ p ∷ ps) where
  abbrev ch : Channel
  ch = w.channels c

  -- The element that the first sender offers.
  abbrev offer : ℕ
  offer = w.cells (w.routines p).chan_data

  others_clear :
      (a : ℕ) (q : ℕ)
      → has q ps ≡ true
      → store w.cells ptr a (w.routines q).chan_data ≡ w.cells (w.routines q).chan_data
  others_clear a q i = ground (arith, clear q (ground (arith, ap (has q) e)))

  offer_clear : (a : ℕ) → store w.cells ptr a (w.routines p).chan_data ≡ offer
  offer_clear a = ground (arith, clear p (ground (arith, ap (has p) e)))

  -- The world after a buffered element is received and the first sender's has taken the slot.
  abbrev refilled : World
  refilled =
      let w1 = set_channel (set_cell w ptr (ch.buffer ch.head)) c (drop ch) in
      let w2 = set_queue w1 ch.send_queue ps in
      wake (set_channel w2 c (put (drop ch) (w1.cells (w.routines p).chan_data))) p

  recv_now-refilled : 0 < ch.count → recv_now w c ptr ≡ some refilled
  unfolding recv_now
  recv_now-refilled h = let more : ltb 0 ch.count ≡ true = ground arith in rw (more, e, eq_self c)

  refilled-Received :
      0 < ch.count
      → Received w c ptr
          (ch.buffer ch.head)
          (buffered (drop ch) ++ offer ∷ values w.cells w.routines ps)
          refilled
  unfolding stream wake
  refilled-Received h =
      let was_full : ch.count ≡ ch.capacity = elim s.full [ inl none_there ↦ cc | inr f ↦ f ] in
      let ring = drop-IsRing ch s.ring h in
      record {
        sound = record {
          ring = rw (eq_self c) (put-IsRing (drop ch) _ ring (omega arith));
          apart = rw (eq_self c) s.apart;
          full = inr (rw (eq_self c) (omega arith));
          idle = inl (rw (eq_self c) (ground (arith, none_waits w c s h, s.apart)));
        };
        got = rw (eq_self ptr);
        left =
            rw
              (
                eq_self c,
                eq_self ch.send_queue,
                buffered-put (drop ch) _ ring (omega arith),
                offer_clear (ch.buffer ch.head),
                values-wake (store w.cells ptr (ch.buffer ch.head)) w.cells w p ps
                    (others_clear (ch.buffer ch.head)),
              )
              (append_assoc (buffered (drop ch)) (offer ∷ []) (values w.cells w.routines ps));
      }

  -- The world after an element is taken from the first sender.
  abbrev handed : World
  handed = wake (set_cell (set_queue w ch.send_queue ps) ptr offer) p

  recv_now-handed : ch.count ≡ 0 → recv_now w c ptr ≡ some handed
  unfolding recv_now
  recv_now-handed h = let empty : ltb 0 ch.count ≡ false = ground arith in rw (empty, e)

  handed-Received : ch.count ≡ 0 → Received w c ptr offer (values w.cells w.routines ps) handed
  unfolding stream wake
  handed-Received h =
      let was_full : ch.count ≡ ch.capacity = elim s.full [ inl none_there ↦ cc | inr f ↦ f ] in
      record {
        sound = record {
          ring = s.ring;
          apart = s.apart;
          full = inr was_full;
          idle = elim s.idle [ inl r ↦ inl (ground (arith, r, s.apart)) | inr (z, f) ↦ cc ];
        };
        got = rw (eq_self ptr);
        left =
            rw
              (
                eq_self ch.send_queue,
                values-wake (store w.cells ptr offer) w.cells w p ps (others_clear offer),
              )
              (rw (buffered-nil ch h));
      }

-- A receive that finds an element, buffered or offered, takes the first of the stream and leaves
-- the rest, on every path. `none` is left only where the stream is empty.
module _ (w : World) (c ptr : ℕ) (s : IsSound w c) (clear : IsClear w c ptr) where
  pub recv_now-Received :
      (x : ℕ) (xs : List ℕ)
      → stream w c ≡ x ∷ xs
      → (v : World) × (recv_now w c ptr ≡ some v) × Received w c ptr x xs v
  unfolding stream
  recv_now-Received x xs f = elim (Bool-cases (ltb 0 ch.count)) [
    | inl more ↦ buffer_case (senders w c) refl (ground arith)
    | inr empty ↦ line_case (senders w c) refl (ground arith)
  ]
    where
      ch : Channel
      ch = w.channels c

      eqs :
          {a : ℕ} {bs : List ℕ} {v : World}
          → a ∷ bs ≡ x ∷ xs
          → Received w c ptr a bs v
          → Received w c ptr x xs v
      eqs {a} {bs} {v} e r =
          let head : a ≡ x = cc in
          let tail : bs ≡ xs = cc in
          subst₂ (λ (y : ℕ) (ys : List ℕ). Received w c ptr y ys v) head tail r

      buffer_case :
          (line : List ℕ)
          → senders w c ≡ line
          → 0 < ch.count
          → (v : World) × (recv_now w c ptr ≡ some v) × Received w c ptr x xs v
      buffer_case [] e h =
          let (ran, r) = recv_now-buffered w c ptr s h e in
          (_, ran, eqs (rw (e, buffered-drop ch h, append-nil (buffered (drop ch))) at f) r)
      buffer_case (p ∷ ps) e h = (
        refilled w c ptr p ps s clear e,
        recv_now-refilled w c ptr p ps s clear e h,
        eqs (rw (e, buffered-drop ch h) at f) (refilled-Received w c ptr p ps s clear e h),
      )

      line_case :
          (line : List ℕ)
          → senders w c ≡ line
          → ch.count ≡ 0
          → (v : World) × (recv_now w c ptr ≡ some v) × Received w c ptr x xs v
      line_case [] e h = let no_way = rw (e, buffered-nil ch h) at f in cc
      line_case (p ∷ ps) e h = (
        handed w c ptr p ps s clear e,
        recv_now-handed w c ptr p ps s clear e h,
        eqs (rw (e, buffered-nil ch h) at f) (handed-Received w c ptr p ps s clear e h),
      )

-- Where the stream is empty no element is found.
pub recv_now-nil : (w : World) (c ptr : ℕ) → stream w c ≡ [] → recv_now w c ptr ≡ none
unfolding recv_now recv_from stream
recv_now-nil w c ptr f = elim (Bool-cases (ltb 0 (w.channels c).count)) [
  | inl more ↦ let no_way = rw (buffered-drop (w.channels c) (ground arith)) at f in cc
  | inr empty ↦ rw empty (go (senders w c) refl (ground arith))
]
  where
    go :
        (line : List ℕ)
        → senders w c ≡ line
        → (w.channels c).count ≡ 0
        → recv_from (senders w c) w c ptr ≡ none
    go [] e z = rw e
    go (p ∷ ps) e z = let no_way = rw (e, buffered-nil (w.channels c) z) at f in cc
