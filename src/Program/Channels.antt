-- ===== src/Program/Channels.antt =====
-- The operations of a channel that take coroutines off its lines.
use libco.Base.{
  ℕ, ◌≡◌, refl, Bool, false, Option, none, some, List, [], ◌∷◌, arith, ◌==◌, ◌||◌, ltb, inl, inr,
  Bool-cases, Option-cases, eq_self,
}
use libco.Runtime.{World, wake, set_queue}
use libco.Channel.{
  wake_all, close, set_channel, set_cell, drop, send_now, send_to, recv_now, recv_from, refill,
  trysend, tryrecv,
}
use libco.Program.{Call}
use libco.Program.Invariant.{Somewhere}
use libco.Program.Wakes.{alike-Somewhere, woken-Somewhere}

module _ (is_cond : ℕ → Bool) (calls : ℕ → Call) (runs : Option ℕ) where
  wake_all-Somewhere :
      (line : List ℕ) (w : World) (q : ℕ)
      → w.queues q ≡ line
      → is_cond q ≡ false
      → Somewhere is_cond runs w calls
      → Somewhere is_cond runs (wake_all line w q) calls
  unfolding wake_all wake
  wake_all-Somewhere [] w q e n h = h
  wake_all-Somewhere (p ∷ rest) w q e n h =
      wake_all-Somewhere rest (wake (set_queue w q rest) p) q (ground arith) n
        (woken-Somewhere is_cond calls runs w q p rest e n h)

  -- A line is named by the channel that it belongs to, which an update may name again.
  pub close-Somewhere :
      (w : World) (c : ℕ)
      → is_cond (w.channels c).send_queue ≡ false
      → is_cond (w.channels c).recv_queue ≡ false
      → Somewhere is_cond runs w calls
      → Somewhere is_cond runs (close w c).1 calls
  unfolding close
  close-Somewhere w c a b h = elim (Bool-cases (c == 0)) [
    | inl z ↦ rw z h
    | inr named ↦ rw named (elim (Bool-cases (w.channels c).closed) [
      | inl shut ↦ rw shut h
      | inr open_still ↦ rw open_still (
          wake_all-Somewhere _ _ (w.channels c).send_queue refl a (
            wake_all-Somewhere _ _ (w.channels c).recv_queue refl b
              (alike-Somewhere is_cond calls runs w _ refl refl refl h)))
    ])
  ]

  -- What an attempt to send or to receive leaves, if it succeeds.
  abbrev pub Done : Option World → Type 0
  Done none = Unit {0}
  Done (some v) = Somewhere is_cond runs v calls

  pub send_now-Done :
      (w : World) (c ptr : ℕ)
      → is_cond (w.channels c).recv_queue ≡ false
      → Somewhere is_cond runs w calls
      → Done (send_now w c ptr)
  unfolding send_now wake
  send_now-Done w c ptr n h = go (w.queues (w.channels c).recv_queue) refl
    where
      go : (line : List ℕ) → w.queues (w.channels c).recv_queue ≡ line → Done (send_to line w c ptr)
      go [] e = elim (Bool-cases (ltb (w.channels c).count (w.channels c).capacity)) [
        | inl room ↦ rw room (alike-Somewhere is_cond calls runs w _ refl refl refl h)
        | inr full ↦ rw full tt
      ]
      go (p ∷ rest) e =
          alike-Somewhere is_cond calls runs (wake (set_queue w (w.channels c).recv_queue rest) p) _
            refl refl refl
            (woken-Somewhere is_cond calls runs w (w.channels c).recv_queue p rest e n h)

  refill-Somewhere :
      (w : World) (c : ℕ) (line : List ℕ)
      → w.queues (w.channels c).send_queue ≡ line
      → is_cond (w.channels c).send_queue ≡ false
      → Somewhere is_cond runs w calls
      → Somewhere is_cond runs (refill line w c) calls
  unfolding refill wake
  refill-Somewhere w c [] e n h = h
  refill-Somewhere w c (p ∷ rest) e n h =
      alike-Somewhere is_cond calls runs (wake (set_queue w (w.channels c).send_queue rest) p) _
        refl refl refl (woken-Somewhere is_cond calls runs w (w.channels c).send_queue p rest e n h)

  pub recv_now-Done :
      (w : World) (c ptr : ℕ)
      → is_cond (w.channels c).send_queue ≡ false
      → Somewhere is_cond runs w calls
      → Done (recv_now w c ptr)
  unfolding recv_now recv_from wake
  recv_now-Done w c ptr n h = elim (Bool-cases (ltb 0 (w.channels c).count)) [
    | inl more ↦
        let taken : World =
          set_channel (set_cell w ptr ((w.channels c).buffer (w.channels c).head)) c
            (drop (w.channels c)) in
        let line : (taken.channels c).send_queue ≡ (w.channels c).send_queue =
          rw (eq_self c) refl in
        rw more (
          rw line at (
            refill-Somewhere taken c (taken.queues (taken.channels c).send_queue) refl (rw line n)
              (alike-Somewhere is_cond calls runs w taken refl refl refl h)))
    | inr empty ↦ rw empty (go (w.queues (w.channels c).send_queue) refl)
  ]
    where
      go :
          (line : List ℕ)
          → w.queues (w.channels c).send_queue ≡ line
          → Done (recv_from line w c ptr)
      go [] e = tt
      go (p ∷ rest) e =
          alike-Somewhere is_cond calls runs (wake (set_queue w (w.channels c).send_queue rest) p) _
            refl refl refl
            (woken-Somewhere is_cond calls runs w (w.channels c).send_queue p rest e n h)

  pub trysend-Somewhere :
      (w : World) (c ptr : ℕ)
      → is_cond (w.channels c).recv_queue ≡ false
      → Somewhere is_cond runs w calls
      → Somewhere is_cond runs (trysend w c ptr).1 calls
  unfolding trysend
  trysend-Somewhere w c ptr n h = elim (Bool-cases (c == 0 || ptr == 0)) [
    | inl null ↦ rw null h
    | inr named ↦ rw named (elim (Bool-cases (w.channels c).closed) [
      | inl shut ↦ rw shut h
      | inr open_still ↦ rw open_still (elim (Option-cases (send_now w c ptr)) [
        | inl e ↦ rw e h
        | inr (v, e) ↦ rw e (rw e at (send_now-Done w c ptr n h))
      ])
    ])
  ]

  pub tryrecv-Somewhere :
      (w : World) (c ptr : ℕ)
      → is_cond (w.channels c).send_queue ≡ false
      → Somewhere is_cond runs w calls
      → Somewhere is_cond runs (tryrecv w c ptr).1 calls
  unfolding tryrecv
  tryrecv-Somewhere w c ptr n h = elim (Bool-cases (c == 0 || ptr == 0)) [
    | inl null ↦ rw null h
    | inr named ↦ rw named (elim (Option-cases (recv_now w c ptr)) [
      | inr (v, e) ↦ rw e (rw e at (recv_now-Done w c ptr n h))
      | inl e ↦
          rw e (elim (Bool-cases (w.channels c).closed) [ inl shut ↦ rw shut h | inr o ↦ rw o h ])
    ])
  ]
