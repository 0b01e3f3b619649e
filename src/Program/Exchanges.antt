-- ===== src/Program/Exchanges.antt =====
-- What the operations on a channel do to the lines and to who is ready.
use libco.Base.{
  ℕ, ◌≡◌, refl, sym, ◌∙◌, subst, Bool, true, Option, none, some, List, [], ◌∷◌, ◌||◌, ◌==◌, arith,
  has, ltb, inl, inr, Bool-cases, Option-cases, eq_self, eq_of_some, if_true, if_false,
}
use libco.Runtime.{World, wake, set_queue}
use libco.Channel.{
  set_cell, set_channel, put, drop, trysend, tryrecv, close, send_now, send_to, recv_now, recv_from,
  refill, wake_all,
}
use libco.Program.Tame.{Tame, same-Tame, Tame-then, kept-Tame, wake-Tame, shrink-Tame, pop-Tame}

module _ (mine : ℕ → Bool) (line : Option ℕ) where
  wake_all-Tame :
      (xs : List ℕ) (w : World) (c : ℕ)
      → ((x : ℕ) → has x xs ≡ true → has x (w.queues c) ≡ true)
      → Tame mine line w (wake_all xs w c)
  unfolding wake_all wake
  wake_all-Tame [] w c k = same-Tame mine line w
  wake_all-Tame (p ∷ rest) w c k =
      Tame-then mine line
        (Tame-then mine line (shrink-Tame mine line w c rest (λ x h. k x (ground (arith, h))))
          (wake-Tame mine line (set_queue w c rest) p))
        (wake_all-Tame rest (wake (set_queue w c rest) p) c (λ x h. rw (eq_self c) h))

  pub close-Tame : (w : World) (c : ℕ) → Tame mine line w (close w c).1
  unfolding close
  close-Tame w c = elim (Bool-cases (c == 0)) [
    | inl z ↦ rw z (same-Tame mine line w)
    | inr n ↦ rw n (elim (Bool-cases (w.channels c).closed) [
      | inl was ↦ rw was (same-Tame mine line w)
      | inr open_ ↦ rw open_ (
          Tame-then mine line
            (Tame-then mine line (kept-Tame mine line w _ refl refl refl (λ x k. refl))
              (wake_all-Tame _ _ _ (λ x h. h)))
            (wake_all-Tame _ _ _ (λ x h. h)))
    ])
  ]

  send_to-Tame :
      (xs : List ℕ) (w v : World) (c ptr : ℕ)
      → w.queues (w.channels c).recv_queue ≡ xs
      → send_to xs w c ptr ≡ some v
      → Tame mine line w v
  unfolding send_to
  send_to-Tame (p ∷ rest) w v c ptr e h =
      let w1 = set_queue w (w.channels c).recv_queue rest in
      let u = set_cell w1 (w.routines p).chan_data (w.cells ptr) in
      subst (Tame mine line w) (eq_of_some h) (
        pop-Tame mine line w u (w.channels c).recv_queue p rest e
          (kept-Tame mine line w1 u refl refl refl (λ x n. refl)))
  send_to-Tame [] w v c ptr e h =
      let room = ltb (w.channels c).count (w.channels c).capacity in
      let u = set_channel w c (put (w.channels c) (w.cells ptr)) in
      elim (Bool-cases room) [
        | inl fits ↦
            subst (Tame mine line w) (eq_of_some (sym (if_true room (some u) none fits) ∙ h))
              (kept-Tame mine line w u refl refl refl (λ x n. refl))
        | inr full ↦ let no_way = sym (if_false room (some u) none full) ∙ h in absurd (cc no_way)
      ]

  pub send_now-Tame : (w v : World) (c ptr : ℕ) → send_now w c ptr ≡ some v → Tame mine line w v
  unfolding send_now
  send_now-Tame w v c ptr h = send_to-Tame _ w v c ptr refl h

  recv_from-Tame :
      (xs : List ℕ) (w v : World) (c ptr : ℕ)
      → w.queues (w.channels c).send_queue ≡ xs
      → recv_from xs w c ptr ≡ some v
      → Tame mine line w v
  unfolding recv_from
  recv_from-Tame [] w v c ptr e h = absurd (cc h)
  recv_from-Tame (p ∷ rest) w v c ptr e h =
      let w1 = set_queue w (w.channels c).send_queue rest in
      let u = set_cell w1 ptr (w.cells (w.routines p).chan_data) in
      subst (Tame mine line w) (eq_of_some h) (
        pop-Tame mine line w u (w.channels c).send_queue p rest e
          (kept-Tame mine line w1 u refl refl refl (λ x n. refl)))

  refill-Tame :
      (xs : List ℕ) (w : World) (c : ℕ)
      → w.queues (w.channels c).send_queue ≡ xs
      → Tame mine line w (refill xs w c)
  unfolding refill
  refill-Tame [] w c e = same-Tame mine line w
  refill-Tame (p ∷ rest) w c e =
      let w1 = set_queue w (w.channels c).send_queue rest in
      let u = set_channel w1 c (put (w.channels c) (w.cells (w.routines p).chan_data)) in
      pop-Tame mine line w u (w.channels c).send_queue p rest e
        (kept-Tame mine line w1 u refl refl refl (λ x n. refl))

  pub recv_now-Tame : (w v : World) (c ptr : ℕ) → recv_now w c ptr ≡ some v → Tame mine line w v
  unfolding recv_now
  recv_now-Tame w v c ptr h =
      let ch = w.channels c in
      let w1 = set_channel (set_cell w ptr (ch.buffer ch.head)) c (drop ch) in
      let here = some (refill (w1.queues ch.send_queue) w1 c) in
      let there = recv_from (w.queues ch.send_queue) w c ptr in
      elim (Bool-cases (ltb 0 ch.count)) [
        | inl more ↦
            subst (Tame mine line w)
              (eq_of_some (sym (if_true (ltb 0 ch.count) here there more) ∙ h))
              (Tame-then mine line (kept-Tame mine line w w1 refl refl refl (λ x n. refl))
                (refill-Tame (w1.queues ch.send_queue) w1 c (rw (eq_self c) refl)))
        | inr empty ↦
            recv_from-Tame (w.queues ch.send_queue) w v c ptr refl
              (sym (if_false (ltb 0 ch.count) here there empty) ∙ h)
      ]

  pub trysend-Tame : (w : World) (c ptr : ℕ) → Tame mine line w (trysend w c ptr).1
  unfolding trysend
  trysend-Tame w c ptr = elim (Bool-cases (c == 0 || ptr == 0)) [
    | inl null ↦ rw null (same-Tame mine line w)
    | inr there ↦ rw there (elim (Bool-cases (w.channels c).closed) [
      | inl shut ↦ rw shut (same-Tame mine line w)
      | inr open_ ↦ rw open_ (elim (Option-cases (send_now w c ptr)) [
        | inl e ↦ rw e (same-Tame mine line w)
        | inr (v, e) ↦ rw e (send_now-Tame w v c ptr e)
      ])
    ])
  ]

  pub tryrecv-Tame : (w : World) (c ptr : ℕ) → Tame mine line w (tryrecv w c ptr).1
  unfolding tryrecv
  tryrecv-Tame w c ptr = elim (Bool-cases (c == 0 || ptr == 0)) [
    | inl null ↦ rw null (same-Tame mine line w)
    | inr there ↦ rw there (elim (Option-cases (recv_now w c ptr)) [
      | inr (v, e) ↦ rw e (recv_now-Tame w v c ptr e)
      | inl e ↦ rw e (elim (Bool-cases (w.channels c).closed) [
        | inl shut ↦ rw shut (same-Tame mine line w)
        | inr open_ ↦ rw open_ (same-Tame mine line w)
      ])
    ])
  ]
