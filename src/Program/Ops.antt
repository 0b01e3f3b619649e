-- ===== src/Program/Ops.antt =====
-- What the operations of libco do to the lines and to who is ready.
use libco.Base.{
  ℕ, ◌≡◌, refl, Bool, true, Option, none, some, List, [], ◌∷◌, ◌==◌, arith, has, inl, inr,
  Bool-cases, eq_self,
}
use libco.Runtime.{World, wake, set_queue, set_routine}
use libco.Mutex.{set_mutex, trylock, unlock, unlock_to}
use libco.Cond.{notify, signal, signal_to, broadcast, broadcast_loop}
use libco.Program.Tame.{Tame, same-Tame, Tame-then, kept-Tame, wake-Tame, shrink-Tame, pop-Tame}

-- Operations that block nobody.
module _ (mine : ℕ → Bool) (line : Option ℕ) where
  notify-Tame : (w : World) (p : ℕ) → Tame mine line w (notify w p)
  unfolding notify
  notify-Tame w p =
      Tame-then mine line
        (kept-Tame mine line w (set_routine w p (record (w.routines p) { cond_wait_queue = none }))
          refl refl refl (λ x n. ground arith))
        (wake-Tame mine line (set_routine w p (record (w.routines p) { cond_wait_queue = none })) p)

  unlock_to-Tame :
      (xs : List ℕ) (w : World) (m : ℕ) → w.queues m ≡ xs → Tame mine line w (unlock_to xs w m)
  unfolding unlock_to
  unlock_to-Tame [] w m e = kept-Tame mine line w _ refl refl refl (λ x n. refl)
  unlock_to-Tame (p ∷ rest) w m e =
      let u = set_mutex (set_queue w m rest) m (record (w.mutexes m) { owner = some p }) in
      pop-Tame mine line w u m p rest e
        (kept-Tame mine line (set_queue w m rest) u refl refl refl (λ x n. refl))

  pub unlock-Tame : (w : World) (m : ℕ) → Tame mine line w (unlock w m).1
  unfolding unlock
  unlock-Tame w m = elim (Bool-cases (m == 0)) [
    | inl z ↦ rw z (same-Tame mine line w)
    | inr n ↦ rw n (unlock_to-Tame (w.queues m) w m refl)
  ]

  pub trylock-Tame : (w : World) (m : ℕ) → Tame mine line w (trylock w m).1
  unfolding trylock
  trylock-Tame w m = elim (Bool-cases (m == 0)) [
    | inl z ↦ rw z (same-Tame mine line w)
    | inr n ↦ rw n (elim (Bool-cases (w.mutexes m).locked) [
      | inl held ↦ rw held (same-Tame mine line w)
      | inr free ↦ rw free (kept-Tame mine line w _ refl refl refl (λ x k. refl))
    ])
  ]

  signal_to-Tame :
      (xs : List ℕ) (w : World) (c : ℕ) → w.queues c ≡ xs → Tame mine line w (signal_to xs w c)
  unfolding signal_to
  signal_to-Tame [] w c e = same-Tame mine line w
  signal_to-Tame (p ∷ rest) w c e =
      Tame-then mine line (shrink-Tame mine line w c rest (λ x h. rw e (ground (arith, h))))
        (notify-Tame (set_queue w c rest) p)

  pub signal-Tame : (w : World) (c : ℕ) → Tame mine line w (signal w c).1
  unfolding signal
  signal-Tame w c = elim (Bool-cases (c == 0)) [
    | inl z ↦ rw z (same-Tame mine line w)
    | inr n ↦ rw n (signal_to-Tame (w.queues c) w c refl)
  ]

  broadcast_loop-Tame :
      (xs : List ℕ) (w : World) (c : ℕ)
      → ((x : ℕ) → has x xs ≡ true → has x (w.queues c) ≡ true)
      → Tame mine line w (broadcast_loop xs w c)
  unfolding broadcast_loop notify wake
  broadcast_loop-Tame [] w c k = same-Tame mine line w
  broadcast_loop-Tame (p ∷ rest) w c k =
      Tame-then mine line
        (Tame-then mine line (shrink-Tame mine line w c rest (λ x h. k x (ground (arith, h))))
          (notify-Tame (set_queue w c rest) p))
        (broadcast_loop-Tame rest (notify (set_queue w c rest) p) c (λ x h. rw (eq_self c) h))

  pub broadcast-Tame : (w : World) (c : ℕ) → Tame mine line w (broadcast w c).1
  unfolding broadcast
  broadcast-Tame w c = elim (Bool-cases (c == 0)) [
    | inl z ↦ rw z (same-Tame mine line w)
    | inr n ↦ rw n (broadcast_loop-Tame (w.queues c) w c (λ x h. h))
  ]
