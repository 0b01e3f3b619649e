-- ===== src/Program/Wakes.antt =====
-- The operations that take coroutines off lines and make them ready.
use libco.Base.{
  ℕ, ◌≡◌, refl, Bool, false, Option, none, some, List, [], ◌∷◌, arith, ◌==◌, inl, inr, Bool-cases,
}
use libco.Runtime.{World, wake, set_queue}
use libco.Runtime.Placed.{Place}
use libco.Mutex.{trylock, unlock, unlock_to}
use libco.Cond.{notify, signal, signal_to, broadcast, broadcast_loop}
use libco.Program.{Call}
use libco.Program.Invariant.{
  Somewhere, alike-Core, woken-Core, notified-Core, woken-IsFree, IsFree, woken_place,
}

module _ (is_cond : ℕ → Bool) (calls : ℕ → Call) (runs : Option ℕ) where
  IsFree-alike :
      (r : Option ℕ) (w v : World) (place : ℕ → Place)
      → v.routines ≡ w.routines
      → IsFree r w place
      → IsFree r v place
  IsFree-alike none w v place e f = tt
  IsFree-alike (some p) w v place e (f, s) = (f, rw e s)

  -- Mutexes, channels and cells do not matter.
  pub alike-Somewhere :
      (w v : World)
      → v.routines ≡ w.routines
      → v.queues ≡ w.queues
      → v.sched ≡ w.sched
      → Somewhere is_cond runs w calls
      → Somewhere is_cond runs v calls
  alike-Somewhere w v r q s (place, h) = (
    place,
    record {
      core =
          alike-Core is_cond w v calls place (rw s refl) (rw s refl) q (λ x. rw r refl)
            (λ x. rw r refl) (λ x. rw r refl) (λ x. rw r refl) h.core;
      free = IsFree-alike runs w v place r h.free;
      runs_now = rw s h.runs_now;
    },
  )

  pub woken-Somewhere :
      (w : World) (q p : ℕ) (rest : List ℕ)
      → w.queues q ≡ p ∷ rest
      → is_cond q ≡ false
      → Somewhere is_cond runs w calls
      → Somewhere is_cond runs (wake (set_queue w q rest) p) calls
  unfolding wake
  woken-Somewhere w q p rest e n (place, h) = (
    woken_place place p,
    record {
      core = woken-Core is_cond w calls place q p rest e h.core n;
      free =
          woken-IsFree is_cond w calls place q p rest e h.core runs _ (λ x o. ground arith) h.free;
      runs_now = h.runs_now;
    },
  )

  pub notified-Somewhere :
      (w : World) (q p : ℕ) (rest : List ℕ)
      → w.queues q ≡ p ∷ rest
      → Somewhere is_cond runs w calls
      → Somewhere is_cond runs (notify (set_queue w q rest) p) calls
  unfolding notify wake
  notified-Somewhere w q p rest e (place, h) = (
    woken_place place p,
    record {
      core = notified-Core is_cond w calls place q p rest e h.core;
      free =
          woken-IsFree is_cond w calls place q p rest e h.core runs _ (λ x o. ground arith) h.free;
      runs_now = h.runs_now;
    },
  )

  pub unlock-Somewhere :
      (w : World) (m : ℕ)
      → is_cond m ≡ false
      → Somewhere is_cond runs w calls
      → Somewhere is_cond runs (unlock w m).1 calls
  unfolding unlock wake
  unlock-Somewhere w m n h = elim (Bool-cases (m == 0)) [
    | inl z ↦ rw z h
    | inr named ↦ rw named (go (w.queues m) refl)
  ]
    where
      go : (line : List ℕ) → w.queues m ≡ line → Somewhere is_cond runs (unlock_to line w m) calls
      go [] e = alike-Somewhere w _ refl refl refl h
      go (p ∷ rest) e =
          alike-Somewhere (wake (set_queue w m rest) p) _ refl refl refl
            (woken-Somewhere w m p rest e n h)

  pub signal-Somewhere :
      (w : World) (cond : ℕ)
      → Somewhere is_cond runs w calls
      → Somewhere is_cond runs (signal w cond).1 calls
  unfolding signal
  signal-Somewhere w cond h = elim (Bool-cases (cond == 0)) [
    | inl z ↦ rw z h
    | inr named ↦ rw named (go (w.queues cond) refl)
  ]
    where
      go :
          (line : List ℕ)
          → w.queues cond ≡ line
          → Somewhere is_cond runs (signal_to line w cond) calls
      go [] e = h
      go (p ∷ rest) e = notified-Somewhere w cond p rest e h

  broadcast_loop-Somewhere :
      (line : List ℕ) (w : World) (cond : ℕ)
      → w.queues cond ≡ line
      → Somewhere is_cond runs w calls
      → Somewhere is_cond runs (broadcast_loop line w cond) calls
  unfolding broadcast_loop notify wake
  broadcast_loop-Somewhere [] w cond e h = h
  broadcast_loop-Somewhere (p ∷ rest) w cond e h =
      broadcast_loop-Somewhere rest (notify (set_queue w cond rest) p) cond (ground arith)
        (notified-Somewhere w cond p rest e h)

  pub broadcast-Somewhere :
      (w : World) (cond : ℕ)
      → Somewhere is_cond runs w calls
      → Somewhere is_cond runs (broadcast w cond).1 calls
  unfolding broadcast
  broadcast-Somewhere w cond h = elim (Bool-cases (cond == 0)) [
    | inl z ↦ rw z h
    | inr named ↦ rw named (broadcast_loop-Somewhere (w.queues cond) w cond refl h)
  ]

  -- The calls that never wait.
  pub trylock-Somewhere :
      (w : World) (m : ℕ)
      → Somewhere is_cond runs w calls
      → Somewhere is_cond runs (trylock w m).1 calls
  unfolding trylock
  trylock-Somewhere w m h = elim (Bool-cases (m == 0)) [
    | inl null ↦ rw null h
    | inr named ↦ rw named (elim (Bool-cases (w.mutexes m).locked) [
      | inl held ↦ rw held h
      | inr free ↦ rw free (alike-Somewhere w _ refl refl refl h)
    ])
  ]
