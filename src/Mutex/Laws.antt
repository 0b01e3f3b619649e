-- ===== src/Mutex/Laws.antt =====
-- Mutual exclusion, hand-over in order, and what a mutex does to the queues.
use libco.Base.{
  ℕ, ◌≡◌, ◌≢◌, inl, inr, refl, true, false, none, some, arith, ◌==◌, Bool-cases, Option-cases,
}
use libco.Runtime.{ok, busy, World, waiting, Outcome, returns, suspends, current, push_back}
use libco.Mutex.{take, lock}

-- What a call of lock does: it takes a free mutex for the caller, suspends a coroutine at the end
-- of the line of a held one, and refuses where there is no coroutine to suspend.
pub data Locked (w : World) (m : ℕ) : Outcome → Type 0 where
  taken :
      {v : World}
      → (w.mutexes m).locked ≡ false
      → v ≡ take w m (current w)
      → Locked w m (returns ok v)
  refused : (w.mutexes m).locked ≡ true → current w ≡ none → Locked w m (returns busy w)
  queued :
      {v : World} (p : ℕ)
      → (w.mutexes m).locked ≡ true
      → current w ≡ some p
      → v.mutexes m ≡ w.mutexes m
      → v.queues m ≡ push_back (w.queues m) p
      → (v.routines p).state ≡ waiting
      → Locked w m (suspends v)

-- On a mutex that is not NULL, lock takes a free one for its caller, suspends a coroutine at the
-- end of the line of a held one, and answers BUSY where it is held and no coroutine runs. A
-- suspended caller leaves the mutex as it was.
pub lock-Locked : (w : World) (m : ℕ) → m ≢ 0 → Locked w m (lock w m)
unfolding lock
lock-Locked w m h =
    let named : (m == 0) ≡ false = ground arith in
    rw named (elim (Option-cases (current w)) [
      | inl outside ↦ rw outside (elim (Bool-cases (w.mutexes m).locked) [
        | inl held ↦ rw held (refused held outside)
        | inr free ↦ rw free (taken free (rw outside))
      ])
      | inr (p, e) ↦ rw e (elim (Bool-cases (w.mutexes m).locked) [
        | inl held ↦ rw held (queued p held e refl (ground arith) (ground arith))
        | inr free ↦ rw free (taken free (rw e))
      ])
    ])
