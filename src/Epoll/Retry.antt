-- ===== src/Epoll/Retry.antt =====
-- The four calls for I/O across their wait: when they wait, and what they answer.
use libco.Base.{
  ℕ, ◌+◌, ◌≡◌, refl, ◌==◌, ◌||◌, Bool, true, false, Option, none, some, if◌then◌else◌, inl, inr,
  ◌⊎◌, Bool-cases,
}
use libco.Base.Tally.{tally}
use libco.Runtime.{World, Outcome, suspends, returns, timeout}
use libco.Epoll.{add, wait_io}
use libco.Epoll.Calls.{
  Kernel, Result, got, fails, Io, finishes, waits, waited, wait_for, new_ctx, attempted, co_read,
  co_write, co_accept, co_connect, errno_of, eagain, einprogress,
}

-- Whether a call ended with this error.
abbrev pub ends_with : ℕ → Io → Bool
ends_with e (finishes (fails n) w) = n == e
ends_with e (finishes (got n) w) = false
ends_with e (waits w) = false

waited-ends :
    (o : Outcome)
    → (ends_with eagain (waited o) ≡ false) × (ends_with einprogress (waited o) ≡ false)
unfolding waited errno_of
waited-ends (suspends w) = (refl, refl)
waited-ends (returns timeout w) = (refl, refl)
waited-ends (returns e w) = (refl, refl)

wait_for-ends :
    (k : Kernel) (fd mask : ℕ) (limit : Option ℕ) (w : World)
    → (ends_with eagain (wait_for k fd mask limit w) ≡ false)
      × (ends_with einprogress (wait_for k fd mask limit w) ≡ false)
unfolding wait_for
wait_for-ends k fd mask limit w =
    waited-ends
      (wait_io k.realloc k.now (add k.ctl_add k.ctl_mod (new_ctx fd mask limit w)) limit w)

attempted-ends :
    (b : ℕ) (answer : Result) (wait : Io) (w : World)
    → ends_with b wait ≡ false
    → ends_with b (attempted b answer wait w) ≡ false
unfolding attempted
attempted-ends b (got n) wait w h = refl
attempted-ends b (fails e) wait w h = elim (Bool-cases (e == b)) [
  | inl same ↦ rw same h
  | inr other ↦ rw other other
]

-- None of the four calls ends its first stage with the error of an operation that would block: not
-- with EAGAIN, which `co_connect` ends with only if `connect` gave it, and `co_connect` not with
-- EINPROGRESS.
pub calls-ends :
    (k : Kernel) (answer : Result) (fd limit : Option ℕ) (buf count addr : ℕ) (w : World)
    → (ends_with eagain (co_read k answer fd buf count limit w) ≡ false)
      × (ends_with eagain (co_write k answer fd buf count limit w) ≡ false)
      × (ends_with eagain (co_accept k answer fd limit w) ≡ false)
      × (ends_with einprogress (co_connect k answer fd addr limit w) ≡ false)
unfolding co_read co_write co_accept co_connect
calls-ends k answer none limit buf count addr w = (refl, refl, refl, refl)
calls-ends k answer (some fd) limit buf count addr w = (
  elim (Bool-cases (buf == 0 || count == 0)) [
    | inl bad ↦ rw bad refl
    | inr good ↦ rw good (attempted-ends eagain answer _ w (wait_for-ends k fd 1 limit w).0)
  ],
  elim (Bool-cases (buf == 0 || count == 0)) [
    | inl bad ↦ rw bad refl
    | inr good ↦ rw good (attempted-ends eagain answer _ w (wait_for-ends k fd 2 limit w).0)
  ],
  attempted-ends eagain answer _ w (wait_for-ends k fd 1 limit w).0,
  elim (Bool-cases (addr == 0)) [
    | inl bad ↦ rw bad refl
    | inr good ↦ rw good (attempted-ends einprogress answer _ w (wait_for-ends k fd 2 limit w).1)
  ],
)

-- A call whose operation would block.
pub data Blocked (k : Kernel) (limit : Option ℕ) (w : World) : Io → Type 0 where
  reads :
      (fd buf count : ℕ) → Blocked k limit w (co_read k (fails eagain) (some fd) buf count limit w)
  writes :
      (fd buf count : ℕ) → Blocked k limit w (co_write k (fails eagain) (some fd) buf count limit w)
  accepts : (fd : ℕ) → Blocked k limit w (co_accept k (fails eagain) (some fd) limit w)
  connects :
      (fd addr : ℕ) → Blocked k limit w (co_connect k (fails einprogress) (some fd) addr limit w)

guarded :
    (b : Bool) (r : Result) (i : Io) (w v : World)
    → (if b then finishes r w else i) ≡ waits v
    → i ≡ waits v
guarded true r i w v e = absurd (cc)
guarded false r i w v e = e

-- How often each coroutine has a timer.
abbrev pub timers : World → ℕ → ℕ
timers w x = tally x w.sched.timer_heap.count w.sched.timer_heap.heap

-- The heap of a coroutine that waits, against the heap before.
abbrev pub Armed : World → Option ℕ → ℕ → World → Type 0
Armed w limit p v =
    ((limit ≡ none) × ((x : ℕ) → timers v x ≡ timers w x))
    ⊎ ((ms : ℕ) × (limit ≡ some ms)
        × ((x : ℕ) → timers v x ≡ timers w x + (if x == p then 1 else 0)))
