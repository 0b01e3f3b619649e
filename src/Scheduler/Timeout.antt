-- ===== src/Scheduler/Timeout.antt =====
-- How long `co_scheduler_run` lets the multiplexer wait.
use libco.Base.{ℕ, ◌+◌, ◌-◌, ◌%◌, ◌<◌, ◌≡◌, ◌↔◌, refl, true, false, arith, ltb, ◌==◌, word}
use libco.Timer.{peek}
use libco.Runtime.{World, wakeups}
use libco.Scheduler.{io_timeout}

-- The first deadline.
abbrev pub deadline : World → ℕ
deadline w = wakeups w (w.sched.timer_heap.heap 0)

-- The bits are those of an `int` that is not negative, and that is the time to the deadline.
abbrev pub IsExact : (timeout delay : ℕ) → Type 0
IsExact timeout delay = (timeout ≡ delay) × (timeout < 2147483648)

-- With the first deadline ahead, by less than 2 ^ 63, the timeout is the low 32 bits of the time to
-- it. The multiplexer waits for exactly that time if and only if it is below 2 ^ 31; else the `int`
-- is negative, which means to wait for ever, or too small.
pub io_timeout-IsExact :
    (w : World) (now : ℕ)
    → 0 < w.sched.timer_heap.count
    → now < deadline w
    → deadline w < now + 9223372036854775808
    → deadline w < word
    → (io_timeout w now ≡ (deadline w - now) % 4294967296)
      × (IsExact (io_timeout w now) (deadline w - now) ↔ (deadline w - now < 2147483648))
unfolding io_timeout peek
io_timeout-IsExact w now some_left ahead near fits =
    let more : (w.sched.timer_heap.count == 0) ≡ false = ground arith in
    let d : (deadline w + (word - now)) % word ≡ deadline w - now = omega arith in
    let positive : ltb 0 (deadline w - now) ≡ true = ground arith in
    let small : ltb (deadline w - now) 9223372036854775808 ≡ true = ground arith in
    rw (more, io_timeout, d, positive, small)
      (refl, ((λ e. omega (arith, e.0, e.1)), (λ h. (omega (arith, h), omega (arith, h)))))
