-- ===== src/Program/Blocks.antt =====
-- The calls after which the running coroutine may be in a line.
use libco.Base.{
  ℕ, ◌≡◌, refl, Bool, true, false, Option, none, some, arith, ◌==◌, ◌||◌, store, inl, inr,
  Bool-cases, Option-cases, eq_self, subst,
}
use libco.Runtime.{World, Error, Outcome, returns, suspends, wake, block, current, ok}
use libco.Runtime.Placed.{Place, nowhere, on_ready, on_queue, wake-Placed}
use libco.Mutex.{lock}
use libco.Cond.{wait, wait_resume, relock}
use libco.Channel
use libco.Channel.{send, recv, send_now, recv_now}
use libco.Coroutine.{yield_now, yield_as, finish}
use libco.Scheduler.Ready.{enqueue}
use libco.System.Timeouts.{timers}
use libco.System.Invariant.{current-running}
use libco.Program.{Call, user, cond_wait}
use libco.Program.Fits.{is_io, calm, unlisted}
use libco.Program.Invariant.{
  Sound, SoundFor, Somewhere, alike-Core, changed-Core, IsValid-eq, blocked-Core, nowhere-Placed,
}
use libco.Program.Wakes.{alike-Somewhere, unlock-Somewhere}
use libco.Program.Channels.{send_now-Done, recv_now-Done}

module _ (is_cond : ℕ → Bool) where
  -- What a call of the coroutine `p` leaves: if it suspends, the coroutine is in `call`.
  abbrev pub Kept : (ℕ → Call) → ℕ → Call → Outcome → Type 0
  Kept calls p call (returns e v) = Somewhere is_cond (some p) v calls
  Kept calls p call (suspends v) = Somewhere is_cond none v (store calls p call)

  pub keeps-relock :
      (calls : ℕ → Call) (p : ℕ) (e : Error) (o : Outcome)
      → Kept calls p user o
      → Kept calls p user (relock o e)
  unfolding relock
  keeps-relock calls p e (returns e' v) k = k
  keeps-relock calls p e (suspends v) k = k

  -- `p` runs, and has no timer.
  module _ (w : World) (calls : ℕ → Call) (place : ℕ → Place) (p : ℕ) (c : current w ≡ some p)
      (h : Sound is_cond w calls place) (z : timers w p ≡ 0) where
    pub off_queues : place p ≡ nowhere
    off_queues = (rw (current-running w p c) at h.free).0

    pub no_line : (w.routines p).cond_wait_queue ≡ none
    no_line =
        unlisted is_cond (w.routines p) (timers w p) (calls p) (rw off_queues at (h.core.fits p))

    pub block-Somewhere :
        (q : ℕ) (call : Call)
        → is_io call ≡ false
        → Somewhere is_cond none (block w q p) (store calls p call)
    block-Somewhere q call i = (
      store place p (on_queue q),
      record {
        core = blocked-Core is_cond w calls place q p call h.core off_queues z i;
        free = tt;
        runs_now = inl refl;
      },
    )

    pub here : Somewhere is_cond (some p) w calls
    here = (
      place,
      subst (λ (r : Option ℕ). SoundFor is_cond r w calls place) (current-running w p c) h,
    )

    pub lock-Kept : (m : ℕ) → Kept calls p user (lock w m)
    unfolding lock
    lock-Kept m = elim (Bool-cases (m == 0)) [
      | inl null ↦ rw null here
      | inr named ↦
          rw (named, c)
            (elim (Bool-cases (w.mutexes m).locked) [
              | inl held ↦ rw held (block-Somewhere m user refl)
              | inr free ↦ rw free (alike-Somewhere is_cond calls (some p) w _ refl refl refl here)
            ])
    ]

    pub relock-Kept : (m : ℕ) → Kept calls p user (wait_resume w m)
    unfolding wait_resume
    relock-Kept m = keeps-relock calls p ok (lock w m) (lock-Kept m)

    pub wait-Kept : (cond m : ℕ) → is_cond m ≡ false → Kept calls p (cond_wait m) (wait w cond m)
    unfolding wait
    wait-Kept cond m n = elim (Bool-cases (cond == 0 || m == 0)) [
      | inl null ↦ rw null here
      | inr named ↦
          rw (named, c)
            (unlock-Somewhere is_cond (store calls p (cond_wait m)) none (block w cond p) m n
              (block-Somewhere cond (cond_wait m) refl))
    ]

    -- A coroutine that points at an element and joins a line of a channel.
    wait_as-Kept : (q ptr : ℕ) → Kept calls p user (Channel.wait_as (some p) w q ptr)
    unfolding Channel.wait_as block
    wait_as-Kept q ptr = (
      store place p (on_queue q),
      record {
        core =
            alike-Core is_cond (block w q p) _ (store calls p user) (store place p (on_queue q))
              refl refl refl (λ x. ground arith) (λ x. ground arith) (λ x. ground arith)
              (λ x. ground arith)
              (blocked-Core is_cond w calls place q p user h.core off_queues z refl);
        free = tt;
        runs_now = inl refl;
      },
    )

    pub send-Kept :
        (ch ptr : ℕ)
        → is_cond (w.channels ch).recv_queue ≡ false
        → Kept calls p user (send w ch ptr)
    unfolding send
    send-Kept ch ptr n = elim (Bool-cases (ch == 0 || ptr == 0)) [
      | inl null ↦ rw null here
      | inr named ↦ rw named (elim (Bool-cases (w.channels ch).closed) [
        | inl shut ↦ rw shut here
        | inr open_still ↦ rw open_still (elim (Option-cases (send_now w ch ptr)) [
          | inl e ↦ rw (e, c) (wait_as-Kept (w.channels ch).send_queue ptr)
          | inr (v, e) ↦ rw e (rw e at (send_now-Done is_cond calls (some p) w ch ptr n here))
        ])
      ])
    ]

    pub recv-Kept :
        (ch ptr : ℕ)
        → is_cond (w.channels ch).send_queue ≡ false
        → Kept calls p user (recv w ch ptr)
    unfolding recv
    recv-Kept ch ptr n = elim (Bool-cases (ch == 0 || ptr == 0)) [
      | inl null ↦ rw null here
      | inr named ↦ rw named (elim (Option-cases (recv_now w ch ptr)) [
        | inr (v, e) ↦ rw e (rw e at (recv_now-Done is_cond calls (some p) w ch ptr n here))
        | inl e ↦ rw e (elim (Bool-cases (w.channels ch).closed) [
          | inl shut ↦ rw shut here
          | inr open_still ↦ rw (open_still, c) (wait_as-Kept (w.channels ch).recv_queue ptr)
        ])
      ])
    ]

    -- The routine's state changes while it is on no queue, or as it joins the ready queue.
    pub yield-Kept : Kept calls p user (yield_now w)
    unfolding yield_now yield_as enqueue wake
    yield-Kept = rw c (
      store place p on_ready,
      record {
        core =
            changed-Core is_cond w (enqueue w p) calls (store calls p user) place
              (store place p on_ready) p h.core (λ x o. ground arith)
              (wake-Placed w place p h.core.placed off_queues)
              (IsValid-eq is_cond w (enqueue w p) refl (λ x. ground arith) h.core.valid)
              (rw (eq_self p) (
                calm is_cond user on_ready _ (timers w p) z no_line
                  (λ i. let no_way : false ≡ true = i in absurd (cc no_way))
                  (λ s. let no_way : false ≡ true = s in absurd (cc no_way))));
        free = tt;
        runs_now = inl refl;
      },
    )

    pub finish-Kept : (result : ℕ) → Kept calls p user (suspends (finish w p result))
    unfolding finish
    finish-Kept result = (
      place,
      record {
        core =
            changed-Core is_cond w (finish w p result) calls (store calls p user) place place p
              h.core (λ x o. ground arith)
              (nowhere-Placed w (finish w p result) place p off_queues refl refl
                (λ x o. ground arith) h.core.placed)
              (IsValid-eq is_cond w (finish w p result) refl (λ x. ground arith) h.core.valid)
              (rw (eq_self p) (
                calm is_cond user (place p) _ (timers w p) z no_line
                  (λ i. let no_way : false ≡ true = i in absurd (cc no_way))
                  (λ s. let no_way : false ≡ true = s in absurd (cc no_way))));
        free = tt;
        runs_now = inl refl;
      },
    )
