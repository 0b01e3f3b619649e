-- ===== src/Program/Acting.antt =====
-- What the calls that may suspend their coroutine do to the lines and to who is ready.
use libco.Base.{
  ℕ, ◌≡◌, ◌≢◌, refl, Bool, true, false, Option, none, some, ◌||◌, ◌==◌, arith, word, ◌+◌, ◌%◌,
  erase, inl, inr, Bool-cases, Option-cases,
}
use libco.Timer
use libco.Timer.{TimerHeap}
use libco.Runtime.{
  World, Error, ok, ready, waiting, dead, set_state, wake, block, set_queue, set_routine,
  set_timers, wakeups, Outcome, returns, suspends, current,
}
use libco.Mutex.{lock, lock_as, unlock}
use libco.Cond.{
  wait, wait_as, relock, wait_resume, timedwait, timedwait_as, timedwait_resume, suspend_timed,
  withdraw, enrol_until, enrol, timedwait_result, cancel_timer,
}
use libco.Channel.{send, recv, send_now, recv_now, wait_as as join_line}
use libco.Coroutine.{yield_now, yield_as, sleep, sleep_as, fall_asleep, drowse, finish}
use libco.Scheduler.Ready.{enqueue}
use libco.Epoll.{
  WaitCtx, is_error, wait_io, wait_io_as, armed, register, await_until, set_io_waiting,
  wait_io_resume,
}
use libco.Program.Tame.{
  Tame, same-Tame, Tame-then, kept-Tame, wake-Tame, shrink-Tame, erase-sub, block-Tame, has-last,
  Acts,
}
use libco.Program.Ops.{unlock-Tame}
use libco.Program.Exchanges.{send_now-Tame, recv_now-Tame}

module _ (p : ℕ) where
  abbrev mine : ℕ → Bool
  mine x = p == x

  Acts-after :
      (line : Option ℕ) (w u : World) (o : Outcome)
      → Tame mine line w u
      → Acts p line u o
      → Acts p line w o
  Acts-after line w u (returns e v) t a = Tame-then mine line t a
  Acts-after line w u (suspends v) t (a, k) = (Tame-then mine line t a, k)

  -- After the coroutine went to wait, others may be woken.
  suspends-Acts :
      (line : Option ℕ) (w u v : World)
      → Tame mine line w u
      → (u.routines p).state ≢ ready
      → ((mine' : ℕ → Bool) → Tame mine' line u v)
      → Acts p line w (suspends v)
  suspends-Acts line w u v t n f = (
    Tame-then mine line t (f mine),
    λ r. elim ((f (λ x. false)).states p refl r) [ inl k ↦ absurd (n k) | inr m ↦ m ],
  )

  blocked-state : (w : World) (l : ℕ) → ((block w l p).routines p).state ≢ ready
  unfolding block
  blocked-state w l h = let no_way : waiting ≡ ready = ground (arith, h) in absurd (cc no_way)

  block-Acts : (w : World) (l : ℕ) → Acts p (some l) w (suspends (block w l p))
  block-Acts w l =
      suspends-Acts (some l) w (block w l p) (block w l p) (block-Tame w p l) (blocked-state w l)
        (λ mine'. same-Tame mine' (some l) (block w l p))

  pub lock-Acts : (w : World) (m : ℕ) → current w ≡ some p → Acts p (some m) w (lock w m)
  unfolding lock lock_as
  lock-Acts w m c = elim (Bool-cases (m == 0)) [
    | inl z ↦ rw z (same-Tame mine (some m) w)
    | inr n ↦
        rw (n, c)
          (elim (Bool-cases (w.mutexes m).locked) [
            | inl held ↦ rw held (block-Acts w m)
            | inr free ↦ rw free (kept-Tame mine (some m) w _ refl refl refl (λ x k. refl))
          ])
  ]

  relock-Acts :
      (line : Option ℕ) (w : World) (o : Outcome) (e : Error)
      → Acts p line w o
      → Acts p line w (relock o e)
  unfolding relock
  relock-Acts line w (returns d v) e a = a
  relock-Acts line w (suspends v) e a = a

  pub wait_resume-Acts :
      (w : World) (m : ℕ) → current w ≡ some p → Acts p (some m) w (wait_resume w m)
  unfolding wait_resume
  wait_resume-Acts w m c = relock-Acts (some m) w (lock w m) ok (lock-Acts w m c)

  pub wait-Acts :
      (w : World) (cond m : ℕ) → current w ≡ some p → Acts p (some cond) w (wait w cond m)
  unfolding wait wait_as
  wait-Acts w cond m c = elim (Bool-cases (cond == 0 || m == 0)) [
    | inl null ↦ rw null (same-Tame mine (some cond) w)
    | inr there ↦
        rw (there, c)
          (suspends-Acts (some cond) w (block w cond p) (unlock (block w cond p) m).1
            (block-Tame w p cond) (blocked-state w cond)
            (λ mine'. unlock-Tame mine' (some cond) (block w cond p) m))
  ]

  enrol_until-Tame :
      (w : World) (cond deadline : ℕ) → Tame mine (some cond) w (enrol_until w p cond deadline)
  unfolding enrol_until enrol
  enrol_until-Tame w cond deadline =
      let r = record (w.routines p) { cond_wait_queue = some cond; timed_out = false } in
      let w1 = block (set_routine w p r) cond p in
      Tame-then mine (some cond)
        (Tame-then mine (some cond)
          (kept-Tame mine (some cond) w (set_routine w p r) refl refl refl (λ x n. rw n refl))
          (block-Tame (set_routine w p r) p cond))
        (kept-Tame mine (some cond) w1
          (set_routine w1 p (record (w1.routines p) { wakeup_time = deadline })) refl refl refl
          (λ x n. rw n refl))

  enrol_until-state :
      (w : World) (cond deadline : ℕ) → ((enrol_until w p cond deadline).routines p).state ≢ ready
  unfolding enrol_until enrol block
  enrol_until-state w cond deadline h =
      let no_way : waiting ≡ ready = ground (arith, h) in absurd (cc no_way)

  suspend_timed-Acts :
      (timer : Bool × TimerHeap) (w : World) (cond m : ℕ)
      → (w.routines p).state ≢ ready
      → Acts p (some cond) w (suspend_timed timer w p cond m)
  unfolding suspend_timed withdraw
  suspend_timed-Acts (true, g) w cond m n =
      suspends-Acts (some cond) w (set_timers w g) (unlock (set_timers w g) m).1
        (kept-Tame mine (some cond) w (set_timers w g) refl refl refl (λ x k. refl)) n
        (λ mine'. unlock-Tame mine' (some cond) (set_timers w g) m)
  suspend_timed-Acts (false, g) w cond m n =
      let w1 = set_queue w cond (erase p (w.queues cond)) in
      let r = record (w.routines p) { state = ready; cond_wait_queue = none } in
      Tame-then mine (some cond)
        (shrink-Tame mine (some cond) w cond (erase p (w.queues cond))
          (λ x h. erase-sub mine (some cond) x p (w.queues cond) h))
        (kept-Tame mine (some cond) w1 (set_routine w1 p r) refl refl refl (λ x k. rw k refl))

  pub timedwait-Acts :
      (realloc : ℕ → Bool) (now : ℕ) (w : World) (cond m ms : ℕ)
      → current w ≡ some p
      → Acts p (some cond) w (timedwait realloc now w cond m ms)
  unfolding timedwait timedwait_as
  timedwait-Acts realloc now w cond m ms c = elim (Bool-cases (cond == 0 || m == 0)) [
    | inl null ↦ rw null (same-Tame mine (some cond) w)
    | inr there ↦ rw there (elim (Bool-cases (ms == 0)) [
      | inl at_once ↦ rw at_once (same-Tame mine (some cond) w)
      | inr later ↦
          rw (later, c)
            (let w1 = enrol_until w p cond ((now + ms) % word) in
              Acts-after (some cond) w w1 _ (enrol_until-Tame w cond ((now + ms) % word)) (
                suspend_timed-Acts (Timer.push (wakeups w1) realloc w.sched.timer_heap p) w1 cond m
                  (enrol_until-state w cond ((now + ms) % word))))
    ])
  ]

  pub timedwait_resume-Acts :
      (w : World) (m : ℕ) → current w ≡ some p → Acts p (some m) w (timedwait_resume w p m)
  unfolding timedwait_resume cancel_timer current
  timedwait_resume-Acts w m c = elim (Bool-cases (w.routines p).timed_out) [
    | inl late ↦ rw late (relock-Acts (some m) w (lock w m) _ (lock-Acts w m c))
    | inr in_time ↦ rw in_time (
        let w1 = cancel_timer w p in
        Acts-after (some m) w w1 _ (kept-Tame mine (some m) w w1 refl refl refl (λ x k. refl))
          (relock-Acts (some m) w1 (lock w1 m) (timedwait_result w1 p) (lock-Acts w1 m c)))
  ]

  join-Acts : (w : World) (l ptr : ℕ) → Acts p (some l) w (join_line (some p) w l ptr)
  unfolding join_line
  join-Acts w l ptr =
      let u = set_routine w p (record (w.routines p) { chan_data = ptr }) in
      Acts-after (some l) w u (suspends (block u l p))
        (kept-Tame mine (some l) w u refl refl refl (λ x k. rw k refl)) (block-Acts u l)

  pub send-Acts :
      (w : World) (c ptr : ℕ)
      → current w ≡ some p
      → Acts p (some (w.channels c).send_queue) w (send w c ptr)
  unfolding send
  send-Acts w c ptr now = elim (Bool-cases (c == 0 || ptr == 0)) [
    | inl null ↦ rw null (same-Tame mine _ w)
    | inr there ↦ rw there (elim (Bool-cases (w.channels c).closed) [
      | inl shut ↦ rw shut (same-Tame mine _ w)
      | inr open_ ↦ rw open_ (elim (Option-cases (send_now w c ptr)) [
        | inr (v, e) ↦ rw e (send_now-Tame mine _ w v c ptr e)
        | inl e ↦ rw (e, now) (join-Acts w (w.channels c).send_queue ptr)
      ])
    ])
  ]

  pub recv-Acts :
      (w : World) (c ptr : ℕ)
      → current w ≡ some p
      → Acts p (some (w.channels c).recv_queue) w (recv w c ptr)
  unfolding recv
  recv-Acts w c ptr now = elim (Bool-cases (c == 0 || ptr == 0)) [
    | inl null ↦ rw null (same-Tame mine _ w)
    | inr there ↦ rw there (elim (Option-cases (recv_now w c ptr)) [
      | inr (v, e) ↦ rw e (recv_now-Tame mine _ w v c ptr e)
      | inl e ↦ rw e (elim (Bool-cases (w.channels c).closed) [
        | inl shut ↦ rw shut (same-Tame mine _ w)
        | inr open_ ↦ rw (open_, now) (join-Acts w (w.channels c).recv_queue ptr)
      ])
    ])
  ]

  pub yield-Acts : (w : World) → current w ≡ some p → Acts p none w (yield_now w)
  unfolding yield_now yield_as enqueue wake
  yield-Acts w c = rw c (wake-Tame mine none w p, λ r. has-last mine none p w.sched.ready_queue)

  fall_asleep-Acts :
      (timer : Bool × TimerHeap) (w : World)
      → (w.routines p).state ≢ ready
      → Acts p none w (fall_asleep timer w p)
  unfolding fall_asleep
  fall_asleep-Acts (true, g) w n =
      (kept-Tame mine none w (set_timers w g) refl refl refl (λ x k. refl), λ r. absurd (n r))
  fall_asleep-Acts (false, g) w n =
      kept-Tame mine none w (set_state w p ready) refl refl refl (λ x k. rw k refl)

  drowse-state : (w : World) (deadline : ℕ) → ((drowse w p deadline).routines p).state ≢ ready
  unfolding drowse
  drowse-state w deadline h = let no_way : waiting ≡ ready = ground (arith, h) in absurd (cc no_way)

  pub sleep-Acts :
      (realloc : ℕ → Bool) (now : ℕ) (w : World) (msec : ℕ)
      → current w ≡ some p
      → Acts p none w (sleep realloc now w msec)
  unfolding sleep sleep_as drowse
  sleep-Acts realloc now w msec c = elim (Bool-cases (msec == 0)) [
    | inl z ↦ rw z (yield-Acts w c)
    | inr n ↦
        rw (n, c)
          (let w1 = drowse w p ((now + msec) % word) in
            Acts-after none w w1 _ (kept-Tame mine none w w1 refl refl refl (λ x k. rw k refl)) (
              fall_asleep-Acts (Timer.push (wakeups w1) realloc w.sched.timer_heap p) w1
                (drowse-state w ((now + msec) % word))))
  ]

  register-Acts : (r : Error) (w : World) → Acts p none w (register r w p)
  unfolding register
  register-Acts ok w = (
    kept-Tame mine none w _ refl refl refl (λ x k. rw k refl),
    λ h. let no_way : waiting ≡ ready = ground (arith, h) in absurd (cc no_way),
  )
  register-Acts e w =
      kept-Tame mine none w (set_io_waiting w p false) refl refl refl (λ x k. rw k refl)

  armed-Acts :
      (timer : Bool × TimerHeap) (r : Error) (w : World) → Acts p none w (armed timer r w p)
  unfolding armed
  armed-Acts (true, g) r w =
      Acts-after none w (set_timers w g) (register r (set_timers w g) p)
        (kept-Tame mine none w (set_timers w g) refl refl refl (λ x k. refl))
        (register-Acts r (set_timers w g))
  armed-Acts (false, g) r w =
      kept-Tame mine none w (set_io_waiting w p false) refl refl refl (λ x k. rw k refl)

  pub wait_io-Acts :
      (realloc : ℕ → Bool) (now : ℕ) (r : Error) (limit : Option ℕ) (w : World)
      → current w ≡ some p
      → Acts p none w (wait_io realloc now r limit w)
  unfolding wait_io wait_io_as await_until
  wait_io-Acts realloc now r limit w c =
      let fresh =
        set_routine w p (record (w.routines p) { timed_out = false; io_waiting = false }) in
      let t : Tame mine none w fresh =
        kept-Tame mine none w fresh refl refl refl (λ x k. rw k refl) in
      rw c (elim (Option-cases limit) [
        | inl e ↦ rw e (Acts-after none w fresh _ t (register-Acts r fresh))
        | inr (ms, e) ↦ rw e (
            let w1 = await_until fresh p ((now + ms) % word) in
            Acts-after none w w1 _
              (Tame-then mine none t
                (kept-Tame mine none fresh w1 refl refl refl (λ x k. rw k refl)))
              (armed-Acts (Timer.push (wakeups w1) realloc w.sched.timer_heap p) r w1))
      ])

  pub wait_io_resume-Tame :
      (w : World) (ctx : WaitCtx) → Tame mine none w (wait_io_resume w p ctx).1
  unfolding wait_io_resume
  wait_io_resume-Tame w ctx = elim (Bool-cases (w.routines p).timed_out) [
    | inl late ↦ rw late (same-Tame mine none w)
    | inr in_time ↦ rw in_time (elim (Bool-cases (is_error ctx.revents)) [
      | inl bad ↦ rw bad (same-Tame mine none w)
      | inr good ↦ rw good (elim (Option-cases ctx.timeout_ms) [
        | inl e ↦ rw e (same-Tame mine none w)
        | inr (ms, e) ↦ rw e (kept-Tame mine none w _ refl refl refl (λ x k. rw k refl))
      ])
    ])
  ]

  pub finish-Acts : (w : World) (result : ℕ) → Acts p none w (suspends (finish w p result))
  unfolding finish
  finish-Acts w result = (
    kept-Tame mine none w _ refl refl refl (λ x k. rw k refl),
    λ h. let no_way : dead ≡ ready = ground (arith, h) in absurd (cc no_way),
  )
