-- ===== src/Program/Quiet.antt =====
-- What the scheduler does to the lines between two coroutines.
use libco.Base.{
  ℕ, zero, suc, ◌+◌, ◌-◌, ◌%◌, ◌^◌, refl, Bool, true, Option, none, some, arith, ltb, inl, inr,
  Bool-cases, Option-cases, erase,
}
use libco.Timer.{peek, pop}
use libco.Runtime.{World, wakeups, set_sched, set_timers, set_queue, set_routine, wake}
use libco.Scheduler.{wake_timers, wake_loop, fire, time_out, is_waiting}
use libco.Scheduler.Ready.{enqueue}
use libco.Epoll.{wake_waiter}
use libco.Program.Tame.{Tame, same-Tame, Tame-then, kept-Tame, wake-Tame, shrink-Tame, erase-sub}

-- Between two coroutines.
module _ (mine : ℕ → Bool) (line : Option ℕ) where
  enqueue-Tame : (w : World) (p : ℕ) → Tame mine line w (enqueue w p)
  unfolding enqueue wake
  enqueue-Tame w p = wake-Tame mine line w p

  time_out-Tame : (o : Option ℕ) (w : World) (p : ℕ) → Tame mine line w (time_out o w p)
  unfolding time_out
  time_out-Tame (some q) w p =
      let w1 = set_queue w q (erase p (w.queues q)) in
      Tame-then mine line
        (shrink-Tame mine line w q (erase p (w.queues q))
          (λ x h. erase-sub mine line x p (w.queues q) h))
        (kept-Tame mine line w1
          (set_routine w1 p (record (w.routines p) { timed_out = true; cond_wait_queue = none }))
          refl refl refl (λ x n. ground arith))
  time_out-Tame none w p = elim (Bool-cases (w.routines p).io_waiting) [
    | inl io ↦ rw io (kept-Tame mine line w _ refl refl refl (λ x n. ground arith))
    | inr plain ↦ rw plain (same-Tame mine line w)
  ]

  fire-Tame : (w : World) (p : ℕ) → Tame mine line w (fire w p)
  unfolding fire
  fire-Tame w p = elim (Bool-cases (is_waiting (w.routines p).state)) [
    | inr stale ↦ rw stale (same-Tame mine line w)
    | inl waits_there ↦ rw waits_there (
        Tame-then mine line (time_out-Tame (w.routines p).cond_wait_queue w p)
          (enqueue-Tame (time_out (w.routines p).cond_wait_queue w p) p))
  ]

  wake_loop-Tame : (k : ℕ) (w : World) (now : ℕ) → Tame mine line w (wake_loop k w now)
  unfolding wake_loop
  wake_loop-Tame zero w now = same-Tame mine line w
  wake_loop-Tame (suc k) w now = elim (Option-cases (peek w.sched.timer_heap)) [
    | inl e ↦ rw (e, wake_loop) (same-Tame mine line w)
    | inr (p, e) ↦
        rw (e, wake_loop)
          (let w1 = set_timers w (pop (wakeups w) w.sched.timer_heap).1 in
            let rest : Tame mine line w (wake_loop k (fire w1 p) now) =
              Tame-then mine line
                (Tame-then mine line (kept-Tame mine line w w1 refl refl refl (λ x n. refl))
                  (fire-Tame w1 p))
                (wake_loop-Tame k (fire w1 p) now) in
            elim (Bool-cases (ltb now (wakeups w p))) [
              | inl later ↦ rw later (same-Tame mine line w)
              | inr due ↦ rw due rest
            ])
  ]

  pub wake_timers-Tame : (w : World) (now : ℕ) → Tame mine line w (wake_timers w now)
  unfolding wake_timers
  wake_timers-Tame w now = wake_loop-Tame w.sched.timer_heap.count w now

  pub wake_waiter-Tame : (w : World) (p : ℕ) → Tame mine line w (wake_waiter w p)
  unfolding wake_waiter wake
  wake_waiter-Tame w p = elim (Bool-cases (is_waiting (w.routines p).state)) [
    | inr stale ↦ rw stale (same-Tame mine line w)
    | inl waits_there ↦
        let u = set_sched w (record w.sched {
          waiting_io_count = (w.sched.waiting_io_count + (2 ^ 32 - 1)) % 2 ^ 32;
        }) in
        rw waits_there (
          Tame-then mine line
            (Tame-then mine line (kept-Tame mine line w u refl refl refl (λ x n. refl))
              (wake-Tame mine line u p))
            (kept-Tame mine line (wake u p) _ refl refl refl (λ x n. ground arith)))
  ]
