-- ===== src/Epoll/Deliver.antt =====
-- Whom the events of a poll wake.
use libco.Base.{
  ℕ, ◌+◌, ◌≡◌, ◌&&◌, refl, subst, false, Option, none, some, List, [], ◌∷◌, arith, ◌==◌,
  if◌then◌else◌, store, has, inl, inr, Bool-cases, Option-cases,
}
use libco.Base.Tally.{occ, occ-append}
use libco.Runtime.{World, Routine, ready}
use libco.Scheduler.{is_waiting}
use libco.Epoll.{WaitCtx, poll, events, translate, deliver, wake_waiter}

abbrev pub with_name : Option ℕ → List ℕ → List ℕ
with_name none ps = ps
with_name (some p) ps = p ∷ ps

-- The coroutines that the events name, through the contexts at their addresses.
unfoldable pub named : List (ℕ × ℕ) → (ℕ → WaitCtx) → List ℕ
named [] ctxs = []
named ((c, flags) ∷ es) ctxs =
    let later = named es ctxs in if c == 0 then later else with_name (ctxs c).routine later

named-same :
    (es : List (ℕ × ℕ)) (a b : ℕ → WaitCtx)
    → ((c : ℕ) → (a c).routine ≡ (b c).routine)
    → named es a ≡ named es b
unfolding named
named-same [] a b h = refl
named-same ((c, flags) ∷ es) a b h = rw (h c, named-same es a b h) refl

abbrev pub served : Routine → Routine
served r = record r { state = ready; io_waiting = false }

-- The coroutines of `ps` that wait are made ready, each once, however often they are named, and
-- nobody else is touched. No timer is.
pub record Delivered (w : World) (ps : List ℕ) (v : World) : Type 0 where
  pub resumed :
      (x : ℕ)
      → v.routines x ≡ (
          if is_waiting (w.routines x).state && has x ps
          then served (w.routines x)
          else w.routines x)
  pub enqueued :
      (x : ℕ)
      → occ x v.sched.ready_queue
        ≡ occ x w.sched.ready_queue + (if is_waiting (w.routines x).state && has x ps then 1 else 0)
  pub timers : v.sched.timer_heap ≡ w.sched.timer_heap

wake_waiter-routines :
    (w : World) (p x : ℕ)
    → (wake_waiter w p).routines x ≡ (
        if is_waiting (w.routines x).state && (x == p) then served (w.routines x) else w.routines x)
unfolding wake_waiter
wake_waiter-routines w p x = elim (Bool-cases (is_waiting (w.routines p).state)) [
  | inl waits ↦ rw waits (ground (arith, waits))
  | inr idle ↦ rw idle (ground (arith, idle))
]

wake_waiter-ready :
    (w : World) (p x : ℕ)
    → occ x (wake_waiter w p).sched.ready_queue
      ≡ occ x w.sched.ready_queue + (if is_waiting (w.routines x).state && (x == p) then 1 else 0)
unfolding wake_waiter
wake_waiter-ready w p x = elim (Bool-cases (is_waiting (w.routines p).state)) [
  | inl waits ↦ rw waits (ground (arith, waits, occ-append x w.sched.ready_queue (p ∷ [])))
  | inr idle ↦ rw idle (ground (arith, idle))
]

wake_waiter-timers : (w : World) (p : ℕ) → (wake_waiter w p).sched.timer_heap ≡ w.sched.timer_heap
unfolding wake_waiter
wake_waiter-timers w p = elim (Bool-cases (is_waiting (w.routines p).state)) [
  | inl waits ↦ rw waits refl
  | inr idle ↦ rw idle refl
]

pub Delivered-∷ :
    (w v : World) (p : ℕ) (ps : List ℕ) → Delivered (wake_waiter w p) ps v → Delivered w (p ∷ ps) v
Delivered-∷ w v p ps d = record {
  resumed = λ x. rw (d.resumed x, wake_waiter-routines w p x) (ground arith);
  enqueued =
      λ x. rw (d.enqueued x, wake_waiter-ready w p x, wake_waiter-routines w p x) (ground arith);
  timers = rw (d.timers, wake_waiter-timers w p) refl;
}

deliver-Delivered :
    (es : List (ℕ × ℕ)) (ctxs : ℕ → WaitCtx) (w : World)
    → Delivered w (named es ctxs) (deliver es ctxs w).1
unfolding deliver named
deliver-Delivered [] ctxs w = record {
  resumed = λ x. ground arith;
  enqueued = λ x. ground arith;
  timers = refl;
}
deliver-Delivered ((c, flags) ∷ es) ctxs w = elim (Bool-cases (c == 0)) [
  | inl null ↦ rw null (deliver-Delivered es ctxs w)
  | inr there ↦ rw there (elim (Option-cases (ctxs c).routine) [
    | inl e ↦ rw e (deliver-Delivered es ctxs w)
    | inr (p, e) ↦
        let seen = store ctxs c (record (ctxs c) { revents = translate flags }) in
        let same = named-same es seen ctxs (λ b. ground arith) in
        rw e (
          Delivered-∷ w _ p (named es ctxs) (
            subst
              (λ (ps : List ℕ).
                Delivered (wake_waiter w p) ps (deliver es seen (wake_waiter w p)).1)
              same (deliver-Delivered es seen (wake_waiter w p))))
  ])
]

-- A poll makes ready every coroutine that waits and that an event names through its context, each
-- once, however often it is named. It touches no other coroutine, and no timer.
pub poll-Delivered :
    (es : List (ℕ × ℕ)) (ctxs : ℕ → WaitCtx) (w : World)
    → let (e, count, later, v) = poll (events es) ctxs w in Delivered w (named es ctxs) v
unfolding poll deliver named
poll-Delivered [] ctxs w = deliver-Delivered [] ctxs w
poll-Delivered (e ∷ es) ctxs w = deliver-Delivered (e ∷ es) ctxs w
