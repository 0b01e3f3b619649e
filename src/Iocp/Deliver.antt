-- ===== src/Iocp/Deliver.antt =====
-- Whom the packets of a poll wake, and how many it says that it woke.
use libco.Base.{
  ℕ, ◌+◌, ◌^◌, ◌%◌, ◌≡◌, refl, subst, some, List, [], ◌∷◌, arith, ◌==◌, if◌then◌else◌, store, inl,
  inr, Bool-cases, Option-cases, length, length-append,
}
use libco.Runtime.{World}
use libco.Scheduler.{is_waiting}
use libco.Epoll.{wake_waiter}
use libco.Epoll.Deliver.{with_name, Delivered, Delivered-∷}
use libco.Iocp.{IoCtx, Packet, packets, poll, deliver, revents_of}

-- The coroutines that the packets name, through the contexts at their addresses.
unfoldable pub named : List Packet → (ℕ → IoCtx) → List ℕ
named [] ctxs = []
named (e ∷ es) ctxs =
    let later = named es ctxs in
    if e.overlapped == 0 then later else with_name (ctxs e.overlapped).routine later

named-same :
    (es : List Packet) (a b : ℕ → IoCtx)
    → ((c : ℕ) → (a c).routine ≡ (b c).routine)
    → named es a ≡ named es b
unfolding named
named-same [] a b h = refl
named-same (e ∷ es) a b h = rw (h e.overlapped, named-same es a b h) refl

-- `woken` coroutines were made ready, from `before` to `v`.
pub record Counted (woken : ℕ) (before v : World) : Type 0 where
  pub enqueued : length v.sched.ready_queue ≡ length before.sched.ready_queue + woken
  pub outstanding :
      (v.sched.waiting_io_count + woken) % 2 ^ 32 ≡ before.sched.waiting_io_count % 2 ^ 32

wake_waiter-Counted :
    (woken : ℕ) (before w : World) (p : ℕ)
    → Counted woken before w
    → Counted (woken + (if is_waiting (w.routines p).state then 1 else 0)) before (wake_waiter w p)
unfolding wake_waiter
wake_waiter-Counted woken before w p k = elim (Bool-cases (is_waiting (w.routines p).state)) [
  | inl waits ↦ rw waits (record {
    enqueued = omega (arith, k.enqueued, length-append w.sched.ready_queue (p ∷ []));
    outstanding = omega (arith, k.outstanding);
  })
  | inr idle ↦
      rw idle (record {
        enqueued = omega (arith, k.enqueued);
        outstanding = omega (arith, k.outstanding);
      })
]

-- What a poll does.
pub record Reaped (before w : World) (ps : List ℕ) (woken : ℕ) (v : World) : Type 0 where
  pub delivered : Delivered w ps v
  pub counted : Counted woken before v

deliver-Reaped :
    (es : List Packet) (ctxs : ℕ → IoCtx) (woken : ℕ) (before w : World)
    → Counted woken before w
    → let (n, later, v) = deliver es ctxs woken w in Reaped before w (named es ctxs) n v
unfolding deliver named
deliver-Reaped [] ctxs woken before w k = record {
  delivered = record { resumed = λ x. ground arith; enqueued = λ x. ground arith; timers = refl };
  counted = k;
}
deliver-Reaped (e ∷ es) ctxs woken before w k = elim (Bool-cases (e.overlapped == 0)) [
  | inl null ↦ rw null (deliver-Reaped es ctxs woken before w k)
  | inr there ↦ rw there (elim (Option-cases (ctxs e.overlapped).routine) [
    | inl o ↦ rw o (deliver-Reaped es ctxs woken before w k)
    | inr (p, o) ↦
        let seen = store ctxs e.overlapped (record (ctxs e.overlapped) {
          bytes_transferred = e.bytes;
          revents = revents_of (ctxs e.overlapped).op_type e.status;
        }) in
        let same = named-same es seen ctxs (λ b. ground arith) in
        let n = woken + (if is_waiting (w.routines p).state then 1 else 0) in
        let r =
          deliver-Reaped es seen n before (wake_waiter w p)
            (wake_waiter-Counted woken before w p k) in
        rw o (record {
          delivered = Delivered-∷ w _ p (named es ctxs) (
              subst
                (λ (ps : List ℕ).
                  Delivered (wake_waiter w p) ps (deliver es seen n (wake_waiter w p)).2)
                same r.delivered);
          counted = r.counted;
        })
  ])
]

-- A poll makes ready every coroutine that waits and that a packet names through its context, each
-- once, however often it is named, and touches no other coroutine and no timer. The count that it
-- writes is the number of those that it made ready, and it takes that number off the number of
-- coroutines that wait for I/O, modulo 2 ^ 32.
pub poll-Reaped :
    (es : List Packet) (ctxs : ℕ → IoCtx) (w : World)
    → let (e, count, later, v) = poll (packets es) ctxs w in
      (woken : ℕ) × (count ≡ some woken) × Delivered w (named es ctxs) v × Counted woken w v
unfolding poll
poll-Reaped es ctxs w =
    let r =
      deliver-Reaped es ctxs 0 w w (record { enqueued = omega arith; outstanding = omega arith }) in
    (_, refl, r.delivered, r.counted)
