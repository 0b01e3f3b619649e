-- ===== src/Channel/Close.antt =====
-- Whom `co_channel_close` wakes.
use libco.Base.{
  ℕ, ◌≡◌, ◌≢◌, refl, sym, true, false, List, [], ◌∷◌, ◌++◌, arith, ◌==◌, if◌then◌else◌, has,
  has-append, store, eq_self,
}
use mathlib.Core.List.{append-nil, append_assoc}
use libco.Runtime.{World, Routine, ok, ready, wake, set_queue}
use libco.Channel.{set_channel, wake_all, close}
use libco.Channel.Stream.{senders, receivers}

abbrev pub readied : Routine → Routine
readied r = record r { state = ready }

-- The coroutines of a line are moved to the end of the ready queue, in order; nothing else changed.
pub record Emptied (w : World) (queue : ℕ) (line : List ℕ) (v : World) : Type 0 where
  pub lines : (q : ℕ) → v.queues q ≡ (if queue == q then [] else w.queues q)
  pub in_order : v.sched.ready_queue ≡ w.sched.ready_queue ++ line
  pub woken : (p : ℕ) → v.routines p ≡ (if has p line then readied (w.routines p) else w.routines p)
  pub channels : v.channels ≡ w.channels
  pub cells : v.cells ≡ w.cells

wake_all-Emptied :
    (line : List ℕ) (w : World) (queue : ℕ)
    → w.queues queue ≡ line
    → Emptied w queue line (wake_all line w queue)
unfolding wake_all wake
wake_all-Emptied [] w queue e = record {
  lines = λ q. ground (arith, e);
  in_order = sym (append-nil w.sched.ready_queue);
  woken = λ p. refl;
  channels = refl;
  cells = refl;
}
wake_all-Emptied (x ∷ rest) w queue e =
    let all = wake_all-Emptied rest (wake (set_queue w queue rest) x) queue (ground arith) in
    record {
      lines = λ q. ground (arith, all.lines q);
      in_order = rw all.in_order (append_assoc w.sched.ready_queue (x ∷ []) rest);
      woken = λ p. ground (arith, all.woken p);
      channels = all.channels;
      cells = all.cells;
    }

-- What closing leaves.
pub record Closed (w : World) (c : ℕ) (v : World) : Type 0 where
  pub channels : v.channels ≡ store w.channels c (record (w.channels c) { closed = true })
  pub no_senders : senders v c ≡ []
  pub no_receivers : receivers v c ≡ []
  pub in_order : v.sched.ready_queue ≡ w.sched.ready_queue ++ (receivers w c ++ senders w c)
  pub woken :
      (p : ℕ)
      → v.routines p
        ≡ (if has p (receivers w c ++ senders w c) then readied (w.routines p) else w.routines p)
  pub cells : v.cells ≡ w.cells

-- One line after the other.
Emptied-Closed :
    (w u v : World) (c : ℕ)
    → (w.channels c).send_queue ≢ (w.channels c).recv_queue
    → Emptied
        (set_channel w c (record (w.channels c) { closed = true }))
        (w.channels c).recv_queue
        (receivers w c)
        u
    → Emptied u (w.channels c).send_queue (u.queues (w.channels c).send_queue) v
    → Closed w c v
Emptied-Closed w u v c apart a b =
    let line : u.queues (w.channels c).send_queue ≡ senders w c =
      ground (arith, a.lines (w.channels c).send_queue) in
    let sq : (v.channels c).send_queue ≡ (w.channels c).send_queue =
      rw (b.channels, a.channels, eq_self c) refl in
    let rq : (v.channels c).recv_queue ≡ (w.channels c).recv_queue =
      rw (b.channels, a.channels, eq_self c) refl in
    record {
      channels = rw (b.channels, a.channels) refl;
      no_senders = rw (sq, senders) (ground (arith, b.lines (w.channels c).send_queue));
      no_receivers =
          rw (rq, receivers)
            (ground (arith, b.lines (w.channels c).recv_queue, a.lines (w.channels c).recv_queue));
      in_order =
          rw (b.in_order, a.in_order, line)
            (append_assoc w.sched.ready_queue (receivers w c) (senders w c));
      woken = λ p.
          rw (b.woken p, a.woken p, line, has-append p (receivers w c) (senders w c))
            (ground arith);
      cells = rw (b.cells, a.cells) refl;
    }

-- Closing an open channel that is not NULL and has two different lines makes every coroutine ready
-- that waits on it, the receivers before the senders and each line in its order. It leaves both
-- lines empty, the buffered elements where they are, and the other coroutines alone.
pub close-Closed :
    (w : World) (c : ℕ)
    → c ≢ 0
    → (w.channels c).closed ≡ false
    → (w.channels c).send_queue ≢ (w.channels c).recv_queue
    → ((close w c).0 ≡ ok) × Closed w c (close w c).1
unfolding close
close-Closed w c h e apart =
    let named : (c == 0) ≡ false = ground arith in
    rw (named, e)
      (
        refl,
        Emptied-Closed w _ _ c apart (wake_all-Emptied _ _ _ refl) (wake_all-Emptied _ _ _ refl),
      )
