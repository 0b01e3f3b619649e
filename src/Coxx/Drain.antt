-- ===== src/Coxx/Drain.antt =====
-- The loop `for (T x : channel)` of libcoxx/include/coxx/channel.hpp over a closed channel.
use libco.Base.{
  ℕ, zero, suc, ◌<◌, ◌≡◌, ◌≢◌, inl, inr, refl, ap, true, false, Option, none, some, List, [], ◌∷◌,
  ◌++◌, arith, ◌==◌, ◌||◌, ltb, Bool-cases, eq_self,
}
use mathlib.Core.List.{append-nil, append_assoc}
use libco.Runtime.{World, Outcome, returns, suspends, current}
use libco.Channel.{set_channel, set_cell, drop, recv, recv_now, close}
use libco.Channel.Ring.{buffered, buffered-drop, buffered-nil}
use libco.Channel.Stream.{senders, IsSound, stream, recv_now-buffered}
use libco.Channel.Receive.{recv_now-nil}
use libco.Channel.Calls.{tryrecv-recv, at_once}
use libco.Channel.Close.{close-Closed}
use libco.Coxx.Typed.{Asked, received, waits, taken, asked, recv_value, try_recv, each, leaves}

-- What `try_recv` makes of a receive that would suspend.
abbrev pub no_wait : World → Asked → Option ℕ × World
no_wait w (received x v) = (x, v)
no_wait w (waits v) = (none, w)

-- In a coroutine `try_recv` gives what `recv` gives at once, and where `recv` would suspend it gives
-- `nullopt` and changes nothing.
pub try_recv-recv_value :
    (w : World) (c val p : ℕ)
    → current w ≡ some p
    → try_recv w c val ≡ no_wait w (recv_value w c val)
unfolding try_recv recv_value asked taken
try_recv-recv_value w c val p f = rw (tryrecv-recv w c val p f) (go (recv w c val))
  where
    go :
        (o : Outcome)
        → (taken (at_once w o).0 (at_once w o).1 val, (at_once w o).1) ≡ no_wait w (asked o val)
    go (returns e v) = refl
    go (suspends v) = refl

-- A closed channel on which nobody waits.
pub record IsShut (w : World) (c : ℕ) : Type 0 where
  pub sound : IsSound w c
  pub shut : (w.channels c).closed ≡ true
  pub no_senders : senders w c ≡ []

module _ (c val : ℕ) (named : c ≢ 0) (placed : val ≢ 0) where
  -- A receive takes the oldest element, and the channel stays as it is otherwise.
  recv_value-more :
      (w : World)
      → IsShut w c
      → 0 < (w.channels c).count
      → let ch = w.channels c in
        let v = set_channel (set_cell w val (ch.buffer ch.head)) c (drop ch) in
        (recv_value w c val ≡ received (some (ch.buffer ch.head)) v) × IsShut v c
  unfolding recv_value recv
  recv_value-more w s h =
      let (ran, r) = recv_now-buffered w c val s.sound h s.no_senders in
      let named_both : (c == 0 || val == 0) ≡ false = ground arith in
      (
        rw (named_both, ran, eq_self val),
        record {
          sound = r.sound;
          shut = rw (eq_self c) s.shut;
          no_senders = rw (eq_self c) s.no_senders;
        },
      )

  recv_value-none :
      (w : World) → IsShut w c → (w.channels c).count ≡ 0 → recv_value w c val ≡ received none w
  unfolding recv_value recv stream
  recv_value-none w s h =
      let named_both : (c == 0 || val == 0) ≡ false = ground arith in
      let nothing : recv_now w c val ≡ none =
        recv_now-nil w c val (rw (buffered-nil (w.channels c) h, s.no_senders) refl) in
      rw (named_both, nothing, s.shut)

  each-leaves :
      (fuel : ℕ) (w : World) (seen : List ℕ)
      → IsShut w c
      → (w.channels c).count < fuel
      → (v : World) × (each fuel c val seen w ≡ leaves (seen ++ buffered (w.channels c)) v)
        × ((v.channels c).count ≡ 0)
  unfolding each
  each-leaves zero w seen s h = absurd (omega arith)
  each-leaves (suc n) w seen s h = elim (Bool-cases (ltb 0 (w.channels c).count)) [
    | inl more ↦
        let ch = w.channels c in
        let (ran, left) = recv_value-more w s (ground arith) in
        let u = set_channel (set_cell w val (ch.buffer ch.head)) c (drop ch) in
        let now : u.channels c ≡ drop ch = rw (eq_self c) in
        let fewer : (drop ch).count < n = ground arith in
        let (v, ends, empty) =
          each-leaves n u (seen ++ ch.buffer ch.head ∷ []) left (rw now fewer) in
        (
          v,
          rw (each, ran)
              (rw (ends, now, buffered-drop ch (ground arith))
                (ap (λ (xs : List ℕ). leaves xs v)
                  (append_assoc seen (ch.buffer ch.head ∷ []) (buffered (drop ch))))),
          empty,
        )
    | inr none_left ↦
        let z : (w.channels c).count ≡ 0 = ground arith in
        (w, rw (each, recv_value-none w s z, buffered-nil (w.channels c) z) (simp append-nil), z)
  ]

  close-IsShut : (w : World) → IsSound w c → (w.channels c).closed ≡ false → IsShut (close w c).1 c
  close-IsShut w s e =
      let (ran, done) = close-Closed w c named e s.apart in
      let v = (close w c).1 in
      let now : v.channels c ≡ record (w.channels c) { closed = true } =
        rw (done.channels, eq_self c) in
      record {
        sound = record {
          ring = rw now (record {
            bounded = s.ring.bounded;
            head_in = s.ring.head_in;
            tail_at = s.ring.tail_at;
          });
          apart = rw now s.apart;
          full = inl done.no_senders;
          idle = inl done.no_receivers;
        };
        shut = rw now refl;
        no_senders = done.no_senders;
      }

  -- After an open, sound channel is closed, a loop over it gives its body the elements that were
  -- buffered, oldest first and each once, and ends. It never suspends, and it leaves nothing in the
  -- buffer. One round more than there are buffered elements is enough fuel.
  pub close-each :
      (w : World) (fuel : ℕ)
      → IsSound w c
      → (w.channels c).closed ≡ false
      → (w.channels c).count < fuel
      → (v : World) × (each fuel c val [] (close w c).1 ≡ leaves (buffered (w.channels c)) v)
        × ((v.channels c).count ≡ 0)
  unfolding buffered
  close-each w fuel s e h =
      let (ran, done) = close-Closed w c named e s.apart in
      let now : (close w c).1.channels c ≡ record (w.channels c) { closed = true } =
        rw (done.channels, eq_self c) in
      let (v, ends, empty) = each-leaves fuel (close w c).1 [] (close-IsShut w s e) (rw now h) in
      (v, rw now at ends, empty)
