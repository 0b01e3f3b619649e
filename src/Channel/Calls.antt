-- ===== src/Channel/Calls.antt =====
-- The four calls of a channel, by what they return.
use libco.Base.{ℕ, ◌≡◌, refl, inl, inr, true, none, some, ◌==◌, ◌||◌, Bool-cases, Option-cases}
use libco.Runtime.{Error, ok, inval, busy, closed, World, Outcome, returns, suspends, current}
use libco.Channel.{send_now, send, trysend, recv_now, recv, tryrecv}
use libco.Channel.Stream.{wait_at}

-- What a send does: it hands its element on, or waits with it, or fails and changes nothing.
pub data Sends (w : World) (c ptr : ℕ) : Outcome → Type 0 where
  passed : {v : World} → send_now w c ptr ≡ some v → Sends w c ptr (returns ok v)
  waits :
      {v : World} (p : ℕ)
      → send_now w c ptr ≡ none
      → current w ≡ some p
      → v ≡ wait_at w p (w.channels c).send_queue ptr
      → Sends w c ptr (suspends v)
  was_closed : (w.channels c).closed ≡ true → Sends w c ptr (returns closed w)
  invalid : Sends w c ptr (returns inval w)

pub send-Sends : (w : World) (c ptr : ℕ) → Sends w c ptr (send w c ptr)
unfolding send
send-Sends w c ptr = elim (Bool-cases (c == 0 || ptr == 0)) [
  | inl bad ↦ rw bad invalid
  | inr named ↦ rw named (elim (Bool-cases (w.channels c).closed) [
    | inl shut ↦ rw shut (was_closed shut)
    | inr open_still ↦ rw open_still (elim (Option-cases (send_now w c ptr)) [
      | inr (v, e) ↦ rw e (passed e)
      | inl e ↦ rw e (elim (Option-cases (current w)) [
        | inl outside ↦ rw outside invalid
        | inr (p, f) ↦ rw f (waits p e f refl)
      ])
    ])
  ])
]

pub data Receives (w : World) (c ptr : ℕ) : Outcome → Type 0 where
  found : {v : World} → recv_now w c ptr ≡ some v → Receives w c ptr (returns ok v)
  waits :
      {v : World} (p : ℕ)
      → recv_now w c ptr ≡ none
      → current w ≡ some p
      → v ≡ wait_at w p (w.channels c).recv_queue ptr
      → Receives w c ptr (suspends v)
  was_closed :
      recv_now w c ptr ≡ none → (w.channels c).closed ≡ true → Receives w c ptr (returns closed w)
  invalid : Receives w c ptr (returns inval w)

pub recv-Receives : (w : World) (c ptr : ℕ) → Receives w c ptr (recv w c ptr)
unfolding recv
recv-Receives w c ptr = elim (Bool-cases (c == 0 || ptr == 0)) [
  | inl bad ↦ rw bad invalid
  | inr named ↦ rw named (elim (Option-cases (recv_now w c ptr)) [
    | inr (v, e) ↦ rw e (found e)
    | inl e ↦ rw e (elim (Bool-cases (w.channels c).closed) [
      | inl shut ↦ rw shut (was_closed e shut)
      | inr open_still ↦ rw open_still (elim (Option-cases (current w)) [
        | inl outside ↦ rw outside invalid
        | inr (p, f) ↦ rw f (waits p e f refl)
      ])
    ])
  ])
]

-- What `trysend` and `tryrecv` make of a call that would suspend.
abbrev pub at_once : World → Outcome → Error × World
at_once w (returns e v) = (e, v)
at_once w (suspends v) = (busy, w)

-- In a coroutine `trysend` does what `send` does at once, and where `send` would suspend it returns
-- CO_ERROR_BUSY and changes nothing.
pub trysend-send :
    (w : World) (c ptr p : ℕ) → current w ≡ some p → trysend w c ptr ≡ at_once w (send w c ptr)
unfolding trysend send
trysend-send w c ptr p f = elim (Bool-cases (c == 0 || ptr == 0)) [
  | inl bad ↦ rw bad
  | inr named ↦ rw named (elim (Bool-cases (w.channels c).closed) [
    | inl shut ↦ rw shut
    | inr open_still ↦
        rw open_still
          (elim (Option-cases (send_now w c ptr)) [ inr (v, e) ↦ rw e | inl e ↦ rw (e, f) ])
  ])
]

-- In a coroutine `tryrecv` does what `recv` does at once, and where `recv` would suspend it returns
-- CO_ERROR_BUSY and changes nothing.
pub tryrecv-recv :
    (w : World) (c ptr p : ℕ) → current w ≡ some p → tryrecv w c ptr ≡ at_once w (recv w c ptr)
unfolding tryrecv recv
tryrecv-recv w c ptr p f = elim (Bool-cases (c == 0 || ptr == 0)) [
  | inl bad ↦ rw bad
  | inr named ↦ rw named (elim (Option-cases (recv_now w c ptr)) [
    | inr (v, e) ↦ rw e
    | inl e ↦ rw e (elim (Bool-cases (w.channels c).closed) [
      | inl shut ↦ rw shut
      | inr open_still ↦ rw (open_still, f)
    ])
  ])
]

pub send-passed :
    {w v : World} {c ptr : ℕ} → Sends w c ptr (returns ok v) → send_now w c ptr ≡ some v
send-passed (passed e) = e

pub recv-found :
    {w v : World} {c ptr : ℕ} → Receives w c ptr (returns ok v) → recv_now w c ptr ≡ some v
recv-found (found e) = e

pub send-waits :
    {w v : World} {c ptr : ℕ} (p : ℕ)
    → Sends w c ptr (suspends v)
    → current w ≡ some p
    → (send_now w c ptr ≡ none) × (v ≡ wait_at w p (w.channels c).send_queue ptr)
send-waits {w} {c} {ptr} p (waits q e f g) h = let same : q ≡ p = cc in (e, rw same at g)

pub recv-waits :
    {w v : World} {c ptr : ℕ} (p : ℕ)
    → Receives w c ptr (suspends v)
    → current w ≡ some p
    → (recv_now w c ptr ≡ none) × (v ≡ wait_at w p (w.channels c).recv_queue ptr)
recv-waits {w} {c} {ptr} p (waits q e f g) h = let same : q ≡ p = cc in (e, rw same at g)
