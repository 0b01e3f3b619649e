-- ===== src/Epoll/Life.antt =====
-- What creation holds and destruction gives back, and the flags of a descriptor.
use libco.Base.{
  erase_head, eq_self, ◌∷◌, ℕ, ◌+◌, ◌-◌, ◌<◌, ◌≡◌, refl, true, false, Option, none, some, arith,
  if◌then◌else◌, inl, inr, Bool-cases,
}
use libco.Runtime.{ok}
use libco.Epoll.Calls.{
  Iomux, Held, create, create_with, event_limit, destroy, set_nonblocking, set_blocking,
  is_nonblocking, o_nonblock,
}

set_flag : (flags : ℕ) → is_nonblocking flags ≡ false → is_nonblocking (flags + o_nonblock) ≡ true
set_flag flags e = ground (arith, e)

cleared_flag :
    (flags : ℕ)
    → is_nonblocking flags ≡ true
    → (is_nonblocking (flags - o_nonblock) ≡ false) × (flags ≡ flags - o_nonblock + o_nonblock)
cleared_flag flags e = ground (arith, e)

-- Setting O_NONBLOCK, where it succeeds, sets that flag and no other; then clearing it, where that
-- succeeds, clears that flag and no other. So a descriptor that was blocking has its flags back.
pub set_blocking-set_nonblocking :
    (fd flags : ℕ)
    → let (e, later) = set_nonblocking true true (some fd) flags in
      let (e2, last) = set_blocking true true (some fd) later in
      (e ≡ ok)
      × (e2 ≡ ok)
      × (is_nonblocking later ≡ true)
      × (is_nonblocking last ≡ false)
      × (last ≡ (if is_nonblocking flags then flags - o_nonblock else flags))
      × (later ≡ last + o_nonblock)
unfolding set_nonblocking set_blocking
set_blocking-set_nonblocking fd flags = elim (Bool-cases (is_nonblocking flags)) [
  | inl e ↦ let (c, d) = cleared_flag flags e in rw (e, e) (refl, refl, refl, c, refl, d)
  | inr e ↦
      let back : flags + o_nonblock - o_nonblock ≡ flags = omega arith in
      rw (e, set_flag flags e, back) (refl, refl, refl, e, refl, refl)
]

-- The result of a creation from what is held.
pub data Made (h : Held) (structure : Option ℕ) : Option Iomux × Held → Type 0 where
  none_made : Made h structure (none, h)
  made :
      {io : Iomux} {later : Held} (a : ℕ)
      → structure ≡ some a
      → 0 < io.max_events
      → destroy a io later ≡ h
      → Made h structure (some io, later)

create_with-Made :
    (structure epfd events : Option ℕ) (n : ℕ) (h : Held)
    → 0 < n
    → Made h structure (create_with structure epfd events n h)
unfolding create_with destroy
create_with-Made none epfd events n h k = none_made
create_with-Made (some a) none events n h k = rw (eq_self a) none_made
create_with-Made (some a) (some d) none n h k = rw (eq_self a, eq_self d) none_made
create_with-Made (some a) (some d) (some b) n h k =
    made a refl k
      (rw (erase_head b (a ∷ h.memory), erase_head a h.memory, erase_head d h.descriptors) refl)

event_limit_positive : (n : Option ℕ) → 0 < event_limit n
unfolding event_limit
event_limit_positive none = omega arith
event_limit_positive (some n) = ground arith

-- A creation that fails gives back all that it got. One that succeeds has a positive number of events
-- for a poll, and when the multiplexer is destroyed, just what was held before the creation is held.
pub create-Made :
    (structure epfd events max_events : Option ℕ) (h : Held)
    → Made h structure (create structure epfd events max_events h)
unfolding create
create-Made structure epfd events max_events h =
    create_with-Made structure epfd events _ h (event_limit_positive max_events)
