-- ===== src/Iocp/Created.antt =====
-- What creation holds, and what destruction gives back.
use libco.Base.{
  erase_head, erase_second, ℕ, ◌≡◌, ◌≢◌, ◌<◌, refl, ◌==◌, Bool, true, false, Option, none, some,
  List, ◌∷◌, arith, inl, inr, Bool-cases, eq_self, ap,
}
use libco.Iocp.{Iomux}
use libco.Iocp.Table.{Reach, created}
use libco.Iocp.Load.{create, create_on, init_winsock, destroy, event_limit}

-- The result of a creation from the objects `held`, with the memory that `calloc` gave for the
-- structure.
pub data Built (held : List ℕ) (structure : Option ℕ) : Option Iomux × List ℕ → Type 0 where
  none_built : Built held structure (none, held)
  built :
      {io : Iomux} {later : List ℕ} (a : ℕ)
      → structure ≡ some a
      → 0 < io.max_events
      → Reach (λ fd. false) io
      → destroy a io later ≡ held
      → Built held structure (some io, later)

all_back :
    (a : ℕ) (io : Iomux) (held : List ℕ)
    → io.iocp ≢ 0
    → destroy a io (io.entries ∷ io.iocp ∷ a ∷ held) ≡ held
unfolding destroy
all_back a io held h = elim (Bool-cases (io.iocp == 0)) [
  | inl z ↦ absurd (h (ground (arith, z)))
  | inr nz ↦
      rw (nz, erase_second io.iocp io.entries (a ∷ held), erase_head io.entries (a ∷ held))
        (erase_head a held)
]

create_on-Built :
    (structure port entries : Option ℕ) (max_events : ℕ) (held : List ℕ)
    → port ≢ some 0
    → 0 < max_events
    → Built held structure (create_on structure port entries max_events held)
unfolding create_on destroy
create_on-Built none port entries n held h k = none_built
create_on-Built (some a) none entries n held h k = rw (eq_self a) none_built
create_on-Built (some a) (some p) none n held h k = rw (eq_self p, eq_self a) none_built
create_on-Built (some a) (some p) (some b) n held h k = built a refl k (created refl) (
    all_back a
      (record {
        iocp = p;
        entries = b;
        max_events = n;
        associated_sockets = λ i. 0;
        associated_count = 0;
      })
      held (λ z. h (ap (λ (x : ℕ). some x) z)))

event_limit_positive : (n : Option ℕ) → 0 < event_limit n
unfolding event_limit
event_limit_positive none = omega arith
event_limit_positive (some n) = ground arith

-- Where `CreateIoCompletionPort` gives no null handle as a port: a creation that fails gives back all
-- that it got. One that succeeds has a positive number of events for a poll and an empty table of
-- sockets, and when the multiplexer is destroyed, just what was held before the creation is held.
pub create-Built :
    (startup : Bool) (structure port entries : Option ℕ) (max_events : Option ℕ) (wsa_init : Bool)
    (held : List ℕ)
    → port ≢ some 0
    → Built held structure (create startup structure port entries max_events wsa_init held).0
unfolding create init_winsock
create-Built startup structure port entries max_events true held h =
    create_on-Built structure port entries _ held h (event_limit_positive max_events)
create-Built true structure port entries max_events false held h =
    create_on-Built structure port entries _ held h (event_limit_positive max_events)
create-Built false structure port entries max_events false held h = none_built
