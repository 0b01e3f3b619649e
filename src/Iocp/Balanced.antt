-- ===== src/Iocp/Balanced.antt =====
-- The client socket and the wait context of `co_accept`: what a stage gets and gives back.
use libco.Base.{
  erase_head, ℕ, ◌≡◌, ◌⊎◌, refl, ◌==◌, Bool, true, false, Option, none, some, List, ◌∷◌, arith,
  erase, inl, inr, Bool-cases, Option-cases, ◌∙◌,
}
use libco.Runtime.{Error, World, ok, current}
use libco.Epoll.{is_error}
use libco.Iocp.{Iomux, accept}
use libco.Iocp.Wait.{Machine, Io, finishes, waits, invalid_socket, new_ctx}
use libco.Iocp.Load.{load_extension_functions, query, open_socket}
use libco.Iocp.Accept.{
  Host, Accepted, new_heap, co_accept, co_accept_resume, co_accept_cancelled, accept_submit,
  accept_timed, accept_as, accept_loaded,
}

-- The first stage of `co_accept`: a failure leaves nothing behind, and where it waits it holds a
-- socket and a context, which names the socket.
pub data Opened (m : Machine) : Io Accepted → Type 0 where
  refused :
      {a : Accepted} {v : Machine}
      → a.0 ≡ invalid_socket
      → v.sockets ≡ m.sockets
      → v.heap ≡ m.heap
      → Opened m (finishes a v)
  pending :
      {v : Machine} (s c : ℕ)
      → v.sockets ≡ s ∷ m.sockets
      → v.heap ≡ c ∷ m.heap
      → (v.ctxs c).accept_socket ≡ s
      → Opened m (waits v)

-- A stage after a time-out or a failure: the call fails, and gives both back.
pub data Closed (m : Machine) (s c : ℕ) : Io Accepted → Type 0 where
  closed :
      {a : Accepted} {v : Machine}
      → a.0 ≡ invalid_socket
      → v.sockets ≡ erase s m.sockets
      → v.heap ≡ erase c m.heap
      → Closed m s c (finishes a v)

-- The stage after the first switch, where `setsockopt` answers `updates`.
pub data Released (updates : Bool) (m : Machine) (p s c : ℕ) : Io Accepted → Type 0 where
  again :
      {v : Machine}
      → (m.world.routines p).timed_out ≡ true
      → v.sockets ≡ m.sockets
      → v.heap ≡ m.heap
      → Released updates m p s c (waits v)
  failed :
      {o : Io Accepted}
      → (m.world.routines p).timed_out ≡ false
      → (is_error (m.ctxs c).revents ≡ true) ⊎ (updates ≡ false)
      → Closed m s c o
      → Released updates m p s c o
  handed_over :
      {a : Accepted} {v : Machine}
      → (m.world.routines p).timed_out ≡ false
      → is_error (m.ctxs c).revents ≡ false
      → updates ≡ true
      → a.0 ≡ s
      → v.sockets ≡ m.sockets
      → v.heap ≡ erase c m.heap
      → Released updates m p s c (finishes a v)

-- The temporary socket of the load is closed.
query-sockets :
    (a b d : Bool) (s : ℕ) (m : Machine)
    → let v = (query a b d s (open_socket m s)).1 in (v.sockets ≡ m.sockets) × (v.heap ≡ m.heap)
unfolding query
query-sockets false b d s m = (erase_head s m.sockets, refl)
query-sockets true false d s m = (erase_head s m.sockets, refl)
query-sockets true true false s m = (erase_head s m.sockets, refl)
query-sockets true true true s m = (erase_head s m.sockets, refl)

pub load-sockets :
    (temporary : Option ℕ) (a b d : Bool) (m : Machine)
    → let v = (load_extension_functions temporary a b d m).1 in
      (v.sockets ≡ m.sockets) × (v.heap ≡ m.heap)
unfolding load_extension_functions
load-sockets temporary a b d m = elim (Bool-cases m.ext_funcs_loaded) [
  | inl had ↦ rw had (refl, refl)
  | inr new ↦ rw new (elim (Option-cases temporary) [
    | inl e ↦ rw e (refl, refl)
    | inr (s, e) ↦ rw e (query-sockets a b d s m)
  ])
]

accept_submit-Opened :
    (r : Error × Iomux) (submits : Bool) (base m : Machine) (p s c : ℕ)
    → m.sockets ≡ s ∷ base.sockets
    → m.heap ≡ c ∷ base.heap
    → (m.ctxs c).accept_socket ≡ s
    → Opened base (accept_submit r submits m p s c)
unfolding accept_submit
accept_submit-Opened (ok, io) true base m p s c hs hc n = pending s c hs hc n
accept_submit-Opened (ok, io) false base m p s c hs hc n =
    refused refl (rw hs (erase_head s _)) (rw hc (erase_head c _))
accept_submit-Opened (e, io) b base m p s c hs hc n =
    refused refl (rw hs (erase_head s _)) (rw hc (erase_head c _))

accept_timed-Opened :
    (r : Bool × World) (host : Host) (fd : ℕ) (base m : Machine) (p s c : ℕ)
    → m.sockets ≡ s ∷ base.sockets
    → m.heap ≡ c ∷ base.heap
    → (m.ctxs c).accept_socket ≡ s
    → Opened base (accept_timed r host fd m p s c)
unfolding accept_timed
accept_timed-Opened (false, w) host fd base m p s c hs hc n =
    refused refl (rw hs (erase_head s _)) (rw hc (erase_head c _))
accept_timed-Opened (true, w) host fd base m p s c hs hc n =
    accept_submit-Opened _ host.submits base _ p s c hs hc n

accept_as-Opened :
    (current : Option ℕ) (host : Host) (fd : ℕ) (limit : Option ℕ) (base m : Machine)
    → m.sockets ≡ base.sockets
    → m.heap ≡ base.heap
    → Opened base (accept_as current host fd limit m)
unfolding accept_as
accept_as-Opened none host fd limit base m hs hc = refused refl hs hc
accept_as-Opened (some p) host fd limit base m hs hc = elim (Option-cases host.socket) [
  | inl e ↦ rw e (refused refl hs hc)
  | inr (s, e) ↦ rw e (elim (Option-cases host.calloc) [
    | inl o ↦ rw o (refused refl (erase_head s _ ∙ hs) hc)
    | inr (c, o) ↦ rw o (
        accept_timed-Opened _ _ fd base (new_heap (open_socket m s) c (new_ctx fd accept limit p s))
          p s c (rw hs refl) (rw hc refl) (ground arith))
  ])
]

accept_loaded-Opened :
    (r : Bool × Machine) (host : Host) (fd : ℕ) (limit : Option ℕ) (base : Machine)
    → (r.1.sockets ≡ base.sockets) × (r.1.heap ≡ base.heap)
    → Opened base (accept_loaded r host fd limit)
unfolding accept_loaded
accept_loaded-Opened (false, m) host fd limit base (hs, hc) = refused refl hs hc
accept_loaded-Opened (true, m) host fd limit base (hs, hc) =
    accept_as-Opened (current m.world) host fd limit base m hs hc

co_accept-Opened :
    (host : Host) (fd : ℕ) (limit : Option ℕ) (m : Machine) → Opened m (co_accept host fd limit m)
unfolding co_accept
co_accept-Opened host fd limit m = elim (Bool-cases (fd == invalid_socket)) [
  | inl bad ↦ rw bad (refused refl refl refl)
  | inr good ↦ rw good (
      accept_loaded-Opened
        (load_extension_functions host.temporary host.accept_ex host.connect_ex host.sockaddrs m)
        host fd limit m
        (load-sockets host.temporary host.accept_ex host.connect_ex host.sockaddrs m))
]

co_accept_resume-Released :
    (updates : Bool) (room : Option ℕ) (remote : Option (List ℕ)) (m : Machine) (p s c : ℕ)
    → Released updates m p s c (co_accept_resume updates room remote m p s c)
unfolding co_accept_resume
co_accept_resume-Released updates room remote m p s c =
    elim (Bool-cases (m.world.routines p).timed_out) [
      | inl late ↦ rw late (again late refl refl)
      | inr in_time ↦ rw in_time (elim (Bool-cases (is_error (m.ctxs c).revents)) [
        | inl bad ↦ rw bad (failed in_time (inl bad) (closed refl refl refl))
        | inr good ↦ rw good (elim (Bool-cases updates) [
          | inl e ↦ rw e (handed_over in_time good refl refl refl refl)
          | inr e ↦ rw e (failed in_time (inr refl) (closed refl refl refl))
        ])
      ])
    ]

-- The socket and the wait context of `co_accept` are released on every path, at once, just those:
-- where its first stage returns, it returns INVALID_SOCKET, and what was held before it is held
-- then; where it waits, it holds one socket and one context more. The second stage waits after a
-- time-out, and only then, and holds what it held. Else it frees the context, and it closes the socket
-- and returns INVALID_SOCKET if there is an error event or the socket's context could not be updated,
-- and if not, returns the socket and leaves it open. The last stage, after a time-out, closes and
-- frees both, and returns INVALID_SOCKET.
pub co_accept-Released :
    (host : Host) (fd : ℕ) (limit : Option ℕ) (start : Machine) (updates : Bool) (room : Option ℕ)
    (remote : Option (List ℕ)) (m : Machine) (p s c : ℕ)
    → Opened start (co_accept host fd limit start)
      × Released updates m p s c (co_accept_resume updates room remote m p s c)
      × Closed m s c (co_accept_cancelled m s c)
unfolding co_accept_cancelled
co_accept-Released host fd limit start updates room remote m p s c = (
  co_accept-Opened host fd limit start,
  co_accept_resume-Released updates room remote m p s c,
  closed refl refl refl,
)
