-- ===== src/Iocp/Freed.antt =====
-- The wait context of `co_connect`: when it is allocated, and when it is freed.
use libco.Base.{
  erase_head, ℕ, ◌≡◌, refl, ◌==◌, ◌||◌, Bool, true, false, Option, ◌∷◌, erase, inl, inr, Bool-cases,
  Option-cases,
}
use libco.Runtime.{Error, World, ok, current}
use libco.Epoll.{is_error}
use libco.Iocp.{Iomux, connect}
use libco.Iocp.Wait.{Machine, Io, finishes, waits, invalid_socket, new_ctx}
use libco.Iocp.Load.{load_extension_functions}
use libco.Iocp.Accept.{Host, new_heap}
use libco.Iocp.Connect.{
  Bound, bound, bound_before, refused, Connected, co_connect, co_connect_resume,
  co_connect_cancelled, connect_submit, connect_timed, connect_bound, connect_as, connect_loaded,
}
use libco.Iocp.Balanced.{load-sockets}

-- The first stage, and a later one.
pub data Begun (m : Machine) : Io Connected → Type 0 where
  not_begun :
      {a : Connected} {v : Machine}
      → a.0 ≡ false
      → v.sockets ≡ m.sockets
      → v.heap ≡ m.heap
      → Begun m (finishes a v)
  begun : {v : Machine} (c : ℕ) → v.sockets ≡ m.sockets → v.heap ≡ c ∷ m.heap → Begun m (waits v)

pub data Freed (m : Machine) (c : ℕ) : Io Connected → Type 0 where
  kept : {v : Machine} → v.sockets ≡ m.sockets → v.heap ≡ m.heap → Freed m c (waits v)
  freed :
      {a : Connected} {v : Machine}
      → v.sockets ≡ m.sockets
      → v.heap ≡ erase c m.heap
      → Freed m c (finishes a v)

connect_submit-Begun :
    (r : Error × Iomux) (submits : Bool) (base m : Machine) (p c : ℕ)
    → m.sockets ≡ base.sockets
    → m.heap ≡ c ∷ base.heap
    → Begun base (connect_submit r submits m p c)
unfolding connect_submit
connect_submit-Begun (ok, io) true base m p c hs hc = begun c hs hc
connect_submit-Begun (ok, io) false base m p c hs hc = not_begun refl hs (rw hc (erase_head c _))
connect_submit-Begun (e, io) b base m p c hs hc = not_begun refl hs (rw hc (erase_head c _))

connect_timed-Begun :
    (r : Bool × World) (host : Host) (fd : ℕ) (base m : Machine) (p c : ℕ)
    → m.sockets ≡ base.sockets
    → m.heap ≡ c ∷ base.heap
    → Begun base (connect_timed r host fd m p c)
unfolding connect_timed
connect_timed-Begun (false, w) host fd base m p c hs hc = not_begun refl hs (rw hc (erase_head c _))
connect_timed-Begun (true, w) host fd base m p c hs hc =
    connect_submit-Begun _ host.submits base _ p c hs hc

connect_bound-Begun :
    (b : Bound) (host : Host) (fd : ℕ) (limit : Option ℕ) (base m : Machine) (p c : ℕ)
    → m.sockets ≡ base.sockets
    → m.heap ≡ c ∷ base.heap
    → Begun base (connect_bound b host fd limit m p c)
unfolding connect_bound
connect_bound-Begun refused host fd limit base m p c hs hc =
    not_begun refl hs (rw hc (erase_head c _))
connect_bound-Begun bound host fd limit base m p c hs hc =
    connect_timed-Begun _ host fd base m p c hs hc
connect_bound-Begun bound_before host fd limit base m p c hs hc =
    connect_timed-Begun _ host fd base m p c hs hc

connect_loaded-Begun :
    (r : Bool × Machine) (host : Host) (b : Bound) (fd : ℕ) (limit : Option ℕ) (base : Machine)
    → (r.1.sockets ≡ base.sockets) × (r.1.heap ≡ base.heap)
    → Begun base (connect_loaded r host b fd limit)
unfolding connect_loaded connect_as
connect_loaded-Begun (false, m) host b fd limit base (hs, hc) = not_begun refl hs hc
connect_loaded-Begun (true, m) host b fd limit base (hs, hc) =
    elim (Option-cases (current m.world)) [
      | inl e ↦ rw e (not_begun refl hs hc)
      | inr (p, e) ↦ rw e (elim (Option-cases host.calloc) [
        | inl o ↦ rw o (not_begun refl hs hc)
        | inr (c, o) ↦ rw o (
            connect_bound-Begun b _ fd limit base (new_heap m c (new_ctx fd connect limit p 0)) p c
              hs (rw hc refl))
      ])
    ]

co_connect-Begun :
    (host : Host) (b : Bound) (fd addr : ℕ) (limit : Option ℕ) (m : Machine)
    → Begun m (co_connect host b fd addr limit m)
unfolding co_connect
co_connect-Begun host b fd addr limit m = elim (Bool-cases (fd == invalid_socket || addr == 0)) [
  | inl bad ↦ rw bad (not_begun refl refl refl)
  | inr good ↦ rw good (
      connect_loaded-Begun
        (load_extension_functions host.temporary host.accept_ex host.connect_ex host.sockaddrs m)
        host b fd limit m
        (load-sockets host.temporary host.accept_ex host.connect_ex host.sockaddrs m))
]

co_connect_resume-Freed :
    (updates : Bool) (m : Machine) (p c : ℕ) → Freed m c (co_connect_resume updates m p c)
unfolding co_connect_resume
co_connect_resume-Freed updates m p c = elim (Bool-cases (m.world.routines p).timed_out) [
  | inl late ↦ rw late (kept refl refl)
  | inr in_time ↦ rw in_time (elim (Bool-cases (is_error (m.ctxs c).revents)) [
    | inl bad ↦ rw bad (freed refl refl)
    | inr good ↦ rw good (elim (Bool-cases updates) [
      | inl e ↦ rw e (freed refl refl)
      | inr e ↦ rw e (freed refl refl)
    ])
  ])
]

-- The wait context of `co_connect` is freed on every path, once: where its first stage returns, it
-- reports a failure, and what was held before it is held then; where it waits, it holds one context
-- more. A later stage either waits and holds what it held, or it returns and frees the context. No
-- stage leaves a socket open, or closes one that it did not make.
pub co_connect-Freed :
    (host : Host) (b : Bound) (fd addr : ℕ) (limit : Option ℕ) (start : Machine) (updates : Bool)
    (m : Machine) (p c : ℕ)
    → Begun start (co_connect host b fd addr limit start)
      × Freed m c (co_connect_resume updates m p c)
      × Freed m c (co_connect_cancelled m c)
unfolding co_connect_cancelled
co_connect-Freed host b fd addr limit start updates m p c = (
  co_connect-Begun host b fd addr limit start,
  co_connect_resume-Freed updates m p c,
  freed refl refl,
)
