-- ===== src/Iocp/Connect.antt =====
-- `co_connect`, in its stages. The result is whether it connected, and the error code that it sets.
use libco.Base.{ℕ, ◌==◌, ◌||◌, not, Bool, true, false, Option, none, some, if◌then◌else◌}
use libco.Runtime.{Error, World, ok, current}
use libco.Epoll.{set_io_waiting, is_error}
use libco.Iocp.{Iomux, connect, add}
use libco.Iocp.Wait.{
  Machine, Io, finishes, waits, Code, wsa_einval, wsa_etimedout, invalid_socket, set_world,
  set_timer, suspend, clear_timer, new_ctx,
}
use libco.Iocp.Load.{load_extension_functions}
use libco.Iocp.Accept.{Host, new_heap, free_ctx}

-- The answer of `bind`; `bound_before` is its error WSAEINVAL.
pub data Bound : Type 0 where
  bound bound_before refused : Bound

abbrev pub Connected : Type 0
Connected = Bool × Option Code

abbrev pub unconnected : Connected
unconnected = (false, none)

unfoldable pub connect_submit :
    Error × Iomux → (submits : Bool) → Machine → (p c : ℕ) → Io Connected
unfolding suspend
connect_submit (ok, io) submits m p c =
    let m1 = record m { iomux = io } in
    if submits
    then waits (set_world m1 (suspend m1.world p))
    else finishes unconnected (free_ctx (set_world m1 (set_io_waiting m1.world p false)) c)
connect_submit (e, io) submits m p c =
    finishes unconnected
      (free_ctx (record m { world = set_io_waiting m.world p false; iomux = io }) c)

unfoldable pub connect_timed : Bool × World → Host → (fd : ℕ) → Machine → (p c : ℕ) → Io Connected
unfolding connect_submit add
connect_timed (false, w) host fd m p c = finishes unconnected (free_ctx (set_world m w) c)
connect_timed (true, w) host fd m p c =
    connect_submit (add host.associates m.iomux fd) host.submits (set_world m w) p c

unfoldable pub connect_bound :
    Bound → Host → (fd : ℕ) → (timeout_ms : Option ℕ) → Machine → (p c : ℕ) → Io Connected
unfolding connect_timed set_timer
connect_bound refused host fd timeout_ms m p c = finishes unconnected (free_ctx m c)
connect_bound b host fd timeout_ms m p c =
    connect_timed (set_timer host.realloc host.now timeout_ms m.world p) host fd m p c

unfoldable pub connect_as :
    Option ℕ → Host → Bound → (fd : ℕ) → (timeout_ms : Option ℕ) → Machine → Io Connected
unfolding connect_bound
connect_as none host b fd timeout_ms m = finishes (false, some wsa_einval) m
connect_as (some p) host b fd timeout_ms m = elim host.calloc [
  | none ↦ finishes unconnected m
  | some c ↦
      connect_bound b host fd timeout_ms (new_heap m c (new_ctx fd connect timeout_ms p 0)) p c
]

unfoldable pub connect_loaded :
    Bool × Machine → Host → Bound → (fd : ℕ) → (timeout_ms : Option ℕ) → Io Connected
unfolding connect_as current
connect_loaded (false, m) host b fd timeout_ms = finishes unconnected m
connect_loaded (true, m) host b fd timeout_ms = connect_as (current m.world) host b fd timeout_ms m

-- `co_connect` up to its first switch.
unfoldable pub co_connect :
    Host → Bound → (fd addr : ℕ) → (timeout_ms : Option ℕ) → Machine → Io Connected
unfolding connect_loaded load_extension_functions
co_connect host b fd addr timeout_ms m =
    if fd == invalid_socket || addr == 0
    then finishes (false, some wsa_einval) m
    else connect_loaded
        (load_extension_functions host.temporary host.accept_ex host.connect_ex host.sockaddrs m)
        host b fd timeout_ms

-- From the first switch on: to its end, or after a time-out to the second switch.
unfoldable pub co_connect_resume : (updates : Bool) → Machine → (p c : ℕ) → Io Connected
unfolding suspend clear_timer
co_connect_resume updates m p c =
    if (m.world.routines p).timed_out
    then waits (set_world m (suspend m.world p))
    else if is_error (m.ctxs c).revents
    then finishes unconnected (free_ctx m c)
    else let m1 = set_world m (clear_timer (m.ctxs c).timeout_ms m.world p) in
      (if not updates
        then finishes unconnected (free_ctx m1 c)
        else finishes (true, none) (free_ctx m1 c))

-- From the second switch on.
unfoldable pub co_connect_cancelled : Machine → (c : ℕ) → Io Connected
co_connect_cancelled m c = finishes (false, some wsa_etimedout) (free_ctx m c)
