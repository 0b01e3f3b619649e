-- ===== src/Iocp/Accept.antt =====
-- `co_accept`, in its stages. The client socket and the wait context are released on each path.
use libco.Base.{
  ℕ, ◌-◌, ◌==◌, not, ltb, Bool, true, false, Option, none, some, List, [], ◌∷◌, if◌then◌else◌,
  store, erase, length,
}
use libco.Runtime.{Error, World, ok, current}
use libco.Epoll.{set_io_waiting, is_error}
use libco.Iocp.{Iomux, IoCtx, accept, add}
use libco.Iocp.Wait.{
  Machine, Io, finishes, waits, Code, wsa_einval, wsa_etimedout, invalid_socket, set_world,
  set_timer, suspend, clear_timer, new_ctx,
}
use libco.Iocp.Load.{open_socket, close_socket, load_extension_functions}

-- What Windows answers to the calls of `co_accept` and `co_connect`: to `socket` and `calloc`, to the
-- queries for the extension functions, to the association, and to AcceptEx or ConnectEx, where a
-- pending operation succeeds.
pub record Host : Type 0 where
  pub realloc : ℕ → Bool
  pub now : ℕ
  pub socket : Option ℕ
  pub calloc : Option ℕ
  pub temporary : Option ℕ
  pub accept_ex : Bool
  pub connect_ex : Bool
  pub sockaddrs : Bool
  pub associates : Bool
  pub submits : Bool

-- The result is a socket, the error code that the call sets, if it does, and the address that it
-- writes, if it does.
abbrev pub Accepted : Type 0
Accepted = ℕ × Option Code × Option (List ℕ)

abbrev pub rejected : Accepted
rejected = (invalid_socket, none, none)

abbrev pub new_heap : Machine → ℕ → IoCtx → Machine
new_heap m c ctx = record m { ctxs = store m.ctxs c ctx; heap = c ∷ m.heap }

abbrev pub free_ctx : Machine → ℕ → Machine
free_ctx m c = record m { heap = erase c m.heap }

-- The two releases of an error path.
abbrev pub release : Machine → (s c : ℕ) → Machine
release m s c = free_ctx (close_socket m s) c

unfoldable pub accept_submit :
    Error × Iomux → (submits : Bool) → Machine → (p s c : ℕ) → Io Accepted
unfolding suspend
accept_submit (ok, io) submits m p s c =
    let m1 = record m { iomux = io } in
    if submits
    then waits (set_world m1 (suspend m1.world p))
    else finishes rejected (release (set_world m1 (set_io_waiting m1.world p false)) s c)
accept_submit (e, io) submits m p s c =
    finishes rejected
      (release (record m { world = set_io_waiting m.world p false; iomux = io }) s c)

unfoldable pub accept_timed : Bool × World → Host → (fd : ℕ) → Machine → (p s c : ℕ) → Io Accepted
unfolding accept_submit add
accept_timed (false, w) host fd m p s c = finishes rejected (release (set_world m w) s c)
accept_timed (true, w) host fd m p s c =
    accept_submit (add host.associates m.iomux fd) host.submits (set_world m w) p s c

unfoldable pub accept_as :
    Option ℕ → Host → (fd : ℕ) → (timeout_ms : Option ℕ) → Machine → Io Accepted
unfolding accept_timed set_timer
accept_as none host fd timeout_ms m = finishes (invalid_socket, some wsa_einval, none) m
accept_as (some p) host fd timeout_ms m = elim host.socket [
  | none ↦ finishes rejected m
  | some s ↦ elim host.calloc [
    | none ↦ finishes rejected (close_socket (open_socket m s) s)
    | some c ↦
        let m1 = new_heap (open_socket m s) c (new_ctx fd accept timeout_ms p s) in
        accept_timed (set_timer host.realloc host.now timeout_ms m1.world p) host fd m1 p s c
  ]
]

unfoldable pub accept_loaded :
    Bool × Machine → Host → (fd : ℕ) → (timeout_ms : Option ℕ) → Io Accepted
unfolding accept_as current
accept_loaded (false, m) host fd timeout_ms = finishes rejected m
accept_loaded (true, m) host fd timeout_ms = accept_as (current m.world) host fd timeout_ms m

-- `co_accept` up to its first switch.
unfoldable pub co_accept : Host → (fd : ℕ) → (timeout_ms : Option ℕ) → Machine → Io Accepted
unfolding accept_loaded load_extension_functions
co_accept host fd timeout_ms m =
    if fd == invalid_socket
    then finishes (invalid_socket, some wsa_einval, none) m
    else accept_loaded
        (load_extension_functions host.temporary host.accept_ex host.connect_ex host.sockaddrs m)
        host fd timeout_ms

cut : ℕ → List ℕ → List ℕ
cut n [] = []
cut n (x ∷ xs) = let later = cut (n - 1) xs in if n == 0 then [] else x ∷ later

-- The address of the peer, cut to the room that the caller gave, if it gave any; `*addrlen` is then
-- the length of what was written.
unfoldable pub peer_address : (addrlen : Option ℕ) → (remote : Option (List ℕ)) → Option (List ℕ)
unfolding cut
peer_address none remote = none
peer_address (some room) none = none
peer_address (some room) (some bytes) =
    if not (ltb 0 (length bytes))
    then none
    else some (cut (if ltb (length bytes) room then length bytes else room) bytes)

-- From the first switch on: to its end, or after a time-out to the second switch. `updates` is the
-- answer of `setsockopt`, and `remote` of `GetAcceptExSockaddrs`.
unfoldable pub co_accept_resume :
    (updates : Bool)
    → (addrlen : Option ℕ) → (remote : Option (List ℕ)) → Machine
    → (p s c : ℕ) → Io Accepted
unfolding suspend clear_timer peer_address
co_accept_resume updates addrlen remote m p s c =
    if (m.world.routines p).timed_out
    then waits (set_world m (suspend m.world p))
    else if is_error (m.ctxs c).revents
    then finishes rejected (release m s c)
    else let m1 = set_world m (clear_timer (m.ctxs c).timeout_ms m.world p) in
      if not updates
      then finishes rejected (release m1 s c)
      else finishes (s, none, peer_address addrlen remote) (free_ctx m1 c)

-- From the second switch on.
unfoldable pub co_accept_cancelled : Machine → (s c : ℕ) → Io Accepted
co_accept_cancelled m s c = finishes (invalid_socket, some wsa_etimedout, none) (release m s c)
