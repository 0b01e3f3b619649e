-- ===== src/Echo/Balance.antt =====
-- What the echo server (examples/demo_echo_server.c) holds: sockets, contexts and bytes.
use libco.Base.{ℕ, ◌+◌, ◌==◌, ◌≡◌, Bool, true, false, List, [], ◌∷◌, ◌++◌, if◌then◌else◌}
use libco.Base.Tally.{occ}
use libco.Echo.{Place, entry, reading, writing, returned, Handler, ServerPlace, accepting, Server}

-- Whether a handler has its socket and its context.
abbrev pub is_live : Place → Bool
is_live returned = false
is_live _ = true

abbrev pub is_active : Place → Bool
is_active entry = false
is_active reading = true
is_active (writing buffer) = true
is_active returned = false

abbrev pub one : Bool → ℕ
one b = if b then 1 else 0

-- How often `x` is the socket, or the context, of a handler that has one.
abbrev pub sockets_of : ℕ → List Handler → ℕ
sockets_of x [] = 0
sockets_of x (h ∷ hs) =
    (if is_live h.place then one (x == h.context.client_fd) else 0) + sockets_of x hs

abbrev pub contexts_of : ℕ → List Handler → ℕ
contexts_of x [] = 0
contexts_of x (h ∷ hs) = (if is_live h.place then one (x == h.ctx) else 0) + contexts_of x hs

abbrev pub actives : List Handler → ℕ
actives [] = 0
actives (h ∷ hs) = one (is_active h.place) + actives hs

abbrev pub listens : ℕ → ServerPlace → ℕ
listens x (accepting fd) = one (x == fd)
listens x _ = 0

-- The bytes of a handler that its `co_write` has yet to send.
abbrev pub pending : Place → List ℕ
pending (writing buffer) = buffer
pending _ = []

-- A handler that goes on has sent back what it got, but for what it is sending, in order; one that is
-- over has sent back the first of it.
abbrev pub IsEcho : Handler → Type 0
IsEcho h =
    if is_live h.place
    then h.received ≡ h.echoed ++ pending h.place
    else (rest : List ℕ) × (h.received ≡ h.echoed ++ rest)

abbrev pub AllEcho : List Handler → Type 0
AllEcho [] = Unit {0}
AllEcho (h ∷ hs) = IsEcho h × AllEcho hs

-- With what the server holds: each socket was closed as often as it was opened, but for those in use,
-- each context freed as often as it was allocated, and the active clients are counted.
pub record IsBalancedWith (held : ℕ → ℕ) (s : Server) : Type 0 where
  pub sockets :
      (x : ℕ) → occ x s.globals.opened ≡ occ x s.globals.closed + held x + sockets_of x s.handlers
  pub contexts :
      (x : ℕ) → occ x s.globals.allocated ≡ occ x s.globals.freed + contexts_of x s.handlers
  pub active : s.globals.active_clients ≡ actives s.handlers
  pub echo : AllEcho s.handlers

abbrev pub IsBalanced : Server → Type 0
IsBalanced s = IsBalancedWith (λ x. listens x s.place) s
