-- ===== src/Iocp/Load.antt =====
-- The globals of Windows: Winsock, and the extension functions that are loaded at run time; and the
-- creation of a multiplexer. A flag says whether a call of Windows succeeds, and an allocation is
-- the address that it gives.
use libco.Base.{
  ℕ, ◌==◌, not, Bool, true, false, Option, none, some, List, ◌∷◌, if◌then◌else◌, erase,
}
use libco.Iocp.{Iomux}
use libco.Iocp.Wait.{Machine}

abbrev pub open_socket : Machine → ℕ → Machine
open_socket m s = record m { sockets = s ∷ m.sockets }

-- `closesocket`.
abbrev pub close_socket : Machine → ℕ → Machine
close_socket m s = record m { sockets = erase s m.sockets }

-- The three queries of `load_extension_functions`, in a machine where the temporary socket is open.
unfoldable pub query : (accept_ex connect_ex sockaddrs : Bool) → (s : ℕ) → Machine → Bool × Machine
query accept_ex connect_ex sockaddrs s m =
    if not accept_ex
    then (false, close_socket m s)
    else if not connect_ex
    then (false, close_socket m s)
    else if not sockaddrs
    then (false, close_socket m s)
    else (true, record (close_socket m s) { ext_funcs_loaded = true })

-- `load_extension_functions`, with the temporary socket and the answers of `WSAIoctl`.
unfoldable pub load_extension_functions :
    (temporary : Option ℕ) → (accept_ex connect_ex sockaddrs : Bool) → Machine → Bool × Machine
unfolding query
load_extension_functions temporary accept_ex connect_ex sockaddrs m =
    if m.ext_funcs_loaded then (true, m) else elim temporary [
      | none ↦ (false, m)
      | some s ↦ query accept_ex connect_ex sockaddrs s (open_socket m s)
    ]

-- `init_winsock`: its result and `g_wsa_init` after it.
unfoldable pub init_winsock : (startup : Bool) → (wsa_init : Bool) → Bool × Bool
init_winsock startup wsa_init = if wsa_init then (true, true) else (startup, startup)

-- The events of a poll: 1024, unless the caller asked for a positive number.
unfoldable pub event_limit : (max_events : Option ℕ) → ℕ
event_limit none = 1024
event_limit (some n) = if n == 0 then 1024 else n

-- The checks of `co_iomux_create`, once Winsock is there. The result is the multiplexer, if there is
-- one, and the objects that are held then, added to `held`.
unfoldable pub create_on :
    (structure port entries : Option ℕ) → (max_events : ℕ) → (held : List ℕ) → Option Iomux × List ℕ
create_on none port entries max_events held = (none, held)
create_on (some a) none entries max_events held = (none, erase a (a ∷ held))
create_on (some a) (some h) none max_events held = (none, erase a (erase h (h ∷ a ∷ held)))
create_on (some a) (some h) (some b) max_events held = (
  some (record {
    iocp = h;
    entries = b;
    max_events = max_events;
    associated_sockets = λ i. 0;
    associated_count = 0;
  }),
  b ∷ h ∷ a ∷ held,
)

-- `co_iomux_create`, with the answers of `WSAStartup`, the two `calloc` and `CreateIoCompletionPort`;
-- `max_events` is none where it is negative. `g_wsa_init` is left as the last component.
unfoldable pub create :
    (startup : Bool)
    → (structure port entries : Option ℕ) → (max_events : Option ℕ) → (wsa_init : Bool)
    → (held : List ℕ) → (Option Iomux × List ℕ) × Bool
unfolding create_on init_winsock
create startup structure port entries max_events wsa_init held =
    let (started, later) = init_winsock startup wsa_init in
    (
      if not started
          then (none, held)
          else create_on structure port entries (event_limit max_events) held,
      later,
    )

-- `co_iomux_destroy` of the multiplexer at `structure`.
unfoldable pub destroy : (structure : ℕ) → Iomux → (held : List ℕ) → List ℕ
destroy structure io held =
    let closed = if not (io.iocp == 0) then erase io.iocp held else held in
    erase structure (erase io.entries closed)
