-- ===== src/Echo.antt =====
-- examples/demo_echo_server.c, as it is built for Linux: a coroutine that accepts connections, and one
-- for each client. A turn runs from the answer of one call that can switch to the next such call; what
-- the calls answer is an argument.
pub mod Balance
pub mod Handlers
pub mod Reachable
mod Tests
use libco.Base.{
  ℕ, zero, suc, ◌+◌, ◌-◌, ◌==◌, ◌≡◌, ◌||◌, Bool, true, false, Option, none, some, List, [], ◌∷◌,
  ◌++◌, if◌then◌else◌, length,
}

pub record ClientContext : Type 0 where
  pub client_fd : ℕ
  pub client_id : ℕ
  pub client_addr : ℕ

-- Where a handler goes on: at its start, after `co_read`, after `co_write` of these bytes, or nowhere.
pub data Place : Type 0 where
  entry : Place
  reading : Place
  writing : (buffer : List ℕ) → Place
  returned : Place

-- A handler, with its context and the address of it, and the bytes that it got and that it sent.
pub record Handler : Type 0 where
  pub ctx : ℕ
  pub context : ClientContext
  pub place : Place
  pub received : List ℕ
  pub echoed : List ℕ

-- The global variables, the sockets that were opened and closed, and the contexts that were allocated
-- and freed, latest first.
pub record Globals : Type 0 where
  pub server_running : Bool
  pub total_clients : ℕ
  pub active_clients : ℕ
  pub opened : List ℕ
  pub closed : List ℕ
  pub allocated : List ℕ
  pub freed : List ℕ

unfoldable pub closesocket : Globals → ℕ → Globals
closesocket g fd = record g { closed = fd ∷ g.closed }

-- The end of a handler.
unfoldable pub cleanup : Handler → Globals → Handler × Globals
unfolding closesocket
cleanup h g =
    let g1 = closesocket g h.context.client_fd in
    (
      record h { place = returned },
      record g1 { active_clients = g.active_clients - 1; freed = h.ctx ∷ g.freed },
    )

-- After `co_read`, which fails or gives bytes: none when the connection is closed.
unfoldable pub after_read : Option (List ℕ) → Handler → Globals → Handler × Globals
unfolding cleanup
after_read none h g = cleanup h g
after_read (some []) h g = cleanup h g
after_read (some (b ∷ bs)) h g =
    (record h { place = writing (b ∷ bs); received = h.received ++ b ∷ bs }, g)

-- The first bytes of a buffer.
abbrev pub sent_of : ℕ → List ℕ → List ℕ
sent_of zero xs = []
sent_of (suc n) [] = []
sent_of (suc n) (x ∷ xs) = x ∷ sent_of n xs

-- After `co_write`, which fails or says how many bytes were sent.
unfoldable pub after_write :
    (sent : Option ℕ) → (buffer : List ℕ) → Handler → Globals → Handler × Globals
unfolding cleanup
after_write none buffer h g = cleanup h g
after_write (some n) buffer h g =
    let h1 = record h { echoed = h.echoed ++ sent_of n buffer } in
    if n == length buffer then (record h1 { place = reading }, g) else cleanup h1 g

-- From its place on.
unfoldable pub go_on :
    Place → (received : Option (List ℕ)) → (sent : Option ℕ) → Handler → Globals → Handler × Globals
unfolding after_read after_write
go_on entry received sent h g =
    (record h { place = reading }, record g { active_clients = g.active_clients + 1 })
go_on reading received sent h g = after_read received h g
go_on (writing buffer) received sent h g = after_write sent buffer h g
go_on returned received sent h g = (h, g)

-- `client_handler_routine`. `received` and `sent` are what `co_read` or `co_write` answered.
unfoldable pub client_handler_routine :
    (received : Option (List ℕ)) → (sent : Option ℕ) → Handler → Globals → Handler × Globals
unfolding go_on
client_handler_routine received sent h g = go_on h.place received sent h g

-- Where the server goes on: at its start, after `co_accept` on a socket, or nowhere.
pub data ServerPlace : Type 0 where
  start : ServerPlace
  accepting : (listen_fd : ℕ) → ServerPlace
  stopped : ServerPlace

-- The coroutines, the handlers newest first, and what they share.
pub record Server : Type 0 where
  pub place : ServerPlace
  pub handlers : List Handler
  pub globals : Globals

unfoldable pub stop : (listen_fd : ℕ) → Server → Server
unfolding closesocket
stop fd s = record s { place = stopped; globals = closesocket s.globals fd }

-- The test of the accept loop.
unfoldable pub loop : (listen_fd : ℕ) → Server → Server
unfolding stop
loop fd s = if s.globals.server_running then record s { place = accepting fd } else stop fd s

-- `server_routine` up to `co_accept`, with what `socket`, `bind` and `listen` answer.
unfoldable pub server_routine : (listen_fd : Option ℕ) → (bound listens : Bool) → Server → Server
unfolding stop loop
server_routine none bound listens s = record s { place = stopped }
server_routine (some fd) bound listens s =
    let s1 = record s { globals = record s.globals { opened = fd ∷ s.globals.opened } } in
    if bound then (if listens then loop fd s1 else stop fd s1) else stop fd s1

-- What `co_accept` answers: a socket with the address of its client, or an `errno`.
pub data Accepted : Type 0 where
  socket : (client_fd client_addr : ℕ) → Accepted
  error : (errno : ℕ) → Accepted

-- `ETIMEDOUT`, and `EAGAIN`, which is `EWOULDBLOCK` too.
unfoldable pub is_timeout : (errno : ℕ) → Bool
is_timeout errno = (errno == 110) || (errno == 11)

-- After `co_spawn`, of which `spawned` says whether it gave a coroutine.
unfoldable pub spawn_client : (spawned : Bool) → (ctx : ℕ) → ClientContext → Server → Server
unfolding closesocket
spawn_client true ctx context s =
    let h : Handler = record {
      ctx = ctx;
      context = context;
      place = entry;
      received = [];
      echoed = [];
    } in
    record s { handlers = h ∷ s.handlers }
spawn_client false ctx context s =
    let g = closesocket s.globals context.client_fd in
    record s { globals = record g { freed = ctx ∷ g.freed } }

-- The new client, with the answers of `malloc` and `co_spawn`.
unfoldable pub serve : (malloc : Option ℕ) → (spawned : Bool) → (fd addr : ℕ) → Server → Server
unfolding closesocket spawn_client
serve none spawned fd addr s = record s { globals = closesocket s.globals fd }
serve (some ctx) spawned fd addr s =
    let id = s.globals.total_clients + 1 in
    let g = record s.globals { total_clients = id; allocated = ctx ∷ s.globals.allocated } in
    spawn_client spawned ctx (record { client_fd = fd; client_id = id; client_addr = addr })
      (record s { globals = g })

-- `server_routine` from `co_accept` on.
unfoldable pub accepted :
    Accepted → (malloc : Option ℕ) → (spawned : Bool) → (listen_fd : ℕ) → Server → Server
unfolding is_timeout stop loop serve
accepted (error errno) malloc spawned listen_fd s =
    if is_timeout errno then loop listen_fd s else stop listen_fd s
accepted (socket fd addr) malloc spawned listen_fd s =
    let s1 = record s { globals = record s.globals { opened = fd ∷ s.globals.opened } } in
    loop listen_fd (serve malloc spawned fd addr s1)

-- A turn of the handler at an index.
unfoldable pub handler_at :
    ℕ
    → (received : Option (List ℕ)) → (sent : Option ℕ) → List Handler
    → Globals
    → List Handler × Globals
unfolding client_handler_routine
handler_at i received sent [] g = ([], g)
handler_at zero received sent (h ∷ hs) g =
    let (x, g1) = client_handler_routine received sent h g in (x ∷ hs, g1)
handler_at (suc i) received sent (h ∷ hs) g =
    let (xs, g1) = handler_at i received sent hs g in (h ∷ xs, g1)

abbrev pub handled : ℕ → (received : Option (List ℕ)) → (sent : Option ℕ) → Server → Server
handled i received sent s =
    let (hs, g) = handler_at i received sent s.handlers s.globals in
    record s { handlers = hs; globals = g }

-- A turn of one coroutine, with any answers, or the signal to stop.
pub data Step (s : Server) : Server → Type 0 where
  server_starts :
      (listen_fd : Option ℕ) (bound listens : Bool)
      → s.place ≡ start
      → Step s (server_routine listen_fd bound listens s)
  server_accepts :
      (listen_fd : ℕ) (answer : Accepted) (malloc : Option ℕ) (spawned : Bool)
      → s.place ≡ accepting listen_fd
      → Step s (accepted answer malloc spawned listen_fd s)
  handles :
      (i : ℕ) (received : Option (List ℕ)) (sent : Option ℕ) → Step s (handled i received sent s)
  sigint : Step s (record s { globals = record s.globals { server_running = false } })

-- `main`, when nothing has run.
abbrev pub main_server : Server
main_server = record {
  place = start;
  handlers = [];
  globals = record {
    server_running = true;
    total_clients = 0;
    active_clients = 0;
    opened = [];
    closed = [];
    allocated = [];
    freed = [];
  };
}

pub data Reach : Server → Type 0 where
  begin : Reach main_server
  step : {s t : Server} → Reach s → Step s t → Reach t
