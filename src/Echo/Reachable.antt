-- ===== src/Echo/Reachable.antt =====
-- The echo server (examples/demo_echo_server.c) over every order of its turns.
use libco.Base.{
  ℕ, ◌+◌, ◌==◌, ◌≡◌, refl, ap, ◌∙◌, if◌then◌else◌, Bool, true, false, Option, none, some, ◌∷◌,
  arith, Bool-cases, inl, inr,
}
use libco.Base.Tally.{occ}
use libco.Echo.{
  closesocket, start, accepting, Server, stop, loop, server_routine, Accepted, socket, error,
  is_timeout, spawn_client, serve, accepted, Step, server_starts, server_accepts, handles, sigint,
  Reach, begin, step,
}
use libco.Echo.Balance.{one, listens, IsBalancedWith, IsBalanced}
use libco.Echo.Handlers.{handler_at-AllHandled}

stop-IsBalanced :
    (fd : ℕ) (s : Server) → IsBalancedWith (λ x. one (x == fd)) s → IsBalanced (stop fd s)
unfolding stop closesocket
stop-IsBalanced fd s b = record {
  sockets = λ x. omega (arith, b.sockets x);
  contexts = b.contexts;
  active = b.active;
  echo = b.echo;
}

loop-IsBalanced :
    (fd : ℕ) (s : Server) → IsBalancedWith (λ x. one (x == fd)) s → IsBalanced (loop fd s)
unfolding loop
loop-IsBalanced fd s b =
    elim s.globals.server_running
      as (λ y. IsBalanced (if y then record s { place = accepting fd } else stop fd s)) [
        | true ↦ record {
          sockets = b.sockets;
          contexts = b.contexts;
          active = b.active;
          echo = b.echo;
        }
        | false ↦ stop-IsBalanced fd s b
      ]

server_routine-IsBalanced :
    (listen_fd : Option ℕ) (bound listens : Bool) (s : Server)
    → s.place ≡ start
    → IsBalanced s
    → IsBalanced (server_routine listen_fd bound listens s)
unfolding server_routine
server_routine-IsBalanced none bound listens s e b = record {
  sockets = λ x. omega (arith, rw e at (b.sockets x));
  contexts = b.contexts;
  active = b.active;
  echo = b.echo;
}
server_routine-IsBalanced (some fd) bound listens s e b =
    let s1 : Server = record s { globals = record s.globals { opened = fd ∷ s.globals.opened } } in
    let c : IsBalancedWith (λ x. one (x == fd)) s1 = record {
      sockets = λ x. omega (arith, rw e at (b.sockets x));
      contexts = b.contexts;
      active = b.active;
      echo = b.echo;
    } in
    elim bound
      as (λ y.
        IsBalanced (if y then (if listens then loop fd s1 else stop fd s1) else stop fd s1)) [
          | false ↦ stop-IsBalanced fd s1 c
          | true ↦ elim listens as (λ y. IsBalanced (if y then loop fd s1 else stop fd s1)) [
            | true ↦ loop-IsBalanced fd s1 c
            | false ↦ stop-IsBalanced fd s1 c
          ]
        ]

-- The socket of a new client is its handler's, or closed.
serve-IsBalancedWith :
    (malloc : Option ℕ) (spawned : Bool) (fd addr : ℕ) (held : ℕ → ℕ) (s : Server)
    → IsBalancedWith (λ x. held x + one (x == fd)) s
    → IsBalancedWith held (serve malloc spawned fd addr s)
unfolding serve spawn_client closesocket
serve-IsBalancedWith none spawned fd addr held s b = record {
  sockets = λ x. omega (arith, b.sockets x);
  contexts = b.contexts;
  active = b.active;
  echo = b.echo;
}
serve-IsBalancedWith (some ctx) true fd addr held s b = record {
  sockets = λ x. omega (arith, b.sockets x);
  contexts = λ x. omega (arith, b.contexts x);
  active = omega (arith, b.active);
  echo = (refl, b.echo);
}
serve-IsBalancedWith (some ctx) false fd addr held s b = record {
  sockets = λ x. omega (arith, b.sockets x);
  contexts = λ x. omega (arith, b.contexts x);
  active = b.active;
  echo = b.echo;
}

accepted-IsBalanced :
    (answer : Accepted) (malloc : Option ℕ) (spawned : Bool) (listen_fd : ℕ) (s : Server)
    → s.place ≡ accepting listen_fd
    → IsBalanced s
    → IsBalanced (accepted answer malloc spawned listen_fd s)
unfolding accepted
accepted-IsBalanced (error errno) malloc spawned listen_fd s e b =
    let c : IsBalancedWith (λ x. one (x == listen_fd)) s = record {
      sockets = λ x. rw e at (b.sockets x);
      contexts = b.contexts;
      active = b.active;
      echo = b.echo;
    } in
    elim (Bool-cases (is_timeout errno)) [
      | inl again ↦ rw again (loop-IsBalanced listen_fd s c)
      | inr over ↦ rw over (stop-IsBalanced listen_fd s c)
    ]
accepted-IsBalanced (socket fd addr) malloc spawned listen_fd s e b =
    let s1 : Server = record s { globals = record s.globals { opened = fd ∷ s.globals.opened } } in
    let c : IsBalancedWith (λ x. one (x == listen_fd) + one (x == fd)) s1 = record {
      sockets = λ x. omega (arith, rw e at (b.sockets x));
      contexts = b.contexts;
      active = b.active;
      echo = b.echo;
    } in
    loop-IsBalanced listen_fd (serve malloc spawned fd addr s1)
      (serve-IsBalancedWith malloc spawned fd addr (λ x. one (x == listen_fd)) s1 c)

Step-IsBalanced : {s t : Server} → Step s t → IsBalanced s → IsBalanced t
Step-IsBalanced {s} (server_starts fd bound listens e) b =
    server_routine-IsBalanced fd bound listens s e b
Step-IsBalanced {s} (server_accepts fd answer malloc spawned e) b =
    accepted-IsBalanced answer malloc spawned fd s e b
Step-IsBalanced {s} (handles i received sent) b =
    let r = handler_at-AllHandled i received sent s.handlers s.globals b.echo in
    record {
      sockets = λ x. ap (occ x) r.same_opened ∙ omega (arith, r.sockets x, b.sockets x);
      contexts = λ x. ap (occ x) r.same_allocated ∙ omega (arith, r.contexts x, b.contexts x);
      active = omega (arith, b.active, r.active (omega (arith, b.active)));
      echo = r.echo;
    }
Step-IsBalanced {s} sigint b = record {
  sockets = b.sockets;
  contexts = b.contexts;
  active = b.active;
  echo = b.echo;
}

-- However the turns of the server and its handlers follow each other, whatever the calls answer, and
-- whenever the signal comes: each socket was closed once for each time that it was opened, but for the
-- listening one while the server accepts and those of the handlers that are not over; each context was
-- freed once for each time that it was allocated, but for those of these handlers, which after their
-- start are the active clients; and each of them has sent back the bytes that it got, in order, but for
-- those that it is sending, and one that is over has sent back the first of them.
pub Reach-IsBalanced : {s : Server} → Reach s → IsBalanced s
Reach-IsBalanced begin = record {
  sockets = λ x. refl;
  contexts = λ x. refl;
  active = refl;
  echo = tt;
}
Reach-IsBalanced (step r q) = Step-IsBalanced q (Reach-IsBalanced r)
