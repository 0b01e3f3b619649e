-- ===== src/Echo/Tests.antt =====
-- The echo server with one client, that sends two bytes and closes; then the signal comes.
use libco.Base.{◌≡◌, refl, true, false, none, some, [], ◌∷◌}
use libco.Echo.{
  Server, handler_at, server_routine, socket, error, accepted, handled, server_starts,
  server_accepts, handles, sigint, main_server, Reach, begin, step, stopped,
}
use libco.Echo.Balance.{IsBalanced}
use libco.Echo.Reachable.{Reach-IsBalanced}

abbrev listening : Server
unfolding server_routine
listening = server_routine (some 3) true true main_server

abbrev with_client : Server
unfolding accepted
with_client = accepted (socket 7 9) (some 90) true 3 listening

-- Its handler has sent the bytes back.
abbrev echoed : Server
echoed =
    handled 0 none (some 2) (handled 0 (some (1 ∷ 2 ∷ [])) none (handled 0 none none with_client))

abbrev interrupted : Server
interrupted =
    let s = handled 0 (some []) none echoed in
    record s { globals = record s.globals { server_running = false } }

abbrev over : Server
over = accepted (error 110) none false 3 interrupted

over-Reach : Reach over
unfolding server_routine accepted
over-Reach =
    step
      (step
        (step
          (step
            (step
              (step
                (step (step begin (server_starts (some 3) true true refl))
                  (server_accepts 3 (socket 7 9) (some 90) true refl))
                (handles 0 none none))
              (handles 0 (some (1 ∷ 2 ∷ [])) none))
            (handles 0 none (some 2)))
          (handles 0 (some []) none))
        sigint)
      (server_accepts 3 (error 110) none false refl)

over-stopped :
    (over.place ≡ stopped) × (over.globals.closed ≡ 3 ∷ 7 ∷ []) × (over.globals.freed ≡ 90 ∷ [])
unfolding accepted handler_at listening
over-stopped = (refl, refl, refl)

Reach-IsBalanced_example : IsBalanced over
Reach-IsBalanced_example = Reach-IsBalanced over-Reach
