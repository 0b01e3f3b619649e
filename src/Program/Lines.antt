-- ===== src/Program/Lines.antt =====
-- What the operations of a program do to the lines, and the line that each may join.
use libco.Base.{ℕ, ◌≡◌, Option, none, some}
use libco.Runtime.{World, current}
use libco.Program.{Op, perform}
use libco.Program.{
  locks, trylocks, unlocks, signals, broadcasts, waits, waits_on, timed_waits, timed_waits_on,
  sends, trysends, receives, tryreceives, closes, yields, sleeps, waits_io, waits_io_on, finishes,
}
use libco.Program.Tame.{Acts}
use libco.Program.Ops.{unlock-Tame, trylock-Tame, signal-Tame, broadcast-Tame}
use libco.Program.Exchanges.{trysend-Tame, tryrecv-Tame, close-Tame}
use libco.Program.Acting.{
  lock-Acts, wait-Acts, wait_resume-Acts, timedwait-Acts, timedwait_resume-Acts, send-Acts,
  recv-Acts, yield-Acts, sleep-Acts, wait_io-Acts, wait_io_resume-Tame, finish-Acts,
}

-- The line that an operation may have its coroutine wait in: that of the mutex, the condition variable,
-- or the channel's senders or receivers.
abbrev pub line_of : World → Op → Option ℕ
line_of w (locks m) = some m
line_of w (waits cond m) = some cond
line_of w (waits_on m) = some m
line_of w (timed_waits realloc now cond m ms) = some cond
line_of w (timed_waits_on m) = some m
line_of w (sends c ptr) = some (w.channels c).send_queue
line_of w (receives c ptr) = some (w.channels c).recv_queue
line_of w op = none

pub perform-Acts :
    (w : World) (p : ℕ) (op : Op) → current w ≡ some p → Acts p (line_of w op) w (perform w p op)
unfolding perform
perform-Acts w p (locks m) c = lock-Acts p w m c
perform-Acts w p (trylocks m) c = trylock-Tame _ none w m
perform-Acts w p (unlocks m) c = unlock-Tame _ none w m
perform-Acts w p (signals cond) c = signal-Tame _ none w cond
perform-Acts w p (broadcasts cond) c = broadcast-Tame _ none w cond
perform-Acts w p (waits cond m) c = wait-Acts p w cond m c
perform-Acts w p (waits_on m) c = wait_resume-Acts p w m c
perform-Acts w p (timed_waits realloc now cond m ms) c = timedwait-Acts p realloc now w cond m ms c
perform-Acts w p (timed_waits_on m) c = timedwait_resume-Acts p w m c
perform-Acts w p (sends ch ptr) c = send-Acts p w ch ptr c
perform-Acts w p (trysends ch ptr) c = trysend-Tame _ none w ch ptr
perform-Acts w p (receives ch ptr) c = recv-Acts p w ch ptr c
perform-Acts w p (tryreceives ch ptr) c = tryrecv-Tame _ none w ch ptr
perform-Acts w p (closes ch) c = close-Tame _ none w ch
perform-Acts w p yields c = yield-Acts p w c
perform-Acts w p (sleeps realloc now msec) c = sleep-Acts p realloc now w msec c
perform-Acts w p (waits_io realloc now r ms) c = wait_io-Acts p realloc now r ms w c
perform-Acts w p (waits_io_on ctx) c = wait_io_resume-Tame p w ctx
perform-Acts w p (finishes result) c = finish-Acts p w result
