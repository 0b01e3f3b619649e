-- ===== src/Program/Turns.antt =====
-- What the scheduler does with a coroutine, in libco/src/co_scheduler.c, is steps of the program.
use libco.Base.{ℕ, ◌≡◌, refl, subst, ◌∙◌, Bool, true, Option, none, some, List, ◌∷◌, arith, store}
use libco.Runtime.{World, Error, ok, Outcome, returns, suspends, current}
use libco.Coroutine
use libco.Epoll.{wake_waiter}
use libco.Scheduler.{enter, leave, wake_timers, schedule, schedule_next}
use libco.Scheduler.Ready.{dequeue}
use libco.Program.{
  Program, Call, user, io_wait, Op, perform, called, call_after, switched, IsLegal, enters, does,
  time_passes, event, Reach, step,
}
use libco.Program.Wakeups.{wake_timers-Outside, wake_waiter-Outside}

module _ (is_cond : ℕ → Bool) where
  -- What a coroutine does in its turn: calls that return, then one that suspends it.
  pub data Turn (p : ℕ) : Program → World → (ℕ → Call) → Type 0 where
    last :
        {s : Program} {v : World} (op : Op)
        → current s.world ≡ some p
        → IsLegal is_cond s.world (s.calls p) op
        → perform s.world p op ≡ suspends v
        → Turn p s v (store s.calls p (called op))
    more :
        {s : Program} {u v : World} {later : ℕ → Call} {e : Error} (op : Op)
        → current s.world ≡ some p
        → IsLegal is_cond s.world (s.calls p) op
        → perform s.world p op ≡ returns e u
        → Turn p (record { world = u; calls = store s.calls p user }) v later
        → Turn p s v later

  -- What a poll of the multiplexer does: events of waits that still go on.
  pub data Polled : Program → World → Type 0 where
    no_event : {s : Program} → Polled s s.world
    an_event :
        {s : Program} {v : World} (p : ℕ) (timeout_ms : Option ℕ)
        → s.calls p ≡ io_wait timeout_ms
        → Polled (record s { world = wake_waiter s.world p }) v
        → Polled s v

  Turn-Reach :
      (p : ℕ) {s : Program} {v : World} {later : ℕ → Call}
      → Turn p s v later
      → Reach is_cond s
      → Reach is_cond (record { world = leave v p; calls = later })
  unfolding switched
  Turn-Reach p (last {s} {v} op c legal e) r =
      subst
        (λ (o : Outcome).
          Reach is_cond
            (record { world = switched o p; calls = store s.calls p (call_after op o) }))
        e (step r (does p op c legal))
  Turn-Reach p (more {s} {u} {v} {later} {e} op c legal f t) r = Turn-Reach p t (
      subst
        (λ (o : Outcome).
          Reach is_cond
            (record { world = switched o p; calls = store s.calls p (call_after op o) }))
        f (step r (does p op c legal)))

  Polled-Reach :
      {s : Program} {v : World}
      → Polled s v
      → Reach is_cond s
      → s.world.sched.current ≡ none
      → s.world.active ≡ true
      → Reach is_cond (record { world = v; calls = s.calls })
        × (v.sched.current ≡ none)
        × (v.active ≡ true)
  Polled-Reach no_event r c a = (r, c, a)
  Polled-Reach (an_event {s} p ms e t) r c a =
      let (d, b) = wake_waiter-Outside s.world p in
      Polled-Reach t (step r (event p ms c e)) (d ∙ c) (b ∙ a)

  -- Between two turns.
  pub record Between (fine : (ℕ → Call) → Type 0) (w : World) (calls : ℕ → Call) : Type 0 where
    pub reached : Reach is_cond (record { world = w; calls = calls })
    pub none_runs : w.sched.current ≡ none
    pub active : w.active ≡ true
    pub is_fine : fine calls

  module _ (fine : (ℕ → Call) → Type 0) (body : World → ℕ → Error × World)
      (poll : World → (timeout : ℕ) → World) where
    -- A turn of a coroutine is one of libco's calls after another, in a program whose calls are fine.
    abbrev pub TakesTurns : Type 0
    TakesTurns =
        (s : Program) (p : ℕ)
        → Reach is_cond s
        → current s.world ≡ some p
        → fine s.calls
        → ((body s.world p).0 ≡ ok)
          × ((body s.world p).1.active ≡ true)
          × (later : ℕ → Call) × Turn p s (body s.world p).1 later
          × fine later

    abbrev pub Polls : Type 0
    Polls = (s : Program) (timeout : ℕ) → Reach is_cond s → Polled s (poll s.world timeout)

    module _ (turns : TakesTurns) (polls : Polls) where
      pub timers-Between :
          (w : World) (calls : ℕ → Call) (now : ℕ)
          → Between fine w calls
          → Between fine (wake_timers w now) calls
      timers-Between w calls now b =
          let (c, a) = wake_timers-Outside w now in
          record {
            reached = step b.reached (time_passes now b.none_runs);
            none_runs = c ∙ b.none_runs;
            active = a ∙ b.active;
            is_fine = b.is_fine;
          }

      pub poll-Between :
          (w : World) (calls : ℕ → Call) (timeout : ℕ)
          → Between fine w calls
          → Between fine (poll w timeout) calls
      poll-Between w calls timeout b =
          let (r, c, a) =
            Polled-Reach (polls (record { world = w; calls = calls }) timeout b.reached) b.reached
              b.none_runs b.active in
          record { reached = r; none_runs = c; active = a; is_fine = b.is_fine }

      leave-outside :
          (w : World) (p : ℕ) → ((leave w p).sched.current ≡ none) × ((leave w p).active ≡ w.active)
      unfolding leave Coroutine.destroy
      leave-outside w p = (ground arith, ground arith)

      schedule_lem :
          (w : World) (p : ℕ) (rest : List ℕ)
          → w.sched.ready_queue ≡ p ∷ rest
          → let o = body (enter (dequeue w).1 p) p in schedule body w ≡ (o.0, leave o.1 p)
      unfolding schedule schedule_next dequeue
      schedule_lem w p rest e = rw e

      entered-current :
          (w : World) (p : ℕ) (rest : List ℕ)
          → w.sched.ready_queue ≡ p ∷ rest
          → w.active ≡ true
          → current (enter (dequeue w).1 p) ≡ some p
      unfolding current enter dequeue
      entered-current w p rest e a = rw (e, a) refl

      pub schedule-Between :
          (w : World) (calls : ℕ → Call) (p : ℕ) (rest : List ℕ)
          → Between fine w calls
          → w.sched.ready_queue ≡ p ∷ rest
          → ((schedule body w).0 ≡ ok) × (later : ℕ → Call) × Between fine (schedule body w).1 later
      schedule-Between w calls p rest b e =
          let s : Program = record { world = enter (dequeue w).1 p; calls = calls } in
          let r = step b.reached (enters p rest b.none_runs e) in
          let (done, a, later, turn, f) =
            turns s p r (entered-current w p rest e b.active) b.is_fine in
          let (c, same) = leave-outside (body s.world p).1 p in
          rw (schedule_lem w p rest e) (
            done,
            later,
            record { reached = Turn-Reach p turn r; none_runs = c; active = same ∙ a; is_fine = f },
          )
