-- ===== src/Program/Run.antt =====
-- A run of the scheduler, of libco/src/co_scheduler.c, is a sequence of steps of the program.
use libco.Base.{
  ℕ, zero, suc, ◌<◌, ◌≡◌, ◌≢◌, ◌⊎◌, refl, ap, subst, sym, ◌∙◌, Bool, true, false, Option, some,
  List, [], ◌∷◌, arith, ◌==◌, ◌||◌, ◌&&◌, not, ltb, if◌then◌else◌, inl, inr, Bool-cases, has,
  if_true, if_false, eq_of_some,
}
use libco.Timer
use libco.Runtime.{World, Error, ok, ready}
use libco.Scheduler.{
  is_waiting, wake_timers, schedule, scheduled, idle, io_timeout, is_empty, Round, continues,
  breaks, round, run_loop, run, activate,
}
use libco.Scheduler.Ends.{started}
use libco.Program.{Program, Spawned, Call, user, Reach, start}
use libco.Program.Fits.{is_io}
use libco.Program.Rest.{Reach-rest, Reach-no_ready}
use libco.Program.Tracked.{lines_of}
use libco.Program.Lasting.{Lessens, run_loop-lasts}
use libco.Program.Turns.{TakesTurns, Polls, Between, timers-Between, poll-Between, schedule-Between}

module _ (is_cond : ℕ → Bool) where
  empty-nil : (xs : List ℕ) → is_empty xs ≡ true → xs ≡ []
  empty-nil [] e = refl
  empty-nil (x ∷ xs) e = absurd (cc e)

  module _ (fine : (ℕ → Call) → Type 0) (body : World → ℕ → Error × World)
      (poll : World → (timeout : ℕ) → World) where
    abbrev pub Somewhen : World → Type 0
    Somewhen w = (calls : ℕ → Call) × Between is_cond fine w calls

    module _ (turns : TakesTurns is_cond fine body poll)
        (polls : Polls is_cond fine body poll) where
      -- How a round ends: between two turns, and the loop only with nobody ready and no timer.
      data Goes : Round → Type 0 where
        goes_on : {v : World} → Somewhen v → Goes (continues v)
        is_over :
            {v : World}
            → Somewhen v
            → v.sched.ready_queue ≡ []
            → v.sched.timer_heap.count ≡ 0
            → Goes (breaks ok v)

      polled-Goes :
          (v : World)
          → Somewhen v
          → Goes (
              if is_empty v.sched.ready_queue && Timer.empty v.sched.timer_heap
              then breaks ok v
              else continues v)
      unfolding Timer.empty
      polled-Goes v b = elim (Bool-cases (is_empty v.sched.ready_queue)) [
        | inr some_ready ↦ rw some_ready (goes_on b)
        | inl none_ready ↦ rw none_ready (elim (Bool-cases (v.sched.timer_heap.count == 0)) [
          | inr some_timer ↦ rw some_timer (goes_on b)
          | inl no_timer ↦
              rw no_timer (is_over b (empty-nil v.sched.ready_queue none_ready) (ground arith))
        ])
      ]

      idle-Goes : (w : World) (now : ℕ) → Somewhen w → Goes (idle body poll w now)
      unfolding idle
      idle-Goes w now (calls, b) =
          elim (Bool-cases
            (ltb 0 w.sched.waiting_io_count || not (Timer.empty w.sched.timer_heap))) [
              | inl polls_now ↦ rw polls_now (
                  polled-Goes (poll w (io_timeout w now)) (
                    calls,
                    poll-Between is_cond fine body poll turns polls w calls (io_timeout w now) b,
                  ))
              | inr none_out ↦ rw none_out (polled-Goes w (calls, b))
            ]

      scheduled-Goes : (o : Error × World) → o.0 ≡ ok → Somewhen o.1 → Goes (scheduled body poll o)
      unfolding scheduled
      scheduled-Goes (ok, v) e b = goes_on b
      scheduled-Goes (e', v) e b = absurd (cc e)

      round-Goes : (w : World) (now : ℕ) → Somewhen w → Goes (round body poll w now)
      unfolding round
      round-Goes w now (calls, b) = go (wake_timers w now).sched.ready_queue refl
        where
          b1 : Between is_cond fine (wake_timers w now) calls
          b1 = timers-Between is_cond fine body poll turns polls w calls now b

          go :
              (line : List ℕ)
              → (wake_timers w now).sched.ready_queue ≡ line
              → Goes (round body poll w now)
          go [] e = rw (ap is_empty e) (idle-Goes (wake_timers w now) now (calls, b1))
          go (p ∷ rest) e =
              let (done, later, b2) =
                schedule-Between is_cond fine body poll turns polls (wake_timers w now) calls p rest
                  b1 e in
              rw (ap is_empty e)
                (scheduled-Goes (schedule body (wake_timers w now)) done (later, b2))

      -- The loop ended well: on request, or with nobody ready and no timer.
      pub record Ending (e : Error) (v : World) : Type 0 where
        pub well : e ≡ ok
        pub somewhen : Somewhen v
        pub why :
            (v.sched.should_stop ≡ true)
            ⊎ ((v.sched.ready_queue ≡ []) × (v.sched.timer_heap.count ≡ 0))

      over :
          (u : World) {e : Error} {v : World}
          → Somewhen u
          → (u.sched.should_stop ≡ true)
            ⊎ ((u.sched.ready_queue ≡ []) × (u.sched.timer_heap.count ≡ 0))
          → ◌≡◌ {A = Option (Error × World)} (some (ok, u)) (some (e, v))
          → Ending e v
      over u b why h =
          subst (λ (o : Error × World). Ending o.0 o.1) (eq_of_some h)
            (record { well = refl; somewhen = b; why = why })

      run_loop-Ending :
          (fuel : ℕ) (clock : ℕ → ℕ) (w : World) {e : Error} {v : World}
          → Somewhen w
          → run_loop body poll fuel clock w ≡ some (e, v)
          → Ending e v
      unfolding run_loop
      run_loop-Ending zero clock w b e = absurd (cc e)
      run_loop-Ending (suc k) clock w {e} {v} b h = elim (Bool-cases w.sched.should_stop) [
        | inl stop ↦ over w b (inl stop) (sym (if_true w.sched.should_stop _ _ stop) ∙ h)
        | inr on ↦
            go (λ u b1 i. run_loop-Ending k (λ j. clock (suc j)) u b1 i)
              (round body poll w (clock 0)) (round-Goes w (clock 0) b)
              (sym (if_false w.sched.should_stop _ _ on) ∙ h)
      ]
        where
          go :
              ((u : World)
                → Somewhen u
                → run_loop body poll k (λ i. clock (suc i)) u ≡ some (e, v)
                → Ending e v)
              → (r : Round) → Goes r
              → (elim r [
                | continues u ↦ run_loop body poll k (λ i. clock (suc i)) u
                | breaks f u ↦ some (f, u)
              ])
                ≡ some (e, v)
              → Ending e v
          go next (continues u) (goes_on b1) i = next u b1 i
          go next (breaks f u) (is_over b1 r t) i = over u b1 (inr (r, t)) i

    -- Whether a coroutine waits in the line that its last call asked for, or for I/O.
    abbrev pub IsFound : {t : Program} → Reach is_cond t → ℕ → Type 0
    IsFound {t} r p =
        ((q : ℕ) × (has p (t.world.queues q) ≡ true) × (lines_of is_cond r p ≡ some q))
        ⊎ (is_io (t.calls p) ≡ true)

    started-Spawned : (w : World) → Spawned w → Spawned (started w)
    started-Spawned w s = record {
      distinct = s.distinct;
      all_ready = s.all_ready;
      all_in = s.all_in;
      none_waits = s.none_waits;
      no_record = s.no_record;
      no_lines = s.no_lines;
      no_timers = s.no_timers;
      valid = s.valid;
      none_runs = s.none_runs;
    }

    -- What a run that ended has done.
    pub record Rested (e : Error) (v : World) : Type 0 where
      pub well : e ≡ ok
      pub calls : ℕ → Call
      pub last : World
      pub reached : Reach is_cond (record { world = last; calls = calls })
      pub left : v ≡ activate body poll false last
      pub found :
          (v.sched.should_stop ≡ true)
          ⊎ ((v.sched.ready_queue ≡ [])
              × (v.sched.timer_heap.count ≡ 0)
              × ((p : ℕ) → (v.routines p).state ≢ ready)
              × ((p : ℕ) → is_waiting (v.routines p).state ≡ true → IsFound reached p))

    ended-Rested :
        (turns : TakesTurns is_cond fine body poll) (polls : Polls is_cond fine body poll)
        (e : Error) (u : World)
        → Ending turns polls e u
        → Rested e (activate body poll false u)
    ended-Rested turns polls e u end =
        let (calls, b) = end.somewhen in
        record {
          well = end.well;
          calls = calls;
          last = u;
          reached = b.reached;
          left = refl;
          found = elim end.why [
            | inl stop ↦ inl stop
            | inr (r, t) ↦ inr (
              r,
              t,
              (λ p.
                  Reach-no_ready is_cond (record { world = u; calls = calls }) p b.reached r
                    b.none_runs),
              (λ p w. Reach-rest is_cond (record { world = u; calls = calls }) p b.reached r t w),
            )
          ];
        }

    -- Spawn some coroutines in a scheduler that is not running, and run it. Let each turn of a coroutine
    -- be calls of libco, the last of which suspends it, and each poll the events of waits for I/O that
    -- still go on; and let each round after which the loop goes on leave less work, in worlds that
    -- `Going` holds of. With fuel above the work at the start, the run ends and returns OK, and what it
    -- leaves is reached by steps of the program, with the scheduler no longer running. Unless it was
    -- asked to stop, nobody is in the ready queue, no timer is left, no coroutine is READY, and each
    -- that still waits is in the line that the last call which suspended it is about, or waits for I/O.
    pub run-Rested :
        (Going : (ℕ → ℕ) → World → Type 0) (work : (ℕ → ℕ) → World → ℕ) (w : World) (fuel : ℕ)
        (clock : ℕ → ℕ)
        → Spawned w
        → w.sched.running ≡ false
        → fine (λ _. user)
        → TakesTurns is_cond fine body poll
        → Polls is_cond fine body poll
        → Lessens body poll Going work
        → Going clock (started w)
        → work clock (started w) < fuel
        → (e : Error) × (v : World) × (run body poll fuel clock true w ≡ some (e, v)) × Rested e v
    unfolding run
    run-Rested Going work w fuel clock s n f turns polls less going enough =
        let ((e, u), r) =
          run_loop-lasts body poll Going work less fuel clock (started w) going enough in
        let begins : Somewhen (started w) = (
          λ _. user,
          record {
            reached = start (started-Spawned w s);
            none_runs = s.none_runs;
            active = refl;
            is_fine = f;
          },
        ) in
        (
          e,
          activate body poll false u,
          rw (n, r) refl,
          ended-Rested turns polls e u
              (run_loop-Ending turns polls fuel clock (started w) begins r),
        )
