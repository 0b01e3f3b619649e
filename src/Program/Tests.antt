-- ===== src/Program/Tests.antt =====
-- Two coroutines, 50 and 51. The first waits at 300 for 5 ms, with the mutex at 200; the second sleeps
-- for 10 ms. Nobody signals, and at 1005 ms the first times out.
use libco.Base.{
  length, length-append, subst, ap, ◌*◌, ◌+◌, ◌<◌, inc, ℕ, has, store, if◌then◌else◌, Bool-cases,
  inl, inr, ◌⊎◌, ◌≡◌, ◌==◌, ◌||◌, Bool, refl, true, false, none, some, [], ◌∷◌, arith,
}
use libco.Runtime.{set_sched, World, Error, wakeups, ready, dead, ok, current}
use libco.Runtime.Samples.{sample, scheduler, routine}
use libco.Timer.Push.{IsValid}
use libco.Scheduler.{
  enter, wake_timers, run, is_waiting, schedule, schedule_next, Round, continues, breaks, leave,
  is_dead,
}
use libco.Scheduler.Ready.{dequeue, enqueue}
use libco.Program.{
  Program, Spawned, user, after, Reach, start, step, enters, does, time_passes, locks, timed_waits,
  timed_waits_on, sleeps, waits, finishes, yields, Call, perform, switched,
}
use libco.Program.Fits.{is_io}
use libco.Program.Reachable.{IsOrderly}
use libco.Program.Tracked.{IsTracked, lines_of, Reach-IsTracked}
use libco.Program.Rest.{Reach-rest}
use libco.Program.Turns.{TakesTurns, last, no_event}
use libco.Program.Lasting.{Lessens}
use libco.Scheduler.Ends.{IsQuiet, Works, RoundResult, over, goes_on, round-RoundResult}
use libco.Program.Run.{Rested, run-Rested}
use libco.Coroutine
use libco.Coroutine.{finish}

abbrev conds : ℕ → Bool
conds q = q == 300

abbrev pair : Program
pair = record {
  world = record sample {
    routines = λ p. record routine { state = if p == 50 || p == 51 then ready else dead };
    sched = record scheduler { ready_queue = 50 ∷ 51 ∷ []; current = none };
  };
  calls = λ _. user;
}

pair-IsValid : IsValid (wakeups pair.world) pair.world.sched.timer_heap
pair-IsValid = record {
  ordered = λ c p q. absurd (omega (arith, p, q));
  bounded = omega arith;
  nonempty = omega arith;
  fits = omega arith;
}

pair_ready : (p : ℕ) → has p (50 ∷ 51 ∷ []) ≡ true → (pair.world.routines p).state ≡ ready
pair_ready p i = ground (arith, i)

pair_in : (p : ℕ) → (pair.world.routines p).state ≡ ready → has p (50 ∷ 51 ∷ []) ≡ true
pair_in p s = ground (arith, s)

pair_awake : (p : ℕ) → is_waiting (pair.world.routines p).state ≡ false
pair_awake p = ground arith

pair-Spawned : Spawned pair.world
pair-Spawned = record {
  distinct = ground arith;
  all_ready = λ p i. pair_ready p i;
  all_in = λ p s. pair_in p s;
  none_waits = λ p. pair_awake p;
  no_record = λ p. refl;
  no_lines = λ q. refl;
  no_timers = refl;
  valid = pair-IsValid;
  none_runs = refl;
}

abbrev first_in : Program
first_in = record pair { world = enter (dequeue pair.world).1 50 }

abbrev locked : Program
locked = after first_in 50 (locks 200)

abbrev waits_5 : Program
waits_5 = after locked 50 (timed_waits (λ _. true) 1000 300 200 5)

abbrev second_in : Program
second_in = record waits_5 { world = enter (dequeue waits_5.world).1 51 }

abbrev asleep : Program
asleep = after second_in 51 (sleeps (λ _. true) 1000 10)

abbrev late : Program
late = record asleep { world = wake_timers asleep.world 1005 }

abbrev first_again : Program
first_again = record late { world = enter (dequeue late.world).1 50 }

abbrev relocked : Program
relocked = after first_again 50 (timed_waits_on 200)

seen :
    (asleep.world.sched.ready_queue ≡ [])
    × (asleep.world.queues 300 ≡ 50 ∷ [])
    × (asleep.world.sched.timer_heap.count ≡ 2)
    × (late.world.sched.ready_queue ≡ 50 ∷ [])
    × (late.world.queues 300 ≡ [])
    × ((relocked.world.routines 50).timed_out ≡ true)
    × (relocked.world.sched.timer_heap.count ≡ 1)
unfolding enter dequeue perform switched wake_timers
seen = (refl, refl, refl, refl, refl, refl, refl)

history : Reach conds relocked
unfolding enter dequeue perform switched wake_timers current
history =
    step
      (step
        (step
          (step
            (step
              (step
                (step (step (start pair-Spawned) (enters 50 (51 ∷ []) refl refl))
                  (does 50 (locks 200) refl (refl, refl)))
                (does 50 (timed_waits (λ _. true) 1000 300 200 5) refl
                  (refl, refl, refl, omega arith)))
              (enters 51 [] refl refl))
            (does 51 (sleeps (λ _. true) 1000 10) refl (refl, omega arith)))
          (time_passes 1005 refl))
        (enters 50 [] refl refl))
      (does 50 (timed_waits_on 200) refl (refl, refl))

Reach-IsTracked_example :
    IsOrderly conds relocked × IsTracked relocked.world (lines_of conds history)
Reach-IsTracked_example = Reach-IsTracked conds relocked history

-- The second ends, and the first waits with no limit.
abbrev waits_for_ever : Program
waits_for_ever = after locked 50 (waits 300 200)

abbrev alone : Program
alone =
    after (record waits_for_ever { world = enter (dequeue waits_for_ever.world).1 51 }) 51
      (finishes 0)

alone-Reach : Reach conds alone
unfolding enter dequeue perform switched current
alone-Reach =
    step
      (step
        (step
          (step (step (start pair-Spawned) (enters 50 (51 ∷ []) refl refl))
            (does 50 (locks 200) refl (refl, refl)))
          (does 50 (waits 300 200) refl (refl, refl, refl)))
        (enters 51 [] refl refl))
      (does 51 (finishes 0) refl refl)

alone-found :
    ((q : ℕ) × (has 50 (alone.world.queues q) ≡ true) × (lines_of conds alone-Reach 50 ≡ some q))
    ⊎ (is_io (alone.calls 50) ≡ true)
unfolding enter dequeue perform switched
alone-found = Reach-rest conds alone 50 alone-Reach refl refl refl

-- A run whose first turn yields, and whose other turns end the coroutine.
abbrev body : World → ℕ → Error × World
body w p = if w.sched.switch_count == 1 then (ok, enqueue w p) else (ok, finish w p 0)

abbrev none_out : World → ℕ → World
none_out w timeout = w

abbrev AllUser : (ℕ → Call) → Type 0
AllUser calls = (p : ℕ) → calls p ≡ user

active_now : (w : World) (p : ℕ) → current w ≡ some p → w.active ≡ true
unfolding current
active_now w p c = elim (Bool-cases w.active) [
  | inl on ↦ on
  | inr off ↦ let no_way = rw off at c in absurd (cc no_way)
]

body-TakesTurns : TakesTurns conds AllUser body none_out
unfolding perform current
body-TakesTurns s p r c f = elim (Bool-cases (s.world.sched.switch_count == 1)) [
  | inl early ↦ rw early (
    refl,
    active_now s.world p c,
    store s.calls p user,
    last yields c (f p) (rw c refl),
    λ q. ground (arith, f q),
  )
  | inr late_on ↦ rw late_on (
    refl,
    active_now s.world p c,
    store s.calls p user,
    last (finishes 0) c (f p) refl,
    λ q. ground (arith, f q),
  )
]

abbrev idle_one : World
idle_one = record pair.world { sched = record pair.world.sched { running = false }; active = false }

idle_one-Spawned : Spawned idle_one
idle_one-Spawned = record {
  distinct = ground arith;
  all_ready = λ p i. pair_ready p i;
  all_in = λ p s. pair_in p s;
  none_waits = λ p. pair_awake p;
  no_record = λ p. refl;
  no_lines = λ q. refl;
  no_timers = refl;
  valid = pair-IsValid;
  none_runs = refl;
}

-- Two for each that is ready, and one while the next turn is the one that yields.
abbrev work_left : World → ℕ
work_left w = 2 * length w.sched.ready_queue + (if inc w.sched.switch_count == 1 then 1 else 0)

leave-work_left :
    (w : World) (p : ℕ) → IsQuiet w → IsQuiet (leave w p) × (work_left (leave w p) ≡ work_left w)
unfolding leave Coroutine.destroy
leave-work_left w p q = elim (Bool-cases (is_dead (w.routines p).state)) [
  | inr alive ↦ rw alive (record { timers = q.timers; outstanding = q.outstanding }, refl)
  | inl d ↦ rw d (elim (Bool-cases (p == 0)) [
    | inl z ↦ rw z (record { timers = q.timers; outstanding = q.outstanding }, refl)
    | inr n ↦ rw n (record { timers = q.timers; outstanding = q.outstanding }, refl)
  ])
]

body-Works : Works body none_out work_left
unfolding schedule schedule_next dequeue enter enqueue finish
body-Works w p rest q e t =
    let on = enter (set_sched w (record w.sched { ready_queue = rest })) p in
    elim (Bool-cases (inc w.sched.switch_count == 1)) [
      | inl first ↦
          let (quiet, same) =
            leave-work_left (enqueue on p) p
              (record { timers = q.timers; outstanding = q.outstanding }) in
          let one : inc w.sched.switch_count ≡ 1 = ground (arith, first) in
          rw (e, first) (quiet, rw same (rw one (omega (arith, length-append rest (p ∷ [])))))
      | inr late_on ↦
          let (quiet, same) =
            leave-work_left (finish on p 0) p
              (record { timers = q.timers; outstanding = q.outstanding }) in
          rw (e, late_on)
            (
              quiet,
              rw same (elim (Bool-cases (inc (inc w.sched.switch_count) == 1)) [
                | inl again ↦ rw again (omega arith)
                | inr not_yet ↦ rw not_yet (omega arith)
              ]),
            )
    ]

abbrev QuietAt : (ℕ → ℕ) → World → Type 0
QuietAt clock w = IsQuiet w

in_round : Round → World
in_round (continues w) = w
in_round (breaks e w) = w

went_on :
    (w : World) {r : Round} (v : World)
    → RoundResult body none_out work_left w r
    → r ≡ continues v
    → IsQuiet v × (work_left v < work_left w)
unfolding in_round
went_on w v (over d) i = absurd (cc i)
went_on w v (goes_on q less) i =
    subst (λ u. IsQuiet u × (work_left u < work_left w)) (ap in_round i) (q, less)

body-Lessens : Lessens body none_out QuietAt (λ clock. work_left)
body-Lessens clock w v q i =
    went_on w v (round-RoundResult body none_out work_left body-Works w (clock 0) q) i

run-Rested_example :
    (e : Error) × (v : World) × (run body none_out 6 (λ _. 0) true idle_one ≡ some (e, v))
    × Rested conds AllUser body none_out e v
run-Rested_example =
    run-Rested conds AllUser body none_out QuietAt (λ clock. work_left) idle_one 6 (λ _. 0)
      idle_one-Spawned refl (λ p. refl) body-TakesTurns (λ s timeout r. no_event) body-Lessens
      (record { timers = refl; outstanding = refl }) (omega arith)
