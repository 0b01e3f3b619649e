-- ===== src/Coxx/Tests.antt =====
-- A wait group whose mutex is at 200 and whose condition variable is at 300. The running coroutine 50
-- waits for it; then 51 is done with the last piece of work.
use libco.Base.{ℕ, ◌≡◌, refl, true, false, Option, none, some, inl, [], ◌∷◌, arith}
use libco.Runtime.Samples.{sample, switch}
use libco.Coxx.{Group, finishes, spins, group, add, done, wait_group, wait_locked, wait_woken}
use libco.Coxx.Lost.{IsCalled, Reach, start, step, does, waits_first, others, Reach-IsCalled}
use libco.Coxx.Task
use libco.Coxx.Task.{
  Tasks, Shared, spawn, join_locked, join_woken, trampoline, trampoline_locked, detach, join,
}
use libco.Coxx.Lifetime
use libco.Coxx.Owned.{runs, over, IsOwned, Joined}
use libco.Coxx.Lifetime.{Reach-IsOwned}
use libco.Runtime.{World, world}
use libco.Channel.{send, close}
use libco.Channel.Ring.{buffered, slots}
use libco.Channel.Stream.{IsSound}
use libco.Coxx.Typed.{each, leaves}
use libco.Coxx.Drain.{close-each}

abbrev one : Group
one = record { count = 1; world = sample }

abbrev waiter : Group
waiter = group (wait_group 200 300 one)

abbrev called : Group
called = group (done 200 300 (record waiter { world = switch waiter.world 51 }))

called-Reach : Reach 200 300 called
called-Reach =
    step (step (step (start refl) waits_first) (others (switch waiter.world 51) refl)) does

Reach-IsCalled_example :
    IsCalled 200 300 called
    × ((v : Group) → wait_group 200 300 called ≡ finishes v → v.count ≡ 0)
    × ((v : Group) → wait_locked 200 300 called ≡ finishes v → v.count ≡ 0)
    × ((v : Group) → wait_woken 200 300 called ≡ finishes v → v.count ≡ 0)
Reach-IsCalled_example =
    Reach-IsCalled 200 300 (λ e. omega (arith, e)) (λ e. omega (arith, e)) called called-Reach

called_now :
    (waiter.world.queues 300 ≡ 50 ∷ [])
    × (called.world.queues 300 ≡ [])
    × (called.world.sched.ready_queue ≡ 50 ∷ [])
    × (called.count ≡ 0)
unfolding wait_group done
called_now = (refl, refl, refl, refl)

-- An addition of -1 leads to 0 and calls nobody.
abbrev negative : Group
negative = group (add 200 300 4294967295 (record waiter { world = switch waiter.world 51 }))

not_called : (negative.count ≡ 0) × (negative.world.queues 300 ≡ 50 ∷ [])
unfolding wait_group add
not_called = (refl, refl)

-- Outside of coroutines a wait for a counter that is not 0 spins.
abbrev outside : Group
outside = record { count = 1; world = record sample { active = false } }

outside_spins : (v : Group) × (wait_group 200 300 outside ≡ spins v)
unfolding wait_group
outside_spins = (_, refl)

-- A task with its state at 900.
abbrev none_yet : Tasks
none_yet = record {
  world = sample;
  shared = λ t. record { mutex = 0; cond = 0; done = false; exception = none; owners = 0 };
  destroyed = [];
  wrappers = [];
  objects = [];
}

abbrev spawned_task : Tasks
spawned_task = (spawn (some 200) (some 300) 900 950 (some 51, sample) none_yet).1

abbrev tasks : Task.Stage → Tasks
tasks (Task.finishes e s) = s
tasks (Task.waits s) = s
tasks (Task.spins s) = s

-- The function of its coroutine throws, the coroutine ends, and then its handle is detached.
abbrev ended : Tasks
ended = tasks (trampoline (some 7) 900 950 spawned_task)

spawned-Reach : Lifetime.Reach 900 0 true runs spawned_task
unfolding spawn
spawned-Reach =
    Lifetime.spawned (some 200) (some 300) 950 (some 51, sample) none_yet spawned_task refl refl

ended-Reach : Lifetime.Reach 900 0 true (over (some 7)) ended
unfolding trampoline spawn
ended-Reach = Lifetime.step spawned-Reach (Lifetime.ends true (some 7) 950 none ended refl)

Reach-IsOwned_example :
    IsOwned 900 0 true (over (some 7)) ended
    × ((e : Option ℕ) (v : Tasks)
        → join (some 900) ended ≡ Task.finishes e v
        → Joined 900 0 true (over (some 7)) e v)
    × ((e : Option ℕ) (v : Tasks)
        → join_locked 900 ended ≡ Task.finishes e v
        → Joined 900 0 true (over (some 7)) e v)
    × ((e : Option ℕ) (v : Tasks)
        → join_woken 900 ended ≡ Task.finishes e v
        → Joined 900 0 true (over (some 7)) e v)
Reach-IsOwned_example = Reach-IsOwned 900 0 true (over (some 7)) ended ended-Reach

-- The state is destroyed then, with its two objects.
gone : ((detach (some 900) ended).destroyed ≡ 900 ∷ []) × ((detach (some 900) ended).objects ≡ [])
unfolding detach trampoline spawn
gone = (refl, refl)

-- A channel of two slots at 400 is closed with the values 7 and 8 in it.
abbrev two_sent : World
two_sent = world (send (world (send sample 400 7)) 400 8)

two_sent-IsSound : IsSound two_sent 400
unfolding send
two_sent-IsSound = record {
  ring = record { bounded = omega arith; head_in = omega arith; tail_at = refl };
  apart = omega arith;
  full = inl refl;
  idle = inl refl;
}

close-each_example :
    (v : World) × (each 3 400 77 [] (close two_sent 400).1
      ≡ leaves (buffered (two_sent.channels 400)) v)
    × ((v.channels 400).count ≡ 0)
unfolding send
close-each_example =
    close-each 400 77 (omega arith) (omega arith) two_sent 3 two_sent-IsSound refl (omega arith)

the_values : buffered (two_sent.channels 400) ≡ 7 ∷ 8 ∷ []
unfolding send buffered slots
the_values = refl
