-- ===== src/Coxx/Task.antt =====
-- libcoxx/include/coxx/scheduler.hpp and libcoxx/src/scheduler.cpp: tasks. A task's handle and its
-- coroutine share a state, which is counted by `std::shared_ptr`; a handle is the address of that state,
-- or none. The results of the calls of libco are not looked at, as in the code. That `new` throws is not
-- modelled.
use libco.Base.{
  ℕ, ◌+◌, ◌-◌, ◌==◌, Bool, true, false, Option, none, some, List, ◌∷◌, if◌then◌else◌, store, erase,
}
use libco.Runtime.{World, Outcome, returns, suspends}
use libco.Mutex.{lock, unlock}
use libco.Cond.{wait, wait_resume, broadcast}

-- `TaskSharedState`, with the count of its owners. An exception is a number.
pub record Shared : Type 0 where
  pub mutex : ℕ
  pub cond : ℕ
  pub done : Bool
  pub exception : Option ℕ
  pub owners : ℕ

-- The runtime, the shared states by their addresses, those that are destroyed, the wrappers of the
-- callables, and the mutexes and condition variables that the states have.
pub record Tasks : Type 0 where
  pub world : World
  pub shared : ℕ → Shared
  pub destroyed : List ℕ
  pub wrappers : List ℕ
  pub objects : List ℕ

-- The constructor of `TaskSharedState`, with what the two creations give: none where it throws.
unfoldable pub make_state : (mutex cond : Option ℕ) → List ℕ → Option Shared × List ℕ
make_state none none xs = (none, xs)
make_state (some a) none xs = (none, erase a (a ∷ xs))
make_state none (some b) xs = (none, erase b (b ∷ xs))
make_state (some a) (some b) xs =
    (some (record { mutex = a; cond = b; done = false; exception = none; owners = 1 }), b ∷ a ∷ xs)

abbrev pub set_shared : Tasks → ℕ → Shared → Tasks
set_shared s t x = record s { shared = store s.shared t x }

-- An owner lets go; the last one destroys the state, with its mutex and its condition variable.
unfoldable pub release : Tasks → (t : ℕ) → Tasks
release s t =
    let x = s.shared t in
    let s1 = set_shared s t (record x { owners = x.owners - 1 }) in
    if x.owners == 1
    then record s1 { destroyed = t ∷ s.destroyed; objects = erase x.cond (erase x.mutex s.objects) }
    else s1

-- The copy of the pointer for the wrapper.
abbrev pub share : Tasks → ℕ → Tasks
share s t = set_shared s t (record (s.shared t) { owners = (s.shared t).owners + 1 })

-- The answer of `co_spawn`: without a coroutine, the wrapper is deleted, and both owners let go.
unfoldable pub spawn_wrapped : Option ℕ × World → (t wrapper : ℕ) → Tasks → Option ℕ × Tasks
unfolding release
spawn_wrapped (none, w) t wrapper s =
    let s1 = release (record s { world = w; wrappers = erase wrapper s.wrappers }) t in
    (none, release s1 t)
spawn_wrapped (some p, w) t wrapper s = (some t, record s { world = w })

-- `Scheduler::spawn`: the handle, or none where it throws. `spawned` is what `co_spawn` answers.
unfoldable pub spawn :
    (mutex cond : Option ℕ)
    → (t wrapper : ℕ) → (spawned : Option ℕ × World) → Tasks
    → Option ℕ × Tasks
unfolding make_state spawn_wrapped
spawn mutex cond t wrapper spawned s =
    let (made, objects) = make_state mutex cond s.objects in
    elim made [
      | none ↦ (none, record s { objects = objects })
      | some x ↦
          let s1 =
            set_shared (record s { objects = objects; wrappers = wrapper ∷ s.wrappers }) t x in
          spawn_wrapped spawned t wrapper (share s1 t)
    ]

-- The end of a stage: the call returns, perhaps with an exception, or it waits in a switch to the
-- scheduler, or its loop spins.
pub data Stage : Type 0 where
  finishes : (exception : Option ℕ) → Tasks → Stage
  waits : Tasks → Stage
  spins : Tasks → Stage

unfoldable pub guarded : Outcome → Tasks → (Tasks → Stage) → Stage
guarded (returns e w) s part = part (record s { world = w })
guarded (suspends w) s part = waits (record s { world = w })

-- The end of the trampoline, with the mutex held.
unfoldable pub trampoline_locked : (t : ℕ) → Tasks → Stage
unfolding broadcast unlock release
trampoline_locked t s =
    let s1 = set_shared s t (record (s.shared t) { done = true }) in
    let w = (unlock (broadcast s.world (s.shared t).cond).1 (s.shared t).mutex).1 in
    finishes none (release (record s1 { world = w }) t)

-- The exception that the user's function threw, if it did, is kept.
unfoldable pub caught : (thrown : Option ℕ) → (t : ℕ) → Tasks → Tasks
caught none t s = s
caught (some e) t s = set_shared s t (record (s.shared t) { exception = some e })

-- `detail::trampoline` from the return of the user's function on, which may have thrown. The pointer
-- was moved out of the wrapper, which is deleted.
unfoldable pub trampoline : (thrown : Option ℕ) → (t wrapper : ℕ) → Tasks → Stage
unfolding guarded lock trampoline_locked caught
trampoline thrown t wrapper s =
    let s1 = caught thrown t s in
    let s2 = record s1 { wrappers = erase wrapper s1.wrappers } in
    guarded (lock s2.world (s2.shared t).mutex) s2 (trampoline_locked t)

unfoldable pub waiting : Outcome → Tasks → Stage
waiting (returns e w) s = spins (record s { world = w })
waiting (suspends w) s = waits (record s { world = w })

-- The loop of `Task::join` and what comes after it, with the mutex held.
unfoldable pub join_locked : (t : ℕ) → Tasks → Stage
unfolding wait unlock release waiting
join_locked t s =
    if (s.shared t).done
    then finishes (s.shared t).exception
        (release (record s { world = (unlock s.world (s.shared t).mutex).1 }) t)
    else waiting (wait s.world (s.shared t).cond (s.shared t).mutex) s

-- What `join` throws on a handle without a state.
abbrev pub logic_error : ℕ
logic_error = 0

-- `Task::join`.
unfoldable pub join : (handle : Option ℕ) → Tasks → Stage
unfolding guarded lock join_locked
join none s = finishes (some logic_error) s
join (some t) s = guarded (lock s.world (s.shared t).mutex) s (join_locked t)

-- And from the switch of `co_cond_wait` on.
unfoldable pub join_woken : (t : ℕ) → Tasks → Stage
unfolding guarded wait_resume join_locked
join_woken t s = guarded (wait_resume s.world (s.shared t).mutex) s (join_locked t)

-- `Task::detach`, and the destructor of `Task`.
unfoldable pub detach : (handle : Option ℕ) → Tasks → Tasks
unfolding release
detach none s = s
detach (some t) s = release s t
