-- ===== src/Coxx/Lifetime.antt =====
-- How long the state of a task lives, and what it keeps (libcoxx/src/scheduler.cpp).
use libco.Base.{ℕ, ◌≡◌, refl, ap, ◌∙◌, Bool, true, false, Option, none, some, arith}
use libco.Base.Tally.{occ}
use libco.Runtime.{World}
use libco.Coxx.Task.{
  Shared, Tasks, spawn, spawn_wrapped, make_state, finishes, trampoline, trampoline_locked, join,
  join_locked, join_woken, detach, waits,
}
use libco.Coxx.Owned.{
  Phase, runs, returned, over, IsOwned, release-handle, locked-IsOwned, trampoline-IsOwned, Joined,
  join_locked-Joined, guarded-Joined,
}

-- What happens to a task: the function of its coroutine returns, the coroutine gets the mutex at once
-- or later, its handle is joined or detached, and all else that leaves its state as it is.
pub data Step (t : ℕ) (s : Tasks)
    : (handle : Bool) → Phase → (handle' : Bool) → Phase → Tasks → Type 0 where
  ends :
      (handle : Bool) (thrown : Option ℕ) (wrapper : ℕ) (e : Option ℕ) (v : Tasks)
      → trampoline thrown t wrapper s ≡ finishes e v
      → Step t s handle runs handle (over thrown) v
  returns_first :
      (handle : Bool) (thrown : Option ℕ) (wrapper : ℕ) (v : Tasks)
      → trampoline thrown t wrapper s ≡ waits v
      → Step t s handle runs handle (returned thrown) v
  ends_later :
      (handle : Bool) (thrown e : Option ℕ) (v : Tasks)
      → trampoline_locked t s ≡ finishes e v
      → Step t s handle (returned thrown) handle (over thrown) v
  joins :
      (phase : Phase) (e : Option ℕ) (v : Tasks)
      → join (some t) s ≡ finishes e v
      → Step t s true phase false phase v
  joins_later :
      (phase : Phase) (e : Option ℕ) (v : Tasks)
      → join_locked t s ≡ finishes e v
      → Step t s true phase false phase v
  joins_woken :
      (phase : Phase) (e : Option ℕ) (v : Tasks)
      → join_woken t s ≡ finishes e v
      → Step t s true phase false phase v
  detaches : (phase : Phase) → Step t s true phase false phase (detach (some t) s)
  others :
      (handle : Bool) (phase : Phase) (v : Tasks)
      → v.shared t ≡ s.shared t
      → v.destroyed ≡ s.destroyed
      → Step t s handle phase handle phase v

-- From a spawn that gave a handle on.
pub data Reach (t before : ℕ) : (handle : Bool) → Phase → Tasks → Type 0 where
  spawned :
      (mutex cond : Option ℕ) (wrapper : ℕ) (answer : Option ℕ × World) (s v : Tasks)
      → occ t s.destroyed ≡ before
      → spawn mutex cond t wrapper answer s ≡ (some t, v)
      → Reach t before true runs v
  step :
      {handle handle' : Bool} {phase phase' : Phase} {s v : Tasks}
      → Reach t before handle phase s
      → Step t s handle phase handle' phase' v
      → Reach t before handle' phase' v

spawn_wrapped-IsOwned :
    (answer : Option ℕ × World) (t before wrapper : ℕ) (s v : Tasks)
    → (s.shared t).owners ≡ 2
    → (s.shared t).done ≡ false
    → (s.shared t).exception ≡ none
    → occ t s.destroyed ≡ before
    → spawn_wrapped answer t wrapper s ≡ (some t, v)
    → IsOwned t before true runs v
unfolding spawn_wrapped
spawn_wrapped-IsOwned (none, w) t before wrapper s v two d x old h = absurd (cc)
spawn_wrapped-IsOwned (some p, w) t before wrapper s v two d x old h =
    rw⁻¹ (ap (λ (r : Option ℕ × Tasks). r.1) h)
      (record { owners = two; destroyed = omega (arith, old); done = d; exception = x })

spawn-IsOwned :
    (mutex cond : Option ℕ) (answer : Option ℕ × World) (t before wrapper : ℕ) (s v : Tasks)
    → occ t s.destroyed ≡ before
    → spawn mutex cond t wrapper answer s ≡ (some t, v)
    → IsOwned t before true runs v
unfolding spawn make_state
spawn-IsOwned none none answer t before wrapper s v old h = absurd cc
spawn-IsOwned (some a) none answer t before wrapper s v old h = absurd cc
spawn-IsOwned none (some b) answer t before wrapper s v old h = absurd cc
spawn-IsOwned (some a) (some b) answer t before wrapper s v old h =
    spawn_wrapped-IsOwned answer t before wrapper _ v (ground arith) (ground arith) (ground arith)
      old h

Step-IsOwned :
    (t before : ℕ) (handle handle' : Bool) (phase phase' : Phase) (s v : Tasks)
    → IsOwned t before handle phase s
    → Step t s handle phase handle' phase' v
    → IsOwned t before handle' phase' v
unfolding detach trampoline join join_woken
Step-IsOwned t before _ _ _ _ s _ o (ends h x wrapper e v k) =
    (trampoline-IsOwned t before wrapper h x s v _ o).0 e k
Step-IsOwned t before _ _ _ _ s _ o (returns_first h x wrapper v k) =
    (trampoline-IsOwned t before wrapper h x s v _ o).1 k
Step-IsOwned t before _ _ _ _ s _ o (ends_later h x e v k) = locked-IsOwned t before h x s e v k o
Step-IsOwned t before _ _ _ _ s _ o (joins r e v k) =
    (guarded-Joined t before true r s e v _ k o).1 refl
Step-IsOwned t before _ _ _ _ s _ o (joins_later r e v k) =
    (join_locked-Joined t before true r s e v k o).1 refl
Step-IsOwned t before _ _ _ _ s _ o (joins_woken r e v k) =
    (guarded-Joined t before true r s e v _ k o).1 refl
Step-IsOwned t before _ _ _ _ s _ o (detaches r) = release-handle t before r s o
Step-IsOwned t before _ _ _ _ s _ o (others h r v same kept) = record {
  owners = ap (λ (x : Shared). x.owners) same ∙ o.owners;
  destroyed = rw kept o.destroyed;
  done = ap (λ (x : Shared). x.done) same ∙ o.done;
  exception = ap (λ (x : Shared). x.exception) same ∙ o.exception;
}

-- From a spawn on that gave a handle, in any order of what happens: the state of a task is destroyed
-- once, when its coroutine is over and its handle was joined or detached, and not before. It is done
-- exactly when the coroutine is over, and from its function's return on it keeps what that threw, if
-- anything. A join returns only when the coroutine is over, with what its function threw, whether it
-- returns at once, or from where it got the mutex, or from where it was resumed from its wait; and it
-- lets go of the state.
pub Reach-IsOwned :
    (t before : ℕ) (handle : Bool) (phase : Phase) (s : Tasks)
    → Reach t before handle phase s
    → IsOwned t before handle phase s
      × ((e : Option ℕ) (v : Tasks)
          → join (some t) s ≡ finishes e v
          → Joined t before handle phase e v)
      × ((e : Option ℕ) (v : Tasks)
          → join_locked t s ≡ finishes e v
          → Joined t before handle phase e v)
      × ((e : Option ℕ) (v : Tasks)
          → join_woken t s ≡ finishes e v
          → Joined t before handle phase e v)
unfolding join join_woken
Reach-IsOwned t before handle phase s r =
    let o = reached handle phase s r in
    (
      o,
      λ e v h. guarded-Joined t before handle phase s e v _ h o,
      λ e v h. join_locked-Joined t before handle phase s e v h o,
      λ e v h. guarded-Joined t before handle phase s e v _ h o,
    )
  where
    reached : (h : Bool) (k : Phase) (u : Tasks) → Reach t before h k u → IsOwned t before h k u
    reached _ _ _ (spawned mutex cond wrapper answer u v old h) =
        spawn-IsOwned mutex cond answer t before wrapper u v old h
    reached _ _ _ (step {handle = h} {handle' = h'} {phase = k} {phase' = k'} {s = u} {v = v} r q) =
        Step-IsOwned t before h h' k k' u v (reached h k u r) q
