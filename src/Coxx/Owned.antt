-- ===== src/Coxx/Owned.antt =====
-- What the ends of a task's coroutine and of a join make of its state (libcoxx/src/scheduler.cpp).
use libco.Base.{
  ℕ, ◌+◌, ◌≡◌, ◌≢◌, sym, ap, ◌∙◌, ◌||◌, not, subst, erase, Bool, true, false, Option, none, some,
  arith, if◌then◌else◌, inl, inr, Bool-cases, if_true, if_false, ◌==◌,
}
use libco.Base.Tally.{occ}
use libco.Runtime.{World, Outcome, returns, suspends}
use libco.Mutex.{unlock}
use libco.Cond.{broadcast}
use libco.Coxx.Release.{release-owners, release-destroyed}
use libco.Coxx.Task.{
  Tasks, set_shared, release, finishes, trampoline_locked, caught, guarded, join_locked, waiting,
  waits,
}

-- How far the coroutine of a task is: its function runs, or has returned and the coroutine waits for the
-- mutex, or it is over. What the function threw is kept.
pub data Phase : Type 0 where
  runs : Phase
  returned : (thrown : Option ℕ) → Phase
  over : (thrown : Option ℕ) → Phase

abbrev pub is_over : Phase → Bool
is_over runs = false
is_over (returned thrown) = false
is_over (over thrown) = true

abbrev pub thrown_in : Phase → Option ℕ
thrown_in runs = none
thrown_in (returned thrown) = thrown
thrown_in (over thrown) = thrown

-- The owners of the state at `t`: the handle, while there is one, and the coroutine, until its end. The
-- state was destroyed `before` times when it was made, for its address may be reused.
pub record IsOwned (t before : ℕ) (handle : Bool) (phase : Phase) (s : Tasks) : Type 0 where
  pub owners : (s.shared t).owners ≡ (if handle then 1 else 0) + (if is_over phase then 0 else 1)
  pub destroyed : occ t s.destroyed ≡ before + (if handle || not (is_over phase) then 0 else 1)
  pub done : (s.shared t).done ≡ is_over phase
  pub exception : (s.shared t).exception ≡ thrown_in phase

release-kept :
    (s : Tasks) (t : ℕ)
    → (((release s t).shared t).done ≡ (s.shared t).done)
      × (((release s t).shared t).exception ≡ (s.shared t).exception)
unfolding release
release-kept s t = elim (Bool-cases ((s.shared t).owners == 1)) [
  | inl last ↦ rw last (ground arith, ground arith)
  | inr more ↦ rw more (ground arith, ground arith)
]

pub release-handle :
    (t before : ℕ) (phase : Phase) (s : Tasks)
    → IsOwned t before true phase s
    → IsOwned t before false phase (release s t)
release-handle t before phase s o = record {
  owners = ground (arith, release-owners s t, o.owners);
  destroyed = ground (arith, release-destroyed s t, o.owners, o.destroyed);
  done = (release-kept s t).0 ∙ o.done;
  exception = (release-kept s t).1 ∙ o.exception;
}

finishes-same : (e f : Option ℕ) (a b : Tasks) → finishes e a ≡ finishes f b → a ≡ b
finishes-same e f a b h = cc

finishes-exception : (e f : Option ℕ) (a b : Tasks) → finishes e a ≡ finishes f b → e ≡ f
finishes-exception e f a b h = cc

waits-same : (a b : Tasks) → waits a ≡ waits b → a ≡ b
waits-same a b h = cc

never_waits : (t : ℕ) (s v : Tasks) → trampoline_locked t s ≢ waits v
unfolding trampoline_locked
never_waits t s v h = absurd cc

-- The coroutine gets the mutex, says that the task is done, and lets go.
pub locked-IsOwned :
    (t before : ℕ) (handle : Bool) (thrown : Option ℕ) (s : Tasks) (e : Option ℕ) (v : Tasks)
    → trampoline_locked t s ≡ finishes e v
    → IsOwned t before handle (returned thrown) s
    → IsOwned t before handle (over thrown) v
unfolding trampoline_locked
locked-IsOwned t before handle thrown s e v h o = rw⁻¹ (finishes-same _ e _ v h) (
    let s1 : Tasks = record (set_shared s t (record (s.shared t) { done = true })) {
      world = (unlock (broadcast s.world (s.shared t).cond).1 (s.shared t).mutex).1;
    } in
    let two : (s1.shared t).owners ≡ (if handle then 1 else 0) + 1 = ground (arith, o.owners) in
    record {
      owners = ground (arith, release-owners s1 t, two);
      destroyed = ground (arith, release-destroyed s1 t, two, o.destroyed);
      done = (release-kept s1 t).0 ∙ ground arith;
      exception = (release-kept s1 t).1 ∙ ground (arith, o.exception);
    })

-- What the function threw is kept.
caught-IsOwned :
    (t before wrapper : ℕ) (handle : Bool) (thrown : Option ℕ) (s : Tasks) (w : World)
    → IsOwned t before handle runs s
    → let u = caught thrown t s in
      IsOwned t before handle
        (returned thrown)
        (record u { world = w; wrappers = erase wrapper u.wrappers })
unfolding caught
caught-IsOwned t before wrapper handle none s w o = record {
  owners = o.owners;
  destroyed = o.destroyed;
  done = o.done;
  exception = o.exception;
}
caught-IsOwned t before wrapper handle (some x) s w o = record {
  owners = ground (arith, o.owners);
  destroyed = o.destroyed;
  done = ground (arith, o.done);
  exception = ground arith;
}

-- From the return of the function on, with the answer to the lock.
pub trampoline-IsOwned :
    (t before wrapper : ℕ) (handle : Bool) (thrown : Option ℕ) (s v : Tasks) (o : Outcome)
    → IsOwned t before handle runs s
    → let u = caught thrown t s in
      let s2 = record u { wrappers = erase wrapper u.wrappers } in
      ((e : Option ℕ)
        → guarded o s2 (trampoline_locked t) ≡ finishes e v
        → IsOwned t before handle (over thrown) v)
      × (guarded o s2 (trampoline_locked t) ≡ waits v → IsOwned t before handle (returned thrown) v)
unfolding guarded
trampoline-IsOwned t before wrapper handle thrown s v (returns r w) o = (
  λ e h.
      locked-IsOwned t before handle thrown _ e v h
        (caught-IsOwned t before wrapper handle thrown s w o),
  λ h. absurd (never_waits t _ v h),
)
trampoline-IsOwned t before wrapper handle thrown s v (suspends w) o = (
  λ e h. absurd cc,
  λ h. rw⁻¹ (waits-same _ v h) (caught-IsOwned t before wrapper handle thrown s w o),
)

never : (o : Outcome) (s v : Tasks) (e : Option ℕ) → waiting o s ≢ finishes e v
unfolding waiting
never (returns r w) s v e h = absurd cc
never (suspends w) s v e h = absurd cc

-- A join ends only where the task is done, and then it lets go.
join_locked-done :
    (t : ℕ) (s : Tasks) (e : Option ℕ) (v : Tasks)
    → join_locked t s ≡ finishes e v
    → ((s.shared t).done ≡ true)
      × (e ≡ (s.shared t).exception)
      × (v ≡ release (record s { world = (unlock s.world (s.shared t).mutex).1 }) t)
unfolding join_locked
join_locked-done t s e v h = elim (Bool-cases (s.shared t).done) [
  | inl over_now ↦
      let k = sym (if_true (s.shared t).done _ _ over_now) ∙ h in
      (over_now, sym (finishes-exception _ e _ v k), sym (finishes-same _ e _ v k))
  | inr yet ↦ absurd (never _ s v e (sym (if_false (s.shared t).done _ _ yet) ∙ h))
]

-- What a join that returned has done.
abbrev pub Joined : (t before : ℕ) → (handle : Bool) → Phase → Option ℕ → Tasks → Type 0
Joined t before handle phase e v =
    (phase ≡ over e) × (handle ≡ true → IsOwned t before false phase v)

over_of :
    (phase : Phase) (e : Option ℕ) → is_over phase ≡ true → e ≡ thrown_in phase → phase ≡ over e
over_of runs e h k = absurd (cc h)
over_of (returned x) e h k = absurd (cc h)
over_of (over x) e h k = ap over (sym k)

pub join_locked-Joined :
    (t before : ℕ) (handle : Bool) (phase : Phase) (s : Tasks) (e : Option ℕ) (v : Tasks)
    → join_locked t s ≡ finishes e v
    → IsOwned t before handle phase s
    → Joined t before handle phase e v
join_locked-Joined t before handle phase s e v h o =
    let (d, k, r) = join_locked-done t s e v h in
    (
      over_of phase e (sym o.done ∙ d) (k ∙ o.exception),
      λ held. rw r (
          release-handle t before phase (record s { world = (unlock s.world (s.shared t).mutex).1 })
            (let o' : IsOwned t before true phase s =
                subst (λ b. IsOwned t before b phase s) held o in
              record {
                owners = o'.owners;
                destroyed = o'.destroyed;
                done = o'.done;
                exception = o'.exception;
              })),
    )

pub guarded-Joined :
    (t before : ℕ) (handle : Bool) (phase : Phase) (s : Tasks) (e : Option ℕ) (v : Tasks)
    (o : Outcome)
    → guarded o s (join_locked t) ≡ finishes e v
    → IsOwned t before handle phase s
    → Joined t before handle phase e v
unfolding guarded
guarded-Joined t before handle phase s e v (returns r w) h o =
    join_locked-Joined t before handle phase (record s { world = w }) e v h
      (record {
        owners = o.owners;
        destroyed = o.destroyed;
        done = o.done;
        exception = o.exception;
      })
guarded-Joined t before handle phase s e v (suspends w) h o = absurd cc
