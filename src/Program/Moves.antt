-- ===== src/Program/Moves.antt =====
-- How one coroutine goes from one place to another.
use libco.Base.{
  ℕ, ◌+◌, ◌<◌, ◌≤◌, ◌≡◌, Bool, false, Option, none, some, arith, inl, inr, Option-cases, refl, sym,
  ◌∙◌,
}
use libco.Runtime.{Routine, ready, running, waiting}
use libco.Runtime.Placed.{Place, nowhere, on_ready, on_queue}
use libco.Scheduler.{is_waiting}
use libco.Scheduler.Timers.{fired, fired-state}
use libco.Program.{Call, user, cond_wait, cond_timedwait, io_wait}
use libco.Program.Fits.{MayWait, Fits, calm}

MayWait-eq :
    (call : Call) (place : Place) (r s : Routine)
    → s.state ≡ r.state
    → s.timed_out ≡ r.timed_out
    → MayWait call place r
    → MayWait call place s
MayWait-eq user place r s a c h = (a ∙ h.0, h.1)
MayWait-eq (cond_wait m) place r s a c h = h
MayWait-eq (cond_timedwait m) place r s a c h = c ∙ h
MayWait-eq (io_wait none) place r s a c h = h
MayWait-eq (io_wait (some ms)) place r s a c h = c ∙ h

fired-unlisted : (r : Routine) → (fired r).cond_wait_queue ≡ none
unfolding fired
fired-unlisted r = elim (Option-cases r.cond_wait_queue) [
  | inl n ↦ rw n (ground (arith, n))
  | inr (q, e) ↦ rw e refl
]

module _ (is_cond : ℕ → Bool) where
  module _ (call : Call) (place : Place) (r : Routine) (timers : ℕ)
      (f : Fits is_cond call place r timers) where
    -- What the invariant reads of a coroutine.
    pub same-Fits :
        (s : Routine)
        → s.state ≡ r.state
        → s.cond_wait_queue ≡ r.cond_wait_queue
        → s.timed_out ≡ r.timed_out
        → Fits is_cond call place s timers
    same-Fits s a b c = record {
      once = f.once;
      on_record = λ q e. f.on_record q (sym b ∙ e);
      timed = λ w k. rw b (f.timed (rw a at w) k);
      may_wait = λ k. MayWait-eq call place r s a c (f.may_wait k);
      apart = λ i w. f.apart i (rw a at w);
      found = λ w e. f.found (rw a at w) e;
    }

    -- A stale timer is dropped.
    pub fewer-Fits :
        (left : ℕ) → left ≤ timers → is_waiting r.state ≡ false → Fits is_cond call place r left
    fewer-Fits left h idle = record {
      once = omega (arith, f.once);
      on_record = f.on_record;
      timed = λ w k. f.timed w (omega arith);
      may_wait = λ k. f.may_wait (omega arith);
      apart = f.apart;
      found = λ w e. let no_way = rw idle at w in absurd (cc no_way);
    }

    -- A coroutine on a line keeps its timer when it is taken off.
    keeps :
        (q : ℕ) (s : Routine)
        → place ≡ on_queue q
        → s.timed_out ≡ r.timed_out
        → 0 < timers
        → MayWait call on_ready s
    keeps q s e t k = go call (f.may_wait k)
      where
        go : (c : Call) → MayWait c place r → MayWait c on_ready s
        go user m = let no_way : nowhere ≡ on_queue q = sym m.1 ∙ e in absurd (cc no_way)
        go (cond_wait m) h = h
        go (cond_timedwait m) h = t ∙ h
        go (io_wait none) h = h
        go (io_wait (some ms)) h = t ∙ h

    -- Woken off a line that is not on record.
    pub woken-Fits :
        (q : ℕ)
        → place ≡ on_queue q
        → is_cond q ≡ false
        → Fits is_cond call on_ready (record r { state = ready }) timers
    woken-Fits q e n = record {
      once = f.once;
      on_record = λ c k.
          let (same, yes_cond) = f.on_record c k in
          let same_line : q ≡ c = cc in absurd (cc (same_line, n, yes_cond));
      timed = λ h. absurd (cc h);
      may_wait = keeps q _ e refl;
      apart = λ i h. absurd (cc h);
      found = λ h. absurd (cc h);
    }

    -- Notified, off the line of a condition variable.
    pub notified-Fits :
        (q : ℕ)
        → place ≡ on_queue q
        → Fits is_cond call on_ready (record r { state = ready; cond_wait_queue = none }) timers
    notified-Fits q e = record {
      once = f.once;
      on_record = λ c k. absurd (cc k);
      timed = λ h. absurd (cc h);
      may_wait = keeps q _ e refl;
      apart = λ i h. absurd (cc h);
      found = λ h. absurd (cc h);
    }

    pub fired-Fits : (left : ℕ) → timers ≡ left + 1 → Fits is_cond call on_ready (fired r) left
    fired-Fits left e =
        calm is_cond call on_ready (fired r) left (omega (arith, f.once)) (fired-unlisted r)
          (λ i h. let no_way = rw (fired-state r) at h in absurd (cc no_way))
          (λ h. let no_way = rw (fired-state r) at h in absurd (cc no_way))

  pub entered-Fits :
      (call : Call) (r : Routine) (timers : ℕ)
      → r.state ≡ ready
      → Fits is_cond call on_ready r timers
      → Fits is_cond call nowhere (record r { state = running }) timers
  entered-Fits call r timers e f = record {
    once = f.once;
    on_record =
        λ q k. let no_way : on_ready ≡ on_queue q = (f.on_record q k).0 in absurd (cc no_way);
    timed = λ h. absurd (cc h);
    may_wait = λ k. go call (f.may_wait k);
    apart = λ i h. absurd (cc h);
    found = λ h. absurd (cc h);
  }
    where
      go : (c : Call) → MayWait c on_ready r → MayWait c nowhere (record r { state = running })
      go user m = let no_way : waiting ≡ ready = sym m.0 ∙ e in absurd (cc no_way)
      go (cond_wait m) h = h
      go (cond_timedwait m) h = h
      go (io_wait none) h = h
      go (io_wait (some ms)) h = h

  -- The wait for I/O is over: there is an event.
  pub event-Fits :
      (timeout_ms : Option ℕ) (r s : Routine) (timers : ℕ)
      → Fits is_cond (io_wait timeout_ms) nowhere r timers
      → s.state ≡ ready
      → s.cond_wait_queue ≡ r.cond_wait_queue
      → s.timed_out ≡ r.timed_out
      → Fits is_cond (io_wait timeout_ms) on_ready s timers
  event-Fits ms r s timers f a b c = record {
    once = f.once;
    on_record = λ q k.
        let no_way : nowhere ≡ on_queue q = (f.on_record q (sym b ∙ k)).0 in absurd (cc no_way);
    timed = λ h. let no_way = rw a at h in absurd (cc no_way);
    may_wait = λ k. go ms (f.may_wait k);
    apart = λ i h. let no_way = rw a at h in absurd (cc no_way);
    found = λ h. let no_way = rw a at h in absurd (cc no_way);
  }
    where
      go : (o : Option ℕ) → MayWait (io_wait o) nowhere r → MayWait (io_wait o) on_ready s
      go none h = h
      go (some x) h = c ∙ h
