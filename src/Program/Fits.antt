-- ===== src/Program/Fits.antt =====
-- What is known of one coroutine.
use libco.Base.{
  ℕ, ◌<◌, ◌≤◌, ◌≡◌, Bool, true, false, Option, none, some, arith, inl, inr, Bool-cases,
  Option-cases, refl, ltb, ◌⊎◌,
}
use libco.Runtime.{Routine, waiting}
use libco.Runtime.Placed.{Place, nowhere, on_queue}
use libco.Scheduler.{is_waiting}
use libco.System.Timeouts.{recorded}
use libco.Program.{Call, user, cond_wait, cond_timedwait, io_wait}

-- When a coroutine may have a timer: while it sleeps, and from the start of a timed call until that
-- is resumed, unless it has timed out.
abbrev pub MayWait : Call → Place → Routine → Type 0
MayWait user place r = (r.state ≡ waiting) × (place ≡ nowhere)
MayWait (cond_wait m) place r = ⊥
MayWait (cond_timedwait m) place r = r.timed_out ≡ false
MayWait (io_wait none) place r = ⊥
MayWait (io_wait (some ms)) place r = r.timed_out ≡ false

abbrev pub is_io : Call → Bool
is_io (io_wait ms) = true
is_io call = false

module _ (is_cond : ℕ → Bool) where
  -- A coroutine with `timers` entries in the heap, in a call, and linked at `place`.
  pub record Fits (call : Call) (place : Place) (r : Routine) (timers : ℕ) : Type 0 where
    pub once : timers ≤ 1
    pub on_record : (q : ℕ) → r.cond_wait_queue ≡ some q → (place ≡ on_queue q) × (is_cond q ≡ true)
    pub timed : is_waiting r.state ≡ true → 0 < timers → place ≡ recorded r.cond_wait_queue
    pub may_wait : 0 < timers → MayWait call place r
    pub apart : is_io call ≡ true → is_waiting r.state ≡ true → place ≡ nowhere
    pub found : is_waiting r.state ≡ true → place ≡ nowhere → (0 < timers) ⊎ (is_io call ≡ true)

  no_timer : (timers : ℕ) → (0 < timers → ⊥) → timers ≡ 0
  no_timer timers h = elim (Bool-cases (ltb 0 timers)) [
    | inl more ↦ absurd (h (ground arith))
    | inr none_there ↦ ground arith
  ]

  -- A coroutine with no timer and no line on record.
  pub calm :
      (call : Call) (place : Place) (r : Routine) (timers : ℕ)
      → timers ≡ 0
      → r.cond_wait_queue ≡ none
      → (is_io call ≡ true → is_waiting r.state ≡ true → place ≡ nowhere)
      → (is_waiting r.state ≡ true → place ≡ nowhere → is_io call ≡ true)
      → Fits call place r timers
  calm call place r timers z n a b = record {
    once = omega arith;
    on_record = λ q e. let no_way : none ≡ some q = rw n at e in absurd (cc no_way);
    timed = λ h k. absurd (omega arith);
    may_wait = λ k. absurd (omega arith);
    apart = a;
    found = λ w e. inr (b w e);
  }

  -- A coroutine with a timer, and in no line.
  pub off_line :
      (call : Call) (place : Place) (r : Routine) (timers : ℕ)
      → timers ≡ 1
      → r.cond_wait_queue ≡ none
      → place ≡ nowhere
      → MayWait call nowhere r
      → Fits call place r timers
  off_line call place r timers h n e m = record {
    once = omega arith;
    on_record = λ q k. let no_way : none ≡ some q = rw n at k in absurd (cc no_way);
    timed = λ w k. rw (n, e) refl;
    may_wait = λ k. rw e m;
    apart = λ i w. e;
    found = λ w f. inl (omega arith);
  }

  -- A timed waiter in its line.
  pub listed-Fits :
      (m cond : ℕ) (r : Routine) (timers : ℕ)
      → timers ≤ 1
      → r.cond_wait_queue ≡ some cond
      → is_cond cond ≡ true
      → r.timed_out ≡ false
      → Fits (cond_timedwait m) (on_queue cond) r timers
  listed-Fits m cond r timers h e n t = record {
    once = h;
    on_record = λ q k. let same : cond ≡ q = cc in rw (← same) (refl, n);
    timed = λ w k. rw e refl;
    may_wait = λ k. t;
    apart = λ i w. let no_way : false ≡ true = i in absurd (cc no_way);
    found = λ w f. let no_way : on_queue cond ≡ nowhere = f in absurd (cc no_way);
  }

  -- A running coroutine has no line on record, and a timer only in a timed call.
  module _ (r : Routine) (timers : ℕ) where
    pub unlisted : (call : Call) → Fits call nowhere r timers → r.cond_wait_queue ≡ none
    unlisted call f = elim (Option-cases r.cond_wait_queue) [
      | inl n ↦ n
      | inr (q, e) ↦ let no_way : nowhere ≡ on_queue q = (f.on_record q e).0 in absurd (cc no_way)
    ]

    pub user-calm : Fits user nowhere r timers → is_waiting r.state ≡ false → timers ≡ 0
    user-calm f e =
        no_timer timers (λ k. let no_way = rw (f.may_wait k).0 at e in absurd (cc no_way))

    pub cond_wait-calm : (m : ℕ) → Fits (cond_wait m) nowhere r timers → timers ≡ 0
    cond_wait-calm m f = no_timer timers f.may_wait

    pub timedwait-calm :
        (m : ℕ) → Fits (cond_timedwait m) nowhere r timers → r.timed_out ≡ true → timers ≡ 0
    timedwait-calm m f e = no_timer timers (λ k. let no_way = f.may_wait k in absurd (cc no_way))

    pub io-calm :
        (ms : Option ℕ)
        → Fits (io_wait ms) nowhere r timers
        → (r.timed_out ≡ true) ⊎ (ms ≡ none)
        → timers ≡ 0
    io-calm none f e = no_timer timers f.may_wait
    io-calm (some ms) f (inl e) =
        no_timer timers (λ k. let no_way = f.may_wait k in absurd (cc no_way))
    io-calm (some ms) f (inr e) = absurd (cc e)
