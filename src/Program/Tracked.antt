-- ===== src/Program/Tracked.antt =====
-- Where the coroutines of a program that is reached are: who is READY, and who waits in which line.
use libco.Base.{
  ℕ, ◌≡◌, ◌⊎◌, refl, sym, ap, ◌∙◌, subst, Bool, true, false, Option, none, some, List, ◌∷◌, ◌==◌,
  arith, store, has, inl, inr, Bool-cases, eq_of_some,
}
use libco.Base.Tally.{occ-has}
use libco.Runtime.{World, Outcome, returns, suspends, ready, running}
use libco.Runtime.Placed.{Place}
use libco.Coroutine
use libco.Scheduler.{enter, leave}
use libco.Scheduler.Ready.{dequeue}
use libco.System.Invariant.{current-running}
use libco.Program.{
  Program, Call, Spawned, call_after, perform, switched, Step, enters, does, time_passes, event,
  Reach, start, step,
}
use libco.Program.Invariant.{Sound, IsFree}
use libco.Program.Reachable.{IsOrderly, Reach-IsOrderly}
use libco.Program.Tame.{Tame, Acts}
use libco.Program.Lines.{line_of, perform-Acts}
use libco.Program.Quiet.{wake_timers-Tame, wake_waiter-Tame}

-- Who is READY is in the ready queue, or runs; and who is in a line is in the one that the last call
-- which suspended it names.
pub record IsTracked (w : World) (lines : ℕ → Option ℕ) : Type 0 where
  pub ready_in :
      (p : ℕ)
      → (w.routines p).state ≡ ready
      → (has p w.sched.ready_queue ≡ true) ⊎ (w.sched.current ≡ some p)
  pub in_line : (p q : ℕ) → has p (w.queues q) ≡ true → lines p ≡ some q

-- The lines that the coroutines named, after a call of `p`.
unfoldable pub asked : (ℕ → Option ℕ) → (p : ℕ) → Option ℕ → Outcome → ℕ → Option ℕ
asked lines p line (returns e v) = lines
asked lines p line (suspends v) = store lines p line

leave-Tame :
    (mine : ℕ → Bool) (w : World) (p : ℕ)
    → ((leave w p).sched.ready_queue ≡ w.sched.ready_queue)
      × ((leave w p).queues ≡ w.queues)
      × ((x : ℕ) → ((leave w p).routines x).state ≡ (w.routines x).state)
unfolding leave Coroutine.destroy
leave-Tame mine w p = (ground arith, ground arith, λ x. ground arith)

quiet-IsTracked :
    (w v : World) (lines : ℕ → Option ℕ)
    → ((mine : ℕ → Bool) (line : Option ℕ) → Tame mine line w v)
    → IsTracked w lines
    → IsTracked v lines
quiet-IsTracked w v lines f t =
    let a = f (λ x. false) none in
    record {
      ready_in = λ p h. elim (a.states p refl h) [
        | inr k ↦ inl k
        | inl s ↦ elim (t.ready_in p s) [ inl k ↦ inl (a.keeps p k) | inr c ↦ inr (a.current ∙ c) ]
      ];
      in_line =
          λ p q h. elim (a.lines p q h) [ inl k ↦ t.in_line p q k | inr (n, k) ↦ absurd (cc n) ];
    }

enter-IsTracked :
    (w : World) (p : ℕ) (rest : List ℕ) (lines : ℕ → Option ℕ)
    → w.sched.current ≡ none
    → w.sched.ready_queue ≡ p ∷ rest
    → IsTracked w lines
    → IsTracked (enter (dequeue w).1 p) lines
unfolding enter dequeue
enter-IsTracked w p rest lines c e t = rw e (record {
  ready_in = λ x h. elim (Bool-cases (p == x)) [
    | inl mine ↦ let no_way : running ≡ ready = rw mine at h in absurd (cc no_way)
    | inr other ↦ elim (t.ready_in x (rw other at h)) [
      | inl k ↦ let k' : has x (p ∷ rest) ≡ true = rw e at k in inl (ground (arith, k', other))
      | inr now ↦ let no_way = sym c ∙ now in absurd (cc no_way)
    ]
  ];
  in_line = t.in_line;
})

abbrev Unlined : (p : ℕ) → Outcome → Type 0
Unlined p (returns e v) = (q : ℕ) → has p (v.queues q) ≡ false
Unlined p (suspends v) = Unit

-- A call of the running coroutine, which is on no line before, nor after it returned.
switched-IsTracked :
    (w : World) (p : ℕ) (line : Option ℕ) (o : Outcome) (lines : ℕ → Option ℕ)
    → w.sched.current ≡ some p
    → ((q : ℕ) → has p (w.queues q) ≡ false)
    → Unlined p o
    → Acts p line w o
    → IsTracked w lines
    → IsTracked (switched o p) (asked lines p line o)
unfolding switched asked
switched-IsTracked w p line (returns e v) lines c before after a t = record {
  ready_in = λ x h. elim (Bool-cases (p == x)) [
    | inl mine ↦ let it : p ≡ x = ground (arith, mine) in inr (a.current ∙ c ∙ ap some it)
    | inr other ↦ elim (a.states x other h) [
      | inr k ↦ inl k
      | inl s ↦ elim (t.ready_in x s) [
        | inl k ↦ inl (a.keeps x k)
        | inr now ↦ inr (a.current ∙ now)
      ]
    ]
  ];
  in_line = λ x q h. elim (a.lines x q h) [
    | inl k ↦ t.in_line x q k
    | inr (mine, k) ↦
        let it : p ≡ x = ground (arith, mine) in
        let out = after q in let no_way = sym (rw it at out) ∙ h in absurd (cc no_way)
  ];
}
switched-IsTracked w p line (suspends v) lines c before after (a, own) t =
    let (same_ready, same_queues, same_states) = leave-Tame (λ x. false) v p in
    record {
      ready_in = λ x h. rw same_ready (elim (Bool-cases (p == x)) [
        | inl mine ↦
            let it : p ≡ x = ground (arith, mine) in
            inl (
              subst (λ y. has y v.sched.ready_queue ≡ true) it
                (own
                  (subst (λ y. (v.routines y).state ≡ ready) (sym it) (sym (same_states x) ∙ h))))
        | inr other ↦ elim (a.states x other (sym (same_states x) ∙ h)) [
          | inr k ↦ inl k
          | inl s ↦ elim (t.ready_in x s) [
            | inl k ↦ inl (a.keeps x k)
            | inr now ↦
                let it : p ≡ x = eq_of_some (sym c ∙ now) in absurd (ground (arith, it, other))
          ]
        ]
      ]);
      in_line = λ x q h. elim (Bool-cases (p == x)) [
        | inl mine ↦
            let it : p ≡ x = ground (arith, mine) in
            rw mine (elim (a.lines x q (rw same_queues at h)) [
              | inl k ↦
                  let out = before q in let no_way = sym (rw it at out) ∙ k in absurd (cc no_way)
              | inr (m, k) ↦ k
            ])
        | inr other ↦ rw other (elim (a.lines x q (rw same_queues at h)) [
          | inl k ↦ t.in_line x q k
          | inr (m, k) ↦ let no_way = sym other ∙ m in absurd (cc no_way)
        ])
      ];
    }

module _ (is_cond : ℕ → Bool) where
  -- The line that each coroutine named in the last call which suspended it.
  unfoldable pub lines_after : {s t : Program} → (ℕ → Option ℕ) → Step is_cond s t → ℕ → Option ℕ
  unfolding asked perform
  lines_after lines (enters p rest c e) = lines
  lines_after {s} lines (does p op c legal) =
      asked lines p (line_of s.world op) (perform s.world p op)
  lines_after lines (time_passes now c) = lines
  lines_after lines (event p ms c e) = lines

  unfoldable pub lines_of : {s : Program} → Reach is_cond s → ℕ → Option ℕ
  unfolding lines_after
  lines_of (start s) = λ p. none
  lines_of (step r m) = lines_after (lines_of r) m

  -- The running coroutine is in no line.
  running-out :
      (w : World) (calls : ℕ → Call) (place : ℕ → Place) (p q : ℕ)
      → w.sched.current ≡ some p
      → Sound is_cond w calls place
      → has p (w.queues q) ≡ false
  running-out w calls place p q c h =
      let free : IsFree (some p) w place = subst (λ (o : Option ℕ). IsFree o w place) c h.free in
      elim (Bool-cases (has p (w.queues q))) [
        | inr out ↦ out
        | inl there ↦
            absurd
              (ground (arith, h.core.placed.queue_once p q, occ-has p (w.queues q) there, free.0))
      ]

  switched-Unlined :
      (w : World) (p : ℕ) (line : Option ℕ) (o : Outcome) (calls : ℕ → Call) (place : ℕ → Place)
      → w.sched.current ≡ some p
      → Acts p line w o
      → Sound is_cond (switched o p) calls place
      → Unlined p o
  unfolding switched
  switched-Unlined w p line (returns e v) calls place c a h =
      λ q. running-out v calls place p q (a.current ∙ c) h
  switched-Unlined w p line (suspends v) calls place c a h = tt

  Step-IsTracked :
      {s t : Program} (lines : ℕ → Option ℕ) (m : Step is_cond s t)
      → IsOrderly is_cond s
      → IsOrderly is_cond t
      → IsTracked s.world lines
      → IsTracked t.world (lines_after lines m)
  unfolding lines_after
  Step-IsTracked {s} lines (enters p rest c e) o o' t = enter-IsTracked s.world p rest lines c e t
  Step-IsTracked {s} lines (time_passes now c) o o' t =
      quiet-IsTracked s.world _ lines (λ mine line. wake_timers-Tame mine line s.world now) t
  Step-IsTracked {s} lines (event p ms c e) o o' t =
      quiet-IsTracked s.world _ lines (λ mine line. wake_waiter-Tame mine line s.world p) t
  Step-IsTracked {s} lines (does p op c legal) (place, h) (place', h') t =
      let now = current-running s.world p c in
      let o = perform s.world p op in
      let acts = perform-Acts s.world p op c in
      switched-IsTracked s.world p (line_of s.world op) o lines now
        (λ q. running-out s.world s.calls place p q now h)
        (switched-Unlined s.world p (line_of s.world op) o (store s.calls p (call_after op o))
          place' now acts h')
        acts t

  start-IsTracked : (w : World) → Spawned w → IsTracked w (λ p. none)
  start-IsTracked w s = record {
    ready_in = λ p h. inl (s.all_in p h);
    in_line = λ p q h. let no_way = rw (s.no_lines q) at h in absurd (cc no_way);
  }

  orderly-IsTracked : (s : Program) (r : Reach is_cond s) → IsTracked s.world (lines_of r)
  unfolding lines_of
  orderly-IsTracked s (start {w} spawned) = start-IsTracked w spawned
  orderly-IsTracked s (step {u} r m) =
      Step-IsTracked (lines_of r) m (Reach-IsOrderly is_cond u r)
        (Reach-IsOrderly is_cond s (step r m)) (orderly-IsTracked u r)

  -- Spawn some coroutines and run them. Whatever mutexes, condition variables and channels they use,
  -- with time-outs or without, and whenever they sleep, wait for I/O, yield or end: each coroutine is
  -- always linked into at most one queue, once. It is in the ready queue only if it is READY, and if it
  -- is READY it is in the ready queue, or is the scheduler's current one; the running one is linked
  -- into none. In a line it is only where it waits, and the line is the one that the last call which
  -- suspended it is about: that of the mutex of a lock or of a wait's way back, of the condition
  -- variable of a wait, or the senders' or the receivers' of the channel. It has at most one timer, and
  -- that only while it sleeps, or in a timed call that has not timed out; if it waits with one, it
  -- waits in the line on its record, or in none if there is none. One that waits in no line has a
  -- timer, or waits for I/O. The timer heap is valid. The program uses no address as a condition
  -- variable and as a mutex or a line of a channel; a wait for I/O with a time-out is registered, and
  -- meets no error event.
  pub Reach-IsTracked :
      (s : Program) (r : Reach is_cond s) → IsOrderly is_cond s × IsTracked s.world (lines_of r)
  Reach-IsTracked s r = (Reach-IsOrderly is_cond s r, orderly-IsTracked s r)
