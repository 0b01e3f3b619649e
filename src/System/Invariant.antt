-- ===== src/System/Invariant.antt =====
-- No coroutine is ever on two queues.
use libco.Base.{
  ℕ, ◌≡◌, ◌≢◌, ◌<◌, refl, ap, true, false, Option, none, some, List, [], ◌∷◌, arith, ◌==◌,
  if◌then◌else◌, has, IsDistinct, store, inl, inr, Bool-cases,
}
use libco.Base.Tally.{occ, occ-has, occ-out}
use libco.Runtime.{World, current, ready}
use libco.Runtime.Placed.{Place, nowhere, on_ready, on_queue, is_on_ready, Placed, front-on}
use libco.Mutex.{unlock, unlock_to}
use libco.Mutex.Queues.{moved}
use libco.Cond.Wake.{moved_to_ready}
use libco.Coroutine
use libco.Coroutine.{yield_now, yield_as, finish}
use libco.Scheduler.{enter, leave, is_dead}
use libco.Scheduler.Ready.{dequeue}

-- The running coroutine, if there is one, is on no queue.
abbrev pub IsFree : Option ℕ → (ℕ → Place) → Type 0
IsFree none place = Unit {0}
IsFree (some p) place = place p ≡ nowhere

-- Every coroutine is on at most one queue, once, in the state that goes with it.
pub record Sound (w : World) (place : ℕ → Place) : Type 0 where
  pub placed : Placed w place
  pub free : IsFree w.sched.current place

occ-distinct : (p : ℕ) (xs : List ℕ) → IsDistinct xs → occ p xs ≡ (if has p xs then 1 else 0)
occ-distinct p [] d = refl
occ-distinct p (x ∷ xs) d = ground (arith, occ-distinct p xs, occ-out x xs)

pub start-Sound :
    (w : World)
    → IsDistinct w.sched.ready_queue
    → ((p : ℕ) → has p w.sched.ready_queue ≡ true → (w.routines p).state ≡ ready)
    → ((q : ℕ) → w.queues q ≡ [])
    → w.sched.current ≡ none
    → Sound w (λ p. if has p w.sched.ready_queue then on_ready else nowhere)
start-Sound w d s n c = record {
  placed = record {
    ready_once = λ p.
        rw (occ-distinct p w.sched.ready_queue d)
          (elim (Bool-cases (has p w.sched.ready_queue)) [ inl m ↦ rw m refl | inr m ↦ rw m refl ]);
    queue_once = λ p q.
        rw (n q)
          (elim (Bool-cases (has p w.sched.ready_queue)) [ inl m ↦ rw m refl | inr m ↦ rw m refl ]);
    agrees = λ p. elim (Bool-cases (has p w.sched.ready_queue)) [
      | inl m ↦ rw m (s p m)
      | inr m ↦ rw m tt
    ];
  };
  free = rw c tt;
}

-- What leaves the queues and states alone.
pub alike-Placed :
    (w v : World) (place : ℕ → Place)
    → v.sched.ready_queue ≡ w.sched.ready_queue
    → v.queues ≡ w.queues
    → ((p : ℕ) → (v.routines p).state ≡ (w.routines p).state)
    → Placed w place
    → Placed v place
alike-Placed w v place r q s h = record {
  ready_once = λ p. rw r (h.ready_once p);
  queue_once = λ p c. rw q (h.queue_once p c);
  agrees = λ p. rw (s p) (h.agrees p);
}

pub leave-Sound : (w : World) (place : ℕ → Place) (p : ℕ) → Placed w place → Sound (leave w p) place
unfolding leave Coroutine.destroy
leave-Sound w place p h = elim (Bool-cases (is_dead (w.routines p).state)) [
  | inl d ↦ rw d (elim (Bool-cases (p == 0)) [
    | inl z ↦ rw z (record { placed = alike-Placed w _ place refl refl (λ x. refl) h; free = tt })
    | inr n ↦
        rw n (record { placed = alike-Placed w _ place refl refl (λ x. ground arith) h; free = tt })
  ])
  | inr alive ↦
      rw alive (record { placed = alike-Placed w _ place refl refl (λ x. refl) h; free = tt })
]

pub current-running : (w : World) (p : ℕ) → current w ≡ some p → w.sched.current ≡ some p
unfolding current
current-running w p e = elim (Bool-cases w.active) [
  | inl on ↦ rw on at e
  | inr off ↦ let no_way = rw off at e in cc
]

pub running-free :
    (w : World) (place : ℕ → Place) (p : ℕ) → current w ≡ some p → Sound w place → place p ≡ nowhere
running-free w place p e h = rw (current-running w p e) at h.free

pub on_ready-is_on : (a : Place) → 0 < is_on_ready a → a ≡ on_ready
on_ready-is_on nowhere h = absurd (omega arith)
on_ready-is_on on_ready h = refl
on_ready-is_on (on_queue q) h = absurd (omega arith)

pub enter-Sound :
    (w : World) (place : ℕ → Place) (p : ℕ) (rest : List ℕ)
    → w.sched.ready_queue ≡ p ∷ rest
    → Placed w place
    → Sound (enter (dequeue w).1 p) (store place p nowhere)
unfolding enter dequeue
enter-Sound w place p rest e h = rw e (record {
  placed = record {
    ready_once = λ x. ground (arith, h.ready_once x, ap (occ x) e, was);
    queue_once = λ x q. ground (arith, h.queue_once x q, was);
    agrees = λ x. ground (arith, h.agrees x);
  };
  free = ground arith;
})
  where
    was : place p ≡ on_ready
    was = on_ready-is_on (place p) (ground (arith, h.ready_once p, ap (occ p) e))

-- A coroutine on no queue is on none of the lines.
nowhere-out :
    (w : World) (place : ℕ → Place) (p q : ℕ)
    → Placed w place
    → place p ≡ nowhere
    → has p (w.queues q) ≡ false
nowhere-out w place p q h e = elim (Bool-cases (has p (w.queues q))) [
  | inl m ↦ absurd (ground (arith, occ-has p (w.queues q) m, h.queue_once p q))
  | inr m ↦ m
]

pub unlock-current : (w : World) (m : ℕ) → m ≢ 0 → (unlock w m).1.sched.current ≡ w.sched.current
unfolding unlock
unlock-current w m h = let named : (m == 0) ≡ false = ground arith in rw named (go (w.queues m))
  where
    go : (line : List ℕ) → (unlock_to line w m).sched.current ≡ w.sched.current
    go [] = refl
    go (p ∷ rest) = refl

pub moved-free :
    (w : World) (place : ℕ → Place) (m : ℕ) (line : List ℕ) (c : Option ℕ)
    → w.queues m ≡ line
    → Placed w place
    → IsFree c place
    → IsFree c (moved place line)
moved-free w place m line none e h f = tt
moved-free w place m [] (some c) e h f = f
moved-free w place m (p ∷ rest) (some c) e h f = ground (arith, f, front-on w place m p rest h e)

pub ready-free :
    (w : World) (place : ℕ → Place) (cond : ℕ) (line : List ℕ) (c : Option ℕ)
    → ((p : ℕ) → has p line ≡ true → has p (w.queues cond) ≡ true)
    → Placed w place
    → IsFree c place
    → IsFree c (moved_to_ready place line)
ready-free w place cond line none sub h f = tt
ready-free w place cond line (some c) sub h f = elim (Bool-cases (has c line)) [
  | inl m ↦ absurd (ground (arith, sub c m, nowhere-out w place c cond h f))
  | inr m ↦ rw m f
]
