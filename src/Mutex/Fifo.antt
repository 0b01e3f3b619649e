-- ===== src/Mutex/Fifo.antt =====
-- A mutex over every interleaving of the coroutines that use it.
use libco.Base.{
  ℕ, ◌≡◌, ◌≢◌, ◌∙◌, inl, inr, refl, ap, sym, Bool, true, false, Option, none, some, List, [], ◌∷◌,
  ◌++◌, arith, ◌==◌, Bool-cases,
}
use mathlib.Core.List.{append-nil, append_assoc}
use libco.Queue.Refine.{last}
use libco.Runtime.{Error, ok, World, Mutex, returns, suspends, current, push_back}
use libco.Mutex.Laws.{Locked, taken, queued, lock-Locked}
use libco.Mutex.{take, lock, trylock, unlock, unlock_to}

-- The first of a line, as a list.
abbrev pub front_of : List ℕ → List ℕ
front_of [] = []
front_of (x ∷ xs) = x ∷ []

-- What can happen from a new mutex on. `asked` are the coroutines that called lock, or trylock with
-- success, in order; `got` are those that were given the mutex, in order: at their own call, or by
-- the unlock of the owner before them. In between, anything happens that leaves the mutex alone.
pub data Run (m : ℕ) : World → List ℕ → List ℕ → Type 0 where
  start :
      {w : World}
      → (w.mutexes m).locked ≡ false
      → (w.mutexes m).owner ≡ none
      → w.queues m ≡ []
      → Run m w [] []
  acquired :
      {w v : World} {asked got : List ℕ} (p : ℕ)
      → Run m w asked got
      → current w ≡ some p
      → lock w m ≡ returns ok v
      → Run m v (asked ++ p ∷ []) (got ++ p ∷ [])
  waited :
      {w v : World} {asked got : List ℕ} (p : ℕ)
      → Run m w asked got
      → current w ≡ some p
      → lock w m ≡ suspends v
      → Run m v (asked ++ p ∷ []) got
  tried :
      {w v : World} {asked got : List ℕ} (p : ℕ)
      → Run m w asked got
      → current w ≡ some p
      → trylock w m ≡ (ok, v)
      → Run m v (asked ++ p ∷ []) (got ++ p ∷ [])
  released :
      {w v : World} {asked got : List ℕ}
      → Run m w asked got
      → (w.mutexes m).locked ≡ true
      → unlock w m ≡ (ok, v)
      → Run m v asked (got ++ front_of (w.queues m))
  elsewhere :
      {w v : World} {asked got : List ℕ}
      → Run m w asked got
      → v.mutexes m ≡ w.mutexes m
      → v.queues m ≡ w.queues m
      → Run m v asked got

-- A free mutex has no owner and no line; the owner of a held one is the last that was given it.
abbrev pub Status : Bool → Option ℕ → List ℕ → List ℕ → Type 0
Status false owner line got = (owner ≡ none) × (line ≡ [])
Status true owner line got = owner ≡ last got

pub record IsFair (x : Mutex) (line asked got : List ℕ) : Type 0 where
  pub in_order : asked ≡ got ++ line
  pub status : Status x.locked x.owner line got

last-snoc : (xs : List ℕ) (x : ℕ) → last (xs ++ x ∷ []) ≡ some x
unfolding last
last-snoc [] x = refl
last-snoc (y ∷ []) x = refl
last-snoc (y ∷ z ∷ xs) x = last-snoc (z ∷ xs) x

take-IsFair :
    (x : Mutex) (line asked got : List ℕ) (p : ℕ)
    → IsFair x line asked got
    → x.locked ≡ false
    → IsFair (record { locked = true; owner = some p }) line (asked ++ p ∷ []) (got ++ p ∷ [])
take-IsFair x line asked got p f e =
    let no_line = (rw e at f.status).1 in
    record {
      in_order = rw (f.in_order, no_line, append-nil got, append-nil (got ++ p ∷ []));
      status = sym (last-snoc got p);
    }

queue-IsFair :
    (x : Mutex) (line asked got : List ℕ) (p : ℕ)
    → IsFair x line asked got
    → x.locked ≡ true
    → IsFair x (line ++ p ∷ []) (asked ++ p ∷ []) got
queue-IsFair x line asked got p f e = record {
  in_order = rw (f.in_order, append_assoc got line (p ∷ []));
  status = rw e (rw e at f.status);
}

-- What unlock makes of the mutex and its line.
unlocked : Mutex → List ℕ → Mutex × List ℕ
unlocked x [] = (record { locked = false; owner = none }, [])
unlocked x (p ∷ rest) = (record x { owner = some p }, rest)

unlock-IsFair :
    (x : Mutex) (line asked got : List ℕ)
    → IsFair x line asked got
    → x.locked ≡ true
    → IsFair (unlocked x line).0 (unlocked x line).1 asked (got ++ front_of line)
unfolding unlocked
unlock-IsFair x [] asked got f e = record {
  in_order = rw (f.in_order, append-nil (got ++ []));
  status = (refl, refl);
}
unlock-IsFair x (p ∷ rest) asked got f e = record {
  in_order = f.in_order ∙ sym (append_assoc got (p ∷ []) rest);
  status = rw e (sym (last-snoc got p));
}

unlock_to-unlocked :
    (line : List ℕ) (w : World) (m : ℕ)
    → w.queues m ≡ line
    → ((unlock_to line w m).mutexes m ≡ (unlocked (w.mutexes m) line).0)
      × ((unlock_to line w m).queues m ≡ (unlocked (w.mutexes m) line).1)
unfolding unlock_to unlocked
unlock_to-unlocked [] w m e = ground (arith, e)
unlock_to-unlocked (p ∷ rest) w m e = ground arith

pub lock-taken :
    {w : World} {m : ℕ} {v : World}
    → Locked w m (returns ok v)
    → ((w.mutexes m).locked ≡ false) × (v ≡ take w m (current w))
lock-taken (taken e s) = (e, s)

trylock-taken :
    (w v : World) (m : ℕ)
    → m ≢ 0
    → trylock w m ≡ (ok, v)
    → ((w.mutexes m).locked ≡ false) × (v ≡ take w m (current w))
unfolding trylock
trylock-taken w v m h e =
    let named : (m == 0) ≡ false = ground arith in
    let e' = rw named at e in
    elim (Bool-cases (w.mutexes m).locked) [
      | inl held ↦ let no_way = rw held at e' in cc
      | inr free ↦ let got = rw free at e' in (free, sym (ap (λ (r : Error × World). r.1) got))
    ]

unlock-made : (w v : World) (m : ℕ) → m ≢ 0 → unlock w m ≡ (ok, v) → v ≡ unlock_to (w.queues m) w m
unfolding unlock
unlock-made w v m h e =
    let named : (m == 0) ≡ false = ground arith in
    sym (ap (λ (r : Error × World). r.1) (rw named at e))

take-at :
    (w : World) (m : ℕ) (o : Option ℕ)
    → (take w m o).mutexes m ≡ record { locked = true; owner = o }
take-at w m o = ground arith

lock-queued :
    {w : World} {m : ℕ} {v : World} (p : ℕ)
    → Locked w m (suspends v)
    → current w ≡ some p
    → ((w.mutexes m).locked ≡ true)
      × (v.mutexes m ≡ w.mutexes m)
      × (v.queues m ≡ push_back (w.queues m) p)
lock-queued p (queued q held e same line state) f =
    let eq : q ≡ p = cc in (held, same, rw eq at line)

-- In every run of calls from a free mutex that is not NULL, the mutex is given in the order in
-- which it was asked for: those that asked are those that got it, then those in line. A held mutex
-- is owned by the last that got it; a free one has no owner and nobody in line.
pub Run-IsFair :
    (m : ℕ) {w : World} {asked got : List ℕ}
    → m ≢ 0
    → Run m w asked got
    → IsFair (w.mutexes m) (w.queues m) asked got
Run-IsFair m h (start e f g) = record { in_order = sym g; status = rw e (f, g) }
Run-IsFair m h (acquired {w} {v} {asked} {got} p r c e) =
    let ih = Run-IsFair m h r in
    let (free, made) = lock-taken (rw e at (lock-Locked w m h)) in
    rw (made, c, take-at w m (some p)) (take-IsFair (w.mutexes m) (w.queues m) asked got p ih free)
Run-IsFair m h (waited {w} {v} {asked} {got} p r c e) =
    let ih = Run-IsFair m h r in
    let (held, same, line) = lock-queued p (rw e at (lock-Locked w m h)) c in
    rw (same, line) (queue-IsFair (w.mutexes m) (w.queues m) asked got p ih held)
Run-IsFair m h (tried {w} {v} {asked} {got} p r c e) =
    let ih = Run-IsFair m h r in
    let (free, made) = trylock-taken w v m h e in
    rw (made, c, take-at w m (some p)) (take-IsFair (w.mutexes m) (w.queues m) asked got p ih free)
Run-IsFair m h (released {w} {v} {asked} {got} r held e) =
    let ih = Run-IsFair m h r in
    let made : v ≡ unlock_to (w.queues m) w m = unlock-made w v m h e in
    let (x, line) = unlock_to-unlocked (w.queues m) w m refl in
    rw (made, x, line) (unlock-IsFair (w.mutexes m) (w.queues m) asked got ih held)
Run-IsFair m h (elsewhere r same line) = rw (same, line) (Run-IsFair m h r)
